-- ===== src/Configuration/Switched.antt =====
-- What `switchConfiguration` of src/core/engine/engine_setting.cpp leaves.
use yamy.Base.{
  ℕ, zero, suc, ◌+◌, ◌<◌, ◌≤◌, ◌≡◌, refl, sym, ap, ◌∙◌, subst, Bool, true, false, not, Option, none,
  some, List, ◌∷◌, ◌==◌, leb, ◌⊎◌, if◌then◌else◌, Bool-cases, inl, inr, arith,
}
use yamy.Configuration.{
  Configuration, max_retries, delete, report, set_setting, retry, after_retry, apply_setting,
  switch_configuration,
}

-- The loop ends with the first attempt at which the engine is not busy.
retry_ends :
    (left count first : ℕ) (busy : ℕ → Bool) (p : ℕ) (s : Configuration)
    → ((i : ℕ) → i < first → busy i ≡ true)
    → busy first ≡ false
    → count ≤ first
    → first ≤ count + left
    → retry left count busy p s ≡ (first, record s { setting = some p })
unfolding retry set_setting
retry_ends zero count first busy p s before now le below =
    let e : count ≡ first = omega (arith, le, below) in
    let free : busy count ≡ false = ap busy e ∙ now in
    rw free (ap (λ n. (n, record s { setting = some p })) e)
retry_ends (suc left) count first busy p s before now le below =
    elim (Bool-cases (count == first)) [
      | inl y ↦
          let e : count ≡ first = ground (arith, y) in
          let free : busy count ≡ false = ap busy e ∙ now in
          rw free (ap (λ n. (n, record s { setting = some p })) e)
      | inr n ↦ rw (before count (ground (arith, n, le))) (
          retry_ends left (suc count) first busy p s before now (ground (arith, n, le))
            (omega (arith, below)))
    ]

-- A call with a new path whose file is there and loads.
switch_loaded :
    (is_file load busy : ℕ → Bool) (path : ℕ) (s : Configuration)
    → (s.current_config_path == path) ≡ false
    → is_file path ≡ true
    → load path ≡ true
    → switch_configuration is_file load busy path s
      ≡ apply_setting busy s.next path (record s { next = suc s.next })
unfolding switch_configuration
switch_loaded is_file load busy path s other there loaded = rw (other, there, loaded) refl

abbrev pub freed : Option ℕ → List ℕ → List ℕ
freed none l = l
freed (some p) l = p ∷ l

-- What a call leaves whose new setting was installed, and what it returns.
abbrev pub Installed : Bool → ℕ → Configuration → Bool × Configuration → Type 0
Installed in_time path s (success, t) =
    (success ≡ in_time)
    × (t.setting ≡ some s.next)
    × (t.deleted ≡ (if in_time then freed s.setting s.deleted else s.next ∷ s.deleted))
    × (t.current_config_path ≡ (if in_time then path else s.current_config_path))
    × (t.reports ≡ (in_time, path) ∷ s.reports)

after-Installed :
    (late : Bool) (old : Option ℕ) (count path : ℕ) (s : Configuration)
    → leb max_retries count ≡ late
    → s.setting ≡ old
    → Installed
        (not late)
        path
        s
        (after_retry old s.next path (count, record s { next = suc s.next; setting = some s.next }))
unfolding after_retry report delete
after-Installed true old count path s e o = rw e (refl, refl, refl, refl, refl)
after-Installed false none count path s e o =
    rw e (refl, refl, ap (λ q. freed q s.deleted) (sym o), refl, refl)
after-Installed false (some q) count path s e o =
    rw e (refl, refl, ap (λ q. freed q s.deleted) (sym o), refl, refl)

-- Let the path be new and its file be there and load, and let the engine be busy at the attempts
-- before one of the eleven, and not at that one, where it takes the new setting. If it is one of the
-- first ten, the call deletes the old setting, keeps the path and reports success. If it is the last,
-- the call reports failure and deletes the setting that the engine now uses.
pub switch_configuration-Installed :
    (is_file load busy : ℕ → Bool) (path first : ℕ) (s : Configuration)
    → (s.current_config_path == path) ≡ false
    → is_file path ≡ true
    → load path ≡ true
    → ((i : ℕ) → i < first → busy i ≡ true)
    → busy first ≡ false
    → first ≤ max_retries
    → Installed (not (first == max_retries)) path s (switch_configuration is_file load busy path s)
unfolding apply_setting
switch_configuration-Installed is_file load busy path first s other there loaded before now le =
    let made = record s { next = suc s.next } in
    let last : leb max_retries first ≡ (first == max_retries) = ground (arith, le) in
    subst (Installed (not (first == max_retries)) path s)
      (sym (
        switch_loaded is_file load busy path s other there loaded
        ∙ ap (after_retry s.setting s.next path) (
            retry_ends max_retries 0 first busy s.next made before now (omega arith)
              (omega (arith, le)))))
      (after-Installed (first == max_retries) s.setting first path s last refl)

retry_busy :
    (left count : ℕ) (busy : ℕ → Bool) (p : ℕ) (s : Configuration)
    → ((i : ℕ) → i ≤ count + left → busy i ≡ true)
    → retry left count busy p s ≡ (count + left, s)
unfolding retry set_setting
retry_busy zero count busy p s h = rw (h count (omega arith)) (ap (λ n. (n, s)) (omega arith))
retry_busy (suc left) count busy p s h = rw (h count (omega arith)) (
    retry_busy left (suc count) busy p s (λ i le. h i (omega (arith, le)))
    ∙ ap (λ n. (n, s)) (omega arith))

-- What a failed call leaves, and what it returns: the old setting stays and is not deleted.
abbrev pub RolledBack : ℕ → Configuration → Bool × Configuration → Type 0
RolledBack path s (success, t) =
    (success ≡ false)
    × (t.setting ≡ s.setting)
    × ((t.deleted ≡ s.deleted) ⊎ (t.deleted ≡ s.next ∷ s.deleted))
    × (t.current_config_path ≡ s.current_config_path)
    × (t.reports ≡ (false, path) ∷ s.reports)

busy-RolledBack :
    (busy : ℕ → Bool) (path : ℕ) (s : Configuration)
    → ((i : ℕ) → i ≤ max_retries → busy i ≡ true)
    → RolledBack path s (apply_setting busy s.next path (record s { next = suc s.next }))
unfolding apply_setting after_retry report delete
busy-RolledBack busy path s h =
    let made = record s { next = suc s.next } in
    subst (RolledBack path s)
      (sym (
        ap (after_retry s.setting s.next path)
          (retry_busy max_retries 0 busy s.next made (λ i le. h i (omega (arith, le))))))
      (refl, refl, inr refl, refl, refl)

-- With a new path, if its file is not there or does not load, or the engine is busy at all eleven
-- attempts, the call reports failure and keeps the setting and the path, and deletes nothing but the
-- setting that it made.
pub switch_configuration-RolledBack :
    (is_file load busy : ℕ → Bool) (path : ℕ) (s : Configuration)
    → (s.current_config_path == path) ≡ false
    → (is_file path ≡ false) ⊎ ((load path ≡ false) ⊎ ((i : ℕ) → i ≤ max_retries → busy i ≡ true))
    → RolledBack path s (switch_configuration is_file load busy path s)
unfolding switch_configuration report delete
switch_configuration-RolledBack is_file load busy path s other fails =
    elim (Bool-cases (is_file path)) [
      | inr n ↦ rw (other, n) (refl, refl, inl refl, refl, refl)
      | inl y ↦ elim (Bool-cases (load path)) [
        | inr m ↦ rw (other, y, m) (refl, refl, inr refl, refl, refl)
        | inl l ↦ rw (other, y, l) (busy-RolledBack busy path s (at_last fails y l))
      ]
    ]
  where
    at_last :
        (is_file path ≡ false) ⊎ ((load path ≡ false) ⊎ ((i : ℕ) → i ≤ max_retries → busy i ≡ true))
        → is_file path ≡ true
        → load path ≡ true
        → (i : ℕ) → i ≤ max_retries
        → busy i ≡ true
    at_last (inl n) y l = cc
    at_last (inr (inl m)) y l = cc
    at_last (inr (inr h)) y l = h
