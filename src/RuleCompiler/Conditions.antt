-- ===== src/RuleCompiler/Conditions.antt =====
-- What a rule under construction in src/core/engine/engine.cpp accepts, one modifier after another.
use yamy.Base.{
  ℕ, zero, suc, ◌+◌, ◌≤◌, ◌<◌, ◌≡◌, refl, ap, ◌∙◌, Bool, true, not, ◌&&◌, ◌||◌, List, [], ◌∷◌, ◌++◌,
  arith, Bits, if◌then◌else◌,
}
use yamy.Modifier.{
  Modifier, is_pressed, is_dontcare, type_shift, type_control, type_alt, type_windows,
  type_caps_lock, type_num_lock, type_scroll_lock, type_up,
}
use yamy.ModifierState.{virtual_offset, lock_offset, total_bits}
use yamy.ModifiedKey.{ModifiedKey, is_virtual_mod_active}
use yamy.RuleTable.{CompiledRule, matches}
use yamy.RuleCompiler.{
  Draft, type_lock0, require_off, generic, specific, virtual_mods, locks, generics, specifics,
}
use yamy.RuleCompiler.Expansion.{some_side, FlagsOk}
use yamy.RuleCompiler.Logic.{matches-base_rule, matches-require_on, matches-require_off}

-- The condition of one modifier type, with the value it has in the state: on, off, or don't care.
abbrev pub wants : Modifier → ℕ → Bool → Bool
wants m type value =
    if is_pressed m type then value else if is_dontcare m type then true else not value

some_side-append :
    (ps qs : List (ℕ × ℕ)) (s : Bits) → some_side (ps ++ qs) s ≡ (some_side ps s && some_side qs s)
some_side-append [] qs s = refl
some_side-append ((l, r) ∷ ps) qs s = ground (arith, some_side-append ps qs s)

-- What a draft accepts.
abbrev pub accepts : Draft → Bits → Bool
accepts d s = some_side d.generic_modifiers s && matches d.rule s

append-FlagsOk :
    (ps : List (ℕ × ℕ)) (l r : ℕ)
    → l < total_bits
    → r < total_bits
    → FlagsOk ps
    → FlagsOk (ps ++ (l, r) ∷ [])
append-FlagsOk [] l r hl hr ok = ((hl, hr), tt)
append-FlagsOk (p ∷ ps) l r hl hr ok = (ok.0, append-FlagsOk ps l r hl hr ok.1)

generic-FlagsOk :
    (m : Modifier) (type l r : ℕ) (d : Draft)
    → l < total_bits
    → r < total_bits
    → FlagsOk d.generic_modifiers
    → FlagsOk (generic m type l r d).generic_modifiers
unfolding generic
generic-FlagsOk m type l r d hl hr ok =
    ground (arith, append-FlagsOk d.generic_modifiers l r hl hr ok)

accepts-generic :
    (m : Modifier) (type l r : ℕ) (d : Draft) (s : Bits)
    → l < total_bits
    → r < total_bits
    → accepts (generic m type l r d) s ≡ (wants m type (s l || s r) && accepts d s)
unfolding generic
accepts-generic m type l r d s hl hr = ground (
  arith,
  some_side-append d.generic_modifiers ((l, r) ∷ []) s,
  matches-require_off (require_off l d.rule) r s hr,
  matches-require_off d.rule l s hl,
)

matches-specific :
    (m : Modifier) (type f : ℕ) (r : CompiledRule) (s : Bits)
    → f < total_bits
    → matches (specific m type f r) s ≡ (wants m type (s f) && matches r s)
unfolding specific
matches-specific m type f r s h =
    ground (arith, matches-require_on r f s h, matches-require_off r f s h)

-- Every virtual modifier below n that the key asks for is active.
unfoldable pub wants_virtual : ℕ → ModifiedKey → Bits → Bool
wants_virtual zero mk s = true
wants_virtual (suc i) mk s =
    (if is_virtual_mod_active mk i then s (virtual_offset + i) else true) && wants_virtual i mk s

matches-virtual_mods :
    (n : ℕ) (mk : ModifiedKey) (r : CompiledRule) (s : Bits)
    → n ≤ 256
    → matches (virtual_mods n mk r) s ≡ (wants_virtual n mk s && matches r s)
unfolding virtual_mods wants_virtual
matches-virtual_mods zero mk r s h = refl
matches-virtual_mods (suc i) mk r s h = ground (
  arith,
  matches-virtual_mods i mk r s (omega arith),
  matches-require_on (virtual_mods i mk r) (virtual_offset + i) s (omega arith),
)

-- Every lock below n is as the key asks.
unfoldable pub wants_locks : ℕ → Modifier → Bits → Bool
wants_locks zero m s = true
wants_locks (suc i) m s = wants m (type_lock0 + i) (s (lock_offset + i)) && wants_locks i m s

matches-locks :
    (n : ℕ) (m : Modifier) (r : CompiledRule) (s : Bits)
    → n ≤ 10
    → matches (locks n m r) s ≡ (wants_locks n m s && matches r s)
unfolding locks wants_locks
matches-locks zero m r s h = refl
matches-locks (suc i) m r s h = ground (
  arith,
  matches-locks i m r s (omega arith),
  matches-specific m (type_lock0 + i) (lock_offset + i) (locks i m r) s (omega arith),
)

unfoldable pub wants_generics : Modifier → Bits → Bool
wants_generics m s =
    wants m type_windows (s 6 || s 7)
    && (wants m type_alt (s 4 || s 5)
        && (wants m type_control (s 2 || s 3) && (wants m type_shift (s 0 || s 1) && true)))

pub accepts-generics :
    (m : Modifier) (out : ℕ) (s : Bits) → accepts (generics m out) s ≡ wants_generics m s
unfolding generics wants_generics
accepts-generics m out s =
    accepts-generic m type_windows 6 7 _ s (omega arith) (omega arith)
    ∙ ap (◌&&◌ (wants m type_windows (s 6 || s 7))) (
        accepts-generic m type_alt 4 5 _ s (omega arith) (omega arith)
        ∙ ap (◌&&◌ (wants m type_alt (s 4 || s 5))) (
            accepts-generic m type_control 2 3 _ s (omega arith) (omega arith)
            ∙ ap (◌&&◌ (wants m type_control (s 2 || s 3))) (
                accepts-generic m type_shift 0 1 _ s (omega arith) (omega arith)
                ∙ ap (◌&&◌ (wants m type_shift (s 0 || s 1))) (matches-base_rule out s))))

pub generics-FlagsOk : (m : Modifier) (out : ℕ) → FlagsOk (generics m out).generic_modifiers
unfolding generics
generics-FlagsOk m out = generic-FlagsOk m type_windows 6 7 _ (omega arith) (omega arith) (
    generic-FlagsOk m type_alt 4 5 _ (omega arith) (omega arith) (
      generic-FlagsOk m type_control 2 3 _ (omega arith) (omega arith)
        (generic-FlagsOk m type_shift 0 1 _ (omega arith) (omega arith) tt)))

-- The flags of the keyboard's locks and of a released key.
abbrev pub wants_flags : Modifier → Bits → Bool
wants_flags m s =
    wants m type_up (s 11)
    && (wants m type_scroll_lock (s 10)
        && (wants m type_num_lock (s 9) && wants m type_caps_lock (s 8)))

and_assoc3 : (a b c d : Bool) → (a && (b && (c && d))) ≡ ((a && (b && c)) && d)
and_assoc3 a b c d = ground arith

and_assoc4 : (a b c d e : Bool) → (a && (b && (c && (d && e)))) ≡ ((a && (b && (c && d))) && e)
and_assoc4 a b c d e = ground arith

matches-flags :
    (mk : ModifiedKey) (r : CompiledRule) (s : Bits)
    → matches
        (specific mk.modifier type_up 11 (
          specific mk.modifier type_scroll_lock 10
            (specific mk.modifier type_num_lock 9 (specific mk.modifier type_caps_lock 8 r))))
        s
      ≡ (wants_flags mk.modifier s && matches r s)
matches-flags mk r s =
    let m = mk.modifier in
    matches-specific m type_up 11 _ s (omega arith)
    ∙ ap (◌&&◌ (wants m type_up (s 11))) (
        matches-specific m type_scroll_lock 10 _ s (omega arith)
        ∙ ap (◌&&◌ (wants m type_scroll_lock (s 10))) (
            matches-specific m type_num_lock 9 _ s (omega arith)
            ∙ ap (◌&&◌ (wants m type_num_lock (s 9)))
                (matches-specific m type_caps_lock 8 r s (omega arith))))
    ∙ and_assoc4 (wants m type_up (s 11)) (wants m type_scroll_lock (s 10))
        (wants m type_num_lock (s 9)) (wants m type_caps_lock (s 8)) (matches r s)

unfoldable pub wants_specifics : ModifiedKey → Bits → Bool
wants_specifics mk s =
    let m = mk.modifier in wants_locks 10 m s && (wants_virtual 256 mk s && wants_flags m s)

pub matches-specifics :
    (mk : ModifiedKey) (r : CompiledRule) (s : Bits)
    → matches (specifics mk r) s ≡ (wants_specifics mk s && matches r s)
unfolding specifics wants_specifics
matches-specifics mk r s =
    let m = mk.modifier in
    matches-locks 10 m _ s (omega arith)
    ∙ ap (◌&&◌ (wants_locks 10 m s)) (
        matches-virtual_mods 256 mk _ s (omega arith)
        ∙ ap (◌&&◌ (wants_virtual 256 mk s)) (matches-flags mk r s))
    ∙ and_assoc3 (wants_locks 10 m s) (wants_virtual 256 mk s) (wants_flags m s) (matches r s)
