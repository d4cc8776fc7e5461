-- ===== src/Keyboard/Carried.antt =====
-- What `setSetting` of src/core/engine/engine_setting.cpp carries over.
use yamy.Base.{
  ◌%◌, ◌≡◌, refl, sym, ap, ◌∙◌, Bool, true, false, Option, none, some, List, [], ◌∷◌, find_if, ◌==◌,
  if◌then◌else◌, Bool-cases, inl, inr, arith,
}
use yamy.Keyboard.{
  Key, HashedKeys, hash, get_keys, same, search_in_bucket, search_key, with_flags, flag_in_bucket,
  flag_key, carry_flags,
}
use yamy.Keyboard.Same.{same-scan, same_eq, same_other}

-- The last key of the list with the scan codes of q.
abbrev pub latest : List Key → Key → Option Key
latest [] q = none
latest (k ∷ old) q = elim (latest old q) [
  | none ↦ (if same k q then some k else none)
  | some j ↦ some j
]

-- A found key with the flags of an old one, if there is one.
abbrev pub flagged : Option Key → Option Key → Option Key
flagged none o = o
flagged (some k) none = none
flagged (some k) (some n) = some (with_flags k n)

abbrev flag_if : Bool → Key → Option Key
flag_if b k = if b then some k else none

flagged-flagged :
    (l : Option Key) (b : Bool) (k : Key) (o : Option Key)
    → flagged l (flagged (flag_if b k) o)
      ≡ flagged (elim l [ none ↦ flag_if b k | some j ↦ some j ]) o
unfolding with_flags
flagged-flagged none b k o = refl
flagged-flagged (some j) true k none = refl
flagged-flagged (some j) true k (some n) = refl
flagged-flagged (some j) false k o = refl

same-with_flags : (k n q : Key) → same (with_flags k n) q ≡ same n q
unfolding same with_flags
same-with_flags k n q = refl

search-cons :
    (n q : Key) (l : List Key)
    → search_in_bucket (n ∷ l) q ≡ (if same n q then some n else search_in_bucket l q)
unfolding search_in_bucket find_if
search-cons n q l = from_elim (same n q)
  where
    from_elim :
        (b : Bool)
        → elim b [ true ↦ some n | false ↦ find_if (λ i. same i q) l ]
          ≡ (if b then some n else search_in_bucket l q)
    from_elim true = refl
    from_elim false = refl

-- The key at the front gets the flags, or the search goes on.
front-flagged :
    (k q n : Key) (o : Option Key)
    → same n k ≡ true
    → (if same n q then some (with_flags k n) else o)
      ≡ flagged (flag_if (same k q) k) (if same n q then some n else o)
front-flagged k q n o y = elim (Bool-cases (same n q)) [
  | inl z ↦ rw (z, sym (same_eq n k q y) ∙ z) refl
  | inr z ↦ rw (z, sym (same_eq n k q y) ∙ z) refl
]

front-unflagged :
    (k q n : Key) (o : Option Key)
    → same n k ≡ false
    → (if same n q then some n else flagged (flag_if (same k q) k) o)
      ≡ flagged (flag_if (same k q) k) (if same n q then some n else o)
front-unflagged k q n o m = elim (Bool-cases (same n q)) [
  | inl z ↦ rw (z, same_other n k q m z) refl
  | inr z ↦ rw z refl
]

search-flag_in_bucket :
    (k q : Key) (l : List Key)
    → search_in_bucket (flag_in_bucket k l) q
      ≡ flagged (flag_if (same k q) k) (search_in_bucket l q)
unfolding flag_in_bucket search_in_bucket find_if
search-flag_in_bucket k q [] = none_found (flag_if (same k q) k)
  where
    none_found : (f : Option Key) → search_in_bucket [] q ≡ flagged f (search_in_bucket [] q)
    none_found none = refl
    none_found (some j) = refl
search-flag_in_bucket k q (n ∷ l) =
    let next =
      λ (b : Bool). search_in_bucket (if b then with_flags k n ∷ l else n ∷ flag_in_bucket k l) q in
    elim (Bool-cases (same n k)) [
      | inl y ↦
          ap next y
          ∙ search-cons (with_flags k n) q l
          ∙ ap (λ b. if b then some (with_flags k n) else search_in_bucket l q)
              (same-with_flags k n q)
          ∙ front-flagged k q n (search_in_bucket l q) y
          ∙ ap (flagged (flag_if (same k q) k)) (sym (search-cons n q l))
      | inr m ↦
          ap next m
          ∙ search-cons n q (flag_in_bucket k l)
          ∙ ap (λ o. if same n q then some n else o) (search-flag_in_bucket k q l)
          ∙ front-unflagged k q n (search_in_bucket l q) m
          ∙ ap (flagged (flag_if (same k q) k)) (sym (search-cons n q l))
    ]

same-hash : (k q : Key) → same k q ≡ true → hash k ≡ hash q
same-hash k q h = ap (λ n. n % 128) (same-scan k q h)

search-flag_key :
    (k q : Key) (keys : HashedKeys)
    → search_key (flag_key k keys) q ≡ flagged (flag_if (same k q) k) (search_key keys q)
unfolding search_key get_keys flag_key
search-flag_key k q keys = elim (Bool-cases (hash k == hash q)) [
  | inl y ↦ rw y (search-flag_in_bucket k q (keys.buckets (hash q)))
  | inr n ↦ elim (Bool-cases (same k q)) [
    | inl s ↦ let e = same-hash k q s in ground (arith, e, n)
    | inr o ↦ rw (n, o) refl
  ]
]

-- After the loop of `setSetting` over the old keys, a search in the new keyboard finds the same key as
-- before it, with the flags of the last old key that has its scan codes, if there is one, and else as
-- it was.
pub search-carry_flags :
    (old : List Key) (q : Key) (keys : HashedKeys)
    → search_key (carry_flags old keys) q ≡ flagged (latest old q) (search_key keys q)
unfolding carry_flags
search-carry_flags [] q keys = refl
search-carry_flags (k ∷ old) q keys =
    search-carry_flags old q (flag_key k keys)
    ∙ ap (flagged (latest old q)) (search-flag_key k q keys)
    ∙ flagged-flagged (latest old q) (same k q) k (search_key keys q)
