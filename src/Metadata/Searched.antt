-- ===== src/Metadata/Searched.antt =====
-- How a search for a key, in src/core/settings/config_metadata.cpp, passes over the strings and
-- numbers that stand in front of it.
use yamy.Base.{
  ℕ, ◌≡◌, refl, ◌∙◌, false, none, [], ◌∷◌, ◌++◌, arith, any, ◌==◌, Option-cases, inl, inr,
}
use yamy.Texts.{Text}
use yamy.Metadata.{quote, without, find, quoted_key}

pub free-append :
    (q : ℕ) (s t : Text)
    → any (λ c. c == q) s ≡ false
    → any (λ c. c == q) t ≡ false
    → any (λ c. c == q) (s ++ t) ≡ false
unfolding any
free-append q [] t h k = k
free-append q (c ∷ s) t h k = ground (arith, h, free-append q s t (ground (arith, h)) k)

-- A key that is not found up to a quote is not found at the same place either way beyond that quote.
without-behind :
    (k a t : Text)
    → any (λ c. c == quote) k ≡ false
    → without (k ++ quote ∷ []) (a ++ quote ∷ []) ≡ none
    → without (k ++ quote ∷ []) (a ++ quote ∷ t) ≡ none
unfolding any without
without-behind [] [] t q h = cc
without-behind [] (c ∷ a) t q h = ground (arith, h)
without-behind (x ∷ k) [] t q h = ground (arith, q)
without-behind (x ∷ k) (c ∷ a) t q h = ground (arith, q, h, without-behind k a t)

missed : (p : Text) (c : ℕ) (s : Text) → without p (c ∷ s) ≡ none → find p (c ∷ s) ≡ find p s
unfolding find
missed p c s h = rw (find, h)

nothing_found :
    (p : Text) (c : ℕ) (s : Text)
    → find p (c ∷ s) ≡ none
    → (without p (c ∷ s) ≡ none) × (find p s ≡ none)
unfolding find
nothing_found p c s h = elim (Option-cases (without p (c ∷ s))) [
  | inl n ↦ (n, rw (find, n) at h)
  | inr (t, y) ↦ cc (rw (find, y) at h)
]

not_here :
    (k : Text) (c : ℕ) (a t : Text)
    → any (λ x. x == quote) k ≡ false
    → without (quoted_key k) (c ∷ a ++ quote ∷ []) ≡ none
    → without (quoted_key k) (c ∷ a ++ quote ∷ t) ≡ none
unfolding without
not_here k c a t q h = ground (arith, h, without-behind k a t q)

-- A search goes on at a quote when it finds nothing up to there.
pub find-behind :
    (k a t : Text)
    → any (λ c. c == quote) k ≡ false
    → find (quoted_key k) (a ++ quote ∷ []) ≡ none
    → find (quoted_key k) (a ++ quote ∷ t) ≡ find (quoted_key k) (quote ∷ t)
unfolding find without
find-behind k [] t q h = refl
find-behind k (c ∷ a) t q h =
    let n = nothing_found (quoted_key k) c (a ++ quote ∷ []) h in
    missed (quoted_key k) c (a ++ quote ∷ t) (not_here k c a t q n.0) ∙ find-behind k a t q n.1

-- A search passes over a text without quotes.
pub find-passed :
    (k a t : Text)
    → any (λ c. c == quote) a ≡ false
    → find (quoted_key k) (a ++ t) ≡ find (quoted_key k) t
unfolding any find without
find-passed k [] t q = refl
find-passed k (c ∷ a) t q = ground (arith, q, find-passed k a t)
