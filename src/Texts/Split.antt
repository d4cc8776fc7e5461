-- ===== src/Texts/Split.antt =====
-- The split of a key specification in `parseModifiedKey` of src/core/settings/json_config_loader.cpp:
-- `std::getline` with the delimiter `-`, empty parts dropped.
use yamy.Base.{sym, ◌≡◌, refl, ap, ◌∙◌, true, false, List, [], ◌∷◌, ◌++◌, All, ◌==◌}
use yamy.Texts.{Text}
use mathlib.Core.List.{append-nil, append_assoc}

-- `if (!part.empty()) parts.push_back(part)`, in front of the parts behind it.
unfoldable pub keep : Text → List Text → List Text
keep [] parts = parts
keep (c ∷ part) parts = (c ∷ part) ∷ parts

-- The parts of the rest, where `current` is what the running `getline` has read.
unfoldable pub split_from : Text → Text → List Text
split_from current [] = keep current []
split_from current (c ∷ rest) = elim (c == b'-') [
  | true ↦ keep current (split_from [] rest)
  | false ↦ split_from (current ++ c ∷ []) rest
]

unfoldable pub split : Text → List Text
split s = split_from [] s

-- A part as the program writes it: at least one character, and no `-`.
abbrev pub NoDash : Text → Type 0
NoDash p = All (λ c. (c == b'-') ≡ false) p

abbrev pub IsPart : Text → Type 0
IsPart [] = ⊥
IsPart (c ∷ p) = NoDash (c ∷ p)

split_from-part :
    (current p rest : Text)
    → NoDash p
    → split_from current (p ++ rest) ≡ split_from (current ++ p) rest
unfolding split_from
split_from-part current [] rest h = ap (λ t. split_from t rest) (rw append-nil)
split_from-part current (c ∷ p) rest h =
    rw (h.0, split_from)
      (split_from-part (current ++ c ∷ []) p rest h.1
        ∙ ap (λ t. split_from t rest) (rw append_assoc))

keep-part : (p : Text) (parts : List Text) → IsPart p → keep p parts ≡ p ∷ parts
unfolding keep
keep-part [] parts h = absurd h
keep-part (c ∷ p) parts h = refl

NoDash-part : (p : Text) → IsPart p → NoDash p
NoDash-part [] h = absurd h
NoDash-part (c ∷ p) h = h

-- A part up to a dash is the first part, and a part that nothing follows is the only one.
pub split-part : (p rest : Text) → IsPart p → split (p ++ b'-' ∷ rest) ≡ p ∷ split rest
unfolding split split_from
split-part p rest h =
    split_from-part [] p (b'-' ∷ rest) (NoDash-part p h) ∙ keep-part p (split rest) h

pub split-last : (p : Text) → IsPart p → split p ≡ p ∷ []
unfolding split split_from
split-last p h =
    ap split (sym (append-nil p)) ∙ split_from-part [] p [] (NoDash-part p h) ∙ keep-part p [] h
