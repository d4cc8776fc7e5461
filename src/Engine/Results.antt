-- ===== src/Engine/Results.antt =====
-- What holds of the results of calls in src/core/engine/engine_keyboard_handler.cpp.
use yamy.Base.{Bool, true, false, if◌then◌else◌}
use yamy.Generator.Actions.{Outcome, done, fault, too_deep, ◌>>=◌}

-- A property of the result, if there is one.
abbrev pub OnDone : {A : Type 0} → (A → Type 0) → Outcome A → Type 0
OnDone P (done a) = P a
OnDone P fault = Unit
OnDone P too_deep = Unit

pub OnDone->>= :
    {A B : Type 0} (P : A → Type 0) (Q : B → Type 0) (o : Outcome A) (f : A → Outcome B)
    → OnDone P o
    → ((a : A) → P a → OnDone Q (f a))
    → OnDone Q (o >>= f)
OnDone->>= P Q (done a) f h g = g a h
OnDone->>= P Q fault f h g = tt
OnDone->>= P Q too_deep f h g = tt

pub OnDone-if :
    {A : Type 0} (P : A → Type 0) (b : Bool) (o p : Outcome A)
    → OnDone P o
    → OnDone P p
    → OnDone P (if b then o else p)
OnDone-if P true o p h h' = h
OnDone-if P false o p h h' = h'
