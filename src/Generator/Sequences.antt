-- ===== src/Generator/Sequences.antt =====
-- That a key sequence of src/core/engine/engine_generator.cpp ends if its actions do.
use yamy.Base.{ℕ, ◌≡◌, refl, Bool, true, false, List, [], ◌∷◌, All}
use yamy.Generator.Keys.{Output}
use yamy.Generator.Returns.{Returns, Returns->>=, Returns-if}
use yamy.Generator.Actions.{
  Outcome, Action, Part, part_all, part_up, part_down, press_actions, last_action, seq_actions,
}

-- A sequence returns if each of its actions does.
module _ (g : ℕ) (act : Action → Bool → Output → Outcome Output) (Q : Action → Type 0)
    (returns : (a : Action) (p : Bool) (s : Output)
      → Q a
      → s.recursion_guard ≡ g
      → Returns g (act a p s)) where
  press_actions-Returns :
      (is_all : Bool) (a : Action) (rest : List Action) (s : Output)
      → Q a
      → All Q rest
      → s.recursion_guard ≡ g
      → Returns g (press_actions act is_all a rest s)
  unfolding press_actions
  press_actions-Returns is_all a [] s q qs e =
      Returns->>= g _ _ (returns a true s q e)
        (λ t e'. Returns-if g is_all _ _ (returns a false t q e') (t, refl, e'))
  press_actions-Returns is_all a (b ∷ rest) s q qs e =
      Returns->>= g _ _ (Returns->>= g _ _ (returns a true s q e) (λ t e'. returns a false t q e'))
        (λ t e'. press_actions-Returns is_all b rest t qs.0 qs.1 e')

  last_action_sound : (a : Action) (rest : List Action) → Q a → All Q rest → Q (last_action a rest)
  last_action_sound a [] q qs = q
  last_action_sound a (b ∷ rest) q qs = last_action_sound b rest qs.0 qs.1

  pub seq_actions-Returns :
      (actions : List Action) (part : Part) (s : Output)
      → All Q actions
      → s.recursion_guard ≡ g
      → Returns g (seq_actions act actions part s)
  unfolding seq_actions
  seq_actions-Returns [] part s q e = (s, refl, e)
  seq_actions-Returns (a ∷ rest) part_all s q e = press_actions-Returns true a rest s q.0 q.1 e
  seq_actions-Returns (a ∷ rest) part_up s q e =
      returns (last_action a rest) false s (last_action_sound a rest q.0 q.1) e
  seq_actions-Returns (a ∷ rest) part_down s q e = press_actions-Returns false a rest s q.0 q.1 e
