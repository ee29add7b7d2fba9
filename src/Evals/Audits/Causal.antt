-- ===== src/Evals/Audits/Causal.antt =====
-- evals/matrix/audits.py: a later turn of a transcript changes nothing in the audit of the turns before.
use mathlib.Core.List.{append_assoc}
use quellgeist.Base.{String, ◌≡◌, refl, sym, ap, ◌∙◌, List, [], ◌∷◌, ◌++◌, flat_map}
use quellgeist.Signals.{Value}
use quellgeist.Agent.Codec.{Codec}
use quellgeist.Agent.Providers.{Message}
use quellgeist.Evals.Audits.{
  ToolAction, observe, unobserved, action_of, actions_from, tool_actions,
  unobserved_argument_values,
}

flat_map-append :
    {A B : Type 0} (f : A → List B) (xs ys : List A)
    → flat_map f (xs ++ ys) ≡ flat_map f xs ++ flat_map f ys
unfolding flat_map
flat_map-append f [] ys = refl
flat_map-append f (x ∷ xs) ys =
    ap (λ l. f x ++ l) (flat_map-append f xs ys) ∙ sym (append_assoc (f x) _ _)

-- The observations that the turns of a transcript leave.
observed : List String → List Message → List String
observed seen [] = seen
observed seen (m ∷ ms) = observed (observe seen m) ms

module _ (show : Value → String) (codec : Codec) where
  actions_from-append :
      (seen : List String) (xs ys : List Message)
      → actions_from show codec seen (xs ++ ys)
        ≡ actions_from show codec seen xs ++ actions_from show codec (observed seen xs) ys
  unfolding actions_from observed
  actions_from-append seen [] ys = refl
  actions_from-append seen (m ∷ xs) ys =
      ap (λ l. action_of show codec seen m ++ l) (actions_from-append (observe seen m) xs ys)
      ∙ sym (append_assoc (action_of show codec seen m) _ _)

  -- The violations of a transcript stay, first and in order, when turns are added to it; those of the
  -- added turns are judged by the observations that all turns before them leave.
  unobserved_argument_values-append :
      (xs ys : List Message)
      → unobserved_argument_values show codec (xs ++ ys)
        ≡ unobserved_argument_values show codec xs
          ++ flat_map
              (λ (t : ToolAction). unobserved show t.action t.seen t.args)
              (actions_from show codec (observed [] xs) ys)
  unfolding unobserved_argument_values tool_actions
  unobserved_argument_values-append xs ys =
      ap (flat_map (λ (t : ToolAction). unobserved show t.action t.seen t.args))
        (actions_from-append [] xs ys)
      ∙ flat_map-append _ (actions_from show codec [] xs) _
