-- ===== src/Evals/Audits.antt =====
-- evals/matrix/audits.py: the arguments of the tool calls in a transcript that no earlier observation
-- contains. `str` of a value is a parameter.
pub mod Causal
use Prim.Native.Char.{code}
use quellgeist.Base.{
  String, Bool, true, false, not, ◌&&◌, ◌||◌, ◌==◌, string_eq, nat_beq, Option, none, some, List,
  [], ◌∷◌, ◌++◌, any, flat_map, if◌then◌else◌,
}
use quellgeist.Signals.{Value, null, str, dict, Row, empty, field, get}
use quellgeist.Agent.Codec.{Codec}
use quellgeist.Agent.Actions.{scan}
use quellgeist.Agent.Providers.{Message}
use quellgeist.Ingest.Normalize.{truthy}

-- `text.startswith(prefix)`.
unfoldable pub has_prefix : String → String → Bool
has_prefix String.[] text = true
has_prefix (String.◌∷◌ c p) String.[] = false
has_prefix (String.◌∷◌ c p) (String.◌∷◌ d t) = nat_beq (code c) (code d) && has_prefix p t

-- `part in text`.
unfoldable pub is_part : String → String → Bool
is_part part String.[] = has_prefix part String.[]
is_part part (String.◌∷◌ c t) = has_prefix part (String.◌∷◌ c t) || is_part part t

-- A tool action with the observations before it.
pub record ToolAction : Type 0 where
  pub action : String
  pub args : Row
  pub seen : List String

pub record Violation : Type 0 where
  pub action : String
  pub arg : String
  pub value : Value

-- The observations that a later turn has before it.
unfoldable pub observe : List String → Message → List String
observe seen m =
    if m.role == "user" && has_prefix "Observation from " m.content
    then seen ++ m.content ∷ []
    else seen

-- An action that is neither blank nor `diagnose`.
unfoldable pub is_tool : Value → Bool
is_tool (str name) = not (name == "") && not (name == "diagnose")
is_tool action = truthy action

unfoldable pub call_of : Option Value → Option Value → Option (Value × Row)
call_of (some action) (some (dict args)) = if is_tool action then some (action, args) else none
call_of _ _ = none

unfoldable pub parsed : Option Row → Option (Value × Row)
parsed none = none
parsed (some obj) = call_of (get "action" obj) (get "args" obj)

-- The arguments that no observation contains; None stands for no filter.
module _ (show : Value → String) where
  unfoldable pub unobserved : String → List String → Row → List Violation
  unobserved action seen empty = []
  unobserved action seen (field arg null args) = unobserved action seen args
  unobserved action seen (field arg value args) =
      let rest = unobserved action seen args in
      if any (is_part (show value)) seen
      then rest
      else record { action = action; arg = arg; value = value } ∷ rest

  module _ (codec : Codec) where
    unfoldable action_of : List String → Message → List ToolAction
    action_of seen m =
        elim (if m.role == "assistant" then parsed (scan codec m.content) else none) [
          | none ↦ []
          | some (action, args) ↦ record { action = show action; args = args; seen = seen } ∷ []
        ]

    actions_from : List String → List Message → List ToolAction
    actions_from seen [] = []
    actions_from seen (m ∷ ms) = action_of seen m ++ actions_from (observe seen m) ms

    tool_actions : List Message → List ToolAction
    tool_actions messages = actions_from [] messages

    -- The audit of a transcript.
    unobserved_argument_values : List Message → List Violation
    unobserved_argument_values messages =
        flat_map (λ (t : ToolAction). unobserved t.action t.seen t.args) (tool_actions messages)
