-- ===== src/Agent/Loop.antt =====
-- agent/loop.py: decide, call a tool, observe, repeat; then a diagnosis. The prompt texts of
-- agent/prompts.py are a parameter.
pub mod Budget
use Prim.Native.String.{◌++◌ as join}
use quellgeist.Base.{
  ℕ, zero, suc, String, Bool, true, false, not, ◌==◌, string_eq, Option, none, some, List, [], ◌∷◌,
  ◌++◌, map, is_some, length, pos, if◌then◌else◌,
}
use quellgeist.Effects.{Exn, Result, ok, raise, message, type_error, validation_error, ◌>>=◌}
use quellgeist.Signals.{Value, str, int, dict, list, Row, empty, get, is_hashable, of_list}
use quellgeist.Agent.Schema.{Diagnosis, validate, log, commit, metric}
use quellgeist.Agent.Citations.{RealHandle, add_handle}
use quellgeist.Agent.Codec.{Codec}
use quellgeist.Agent.Actions.{extract_json}
use quellgeist.Agent.Providers.{Message, Provider, complete}

pub record ToolSpec : Type 0 where
  pub name : String
  pub description : String
  pub fn : Row → Result (List Row)

pub record Prompts : Type 0 where
  pub build_system_prompt : List String → String
  pub user_trigger : String → String

pub record LoopResult : Type 0 where
  pub diagnosis : Diagnosis
  pub steps : ℕ
  pub tool_calls : List (String × Row)
  pub schema_violations : List String
  pub seen_handles : List RealHandle
  pub messages : List Message

-- `_record_seen` for one row: a metric series, else a log row; and a commit.
unfoldable pub seen_in : Row → Result (List RealHandle)
seen_in row = do
  first ← elim (get "metric" row) [
    | some v ↦ add_handle metric (some v)
    | none ↦ add_handle log (get "id" row)
  ]
  second ← add_handle commit (get "sha" row)
  ok (first ++ second)

unfoldable pub record_seen : List RealHandle → List Row → Result (List RealHandle)
record_seen seen [] = ok seen
record_seen seen (row ∷ rows) = do here ← seen_in row; record_seen (seen ++ here) rows

unfoldable pub abstain : String → Diagnosis
abstain reason = record {
  summary = "";
  abstained = true;
  abstention_reason = some reason;
  hypotheses = [];
  suggested_actions = [];
}

abbrev fallback_initial : String
fallback_initial = "loop did not run"

unfoldable pub retry_msg : String → String
retry_msg error = join "Your previous response was not a valid action: " (
    join error
      ". Respond with EXACTLY ONE JSON object -- a tool action or a diagnose action -- and nothing else.")

abbrev pub user : String → Message
user content = record { role = "user"; content = content }

-- A schema violation: it is recorded, and the model is asked again.
unfoldable pub complain : String → LoopResult → LoopResult
complain error r = record r {
  schema_violations = r.schema_violations ++ error ∷ [];
  messages = r.messages ++ user (retry_msg error) ∷ [];
}

-- How a turn of the loop ends: the loop returns, or it continues.
pub data Turn : Type 0 where
  done : LoopResult → Turn
  again : LoopResult → Turn

-- `by_name[action]`: of two tools of one name the later stands.
unfoldable pub find_tool : String → List ToolSpec → Option ToolSpec
find_tool name [] = none
find_tool name (t ∷ ts) = elim (find_tool name ts) [
  | some u ↦ some u
  | none ↦ if t.name == name then some t else none
]

-- `obj.get("diagnosis", {})`.
abbrev or_no_fields : Option Value → Value
or_no_fields none = dict empty
or_no_fields (some v) = v

unfoldable pub validated : Option Diagnosis → Result Diagnosis
validated none = raise (validation_error "1 validation error for Diagnosis")
validated (some d) = validate d

-- `Diagnosis(**d)`: the fields are read, then the validators run. What is no dict has no fields.
unfoldable pub build_diagnosis : Codec → Value → Result Diagnosis
build_diagnosis codec (dict fields) = validated (codec.coerce fields)
build_diagnosis codec _ = raise (type_error "argument after ** must be a mapping")

unfoldable pub diagnose : Result Diagnosis → LoopResult → Turn
diagnose (ok d) r = done (record r { diagnosis = d })
diagnose (raise e) r = again (complain (message e) r)

-- A finished tool call: its handles are recorded and its rows shown to the model.
unfoldable pub observe : Codec → String → Result (List Row) → LoopResult → Result Turn
observe codec action (raise e) r =
    ok (again (complain (join "tool " (join action (join " failed: " (message e)))) r))
observe codec action (ok rows) r = do
  seen ← record_seen r.seen_handles rows
  ok (
      again (record r {
        seen_handles = seen;
        messages =
            r.messages
            ++ user (
                join "Observation from "
                  (join action (join ": " (codec.dumps (list (of_list (map dict rows)))))))
              ∷ [];
      }))

unfoldable pub call_tool : Codec → ToolSpec → String → Option Value → LoopResult → Result Turn
call_tool codec tool action (some (dict args)) r =
    observe codec action (tool.fn args)
      (record r { tool_calls = r.tool_calls ++ (action, args) ∷ [] })
call_tool codec tool action _ r =
    ok (again (complain (join "'args' for " (join action " must be a JSON object")) r))

abbrev unknown_action : LoopResult → Turn
unknown_action r = again (complain "unknown action" r)

-- `if action in by_name`, where a tool of that name was found or not.
unfoldable pub with_tool :
    Codec → Option ToolSpec → String → Option Value → LoopResult → Result Turn
with_tool codec none action args r = ok (unknown_action r)
with_tool codec (some tool) action args r = call_tool codec tool action args r

-- The three branches on `action`. Looking up what cannot be hashed raises.
unfoldable pub act : Codec → List ToolSpec → Row → Option Value → LoopResult → Result Turn
act codec tools obj none r = ok (unknown_action r)
act codec tools obj (some (str action)) r =
    if action == "diagnose"
    then ok (diagnose (build_diagnosis codec (or_no_fields (get "diagnosis" obj))) r)
    else with_tool codec (find_tool action tools) action (get "args" obj) r
act codec tools obj (some v) r =
    if is_hashable v then ok (unknown_action r) else raise (type_error "unhashable type")

unfoldable pub turn : Codec → List ToolSpec → String → LoopResult → Result Turn
turn codec tools text r =
    let r' = record r {
      messages = r.messages ++ record { role = "assistant"; content = text } ∷ [];
    } in
    elim (extract_json codec text) [
      | raise e ↦ ok (again (complain (message e) r'))
      | ok obj ↦ act codec tools obj (get "action" obj) r'
    ]

abbrev fallback_exhausted_prefix : String
fallback_exhausted_prefix = "no valid diagnosis within"

unfoldable pub exhausted : Codec → ℕ → LoopResult → LoopResult
exhausted codec max_steps r = record r {
  diagnosis = abstain (
      join fallback_exhausted_prefix (
        join " " (
          join (codec.str_of (int (pos max_steps))) (
            join " steps (" (
              join (codec.str_of (int (pos (length r.schema_violations))))
                " schema violation(s))")))));
}

-- What follows a turn: the loop's result, or the steps that are left.
unfoldable pub after_turn :
    (LoopResult → Provider → Result LoopResult × Provider)
    → Result Turn
    → Provider
    → Result LoopResult × Provider
after_turn rest (raise e) p = (raise e, p)
after_turn rest (ok (done r)) p = (ok r, p)
after_turn rest (ok (again r)) p = rest r p

-- `for step in range(1, max_steps + 1)`, with the steps left.
unfoldable pub run_steps :
    Codec → List ToolSpec → ℕ → ℕ → LoopResult → Provider → Result LoopResult × Provider
run_steps codec tools max_steps zero r p = (ok (exhausted codec max_steps r), p)
run_steps codec tools max_steps (suc left) r p =
    let (reply, messages, p') = complete p r.messages in
    elim reply [
      | raise e ↦ (raise e, p')
      | ok text ↦
          after_turn (run_steps codec tools max_steps left)
            (turn codec tools text (record r { steps = suc r.steps; messages = messages })) p'
    ]

unfoldable pub start : Prompts → List ToolSpec → String → LoopResult
start prompts tools now = record {
  diagnosis = abstain fallback_initial;
  steps = 0;
  tool_calls = [];
  schema_violations = [];
  seen_handles = [];
  messages =
      record {
        role = "system";
        content =
            prompts.build_system_prompt (map (λ t. join t.name (join ": " t.description)) tools);
      }
      ∷ user (prompts.user_trigger now)
      ∷ [];
}

unfoldable pub run_loop :
    Codec → Prompts → Provider → List ToolSpec → String → ℕ → Result LoopResult × Provider
run_loop codec prompts provider tools now max_steps =
    run_steps codec tools max_steps max_steps (start prompts tools now) provider
