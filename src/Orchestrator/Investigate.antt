-- ===== src/Orchestrator/Investigate.antt =====
-- orchestrator/investigate.py: one run of the loop over a snapshot, checked, verified and stored.
-- What tools_factory.py builds from the snapshot directory (the tools and the signals) is a field of
-- the setup, and so are the codecs and prompts.
pub mod Terminal
pub mod Silent
use Prim.Native.String.{◌++◌ as join}
use quellgeist.Base.{
  ℕ, zero, suc, ◌+◌, String, Bool, true, false, ◌==◌, string_eq, Option, none, some, List, [], ◌∷◌,
  ◌++◌, map, pos, int_eq, if◌then◌else◌, length, ◌&&◌, not,
}
use quellgeist.Effects.{Exn, Result, ok, raise, message}
use quellgeist.Signals.{
  Value, null, bool, int, str, list, dict, Row, empty, field, of_list, Key, int_key, str_key,
}
use quellgeist.Agent.Schema.{
  Diagnosis, Hypothesis, EvidenceRef, Handle, kind_name, ref_type, ref_id, is_empty, truthy,
}
use quellgeist.Agent.Citations.{check_fabrication, RealHandle}
use quellgeist.Agent.Codec.{Codec}
use quellgeist.Agent.Providers.{CallUsage, Message, Provider, hinted, calls_of}
use quellgeist.Agent.Verifier.{VerifierResult, verify}
use quellgeist.Agent.Loop.{ToolSpec, Prompts, LoopResult, run_loop, abstain}
use quellgeist.Store.Models.{
  Status, Outcome, running, pending_review, diagnosed, abstained, RunRecord, EvidenceRow,
}
use quellgeist.Store.World.{
  World, Action, pure, lift, attempt, now_ts, new_run_id, connect, except, ◌>>=◌, ◌>>◌,
}
use quellgeist.Store.Dao.{
  set_incident_status, record_run, record_diagnosis, record_evidence, append_event,
}

pub record Signals : Type 0 where
  pub logs : List Row
  pub commits : List Row
  pub metrics : List Row

pub record Setup : Type 0 where
  pub codec : Codec
  pub prompts : Prompts
  pub incident_tools : String → List ToolSpec
  pub read_signals : String → Result Signals

pub record InvestigationResult : Type 0 where
  pub run : RunRecord
  pub diagnosis : Diagnosis
  pub fabricated : List Handle
  pub verified : Option Diagnosis

-- observability/usage.py: the sum over the calls that reported the field.
abbrev add_tokens : Option ℕ → Option ℕ → Option ℕ
add_tokens none total = total
add_tokens (some n) none = some n
add_tokens (some n) (some m) = some (n + m)

unfoldable sum_tokens : (CallUsage → Option ℕ) → List CallUsage → Option ℕ
sum_tokens attr [] = none
sum_tokens attr (c ∷ cs) = add_tokens (attr c) (sum_tokens attr cs)

key_value : Key → Value
key_value (int_key z) = int z
key_value (str_key s) = str s

pair : String → Value → Value
pair s v = list (of_list (str s ∷ v ∷ []))

unfoldable handles_value : List Handle → Value
unfolding key_value pair
handles_value hs = list (of_list (map (λ h. pair (kind_name h.0) (key_value h.1)) hs))

-- `json.dumps([list(h) for h in fabricated]) if fabricated else ""`.
unfoldable fabricated_text : Codec → List Handle → String
fabricated_text codec [] = ""
fabricated_text codec (h ∷ hs) = codec.dumps (handles_value (h ∷ hs))

message_value : Message → Value
message_value m = dict (field "role" (str m.role) (field "content" (str m.content) empty))

unfoldable pub trace_json : Codec → LoopResult → String
unfolding message_value pair
trace_json codec r = codec.dumps (
    dict (
      field "steps" (int (pos r.steps)) (
        field "tool_calls" (list (of_list (map (λ c. pair c.0 (dict c.1)) r.tool_calls))) (
          field "schema_violations" (list (of_list (map str r.schema_violations))) (
            field "seen_handles"
              (list (of_list (map (λ h. pair (kind_name h.0) h.1) r.seen_handles)))
              (field "messages" (list (of_list (map message_value r.messages))) empty))))))

abbrev verified_of : Result VerifierResult → Option Diagnosis
verified_of (ok r) = some r.diagnosis
verified_of (raise e) = none

-- `_run_verifier`: no verifier, or one that raises, leaves the run unverified.
unfoldable run_verifier : Codec → Option Provider → Diagnosis → Signals → Option Diagnosis
run_verifier codec none d s = none
run_verifier codec (some v) d s = verified_of (verify codec d s.logs s.commits (some s.metrics) v).0

abbrev as_failed : RunRecord → Action RunRecord
as_failed run = pure run

abbrev detail_value : String → Option Diagnosis → Codec → Value
detail_value error none codec = dict (field "error" (str error) empty)
detail_value error (some d) codec =
    dict (field "error" (str error) (field "diagnosis" (codec.as_json d) empty))

-- `_persist_failed`: each of the three writes is tried, whatever the others did.
persist_failed :
    Codec
    → (incident_id run_id model started : String) → List CallUsage
    → Option Diagnosis
    → String
    → Action RunRecord
persist_failed codec incident_id run_id model started calls d error = do
  ended ← now_ts
  let detail = codec.dumps (detail_value error d codec)
  let run : RunRecord = record {
    id = run_id;
    incident_id = incident_id;
    model = model;
    started_ts = started;
    ended_ts = some ended;
    steps = none;
    outcome = Outcome.failed;
    abstained = false;
    fabricated = none;
    prompt_tokens = sum_tokens (λ c. c.prompt_tokens) calls;
    completion_tokens = sum_tokens (λ c. c.completion_tokens) calls;
    trace_json = some detail;
  }
  attempt (record_run run)
  attempt (append_event incident_id "failed" (some detail) (some run_id))
  attempt (set_incident_status incident_id Status.failed)
  pure run

abbrev outcome_of : Diagnosis → Outcome
outcome_of d = if d.abstained then abstained else diagnosed

abbrev outcome_name : Diagnosis → String
outcome_name d = if d.abstained then "abstained" else "diagnosed"

-- The cited handles as rows of the evidence table, hypotheses counted from `i`.
ref_rows : Codec → String → ℕ → List EvidenceRef → List EvidenceRow
ref_rows codec run_id i [] = []
ref_rows codec run_id i (r ∷ rs) =
    record {
      run_id = run_id;
      hyp_index = i;
      handle_type = kind_name (ref_type r);
      handle_id = elim (ref_id r) [ int_key z ↦ codec.str_of (int z) | str_key s ↦ s ];
    }
    ∷ ref_rows codec run_id i rs

unfoldable evidence_rows : Codec → String → ℕ → List Hypothesis → List EvidenceRow
unfolding ref_rows
evidence_rows codec run_id i [] = []
evidence_rows codec run_id i (h ∷ hs) =
    ref_rows codec run_id i h.evidence ++ evidence_rows codec run_id (suc i) hs

abbrev is_verified : Option Diagnosis → Bool
is_verified none = false
is_verified (some _) = true

abbrev dump_verified : Codec → Option Diagnosis → Option String
dump_verified codec none = none
dump_verified codec (some d) = some (codec.model_dump_json d)

-- What follows the loop, in the guarded body: the checks and the writes.
conclude_run :
    Setup
    → (incident_id snapshot_dir run_id model started : String) → Option Provider
    → LoopResult
    → List CallUsage
    → Action InvestigationResult
conclude_run s incident_id snapshot_dir run_id model started verifier result calls = do
  signals ← lift (s.read_signals snapshot_dir)
  fabricated ←
      lift (check_fabrication result.diagnosis signals.logs signals.commits (some signals.metrics))
  let verified = run_verifier s.codec verifier result.diagnosis signals
  ended ← now_ts
  let run : RunRecord = record {
    id = run_id;
    incident_id = incident_id;
    model = model;
    started_ts = started;
    ended_ts = some ended;
    steps = some result.steps;
    outcome = outcome_of result.diagnosis;
    abstained = result.diagnosis.abstained;
    fabricated = some (fabricated_text s.codec fabricated);
    prompt_tokens = sum_tokens (λ c. c.prompt_tokens) calls;
    completion_tokens = sum_tokens (λ c. c.completion_tokens) calls;
    trace_json = some (trace_json s.codec result);
  }
  record_run run
  record_diagnosis run_id result.diagnosis.summary (s.codec.model_dump_json result.diagnosis)
      (dump_verified s.codec verified)
  record_evidence (evidence_rows s.codec run_id 0 result.diagnosis.hypotheses)
  append_event incident_id (outcome_name result.diagnosis)
      (some (
        s.codec.dumps (
          dict (
            field "fabricated" (handles_value fabricated)
              (field "verified" (bool (is_verified verified)) empty)))))
      (some run_id)
  set_incident_status incident_id pending_review
  pure (record {
    run = run;
    diagnosis = result.diagnosis;
    fabricated = fabricated;
    verified = verified;
  })

-- The fallback diagnosis of a failed run.
abbrev fallback : Option Diagnosis → String → Diagnosis
fallback none error = abstain (join "investigation failed: " error)
fallback (some d) error = d

fail_run :
    Setup
    → (incident_id run_id model started : String) → List CallUsage
    → Option Diagnosis
    → Exn
    → Action InvestigationResult
fail_run s incident_id run_id model started calls d e = do
  run ← persist_failed s.codec incident_id run_id model started calls d (message e)
  pure (record { run = run; diagnosis = fallback d (message e); fabricated = []; verified = none })

-- `except Exception` around the part after the loop.
guard_run :
    Setup
    → (incident_id snapshot_dir run_id model started : String) → Option Provider
    → Result LoopResult × Provider
    → Action InvestigationResult
guard_run s incident_id snapshot_dir run_id model started verifier (raise e, p) =
    fail_run s incident_id run_id model started (calls_of p) none e
guard_run s incident_id snapshot_dir run_id model started verifier (ok r, p) = do
  done ←
      attempt (conclude_run s incident_id snapshot_dir run_id model started verifier r (calls_of p))
  except done pure
      λ e. fail_run s incident_id run_id model started (calls_of p) (some r.diagnosis) e

-- `if hint: provider = HintProvider(provider, hint)`.
abbrev with_hint : Option String → Provider → Provider
with_hint none p = p
with_hint (some hint) p = if hint == "" then p else hinted p hint false

-- `now or started`.
abbrev or_started : Option String → String → String
or_started none started = started
or_started (some now) started = if now == "" then started else now

pub investigate :
    Setup
    → (incident_id snapshot_dir : String) → Provider
    → String
    → Option String
    → Option Provider
    → Option String
    → ℕ
    → Action InvestigationResult
investigate s incident_id snapshot_dir provider model hint verifier now max_steps = do
  run_id ← new_run_id
  started ← now_ts
  connect
  begun ← attempt (set_incident_status incident_id running)
  except begun
      (λ _. guard_run s incident_id snapshot_dir run_id model started verifier (
        run_loop s.codec s.prompts (with_hint hint provider) (s.incident_tools snapshot_dir)
          (or_started now started) max_steps))
      (fail_run s incident_id run_id model started (calls_of (with_hint hint provider)) none)
