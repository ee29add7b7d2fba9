-- ===== src/Agent/Verifier.antt =====
-- agent/verifier.py: a second model re-reads each hypothesis against the evidence that it cites,
-- and the unsupported ones are dropped.
pub mod Support
pub mod Grounded
use quellgeist.Base.{
  String, Bool, true, false, not, ◌&&◌, Option, none, some, List, [], ◌∷◌, ◌++◌, map, keep, any,
  is_some, if◌then◌else◌, get_last?,
}
use Prim.Native.String.{◌++◌ as join}
use quellgeist.Effects.{Exn, Result, ok, raise, json_action_error, message, ◌>>=◌, type_error}
use quellgeist.Signals.{
  Value, null, bool, int, str, dict, list, Row, empty, field, get, is_hashable, Key, int_key,
  str_key, key_eq, of_list,
}
use quellgeist.Agent.Schema.{
  EvidenceRef, log_ref, commit_ref, metric_ref, Hypothesis, Diagnosis, abstention_invariant,
  is_empty,
}
use quellgeist.Agent.Citations.{or_empty}
use quellgeist.Agent.Codec.{Codec}
use quellgeist.Agent.Actions.{extract_json}
use quellgeist.Agent.Providers.{Message, Provider, complete}

pub record HypothesisVerdict : Type 0 where
  pub cause : String
  pub supported : Bool
  pub reason : String

pub record VerifierResult : Type 0 where
  pub diagnosis : Diagnosis
  pub verdicts : List HypothesisVerdict

-- `forced_abstention` and `dropped`.
unfoldable forced_abstention : VerifierResult → Bool
forced_abstention r = r.diagnosis.abstained && not (is_empty r.verdicts)

unfoldable pub dropped : VerifierResult → List String
dropped r = map (λ v. v.cause) (keep (λ v. not v.supported) r.verdicts)

-- `{r[name]: r for r in rows if name in r}`, in insertion order.
abbrev Index : Type 0
Index = List (Value × Row)

unfoldable pub entry : Row → Option Value → Result Index
entry row none = ok []
entry row (some v) = elim (is_hashable v) [
  | true ↦ ok ((v, row) ∷ [])
  | false ↦ raise (type_error "unhashable type")
]

unfoldable pub index_by : String → List Row → Result Index
index_by name [] = ok []
index_by name (row ∷ rows) = do
  here ← entry row (get name row)
  rest ← index_by name rows
  ok (here ++ rest)

-- `index.get(key)`: among equal keys the last row stands.
unfoldable pub find_row : Key → Index → Option Row
find_row k [] = none
find_row k ((v, row) ∷ rest) = elim (find_row k rest) [
  | some r ↦ some r
  | none ↦ if key_eq k v then some row else none
]

pub record Indexes : Type 0 where
  logs_by_id : Index
  commits_by_sha : Index
  metrics_by_id : Index

pub record EvidenceRow : Type 0 where
  handle : String
  pub row : Option Row

abbrev pub found : EvidenceRow → Bool
found r = is_some r.row

unfoldable pub resolve : Codec → Indexes → EvidenceRef → EvidenceRow
resolve codec ix (log_ref id _) = record {
  handle = join "log:" (codec.str_of (int id));
  row = find_row (int_key id) ix.logs_by_id;
}
resolve codec ix (commit_ref sha _) = record {
  handle = join "commit:" sha;
  row = find_row (str_key sha) ix.commits_by_sha;
}
resolve codec ix (metric_ref id _) = record {
  handle = join "metric:" id;
  row = find_row (str_key id) ix.metrics_by_id;
}

unfoldable pub resolve_evidence : Codec → Indexes → Hypothesis → List EvidenceRow
resolve_evidence codec ix hyp = map (resolve codec ix) hyp.evidence

-- A resolved row as the JSON object that the prompt shows.
abbrev or_null : Option Row → Value
or_null none = null
or_null (some row) = dict row

evidence_value : EvidenceRow → Value
evidence_value r = dict (
    field "handle" (str r.handle)
      (field "found" (bool (found r)) (field "row" (or_null r.row) empty)))

abbrev system_prompt : String
system_prompt =
    "You are a strict verification reviewer for an incident diagnosis. You are given ONE proposed root-cause hypothesis and the ACTUAL evidence rows it cites (resolved from the incident's real logs and commits). Decide whether that evidence genuinely supports the stated cause. Be conservative: if a cited row is missing, unrelated, or does not actually demonstrate the cause, it is NOT supported. Respond with EXACTLY ONE JSON object and nothing else:\n{\"supported\": true|false, \"reason\": \"<one short sentence>\"}"

pub prompt : Codec → Hypothesis → List EvidenceRow → List Message
prompt codec hyp rows =
    record { role = "system"; content = system_prompt }
    ∷ record {
      role = "user";
      content = join "Cause: " (
          join hyp.cause (
            join "\n\nCited evidence (resolved against the real signals):\n" (
              join (codec.dumps (list (of_list (map evidence_value rows))))
                "\n\nDoes the evidence support the cause?")));
    }
    ∷ []

-- `str(obj.get("reason", ""))`.
unfoldable pub reason_of : Codec → Option Value → String
reason_of codec none = ""
reason_of codec (some (str s)) = s
reason_of codec (some v) = codec.str_of v

-- The verdict that a reply states; a reply that is no verdict counts against support.
unfoldable pub read_verdict : Codec → String → Result Row → HypothesisVerdict
read_verdict codec cause (raise e) = record {
  cause = cause;
  supported = false;
  reason = join "unparseable verifier reply: " (message e);
}
read_verdict codec cause (ok obj) = elim (get "supported" obj) [
  | some (bool b) ↦ record {
    cause = cause;
    supported = b;
    reason = reason_of codec (get "reason" obj);
  }
  | _ ↦ record {
    cause = cause;
    supported = false;
    reason = "verifier did not return a boolean 'supported'";
  }
]

-- `_verdict_for`: an error of the provider is passed on.
unfoldable pub verdict_for :
    Codec → Hypothesis → List EvidenceRow → Provider → Result HypothesisVerdict × Provider
verdict_for codec hyp rows provider =
    let (reply, _, provider') = complete provider (prompt codec hyp rows) in
    (reply >>= λ text. ok (read_verdict codec hyp.cause (extract_json codec text)), provider')

-- One round of the loop: no model call where nothing that is cited resolves.
unfoldable pub judge : Codec → Indexes → Hypothesis → Provider → Result HypothesisVerdict × Provider
judge codec ix hyp provider =
    let rows = resolve_evidence codec ix hyp in
    elim (any found rows) [
      | true ↦ verdict_for codec hyp rows provider
      | false ↦ (
        ok (record {
          cause = hyp.cause;
          supported = false;
          reason = "no cited evidence resolved to a real signal";
        }),
        provider,
      )
    ]

-- The hypotheses that survive, and every verdict.
abbrev pub Judged : Type 0
Judged = List HypothesisVerdict × List Hypothesis

abbrev pub add_verdict : Hypothesis → HypothesisVerdict → Judged → Judged
add_verdict hyp v (verdicts, survivors) =
    (v ∷ verdicts, if v.supported then hyp ∷ survivors else survivors)

unfoldable pub judge_all : Codec → Indexes → List Hypothesis → Provider → Result Judged × Provider
judge_all codec ix [] provider = (ok ([], []), provider)
judge_all codec ix (hyp ∷ hyps) provider =
    let (verdict, provider') = judge codec ix hyp provider in
    elim verdict [
      | raise e ↦ (raise e, provider')
      | ok v ↦
          let (rest, provider'') = judge_all codec ix hyps provider' in
          (rest >>= λ j. ok (add_verdict hyp v j), provider'')
    ]

-- What both verifiers build from their survivors.
unfoldable pub conclude : String → Diagnosis → Judged → Result VerifierResult
conclude reason d (verdicts, []) = do
  abstained ← abstention_invariant (record {
    summary = "";
    abstained = true;
    abstention_reason = some reason;
    hypotheses = [];
    suggested_actions = [];
  })
  ok (record { diagnosis = abstained; verdicts = verdicts })
conclude reason d (verdicts, survivors) = do
  verified ← abstention_invariant (record {
    summary = d.summary;
    abstained = false;
    abstention_reason = none;
    hypotheses = survivors;
    suggested_actions = d.suggested_actions;
  })
  ok (record { diagnosis = verified; verdicts = verdicts })

abbrev dropped_all : String
dropped_all = "verifier dropped all hypotheses: no cited evidence supported a cause"

unfoldable pub build_indexes : List Row → List Row → Option (List Row) → Result Indexes
build_indexes logs commits metrics = do
  by_id ← index_by "id" logs
  by_sha ← index_by "sha" commits
  by_name ← index_by "metric" (or_empty metrics)
  ok (record { logs_by_id = by_id; commits_by_sha = by_sha; metrics_by_id = by_name })

unfoldable pub verify_with :
    Codec → Result Indexes → Diagnosis → Provider → Result VerifierResult × Provider
verify_with codec (raise e) d provider = (raise e, provider)
verify_with codec (ok ix) d provider =
    let (judged, provider') = judge_all codec ix d.hypotheses provider in
    (judged >>= conclude dropped_all d, provider')

unfoldable pub verify :
    Codec
    → Diagnosis
    → List Row
    → List Row
    → Option (List Row)
    → Provider
    → Result VerifierResult × Provider
verify codec d logs commits metrics provider = elim d.abstained [
  | true ↦ (ok (record { diagnosis = d; verdicts = [] }), provider)
  | false ↦ verify_with codec (build_indexes logs commits metrics) d provider
]
