-- ===== src/Tests/Agent.antt =====
-- Tests of the agent's theorems.
use quellgeist.Base.{
  ℕ, ◌+◌, ◌*◌, ◌≤◌, String, ◌≡◌, refl, ◌↔◌, inl, inr, true, false, Option, none, some, List, [],
  ◌∷◌, ◌++◌, arith, In, all, length, map, is_some,
}
use quellgeist.Effects.{json_action_error, Exn, Result, ok, raise, type_error, provider_error}
use quellgeist.Signals.{not_a_number, Value, Values, nil, list, Row, str, str_key, int_key, get}
use quellgeist.Agent.Schema.{
  Kind, commit, EvidenceRef, Handle, key, Hypothesis, Diagnosis, is_empty, validate,
  check_hypothesis,
}
use quellgeist.Agent.Schema.Validity.{IsCoherent, IsSound, validate-ok}
use quellgeist.Agent.Citations.{check_fabrication}
use quellgeist.Agent.Citations.Exact.{Cites, IsReal, check_fabrication_exact}
use quellgeist.Agent.Actions.{extract_json}
use quellgeist.Agent.Actions.First.{FirstObject, NoObject, extract_json-first}
use quellgeist.Agent.Providers.{complete, retry, requested, or_blank, made_of, retries_of}
use quellgeist.Agent.Providers.Retry.{retry_recovers, skip}
use quellgeist.Agent.Verifier.{HypothesisVerdict, VerifierResult, verify}
use quellgeist.Agent.Verifier.Support.{kept}
use quellgeist.Agent.Verifier.Grounded.{verify_keeps, verify_grounded}
use quellgeist.Agent.Timing.{DateTime, naive, TimeCodec, CommitTimes, timing_objection}
use quellgeist.Agent.Timing.Ordering.{Impossible, timing_objection_exact}
use quellgeist.Agent.Loop.{LoopResult, start, run_loop}
use quellgeist.Agent.Loop.Budget.{run_loop_bounds, run_loop_requests}
use quellgeist.Tests.Samples.{
  from_ok, diagnosis, deploy_hypothesis, log_row, other_commit, named_commit, codec_of, usage,
  backend, provider, prompts, diagnose_reply, list_reply, supported_reply,
}

abbrev made_up : Handle
made_up = (commit, str_key "abc")

check_fabrication_exact_example :
    In made_up (made_up ∷ [])
    ↔ (Cites diagnosis made_up × ¬ IsReal (log_row ∷ []) (other_commit ∷ []) none made_up)
unfolding check_fabrication quellgeist.Agent.Citations.real_signal_handles
    quellgeist.Agent.Citations.handles_of quellgeist.Agent.Citations.add_handle get
    quellgeist.Signals.is_hashable quellgeist.Base.keep quellgeist.Agent.Citations.cited_handles
    quellgeist.Base.flat_map quellgeist.Base.any quellgeist.Agent.Citations.handle_eq
    quellgeist.Agent.Schema.kind_beq key quellgeist.Signals.key_eq
check_fabrication_exact_example =
    check_fabrication_exact diagnosis (log_row ∷ []) (other_commit ∷ []) none (made_up ∷ []) made_up
      refl

-- JSON that is read as NaN makes a diagnosis that is valid.
abbrev doubtful : Diagnosis
doubtful = record diagnosis {
  hypotheses = record deploy_hypothesis { confidence = not_a_number } ∷ diagnosis.hypotheses;
}

validate-ok_example : (validate doubtful ≡ ok doubtful) ↔ (
    (doubtful ≡ doubtful)
    × IsCoherent doubtful
    × ((h : Hypothesis) → In h doubtful.hypotheses → IsSound h))
validate-ok_example = validate-ok doubtful doubtful

doubtful_accepted : validate doubtful ≡ ok doubtful
unfolding validate all check_hypothesis quellgeist.Agent.Schema.abstention_invariant
doubtful_accepted = refl

extract_json-first_example :
    ((row : Row)
      → (extract_json (codec_of list_reply) "so: {" ≡ ok row)
        ↔ FirstObject (codec_of list_reply) "so: {" row)
    × ((extract_json (codec_of list_reply) "so: {"
          ≡ raise (json_action_error "no JSON object found in model output"))
        ↔ NoObject (codec_of list_reply) "so: {")
extract_json-first_example = extract_json-first (codec_of list_reply) "so: {"

retry_recovers_example : retry 2 backend [] ≡ (
  ok (or_blank (some "{")),
  record (requested (skip 1 backend)) { calls = backend.calls ++ usage ∷ [] },
)
retry_recovers_example =
    retry_recovers 1 2 backend [] (some "{") usage (omega arith) ((provider_error "busy", refl), tt)
      refl

abbrev verified : VerifierResult
verified = record {
  diagnosis = diagnosis;
  verdicts = record { cause = "deploy"; supported = true; reason = "" } ∷ [];
}

verify_keeps_example :
    (map (λ (v : HypothesisVerdict). v.cause) verified.verdicts
      ≡ map (λ (h : Hypothesis). h.cause) diagnosis.hypotheses)
    × (verified.diagnosis.hypotheses ≡ kept verified.verdicts diagnosis.hypotheses)
    × (verified.diagnosis.abstained ≡ is_empty verified.diagnosis.hypotheses)
    × IsCoherent verified.diagnosis
unfolding verify quellgeist.Agent.Verifier.verify_with quellgeist.Agent.Verifier.build_indexes
    quellgeist.Agent.Verifier.index_by quellgeist.Agent.Verifier.entry get
    quellgeist.Signals.is_hashable quellgeist.Agent.Verifier.judge_all
    quellgeist.Agent.Verifier.judge quellgeist.Base.any quellgeist.Agent.Verifier.resolve_evidence
    quellgeist.Agent.Verifier.resolve quellgeist.Agent.Verifier.find_row quellgeist.Signals.key_eq
    quellgeist.Agent.Verifier.verdict_for complete quellgeist.Agent.Verifier.conclude extract_json
    quellgeist.Agent.Actions.object_of quellgeist.Agent.Actions.or_action_error
    quellgeist.Agent.Actions.scan retry quellgeist.Agent.Schema.abstention_invariant
    quellgeist.Agent.Verifier.read_verdict quellgeist.Base.eqz quellgeist.Base.mulz
    quellgeist.Effects.message quellgeist.Agent.Verifier.reason_of
verify_keeps_example =
    verify_keeps (codec_of supported_reply) diagnosis (log_row ∷ []) (named_commit ∷ []) none
      provider verified refl refl

verify_grounded_example :
    In deploy_hypothesis diagnosis.hypotheses
    × ((ref : EvidenceRef) × In ref deploy_hypothesis.evidence
        × IsReal (log_row ∷ []) (named_commit ∷ []) none (key ref))
unfolding verify quellgeist.Agent.Verifier.verify_with quellgeist.Agent.Verifier.build_indexes
    quellgeist.Agent.Verifier.index_by quellgeist.Agent.Verifier.entry get
    quellgeist.Signals.is_hashable quellgeist.Agent.Verifier.judge_all
    quellgeist.Agent.Verifier.judge quellgeist.Base.any quellgeist.Agent.Verifier.resolve_evidence
    quellgeist.Agent.Verifier.resolve quellgeist.Agent.Verifier.find_row quellgeist.Signals.key_eq
    quellgeist.Agent.Verifier.verdict_for complete quellgeist.Agent.Verifier.conclude extract_json
    quellgeist.Agent.Actions.object_of quellgeist.Agent.Actions.or_action_error
    quellgeist.Agent.Actions.scan retry quellgeist.Agent.Schema.abstention_invariant
    quellgeist.Agent.Verifier.read_verdict quellgeist.Base.eqz quellgeist.Base.mulz
    quellgeist.Effects.message quellgeist.Agent.Verifier.reason_of
verify_grounded_example =
    verify_grounded (codec_of supported_reply) diagnosis (log_row ∷ []) (named_commit ∷ []) none
      provider verified deploy_hypothesis refl refl (inl refl)

abbrev clock : TimeCodec
clock = record {
  codec = codec_of list_reply;
  fromisoformat = λ _. some (naive 5);
  objection_text = λ _ _. "too late";
}

abbrev objection : Option String
objection = some "too late"

timing_objection_exact_example :
    (is_some objection ≡ true) ↔ Impossible (naive 3) ((str "abc", naive 5) ∷ []) deploy_hypothesis
unfolding timing_objection quellgeist.Agent.Timing.resolved_commits
    quellgeist.Agent.Timing.cited_commits quellgeist.Agent.Timing.find_time
    quellgeist.Signals.key_eq quellgeist.Agent.Timing.all_after quellgeist.Agent.Timing.time_lt
timing_objection_exact_example =
    timing_objection_exact clock deploy_hypothesis (naive 3) ((str "abc", naive 5) ∷ []) objection
      refl

abbrev loop_out : LoopResult
loop_out =
    from_ok (start prompts [] "1") (run_loop (codec_of diagnose_reply) prompts provider [] "1" 2).0

run_loop_bounds_example :
    (loop_out.steps ≤ 2)
    × (length loop_out.tool_calls ≤ loop_out.steps)
    × (length loop_out.schema_violations ≤ loop_out.steps)
    × IsCoherent loop_out.diagnosis
unfolding run_loop quellgeist.Agent.Loop.run_steps complete quellgeist.Agent.Loop.after_turn
    quellgeist.Agent.Loop.turn extract_json quellgeist.Agent.Actions.scan
    quellgeist.Agent.Actions.object_of quellgeist.Agent.Loop.act get quellgeist.Agent.Loop.diagnose
    quellgeist.Agent.Loop.build_diagnosis quellgeist.Agent.Loop.validated validate all
    check_hypothesis quellgeist.Agent.Schema.abstention_invariant
    quellgeist.Agent.Actions.or_action_error quellgeist.Agent.Citations.add_handle
    quellgeist.Agent.Loop.abstain quellgeist.Agent.Loop.call_tool quellgeist.Agent.Loop.complain
    quellgeist.Agent.Loop.exhausted quellgeist.Agent.Loop.find_tool quellgeist.Agent.Loop.observe
    quellgeist.Agent.Loop.record_seen quellgeist.Agent.Loop.retry_msg quellgeist.Agent.Loop.seen_in
    start quellgeist.Agent.Loop.with_tool retry quellgeist.Base.lez quellgeist.Effects.message
    quellgeist.Signals.is_hashable quellgeist.Signals.of_list
run_loop_bounds_example =
    run_loop_bounds (codec_of diagnose_reply) prompts provider [] "1" 2 loop_out refl

run_loop_requests_example :
    made_of (run_loop (codec_of diagnose_reply) prompts provider [] "1" 2).1
    ≤ made_of provider + 2 * retries_of provider
run_loop_requests_example = run_loop_requests (codec_of diagnose_reply) prompts provider [] "1" 2
