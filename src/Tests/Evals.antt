-- ===== src/Tests/Evals.antt =====
-- Tests of the judge's theorem, and of the judge and the audit on small inputs.
use quellgeist.Base.{◌≡◌, refl, true, false, some, [], ◌∷◌, ◌↔◌}
use quellgeist.Agent.Schema.{commit_ref}
use quellgeist.Agent.Schema.Validity.{IsCoherent}
use quellgeist.Signals.{null, str, empty, field}
use quellgeist.Evals.Audits.{is_part, has_prefix, unobserved}
use quellgeist.Evals.Judge.{Scenario, JudgeResult, judge}
use quellgeist.Evals.Judge.Exact.{Deserved, judge_exact}
use quellgeist.Tests.Samples.{diagnosis, silent}

abbrev scenario : Scenario
scenario = record {
  id = "bad_deploy_1";
  failure_class = "bad_deploy";
  now = "2026-01-01T00:00:00Z";
  logs = [];
  commits = [];
  metrics = [];
  gold_cause = "the deploy";
  gold_evidence = [];
  gold_evidence_refs = commit_ref "abc" "" ∷ [];
}

judged_silent :
    judge silent scenario
    ≡ some (record {
      passed = false;
      correct_cause = false;
      evidence_matches = false;
      reason = "diagnosis abstained";
    })
unfolding judge
judged_silent = refl

diagnosis-IsCoherent : IsCoherent diagnosis
diagnosis-IsCoherent = record { reasoned = λ e. cc; silent = λ e. cc; caused = λ _. refl }

judge_exact_example :
    (r : JudgeResult) × (judge diagnosis scenario ≡ some r)
    × ((r.passed ≡ true) ↔ Deserved diagnosis scenario)
judge_exact_example = judge_exact diagnosis scenario diagnosis-IsCoherent

found_inside : is_part "/pay" "route /pay failed" ≡ true
unfolding is_part has_prefix
found_inside = refl

none_is_no_filter :
    unobserved (λ v. "/pay") "query_logs" ("route /buy" ∷ []) (field "limit" null empty) ≡ []
unfolding unobserved
none_is_no_filter = refl

speculative :
    unobserved (λ v. "/pay") "query_logs" ("route /buy" ∷ []) (field "route" (str "/pay") empty)
    ≡ record { action = "query_logs"; arg = "route"; value = str "/pay" } ∷ []
unfolding unobserved is_part has_prefix quellgeist.Base.any
speculative = refl
