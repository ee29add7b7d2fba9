-- ===== src/Evals/Judge.antt =====
-- evals/judge.py and the Scenario of evals/scenarios/generator.py: a diagnosis is judged against the
-- evidence that a scenario holds as its gold. An IndexError is `none`.
pub mod Exact
use quellgeist.Base.{
  String, Bool, true, false, not, ◌&&◌, ◌==◌, string_eq, Option, none, some, List, [], ◌∷◌, map,
  flat_map, any, all, if◌then◌else◌, contains,
}
use quellgeist.Signals.{Row}
use quellgeist.Agent.Schema.{
  EvidenceRef, commit_ref, log_ref, metric_ref, Handle, key, Hypothesis, Diagnosis, is_empty,
}
use quellgeist.Agent.Citations.{handle_same}
use quellgeist.Ingest.Lines.Printed.{append}

pub record Scenario : Type 0 where
  pub id : String
  pub failure_class : String
  pub now : String
  pub logs : List Row
  pub commits : List Row
  pub metrics : List Row
  pub gold_cause : String
  pub gold_evidence : List String
  pub gold_evidence_refs : List EvidenceRef

pub record JudgeResult : Type 0 where
  pub passed : Bool
  pub correct_cause : Bool
  pub evidence_matches : Bool
  pub reason : String

-- `{r.sha for r in refs if r.type == "commit"}`.
commit_shas : List EvidenceRef → List String
commit_shas [] = []
commit_shas (commit_ref sha _ ∷ rs) = sha ∷ commit_shas rs
commit_shas (log_ref _ _ ∷ rs) = commit_shas rs
commit_shas (metric_ref _ _ ∷ rs) = commit_shas rs

-- `gold_shas <= top_commit_shas`.
shas_within : List String → List String → Bool
shas_within xs ys = all (contains ys) xs

-- `gold <= cited`.
handles_within : List Handle → List Handle → Bool
handles_within xs ys = all (λ h. any (handle_same h) ys) xs

abbrev show_bool : Bool → String
show_bool true = "True"
show_bool false = "False"

pub pins_cause : Hypothesis → Scenario → Bool
pins_cause top s =
    let gold_shas = commit_shas s.gold_evidence_refs in
    not (is_empty gold_shas) && shas_within gold_shas (commit_shas top.evidence)

pub matches_evidence : Diagnosis → Scenario → Bool
matches_evidence d s =
    handles_within (map key s.gold_evidence_refs)
      (flat_map (λ (h : Hypothesis). map key h.evidence) d.hypotheses)

unfoldable pub verdict_reason : Bool → Bool → String
verdict_reason correct matches =
    if correct && matches
    then "ok"
    else append "correct_cause="
        (append (show_bool correct) (append " evidence_matches=" (show_bool matches)))

judge_top : Diagnosis → Scenario → Option JudgeResult
judge_top d s = elim d.hypotheses [
  | [] ↦ none
  | top ∷ _ ↦ some (record {
    passed = pins_cause top s && matches_evidence d s;
    correct_cause = pins_cause top s;
    evidence_matches = matches_evidence d s;
    reason = verdict_reason (pins_cause top s) (matches_evidence d s);
  })
]

unfoldable pub judge : Diagnosis → Scenario → Option JudgeResult
unfolding judge_top
judge d s =
    if d.abstained
    then some (record {
      passed = false;
      correct_cause = false;
      evidence_matches = false;
      reason = "diagnosis abstained";
    })
    else judge_top d s
