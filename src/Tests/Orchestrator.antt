-- ===== src/Tests/Orchestrator.antt =====
-- Tests of the orchestrator's theorems.
use quellgeist.Base.{
  inr, pos, inl, find_first, some, ℕ, false, sym, ap, String, ◌≡◌, refl, ◌↔◌, none, [], ◌∷◌,
}
use quellgeist.Effects.{Exn, raise, ok}
use quellgeist.Orchestrator.Investigate.{InvestigationResult, investigate}
use quellgeist.Orchestrator.Investigate.Terminal.{Ended, investigate-Ended}
use quellgeist.Orchestrator.Investigate.Silent.{Silent, investigate-Silent}
use quellgeist.Orchestrator.Review.{apply_review}
use quellgeist.Orchestrator.Review.Gate.{Gated, apply_review_gate}
use quellgeist.Store.Models.{Incident, status_beq, pending_review}
use quellgeist.Store.Dao.{find_incident}
use quellgeist.Orchestrator.Review.Closed.{apply_review_closed}
use quellgeist.Orchestrator.Resolution.{judge_logs, no_route, recovered, not_recovered}
use quellgeist.Orchestrator.Resolution.Routes.{
  Seen, error_before, error_after, row_after, judge_logs-recovered, judge_logs-not_recovered,
}
use quellgeist.Agent.Schema.{log}
use quellgeist.Signals.{Row, null, int, str, empty, field, int_key, get, key_eq, to_list, of_list}
use quellgeist.Agent.Citations.Exact.{IsReal}
use quellgeist.Agent.Loop.{ToolSpec, find_tool}
use quellgeist.Ingest.Normalize.Canonical.{canonical_row}
use quellgeist.Servers.Tools.{
  query_logs, get_recent_commits, query_metrics, array_rows, as_rows, no_commits, no_metrics,
}
use quellgeist.Orchestrator.Investigate.{Signals}
use quellgeist.Ingest.Metrics.{as_dict}
use quellgeist.Orchestrator.ToolsFactory.{
  incident_tools, read_signals, snapshot_rows, read_json_array, logs_closure, only_keys, text_arg,
}
use quellgeist.Orchestrator.ToolsFactory.Agree.{Agrees, incident_tools_agree}
use quellgeist.Orchestrator.ToolsFactory.Real.{incident_tools-IsReal}
use quellgeist.Tests.Samples.{
  python, host, inside, log_read, plain_fields, bare_fields, named_commit, setup, provider, world,
  waiting, config, codec_of, diagnose_reply, log_row, healthy_row,
}

apply_review_gate_example :
    Gated config "inc" "approve" world (apply_review config "inc" "approve" none none world).1
apply_review_gate_example = apply_review_gate config "inc" "approve" none none world

investigate-Ended_example :
    (result : InvestigationResult) × ((investigate setup "new" "dir" provider "m" none none none 2
        world).0
      ≡ ok result)
    × Ended "new" result (investigate setup "new" "dir" provider "m" none none none 2 world).1
investigate-Ended_example =
    investigate-Ended setup "new" "dir" provider "m" none none none 2 world refl

investigate-Silent_example : Silent (investigate setup "new" "dir" provider "m" none none none 2)
investigate-Silent_example = investigate-Silent setup "new" "dir" provider "m" none none none 2

judge_logs-recovered_example :
    ((judge_logs (codec_of diagnose_reply) (log_row ∷ healthy_row ∷ []) "2" "run").verdict
      ≡ recovered)
    ↔ (((a : String) × Seen
            (error_before (codec_of diagnose_reply) "2")
            (log_row ∷ healthy_row ∷ [])
            a)
        × ((a : String)
            → Seen (error_before (codec_of diagnose_reply) "2") (log_row ∷ healthy_row ∷ []) a
            → (¬ (a ≡ no_route))
              × Seen (row_after (codec_of diagnose_reply) "2") (log_row ∷ healthy_row ∷ []) a
              × ¬ Seen (error_after (codec_of diagnose_reply) "2") (log_row ∷ healthy_row ∷ []) a))
judge_logs-recovered_example =
    judge_logs-recovered (codec_of diagnose_reply) (log_row ∷ healthy_row ∷ []) "2" "run"

judge_logs-not_recovered_example :
    ((judge_logs (codec_of diagnose_reply) (log_row ∷ log_row ∷ []) "2" "run").verdict
      ≡ not_recovered)
    ↔ ((a : String) × Seen (error_before (codec_of diagnose_reply) "2") (log_row ∷ log_row ∷ []) a
        × Seen (error_after (codec_of diagnose_reply) "2") (log_row ∷ log_row ∷ []) a)
judge_logs-not_recovered_example =
    judge_logs-not_recovered (codec_of diagnose_reply) (log_row ∷ log_row ∷ []) "2" "run"

waiting_closed :
    (i : Incident) → find_incident "new" world ≡ some i → status_beq i.status pending_review ≡ false
unfolding find_incident find_first status_beq
waiting_closed i found =
    let same : waiting ≡ i = some-injective found in
    ap (λ (j : Incident). status_beq j.status pending_review) (sym same)
  where
    some-injective : {x y : Incident} → some x ≡ some y → x ≡ y
    some-injective e = cc

apply_review_closed_example :
    ((x : Exn) × ((apply_review config "new" "approve" none none world).0 ≡ raise x))
    × ((n : ℕ) × ((apply_review config "new" "approve" none none world).1
          ≡ record world { transactions = n }))
apply_review_closed_example =
    apply_review_closed config "new" "approve" none none world waiting_closed

abbrev since_call : Row
since_call = field "since" null empty

incident_tools_agree_example :
    let tools = incident_tools python host inside "dir" in
    ((t : ToolSpec) × (find_tool "query_logs" tools ≡ some t)
      × (t.fn (field "route" (str "/pay") empty) ≡ query_logs python host none none (some "/pay")))
    × ((t : ToolSpec) × (find_tool "get_recent_commits" tools ≡ some t)
        × Agrees no_commits (t.fn since_call) (get_recent_commits python host none none))
    × ((t : ToolSpec) × (find_tool "query_metrics" tools ≡ some t)
        × Agrees no_metrics (t.fn since_call) (query_metrics python host none none))
unfolding quellgeist.Servers.Tools.env_path get
incident_tools_agree_example =
    incident_tools_agree python host inside "dir" (field "route" (str "/pay") empty) since_call
      since_call none none (some "/pay") none none refl refl refl
      (
        (inr (inr (inl refl)), tt),
        inr (refl, inl refl),
        inr (refl, inl refl),
        inl ("/pay", refl, refl),
      )
      ((inl refl, tt), inr (refl, inr refl), inr (refl, inl refl))
      ((inr (inl refl), tt), inr (refl, inl refl), inr (refl, inr refl))

abbrev read_back : Signals
read_back = record {
  logs = canonical_row plain_fields ∷ canonical_row bare_fields ∷ [];
  commits = named_commit ∷ [];
  metrics = field "metric" (str "errors") empty ∷ [];
}

-- A file of the snapshot that is a JSON array, and the log, as the tools read them.
signals_read : read_signals python host inside "dir" ≡ ok read_back
unfolding read_signals snapshot_rows read_json_array array_rows as_rows as_dict to_list of_list
signals_read = rw log_read refl

rows_shown : logs_closure python host inside "dir" 1 empty ≡ ok (canonical_row bare_fields ∷ [])
unfolding logs_closure snapshot_rows only_keys text_arg get
    quellgeist.Servers.Filters.filter_log_rows quellgeist.Servers.Filters.check_since
    quellgeist.Servers.Filters.select quellgeist.Servers.Filters.keeps_log
    quellgeist.Servers.Filters.too_old quellgeist.Servers.Filters.level_is
    quellgeist.Servers.Filters.normal_level quellgeist.Servers.Filters.route_is
rows_shown = rw log_read refl

incident_tools-IsReal_example :
    IsReal read_back.logs read_back.commits (some read_back.metrics) (log, int_key (pos 9))
unfolding get key_eq
incident_tools-IsReal_example =
    incident_tools-IsReal python host inside log "dir" 1 empty (canonical_row bare_fields ∷ [])
      read_back (int_key (pos 9)) signals_read rows_shown
      (canonical_row bare_fields, inl refl, (int (pos 9), refl, refl))
