-- ===== src/Orchestrator/Review.antt =====
-- orchestrator/review.py (the human review gate) with `publish` of notify/__init__.py.
-- The two channels' own code is outside the model: the configuration says how each call ends.
pub mod Posting
pub mod Gate
pub mod Closed
use quellgeist.Base.{
  ℕ, String, Bool, true, false, ◌==◌, string_eq, Option, none, some, List, [], ◌∷◌, ◌++◌,
  if◌then◌else◌, ◌&&◌, not, any, get_last?,
}
use quellgeist.Effects.{Exn, Result, ok, raise, review_error, publish_refused, validation_error}
use quellgeist.Signals.{Value, null, bool, str, dict, empty, field}
use quellgeist.Agent.Schema.{Diagnosis, validate}
use quellgeist.Agent.Codec.{Codec}
use quellgeist.Agent.Providers.{Provider}
use quellgeist.Store.Models.{
  Status, status_beq, pending_review, posted, rejected, Incident, RunRecord, DiagnosisRow,
}
use quellgeist.Store.World.{
  World, Action, Channel, html, slack, Publication, pure, throw, lift, connect, discard_snapshot,
  ◌>>=◌, ◌>>◌,
}
use quellgeist.Store.Dao.{
  get_incident, set_incident_status, list_runs, get_diagnosis, set_review, append_event,
}
use quellgeist.Orchestrator.Investigate.{Setup, investigate}

-- The part of ServiceConfig that a review reads.
pub record Config : Type 0 where
  pub setup : Setup
  pub model : String
  pub provider : Provider
  pub verifier_provider : Option Provider
  pub max_steps : ℕ
  pub slack_webhook_url : String
  pub write_html : String → Diagnosis → Result String
  pub post_slack : String → Diagnosis → Result (Unit {0})

pub record Emitted : Type 0 where
  html_path : String
  slack_posted : Bool

-- The dictionary that a review returns.
pub data Reviewed : Type 0 where
  was_rejected : (run_id : String) → Reviewed
  was_steered : Status → Reviewed
  was_posted : (run_id : String) → Emitted → Reviewed

-- A call of a channel: what it returns, beside the publication when it succeeds.
emit : {A : Type 0} → Channel → String → Diagnosis → Result A → Action A
emit channel incident_id d (raise e) w = (raise e, w)
emit channel incident_id d (ok a) w = (
  ok a,
  record w {
    published =
        w.published ++ record { channel = channel; incident_id = incident_id; diagnosis = d } ∷ [];
  },
)

-- The second channel, `if config.slack_webhook_url`.
post_if_set : Config → String → Diagnosis → String → Action Emitted
post_if_set c incident_id d html_path =
    if c.slack_webhook_url == ""
    then pure (record { html_path = html_path; slack_posted = false })
    else do
      emit slack incident_id d (c.post_slack incident_id d)
      pure (record { html_path = html_path; slack_posted = true })

publish : Config → Diagnosis → String → Bool → Action Emitted
publish c d incident_id fabricated =
    if fabricated
    then throw (publish_refused "refusing to publish a fabricated diagnosis (fail-closed)")
    else do
      html_path ← emit html incident_id d (c.write_html incident_id d)
      post_if_set c incident_id d html_path

-- The truth of an optional text.
unfoldable is_set : Option String → Bool
is_set none = false
is_set (some s) = not (s == "")

abbrev optional : Option String → Value
optional none = null
optional (some s) = str s

abbrev verified_json_of : Option DiagnosisRow → Option String
verified_json_of none = none
verified_json_of (some row) = row.verified_json

pub reject_run : Config → Incident → RunRecord → Option String → Action Reviewed
reject_run c incident latest reviewed_by = do
  set_review latest.id "reject" none reviewed_by
  append_event incident.id "rejected"
      (some (c.setup.codec.dumps (dict (field "reviewed_by" (optional reviewed_by) empty))))
      (some latest.id)
  set_incident_status incident.id rejected
  discard_snapshot incident.signals_ref
  pure (was_rejected latest.id)

-- The reaping after a steered run, by the status that the run left.
reap_steered : Option Incident → Action Reviewed
reap_steered none = pure (was_steered pending_review)
reap_steered (some steered) =
    if status_beq steered.status Status.failed
    then (do discard_snapshot steered.signals_ref; pure (was_steered steered.status))
    else pure (was_steered steered.status)

pub steer_run : Config → Incident → RunRecord → Option String → Option String → Action Reviewed
steer_run c incident latest steer_text reviewed_by = do
  set_review latest.id "steer" steer_text reviewed_by
  append_event incident.id "steered"
      (some (
        c.setup.codec.dumps (
          dict (
            field "reviewed_by" (optional reviewed_by)
              (field "steer" (optional steer_text) empty)))))
      (some latest.id)
  investigate c.setup incident.id incident.signals_ref c.provider c.model steer_text
      c.verifier_provider (some incident.received_ts) c.max_steps
  connect
  steered ← get_incident incident.id
  reap_steered steered

-- `Diagnosis.model_validate_json`: a text that is no diagnosis raises.
unfoldable pub parsed : Option Diagnosis → Result Diagnosis
parsed none = raise (validation_error "invalid diagnosis")
parsed (some d) = validate d

-- Publishing, after the decision is recorded: `{"reviewed_by": ..., **emitted}` is the detail.
post_run : Config → Incident → RunRecord → String → Option String → Action Reviewed
post_run c incident latest verified_json reviewed_by = do
  verified ← lift (parsed (c.setup.codec.model_validate_json verified_json))
  emitted ← publish c verified incident.id false
  connect
  append_event incident.id "posted"
      (some (
        c.setup.codec.dumps (
          dict (
            field "reviewed_by" (optional reviewed_by) (
              field "html_path" (str emitted.html_path)
                (field "slack_posted" (bool emitted.slack_posted) empty))))))
      (some latest.id)
  set_incident_status incident.id posted
  discard_snapshot incident.signals_ref
  pure (was_posted latest.id emitted)

pub approve_run : Config → Incident → RunRecord → Option String → Option String → Action Reviewed
approve_run c incident latest none reviewed_by =
    if is_set latest.fabricated
    then throw (review_error "cannot post a fabricated diagnosis (fail-closed)" 409)
    else throw (review_error "cannot post an unverified diagnosis (fail-closed)" 409)
approve_run c incident latest (some verified_json) reviewed_by =
    if is_set latest.fabricated
    then throw (review_error "cannot post a fabricated diagnosis (fail-closed)" 409)
    else if verified_json == ""
    then throw (review_error "cannot post an unverified diagnosis (fail-closed)" 409)
    else do
      set_review latest.id "approve" none reviewed_by
      post_run c incident latest verified_json reviewed_by

-- The three branches, with the run's verified text.
decided :
    Config
    → String
    → Option String
    → Option String
    → Incident
    → RunRecord
    → Option String
    → Action Reviewed
decided c decision steer_text reviewed_by incident latest verified_json =
    if decision == "reject"
    then reject_run c incident latest reviewed_by
    else if decision == "steer"
    then steer_run c incident latest steer_text reviewed_by
    else approve_run c incident latest verified_json reviewed_by

decide : Config → String → Option String → Option String → Incident → RunRecord → Action Reviewed
decide c decision steer_text reviewed_by incident latest = do
  diag_row ← get_diagnosis latest.id
  decided c decision steer_text reviewed_by incident latest (verified_json_of diag_row)

decide_latest :
    Config → String → Option String → Option String → Incident → Option RunRecord → Action Reviewed
decide_latest c decision steer_text reviewed_by incident none =
    throw (review_error "no run to review" 409)
decide_latest c decision steer_text reviewed_by incident (some latest) =
    decide c decision steer_text reviewed_by incident latest

review_incident :
    Config → String → Option String → Option String → Option Incident → Action Reviewed
review_incident c decision steer_text reviewed_by none = throw (review_error "unknown incident" 404)
review_incident c decision steer_text reviewed_by (some incident) =
    if not (status_beq incident.status pending_review)
    then throw (review_error "the incident is not pending_review" 409)
    else do
      runs ← list_runs incident.id
      decide_latest c decision steer_text reviewed_by incident (get_last? runs)

is_decision : String → Bool
is_decision decision = any (λ d. decision == d) ("approve" ∷ "reject" ∷ "steer" ∷ [])

pub apply_review : Config → String → String → Option String → Option String → Action Reviewed
apply_review c incident_id decision steer_text reviewed_by =
    if not (is_decision decision)
    then throw (review_error "decision must be one of approve, reject, steer" 400)
    else if decision == "steer" && not (is_set steer_text)
    then throw (review_error "a steer decision requires steer_text" 400)
    else do
      connect
      incident ← get_incident incident_id
      review_incident c decision steer_text reviewed_by incident
