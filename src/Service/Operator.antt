-- ===== src/Service/Operator.antt =====
-- service/app.py: the operator's endpoints, behind a bearer token. The page is rendered outside.
pub mod Closed
use Prim.Native.Char.{code}
use Prim.Native.String.{◌++◌ as join}
use quellgeist.Base.{
  ℕ, String, Bool, true, false, not, ◌&&◌, ◌==◌, string_eq, Option, none, some, List, [], ◌∷◌,
  nat_beq, length, get_last?, if◌then◌else◌,
}
use quellgeist.Effects.{
  Exn, Result, ok, raise, type_error, value_error, ◌>>=◌ as bind, http_exception, review_error,
  resolution_error,
}
use quellgeist.Signals.{Value, str, dict, Row, empty, get}
use quellgeist.Agent.Schema.{Diagnosis}
use quellgeist.Agent.Codec.{Codec}
use quellgeist.Store.Models.{Status, Outcome, Incident, RunRecord, DiagnosisRow, Event}
use quellgeist.Store.World.{World, Action, pure, throw, lift, attempt, connect, ◌>>=◌, ◌>>◌}
use quellgeist.Store.Dao.{get_incident, list_runs, latest_event, get_diagnosis}
use quellgeist.Orchestrator.Investigate.{Signals}
use quellgeist.Agent.Loop.{abstain}
use quellgeist.Orchestrator.Review.{Config, Reviewed, apply_review, parsed}
use quellgeist.Orchestrator.Resolution.{ResolutionVerdict, verify_resolution}
use quellgeist.Service.Requests.{compare_digest, read_capped_body}
use quellgeist.Service.Endpoints.{Request, Decoded, object_of, text_or_null}

-- `dumps` prints a verdict, `live_signals` is what the check of a resolution reads now, and
-- `render_html` the page of a diagnosis under a title; `status_text` is the text of a status.
pub record Console : Type 0 where
  pub operator_token : String
  pub max_body_bytes : ℕ
  pub review : Config
  pub codec : Codec
  pub dumps : ResolutionVerdict → String
  pub live_signals : Signals
  pub json_loads : List ℕ → Decoded
  pub loads : String → Option Value
  pub status_text : Status → String
  pub render_html : Diagnosis → String → String

-- `header[len(prefix):] if header.startswith(prefix) else ""`.
after_prefix : String → String → String
after_prefix String.[] header = header
after_prefix (String.◌∷◌ p ps) String.[] = ""
after_prefix (String.◌∷◌ p ps) (String.◌∷◌ c cs) =
    let rest = after_prefix ps cs in if nat_beq (code p) (code c) then rest else ""

abbrev or_blank : Option String → String
or_blank none = ""
or_blank (some s) = s

matched : Result Bool → Result (Unit {0})
matched (ok true) = ok tt
matched (ok false) = raise (http_exception "invalid or missing operator token" 401)
matched (raise e) = raise e

require_operator : String → Option String → Result (Unit {0})
require_operator token authorization =
    let presented = after_prefix "Bearer " (or_blank authorization) in
    if token == ""
    then raise (http_exception "operator surface not configured" 503)
    else if presented == ""
    then raise (http_exception "invalid or missing operator token" 401)
    else matched (compare_digest presented token)

-- What `_incident_status` returns.
pub record IncidentStatus : Type 0 where
  incident_id : String
  status : Status
  runs : ℕ
  resolution : Option Value
  latest_run : Option RunRecord

-- `json.loads(detail)`, if there is an event with a detail that is not empty.
unfoldable resolution_of : (String → Option Value) → Option Event → Result (Option Value)
resolution_of loads none = ok none
resolution_of loads (some event) = elim event.detail_json [
  | none ↦ ok none
  | some detail ↦ if detail == "" then ok none else elim (loads detail) [
    | some v ↦ ok (some v)
    | none ↦ raise (value_error "Expecting value")
  ]
]

unfoldable status_of_incident : Console → Option Incident → Action (Option IncidentStatus)
status_of_incident c none = pure none
status_of_incident c (some inc) = do
  runs ← list_runs inc.id
  res_ev ← latest_event inc.id "resolution"
  resolution ← lift (resolution_of c.loads res_ev)
  pure (
      some (record {
        incident_id = inc.id;
        status = inc.status;
        runs = length runs;
        resolution = resolution;
        latest_run = get_last? runs;
      }))

unfoldable incident_status : Console → String → Action (Option IncidentStatus)
incident_status c incident_id = do connect; inc ← get_incident incident_id; status_of_incident c inc

-- The text of a diagnosis row that is neither missing nor empty.
unfoldable nonempty : Option String → Option String
nonempty none = none
nonempty (some s) = if s == "" then none else some s

-- The diagnosis to show, and the mark in the title.
unfoldable shown : Console → Status → Option String → Option String → Result (Diagnosis × String)
shown c status (some verified) raw =
    bind (parsed (c.codec.model_validate_json verified)) (λ d. ok (d, " (verified)"))
shown c status none (some raw) =
    bind (parsed (c.codec.model_validate_json raw)) (λ d. ok (d, " (UNVERIFIED — not postable)"))
shown c status none none =
    ok (abstain (join "no run yet (status: " (join (c.status_text status) ")")), "")

unfoldable shown_row : Console → Status → Option DiagnosisRow → Result (Diagnosis × String)
shown_row c status none = shown c status none none
shown_row c status (some row) =
    shown c status (nonempty row.verified_json) (nonempty (some row.diagnosis_json))

-- What is added to the title: the verdict of the latest check, unless its detail is no JSON or has no
-- verdict. A detail that is JSON but no object raises.
unfoldable verdict_suffix : Console → Option Event → Result String
verdict_suffix c none = ok ""
verdict_suffix c (some event) = elim (nonempty event.detail_json) [
  | none ↦ ok ""
  | some detail ↦ elim (c.loads detail) [
    | none ↦ ok ""
    | some (dict fields) ↦ elim (get "verdict" fields) [
      | none ↦ ok ""
      | some (str v) ↦ ok (join " · resolution: " v)
      | some v ↦ ok (join " · resolution: " (c.codec.str_of v))
    ]
    | some _ ↦ raise (type_error "indices must be integers")
  ]
]

unfoldable page_text : Console → Incident → Option DiagnosisRow → Option Event → Result String
page_text c inc row res_ev = bind (shown_row c inc.status row) (λ seen.
    bind (verdict_suffix c res_ev) (λ suffix. ok (
      c.render_html seen.0 (
        join "Incident "
          (join inc.id (join " — " (join (c.status_text inc.status) (join seen.1 suffix))))))))

unfoldable latest_diagnosis : Option RunRecord → Action (Option DiagnosisRow)
latest_diagnosis none = pure none
latest_diagnosis (some latest) = get_diagnosis latest.id

unfoldable page_of_incident : Console → Option Incident → Action (Option String)
page_of_incident c none = pure none
page_of_incident c (some inc) = do
  runs ← list_runs inc.id
  row ← latest_diagnosis (get_last? runs)
  res_ev ← latest_event inc.id "resolution"
  page ← lift (page_text c inc row res_ev)
  pure (some page)

unfoldable incident_page : Console → String → Action (Option String)
incident_page c incident_id = do connect; inc ← get_incident incident_id; page_of_incident c inc

-- `if found is None: raise HTTPException(404)`.
unfoldable found_or_404 : {A : Type 0} → Option A → Action A
found_or_404 none = throw (http_exception "unknown incident" 404)
found_or_404 (some a) = pure a

as_operator : {A : Type 0} → Console → Request → Action A → Action A
as_operator c req rest = do lift (require_operator c.operator_token req.authorization); rest

pub get_incident_page : Console → String → Request → Action String
get_incident_page c incident_id req =
    as_operator c req (do page ← incident_page c incident_id; found_or_404 page)

pub get_incident_status : Console → String → Request → Action IncidentStatus
get_incident_status c incident_id req =
    as_operator c req (do status ← incident_status c incident_id; found_or_404 status)

-- `except ReviewError` and `except ResolutionError`: the same code and words, as an HTTP error.
unfoldable as_http : Exn → Exn
as_http (review_error m code) = http_exception m code
as_http (resolution_error m code) = http_exception m code
as_http e = e

unfoldable answer_http : {A : Type 0} → Result A → Action A
answer_http (ok a) = pure a
answer_http (raise e) = throw (as_http e)

unfoldable except_http : {A : Type 0} → Action A → Action A
except_http m = do answered ← attempt m; answer_http answered

-- The decision of a review: what is no text is none of the three.
unfoldable review_as :
    Console → String → Option Value → Option String → Option String → Action Reviewed
review_as c incident_id (some (str decision)) steer_text reviewed_by =
    apply_review c.review incident_id decision steer_text reviewed_by
review_as c incident_id _ steer_text reviewed_by =
    throw (review_error "decision must be one of approve, reject, steer" 400)

unfoldable review_payload : Console → String → Row → Action Reviewed
review_payload c incident_id payload = do
  steer_text ← lift (text_or_null "steer_text must be a string" (get "steer_text" payload))
  reviewed_by ← lift (text_or_null "reviewed_by must be a string" (get "reviewed_by" payload))
  except_http (review_as c incident_id (get "decision" payload) steer_text reviewed_by)

pub post_review : Console → String → Request → Action Reviewed
post_review c incident_id req = as_operator c req (do
  body ← lift (read_capped_body c.max_body_bytes req.chunks)
  payload ← lift (object_of (c.json_loads body))
  review_payload c incident_id payload)

-- `payload = {}` for an empty body.
unfoldable optional_payload : Console → List ℕ → Result Row
optional_payload c [] = ok empty
optional_payload c (b ∷ bs) = object_of (c.json_loads (b ∷ bs))

unfoldable resolution_payload : Console → String → Row → Action ResolutionVerdict
resolution_payload c incident_id payload = do
  since ← lift (text_or_null "since must be a string" (get "since" payload))
  run_id ← lift (text_or_null "run_id must be a string" (get "run_id" payload))
  except_http (verify_resolution c.codec c.dumps incident_id c.live_signals run_id since)

pub post_verify_resolution : Console → String → Request → Action ResolutionVerdict
post_verify_resolution c incident_id req = as_operator c req (do
  body ← lift (read_capped_body c.max_body_bytes req.chunks)
  payload ← lift (optional_payload c body)
  resolution_payload c incident_id payload)
