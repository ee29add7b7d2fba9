-- ===== src/Orchestrator/Resolution.antt =====
-- orchestrator/resolution.py: did the incident's routes recover after the fix?
-- The signals are those that the ingest readers return for the live files. The wording of the
-- reason and the informational metric notes are left out, and so is a digit outside ASCII.
pub mod Routes
pub mod Unknown
use quellgeist.Base.{
  ℕ, ◌+◌, ◌-◌, ◌*◌, String, Bool, true, false, not, ◌&&◌, ◌||◌, ◌==◌, string_eq, Option, none, some,
  List, [], ◌∷◌, map, keep, any, find_first, contains, diff, inter, sort_texts, dedupe, get_last?,
  if◌then◌else◌, pos, lez, str_lt, str_le, upper_is, codes, leb, ltb,
}
use quellgeist.Effects.{Result, ok, raise, resolution_error}
use quellgeist.Signals.{Value, null, bool, int, str, Row, get}
use quellgeist.Agent.Codec.{Codec}
use quellgeist.Store.Models.{Incident, RunRecord}
use quellgeist.Store.World.{World, Action, pure, throw, connect, ◌>>=◌, ◌>>◌}
use quellgeist.Store.Dao.{get_incident, list_runs, append_event}
use quellgeist.Orchestrator.Investigate.{Signals}

pub data Verdict : Type 0 where
  recovered not_recovered inconclusive : Verdict

pub record ResolutionVerdict : Type 0 where
  pub verdict : Verdict
  pub run_id : String
  pub since : String
  error_routes : List String
  residual_error_routes : List String
  recovered_routes : List String
  unconfirmed_routes : List String

-- `int(status)` for a text of ASCII digits; `n` is the value of the digits before.
digits_from : ℕ → List ℕ → Option ℕ
digits_from n [] = some n
digits_from n (c ∷ cs) =
    let rest = digits_from (n * 10 + (c - 48)) cs in if leb 48 c && leb c 57 then rest else none

unfoldable digits : List ℕ → Option ℕ
unfolding digits_from
digits [] = none
digits (c ∷ cs) = digits_from 0 (c ∷ cs)

abbrev at_least_500 : Option ℕ → Bool
at_least_500 none = false
at_least_500 (some n) = leb 500 n

unfoldable is_error_status : Option Value → Bool
is_error_status (some (int z)) = lez (pos 500) z
is_error_status (some (str s)) = at_least_500 (digits (codes s))
is_error_status _ = false

unfoldable pub is_error_level : Option Value → Bool
is_error_level (some (str s)) = any (upper_is s) ("ERROR" ∷ "ERR" ∷ "CRITICAL" ∷ "FATAL" ∷ [])
is_error_level _ = false

unfoldable is_error : Row → Bool
is_error row = is_error_level (get "level" row) || is_error_status (get "status" row)

abbrev pub no_route : String
no_route = "<unrouted>"

abbrev route_name : Option Value → String
route_name (some (str s)) = if s == "" then no_route else s
route_name _ = no_route

unfoldable pub route : Row → String
route row = route_name (get "route" row)

-- `[c["ts"] for c in commits if isinstance(c.get("ts"), str) and c["ts"] > started_ts]`.
add_later : String → Option Value → List String → List String
add_later started (some (str ts)) rest = if str_lt started ts then ts ∷ rest else rest
add_later started _ rest = rest

unfoldable deploys_after : String → List Row → List String
unfolding add_later
deploys_after started [] = []
deploys_after started (c ∷ cs) = add_later started (get "ts" c) (deploys_after started cs)

-- `max` of a nonempty list, its head given.
unfoldable latest_of : String → List String → String
latest_of t [] = t
latest_of t (u ∷ us) = latest_of (if str_lt t u then u else t) us

abbrev or_text : Option String → String → String
or_text none other = other
or_text (some s) other = if s == "" then other else s

abbrev boundary_of : List String → String → Option String → String
boundary_of [] started ended = or_text ended started
boundary_of (t ∷ ts) started ended = latest_of t ts

unfoldable fix_boundary : List Row → String → Option String → String
fix_boundary commits started ended = boundary_of (deploys_after started commits) started ended

-- `str(r.get("ts", ""))`.
abbrev ts_text : Codec → Option Value → String
ts_text codec none = ""
ts_text codec (some (str s)) = s
ts_text codec (some v) = codec.str_of v

unfoldable before : Codec → String → Row → Bool
before codec boundary row = str_lt (ts_text codec (get "ts" row)) boundary

-- The set of the routes of the rows that pass a test.
routes_where : (Row → Bool) → List Row → List String
routes_where test rows = dedupe (map route (keep test rows))

residual_routes : List String → List String → List String
residual_routes errors post_errors = sort_texts (inter errors post_errors)

recovered_routes : List String → List String → List String → List String
recovered_routes errors post_errors post =
    sort_texts
      (keep (λ r. not (r == no_route) && (contains post r && not (contains post_errors r))) errors)

unconfirmed_routes : List String → List String → List String → List String
unconfirmed_routes errors residual healthy = sort_texts (diff (diff errors residual) healthy)

verdict_of : List String → List String → List String → Verdict
verdict_of [] residual unconfirmed = inconclusive
verdict_of (e ∷ es) (r ∷ rs) unconfirmed = not_recovered
verdict_of (e ∷ es) [] (u ∷ us) = inconclusive
verdict_of (e ∷ es) [] [] = recovered

-- From the log rows and the boundary to the verdict.
pub judge_logs : Codec → List Row → String → String → ResolutionVerdict
judge_logs codec logs boundary run_id =
    let errors = routes_where (λ r. before codec boundary r && is_error r) logs in
    let post_errors = routes_where (λ r. not (before codec boundary r) && is_error r) logs in
    let post = routes_where (λ r. not (before codec boundary r)) logs in
    let residual = residual_routes errors post_errors in
    let healthy = recovered_routes errors post_errors post in
    let unconfirmed = unconfirmed_routes errors residual healthy in
    record {
      verdict = verdict_of errors residual unconfirmed;
      run_id = run_id;
      since = boundary;
      error_routes = sort_texts errors;
      residual_error_routes = residual;
      recovered_routes = healthy;
      unconfirmed_routes = unconfirmed;
    }

-- `run_id` given, or the latest run; `none` where the source raises 404.
unfoldable chosen_run : Option String → List RunRecord → Option RunRecord
chosen_run none runs = get_last? runs
chosen_run (some id) runs = find_first (λ r. r.id == id) runs

unfoldable check_run :
    Codec
    → (ResolutionVerdict → String)
    → String
    → Signals
    → Option String
    → Option RunRecord
    → Action ResolutionVerdict
check_run codec dumps incident_id signals since none =
    throw (resolution_error "unknown run for this incident" 404)
check_run codec dumps incident_id signals since (some run) = do
  let boundary = or_text since (fix_boundary signals.commits run.started_ts run.ended_ts)
  let result = judge_logs codec signals.logs boundary run.id
  append_event incident_id "resolution" (some (dumps result)) (some run.id)
  pure result

unfoldable check_runs :
    Codec
    → (ResolutionVerdict → String)
    → String
    → Signals
    → Option String
    → Option String
    → List RunRecord
    → Action ResolutionVerdict
check_runs codec dumps incident_id signals run_id since [] =
    throw (resolution_error "no run to verify" 409)
check_runs codec dumps incident_id signals run_id since (r ∷ rs) =
    check_run codec dumps incident_id signals since (chosen_run run_id (r ∷ rs))

unfoldable check_incident :
    Codec
    → (ResolutionVerdict → String)
    → String
    → Signals
    → Option String
    → Option String
    → Option Incident
    → Action ResolutionVerdict
check_incident codec dumps incident_id signals run_id since none =
    throw (resolution_error "unknown incident" 404)
check_incident codec dumps incident_id signals run_id since (some incident) = do
  runs ← list_runs incident_id
  check_runs codec dumps incident_id signals run_id since runs

pub verify_resolution :
    Codec
    → (ResolutionVerdict → String)
    → String
    → Signals
    → Option String
    → Option String
    → Action ResolutionVerdict
verify_resolution codec dumps incident_id signals run_id since = do
  connect
  incident ← get_incident incident_id
  check_incident codec dumps incident_id signals run_id since incident
