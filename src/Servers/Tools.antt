-- ===== src/Servers/Tools.antt =====
-- servers/tools.py: the evidence tools over the files that the environment names. The warnings go to
-- stderr and are left out.
pub mod Bounds
use quellgeist.Base.{
  ℕ, String, Bool, true, false, not, ◌&&◌, ◌==◌, string_eq, Option, none, some, List, [], ◌∷◌, map,
  ℤ, pos, negsuc, length, last_n, ltb, nat_beq, if◌then◌else◌,
}
use quellgeist.Effects.{
  Result, ok, raise, type_error, value_error, attribute_error, os_error, ◌>>=◌,
}
use quellgeist.Signals.{
  Value, null, bool, int, float, str, list, dict, Row, get, put, to_list, of_list,
}
use quellgeist.Ingest.Runtime.{Runtime}
use quellgeist.Ingest.Metrics.{as_dict}
use quellgeist.Ingest.Sources.{Source, missing, file, directory, ReadResult, read_log_source}
use quellgeist.Servers.Filters.{filter_log_rows, recent_commits, filter_metric_rows}

abbrev pub default_log_path : String
default_log_path = "demo/incident_logs.jsonl"

abbrev pub default_deploy_log : String
default_deploy_log = "demo/deploy_log.json"

abbrev pub default_metrics_path : String
default_metrics_path = "demo/metrics.json"

abbrev pub default_max_rows : ℕ
default_max_rows = 200

abbrev pub default_max_points : ℕ
default_max_points = 1000

abbrev pub query_logs_desc : String
query_logs_desc =
    "Query structured incident logs; optional since/level/route; rows carry a stable int id."

abbrev pub get_recent_commits_desc : String
get_recent_commits_desc =
    "List recent deploys newest-first; optional since/limit; commits carry sha/ts/msg/files."

abbrev pub query_metrics_desc : String
query_metrics_desc =
    "Query metric time-series (memory/connections/queue depth) for resource incidents; optional name/since; each series carries a `metric` name (cite it), `unit`, and `points`."

-- `os.environ` and the files: what the process sees of its surroundings.
pub record Host : Type 0 where
  pub environ : String → Option String
  pub disk : String → Source

-- `os.environ.get(name, default)`.
unfoldable pub env_path : Host → String → String → String
env_path host name default = elim (host.environ name) [ some path ↦ path | none ↦ default ]

-- `val if val >= 0 else default`, after `int(raw)`.
unfoldable pub natural_or : ℕ → Option ℤ → ℕ
natural_or default (some (pos n)) = n
natural_or default _ = default

unfoldable pub cap_rows : ℕ → List Row → List Row
cap_rows cap rows = if not (nat_beq cap 0) && ltb cap (length rows) then last_n cap rows else rows

-- The complaints about a file that holds no JSON array, without its path and the type it holds.
abbrev pub no_commits : String
no_commits = "expected a JSON array of commits"

abbrev pub no_metrics : String
no_metrics = "expected a JSON array of metric series"

-- The rows of a JSON array, or a complaint if the value is none. An element that is no object is refused here; the code refuses it where it
-- first looks into the row.
unfoldable pub as_rows : List Value → Result (List Row)
as_rows [] = ok []
as_rows (v ∷ vs) = do row ← as_dict v; rows ← as_rows vs; ok (row ∷ rows)

unfoldable pub array_rows : String → Option Value → Result (List Row)
array_rows complaint none = raise (value_error "Expecting value")
array_rows complaint (some (list vs)) = as_rows (to_list vs)
array_rows complaint (some _) = raise (value_error complaint)

-- `points[-cap:]` when there are more. Points that are no list are refused.
unfoldable pub cap_value : ℕ → Row → Option Value → Result Row
cap_value cap s none = ok s
cap_value cap s (some (list vs)) = ok (
    if ltb cap (length (to_list vs))
    then put "points" (list (of_list (last_n cap (to_list vs)))) s
    else s)
cap_value cap s (some _) = raise (type_error "object has no len()")

unfoldable pub cap_series : ℕ → Row → Result Row
cap_series cap s = cap_value cap s (get "points" s)

unfoldable pub cap_each : ℕ → List Row → Result (List Row)
cap_each cap [] = ok []
cap_each cap (s ∷ series) = do here ← cap_series cap s; rest ← cap_each cap series; ok (here ∷ rest)

unfoldable pub cap_points : ℕ → List Row → Result (List Row)
cap_points cap series = if nat_beq cap 0 then ok series else cap_each cap series

module _ (rt : Runtime) where
  -- `_int_env`.
  unfoldable pub int_env : Host → String → ℕ → ℕ
  int_env host name default = elim (host.environ name) [
    | none ↦ default
    | some raw ↦ natural_or default (rt.int_of_text raw)
  ]

  unfoldable pub read_log_rows : Source → Result (List Row)
  read_log_rows path = do result ← read_log_source rt path; ok result.rows

  -- What `_read_commits` and `_read_metrics` share; they differ in what they complain of.
  unfoldable pub read_array : String → Source → Result (List Row)
  read_array complaint missing = ok []
  read_array complaint (file text) = array_rows complaint (rt.loads text)
  read_array complaint (directory _) = raise (os_error "Is a directory")

  abbrev read_commits : Source → Result (List Row)
  read_commits path = read_array no_commits path

  abbrev pub read_metrics : Source → Result (List Row)
  read_metrics path = read_array no_metrics path

  unfoldable pub query_logs :
      Host → Option String → Option String → Option String → Result (List Row)
  query_logs host since level route = do
    all_rows ← read_log_rows (host.disk (env_path host "QG_LOG_PATH" default_log_path))
    rows ← filter_log_rows all_rows since level route
    ok (cap_rows (int_env host "QG_MAX_ROWS" default_max_rows) rows)

  pub all_log_rows : Host → Result (List Row)
  all_log_rows host = read_log_rows (host.disk (env_path host "QG_LOG_PATH" default_log_path))

  unfoldable pub get_recent_commits : Host → Option String → Option ℤ → Result (List Row)
  get_recent_commits host since limit = do
    commits ← read_commits (host.disk (env_path host "QG_DEPLOY_LOG" default_deploy_log))
    recent_commits commits since limit

  unfoldable pub query_metrics : Host → Option String → Option String → Result (List Row)
  query_metrics host name since = do
    metrics ← read_metrics (host.disk (env_path host "QG_METRICS_PATH" default_metrics_path))
    series ← filter_metric_rows metrics name since
    cap_points (int_env host "QG_MAX_POINTS" default_max_points) series
