-- ===== src/Orchestrator/ToolsFactory.antt =====
-- orchestrator/tools_factory.py: the evidence tools bound to the snapshot of one incident.
pub mod Real
pub mod Agree
use quellgeist.Base.{
  ℕ, String, Bool, true, false, not, ◌&&◌, ◌==◌, string_eq, Option, none, some, List, [], ◌∷◌, ℤ,
  pos, length, last_n, ltb, nat_beq, if◌then◌else◌, contains,
}
use quellgeist.Effects.{Result, ok, raise, type_error, value_error, os_error, ◌>>=◌, ◌>>◌}
use quellgeist.Signals.{
  Value, null, bool, int, float, str, list, dict, Row, empty, field, get, put, to_list, of_list,
}
use quellgeist.Agent.Loop.{ToolSpec}
use quellgeist.Ingest.Runtime.{Runtime}
use quellgeist.Ingest.Sources.{Source, missing, file, directory, ReadResult, read_log_source}
use quellgeist.Servers.Filters.{filter_log_rows, recent_commits, filter_metric_rows}
use quellgeist.Servers.Tools.{
  Host, natural_or, array_rows, default_max_rows, default_max_points, query_logs_desc,
  get_recent_commits_desc, query_metrics_desc,
}
use quellgeist.Orchestrator.Investigate.{Signals}

abbrev snapshot_log : String
snapshot_log = "incident_logs.jsonl"

abbrev snapshot_deploy : String
snapshot_deploy = "deploy_log.json"

abbrev snapshot_metrics : String
snapshot_metrics = "metrics.json"

abbrev no_array : String
no_array = "expected a JSON array"

-- The binding of keyword arguments: every key of the call is a parameter.
unfoldable pub only_keys : List String → Row → Result (Unit {0})
only_keys names empty = ok tt
only_keys names (field k v row) =
    if contains names k
    then only_keys names row
    else raise (type_error "got an unexpected keyword argument")

-- An optional text argument. Here a value that is neither a text nor null is refused, where the code
-- would compare it as it is.
unfoldable pub text_arg : String → Row → Result (Option String)
text_arg name args = elim (get name args) [
  | none ↦ ok none
  | some null ↦ ok none
  | some (str s) ↦ ok (some s)
  | some _ ↦ raise (type_error "must be str")
]

int_arg : String → Row → Result (Option ℤ)
int_arg name args = elim (get name args) [
  | none ↦ ok none
  | some null ↦ ok none
  | some (int z) ↦ ok (some z)
  | some (bool b) ↦ ok (some (pos (if b then 1 else 0)))
  | some _ ↦ raise (type_error "slice indices must be integers")
]

-- The comprehension of the `query_metrics` closure.
shorten_value : ℕ → Row → Option Value → Result Row
shorten_value max_points s none = ok s
shorten_value max_points s (some (list pts)) =
    if ltb max_points (length (to_list pts))
    then ok (put "points" (list (of_list (last_n max_points (to_list pts)))) s)
    else ok s
shorten_value max_points s (some _) = raise (type_error "object has no len()")

pub shorten : ℕ → List Row → Result (List Row)
shorten max_points [] = ok []
shorten max_points (s ∷ series) = do
  here ← shorten_value max_points s (get "points" s)
  rest ← shorten max_points series
  ok (here ∷ rest)

-- `within` is `Path(dir) / name`.
module _ (rt : Runtime) (host : Host) (within : String → String → String) where
  -- `_int_env` of this module.
  snapshot_int_env : String → ℕ → ℕ
  snapshot_int_env name default = elim (host.environ name) [
    | none ↦ default
    | some raw ↦ natural_or default (rt.int_of_text raw)
  ]

  unfoldable pub snapshot_rows : String → Result (List Row)
  snapshot_rows dir = do
    result ← read_log_source rt (host.disk (within dir snapshot_log))
    ok result.rows

  unfoldable pub read_json_array : Source → Result (List Row)
  read_json_array missing = ok []
  read_json_array (file text) = array_rows no_array (rt.loads text)
  read_json_array (directory _) = raise (os_error "Is a directory")

  unfoldable pub read_signals : String → Result Signals
  read_signals dir = do
    logs ← snapshot_rows dir
    commits ← read_json_array (host.disk (within dir snapshot_deploy))
    metrics ← read_json_array (host.disk (within dir snapshot_metrics))
    ok (record { logs = logs; commits = commits; metrics = metrics })

  -- The closures, given the caps that were read when the tools were built.
  unfoldable pub logs_closure : String → ℕ → Row → Result (List Row)
  logs_closure dir max_rows args = do
    only_keys ("since" ∷ "level" ∷ "route" ∷ []) args
    since ← text_arg "since" args
    level ← text_arg "level" args
    route ← text_arg "route" args
    all_rows ← snapshot_rows dir
    rows ← filter_log_rows all_rows since level route
    ok (
        if not (nat_beq max_rows 0) && ltb max_rows (length rows)
        then last_n max_rows rows
        else rows)

  pub commits_closure : String → Row → Result (List Row)
  commits_closure dir args = do
    only_keys ("since" ∷ "limit" ∷ []) args
    since ← text_arg "since" args
    limit ← int_arg "limit" args
    commits ← read_json_array (host.disk (within dir snapshot_deploy))
    recent_commits commits since limit

  pub metrics_closure : String → ℕ → Row → Result (List Row)
  metrics_closure dir max_points args = do
    only_keys ("name" ∷ "since" ∷ []) args
    name ← text_arg "name" args
    since ← text_arg "since" args
    metrics ← read_json_array (host.disk (within dir snapshot_metrics))
    series ← filter_metric_rows metrics name since
    if nat_beq max_points 0 then ok series else shorten max_points series

  pub incident_tools : String → List ToolSpec
  incident_tools dir =
      let max_rows = snapshot_int_env "QG_MAX_ROWS" default_max_rows in
      let max_points = snapshot_int_env "QG_MAX_POINTS" default_max_points in
      record { name = "query_logs"; description = query_logs_desc; fn = logs_closure dir max_rows }
      ∷ record {
        name = "get_recent_commits";
        description = get_recent_commits_desc;
        fn = commits_closure dir;
      }
      ∷ record {
        name = "query_metrics";
        description = query_metrics_desc;
        fn = metrics_closure dir max_points;
      }
      ∷ []
