-- ===== src/Orchestrator/ToolsFactory/Agree.antt =====
-- orchestrator/tools_factory.py and servers/tools.py: the tools of an incident answer as the tools of
-- the command line do.
use quellgeist.Base.{
  ℕ, String, ◌≡◌, refl, ap, Option, none, some, List, [], ◌∷◌, ℤ, ltb, nat_beq, length, Bool-cases,
  if◌then◌else◌, inl, inr, string_eq, contains_iff, In, ◌⊎◌, ◌∙◌,
}
use quellgeist.Effects.{Result, ok, raise, value_error, ◌>>=◌, >>=-ext}
use quellgeist.Servers.Filters.{filter_metric_rows}
use quellgeist.Signals.{
  Value, null, bool, int, float, str, list, dict, Row, empty, field, get, to_list,
}
use quellgeist.Agent.Loop.{ToolSpec, find_tool}
use quellgeist.Ingest.Runtime.{Runtime}
use quellgeist.Ingest.Sources.{Source, missing, file, directory}
use quellgeist.Servers.Tools.{
  no_commits, no_metrics, array_rows, Host, env_path, cap_rows, cap_value, cap_series, cap_each,
  cap_points, int_env, read_array, read_log_rows, query_logs, get_recent_commits, query_metrics,
  default_log_path, default_max_rows, default_max_points, default_deploy_log, default_metrics_path,
}
use quellgeist.Orchestrator.ToolsFactory.{
  no_array, snapshot_log, snapshot_deploy, snapshot_metrics, only_keys, text_arg, int_arg,
  shorten_value, shorten, snapshot_int_env, snapshot_rows, read_json_array, logs_closure,
  commits_closure, metrics_closure, incident_tools,
}

-- The keys of a call are among these names.
abbrev Keyed : List String → Row → Type 0
Keyed names empty = Unit
Keyed names (field k v row) = In k names × Keyed names row

-- What a call gives for an argument: a value, or none if it is missing or null.
abbrev Given : {A : Type 0} → (A → Value) → Option Value → Option A → Type 0
Given shown v o =
    ((a : _) × (v ≡ some (shown a)) × (o ≡ some a)) ⊎ ((o ≡ none) × ((v ≡ none) ⊎ (v ≡ some null)))

abbrev IsLogCall : Row → Option String → Option String → Option String → Type 0
IsLogCall args since level route =
    Keyed ("since" ∷ "level" ∷ "route" ∷ []) args
    × Given str (get "since" args) since
    × Given str (get "level" args) level
    × Given str (get "route" args) route

abbrev IsCommitCall : Row → Option String → Option ℤ → Type 0
IsCommitCall args since limit =
    Keyed ("since" ∷ "limit" ∷ []) args
    × Given str (get "since" args) since
    × Given int (get "limit" args) limit

abbrev IsMetricCall : Row → Option String → Option String → Type 0
IsMetricCall args name since =
    Keyed ("name" ∷ "since" ∷ []) args
    × Given str (get "name" args) name
    × Given str (get "since" args) since

-- The answers are equal, or both complain of a file that holds no JSON array, each in its own words.
abbrev pub Agrees : {A : Type 0} → String → Result A → Result A → Type 0
Agrees words answer expected =
    (answer ≡ expected)
    ⊎ ((answer ≡ raise (value_error no_array)) × (expected ≡ raise (value_error words)))

Agrees->>= :
    {A B : Type 0} (words : String) (m m' : Result A) (k k' : A → Result B)
    → Agrees words m m'
    → ((a : A) → k a ≡ k' a)
    → Agrees words (m >>= k) (m' >>= k')
Agrees->>= words m m' k k' agrees same = elim agrees [
  | inl e ↦ inl (ap (λ x. x >>= k) e ∙ >>=-ext m' k k' same)
  | inr (e, f) ↦ inr (rw e refl, rw f refl)
]

only_keys-Keyed :
    (names : List String) (args : Row) → Keyed names args → only_keys names args ≡ ok tt
unfolding only_keys
only_keys-Keyed names empty h = refl
only_keys-Keyed names (field k v row) h =
    rw ((contains_iff names k).1 h.0) (only_keys-Keyed names row h.1)

text_arg-Given :
    (name : String) (o : Option String) (row : Row)
    → Given str (get name row) o
    → text_arg name row ≡ ok o
unfolding text_arg
text_arg-Given name o row h = elim h [
  | inl (s, e, q) ↦ rw (text_arg, e, q) refl
  | inr (q, h') ↦ elim h' [ inl e ↦ rw (text_arg, e, q) refl | inr e ↦ rw (text_arg, e, q) refl ]
]

int_arg-Given :
    (name : String) (o : Option ℤ) (row : Row)
    → Given int (get name row) o
    → int_arg name row ≡ ok o
unfolding int_arg
int_arg-Given name o row h = elim h [
  | inl (z, e, q) ↦ rw (int_arg, e, q) refl
  | inr (q, h') ↦ elim h' [ inl e ↦ rw (int_arg, e, q) refl | inr e ↦ rw (int_arg, e, q) refl ]
]

shorten_value-cap_value :
    (cap : ℕ) (s : Row) (o : Option Value) → shorten_value cap s o ≡ cap_value cap s o
unfolding shorten_value cap_value
shorten_value-cap_value cap s none = refl
shorten_value-cap_value cap s (some null) = refl
shorten_value-cap_value cap s (some (bool _)) = refl
shorten_value-cap_value cap s (some (int _)) = refl
shorten_value-cap_value cap s (some (float _)) = refl
shorten_value-cap_value cap s (some (str _)) = refl
shorten_value-cap_value cap s (some (dict _)) = refl
shorten_value-cap_value cap s (some (list vs)) = elim (Bool-cases (ltb cap (length (to_list vs)))) [
  | inl t ↦ rw t refl
  | inr t ↦ rw t refl
]

pub shorten-cap_each : (cap : ℕ) (series : List Row) → shorten cap series ≡ cap_each cap series
unfolding shorten cap_each cap_series
shorten-cap_each cap [] = refl
shorten-cap_each cap (s ∷ series) =
    rw (shorten_value-cap_value cap s (get "points" s), shorten-cap_each cap series) refl

module _ (rt : Runtime) (host : Host) (within : String → String → String) where
  read_array-Agrees :
      (words : String) (p : Source)
      → Agrees words (read_json_array rt host within p) (read_array rt words p)
  unfolding read_json_array read_array array_rows
  read_array-Agrees words missing = inl refl
  read_array-Agrees words (directory _) = inl refl
  read_array-Agrees words (file text) = by_value (rt.loads text)
    where
      by_value : (o : Option Value) → Agrees words (array_rows no_array o) (array_rows words o)
      by_value none = inl (unfold array_rows in refl)
      by_value (some (list vs)) = inl (unfold array_rows in refl)
      by_value (some null) = inr (unfold array_rows in (refl, refl))
      by_value (some (bool _)) = inr (unfold array_rows in (refl, refl))
      by_value (some (int _)) = inr (unfold array_rows in (refl, refl))
      by_value (some (float _)) = inr (unfold array_rows in (refl, refl))
      by_value (some (str _)) = inr (unfold array_rows in (refl, refl))
      by_value (some (dict _)) = inr (unfold array_rows in (refl, refl))

  logs_agree :
      (dir : String) (args : Row) (since level route : Option String)
      → env_path host "QG_LOG_PATH" default_log_path ≡ within dir snapshot_log
      → IsLogCall args since level route
      → logs_closure rt host within dir
          (snapshot_int_env rt host within "QG_MAX_ROWS" default_max_rows)
          args
        ≡ query_logs rt host since level route
  unfolding logs_closure query_logs snapshot_rows read_log_rows cap_rows snapshot_int_env int_env
  logs_agree dir args since level route e (keys, s, l, r) =
      rw
        (
          only_keys-Keyed ("since" ∷ "level" ∷ "route" ∷ []) args keys,
          text_arg-Given "since" since args s,
          text_arg-Given "level" level args l,
          text_arg-Given "route" route args r,
          e,
        )
        refl

  commits_agree :
      (dir : String) (args : Row) (since : Option String) (limit : Option ℤ)
      → env_path host "QG_DEPLOY_LOG" default_deploy_log ≡ within dir snapshot_deploy
      → IsCommitCall args since limit
      → Agrees no_commits
          (commits_closure rt host within dir args)
          (get_recent_commits rt host since limit)
  unfolding commits_closure get_recent_commits
  commits_agree dir args since limit e (keys, s, l) =
      rw
        (
          only_keys-Keyed ("since" ∷ "limit" ∷ []) args keys,
          text_arg-Given "since" since args s,
          int_arg-Given "limit" limit args l,
          e,
        )
        (Agrees->>= no_commits _ _ _ _
          (read_array-Agrees no_commits (host.disk (within dir snapshot_deploy))) (λ commits. refl))

  metrics_agree :
      (dir : String) (args : Row) (name since : Option String)
      → env_path host "QG_METRICS_PATH" default_metrics_path ≡ within dir snapshot_metrics
      → IsMetricCall args name since
      → Agrees no_metrics
          (metrics_closure rt host within dir
            (snapshot_int_env rt host within "QG_MAX_POINTS" default_max_points)
            args)
          (query_metrics rt host name since)
  unfolding metrics_closure query_metrics cap_points snapshot_int_env int_env
  metrics_agree dir args name since e (keys, n, s) =
      let cap = int_env rt host "QG_MAX_POINTS" default_max_points in
      rw
        (
          only_keys-Keyed ("name" ∷ "since" ∷ []) args keys,
          text_arg-Given "name" name args n,
          text_arg-Given "since" since args s,
          e,
        )
        (Agrees->>= no_metrics _ _ _ _
          (read_array-Agrees no_metrics (host.disk (within dir snapshot_metrics)))
          (λ metrics. >>=-ext (filter_metric_rows metrics name since) _ _ (λ series.
            ap (λ l. if nat_beq cap 0 then ok series else l) (shorten-cap_each cap series))))

  -- Where the environment names the files of a snapshot, each tool of the incident is there under its
  -- name and answers a call as the command line's tool does, whether it returns or raises; only a file
  -- of deploys or metrics that holds no JSON array is complained of in other words. In the call any
  -- argument may be missing or null, and those given are texts, and an int for the limit.
  pub incident_tools_agree :
      (dir : String) (log_call commit_call metric_call : Row)
      (since level route name : Option String) (limit : Option ℤ)
      → env_path host "QG_LOG_PATH" default_log_path ≡ within dir snapshot_log
      → env_path host "QG_DEPLOY_LOG" default_deploy_log ≡ within dir snapshot_deploy
      → env_path host "QG_METRICS_PATH" default_metrics_path ≡ within dir snapshot_metrics
      → IsLogCall log_call since level route
      → IsCommitCall commit_call since limit
      → IsMetricCall metric_call name since
      → let tools = incident_tools rt host within dir in
        ((t : ToolSpec) × (find_tool "query_logs" tools ≡ some t)
          × (t.fn log_call ≡ query_logs rt host since level route))
        × ((t : ToolSpec) × (find_tool "get_recent_commits" tools ≡ some t)
            × Agrees no_commits (t.fn commit_call) (get_recent_commits rt host since limit))
        × ((t : ToolSpec) × (find_tool "query_metrics" tools ≡ some t)
            × Agrees no_metrics (t.fn metric_call) (query_metrics rt host name since))
  unfolding incident_tools find_tool
  incident_tools_agree dir log_call commit_call metric_call since level route name limit log_path
        deploy_path metrics_path is_log is_commit is_metric =
      (
        (_, refl, logs_agree dir log_call since level route log_path is_log),
        (_, refl, commits_agree dir commit_call since limit deploy_path is_commit),
        (_, refl, metrics_agree dir metric_call name since metrics_path is_metric),
      )
