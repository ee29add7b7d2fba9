-- ===== src/Tests/Servers.antt =====
-- Tests of the filters' theorems.
use mathlib.Core.List.{Perm}
use quellgeist.Base.{
  Bool, ◌↔◌, ℕ, String, ◌≡◌, refl, true, false, Option, none, some, List, [], ◌∷◌, map, keep, pos,
  ◌++◌, ◌⊎◌, ◌≤◌, length,
}
use quellgeist.Effects.{ok}
use quellgeist.Signals.{Row, get, str, empty, field}
use quellgeist.Servers.Filters.{
  filter_log_rows, recent_commits, filter_metric_rows, filter_series, take_limit, route_is,
}
use quellgeist.Servers.Filters.Exact.{IsCanonical, filter_log_rows_exact}
use quellgeist.Servers.Filters.Passes.{Passes, in_window}
use quellgeist.Servers.Filters.Newest.{IsNewestFirst, recent_commits_newest}
use quellgeist.Ingest.Normalize.Canonical.{canonical_row}
use quellgeist.Servers.Tools.{
  int_env, env_path, read_metrics, all_log_rows, query_logs, query_metrics, default_max_rows,
  default_max_points, default_metrics_path,
}
use quellgeist.Servers.Tools.Bounds.{AllShort, IsCapped, query_logs_tail, query_metrics_short}
use quellgeist.Tests.Samples.{log_row, named_commit, bare_fields, log_read, python, host}

filter_log_rows_exact_example :
    (test : Row → Bool) × ((row : Row)
      → (test row ≡ true) ↔ Passes none (some "error") (some "/pay") row)
    × ((log_row ∷ []) ≡ keep test (log_row ∷ named_commit ∷ []))
    × IsCanonical none
unfolding filter_log_rows quellgeist.Servers.Filters.check_since quellgeist.Servers.Filters.select
    quellgeist.Servers.Filters.keeps_log quellgeist.Servers.Filters.too_old
    quellgeist.Servers.Filters.level_is quellgeist.Servers.Filters.normal_level route_is
    quellgeist.Servers.Filters.value_is get quellgeist.Base.upper quellgeist.Base.codes_are
filter_log_rows_exact_example =
    filter_log_rows_exact (log_row ∷ named_commit ∷ []) none (some "error") (some "/pay")
      (log_row ∷ []) refl

abbrev late_commit : Row
late_commit = field "sha" (str "fed") (field "ts" (str "4") empty)

recent_commits_newest_example :
    (sorted : List Row) × IsNewestFirst sorted
    × Perm sorted (keep (in_window none) (named_commit ∷ late_commit ∷ []))
    × ((late_commit ∷ []) ≡ take_limit (some (pos 1)) sorted)
unfolding recent_commits quellgeist.Servers.Filters.check_since
    quellgeist.Servers.Filters.check_limit quellgeist.Servers.Filters.select
    quellgeist.Servers.Filters.is_recent quellgeist.Servers.Filters.too_old
    quellgeist.Servers.Filters.newest_first quellgeist.Servers.Filters.insert_row
    quellgeist.Servers.Filters.value_lt quellgeist.Servers.Filters.ordered_lt
    quellgeist.Servers.Filters.classify quellgeist.Servers.Filters.sort_key get
    quellgeist.Base.str_lt take_limit
recent_commits_newest_example =
    recent_commits_newest (named_commit ∷ late_commit ∷ []) none (some (pos 1)) (late_commit ∷ [])
      refl

abbrev series : Row
series = field "metric" (str "errors") empty

query_logs_tail_example :
    (rows : List Row) × (test : Row → Bool) × (all_log_rows python host ≡ ok rows)
    × ((row : Row) → (test row ≡ true) ↔ Passes none none none row)
    × IsCapped
        (int_env python host "QG_MAX_ROWS" default_max_rows)
        (keep test rows)
        (canonical_row bare_fields ∷ [])
unfolding query_logs quellgeist.Servers.Tools.read_log_rows env_path filter_log_rows
    quellgeist.Servers.Filters.check_since quellgeist.Servers.Filters.select
    quellgeist.Servers.Filters.keeps_log quellgeist.Servers.Filters.too_old
    quellgeist.Servers.Filters.level_is quellgeist.Servers.Filters.normal_level route_is get
    quellgeist.Servers.Tools.cap_rows int_env quellgeist.Servers.Tools.natural_or
query_logs_tail_example =
    query_logs_tail python host none none none (canonical_row bare_fields ∷ []) (rw log_read refl)

query_metrics_short_example :
    let cap = int_env python host "QG_MAX_POINTS" default_max_points in
    (all_series : List Row) × (read_metrics python
        (host.disk (env_path host "QG_METRICS_PATH" default_metrics_path))
      ≡ ok all_series)
    × (map (get "metric") (series ∷ [])
        ≡ map (get "metric") (keep (λ s. route_is (get "metric" s) (some "errors")) all_series))
    × ((cap ≡ 0) ⊎ AllShort cap (series ∷ []))
unfolding query_metrics quellgeist.Servers.Tools.read_array env_path
    quellgeist.Servers.Tools.array_rows quellgeist.Servers.Tools.as_rows quellgeist.Signals.to_list
    quellgeist.Signals.of_list quellgeist.Ingest.Metrics.as_dict filter_metric_rows
    quellgeist.Servers.Filters.check_since filter_series route_is
    quellgeist.Servers.Filters.value_is get quellgeist.Servers.Filters.trim_series int_env
    quellgeist.Servers.Tools.cap_points quellgeist.Servers.Tools.cap_each
    quellgeist.Servers.Tools.cap_series quellgeist.Servers.Tools.cap_value
query_metrics_short_example =
    query_metrics_short python host (some "errors") none (series ∷ []) refl
