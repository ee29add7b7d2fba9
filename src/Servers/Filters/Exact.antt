-- ===== src/Servers/Filters/Exact.antt =====
-- The filters select: which rows they return, and that rows and handles pass through unchanged.
use quellgeist.Base.{
  String, ◌≡◌, sym, ap, ◌∙◌, Bool, true, false, not, ◌&&◌, Option, none, some, List, [], ◌∷◌, map,
  keep, arith, ℤ, Bool-cases, ◌↔◌, ◌≢◌, eq_iff, inl, inr, string_eq,
}
use quellgeist.Effects.{Result, ok, raise, value_error, >>=-eq-ok, ok-injective}
use quellgeist.Signals.{Value, null, bool, int, float, str, list, dict, Row, empty, field, get, put}
use quellgeist.Servers.Filters.Timestamp.{is_canonical_ts, require_canonical_ts}
use quellgeist.Servers.Filters.Passes.{stamped_since, in_window, passes, Passes, passes_iff}
use quellgeist.Servers.Filters.{
  ts_before, level_is, normal_level, route_is, too_old, keeps_log, select, check_since,
  filter_log_rows, recent_commits, points_of, trim_points, trim_series, filter_series,
  filter_metric_rows,
}

abbrev pub IsCanonical : Option String → Type 0
IsCanonical none = Unit
IsCanonical (some since) = is_canonical_ts since ≡ true

pub select-keep :
    (test : Row → Result Bool) (p : Row → Bool)
    → ((row : Row) (b : Bool) → test row ≡ ok b → b ≡ p row)
    → (rows out : List Row) → select test rows ≡ ok out
    → out ≡ keep p rows
unfolding select keep
select-keep test p same [] out e = sym (ok-injective e)
select-keep test p same (row ∷ rows) out e =
    let b = >>=-eq-ok (test row) _ e in
    let rest = >>=-eq-ok (select test rows) _ b.2 in
    let ih = select-keep test p same rows rest.0 rest.1 in
    let q = same row b.0 b.1 in ground (arith, ih, q, rest.2)

pub too_old-in_window :
    (since : Option String) (row : Row) (b : Bool)
    → too_old since row ≡ ok b
    → not b ≡ in_window since row
unfolding too_old
too_old-in_window none row b e = ground arith
too_old-in_window (some since) row b e = by_value (get "ts" row) e
  where
    by_value : (o : Option Value) → ts_before since o ≡ ok b → not b ≡ stamped_since since o
    by_value none e = unfold ts_before in ground arith
    by_value (some (str t)) e = unfold ts_before in ground arith
    by_value (some null) e = unfold ts_before in absurd (cc)
    by_value (some (bool _)) e = unfold ts_before in absurd (cc)
    by_value (some (int _)) e = unfold ts_before in absurd (cc)
    by_value (some (float _)) e = unfold ts_before in absurd (cc)
    by_value (some (list _)) e = unfold ts_before in absurd (cc)
    by_value (some (dict _)) e = unfold ts_before in absurd (cc)

check_since-ok : (since : Option String) → check_since since ≡ ok tt → IsCanonical since
unfolding check_since require_canonical_ts
check_since-ok none e = tt
check_since-ok (some since) e = ground arith

pub filter_log_rows-keep :
    (rows : List Row) (since level route : Option String) (out : List Row)
    → filter_log_rows rows since level route ≡ ok out
    → (out ≡ keep (passes since level route) rows) × IsCanonical since
unfolding filter_log_rows
filter_log_rows-keep rows since level route out e =
    let c = >>=-eq-ok (check_since since) _ e in
    (
      select-keep (keeps_log since (normal_level level) route) (passes since level route) same rows
          out c.2,
      check_since-ok since c.1,
    )
  where
    same :
        (row : Row) (b : Bool)
        → keeps_log since (normal_level level) route row ≡ ok b
        → b ≡ passes since level route row
    same row b k =
        unfold keeps_log in
        let o = >>=-eq-ok (too_old since row) _ k in
        sym (ok-injective o.2)
        ∙ ap
            (λ t.
              t
              && (level_is (get "level" row) (normal_level level)
                  && route_is (get "route" row) route))
            (too_old-in_window since row o.0 o.1)

-- A successful log query had a canonical `since`, and returns exactly the rows, unchanged and in source
-- order, whose time stamp is not before `since`, whose level is the asked one in upper case and whose
-- route is the asked one, where a filter that is not given, or an empty level, asks for nothing.
pub filter_log_rows_exact :
    (rows : List Row) (since level route : Option String) (out : List Row)
    → filter_log_rows rows since level route ≡ ok out
    → (test : Row → Bool) × ((row : Row) → (test row ≡ true) ↔ Passes since level route row)
      × (out ≡ keep test rows)
      × IsCanonical since
filter_log_rows_exact rows since level route out e =
    let k = filter_log_rows-keep rows since level route out e in
    (passes since level route, passes_iff since level route, k.0, k.1)

-- Every filter refuses a `since` that is not canonical, whatever the rows are.
filters_refuse_since :
    (rows : List Row) (since : String) (level route name : Option String) (limit : Option ℤ)
    → is_canonical_ts since ≡ false
    → let e = value_error "since must be a canonical UTC timestamp" in
      (filter_log_rows rows (some since) level route ≡ raise e)
      × (recent_commits rows (some since) limit ≡ raise e)
      × (filter_metric_rows rows name (some since) ≡ raise e)
unfolding filter_log_rows recent_commits filter_metric_rows check_since require_canonical_ts
filters_refuse_since rows since level route name limit h = (rw h, rw h, rw h)

pub get-put : (k : String) (v : Value) (row : Row) → get k (put k v row) ≡ some v
unfolding get put
get-put k v empty = ground (arith, eq_iff k k)
get-put k v (field j w row) = ground (arith, get-put k v row, eq_iff k k, eq_iff j k)

pub get-put_ne : (j k : String) (v : Value) (r : Row) → k ≢ j → get j (put k v r) ≡ get j r
unfolding get put
get-put_ne j k v empty h = ground (arith, eq_iff k j)
get-put_ne j k v (field i w r) h =
    ground (arith, get-put_ne j k v r h, eq_iff i k, eq_iff i j, eq_iff k j)

metric-trim_series :
    (since : Option String) (series s : Row)
    → trim_series since series ≡ ok s
    → get "metric" s ≡ get "metric" series
unfolding trim_series
metric-trim_series none series s e = ap (get "metric") (sym (ok-injective e))
metric-trim_series (some since) series s e =
    let p = >>=-eq-ok (points_of (get "points" series)) _ e in
    let k = >>=-eq-ok (trim_points since p.0) _ p.2 in
    ap (get "metric") (sym (ok-injective k.2))
    ∙ get-put_ne "metric" "points" _ series (ground (arith, eq_iff "points" "metric"))

pub cons_eq {ℓ} : {A : Type ℓ} {a b : A} {xs ys : List A} → a ≡ b → xs ≡ ys → a ∷ xs ≡ b ∷ ys
cons_eq p q = cc

-- The series that a metric query returns are those of the asked name, in order, each under the
-- very name that it has in the source.
pub filter_series_names :
    (name since : Option String) (rows out : List Row)
    → filter_series name since rows ≡ ok out
    → map (get "metric") out
      ≡ map (get "metric") (keep (λ row. route_is (get "metric" row) name) rows)
unfolding filter_series keep
filter_series_names name since [] out e = ap (map (get "metric")) (sym (ok-injective e))
filter_series_names name since (row ∷ rows) out e =
    elim (Bool-cases (route_is (get "metric" row) name)) [
      | inl t ↦
          let s = >>=-eq-ok (trim_series since row) _ (rw (t, filter_series) at e) in
          let r = >>=-eq-ok (filter_series name since rows) _ s.2 in
          rw t (
            ap (map (get "metric")) (sym (ok-injective r.2))
            ∙ cons_eq (metric-trim_series since row s.0 s.1)
                (filter_series_names name since rows r.0 r.1))
      | inr t ↦ rw t (filter_series_names name since rows out (rw (t, filter_series) at e))
    ]
