-- ===== src/Servers/Filters.antt =====
-- servers/filters.py: the read-only filters over log rows, commits and metric series.
pub mod Timestamp
pub mod Passes
pub mod Exact
pub mod Newest
use quellgeist.Base.{
  ℕ, ◌*◌, ◌^◌, String, Bool, true, false, not, ◌&&◌, ◌==◌, string_eq, Option, none, some, List, [],
  ◌∷◌, map, ℤ, pos, negsuc, lez, mulz, str_lt, upper, codes_are, if◌then◌else◌, take,
}
use quellgeist.Effects.{Result, ok, raise, type_error, value_error, ◌>>=◌, ◌>>◌}
use quellgeist.Signals.{
  Value, null, bool, int, float, str, list, dict, Row, get, put, to_list, of_list, Float,
}
use quellgeist.Servers.Filters.Timestamp.{require_canonical_ts}

-- `row.get("ts", "") < since`; a time stamp that is no text cannot be compared with one.
pub ts_before : String → Option Value → Result Bool
ts_before since none = ok (str_lt "" since)
ts_before since (some (str s)) = ok (str_lt s since)
ts_before since (some _) = raise (type_error "'<' not supported between these instances")

-- `row.get(k) == text`.
unfoldable pub value_is : Option Value → String → Bool
value_is (some (str s)) t = s == t
value_is _ t = false

-- `row.get("level") == level_norm`, with `level_norm` as code points.
unfoldable pub level_is : Option Value → Option (List ℕ) → Bool
level_is value none = true
level_is (some (str s)) (some norm) = codes_are s norm
level_is _ (some norm) = false

-- `level.upper() if level else None`.
unfoldable pub normal_level : Option String → Option (List ℕ)
normal_level none = none
normal_level (some s) = if s == "" then none else some (upper s)

unfoldable pub route_is : Option Value → Option String → Bool
route_is value none = true
route_is value (some route) = value_is value route

-- `since is not None and row.get("ts", "") < since`.
unfoldable pub too_old : Option String → Row → Result Bool
too_old none row = ok false
too_old (some since) row = ts_before since (get "ts" row)

-- Whether the loop appends the row.
unfoldable pub keeps_log : Option String → Option (List ℕ) → Option String → Row → Result Bool
keeps_log since norm route row = do
  old ← too_old since row
  ok (not old && (level_is (get "level" row) norm && route_is (get "route" row) route))

unfoldable pub select : (Row → Result Bool) → List Row → Result (List Row)
select test [] = ok []
select test (row ∷ rows) = do
  b ← test row
  rest ← select test rows
  ok (if b then row ∷ rest else rest)

unfoldable pub check_since : Option String → Result (Unit {0})
check_since none = ok tt
check_since (some since) = require_canonical_ts since

unfoldable pub filter_log_rows :
    List Row → Option String → Option String → Option String → Result (List Row)
filter_log_rows rows since level route =
    check_since since >> select (keeps_log since (normal_level level) route) rows

-- What Python orders a value by. Lists are taken to be incomparable.
pub data Ordered : Type 0 where
  text : String → Ordered
  number : Float → Ordered
  incomparable : Ordered

unfoldable pub classify : Value → Ordered
classify (str s) = text s
classify (int z) = number (record { mantissa = z; scale = 0 })
classify (bool true) = number (record { mantissa = pos 1; scale = 0 })
classify (bool false) = number (record { mantissa = pos 0; scale = 0 })
classify (float f) = number f
classify _ = incomparable

pub number_lt : Float → Float → Bool
number_lt a b = not (lez (mulz b.mantissa (2 ^ a.scale)) (mulz a.mantissa (2 ^ b.scale)))

unfoldable pub ordered_lt : Ordered → Ordered → Result Bool
ordered_lt (text s) (text t) = ok (str_lt s t)
ordered_lt (number a) (number b) = ok (number_lt a b)
ordered_lt _ _ = raise (type_error "'<' not supported between these instances")

-- `a < b` on values.
unfoldable pub value_lt : Value → Value → Result Bool
value_lt a b = ordered_lt (classify a) (classify b)

-- `c.get("ts", "")`.
unfoldable pub sort_key : Row → Value
sort_key row = elim (get "ts" row) [ some v ↦ v | none ↦ str "" ]

-- A stable sort, greatest key first.
unfoldable pub insert_row : Row → List Row → Result (List Row)
insert_row row [] = ok (row ∷ [])
insert_row row (r ∷ rs) =
    let later = insert_row row rs in
    value_lt (sort_key row) (sort_key r) >>= λ smaller.
    if smaller then (later >>= λ rest. ok (r ∷ rest)) else ok (row ∷ r ∷ rs)

unfoldable pub newest_first : List Row → Result (List Row)
newest_first [] = ok []
newest_first (row ∷ rows) = do rest ← newest_first rows; insert_row row rest

-- `limit is not None and limit < 0`.
unfoldable pub check_limit : Option ℤ → Result (Unit {0})
check_limit (some (negsuc _)) = raise (value_error "limit must be a non-negative integer")
check_limit _ = ok tt

unfoldable pub take_limit : Option ℤ → List Row → List Row
take_limit (some (pos n)) rows = take n rows
take_limit _ rows = rows

unfoldable pub is_recent : Option String → Row → Result Bool
is_recent since row = do old ← too_old since row; ok (not old)

unfoldable pub recent_commits : List Row → Option String → Option ℤ → Result (List Row)
recent_commits commits since limit = do
  check_since since
  check_limit limit
  selected ← select (is_recent since) commits
  sorted ← newest_first selected
  ok (take_limit limit sorted)

-- The points of a series, and a point as a dict.
unfoldable pub points_of : Option Value → Result (List Value)
points_of none = ok []
points_of (some (list vs)) = ok (to_list vs)
points_of (some _) = raise (type_error "points are not a list of dicts")

unfoldable pub trim_points : String → List Value → Result (List Value)
trim_points since [] = ok []
trim_points since (dict p ∷ ps) = do
  old ← ts_before since (get "ts" p)
  rest ← trim_points since ps
  ok (if old then rest else dict p ∷ rest)
trim_points since (_ ∷ ps) = raise (type_error "points are not a list of dicts")

unfoldable pub trim_series : Option String → Row → Result Row
trim_series none series = ok series
trim_series (some since) series = do
  points ← points_of (get "points" series)
  kept ← trim_points since points
  ok (put "points" (list (of_list kept)) series)

unfoldable pub filter_series : Option String → Option String → List Row → Result (List Row)
filter_series name since [] = ok []
filter_series name since (series ∷ rest) =
    let later = filter_series name since rest in
    if route_is (get "metric" series) name
    then (trim_series since series >>= λ s. later >>= λ out. ok (s ∷ out))
    else later

unfoldable pub filter_metric_rows : List Row → Option String → Option String → Result (List Row)
filter_metric_rows metrics name since = check_since since >> filter_series name since metrics
