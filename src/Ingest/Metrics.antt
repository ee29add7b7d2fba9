-- ===== src/Ingest/Metrics.antt =====
-- ingest/normalize.py: `normalize_metric_series`.
use quellgeist.Base.{String, Option, none, some, List, [], ◌∷◌, if◌then◌else◌}
use quellgeist.Effects.{Result, ok, raise, type_error, attribute_error, ◌>>=◌}
use quellgeist.Signals.{Value, null, str, list, dict, Row, empty, field, get, to_list, of_list}
use quellgeist.Ingest.Runtime.{Runtime}
use quellgeist.Ingest.Normalize.{truthy, text_of, normalize_ts, usable_name}

-- `series.get("points", []) or []`, iterated; the keys of a dict and the characters of a text are no
-- dicts, so the loop skips them all.
unfoldable points_to_read : Option Value → Result (List Value)
points_to_read none = ok []
points_to_read (some (list vs)) = ok (to_list vs)
points_to_read (some (dict _)) = ok []
points_to_read (some (str _)) = ok []
points_to_read (some v) = if truthy v then raise (type_error "object is not iterable") else ok []

-- `d.get(key, default)`.
unfoldable pub get_or : String → Value → Row → Value
get_or k default row = elim (get k row) [ some v ↦ v | none ↦ default ]

-- `series.get(...)` on a value that may be no dict.
unfoldable pub as_dict : Value → Result Row
as_dict (dict row) = ok row
as_dict v = raise (attribute_error "object has no attribute 'get'")

module _ (rt : Runtime) where
  unfoldable normalize_points : List Value → Result (List Value)
  normalize_points [] = ok []
  normalize_points (dict p ∷ ps) = do
    ts ← normalize_ts rt (get_or "ts" (str "") p)
    rest ← normalize_points ps
    ok (dict (field "ts" (str ts) (field "value" (get_or "value" null p) empty)) ∷ rest)
  normalize_points (_ ∷ ps) = normalize_points ps

  unfoldable normalize_series : Row → Value → Result Row
  normalize_series series name = do
    raw ← points_to_read (get "points" series)
    points ← normalize_points raw
    ok (
        field "metric" (str (text_of rt name)) (
          field "unit" (str (text_of rt (get_or "unit" (str "") series)))
            (field "points" (list (of_list points)) empty)))

  unfoldable normalize_metric_series : List Value → Result (List Row)
  normalize_metric_series [] = ok []
  normalize_metric_series (v ∷ rest) =
      let later = normalize_metric_series rest in
      as_dict v >>= λ series. elim (usable_name (get "metric" series)) [
        | none ↦ later
        | some name ↦ normalize_series series name >>= λ s. later >>= λ out. ok (s ∷ out)
      ]
