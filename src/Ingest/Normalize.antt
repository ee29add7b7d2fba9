-- ===== src/Ingest/Normalize.antt =====
-- ingest/normalize.py: fields of real-world rows become the fields of the canonical schema.
pub mod Ids
pub mod Canonical
use Prim.Native.Nat.{◌/◌}
use Prim.Native.String.{◌++◌ as join}
use quellgeist.Base.{
  ℕ, ◌+◌, ◌-◌, ◌*◌, ◌^◌, String, ◌≡◌, Bool, true, false, not, ◌&&◌, ◌||◌, ◌==◌, string_eq, Option,
  none, some, List, [], ◌∷◌, map, ℤ, pos, negsuc, leb, if◌then◌else◌, strip, drop_z, is_blank, eqz,
  lez,
}
use quellgeist.Effects.{Exn, Result, ok, raise, type_error, value_error, attribute_error, ◌>>=◌}
use quellgeist.Signals.{
  Number, finite, infinite, not_a_number, Value, null, bool, int, float, str, list, dict, Row,
  empty, field, get, put, to_list, of_list, nil, Float,
}
use quellgeist.Servers.Filters.Timestamp.{is_canonical_ts}
use quellgeist.Ingest.Runtime.{Runtime}

-- The rows of `_LOG_ALIASES`.
abbrev ts_aliases : List String
ts_aliases = "ts" ∷ "timestamp" ∷ "time" ∷ "@timestamp" ∷ "datetime" ∷ "date" ∷ "eventtime" ∷ []

abbrev level_aliases : List String
level_aliases = "level" ∷ "severity" ∷ "levelname" ∷ "lvl" ∷ "log_level" ∷ "loglevel" ∷ []

abbrev route_aliases : List String
route_aliases = "route" ∷ "path" ∷ "url" ∷ "uri" ∷ "endpoint" ∷ "request_path" ∷ "target" ∷ []

abbrev status_aliases : List String
status_aliases = "status" ∷ "status_code" ∷ "statuscode" ∷ "http_status" ∷ "code" ∷ []

abbrev msg_aliases : List String
msg_aliases = "msg" ∷ "message" ∷ "log" ∷ "event" ∷ "text" ∷ "body" ∷ "detail" ∷ "error" ∷ []

-- The rows of `_COMMIT_ALIASES`.
abbrev sha_aliases : List String
sha_aliases = "sha" ∷ "commit" ∷ "commit_sha" ∷ "hash" ∷ "id" ∷ "revision" ∷ []

abbrev commit_ts_aliases : List String
commit_ts_aliases = "ts" ∷ "timestamp" ∷ "date" ∷ "committed_date" ∷ "authoreddate" ∷ "time" ∷ []

abbrev commit_msg_aliases : List String
commit_msg_aliases = "msg" ∷ "message" ∷ "subject" ∷ "title" ∷ "summary" ∷ []

abbrev files_aliases : List String
files_aliases = "files" ∷ "changed_files" ∷ "modified" ∷ "paths" ∷ "changes" ∷ []

-- `_LEVEL_SYNONYMS.get(name)`.
unfoldable pub level_synonym : String → Option String
level_synonym name =
    if name == "err"
      || (name == "error"
          || (name == "fatal"
              || (name == "crit" || (name == "critical" || (name == "emerg" || name == "alert")))))
    then some "ERROR"
    else if name == "warn" || name == "warning"
    then some "WARNING"
    else if name == "notice" || (name == "info" || name == "information")
    then some "INFO"
    else if name == "debug" || name == "trace"
    then some "DEBUG"
    else none

-- `try: ... except ValueError: <other>`.
unfoldable pub except_value_error : {X : Type 0} → Result X → Result X → Result X
except_value_error (ok x) other = ok x
except_value_error (raise (value_error m)) other = other
except_value_error (raise e) other = raise e

-- `abs(num) >= 1e11`.
unfoldable pub is_millis : Number → Bool
is_millis (finite f) = elim f.mantissa [
  | pos n ↦ leb (10 ^ 11 * 2 ^ f.scale) n
  | negsuc n ↦ leb (10 ^ 11 * 2 ^ f.scale) (n + 1)
]
is_millis infinite = true
is_millis not_a_number = false

-- `int(num)` for a float: what stands before the point.
unfoldable pub truncate : Float → ℤ
truncate f = elim f.mantissa [
  | pos n ↦ pos (n / 2 ^ f.scale)
  | negsuc n ↦ let q = (n + 1) / 2 ^ f.scale in if leb q 0 then pos 0 else negsuc (q - 1)
]

-- `bool(value)`.
unfoldable pub truthy : Value → Bool
truthy null = false
truthy (bool b) = b
truthy (int z) = not (eqz z (pos 0))
truthy (float f) = not (eqz f.mantissa (pos 0))
truthy (str s) = not (is_blank s)
truthy (list nil) = false
truthy (list _) = true
truthy (dict empty) = false
truthy (dict _) = true

-- `row["id"]` of a row, and the next id to assign after it: an int that is no bool is kept.
unfoldable pub row_id : ℕ → Option Value → ℤ
row_id next (some (int z)) = z
row_id next _ = pos next

unfoldable pub next_after : ℕ → Option Value → ℕ
next_after next (some (int (pos n))) = if leb next n then n + 1 else next
next_after next (some (int (negsuc _))) = next
next_after next _ = next + 1

-- The value of `sha[1]` unless it is None or the empty text.
unfoldable pub usable_name : Option Value → Option Value
usable_name none = none
usable_name (some null) = none
usable_name (some (str s)) = if is_blank s then none else some (str s)
usable_name (some v) = some v

unfoldable pub files_list : Option Value → List Value
files_list (some (str s)) = str s ∷ []
files_list (some (list vs)) = to_list vs
files_list _ = []

module _ (rt : Runtime) where
  -- `str(value)`.
  unfoldable pub text_of : Value → String
  text_of (str s) = s
  text_of v = rt.str_of v

  unfoldable pub from_epoch : Number → Result String
  from_epoch num = rt.utc_of_epoch (if is_millis num then rt.thousandth num else num)

  unfoldable pub epoch_of_text : String → Result String
  epoch_of_text s = rt.float_of_text s >>= λ num. from_epoch num

  -- `s[:-1] + "+00:00" if s.endswith(("Z", "z")) else s`.
  unfoldable pub iso_text : String → String
  iso_text s = let cut = drop_z s in if cut == s then s else join cut "+00:00"

  unfoldable pub ts_of_text : String → Result String
  ts_of_text s =
      if is_blank s
      then ok ""
      else if is_canonical_ts s
      then ok s
      else except_value_error (rt.utc_of_iso (iso_text s))
          (except_value_error (epoch_of_text s) (ok s))

  unfoldable pub normalize_ts : Value → Result String
  normalize_ts null = ok ""
  normalize_ts (int z) = rt.float_of_int z >>= λ num. from_epoch num
  normalize_ts (float f) = from_epoch (finite f)
  normalize_ts v = ts_of_text (strip (text_of v))

  unfoldable pub level_of_text : String → String
  level_of_text s =
      if is_blank s
      then "INFO"
      else elim (level_synonym (rt.lower s)) [ some level ↦ level | none ↦ rt.upper s ]

  unfoldable pub normalize_level : Option Value → String
  normalize_level none = "INFO"
  normalize_level (some null) = "INFO"
  normalize_level (some v) = level_of_text (strip (text_of v))

  -- `{k.lower(): k for k in row}.get(want)`: the last key that is `want` in lower case.
  unfoldable pub lowered_key : String → Row → Option String
  lowered_key want empty = none
  lowered_key want (field k v row) =
      let later = lowered_key want row in
      elim later [ some j ↦ some j | none ↦ if rt.lower k == want then some k else none ]

  -- The value that the first alias present names.
  unfoldable pub pick : Row → List String → Option Value
  pick row [] = none
  pick row (want ∷ keys) =
      let later = pick row keys in
      elim (lowered_key want row) [ some actual ↦ get actual row | none ↦ later ]

  -- `int(value)`, with none for a TypeError or a ValueError.
  unfoldable pub coerce_status : Value → Option ℤ
  coerce_status (int z) = some z
  coerce_status (bool true) = some (pos 1)
  coerce_status (bool false) = some (pos 0)
  coerce_status (float f) = some (truncate f)
  coerce_status (str s) = rt.int_of_text s
  coerce_status _ = none

  -- `normalize_ts(ts[1]) if ts else ""`.
  unfoldable pub ts_field : Option Value → Result String
  ts_field none = ok ""
  ts_field (some v) = normalize_ts v

  -- `row["route"]`, `row["status"]` and `row["msg"]`, in front of the later fields.
  unfoldable pub with_route : Option Value → Row → Row
  with_route none row = row
  with_route (some null) row = row
  with_route (some v) row = field "route" (str (text_of v)) row

  unfoldable pub with_status : Option Value → Row → Row
  with_status none row = row
  with_status (some v) row = elim (coerce_status v) [
    | some z ↦ field "status" (int z) row
    | none ↦ row
  ]

  unfoldable pub msg_text : Option Value → String
  msg_text none = ""
  msg_text (some v) = text_of v

  unfoldable pub normalize_log_row : ℕ → Row → Result Row
  normalize_log_row next raw = do
    ts ← ts_field (pick raw ts_aliases)
    ok (
        field "id" (int (row_id next (get "id" raw))) (
          field "ts" (str ts) (
            field "level" (str (normalize_level (pick raw level_aliases))) (
              with_route (pick raw route_aliases) (
                with_status (pick raw status_aliases)
                  (field "msg" (str (msg_text (pick raw msg_aliases))) empty))))))

  -- `start_id` is a natural number, as at every call.
  unfoldable pub normalize_log_rows : ℕ → List Row → Result (List Row)
  normalize_log_rows next [] = ok []
  normalize_log_rows next (raw ∷ rest) = do
    row ← normalize_log_row next raw
    rows ← normalize_log_rows (next_after next (get "id" raw)) rest
    ok (row ∷ rows)

  unfoldable pub normalize_commit : Row → Value → Result Row
  normalize_commit raw sha = do
    ts ← ts_field (pick raw commit_ts_aliases)
    ok (
        field "sha" (str (text_of sha)) (
          field "ts" (str ts) (
            field "msg" (str (msg_text (pick raw commit_msg_aliases)))
              (field "files" (list (of_list (files_list (pick raw files_aliases)))) empty))))

  unfoldable pub normalize_commits : List Row → Result (List Row)
  normalize_commits [] = ok []
  normalize_commits (raw ∷ rest) =
      let later = normalize_commits rest in
      elim (usable_name (pick raw sha_aliases)) [
        | none ↦ later
        | some sha ↦ normalize_commit raw sha >>= λ row. later >>= λ rows. ok (row ∷ rows)
      ]
