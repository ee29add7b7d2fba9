-- ===== src/Ingest/Sources.antt =====
-- ingest/sources.py: a log file, or a directory of log files, becomes canonical rows.
pub mod Lines
pub mod Directory
use quellgeist.Base.{
  ℕ, zero, suc, ◌+◌, String, Bool, true, false, ◌==◌, string_eq, Option, none, some, List, [], ◌∷◌,
  ◌++◌, map, ℤ, pos, is_blank, if◌then◌else◌, strip, order_by, length,
}
use quellgeist.Effects.{Result, ok, raise, ◌>>=◌}
use quellgeist.Signals.{Value, int, str, list, dict, Row, empty, field, get, put, to_list}
use quellgeist.Ingest.Runtime.{Runtime}
use quellgeist.Ingest.Normalize.{normalize_log_rows}
use quellgeist.Ingest.Lines.{splitlines, starts_with}

-- What a path names: nothing, a file with its text, or a directory with its files by name.
pub data Source : Type 0 where
  missing : Source
  file : String → Source
  directory : List (String × String) → Source

-- `ReadResult`.
pub record ReadResult : Type 0 where
  pub rows : List Row
  pub skipped : ℕ
  pub coerced : ℕ
  pub files : ℕ

-- The raw rows of a file, with how many entries were skipped and how many lines were coerced.
pub record RawLog : Type 0 where
  pub raw : List Row
  pub skipped : ℕ
  pub coerced : ℕ

abbrev leading_ts : String
leading_ts = "^\\[?(\\d{4}-\\d{2}-\\d{2}[ T]\\d{2}:\\d{2}:\\d{2}[^\\s\\]]*)\\]?"

abbrev level_token : String
level_token = "(?i)\\b(CRITICAL|FATAL|ERROR|ERR|WARNING|WARN|NOTICE|INFO|DEBUG|TRACE)\\b"

-- `raw[key] = text` when there was a match.
unfoldable pub with_group : String → Option String → Row → Row
with_group key none row = row
with_group key (some text) row = put key (str text) row

-- The objects of a JSON array, and how many of its items are none.
unfoldable pub objects : List Value → RawLog
objects [] = record { raw = []; skipped = 0; coerced = 0 }
objects (dict row ∷ items) =
    let rest = objects items in record { raw = row ∷ rest.raw; skipped = rest.skipped; coerced = 0 }
objects (_ ∷ items) =
    let rest = objects items in record { raw = rest.raw; skipped = rest.skipped + 1; coerced = 0 }

-- `row.pop("id", None)`.
unfoldable pub without : String → Row → Row
without k empty = empty
without k (field j v row) = let rest = without k row in if j == k then rest else field j v rest

-- `r.get("ts", "")` of a normalised row, where it is a text.
unfoldable pub ts_text : Row → String
ts_text row = elim (get "ts" row) [ some (str s) ↦ s | _ ↦ "" ]

-- `for i, r in enumerate(rows): r["id"] = i`.
unfoldable pub renumber : ℕ → List Row → List Row
renumber i [] = []
renumber i (row ∷ rows) = put "id" (int (pos i)) row ∷ renumber (suc i) rows

module _ (rt : Runtime) where
  unfoldable pub coerce_text_line : String → Row
  coerce_text_line line =
      with_group "level" (rt.group_within level_token line)
        (with_group "ts" (rt.group_at_start leading_ts line) (field "msg" (str line) empty))

  -- The object that a line holds, if it is one.
  unfoldable pub line_object : String → Option Row
  line_object line =
      if starts_with b'{' line
      then elim (rt.loads line) [ some (dict row) ↦ some row | _ ↦ none ]
      else none

  unfoldable pub read_lines : List String → RawLog
  read_lines [] = record { raw = []; skipped = 0; coerced = 0 }
  read_lines (line ∷ lines) =
      let rest = read_lines lines in
      let text = strip line in
      if is_blank text then rest else elim (line_object text) [
        | some row ↦ record { raw = row ∷ rest.raw; skipped = rest.skipped; coerced = rest.coerced }
        | none ↦ record {
          raw = coerce_text_line text ∷ rest.raw;
          skipped = rest.skipped;
          coerced = rest.coerced + 1;
        }
      ]

  -- The JSON array that a whole file holds; white space in front of it does not count.
  unfoldable pub whole_array : String → Option (List Value)
  whole_array text =
      if starts_with b'[' (strip text)
      then elim (rt.loads text) [ some (list items) ↦ some (to_list items) | _ ↦ none ]
      else none

  unfoldable pub read_raw_log_file : String → RawLog
  read_raw_log_file text = elim (whole_array text) [
    | some items ↦ objects items
    | none ↦ read_lines (splitlines text)
  ]

  -- The rows of the files of a directory in name order, their ids taken away.
  unfoldable pub read_files : List (String × String) → RawLog
  read_files [] = record { raw = []; skipped = 0; coerced = 0 }
  read_files (entry ∷ entries) =
      let here = read_raw_log_file entry.1 in
      let rest = read_files entries in
      record {
        raw = map (without "id") here.raw ++ rest.raw;
        skipped = here.skipped + rest.skipped;
        coerced = here.coerced + rest.coerced;
      }

  unfoldable pub read_log_source : Source → Result ReadResult
  read_log_source missing = ok (record { rows = []; skipped = 0; coerced = 0; files = 0 })
  read_log_source (file text) = do
    let log = read_raw_log_file text
    rows ← normalize_log_rows rt 0 log.raw
    ok (record { rows = rows; skipped = log.skipped; coerced = log.coerced; files = 1 })
  read_log_source (directory entries) = do
    let log = read_files (order_by (λ entry. entry.0) entries)
    rows ← normalize_log_rows rt 0 log.raw
    ok (record {
      rows = renumber 0 (order_by ts_text rows);
      skipped = log.skipped;
      coerced = log.coerced;
      files = length entries;
    })
