-- ===== src/Tests/Ingest.antt =====
-- Tests of the ingest package's theorems.
use quellgeist.Base.{
  ℕ, String, ◌≡◌, ◌≤◌, refl, true, false, Option, none, some, List, [], ◌∷◌, ◌++◌, map, keep,
  length, pos, inl, inr, In,
}
use quellgeist.Effects.{ok}
use quellgeist.Signals.{Value, int, str, Row, empty, field, get}
use quellgeist.Ingest.Normalize.Ids.{IdBelow, IsNormal, EachNormal, normalize_log_rows_fresh}
use quellgeist.Ingest.Normalize.Canonical.{LogFields, canonical_row, IsCanonicalLog}
use quellgeist.Ingest.Lines.{splitlines}
use quellgeist.Ingest.Lines.Printed.{print_lines}
use quellgeist.Ingest.Sources.{ReadResult, file, directory, read_log_source, ts_text}
use quellgeist.Ingest.Sources.Lines.{
  is_nonblank, read_log_source_canonical, read_log_source_each_line,
}
use quellgeist.Ingest.Sources.Directory.{
  ShowsFiles, ids_from, IsAscending, read_log_source_directory,
}
use quellgeist.Ingest.Deploys.{GitCommit, commit_row, from_git_log_text}
use quellgeist.Ingest.Deploys.RoundTrip.{print_log, IsPrintable, from_git_log_text-print_log}
use quellgeist.Tests.Samples.{python, plain_fields, bare_fields}

both_canonical : (f : LogFields) → In f (plain_fields ∷ bare_fields ∷ []) → IsCanonicalLog f
unfolding quellgeist.Base.strip quellgeist.Servers.Filters.Timestamp.is_canonical_ts
both_canonical f h = elim h [
  | inl e ↦ rw e (refl, inr refl, inl refl)
  | inr k ↦ elim k [ inl e ↦ rw e (refl, inl refl, inr (inr (inl refl))) | inr n ↦ absurd n ]
]

read_log_source_canonical_example :
    read_log_source python (file (print_lines ("{a}" ∷ "{b}" ∷ [])))
    ≡ ok (record {
      rows = map canonical_row (plain_fields ∷ bare_fields ∷ []);
      skipped = 0;
      coerced = 0;
      files = 1;
    })
unfolding quellgeist.Ingest.Lines.Printed.is_one_line quellgeist.Base.strip
    quellgeist.Ingest.Lines.starts_with print_lines
read_log_source_canonical_example =
    read_log_source_canonical python ("{a}" ∷ "{b}" ∷ []) (plain_fields ∷ bare_fields ∷ [])
      (refl, refl, refl, refl, refl, refl, refl, refl, refl, refl)
      ((refl, refl, refl, refl), ((refl, refl, refl, refl), tt)) both_canonical refl

abbrev text_result : ReadResult
text_result = record {
  rows =
      canonical_row plain_fields
      ∷ field "id" (int (pos 5))
          (field "ts" (str "") (field "level" (str "INFO") (field "msg" (str "went down") empty)))
      ∷ [];
  skipped = 0;
  coerced = 1;
  files = 1;
}

read_log_source_each_line_example :
    (length text_result.rows ≡ length (keep is_nonblank (splitlines "{a}\n\nwent down")))
    × (text_result.skipped ≡ 0)
    × (text_result.coerced ≤ length text_result.rows)
unfolding quellgeist.Ingest.Sources.whole_array quellgeist.Ingest.Lines.starts_with
    quellgeist.Base.strip read_log_source quellgeist.Ingest.Normalize.normalize_log_rows
    quellgeist.Ingest.Sources.read_raw_log_file quellgeist.Ingest.Sources.read_lines splitlines
    quellgeist.Ingest.Lines.is_break quellgeist.Ingest.Sources.line_object
    quellgeist.Ingest.Normalize.normalize_log_row quellgeist.Ingest.Normalize.ts_field
    quellgeist.Ingest.Normalize.pick quellgeist.Ingest.Normalize.lowered_key get
    quellgeist.Ingest.Normalize.normalize_ts quellgeist.Ingest.Normalize.ts_of_text
    quellgeist.Base.all quellgeist.Base.drop_z quellgeist.Base.insert_by quellgeist.Base.order_by
    quellgeist.Base.str_lt quellgeist.Ingest.Normalize.coerce_status
    quellgeist.Ingest.Normalize.epoch_of_text quellgeist.Ingest.Normalize.except_value_error
    quellgeist.Ingest.Normalize.from_epoch quellgeist.Ingest.Normalize.is_millis
    quellgeist.Ingest.Normalize.iso_text quellgeist.Ingest.Normalize.level_of_text
    quellgeist.Ingest.Normalize.level_synonym quellgeist.Ingest.Normalize.msg_text
    quellgeist.Ingest.Normalize.next_after quellgeist.Ingest.Normalize.normalize_level
    quellgeist.Ingest.Normalize.row_id quellgeist.Ingest.Normalize.text_of
    quellgeist.Ingest.Normalize.truncate quellgeist.Ingest.Normalize.with_route
    quellgeist.Ingest.Normalize.with_status quellgeist.Ingest.Sources.coerce_text_line
    quellgeist.Ingest.Sources.objects quellgeist.Ingest.Sources.read_files
    quellgeist.Ingest.Sources.renumber ts_text quellgeist.Ingest.Sources.with_group
    quellgeist.Ingest.Sources.without quellgeist.Servers.Filters.Timestamp.is_canonical_ts
    quellgeist.Signals.put quellgeist.Signals.to_list
read_log_source_each_line_example =
    read_log_source_each_line python "{a}\n\nwent down" text_result refl refl

abbrev directory_result : ReadResult
directory_result = record {
  rows =
      field "id" (int (pos 0))
        (field "ts" (str "") (field "level" (str "INFO") (field "msg" (str "started") empty)))
      ∷ field "id" (int (pos 1)) (
          field "ts" (str "2024-05-01T10:00:00Z") (
            field "level" (str "ERROR") (
              field "route" (str "/pay")
                (field "status" (int (pos 500)) (field "msg" (str "boom") empty)))))
      ∷ [];
  skipped = 0;
  coerced = 0;
  files = 2;
}

abbrev directory_files : List (String × String)
directory_files = ("b.log", "{a}") ∷ ("a.log", "{b}") ∷ []

read_log_source_directory_example :
    ShowsFiles python directory_files directory_result.rows
    × (map (get "id") directory_result.rows ≡ ids_from 0 (length directory_result.rows))
    × IsAscending (map ts_text directory_result.rows)
    × (directory_result.files ≡ length directory_files)
unfolding read_log_source quellgeist.Ingest.Normalize.normalize_log_rows
    quellgeist.Ingest.Sources.read_files quellgeist.Base.order_by quellgeist.Base.str_lt
    quellgeist.Ingest.Sources.read_raw_log_file quellgeist.Ingest.Sources.whole_array
    quellgeist.Ingest.Lines.starts_with quellgeist.Base.strip quellgeist.Ingest.Sources.read_lines
    splitlines quellgeist.Ingest.Lines.is_break quellgeist.Ingest.Sources.line_object
    quellgeist.Ingest.Normalize.normalize_log_row quellgeist.Ingest.Normalize.ts_field
    quellgeist.Ingest.Normalize.pick quellgeist.Ingest.Normalize.lowered_key quellgeist.Base.all
    quellgeist.Base.drop_z quellgeist.Base.insert_by quellgeist.Ingest.Normalize.coerce_status
    quellgeist.Ingest.Normalize.epoch_of_text quellgeist.Ingest.Normalize.except_value_error
    quellgeist.Ingest.Normalize.from_epoch quellgeist.Ingest.Normalize.is_millis
    quellgeist.Ingest.Normalize.iso_text quellgeist.Ingest.Normalize.level_of_text
    quellgeist.Ingest.Normalize.level_synonym quellgeist.Ingest.Normalize.msg_text
    quellgeist.Ingest.Normalize.next_after quellgeist.Ingest.Normalize.normalize_level
    quellgeist.Ingest.Normalize.normalize_ts quellgeist.Ingest.Normalize.row_id
    quellgeist.Ingest.Normalize.text_of quellgeist.Ingest.Normalize.truncate
    quellgeist.Ingest.Normalize.ts_of_text quellgeist.Ingest.Normalize.with_route
    quellgeist.Ingest.Normalize.with_status quellgeist.Ingest.Sources.coerce_text_line
    quellgeist.Ingest.Sources.objects quellgeist.Ingest.Sources.renumber ts_text
    quellgeist.Ingest.Sources.with_group quellgeist.Ingest.Sources.without
    quellgeist.Servers.Filters.Timestamp.is_canonical_ts get quellgeist.Signals.put
    quellgeist.Signals.to_list
read_log_source_directory_example =
    read_log_source_directory python directory_files directory_result refl

abbrev plain_row : Row
plain_row = field "msg" (str "went down") empty

abbrev fresh_rows : List Row
fresh_rows =
    canonical_row plain_fields
    ∷ field "id" (int (pos 5))
        (field "ts" (str "") (field "level" (str "INFO") (field "msg" (str "went down") empty)))
    ∷ []

normalize_log_rows_fresh_example :
    (rows : List Row) × (row : Row) × (rest : List Row) × (n : ℕ) × (fresh_rows
      ≡ rows ++ row ∷ rest)
    × EachNormal python (canonical_row plain_fields ∷ []) rows
    × IsNormal python plain_row row
    × EachNormal python [] rest
    × (get "id" row ≡ some (int (pos n)))
    × (0 ≤ n)
    × ((other : Row) → In other rows → IdBelow n other)
unfolding quellgeist.Ingest.Normalize.normalize_log_rows
    quellgeist.Ingest.Normalize.normalize_log_row quellgeist.Ingest.Normalize.ts_field
    quellgeist.Ingest.Normalize.pick quellgeist.Ingest.Normalize.lowered_key get
    quellgeist.Ingest.Normalize.normalize_ts quellgeist.Ingest.Normalize.ts_of_text
    quellgeist.Base.strip quellgeist.Ingest.Normalize.text_of
    quellgeist.Servers.Filters.Timestamp.is_canonical_ts quellgeist.Ingest.Normalize.row_id
    quellgeist.Ingest.Normalize.normalize_level quellgeist.Ingest.Normalize.with_route
    quellgeist.Ingest.Normalize.level_of_text quellgeist.Ingest.Normalize.with_status
    quellgeist.Ingest.Normalize.next_after quellgeist.Ingest.Normalize.level_synonym
    quellgeist.Ingest.Normalize.coerce_status quellgeist.Ingest.Normalize.msg_text
normalize_log_rows_fresh_example =
    normalize_log_rows_fresh python 0 (canonical_row plain_fields ∷ []) plain_row [] fresh_rows refl
      (λ z e. absurd (cc e))

abbrev commits : List GitCommit
commits =
    record { sha = "abc"; ts = "2024"; msg = "fix it"; files = "a.py" ∷ "b.py" ∷ [] }
    ∷ record { sha = "def"; ts = "2023"; msg = ""; files = [] }
    ∷ []

printable : (c : GitCommit) → In c commits → IsPrintable c
unfolding quellgeist.Ingest.Lines.Printed.is_one_line quellgeist.Ingest.Lines.has_code
    quellgeist.Base.strip
printable c h = elim h [
  | inl e ↦ rw e (
    (refl, refl, refl),
    (refl, refl, refl),
    (refl, refl, refl),
    λ name k. elim k [
      | inl f ↦ rw f ((refl, refl, refl), refl)
      | inr m ↦ elim m [ inl f ↦ rw f ((refl, refl, refl), refl) | inr n ↦ absurd n ]
    ],
  )
  | inr k ↦ elim k [
    | inl e ↦ rw e ((refl, refl, refl), (refl, refl, refl), (refl, refl, refl), λ name m. absurd m)
    | inr n ↦ absurd n
  ]
]

from_git_log_text-print_log_example : from_git_log_text (print_log commits) ≡ map commit_row commits
from_git_log_text-print_log_example = from_git_log_text-print_log commits printable
