-- ===== src/Ingest/Sources/Directory.antt =====
-- ingest/sources.py: what becomes of the files of a directory.
use Prim.Native.Nat.{zero, suc}
use mathlib.Core.List.{Perm}
use mathlib.Core.List.Perm
use quellgeist.Base.{
  ◌++◌, ℕ, String, ◌≡◌, refl, sym, ap, subst, ◌∙◌, true, false, Option, some, List, [], ◌∷◌, map,
  length, pos, arith, Bool-cases, inl, inr, str_lt, order_by, eq_iff, insert_by, str_lt_irrefl,
  str_lt_trans,
}
use quellgeist.Effects.{ok, >>=-eq-ok, ok-injective}
use quellgeist.Signals.{empty, field, Value, int, Row, get, put}
use quellgeist.Servers.Filters.Exact.{get-put, get-put_ne, cons_eq}
use quellgeist.Ingest.Runtime.{Runtime}
use quellgeist.Ingest.Normalize.{normalize_log_rows}
use quellgeist.Ingest.Sources.{
  without, read_raw_log_file, directory, ReadResult, read_files, read_log_source, renumber, ts_text,
}

-- The numbers from `i` on, as many as asked for, as ids.
abbrev pub ids_from : ℕ → ℕ → List (Option Value)
ids_from i zero = []
ids_from i (suc n) = some (int (pos i)) ∷ ids_from (suc i) n

-- No text comes after the one that follows it.
abbrev Leads : String → List String → Type 0
Leads s [] = Unit
Leads s (t ∷ rest) = str_lt t s ≡ false

abbrev pub IsAscending : List String → Type 0
IsAscending [] = Unit
IsAscending (s ∷ rest) = Leads s rest × IsAscending rest

ids-renumber :
    (i : ℕ) (rows : List Row) → map (get "id") (renumber i rows) ≡ ids_from i (length rows)
unfolding renumber
ids-renumber i [] = refl
ids-renumber i (row ∷ rows) = rw (get-put "id" (int (pos i)) row, ids-renumber (suc i) rows) refl

ts_text-put : (v : Value) (row : Row) → ts_text (put "id" v row) ≡ ts_text row
unfolding ts_text
ts_text-put v row = rw (ts_text, get-put_ne "ts" "id" v row (ground (arith, eq_iff "id" "ts"))) refl

times-renumber : (i : ℕ) (rows : List Row) → map ts_text (renumber i rows) ≡ map ts_text rows
unfolding renumber
times-renumber i [] = refl
times-renumber i (row ∷ rows) =
    cons_eq (ts_text-put (int (pos i)) row) (times-renumber (suc i) rows)

length-renumber : (i : ℕ) (rows : List Row) → length (renumber i rows) ≡ length rows
unfolding renumber
length-renumber i [] = refl
length-renumber i (row ∷ rows) = ap suc (length-renumber (suc i) rows)

str_lt_asym : (s t : String) → str_lt s t ≡ true → str_lt t s ≡ false
str_lt_asym s t h = elim (Bool-cases (str_lt t s)) [
  | inl k ↦ cc (str_lt_trans s t s h k, str_lt_irrefl s)
  | inr k ↦ k
]

-- `order_by` sorts, and loses and makes up nothing.
module _ {A : Type 0} (sort_on : A → String) where
  Leads-insert_by :
      (s : String) (x : A) (xs : List A)
      → str_lt (sort_on x) s ≡ false
      → Leads s (map sort_on xs)
      → Leads s (map sort_on (insert_by sort_on x xs))
  unfolding insert_by
  Leads-insert_by s x [] h k = h
  Leads-insert_by s x (y ∷ ys) h k = elim (Bool-cases (str_lt (sort_on y) (sort_on x))) [
    | inl e ↦ rw e k
    | inr e ↦ rw e h
  ]

  insert_by-IsAscending :
      (x : A) (xs : List A)
      → IsAscending (map sort_on xs)
      → IsAscending (map sort_on (insert_by sort_on x xs))
  unfolding insert_by
  insert_by-IsAscending x [] h = (tt, tt)
  insert_by-IsAscending x (y ∷ ys) h = elim (Bool-cases (str_lt (sort_on y) (sort_on x))) [
    | inl e ↦ rw e (
      Leads-insert_by (sort_on y) x ys (str_lt_asym (sort_on y) (sort_on x) e) h.0,
      insert_by-IsAscending x ys h.1,
    )
    | inr e ↦ rw e (e, h)
  ]

  order_by-IsAscending : (xs : List A) → IsAscending (map sort_on (order_by sort_on xs))
  unfolding order_by
  order_by-IsAscending [] = tt
  order_by-IsAscending (x ∷ xs) =
      insert_by-IsAscending x (order_by sort_on xs) (order_by-IsAscending xs)

  Perm-insert_by : (x : A) (xs : List A) → Perm (insert_by sort_on x xs) (x ∷ xs)
  unfolding insert_by
  Perm-insert_by x [] = Perm.refl (x ∷ [])
  Perm-insert_by x (y ∷ ys) = elim (Bool-cases (str_lt (sort_on y) (sort_on x))) [
    | inl e ↦ rw e (Perm.trans (Perm.cons y (Perm-insert_by x ys)) (Perm.swap x y ys))
    | inr e ↦ rw e (Perm.refl (x ∷ y ∷ ys))
  ]

  Perm-order_by : (xs : List A) → Perm (order_by sort_on xs) xs
  unfolding order_by
  Perm-order_by [] = Perm.nil
  Perm-order_by (x ∷ xs) =
      Perm.trans (Perm-insert_by x (order_by sort_on xs)) (Perm.cons x (Perm-order_by xs))

without-put : (k : String) (v : Value) (row : Row) → without k (put k v row) ≡ without k row
unfolding without put
without-put k v empty = ground (arith, eq_iff k k)
without-put k v (field j w row) = ground (arith, without-put k v row, eq_iff k k, eq_iff j k)

without-renumber :
    (i : ℕ) (rows : List Row) → map (without "id") (renumber i rows) ≡ map (without "id") rows
unfolding renumber
without-renumber i [] = refl
without-renumber i (row ∷ rows) =
    cons_eq (without-put "id" (int (pos i)) row) (without-renumber (suc i) rows)

-- The raw rows of all the files, one file after the other, without their ids.
abbrev rows_of_files : Runtime → List (String × String) → List Row
rows_of_files rt [] = []
rows_of_files rt (entry ∷ entries) =
    map (without "id") (read_raw_log_file rt entry.1).raw ++ rows_of_files rt entries

raw-read_files :
    (rt : Runtime) (entries : List (String × String))
    → (read_files rt entries).raw ≡ rows_of_files rt entries
unfolding read_files
raw-read_files rt [] = refl
raw-read_files rt (entry ∷ entries) =
    ap (λ l. map (without "id") (read_raw_log_file rt entry.1).raw ++ l) (raw-read_files rt entries)

-- The result shows what the files hold: with the files in the order of their names, the rows of all of
-- them are normalised as one log, and the result has exactly these rows, apart from their ids.
abbrev pub ShowsFiles : Runtime → List (String × String) → List Row → Type 0
ShowsFiles rt entries shown =
    (files : List (String × String)) × (rows : List Row) × Perm files entries
    × IsAscending (map (λ entry. entry.0) files)
    × (normalize_log_rows rt 0 (rows_of_files rt files) ≡ ok rows)
    × Perm (map (without "id") shown) (map (without "id") rows)

-- A directory of logs that can be read is one stream: the rows of all its files, these taken by name,
-- normalised as one log and put into the order of time, with the ids 0, 1, 2 and so on without gap or
-- repetition in place of those they had.
pub read_log_source_directory :
    (rt : Runtime) (entries : List (String × String)) (result : ReadResult)
    → read_log_source rt (directory entries) ≡ ok result
    → ShowsFiles rt entries result.rows
      × (map (get "id") result.rows ≡ ids_from 0 (length result.rows))
      × IsAscending (map ts_text result.rows)
      × (result.files ≡ length entries)
unfolding read_log_source
read_log_source_directory rt entries result e =
    let files = order_by (λ entry. entry.0) entries in
    let r = >>=-eq-ok (normalize_log_rows rt 0 (read_files rt files).raw) _ e in
    let rows = order_by ts_text r.0 in
    subst
      (λ x.
        ShowsFiles rt entries x.rows
        × (map (get "id") x.rows ≡ ids_from 0 (length x.rows))
        × IsAscending (map ts_text x.rows)
        × (x.files ≡ length entries))
      (ok-injective r.2)
      (
        (
          files,
          r.0,
          Perm-order_by (λ entry. entry.0) entries,
          order_by-IsAscending (λ entry. entry.0) entries,
          ap (normalize_log_rows rt 0) (sym (raw-read_files rt files)) ∙ r.1,
          subst (λ l. Perm l (map (without "id") r.0)) (sym (without-renumber 0 rows))
              (Perm.map (without "id") (Perm-order_by ts_text r.0)),
        ),
        ids-renumber 0 rows ∙ ap (ids_from 0) (sym (length-renumber 0 rows)),
        subst IsAscending (sym (times-renumber 0 rows)) (order_by-IsAscending ts_text r.0),
        refl,
      )
