-- ===== src/Ingest/Sources/Lines.antt =====
-- ingest/sources.py: what becomes of the lines of a log file.
use Prim.Native.Nat.{suc}
use quellgeist.Base.{
  ℕ, ◌≤◌, String, ◌≡◌, refl, sym, ap, subst, ◌∙◌, Bool, true, false, not, none, some, List, [], ◌∷◌,
  map, keep, length, is_blank, strip, inl, inr, In, arith, Bool-cases, Option-cases,
}
use quellgeist.Effects.{ok, >>=-eq-ok, ok-injective}
use quellgeist.Signals.{dict}
use quellgeist.Ingest.Runtime.{Runtime}
use quellgeist.Ingest.Normalize.{normalize_log_rows}
use quellgeist.Ingest.Normalize.Ids.{length-normalize_log_rows}
use quellgeist.Ingest.Normalize.Canonical.{
  LogFields, canonical_row, LowersAscii, IsCanonicalLog, normalize_log_rows_canonical,
}
use quellgeist.Ingest.Lines.{splitlines, starts_with}
use quellgeist.Ingest.Lines.Printed.{print_lines, is_one_line, splitlines-print_lines}
use quellgeist.Ingest.Sources.{
  file, ReadResult, line_object, read_lines, whole_array, read_raw_log_file, read_log_source,
}

abbrev pub is_nonblank : String → Bool
is_nonblank line = not (is_blank (strip line))

module _ (rt : Runtime) where
  read_lines-counts :
      (lines : List String)
      → let log = read_lines rt lines in
        (length log.raw ≡ length (keep is_nonblank lines))
        × (log.skipped ≡ 0)
        × (log.coerced ≤ length log.raw)
  unfolding read_lines keep
  read_lines-counts [] = (refl, refl, omega arith)
  read_lines-counts (line ∷ lines) =
      let ih = read_lines-counts lines in
      elim (Bool-cases (is_blank (strip line))) [
        | inl e ↦ rw e ih
        | inr e ↦ elim (Option-cases (line_object rt (strip line))) [
          | inl n ↦ rw (e, n) (ap suc ih.0, ih.1, omega (arith, ih.2))
          | inr o ↦ rw (e, o.1) (ap suc ih.0, ih.1, omega (arith, ih.2))
        ]
      ]

  -- A line that holds a canonical row as a JSON object.
  abbrev pub Holds : String → LogFields → Type 0
  Holds line f =
      (is_one_line line ≡ true)
      × (strip line ≡ line)
      × (starts_with b'{' line ≡ true)
      × (rt.loads line ≡ some (dict (canonical_row f)))

  line_object-Holds :
      (line : String) (f : LogFields) → Holds line f → line_object rt line ≡ some (canonical_row f)
  unfolding line_object
  line_object-Holds line f h = rw (h.2, h.3) refl

  starts_with-nonblank : (mark : ℕ) (s : String) → starts_with mark s ≡ true → is_blank s ≡ false
  unfolding starts_with
  starts_with-nonblank mark String.[] h = absurd (cc)
  starts_with-nonblank mark (String.◌∷◌ c s) h = refl

  -- Each line of a list holds the canonical row beside it.
  abbrev HoldEach : List String → List LogFields → Type 0
  HoldEach [] [] = Unit
  HoldEach (line ∷ lines) (f ∷ fs) = Holds line f × HoldEach lines fs
  HoldEach _ _ = ⊥

  read_lines-canonical :
      (lines : List String) (fs : List LogFields)
      → HoldEach lines fs
      → read_lines rt lines ≡ record { raw = map canonical_row fs; skipped = 0; coerced = 0 }
  unfolding read_lines
  read_lines-canonical [] [] h = refl
  read_lines-canonical (line ∷ lines) [] h = absurd h
  read_lines-canonical [] (f ∷ fs) h = absurd h
  read_lines-canonical (line ∷ lines) (f ∷ fs) h =
      let here : Holds line f = h.0 in
      rw
        (
          here.1,
          starts_with-nonblank b'{' line here.2,
          line_object-Holds line f here,
          read_lines-canonical lines fs h.1,
        )
        refl

  one_line-each :
      (lines : List String) (fs : List LogFields)
      → HoldEach lines fs
      → (line : String) → In line lines
      → is_one_line line ≡ true
  one_line-each [] fs h line k = absurd k
  one_line-each (l ∷ ls) [] h line k = absurd h
  one_line-each (l ∷ ls) (f ∷ fs) h line k = elim k [
    | inl e ↦ rw e h.0.0
    | inr m ↦ one_line-each ls fs h.1 line m
  ]

  read_raw_log_file-lines :
      (text : String)
      → whole_array rt text ≡ none
      → read_raw_log_file rt text ≡ read_lines rt (splitlines text)
  unfolding read_raw_log_file
  read_raw_log_file-lines text h = rw (read_raw_log_file, h) refl

  -- A file whose lines hold canonical rows, one JSON object each, is read as those very rows, and no
  -- line is skipped or coerced.
  pub read_log_source_canonical :
      (lines : List String) (fs : List LogFields)
      → LowersAscii rt
      → HoldEach lines fs
      → ((f : LogFields) → In f fs → IsCanonicalLog f)
      → starts_with b'[' (strip (print_lines lines)) ≡ false
      → read_log_source rt (file (print_lines lines))
        ≡ ok (record { rows = map canonical_row fs; skipped = 0; coerced = 0; files = 1 })
  unfolding read_log_source whole_array
  read_log_source_canonical lines fs lowers h c b =
      rw
        (
          read_raw_log_file-lines (print_lines lines) (rw b refl)
              ∙ ap (read_lines rt) (splitlines-print_lines lines (one_line-each lines fs h))
              ∙ read_lines-canonical lines fs h,
          normalize_log_rows_canonical rt lowers 0 fs c,
        )
        refl

  -- A log file that is no JSON array yields one row for each line that is not blank, whatever the
  -- lines hold: none is skipped, and at most as many are coerced as there are rows.
  pub read_log_source_each_line :
      (text : String) (result : ReadResult)
      → whole_array rt text ≡ none
      → read_log_source rt (file text) ≡ ok result
      → (length result.rows ≡ length (keep is_nonblank (splitlines text)))
        × (result.skipped ≡ 0)
        × (result.coerced ≤ length result.rows)
  unfolding read_log_source
  read_log_source_each_line text result none_array e =
      let log = read_lines rt (splitlines text) in
      let n = read_lines-counts (splitlines text) in
      let r =
        >>=-eq-ok (normalize_log_rows rt 0 log.raw) _
          (rw (read_raw_log_file-lines text none_array) at e) in
      let same = length-normalize_log_rows rt 0 log.raw r.0 r.1 in
      subst
        (λ x.
          (length x.rows ≡ length (keep is_nonblank (splitlines text)))
          × (x.skipped ≡ 0)
          × (x.coerced ≤ length x.rows))
        (ok-injective r.2) (same ∙ n.0, n.1, subst (λ k. log.coerced ≤ k) (sym same) n.2)
