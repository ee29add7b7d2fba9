-- ===== src/Ingest/Normalize/Ids.antt =====
-- ingest/normalize.py: the ids of the rows of a normalised log.
use quellgeist.Base.{
  suc, ℕ, ◌≡◌, ◌≢◌, refl, sym, ap, ◌∙◌, false, Option, none, some, List, [], ◌∷◌, ◌++◌, ℤ, pos,
  negsuc, lez, inl, inr, arith, In, length, subst, ◌≤◌,
}
use quellgeist.Effects.{ok, >>=-eq-ok, ok-injective}
use quellgeist.Signals.{Value, null, bool, int, float, str, list, dict, Row, get}
use quellgeist.Ingest.Runtime.{Runtime}
use quellgeist.Ingest.Normalize.{
  pick, ts_aliases, ts_field, row_id, next_after, normalize_log_row, normalize_log_rows,
}

-- The id of a row is an int below a bound.
abbrev pub IdBelow : ℕ → Row → Type 0
IdBelow n row = (z : ℤ) × (get "id" row ≡ some (int z)) × (lez (pos n) z ≡ false)

IdBelow-weaken : (m n : ℕ) → m ≤ n → (row : Row) → IdBelow m row → IdBelow n row
unfolding lez
IdBelow-weaken m n h row (pos k, e, b) = (pos k, e, ground (arith, h, b))
IdBelow-weaken m n h row (negsuc k, e, b) = (negsuc k, e, refl)

-- The next id after some rows.
abbrev next_after_all : ℕ → List Row → ℕ
next_after_all next [] = next
next_after_all next (raw ∷ rest) = next_after_all (next_after next (get "id" raw)) rest

next_after-le : (next : ℕ) (o : Option Value) → next ≤ next_after next o
unfolding next_after
next_after-le next none = omega arith
next_after-le next (some null) = omega arith
next_after-le next (some (bool _)) = omega arith
next_after-le next (some (int (pos n))) = ground arith
next_after-le next (some (int (negsuc _))) = omega arith
next_after-le next (some (float _)) = omega arith
next_after-le next (some (str _)) = omega arith
next_after-le next (some (list _)) = omega arith
next_after-le next (some (dict _)) = omega arith

next_after_all-le : (next : ℕ) (rows : List Row) → next ≤ next_after_all next rows
next_after_all-le next [] = omega arith
next_after_all-le next (raw ∷ rest) = omega (
  arith,
  next_after-le next (get "id" raw),
  next_after_all-le (next_after next (get "id" raw)) rest,
)

row_id-below : (next : ℕ) (o : Option Value) → lez (pos (next_after next o)) (row_id next o) ≡ false
unfolding next_after row_id lez
row_id-below next none = ground arith
row_id-below next (some null) = ground arith
row_id-below next (some (bool _)) = ground arith
row_id-below next (some (int (pos n))) = ground arith
row_id-below next (some (int (negsuc _))) = ground arith
row_id-below next (some (float _)) = ground arith
row_id-below next (some (str _)) = ground arith
row_id-below next (some (list _)) = ground arith
row_id-below next (some (dict _)) = ground arith

row_id-missing :
    (next : ℕ) (o : Option Value) → ((z : ℤ) → o ≢ some (int z)) → row_id next o ≡ pos next
unfolding row_id
row_id-missing next none h = refl
row_id-missing next (some null) h = refl
row_id-missing next (some (bool _)) h = refl
row_id-missing next (some (int z)) h = absurd (h z refl)
row_id-missing next (some (float _)) h = refl
row_id-missing next (some (str _)) h = refl
row_id-missing next (some (list _)) h = refl
row_id-missing next (some (dict _)) h = refl

module _ (rt : Runtime) where
  -- The row is what the source row is normalised to under some next id, and an int id is kept.
  abbrev pub IsNormal : Row → Row → Type 0
  IsNormal raw row =
      ((next : ℕ) × (normalize_log_row rt next raw ≡ ok row))
      × ((z : ℤ) → get "id" raw ≡ some (int z) → get "id" row ≡ some (int z))

  -- The rows stand for the source rows, one for one and in order.
  abbrev pub EachNormal : List Row → List Row → Type 0
  EachNormal [] [] = Unit
  EachNormal (raw ∷ raws) (row ∷ rows) = IsNormal raw row × EachNormal raws rows
  EachNormal _ _ = ⊥

  id-normalize_log_row :
      (next : ℕ) (raw row : Row)
      → normalize_log_row rt next raw ≡ ok row
      → get "id" row ≡ some (int (row_id next (get "id" raw)))
  unfolding normalize_log_row get
  id-normalize_log_row next raw row e =
      let t = >>=-eq-ok (ts_field rt (pick rt raw ts_aliases)) _ e in
      ap (get "id") (sym (ok-injective t.2))

  normalize_log_row-IsNormal :
      (next : ℕ) (raw row : Row) → normalize_log_row rt next raw ≡ ok row → IsNormal raw row
  normalize_log_row-IsNormal next raw row e = (
    (next, e),
    λ z q.
        id-normalize_log_row next raw row e
        ∙ ap (λ o. some (int (row_id next o))) q
        ∙ unfold row_id in refl,
  )

  normalize_log_rows-EachNormal :
      (next : ℕ) (raws out : List Row)
      → normalize_log_rows rt next raws ≡ ok out
      → EachNormal raws out
  unfolding normalize_log_rows
  normalize_log_rows-EachNormal next [] out e = subst (EachNormal []) (ok-injective e) tt
  normalize_log_rows-EachNormal next (raw ∷ raws) out e =
      let after_id = next_after next (get "id" raw) in
      let r = >>=-eq-ok (normalize_log_row rt next raw) _ e in
      let s = >>=-eq-ok (normalize_log_rows rt after_id raws) _ r.2 in
      subst (EachNormal (raw ∷ raws)) (ok-injective s.2) (
        normalize_log_row-IsNormal next raw r.0 r.1,
        normalize_log_rows-EachNormal after_id raws s.0 s.1,
      )

  pub length-normalize_log_rows :
      (next : ℕ) (raws out : List Row)
      → normalize_log_rows rt next raws ≡ ok out
      → length out ≡ length raws
  unfolding normalize_log_rows
  length-normalize_log_rows next [] out e = ap length (sym (ok-injective e))
  length-normalize_log_rows next (raw ∷ raws) out e =
      let after_id = next_after next (get "id" raw) in
      let r = >>=-eq-ok (normalize_log_row rt next raw) _ e in
      let s = >>=-eq-ok (normalize_log_rows rt after_id raws) _ r.2 in
      ap length (sym (ok-injective s.2)) ∙ ap suc (length-normalize_log_rows after_id raws s.0 s.1)

  -- The rows of a log whose beginning is `before`: those of `before`, whose ids are below the next
  -- id, and those of the rest.
  normalize_log_rows-append :
      (next : ℕ) (before after out : List Row)
      → normalize_log_rows rt next (before ++ after) ≡ ok out
      → (rows : List Row) × (rest : List Row) × (out ≡ rows ++ rest)
        × EachNormal before rows
        × ((row : Row) → In row rows → IdBelow (next_after_all next before) row)
        × (normalize_log_rows rt (next_after_all next before) after ≡ ok rest)
  unfolding normalize_log_rows
  normalize_log_rows-append next [] after out e = ([], out, refl, tt, λ row h. absurd h, e)
  normalize_log_rows-append next (raw ∷ before) after out e =
      let after_id = next_after next (get "id" raw) in
      let r = >>=-eq-ok (normalize_log_row rt next raw) _ e in
      let s = >>=-eq-ok (normalize_log_rows rt after_id (before ++ after)) _ r.2 in
      let ih = normalize_log_rows-append after_id before after s.0 s.1 in
      (
        r.0 ∷ ih.0,
        ih.1,
        sym (ok-injective s.2) ∙ ap (λ l. r.0 ∷ l) ih.2,
        (normalize_log_row-IsNormal next raw r.0 r.1, ih.3),
        λ row. elim [
          | inl p ↦
              IdBelow-weaken after_id (next_after_all after_id before)
                (next_after_all-le after_id before) row
                (
                  row_id next (get "id" raw),
                  ap (get "id") p ∙ id-normalize_log_row next raw r.0 r.1,
                  row_id-below next (get "id" raw),
                )
          | inr h ↦ ih.4 row h
        ],
        ih.5,
      )

  -- If a log that holds a row without an int id is normalised, each of its rows, also that one, becomes
  -- one row at the same place, which is that row normalised and keeps an int id that it has. The row
  -- without one gets an id that is no less than the start and above the id of every row before it.
  pub normalize_log_rows_fresh :
      (start : ℕ) (before : List Row) (raw : Row) (after out : List Row)
      → normalize_log_rows rt start (before ++ raw ∷ after) ≡ ok out
      → ((z : ℤ) → get "id" raw ≢ some (int z))
      → (rows : List Row) × (row : Row) × (rest : List Row) × (n : ℕ) × (out ≡ rows ++ row ∷ rest)
        × EachNormal before rows
        × IsNormal raw row
        × EachNormal after rest
        × (get "id" row ≡ some (int (pos n)))
        × (start ≤ n)
        × ((other : Row) → In other rows → IdBelow n other)
  unfolding normalize_log_rows
  normalize_log_rows_fresh start before raw after out e missing =
      let p = normalize_log_rows-append start before (raw ∷ after) out e in
      let n = next_after_all start before in
      let r = >>=-eq-ok (normalize_log_row rt n raw) _ p.5 in
      let s = >>=-eq-ok (normalize_log_rows rt (next_after n (get "id" raw)) after) _ r.2 in
      (
        p.0,
        r.0,
        s.0,
        n,
        p.2 ∙ ap (λ l. p.0 ++ l) (sym (ok-injective s.2)),
        p.3,
        normalize_log_row-IsNormal n raw r.0 r.1,
        normalize_log_rows-EachNormal (next_after n (get "id" raw)) after s.0 s.1,
        id-normalize_log_row n raw r.0 r.1
            ∙ ap (λ z. some (int z)) (row_id-missing n (get "id" raw) missing),
        next_after_all-le start before,
        p.4,
      )
