-- ===== src/Servers/Filters/Newest.antt =====
-- Recent commits come newest first, none is lost or made up, and a limit keeps the newest.
use mathlib.Core.List.{Perm}
use mathlib.Core.List.Perm
use quellgeist.Base.{
  ◌^◌, String, ◌≡◌, sym, ap, ◌∙◌, subst, Bool, true, false, not, Option, List, [], ◌∷◌, keep, arith,
  ℤ, pos, negsuc, Bool-cases, str_lt, lez, str_lt_irrefl, str_lt_trans, inl, inr, mulz,
}
use quellgeist.Effects.{ok, >>=-eq-ok, ok-injective}
use quellgeist.Signals.{Value, Row, Float}
use quellgeist.Servers.Filters.{
  Ordered, text, number, incomparable, classify, ordered_lt, number_lt, value_lt, sort_key,
  insert_row, newest_first, select, is_recent, too_old, check_since, check_limit, take_limit,
  recent_commits,
}
use quellgeist.Servers.Filters.Exact.{select-keep, too_old-in_window}
use quellgeist.Servers.Filters.Passes.{in_window}

lez_total : (a b : ℤ) → lez a b ≡ false → lez b a ≡ true
unfolding lez
lez_total (pos a) (pos b) h = ground arith
lez_total (pos a) (negsuc b) h = ground arith
lez_total (negsuc a) (pos b) h = ground arith
lez_total (negsuc a) (negsuc b) h = ground arith

str_lt-asym : (s t : String) → str_lt s t ≡ true → str_lt t s ≡ false
str_lt-asym s t h = elim (Bool-cases (str_lt t s)) [
  | inl k ↦ cc (str_lt_trans s t s h k, str_lt_irrefl s)
  | inr k ↦ k
]

not-lez : (a b : ℤ) → not (lez a b) ≡ true → not (lez b a) ≡ false
not-lez a b h = ground (arith, lez_total a b)

number_lt-asym : (a b : Float) → number_lt a b ≡ true → number_lt b a ≡ false
unfolding number_lt
number_lt-asym a b h = not-lez (mulz b.mantissa (2 ^ a.scale)) (mulz a.mantissa (2 ^ b.scale)) h

ordered_lt-asym : (a b : Ordered) → ordered_lt a b ≡ ok true → ordered_lt b a ≡ ok false
unfolding ordered_lt
ordered_lt-asym (text s) (text t) h = ap ok (str_lt-asym s t (ok-injective h))
ordered_lt-asym (number a) (number b) h = ap ok (number_lt-asym a b (ok-injective h))
ordered_lt-asym (text s) (number b) h = cc
ordered_lt-asym (text s) incomparable h = cc
ordered_lt-asym (number a) (text t) h = cc
ordered_lt-asym (number a) incomparable h = cc
ordered_lt-asym incomparable (text t) h = cc
ordered_lt-asym incomparable (number b) h = cc
ordered_lt-asym incomparable incomparable h = cc

-- `r` may stand directly before what follows: the next row's key is not greater.
abbrev Leads : Row → List Row → Type 0
Leads r [] = Unit
Leads r (s ∷ ss) = value_lt (sort_key r) (sort_key s) ≡ ok false

-- Each row is followed by one whose key is not greater.
abbrev pub IsNewestFirst : List Row → Type 0
IsNewestFirst [] = Unit
IsNewestFirst (r ∷ rs) = Leads r rs × IsNewestFirst rs

insert_row-sorts :
    (row : Row) (rows out : List Row)
    → insert_row row rows ≡ ok out
    → IsNewestFirst rows
    → IsNewestFirst out
      × Perm out (row ∷ rows)
      × ((r : Row) → Leads r rows → value_lt (sort_key r) (sort_key row) ≡ ok false → Leads r out)
unfolding insert_row
insert_row-sorts row [] out e s =
    let q = ok-injective e in subst Goal q ((tt, tt), Perm.refl _, λ r l h. h)
  where
    Goal : List Row → Type 0
    Goal l =
        IsNewestFirst l
        × Perm l (row ∷ [])
        × ((r : Row) → Leads r [] → value_lt (sort_key r) (sort_key row) ≡ ok false → Leads r l)
insert_row-sorts row (x ∷ xs) out e s =
    let c = >>=-eq-ok (value_lt (sort_key row) (sort_key x)) _ e in
    elim (Bool-cases c.0) [
      | inl t ↦
          let m = >>=-eq-ok (insert_row row xs) _ (rw t at c.2) in
          let ih = insert_row-sorts row xs m.0 m.1 s.1 in
          let lt = value_lt-asym (sort_key row) (sort_key x) (c.1 ∙ ap ok t) in
          subst Goal (ok-injective m.2)
            ((ih.2 x s.0 lt, ih.0), Perm.trans (Perm.cons x ih.1) (Perm.swap row x xs), λ r l h. l)
      | inr t ↦
          subst Goal (ok-injective (rw t at c.2)) ((c.1 ∙ ap ok t, s), Perm.refl _, λ r l h. h)
    ]
  where
    Goal : List Row → Type 0
    Goal l =
        IsNewestFirst l
        × Perm l (row ∷ x ∷ xs)
        × ((r : Row)
            → Leads r (x ∷ xs)
            → value_lt (sort_key r) (sort_key row) ≡ ok false
            → Leads r l)

    value_lt-asym : (a b : Value) → value_lt a b ≡ ok true → value_lt b a ≡ ok false
    value_lt-asym a b h = unfold value_lt in ordered_lt-asym (classify a) (classify b) h

newest_first-sorts :
    (rows out : List Row) → newest_first rows ≡ ok out → IsNewestFirst out × Perm out rows
unfolding newest_first
newest_first-sorts [] out e =
    subst (λ l. IsNewestFirst l × Perm l []) (ok-injective e) (tt, Perm.refl _)
newest_first-sorts (r ∷ rs) out e =
    let m = >>=-eq-ok (newest_first rs) _ e in
    let ih = newest_first-sorts rs m.0 m.1 in
    let i = insert_row-sorts r m.0 out m.2 ih.0 in (i.0, Perm.trans i.1 (Perm.cons r ih.1))

-- A successful commit query returns the first `limit` rows of a list that is sorted newest first
-- and holds exactly the commits in the window, each as often as the source has it.
pub recent_commits_newest :
    (commits : List Row) (since : Option String) (limit : Option ℤ) (out : List Row)
    → recent_commits commits since limit ≡ ok out
    → (sorted : List Row) × IsNewestFirst sorted
      × Perm sorted (keep (in_window since) commits)
      × (out ≡ take_limit limit sorted)
unfolding recent_commits
recent_commits_newest commits since limit out e =
    let a = >>=-eq-ok (check_since since) _ e in
    let b = >>=-eq-ok (check_limit limit) _ a.2 in
    let c = >>=-eq-ok (select (is_recent since) commits) _ b.2 in
    let d = >>=-eq-ok (newest_first c.0) _ c.2 in
    let s = newest_first-sorts c.0 d.0 d.1 in
    let k = select-keep (is_recent since) (in_window since) same commits c.0 c.1 in
    (d.0, s.0, subst (Perm d.0) k s.1, sym (ok-injective d.2))
  where
    same : (row : Row) (b : Bool) → is_recent since row ≡ ok b → b ≡ in_window since row
    same row b h =
        unfold is_recent in
        let o = >>=-eq-ok (too_old since row) _ h in
        sym (ok-injective o.2) ∙ too_old-in_window since row o.0 o.1
