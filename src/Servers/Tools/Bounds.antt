-- ===== src/Servers/Tools/Bounds.antt =====
-- servers/tools.py: how much a tool shows, and of what.
use Prim.Native.Nat.{zero, suc}
use quellgeist.Base.{
  Bool, true, ◌↔◌, ℕ, ◌-◌, ◌≤◌, String, ◌≡◌, ◌≢◌, ◌⊎◌, refl, sym, ap, ◌∙◌, subst, Option, none,
  some, List, [], ◌∷◌, ◌++◌, map, keep, length, drop, take, last_n, arith, Bool-cases, inl, inr,
  ltb, nat_beq, eq_iff,
}
use quellgeist.Effects.{ok, >>=-eq-ok, ok-injective}
use quellgeist.Signals.{Value, null, bool, int, float, str, list, dict, Row, get, to_list, of_list}
use quellgeist.Ingest.Runtime.{Runtime}
use quellgeist.Servers.Filters.{route_is, filter_log_rows, filter_metric_rows, check_since}
use quellgeist.Servers.Filters.Exact.{
  filter_log_rows_exact, filter_series_names, get-put, get-put_ne, cons_eq,
}
use quellgeist.Servers.Filters.Passes.{Passes}
use quellgeist.Servers.Tools.{
  Host, env_path, cap_rows, cap_value, cap_series, cap_each, cap_points, int_env, read_metrics,
  query_logs, all_log_rows, query_metrics, default_max_rows, default_max_points,
  default_metrics_path,
}

take-drop : {A : Type 0} (n : ℕ) (xs : List A) → xs ≡ take n xs ++ drop n xs
take-drop zero xs = refl
take-drop (suc n) [] = refl
take-drop (suc n) (x ∷ xs) = ap (λ l. x ∷ l) (take-drop n xs)

length-drop : {A : Type 0} (n : ℕ) (xs : List A) → length (drop n xs) ≡ length xs - n
length-drop zero xs = omega arith
length-drop (suc n) [] = omega arith
length-drop (suc n) (x ∷ xs) = omega (arith, length-drop n xs)

length-last_n : {A : Type 0} (n : ℕ) (xs : List A) → length (last_n n xs) ≤ n
length-last_n n xs = omega (arith, length-drop (length xs - n) xs)

length-last_n_eq : {A : Type 0} (n : ℕ) (xs : List A) → n ≤ length xs → length (last_n n xs) ≡ n
length-last_n_eq n xs h = omega (arith, h, length-drop (length xs - n) xs)

-- `shown` is the end of `rows`: all of them if the cap is 0 or they are no more than it, and otherwise
-- as many as the cap.
abbrev pub IsCapped : ℕ → List Row → List Row → Type 0
IsCapped cap rows shown =
    (((cap ≡ 0) ⊎ (length rows ≤ cap)) × (shown ≡ rows))
    ⊎ ((cap ≢ 0) × (before : List Row) × (rows ≡ before ++ shown) × (length shown ≡ cap))

cap_rows-IsCapped : (cap : ℕ) (rows : List Row) → IsCapped cap rows (cap_rows cap rows)
unfolding cap_rows
cap_rows-IsCapped cap rows = elim (Bool-cases (nat_beq cap 0)) [
  | inl z ↦ rw z (inl (inl (ground (arith, z)), refl))
  | inr z ↦ elim (Bool-cases (ltb cap (length rows))) [
    | inl e ↦
        rw (z, e)
          (inr (
            λ zero_cap. ground (arith, z, zero_cap),
            take (length rows - cap) rows,
            take-drop (length rows - cap) rows,
            length-last_n_eq cap rows (ground (arith, e)),
          ))
    | inr e ↦ rw (z, e) (inl (inr (ground (arith, e)), refl))
  ]
]

-- The points of a series, where it has a list of them.
abbrev points_in : Option Value → List Value
points_in (some (list vs)) = to_list vs
points_in _ = []

abbrev shown_points : Row → List Value
shown_points row = points_in (get "points" row)

to_list-of_list : (vs : List Value) → to_list (of_list vs) ≡ vs
unfolding to_list of_list
to_list-of_list [] = refl
to_list-of_list (v ∷ vs) = ap (λ l. v ∷ l) (to_list-of_list vs)

cap_value_lem :
    (cap : ℕ) (s out : Row) (o : Option Value)
    → get "points" s ≡ o
    → cap_value cap s o ≡ ok out
    → (get "metric" out ≡ get "metric" s) × (length (points_in (get "points" out)) ≤ cap)
unfolding cap_value
cap_value_lem cap s out none p e =
    subst (λ r. (get "metric" r ≡ get "metric" s) × (length (points_in (get "points" r)) ≤ cap))
      (ok-injective e) (refl, rw p (omega arith))
cap_value_lem cap s out (some null) p e = absurd (cc)
cap_value_lem cap s out (some (bool _)) p e = absurd (cc)
cap_value_lem cap s out (some (int _)) p e = absurd (cc)
cap_value_lem cap s out (some (float _)) p e = absurd (cc)
cap_value_lem cap s out (some (str _)) p e = absurd (cc)
cap_value_lem cap s out (some (dict _)) p e = absurd (cc)
cap_value_lem cap s out (some (list vs)) p e =
    subst (λ r. (get "metric" r ≡ get "metric" s) × (length (points_in (get "points" r)) ≤ cap))
      (ok-injective e)
      (elim (Bool-cases (ltb cap (length (to_list vs)))) [
        | inl t ↦ rw t (
          get-put_ne "metric" "points" _ s (ground (arith, eq_iff "points" "metric")),
          rw
              (
                get-put "points" (list (of_list (last_n cap (to_list vs)))) s,
                to_list-of_list (last_n cap (to_list vs)),
              )
              (length-last_n cap (to_list vs)),
        )
        | inr t ↦ rw t (refl, rw p (ground (arith, t)))
      ])

-- Whether every series shows at most `cap` points.
abbrev pub AllShort : ℕ → List Row → Type 0
AllShort cap [] = Unit
AllShort cap (s ∷ series) = (length (shown_points s) ≤ cap) × AllShort cap series

cap_each_lem :
    (cap : ℕ) (series out : List Row)
    → cap_each cap series ≡ ok out
    → (map (get "metric") out ≡ map (get "metric") series) × AllShort cap out
unfolding cap_each
cap_each_lem cap [] out e =
    subst (λ l. (map (get "metric") l ≡ []) × AllShort cap l) (ok-injective e) (refl, tt)
cap_each_lem cap (s ∷ series) out e =
    let h = >>=-eq-ok (cap_series cap s) _ e in
    let r = >>=-eq-ok (cap_each cap series) _ h.2 in
    let ih = cap_each_lem cap series r.0 r.1 in
    let c = cap_value_lem cap s h.0 (get "points" s) refl (unfold cap_series in h.1) in
    subst (λ l. (map (get "metric") l ≡ map (get "metric") (s ∷ series)) × AllShort cap l)
      (ok-injective r.2) (cons_eq c.0 ih.0, (c.1, ih.1))

pub cap_points_lem :
    (cap : ℕ) (series out : List Row)
    → cap_points cap series ≡ ok out
    → (map (get "metric") out ≡ map (get "metric") series) × (cap ≢ 0 → AllShort cap out)
unfolding cap_points
cap_points_lem cap series out e = elim (Bool-cases (nat_beq cap 0)) [
  | inl z ↦ (
    ap (map (get "metric")) (sym (ok-injective (rw (z, cap_points) at e))),
    λ h. absurd (h (ground (arith, z))),
  )
  | inr z ↦ let l = cap_each_lem cap series out (rw (z, cap_points) at e) in (l.0, λ _. l.1)
]

unless_zero : {X : Type 0} (cap : ℕ) → (cap ≢ 0 → X) → (cap ≡ 0) ⊎ X
unless_zero cap f = elim (Bool-cases (nat_beq cap 0)) [
  | inl z ↦ inl (ground (arith, z))
  | inr z ↦ inr (f (ground (arith, z)))
]

module _ (rt : Runtime) (host : Host) where
  -- A log query shows those of the very rows that the citation check reads which its three filters ask
  -- for, in order: all of them if QG_MAX_ROWS is 0 or they are no more than it, and otherwise exactly
  -- the last QG_MAX_ROWS.
  pub query_logs_tail :
      (since level route : Option String) (out : List Row)
      → query_logs rt host since level route ≡ ok out
      → (rows : List Row) × (test : Row → Bool) × (all_log_rows rt host ≡ ok rows)
        × ((row : Row) → (test row ≡ true) ↔ Passes since level route row)
        × IsCapped (int_env rt host "QG_MAX_ROWS" default_max_rows) (keep test rows) out
  unfolding query_logs all_log_rows
  query_logs_tail since level route out e =
      let cap = int_env rt host "QG_MAX_ROWS" default_max_rows in
      let r = >>=-eq-ok (all_log_rows rt host) _ e in
      let f = >>=-eq-ok (filter_log_rows r.0 since level route) _ r.2 in
      let exact = filter_log_rows_exact r.0 since level route f.0 f.1 in
      (
        r.0,
        exact.0,
        r.1,
        exact.1,
        subst (λ l. IsCapped cap l out) exact.2
            (subst (IsCapped cap f.0) (ok-injective f.2) (cap_rows-IsCapped cap f.0)),
      )

  -- A metric query shows the series of the asked name in order, each under its own name and with at
  -- most QG_MAX_POINTS points unless that is 0.
  pub query_metrics_short :
      (name since : Option String) (out : List Row)
      → query_metrics rt host name since ≡ ok out
      → let cap = int_env rt host "QG_MAX_POINTS" default_max_points in
        (series : List Row) × (read_metrics rt
            (host.disk (env_path host "QG_METRICS_PATH" default_metrics_path))
          ≡ ok series)
        × (map (get "metric") out
            ≡ map (get "metric") (keep (λ s. route_is (get "metric" s) name) series))
        × ((cap ≡ 0) ⊎ AllShort cap out)
  unfolding query_metrics filter_metric_rows
  query_metrics_short name since out e =
      let cap = int_env rt host "QG_MAX_POINTS" default_max_points in
      let path = host.disk (env_path host "QG_METRICS_PATH" default_metrics_path) in
      let r = >>=-eq-ok (read_metrics rt path) _ e in
      let f = >>=-eq-ok (filter_metric_rows r.0 name since) _ r.2 in
      let s = >>=-eq-ok (check_since since) _ f.1 in
      let c = cap_points_lem cap f.0 out f.2 in
      (r.0, r.1, c.0 ∙ filter_series_names name since r.0 f.0 s.2, unless_zero cap c.1)
