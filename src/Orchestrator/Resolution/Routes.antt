-- ===== src/Orchestrator/Resolution/Routes.antt =====
-- orchestrator/resolution.py: what each verdict says of the routes in the log.
use quellgeist.Base.{
  String, Bool, true, not, ◌&&◌, ◌==◌, string_eq, List, [], ◌∷◌, ◌≡◌, refl, sym, ap, ◌∙◌, ◌↔◌, inl,
  inr, subst, map, keep, contains, diff, dedupe, In, In-keep, In-diff, In-inter, In-sort_texts,
  contains_iff, not-contains_iff, and_iff, Bool-cases,
}
use quellgeist.Signals.{Row}
use quellgeist.Agent.Codec.{Codec}
use quellgeist.Orchestrator.Resolution.{
  recovered, not_recovered, is_error, no_route, route, before, routes_where, residual_routes,
  recovered_routes, unconfirmed_routes, verdict_of, judge_logs,
}

In-dedupe : (a : String) (xs : List String) → In a (dedupe xs) ↔ In a xs
unfolding dedupe
In-dedupe a [] = (λ h. h, λ h. h)
In-dedupe a (x ∷ xs) = elim (Bool-cases (contains (dedupe xs) x)) [
  | inl e ↦ rw e (
    λ h. inr ((In-dedupe a xs).0 h),
    elim [
      | inl q ↦ subst (λ b. In b (dedupe xs)) (sym q) ((contains_iff (dedupe xs) x).0 e)
      | inr h ↦ (In-dedupe a xs).1 h
    ],
  )
  | inr e ↦ rw e (
    elim [ inl q ↦ inl q | inr h ↦ inr ((In-dedupe a xs).0 h) ],
    elim [ inl q ↦ inl q | inr h ↦ inr ((In-dedupe a xs).1 h) ],
  )
]

-- Some row of the log passes the test and has this route.
pub Seen : (Row → Bool) → List Row → String → Type 0
Seen test rows a = (row : Row) × In row rows × (test row ≡ true) × (route row ≡ a)

In-map-route :
    (a : String) (rows : List Row)
    → In a (map route rows) ↔ ((row : Row) × In row rows × (route row ≡ a))
In-map-route a [] = (λ h. elim h [ ], λ h. elim h.1 [ ])
In-map-route a (r ∷ rs) = (
  elim [
    | inl q ↦ (r, inl refl, sym q)
    | inr h ↦ let k = (In-map-route a rs).0 h in (k.0, inr k.1, k.2)
  ],
  λ h. elim h.1 [
    | inl q ↦ inl (sym h.2 ∙ ap route q)
    | inr k ↦ inr ((In-map-route a rs).1 (h.0, k, h.2))
  ],
)

routes_where_iff :
    (test : Row → Bool) (rows : List Row) (a : String)
    → In a (routes_where test rows) ↔ Seen test rows a
unfolding routes_where Seen
routes_where_iff test rows a = (
  λ h.
      let k = (In-map-route a (keep test rows)).0 ((In-dedupe a _).0 h) in
      let j = (In-keep k.0 test rows).0 k.1 in (k.0, j.0, j.1, k.2),
  λ h.
      (In-dedupe a _).1
        ((In-map-route a (keep test rows)).1 (h.0, (In-keep h.0 test rows).1 (h.1, h.2), h.3)),
)

residual_iff :
    (a : String) (es pes : List String) → In a (residual_routes es pes) ↔ (In a es × In a pes)
unfolding residual_routes
residual_iff a es pes = (
  λ h. (In-inter a es pes).0 ((In-sort_texts a _).0 h),
  λ h. (In-sort_texts a _).1 ((In-inter a es pes).1 h),
)

recovered_iff :
    (a : String) (es pes ps : List String)
    → In a (recovered_routes es pes ps) ↔ (In a es × (¬ (a ≡ no_route)) × In a ps × ¬ In a pes)
unfolding recovered_routes
recovered_iff a es pes ps = (
  λ h.
      let k = (In-keep a _ es).0 ((In-sort_texts a _).0 h) in
      let u = (and_iff (not (a == no_route)) _).0 k.1 in
      let v = (and_iff (contains ps a) _).0 u.1 in
      (k.0, not-eq a u.0, (contains_iff ps a).0 v.0, (not-contains_iff pes a).0 v.1),
  λ h. (In-sort_texts a _).1 (
      (In-keep a _ es).1 (
        h.0,
        (and_iff (not (a == no_route)) _).1 (
          eq-not a h.1,
          (and_iff (contains ps a) _).1 ((contains_iff ps a).1 h.2, (not-contains_iff pes a).1 h.3),
        ),
      )),
)
  where
    not-eq : (a : String) → not (a == no_route) ≡ true → ¬ (a ≡ no_route)
    not-eq a e q = absurd (cc ((string_eq.beq_iff a no_route).1 q))

    eq-not : (a : String) → ¬ (a ≡ no_route) → not (a == no_route) ≡ true
    eq-not a n = elim (Bool-cases (a == no_route)) [
      | inl e ↦ absurd (n ((string_eq.beq_iff a no_route).0 e))
      | inr e ↦ rw e refl
    ]

unconfirmed_iff :
    (a : String) (es res healthy : List String)
    → In a (unconfirmed_routes es res healthy) ↔ (In a es × (¬ In a res) × ¬ In a healthy)
unfolding unconfirmed_routes
unconfirmed_iff a es res healthy = (
  λ h.
      let k = (In-diff a (diff es res) healthy).0 ((In-sort_texts a _).0 h) in
      let j = (In-diff a es res).0 k.0 in (j.0, j.1, k.1),
  λ h.
      (In-sort_texts a _).1
        ((In-diff a (diff es res) healthy).1 ((In-diff a es res).1 (h.0, h.1), h.2)),
)

Nonempty : List String → Type 0
Nonempty xs = (a : String) × In a xs

verdict_of-recovered :
    (es res un : List String)
    → (verdict_of es res un ≡ recovered) ↔ (Nonempty es × (¬ Nonempty res) × ¬ Nonempty un)
unfolding verdict_of Nonempty
verdict_of-recovered [] res un = (λ e. absurd (cc), λ h. elim h.0.1 [ ])
verdict_of-recovered (e ∷ es) (r ∷ rs) un = (λ e. absurd (cc), λ h. absurd (h.1 (r, inl refl)))
verdict_of-recovered (e ∷ es) [] (u ∷ us) = (λ e. absurd (cc), λ h. absurd (h.2 (u, inl refl)))
verdict_of-recovered (e ∷ es) [] [] =
    (λ _. ((e, inl refl), (λ k. elim k.1 [ ]), λ k. elim k.1 [ ]), λ h. refl)

verdict_of-not_recovered :
    (es res un : List String)
    → (verdict_of es res un ≡ not_recovered) ↔ (Nonempty es × Nonempty res)
unfolding verdict_of Nonempty
verdict_of-not_recovered [] res un = (λ e. absurd (cc), λ h. elim h.0.1 [ ])
verdict_of-not_recovered (e ∷ es) (r ∷ rs) un = (λ _. ((e, inl refl), (r, inl refl)), λ h. refl)
verdict_of-not_recovered (e ∷ es) [] (u ∷ us) = (λ e. absurd (cc), λ h. elim h.1.1 [ ])
verdict_of-not_recovered (e ∷ es) [] [] = (λ e. absurd (cc), λ h. elim h.1.1 [ ])

-- The three tests that the check puts to a row.
abbrev pub error_before : Codec → String → Row → Bool
error_before codec boundary r = before codec boundary r && is_error r

abbrev pub error_after : Codec → String → Row → Bool
error_after codec boundary r = not (before codec boundary r) && is_error r

abbrev pub row_after : Codec → String → Row → Bool
row_after codec boundary r = not (before codec boundary r)

-- A route that is neither still erring nor left unconfirmed is a recovered one.
all-recovered :
    (a : String) (es pes ps : List String)
    → In a es
    → ¬ In a (unconfirmed_routes es (residual_routes es pes) (recovered_routes es pes ps))
    → ¬ In a (residual_routes es pes)
    → In a (recovered_routes es pes ps)
all-recovered a es pes ps h un res = elim (Bool-cases (contains (recovered_routes es pes ps) a)) [
  | inl e ↦ (contains_iff _ a).0 e
  | inr e ↦
      absurd (un ((unconfirmed_iff a es _ _).1 (h, res, (not-contains_iff _ a).0 (rw e refl))))
]

-- The verdict is "recovered" exactly when some row before the boundary is an error and every route
-- with such a row has a name, has a row from the boundary on, and has no error from there on.
pub judge_logs-recovered :
    (codec : Codec) (logs : List Row) (boundary run_id : String)
    → ((judge_logs codec logs boundary run_id).verdict ≡ recovered) ↔ (
        ((a : String) × Seen (error_before codec boundary) logs a)
        × ((a : String)
            → Seen (error_before codec boundary) logs a
            → (¬ (a ≡ no_route))
              × Seen (row_after codec boundary) logs a
              × ¬ Seen (error_after codec boundary) logs a))
unfolding judge_logs Nonempty
judge_logs-recovered codec logs boundary run_id =
    let es = routes_where (error_before codec boundary) logs in
    let pes = routes_where (error_after codec boundary) logs in
    let ps = routes_where (row_after codec boundary) logs in
    (
      λ e.
          let ((a, h), res, un) = (verdict_of-recovered _ _ _).0 e in
          (
            (a, (routes_where_iff _ logs a).0 h),
            λ b seen.
                let k = (recovered_iff b es pes ps).0 (
                  all-recovered b es pes ps ((routes_where_iff _ logs b).1 seen) (λ x. un (b, x))
                    (λ x. res (b, x))) in
                (
                  k.1,
                  (routes_where_iff _ logs b).0 k.2,
                  λ x. k.3 ((routes_where_iff _ logs b).1 x),
                ),
          ),
      λ h. (verdict_of-recovered _ _ _).1 (
        (h.0.0, (routes_where_iff _ logs h.0.0).1 h.0.1),
        (λ k.
            let j = (residual_iff k.0 es pes).0 k.1 in
            (h.1 k.0 ((routes_where_iff _ logs k.0).0 j.0)).2
              ((routes_where_iff _ logs k.0).0 j.1)),
        λ k.
            let j = (unconfirmed_iff k.0 es _ _).0 k.1 in
            let c = h.1 k.0 ((routes_where_iff _ logs k.0).0 j.0) in
            j.2 (
              (recovered_iff k.0 es pes ps).1 (
                j.0,
                c.0,
                (routes_where_iff _ logs k.0).1 c.1,
                λ x. c.2 ((routes_where_iff _ logs k.0).0 x),
              )),
      ),
    )

-- The verdict is "not recovered" exactly when some route has an error row before the boundary and
-- another from the boundary on.
pub judge_logs-not_recovered :
    (codec : Codec) (logs : List Row) (boundary run_id : String)
    → ((judge_logs codec logs boundary run_id).verdict ≡ not_recovered) ↔ (
        (a : String) × Seen (error_before codec boundary) logs a
        × Seen (error_after codec boundary) logs a)
unfolding judge_logs Nonempty
judge_logs-not_recovered codec logs boundary run_id = (
  λ e.
      let (_, (a, h)) = (verdict_of-not_recovered _ _ _).0 e in
      let k = (residual_iff a _ _).0 h in
      (a, (routes_where_iff _ logs a).0 k.0, (routes_where_iff _ logs a).0 k.1),
  λ h.
      let b = (routes_where_iff (error_before codec boundary) logs h.0).1 h.1 in
      let k = (routes_where_iff (error_after codec boundary) logs h.0).1 h.2 in
      (verdict_of-not_recovered _ _ _).1 ((h.0, b), (h.0, (residual_iff h.0 _ _).1 (b, k))),
)
