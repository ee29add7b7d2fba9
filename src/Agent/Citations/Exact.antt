-- ===== src/Agent/Citations/Exact.antt =====
-- The citation check is exact: it reports the cited handles that no signal offers, and only those.
use quellgeist.Base.{
  and_iff, any_iff, int_eq, ◌==◌, string_eq, String, ◌≡◌, refl, sym, ap, ◌∙◌, subst, ◌↔◌, inl, inr,
  Bool, true, false, not, ◌||◌, Option, none, some, List, [], ◌∷◌, ◌++◌, map, flat_map, or_iff,
  not_iff, true-ne-false, arith, any, any-append, In, In-keep, In-append, Bool-cases,
}
use quellgeist.Effects.{ok, >>=-eq-ok, ok-injective}
use quellgeist.Signals.{Value, Row, get, is_hashable, key_eq, Key, int_key, str_key}
use quellgeist.Agent.Schema.{
  Kind, log, commit, metric, kind_beq, key, Handle, Hypothesis, Diagnosis, EvidenceRef,
}
use quellgeist.Agent.Citations.{
  RealHandle, add_handle, handles_of, or_empty, real_signal_handles, cited_handles, handle_eq,
  handle_same, handle_set, check_fabrication,
}

-- Some hypothesis of `d` cites `h`.
abbrev pub Cites : Diagnosis → Handle → Type 0
Cites d h =
    (p : Hypothesis) × In p d.hypotheses × ((r : EvidenceRef) × In r p.evidence × (h ≡ key r))

-- Some row has under `name` a value equal to the key.
abbrev pub Offers : String → List Row → Key → Type 0
Offers name rows k =
    (row : Row) × In row rows × ((v : Value) × (get name row ≡ some v) × (key_eq k v ≡ true))

-- The signals of the incident contain the handle.
abbrev pub IsReal : List Row → List Row → Option (List Row) → Handle → Type 0
IsReal logs commits metrics (log, k) = Offers "id" logs k
IsReal logs commits metrics (commit, k) = Offers "sha" commits k
IsReal logs commits metrics (metric, k) = Offers "metric" (or_empty metrics) k

pub In-map_iff :
    (h : Handle) (rs : List EvidenceRef)
    → In h (map key rs) ↔ ((r : EvidenceRef) × In r rs × (h ≡ key r))
In-map_iff h [] = (λ k. absurd k, λ k. absurd k.1)
In-map_iff h (r ∷ rs) = (
  elim [ inl e ↦ (r, inl refl, e) | inr k ↦ let t = (In-map_iff h rs).0 k in (t.0, inr t.1, t.2) ],
  λ t. elim t.1 [ inl e ↦ inl (t.2 ∙ ap key e) | inr k ↦ inr ((In-map_iff h rs).1 (t.0, k, t.2)) ],
)

abbrev CitesIn : Handle → Hypothesis → Type 0
CitesIn h q = (r : EvidenceRef) × In r q.evidence × (h ≡ key r)

abbrev Holds : String → Key → Row → Type 0
Holds name k row = (v : Value) × (get name row ≡ some v) × (key_eq k v ≡ true)

pub cited_iff :
    (h : Handle) (hs : List Hypothesis)
    → In h (flat_map (λ (p : Hypothesis). map key p.evidence) hs)
      ↔ ((p : Hypothesis) × In p hs × ((r : EvidenceRef) × In r p.evidence × (h ≡ key r)))
unfolding flat_map
cited_iff h [] = (λ k. absurd k, λ k. absurd k.1)
cited_iff h (p ∷ ps) = (
  λ k. elim ((In-append h (map key p.evidence) _).0 k) [
    | inl m ↦ (p, inl refl, (In-map_iff h p.evidence).0 m)
    | inr m ↦ let t = (cited_iff h ps).0 m in (t.0, inr t.1, t.2)
  ],
  λ t. (In-append h (map key p.evidence) _).1 (elim t.1 [
    | inl e ↦ inl ((In-map_iff h p.evidence).1 (subst (CitesIn h) e t.2))
    | inr m ↦ inr ((cited_iff h ps).1 (t.0, m, t.2))
  ]),
)

kind_beq-eq : (a b : Kind) → kind_beq a b ≡ true → a ≡ b
unfolding kind_beq
kind_beq-eq log log e = refl
kind_beq-eq commit commit e = refl
kind_beq-eq metric metric e = refl
kind_beq-eq log commit e = absurd (cc)
kind_beq-eq log metric e = absurd (cc)
kind_beq-eq commit log e = absurd (cc)
kind_beq-eq commit metric e = absurd (cc)
kind_beq-eq metric log e = absurd (cc)
kind_beq-eq metric commit e = absurd (cc)

pub handle_same-eq : (h x : Handle) → handle_same h x ≡ true → h ≡ x
unfolding handle_same kind_beq
handle_same-eq (kind, int_key a) (kind', int_key b) e =
    let p = (and_iff (kind_beq kind kind') (a == b)).0 e in
    let q : a ≡ b = (int_eq.beq_iff a b).0 p.1 in cc (kind_beq-eq kind kind' p.0, q)
handle_same-eq (kind, str_key a) (kind', str_key b) e =
    let p = (and_iff (kind_beq kind kind') (a == b)).0 e in
    let q : a ≡ b = (string_eq.beq_iff a b).0 p.1 in cc (kind_beq-eq kind kind' p.0, q)
handle_same-eq (kind, int_key a) (kind', str_key b) e = absurd (cc)
handle_same-eq (kind, str_key a) (kind', int_key b) e = absurd (cc)

In-handle_set : (h : Handle) (hs : List Handle) → In h (handle_set hs) ↔ In h hs
unfolding handle_set
In-handle_set h [] = (λ k. k, λ k. k)
In-handle_set h (x ∷ xs) = elim (Bool-cases (any (handle_same x) (handle_set xs))) [
  | inl t ↦ rw t (
    λ k. inr ((In-handle_set h xs).0 k),
    elim [
      | inl q ↦
          let (y, m, same) = (any_iff (handle_same x) (handle_set xs)).0 t in
          subst (λ a. In a (handle_set xs)) (sym (q ∙ handle_same-eq x y same)) m
      | inr k ↦ (In-handle_set h xs).1 k
    ],
  )
  | inr t ↦ rw t (
    elim [ inl q ↦ inl q | inr k ↦ inr ((In-handle_set h xs).0 k) ],
    elim [ inl q ↦ inl q | inr k ↦ inr ((In-handle_set h xs).1 k) ],
  )
]

-- `cited_handles` is the set of the handles that the hypotheses cite.
cited_handles_iff : (d : Diagnosis) (h : Handle) → In h (cited_handles d) ↔ Cites d h
unfolding cited_handles
cited_handles_iff d h =
    let set = In-handle_set h (flat_map (λ (p : Hypothesis). map key p.evidence) d.hypotheses) in
    let cited = cited_iff h d.hypotheses in (λ k. cited.0 (set.0 k), λ k. set.1 (cited.1 k))

-- One row contributes the value under `name`, and nothing if it has none.
add_handle-any :
    (kind kind' : Kind) (k : Key) (o : Option Value) {hs : List RealHandle}
    → add_handle kind o ≡ ok hs
    → (any (handle_eq (kind', k)) hs ≡ true)
      ↔ ((kind_beq kind' kind ≡ true) × ((v : Value) × (o ≡ some v) × (key_eq k v ≡ true)))
unfolding add_handle any handle_eq
add_handle-any kind kind' k none e = (ground arith, ground arith)
add_handle-any kind kind' k (some v) e = elim (Bool-cases (is_hashable v)) [
  | inl t ↦ (λ h. (ground arith, (v, refl, ground arith)), λ h. ground (arith, h.1.1, h.1.2))
  | inr t ↦ (λ h. absurd (ground arith), λ h. absurd (ground arith))
]

handles_of-any :
    (kind kind' : Kind) (name : String) (k : Key) (rows : List Row) (hs : List RealHandle)
    → handles_of kind name rows ≡ ok hs
    → (any (handle_eq (kind', k)) hs ≡ true) ↔ ((kind_beq kind' kind ≡ true) × Offers name rows k)
unfolding handles_of any
handles_of-any kind kind' name k [] hs e =
    (λ h. absurd (true-ne-false h (ground arith)), λ h. absurd h.1.1)
handles_of-any kind kind' name k (row ∷ rows) hs e =
    let first = >>=-eq-ok (add_handle kind (get name row)) _ e in
    let later = >>=-eq-ok (handles_of kind name rows) _ first.2 in
    let here = add_handle-any kind kind' k (get name row) first.1 in
    let rest = handles_of-any kind kind' name k rows later.0 later.1 in
    let p = handle_eq (kind', k) in
    let whole : any p hs ≡ (any p first.0 || any p later.0) =
      ap (any p) (sym (ok-injective later.2)) ∙ any-append p first.0 later.0 in
    rw whole (
      λ h. elim ((or_iff _ _).0 h) [
        | inl l ↦ let t = here.0 l in (t.0, (row, inl refl, t.1))
        | inr r ↦ let t = rest.0 r in (t.0, (t.1.0, inr t.1.1, t.1.2))
      ],
      λ t. (or_iff _ _).1 (elim t.1.1 [
        | inl q ↦ inl (here.1 (t.0, subst (Holds name k) q t.1.2))
        | inr m ↦ inr (rest.1 (t.0, (t.1.0, m, t.1.2)))
      ]),
    )

abbrev Of : Kind → Type 0 → Type 0 → Type 0 → Type 0
Of log P Q R = P
Of commit P Q R = Q
Of metric P Q R = R

other : false ≡ true → ⊥
other e = cc

-- Of the three sources only the one of the handle's kind can offer it.
pick :
    (kind : Kind) {x y z : Bool} {P Q R : Type 0}
    → (x ≡ true) ↔ ((kind_beq kind log ≡ true) × P)
    → (y ≡ true) ↔ ((kind_beq kind commit ≡ true) × Q)
    → (z ≡ true) ↔ ((kind_beq kind metric ≡ true) × R)
    → (((x || y) || z) ≡ true) ↔ Of kind P Q R
unfolding kind_beq
pick log a b c = (
  λ h. elim ((or_iff _ _).0 h) [
    | inl q ↦ elim ((or_iff _ _).0 q) [ inl r ↦ (a.0 r).1 | inr r ↦ absurd (other (b.0 r).0) ]
    | inr r ↦ absurd (other (c.0 r).0)
  ],
  λ p. (or_iff _ _).1 (inl ((or_iff _ _).1 (inl (a.1 (refl, p))))),
)
pick commit a b c = (
  λ h. elim ((or_iff _ _).0 h) [
    | inl q ↦ elim ((or_iff _ _).0 q) [ inl r ↦ absurd (other (a.0 r).0) | inr r ↦ (b.0 r).1 ]
    | inr r ↦ absurd (other (c.0 r).0)
  ],
  λ p. (or_iff _ _).1 (inl ((or_iff _ _).1 (inr (b.1 (refl, p))))),
)
pick metric a b c = (
  λ h. elim ((or_iff _ _).0 h) [
    | inl q ↦ elim ((or_iff _ _).0 q) [
      | inl r ↦ absurd (other (a.0 r).0)
      | inr r ↦ absurd (other (b.0 r).0)
    ]
    | inr r ↦ (c.0 r).1
  ],
  λ p. (or_iff _ _).1 (inr (c.1 (refl, p))),
)

by_kind :
    (logs commits : List Row) (metrics : Option (List Row)) {X : Type 0} (kind : Kind) (k : Key)
    → X
      ↔ Of kind (Offers "id" logs k) (Offers "sha" commits k) (Offers "metric" (or_empty metrics) k)
    → X ↔ IsReal logs commits metrics (kind, k)
by_kind logs commits metrics log k e = e
by_kind logs commits metrics commit k e = e
by_kind logs commits metrics metric k e = e

module _ (logs commits : List Row) (metrics : Option (List Row)) {real : List RealHandle}
    (read : real_signal_handles logs commits metrics ≡ ok real) where
  -- The collected handles answer for exactly the signals that the rows offer.
  IsReal-iff : (h : Handle) → (any (handle_eq h) real ≡ true) ↔ IsReal logs commits metrics h
  unfolding real_signal_handles
  IsReal-iff (kind, k) =
      let first = >>=-eq-ok (handles_of log "id" logs) _ read in
      let second = >>=-eq-ok (handles_of commit "sha" commits) _ first.2 in
      let third = >>=-eq-ok (handles_of metric "metric" (or_empty metrics)) _ second.2 in
      let a = handles_of-any log kind "id" k logs first.0 first.1 in
      let b = handles_of-any commit kind "sha" k commits second.0 second.1 in
      let c = handles_of-any metric kind "metric" k (or_empty metrics) third.0 third.1 in
      let p = handle_eq (kind, k) in
      let x = first.0 in
      let y = second.0 in
      let z = third.0 in
      let whole : any p real ≡ ((any p x || any p y) || any p z) =
        ap (any p) (sym (ok-injective third.2))
        ∙ any-append p (x ++ y) z
        ∙ ap (λ t. t || any p z) (any-append p x y) in
      rw whole (by_kind logs commits metrics kind k (pick kind a b c))

-- The check reports a handle exactly if some hypothesis cites it and no signal of the incident,
-- in any of the three sources, offers it.
pub check_fabrication_exact :
    (d : Diagnosis) (logs commits : List Row) (metrics : Option (List Row))
    (fabricated : List Handle) (h : Handle)
    → check_fabrication d logs commits metrics ≡ ok fabricated
    → In h fabricated ↔ (Cites d h × ¬ IsReal logs commits metrics h)
unfolding check_fabrication
check_fabrication_exact d logs commits metrics fabricated h e =
    let read = >>=-eq-ok (real_signal_handles logs commits metrics) _ e in
    let real = IsReal-iff logs commits metrics read.1 h in
    let cites = cited_handles_iff d h in
    rw (sym (ok-injective read.2)) (
      λ m.
          let k = (In-keep h _ (cited_handles d)).0 m in
          (cites.0 k.0, λ r. true-ne-false (real.1 r) ((not_iff _).0 k.1)),
      λ c.
          (In-keep h _ (cited_handles d)).1
            (cites.1 c.0, absent (any (handle_eq h) read.0) real c.1),
    )
  where
    absent : {P : Type 0} (b : Bool) → (b ≡ true) ↔ P → ¬ P → not b ≡ true
    absent true r n = absurd (n (r.0 refl))
    absent false r n = refl
