-- ===== src/Agent/Timing/Ordering.antt =====
-- The timing verdicts state an order of times: nothing else makes the verifier drop a hypothesis.
use quellgeist.Base.{
  ◌<◌, String, ◌≡◌, refl, sym, ap, ◌∙◌, subst, ◌↔◌, ◌⊎◌, inl, inr, Bool, true, false, Option, none,
  some, List, [], ◌∷◌, map, In, arith, Bool-cases, Option-cases, is_some, true-ne-false,
}
use quellgeist.Effects.{ok, >>=-eq-ok, ok-injective}
use quellgeist.Signals.{Row, str_key}
use quellgeist.Agent.Schema.{
  EvidenceRef, log_ref, commit_ref, metric_ref, Hypothesis, Diagnosis, is_empty,
}
use quellgeist.Agent.Schema.Validity.{IsCoherent}
use quellgeist.Agent.Verifier.{HypothesisVerdict, VerifierResult, Judged, add_verdict}
use quellgeist.Agent.Verifier.Support.{kept, conclude-Concluded}
use quellgeist.Agent.Timing.{
  DateTime, naive, aware, TimeCodec, time_lt, first_error_ts, CommitTimes, commit_times, find_time,
  cited_commits, resolved_commits, all_after, timing_objection, timing_verdict, time_all,
  timing_dropped_all, verify_timing, object_to,
}

-- `b` is later than `a`, of one kind.
abbrev After : DateTime → DateTime → Type 0
After (naive a) (naive b) = a < b
After (aware a) (aware b) = a < b
After _ _ = ⊥

-- The hypothesis cites a commit of the incident that is dated `t`.
abbrev CitesDated : CommitTimes → Hypothesis → String → DateTime → Type 0
CitesDated index hyp sha t =
    ((note : String) × In (commit_ref sha note) hyp.evidence)
    × (find_time (str_key sha) index ≡ some t)

-- Some cited commit is dated, and every one that is dated comes after the first error.
abbrev pub Impossible : DateTime → CommitTimes → Hypothesis → Type 0
Impossible first index hyp =
    ((sha : String) × (t : DateTime) × CitesDated index hyp sha t)
    × ((sha : String) (t : DateTime) → CitesDated index hyp sha t → After first t)

time_lt-After : (a b : DateTime) (x : Bool) → time_lt a b ≡ ok x → (x ≡ true) ↔ After a b
unfolding time_lt
time_lt-After (naive a) (naive b) x e = (λ h. ground arith, λ h. ground arith)
time_lt-After (aware a) (aware b) x e = (λ h. ground arith, λ h. ground arith)
time_lt-After (naive a) (aware b) x e = absurd (cc)
time_lt-After (aware a) (naive b) x e = absurd (cc)

all_after-After :
    (first : DateTime) (rs : List (String × DateTime)) (x : Bool)
    → all_after first rs ≡ ok x
    → (x ≡ true) ↔ ((sha : String) (t : DateTime) → In (sha, t) rs → After first t)
unfolding all_after
all_after-After first [] x e = (λ _ sha t m. absurd m, λ _. sym (ok-injective e))
all_after-After first ((s, u) ∷ rs) x e =
    let m = >>=-eq-ok (time_lt first u) _ e in
    let l = time_lt-After first u m.0 m.1 in
    elim (Bool-cases m.0) [
      | inl q ↦
          let ih = all_after-After first rs x (rw q at m.2) in
          (
            λ h sha t. elim [
              | inl p ↦ subst (After first) (sym (ap (λ (z : String × DateTime). z.1) p)) (l.0 q)
              | inr k ↦ ih.0 h sha t k
            ],
            λ h. ih.1 (λ sha t k. h sha t (inr k)),
          )
      | inr q ↦ (
        λ h. absurd (true-ne-false h (sym (ok-injective (rw q at m.2)))),
        λ h. absurd (true-ne-false (l.1 (h s u (inl refl))) q),
      )
    ]

In-cited :
    (sha : String) (es : List EvidenceRef)
    → In sha (cited_commits es) ↔ ((note : String) × In (commit_ref sha note) es)
unfolding cited_commits
In-cited sha [] = (λ h. absurd h, λ h. absurd h.1)
In-cited sha (commit_ref s n ∷ es) = (
  elim [
    | inl p ↦ (n, inl (ap (λ z. commit_ref z n) p))
    | inr k ↦ let t = (In-cited sha es).0 k in (t.0, inr t.1)
  ],
  λ h. elim h.1 [ inl p ↦ inl (cc p) | inr k ↦ inr ((In-cited sha es).1 (h.0, k)) ],
)
In-cited sha (log_ref s n ∷ es) = (
  λ k. let t = (In-cited sha es).0 k in (t.0, inr t.1),
  λ h. elim h.1 [ inl p ↦ absurd (cc p) | inr k ↦ (In-cited sha es).1 (h.0, k) ],
)
In-cited sha (metric_ref s n ∷ es) = (
  λ k. let t = (In-cited sha es).0 k in (t.0, inr t.1),
  λ h. elim h.1 [ inl p ↦ absurd (cc p) | inr k ↦ (In-cited sha es).1 (h.0, k) ],
)

In-resolved :
    (index : CommitTimes) (sha : String) (t : DateTime) (shas : List String)
    → In (sha, t) (resolved_commits index shas)
      ↔ (In sha shas × (find_time (str_key sha) index ≡ some t))
unfolding resolved_commits
In-resolved index sha t [] = (λ h. absurd h, λ h. absurd h.0)
In-resolved index sha t (s ∷ shas) = elim (Option-cases (find_time (str_key s) index)) [
  | inl q ↦
      rw (q, In, resolved_commits)
        (
          λ k. let h = (In-resolved index sha t shas).0 k in (inr h.0, h.1),
          λ h. elim h.0 [
            | inl p ↦ absurd (cc (ap (λ z. find_time (str_key z) index) p, h.1, q))
            | inr k ↦ (In-resolved index sha t shas).1 (k, h.1)
          ],
        )
  | inr (u, q) ↦
      rw (q, In, resolved_commits)
        (
          elim [
            | inl p ↦ (
              inl (ap (λ (z : String × DateTime). z.0) p),
              ap (λ (z : String × DateTime). find_time (str_key z.0) index) p
                  ∙ q
                  ∙ ap (λ (z : String × DateTime). some z.1) (sym p),
            )
            | inr k ↦ let h = (In-resolved index sha t shas).0 k in (inr h.0, h.1)
          ],
          λ h. elim h.0 [
            | inl p ↦ inl (cc (p, ap (λ z. find_time (str_key z) index) p, h.1, q))
            | inr k ↦ inr ((In-resolved index sha t shas).1 (k, h.1))
          ],
        )
]

object_to_iff :
    (tc : TimeCodec) (first : DateTime) (rs : List (String × DateTime)) (o : Option String)
    → object_to tc first rs ≡ ok o
    → (is_some o ≡ true) ↔ (
        ((sha : String) × (t : DateTime) × In (sha, t) rs)
        × ((sha : String) (t : DateTime) → In (sha, t) rs → After first t))
object_to_iff tc first [] o e =
    (λ h. absurd (true-ne-false h (ap is_some (sym (ok-injective e)))), λ h. absurd h.0.2)
object_to_iff tc first ((s, u) ∷ rs) o e =
    let m = >>=-eq-ok (all_after first ((s, u) ∷ rs)) _ e in
    let l = all_after-After first ((s, u) ∷ rs) m.0 m.1 in
    elim (Bool-cases m.0) [
      | inl q ↦ (λ h. ((s, u, inl refl), l.0 q), λ h. ap is_some (sym (ok-injective (rw q at m.2))))
      | inr q ↦ (
        λ h. absurd (true-ne-false h (ap is_some (sym (ok-injective (rw q at m.2))))),
        λ h. absurd (true-ne-false (l.1 h.1) q),
      )
    ]

-- An objection that is reached is raised exactly if the ordering is impossible: some cited commit
-- is dated, and all that are dated come after the first error.
pub timing_objection_exact :
    (tc : TimeCodec) (hyp : Hypothesis) (first : DateTime) (index : CommitTimes) (o : Option String)
    → timing_objection tc hyp (some first) index ≡ ok o
    → (is_some o ≡ true) ↔ Impossible first index hyp
unfolding timing_objection
timing_objection_exact tc hyp first index o e =
    let cited = cited_commits hyp.evidence in
    let l = object_to_iff tc first (resolved_commits index cited) o e in
    let rs = resolved_commits index cited in
    let to : (sha : String) (t : DateTime) → In (sha, t) rs → CitesDated index hyp sha t =
      λ sha t m.
        let k = (In-resolved index sha t cited).0 m in ((In-cited sha hyp.evidence).0 k.0, k.1) in
    let from : (sha : String) (t : DateTime) → CitesDated index hyp sha t → In (sha, t) rs =
      λ sha t c. (In-resolved index sha t cited).1 ((In-cited sha hyp.evidence).1 c.0, c.1) in
    (
      λ h.
          let k = l.0 h in
          ((k.0.0, k.0.1, to k.0.0 k.0.1 k.0.2), λ sha t c. k.1 sha t (from sha t c)),
      λ h. l.1 ((h.0.0, h.0.1, from h.0.0 h.0.1 h.0.2), λ sha t m. h.1 sha t (to sha t m)),
    )

record Timed (tc : TimeCodec) (first : Option DateTime) (index : CommitTimes)
    (hyps : List Hypothesis) (j : Judged) : Type 0 where
  causes : map (λ v. v.cause) j.0 ≡ map (λ h. h.cause) hyps
  survivors : j.1 ≡ kept j.0 hyps
  dropped :
      (h : Hypothesis)
      → In h hyps
      → In h j.1 ⊎ ((t : String) × (timing_objection tc h first index ≡ ok (some t)))

verdict_cause : (h : Hypothesis) (o : Option String) → (timing_verdict h o).cause ≡ h.cause
verdict_cause h none = refl
verdict_cause h (some t) = refl

time_all-Timed :
    (tc : TimeCodec) (first : Option DateTime) (index : CommitTimes) (hyps : List Hypothesis)
    (j : Judged)
    → time_all tc first index hyps ≡ ok j
    → Timed tc first index hyps j
unfolding time_all
time_all-Timed tc first index [] j e =
    subst (Timed tc first index []) (ok-injective e)
      (record { causes = refl; survivors = refl; dropped = λ h m. absurd m })
time_all-Timed tc first index (h ∷ hs) j e =
    let o = >>=-eq-ok (timing_objection tc h first index) _ e in
    let m = >>=-eq-ok (time_all tc first index hs) _ o.2 in
    let ih = time_all-Timed tc first index hs m.0 m.1 in
    subst (Timed tc first index (h ∷ hs)) (ok-injective m.2) (step o.0 o.1 m.0 ih)
  where
    step :
        (o : Option String)
        → timing_objection tc h first index ≡ ok o
        → (j : Judged) → Timed tc first index hs j
        → Timed tc first index (h ∷ hs) (add_verdict h (timing_verdict h o) j)
    step none e j ih = record {
      causes = ap (λ l. h.cause ∷ l) ih.causes;
      survivors = ap (λ l. h ∷ l) ih.survivors;
      dropped = λ k. elim [
        | inl p ↦ inl (inl p)
        | inr q ↦ elim (ih.dropped k q) [ inl a ↦ inl (inr a) | inr b ↦ inr b ]
      ];
    }
    step (some t) e j ih = record {
      causes = ap (λ l. h.cause ∷ l) ih.causes;
      survivors = ih.survivors;
      dropped = λ k. elim [
        | inl p ↦ inr (t, ap (λ z. timing_objection tc z first index) p ∙ e)
        | inr q ↦ ih.dropped k q
      ];
    }

-- A timing-verified diagnosis of one that did not abstain: one verdict per hypothesis, in order;
-- what is left are the hypotheses whose verdict is supported; a hypothesis that is missing was
-- objected to; it abstains exactly if nothing is left, and it is coherent.
verify_timing_keeps :
    (tc : TimeCodec) (d : Diagnosis) (logs commits : List Row) (r : VerifierResult)
    → d.abstained ≡ false
    → verify_timing tc d logs commits ≡ ok r
    → (map (λ (v : HypothesisVerdict). v.cause) r.verdicts
        ≡ map (λ (h : Hypothesis). h.cause) d.hypotheses)
      × (r.diagnosis.hypotheses ≡ kept r.verdicts d.hypotheses)
      × ((first : Option DateTime) × (index : CommitTimes) × (first_error_ts tc logs ≡ ok first)
          × (commit_times tc commits ≡ ok index)
          × ((h : Hypothesis)
              → In h d.hypotheses
              → In h r.diagnosis.hypotheses
                ⊎ ((t : String) × (timing_objection tc h first index ≡ ok (some t)))))
      × (r.diagnosis.abstained ≡ is_empty r.diagnosis.hypotheses)
      × IsCoherent r.diagnosis
unfolding verify_timing
verify_timing_keeps tc d logs commits r a e =
    let f = >>=-eq-ok (first_error_ts tc logs) _ (rw (a, verify_timing) at e) in
    let x = >>=-eq-ok (commit_times tc commits) _ f.2 in
    let m = >>=-eq-ok (time_all tc f.0 x.0 d.hypotheses) _ x.2 in
    let s = time_all-Timed tc f.0 x.0 d.hypotheses m.0 m.1 in
    let c = conclude-Concluded timing_dropped_all d m.0 refl m.2 in
    (
      ap (map (λ (v : HypothesisVerdict). v.cause)) c.verdicts ∙ s.causes,
      c.hypotheses ∙ s.survivors ∙ ap (λ vs. kept vs d.hypotheses) (sym c.verdicts),
      (
        f.0,
        x.0,
        f.1,
        x.1,
        λ h i. elim (s.dropped h i) [
          | inl p ↦ inl (subst (In h) (sym c.hypotheses) p)
          | inr q ↦ inr q
        ],
      ),
      c.abstains ∙ ap is_empty (sym c.hypotheses),
      c.coherent,
    )
