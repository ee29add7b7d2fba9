-- ===== src/Agent/Verifier/Grounded.antt =====
-- The verifier's result against its verdicts and against the signals of the incident.
use quellgeist.Base.{
  String, ◌≡◌, refl, sym, ap, ◌∙◌, subst, inl, inr, Bool, true, false, ◌||◌, string_eq, Option,
  List, [], ◌∷◌, map, any, any_iff, In, arith, Bool-cases,
}
use quellgeist.Effects.{Exn, Result, ok, raise, >>=-eq-ok, ok-injective, Result-cases}
use quellgeist.Signals.{Row, int_key, str_key}
use quellgeist.Agent.Schema.{
  EvidenceRef, log_ref, commit_ref, metric_ref, key, Hypothesis, Diagnosis, is_empty,
}
use quellgeist.Agent.Schema.Validity.{IsCoherent}
use quellgeist.Agent.Citations.{or_empty}
use quellgeist.Agent.Citations.Exact.{IsReal}
use quellgeist.Agent.Codec.{Codec}
use quellgeist.Agent.Providers.{Provider, complete}
use quellgeist.Agent.Verifier.{
  HypothesisVerdict, VerifierResult, Index, index_by, Indexes, found, resolve, resolve_evidence,
  read_verdict, verdict_for, judge, Judged, add_verdict, judge_all, dropped_all, build_indexes,
  verify_with, verify, prompt,
}
use quellgeist.Agent.Verifier.Support.{kept, Concluded, conclude-Concluded, index_by-Offers}

-- A supported verdict was given on evidence of which some part was found.
abbrev Grounded : Codec → Indexes → Hypothesis → Type 0
Grounded codec ix h = any found (resolve_evidence codec ix h) ≡ true

cause-read_verdict :
    (codec : Codec) (cause : String) (r : Result Row) → (read_verdict codec cause r).cause ≡ cause
unfolding read_verdict
cause-read_verdict codec cause (raise e) = refl
cause-read_verdict codec cause (ok obj) = ground arith

judge-ok :
    (codec : Codec) (ix : Indexes) (h : Hypothesis) (p : Provider) {v : HypothesisVerdict}
    → (judge codec ix h p).0 ≡ ok v
    → (v.cause ≡ h.cause) × (v.supported ≡ true → Grounded codec ix h)
unfolding judge verdict_for
judge-ok codec ix h p e = elim (Bool-cases (any found (resolve_evidence codec ix h))) [
  | inl t ↦
      let rows = resolve_evidence codec ix h in
      let m = >>=-eq-ok (complete p (prompt codec h rows)).0 _ (rw (t, judge) at e) in
      (ap (λ w. w.cause) (sym (ok-injective m.2)) ∙ cause-read_verdict codec h.cause _, λ _. t)
  | inr t ↦ (ground arith, ground arith)
]

-- The loop's verdicts name the causes in order, the survivors are the supported ones, and each
-- survivor is grounded.
record Sound (codec : Codec) (ix : Indexes) (hyps : List Hypothesis) (j : Judged) : Type 0 where
  causes : map (λ v. v.cause) j.0 ≡ map (λ h. h.cause) hyps
  survivors : j.1 ≡ kept j.0 hyps
  grounded : (h : Hypothesis) → In h j.1 → In h hyps × Grounded codec ix h

add_verdict-Sound :
    (codec : Codec) (ix : Indexes) (hyps : List Hypothesis) (h : Hypothesis) (v : HypothesisVerdict)
    (j : Judged)
    → v.cause ≡ h.cause
    → (v.supported ≡ true → Grounded codec ix h)
    → Sound codec ix hyps j
    → Sound codec ix (h ∷ hyps) (add_verdict h v j)
add_verdict-Sound codec ix hyps h v j c g s = elim (Bool-cases v.supported) [
  | inl t ↦ record {
    causes = cc (c, s.causes);
    survivors = rw t (ap (λ l. h ∷ l) s.survivors);
    grounded = rw t (λ k. elim [
      | inl e ↦ (inl e, subst (Grounded codec ix) (sym e) (g t))
      | inr m ↦ let q = s.grounded k m in (inr q.0, q.1)
    ]);
  }
  | inr t ↦ record {
    causes = cc (c, s.causes);
    survivors = rw t s.survivors;
    grounded = rw t (λ k m. let q = s.grounded k m in (inr q.0, q.1));
  }
]

judge_all-Sound :
    (codec : Codec) (ix : Indexes) (hyps : List Hypothesis) (p : Provider) (j : Judged)
    → (judge_all codec ix hyps p).0 ≡ ok j
    → Sound codec ix hyps j
unfolding judge_all
judge_all-Sound codec ix [] p j e =
    subst (Sound codec ix []) (ok-injective e)
      (record { causes = refl; survivors = refl; grounded = λ h m. absurd m })
judge_all-Sound codec ix (h ∷ hs) p j e = elim (Result-cases (judge codec ix h p).0) [
  | inl (x, q) ↦ absurd (clash (rw (q, judge_all) at e))
  | inr (v, q) ↦
      let w = judge-ok codec ix h p q in
      let m =
        >>=-eq-ok (judge_all codec ix hs (judge codec ix h p).1).0 _ (rw (q, judge_all) at e) in
      subst (Sound codec ix (h ∷ hs)) (ok-injective m.2)
        (add_verdict-Sound codec ix hs h v m.0 w.0 w.1 (judge_all-Sound codec ix hs _ m.0 m.1))
]
  where
    clash : {x : Exn} → ◌≡◌ {A = Result Judged} (raise x) (ok j) → ⊥
    clash k = cc

any-map :
    {A B : Type 0} (f : A → B) (p : B → Bool) (xs : List A)
    → any p (map f xs) ≡ any (λ x. p (f x)) xs
unfolding any
any-map f p [] = refl
any-map f p (x ∷ xs) = ap (λ t. p (f x) || t) (any-map f p xs)

module _ (logs commits : List Row) (metrics : Option (List Row)) {ix : Indexes}
    (built : build_indexes logs commits metrics ≡ ok ix) (codec : Codec) where
  resolve-IsReal :
      (r : EvidenceRef) → found (resolve codec ix r) ≡ true → IsReal logs commits metrics (key r)
  unfolding build_indexes resolve key
  resolve-IsReal r h =
      let a = >>=-eq-ok (index_by "id" logs) _ built in
      let b = >>=-eq-ok (index_by "sha" commits) _ a.2 in
      let c = >>=-eq-ok (index_by "metric" (or_empty metrics)) _ b.2 in
      let e = ok-injective c.2 in
      go r (subst (λ i. found (resolve codec i r) ≡ true) (sym e) h) a.1 b.1 c.1
    where
      go :
          (r : EvidenceRef) {x y z : Index}
          → found
              (resolve codec (record { logs_by_id = x; commits_by_sha = y; metrics_by_id = z }) r)
            ≡ true
          → index_by "id" logs ≡ ok x
          → index_by "sha" commits ≡ ok y
          → index_by "metric" (or_empty metrics) ≡ ok z
          → IsReal logs commits metrics (key r)
      go (log_ref i n) f a b c = index_by-Offers "id" (int_key i) logs _ a f
      go (commit_ref i n) f a b c = index_by-Offers "sha" (str_key i) commits _ b f
      go (metric_ref i n) f a b c = index_by-Offers "metric" (str_key i) (or_empty metrics) _ c f

  Grounded-IsReal :
      (h : Hypothesis)
      → Grounded codec ix h
      → (r : EvidenceRef) × In r h.evidence × IsReal logs commits metrics (key r)
  unfolding resolve_evidence
  Grounded-IsReal h g =
      let t = (any_iff _ h.evidence).0 (sym (any-map (resolve codec ix) found h.evidence) ∙ g) in
      (t.0, t.1, resolve-IsReal t.0 t.2)

-- The intermediate results of a verification that did not pass an abstention through.
verify-Judged :
    (codec : Codec) (d : Diagnosis) (logs commits : List Row) (metrics : Option (List Row))
    (p : Provider) (r : VerifierResult)
    → d.abstained ≡ false
    → (verify codec d logs commits metrics p).0 ≡ ok r
    → (ix : Indexes) × (build_indexes logs commits metrics ≡ ok ix)
      × (j : Judged) × Concluded j r
      × Sound codec ix d.hypotheses j
unfolding verify verify_with
verify-Judged codec d logs commits metrics p r a e =
    elim (Result-cases (build_indexes logs commits metrics)) [
      | inl (x, q) ↦ absurd (clash (rw (a, q, verify, verify_with) at e))
      | inr (ix, q) ↦
          let m =
            >>=-eq-ok (judge_all codec ix d.hypotheses p).0 _
              (rw (a, q, verify, verify_with) at e) in
          (
            ix,
            q,
            m.0,
            conclude-Concluded dropped_all d m.0 refl m.2,
            judge_all-Sound codec ix d.hypotheses p m.0 m.1,
          )
    ]
  where
    clash : {x : Exn} → ◌≡◌ {A = Result VerifierResult} (raise x) (ok r) → ⊥
    clash k = cc

-- A verified diagnosis of a diagnosis that did not abstain: there is one verdict per hypothesis, in
-- order; the hypotheses that are left are those with a supported verdict; it abstains exactly if none
-- is left; and it is coherent.
pub verify_keeps :
    (codec : Codec) (d : Diagnosis) (logs commits : List Row) (metrics : Option (List Row))
    (p : Provider) (r : VerifierResult)
    → d.abstained ≡ false
    → (verify codec d logs commits metrics p).0 ≡ ok r
    → (map (λ (v : HypothesisVerdict). v.cause) r.verdicts
        ≡ map (λ (h : Hypothesis). h.cause) d.hypotheses)
      × (r.diagnosis.hypotheses ≡ kept r.verdicts d.hypotheses)
      × (r.diagnosis.abstained ≡ is_empty r.diagnosis.hypotheses)
      × IsCoherent r.diagnosis
verify_keeps codec d logs commits metrics p r a e =
    let o = verify-Judged codec d logs commits metrics p r a e in
    let c = o.3 in
    let s = o.4 in
    (
      ap (map (λ (v : HypothesisVerdict). v.cause)) c.verdicts ∙ s.causes,
      c.hypotheses ∙ s.survivors ∙ ap (λ vs. kept vs d.hypotheses) (sym c.verdicts),
      c.abstains ∙ ap is_empty (sym c.hypotheses),
      c.coherent,
    )

-- What survives verification was proposed, and cites at least one real signal of the incident.
pub verify_grounded :
    (codec : Codec) (d : Diagnosis) (logs commits : List Row) (metrics : Option (List Row))
    (p : Provider) (r : VerifierResult) (h : Hypothesis)
    → d.abstained ≡ false
    → (verify codec d logs commits metrics p).0 ≡ ok r
    → In h r.diagnosis.hypotheses
    → In h d.hypotheses
      × ((ref : EvidenceRef) × In ref h.evidence × IsReal logs commits metrics (key ref))
verify_grounded codec d logs commits metrics p r h a e m =
    let o = verify-Judged codec d logs commits metrics p r a e in
    let c = o.3 in
    let s = o.4 in
    let g = s.grounded h (subst (In h) c.hypotheses m) in
    (g.0, Grounded-IsReal logs commits metrics o.1 codec h g.1)
