-- ===== src/Evals/Judge/Exact.antt =====
-- evals/judge.py: what a passed judgement means, in terms of the references and not of sets.
use quellgeist.Base.{
  String, ◌≡◌, refl, sym, ap, ◌∙◌, subst, ◌↔◌, inl, inr, Bool, true, false, not, ◌&&◌, and_iff,
  if◌then◌else◌, some, List, [], ◌∷◌, map, flat_map, any, all, any_iff, all_iff, In, contains,
  contains_iff, string_eq, int_eq, Bool-cases,
}
use quellgeist.Signals.{int_key, str_key}
use quellgeist.Agent.Schema.{
  log, commit, metric, kind_beq, EvidenceRef, commit_ref, log_ref, metric_ref, Handle, key,
  Hypothesis, Diagnosis, is_empty,
}
use quellgeist.Agent.Schema.Validity.{IsCoherent}
use quellgeist.Agent.Citations.{handle_same}
use quellgeist.Agent.Citations.Exact.{Cites, In-map_iff, cited_iff, handle_same-eq}
use quellgeist.Evals.Judge.{
  Scenario, JudgeResult, judge, judge_top, commit_shas, shas_within, handles_within, pins_cause,
  matches_evidence, verdict_reason,
}

-- Some reference of the list is to the commit.
abbrev NamesCommit : List EvidenceRef → String → Type 0
NamesCommit rs sha = (r : EvidenceRef) × In r rs × (key r ≡ (commit, str_key sha))

-- The hypothesis cites every commit of the gold evidence, of which there is one.
abbrev Pins : Hypothesis → Scenario → Type 0
Pins top s =
    ((sha : String) × NamesCommit s.gold_evidence_refs sha)
    × ((sha : String) → NamesCommit s.gold_evidence_refs sha → NamesCommit top.evidence sha)

-- Some hypothesis or other cites each reference of the gold evidence.
abbrev Covers : Diagnosis → Scenario → Type 0
Covers d s = (r : EvidenceRef) → In r s.gold_evidence_refs → Cites d (key r)

key_shown :
    (a : String) (r : EvidenceRef) (x n : String)
    → r ≡ commit_ref x n
    → key r ≡ (commit, str_key a)
    → a ≡ x
unfolding key
key_shown a r x n q k =
    let e : str_key x ≡ str_key a = ap (λ (h : Handle). h.1) (ap key (sym q) ∙ k) in cc

not_log :
    (a : String) (r r' : EvidenceRef)
    → r ≡ r'
    → key r ≡ (commit, str_key a)
    → key r' ≡ (commit, str_key a)
not_log a r r' q k = ap key (sym q) ∙ k

commit_shas_iff :
    (sha : String) (rs : List EvidenceRef) → In sha (commit_shas rs) ↔ NamesCommit rs sha
unfolding commit_shas key
commit_shas_iff sha [] = (λ k. absurd k, λ k. absurd k.1)
commit_shas_iff sha (commit_ref x n ∷ rs) = (
  elim [
    | inl e ↦ (commit_ref x n, inl refl, ap (λ a. (commit, str_key a)) (sym e))
    | inr m ↦ let t = (commit_shas_iff sha rs).0 m in (t.0, inr t.1, t.2)
  ],
  λ t. elim t.1 [
    | inl q ↦ inl (key_shown sha t.0 x n q t.2)
    | inr m ↦ inr ((commit_shas_iff sha rs).1 (t.0, m, t.2))
  ],
)
commit_shas_iff sha (log_ref x n ∷ rs) = (
  λ m. let t = (commit_shas_iff sha rs).0 m in (t.0, inr t.1, t.2),
  λ t. elim t.1 [
    | inl q ↦ let e = not_log sha t.0 (log_ref x n) q t.2 in absurd (cc)
    | inr m ↦ (commit_shas_iff sha rs).1 (t.0, m, t.2)
  ],
)
commit_shas_iff sha (metric_ref x n ∷ rs) = (
  λ m. let t = (commit_shas_iff sha rs).0 m in (t.0, inr t.1, t.2),
  λ t. elim t.1 [
    | inl q ↦ let e = not_log sha t.0 (metric_ref x n) q t.2 in absurd (cc)
    | inr m ↦ (commit_shas_iff sha rs).1 (t.0, m, t.2)
  ],
)

handle_same_refl : (h : Handle) → handle_same h h ≡ true
unfolding handle_same kind_beq
handle_same_refl (log, int_key a) = (int_eq.beq_iff a a).1 refl
handle_same_refl (log, str_key a) = (string_eq.beq_iff a a).1 refl
handle_same_refl (commit, int_key a) = (int_eq.beq_iff a a).1 refl
handle_same_refl (commit, str_key a) = (string_eq.beq_iff a a).1 refl
handle_same_refl (metric, int_key a) = (int_eq.beq_iff a a).1 refl
handle_same_refl (metric, str_key a) = (string_eq.beq_iff a a).1 refl

handles_within_iff :
    (xs ys : List Handle) → (handles_within xs ys ≡ true) ↔ ((h : Handle) → In h xs → In h ys)
unfolding handles_within
handles_within_iff xs ys = (
  λ e h m.
      let t = (any_iff (handle_same h) ys).0 ((all_iff (λ x. any (handle_same x) ys) xs).0 e h m) in
      subst (λ a. In a ys) (sym (handle_same-eq h t.0 t.2)) t.1,
  λ f.
      (all_iff (λ x. any (handle_same x) ys) xs).1
        (λ h m. (any_iff (handle_same h) ys).1 (h, f h m, handle_same_refl h)),
)

matches_evidence_iff : (d : Diagnosis) (s : Scenario) → (matches_evidence d s ≡ true) ↔ Covers d s
unfolding matches_evidence
matches_evidence_iff d s =
    let cited = flat_map (λ (p : Hypothesis). map key p.evidence) d.hypotheses in
    let within = handles_within_iff (map key s.gold_evidence_refs) cited in
    (
      λ e r m.
          (cited_iff (key r) d.hypotheses).0
            (within.0 e (key r) ((In-map_iff (key r) s.gold_evidence_refs).1 (r, m, refl))),
      λ f. within.1 (λ h m.
          let t = (In-map_iff h s.gold_evidence_refs).0 m in
          subst (λ a. In a cited) (sym t.2) ((cited_iff (key t.0) d.hypotheses).1 (f t.0 t.1))),
    )

some_member : (xs : List String) → (not (is_empty xs) ≡ true) ↔ ((x : String) × In x xs)
some_member [] = (λ e. absurd (cc), λ t. absurd t.1)
some_member (x ∷ xs) = (λ e. (x, inl refl), λ t. refl)

pins_cause_iff : (top : Hypothesis) (s : Scenario) → (pins_cause top s ≡ true) ↔ Pins top s
unfolding pins_cause shas_within
pins_cause_iff top s =
    let gold = commit_shas s.gold_evidence_refs in
    let shown = commit_shas top.evidence in
    let both = and_iff (not (is_empty gold)) (all (contains shown) gold) in
    (
      λ e.
          let one = (some_member gold).0 (both.0 e).0 in
          (
            (one.0, (commit_shas_iff one.0 s.gold_evidence_refs).0 one.1),
            λ sha g. (commit_shas_iff sha top.evidence).0 (
                (contains_iff shown sha).0 (
                  (all_iff (contains shown) gold).0 (both.0 e).1 sha
                    ((commit_shas_iff sha s.gold_evidence_refs).1 g))),
          ),
      λ p. both.1 (
        (some_member gold).1 (p.0.0, (commit_shas_iff p.0.0 s.gold_evidence_refs).1 p.0.1),
        (all_iff (contains shown) gold).1 (λ sha m. (contains_iff shown sha).1 (
            (commit_shas_iff sha top.evidence).1
              (p.1 sha ((commit_shas_iff sha s.gold_evidence_refs).0 m)))),
      ),
    )

-- The diagnosis names a cause, its first hypothesis pins the gold commits, and it covers the gold.
abbrev pub Deserved : Diagnosis → Scenario → Type 0
Deserved d s =
    (d.abstained ≡ false)
    × ((top : Hypothesis) × (rest : List Hypothesis) × (d.hypotheses ≡ top ∷ rest) × Pins top s)
    × Covers d s

-- The judgement that `judge_top` gives when `top` is the first hypothesis.
top_result : Diagnosis → Scenario → Hypothesis → JudgeResult
top_result d s top = record {
  passed = pins_cause top s && matches_evidence d s;
  correct_cause = pins_cause top s;
  evidence_matches = matches_evidence d s;
  reason = verdict_reason (pins_cause top s) (matches_evidence d s);
}

judge_top-result :
    (d : Diagnosis) (s : Scenario) (top : Hypothesis) (rest : List Hypothesis)
    → d.hypotheses ≡ top ∷ rest
    → judge_top d s ≡ some (top_result d s top)
unfolding judge_top top_result
judge_top-result d s top rest q = rw q refl

else_branch : {A : Type 0} (b : Bool) (x y : A) → b ≡ false → (if b then x else y) ≡ y
else_branch true x y e = absurd (cc)
else_branch false x y e = refl

nonempty :
    (hs : List Hypothesis)
    → is_empty hs ≡ false
    → (top : Hypothesis) × (rest : List Hypothesis) × (hs ≡ top ∷ rest)
nonempty [] e = absurd (cc)
nonempty (h ∷ hs) e = (h, hs, refl)

same_top :
    (d : Diagnosis) (s : Scenario) (top : Hypothesis) (rest : List Hypothesis)
    → d.hypotheses ≡ top ∷ rest
    → ((t : Hypothesis) × (ts : List Hypothesis) × (d.hypotheses ≡ t ∷ ts) × Pins t s)
    → Pins top s
same_top d s top rest q (t, ts, q', p) =
    let e : t ∷ ts ≡ top ∷ rest = sym q' ∙ q in subst (λ h. Pins h s) {x = t} {y = top} (cc) p

-- For a diagnosis that satisfies the abstention invariant the judge gives a result. It has passed
-- exactly if the diagnosis does not abstain, its first hypothesis cites every commit of the gold
-- evidence, of which there is one at least, and some hypothesis cites each reference of it.
pub judge_exact :
    (d : Diagnosis) (s : Scenario)
    → IsCoherent d
    → (r : JudgeResult) × (judge d s ≡ some r) × ((r.passed ≡ true) ↔ Deserved d s)
unfolding judge top_result
judge_exact d s coherent = elim (Bool-cases d.abstained) [
  | inl a ↦ rw a (_, refl, (λ e. absurd (cc), λ k. absurd (cc (k.0))))
  | inr a ↦
      let (top, rest, q) = nonempty d.hypotheses (coherent.caused a) in
      let both = and_iff (pins_cause top s) (matches_evidence d s) in
      let pins = pins_cause_iff top s in
      let covers = matches_evidence_iff d s in
      (
        top_result d s top,
        else_branch d.abstained _ (judge_top d s) a ∙ judge_top-result d s top rest q,
        (
          λ e. (a, (top, rest, q, pins.0 (both.0 e).0), covers.0 (both.0 e).1),
          λ k. both.1 (pins.1 (same_top d s top rest q k.1), covers.1 k.2),
        ),
      )
]
