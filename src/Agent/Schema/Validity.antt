-- ===== src/Agent/Schema/Validity.antt =====
-- What a diagnosis that was built satisfies.
use quellgeist.Base.{
  ℕ, ℤ, pos, negsuc, lez, ◌≤◌, ◌^◌, ◌↔◌, ◌⊎◌, ◌∙◌, ◌&&◌, refl, sym, ap, subst, not, List, [], ◌∷◌,
  and_iff, true, false, ◌≡◌, all, all_iff, In, arith, Bool-cases, inl, inr,
}
use quellgeist.Effects.{ok}
use quellgeist.Signals.{Float, Number, finite, infinite, not_a_number}
use quellgeist.Agent.Schema.{
  EvidenceRef, in_range, Diagnosis, Hypothesis, is_empty, truthy, check_hypothesis,
  abstention_invariant, validate,
}

-- The contract of a built diagnosis.
pub record IsCoherent (d : Diagnosis) : Type 0 where
  pub reasoned : d.abstained ≡ true → truthy d.abstention_reason ≡ true
  pub silent : d.abstained ≡ true → is_empty d.hypotheses ≡ true
  pub caused : d.abstained ≡ false → is_empty d.hypotheses ≡ false

-- The model validator accepts exactly the coherent diagnoses, and returns them unchanged.
abstention_invariant-ok : (d e : Diagnosis) → abstention_invariant d ≡ ok e → (e ≡ d) × IsCoherent d
unfolding abstention_invariant
abstention_invariant-ok d e h =
    (ground arith, record { reasoned = ground arith; silent = ground arith; caused = ground arith })

abstention_invariant_accepts : (d : Diagnosis) → IsCoherent d → abstention_invariant d ≡ ok d
unfolding abstention_invariant
abstention_invariant_accepts d c = elim (Bool-cases d.abstained) [
  | inl a ↦ let r = c.reasoned a in let s = c.silent a in ground arith
  | inr a ↦ let s = c.caused a in ground arith
]

validate-parts :
    (d e : Diagnosis)
    → validate d ≡ ok e
    → (all check_hypothesis d.hypotheses ≡ true) × (abstention_invariant d ≡ ok e)
unfolding validate
validate-parts d e h = ground arith

-- The number lies between 0 and 1.
abbrev IsUnit : Float → Type 0
IsUnit f = (m : ℕ) × (f.mantissa ≡ pos m) × (m ≤ 2 ^ f.scale)

-- The confidence is NaN or lies between 0 and 1, and some handle is cited.
abbrev pub IsSound : Hypothesis → Type 0
IsSound h =
    ((h.confidence ≡ not_a_number) ⊎ ((f : Float) × (h.confidence ≡ finite f) × IsUnit f))
    × ((r : EvidenceRef) × In r h.evidence)

in_unit_iff :
    (z : ℤ) (scale : ℕ)
    → ((lez (pos 0) z && lez z (pos (2 ^ scale))) ≡ true)
      ↔ ((m : ℕ) × (z ≡ pos m) × (m ≤ 2 ^ scale))
unfolding lez
in_unit_iff (pos m) scale = (
  λ e. (m, refl, ground (arith, e)),
  λ (k, q, le). let same : m ≡ k = cc in ground (arith, same, le),
)
in_unit_iff (negsuc m) scale = (λ e. absurd (ground (arith, e)), λ (k, q, le). absurd (cc))

in_range_iff :
    (c : Number)
    → (in_range c ≡ true) ↔ ((c ≡ not_a_number) ⊎ ((f : Float) × (c ≡ finite f) × IsUnit f))
unfolding in_range
in_range_iff (finite f) =
    let unit = in_unit_iff f.mantissa f.scale in
    (
      λ e. inr (f, refl, unit.0 e),
      elim [
        | inl q ↦ absurd (cc)
        | inr (g, q, u) ↦ let same : f ≡ g = cc in unit.1 (subst IsUnit (sym same) u)
      ],
    )
in_range_iff infinite =
    (λ e. absurd (cc), elim [ inl q ↦ absurd (cc) | inr (g, q, u) ↦ absurd (cc) ])
in_range_iff not_a_number = (λ e. inl refl, λ _. refl)

nonempty_iff : (rs : List EvidenceRef) → (not (is_empty rs) ≡ true) ↔ ((r : EvidenceRef) × In r rs)
nonempty_iff [] = (λ e. absurd (cc), λ t. absurd t.1)
nonempty_iff (r ∷ rs) = (λ _. (r, inl refl), λ _. refl)

check_hypothesis_iff : (h : Hypothesis) → (check_hypothesis h ≡ true) ↔ IsSound h
unfolding check_hypothesis
check_hypothesis_iff h =
    let both = and_iff (in_range h.confidence) (not (is_empty h.evidence)) in
    let range = in_range_iff h.confidence in
    let some_ref = nonempty_iff h.evidence in
    (
      λ e. (range.0 (both.0 e).0, some_ref.0 (both.0 e).1),
      λ (c, r). both.1 (range.1 c, some_ref.1 r),
    )

-- Validation accepts a diagnosis exactly if it satisfies the abstention invariant, and each of its
-- hypotheses cites some evidence and has a confidence that is NaN or lies between 0 and 1. It returns
-- the diagnosis that it accepts unchanged.
pub validate-ok :
    (d e : Diagnosis)
    → (validate d ≡ ok e)
      ↔ ((e ≡ d) × IsCoherent d × ((h : Hypothesis) → In h d.hypotheses → IsSound h))
unfolding validate
validate-ok d e = (
  λ accepted.
      let p = validate-parts d e accepted in
      let k = abstention_invariant-ok d e p.1 in
      (
        k.0,
        k.1,
        λ h m. (check_hypothesis_iff h).0 ((all_iff check_hypothesis d.hypotheses).0 p.0 h m),
      ),
  λ (same, coherent, sound).
      rw ((all_iff check_hypothesis d.hypotheses).1 (λ h m. (check_hypothesis_iff h).1 (sound h m)))
        (abstention_invariant_accepts d coherent ∙ ap ok (sym same)),
)
