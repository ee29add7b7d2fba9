-- ===== src/Agent/Verifier/Support.antt =====
-- What a verified diagnosis keeps, for the model's verdicts and for the timing verdicts alike.
use quellgeist.Base.{
  String, ◌≡◌, refl, sym, ap, ◌∙◌, subst, ◌⊎◌, inl, inr, true, false, ◌==◌, string_eq, Option, none,
  some, List, [], ◌∷◌, ◌++◌, is_some, arith, Bool-cases, Option-cases, if◌then◌else◌,
}
use quellgeist.Effects.{ok, >>=-eq-ok, ok-injective}
use quellgeist.Signals.{Value, Row, get, is_hashable, Key, key_eq}
use quellgeist.Agent.Schema.{Hypothesis, Diagnosis, abstention_invariant, is_empty}
use quellgeist.Agent.Schema.Validity.{IsCoherent}
use quellgeist.Agent.Citations.Exact.{Offers}
use quellgeist.Agent.Verifier.{
  HypothesisVerdict, VerifierResult, Index, entry, index_by, find_row, Judged, conclude,
}

-- The hypotheses whose verdict, at the same place, is `supported`.
abbrev pub kept : List HypothesisVerdict → List Hypothesis → List Hypothesis
kept [] hyps = []
kept (v ∷ vs) [] = []
kept (v ∷ vs) (h ∷ hs) = if v.supported then h ∷ kept vs hs else kept vs hs

-- A concluded result is a coherent diagnosis of the survivors, and abstains exactly if there are none.
pub record Concluded (j : Judged) (r : VerifierResult) : Type 0 where
  pub verdicts : r.verdicts ≡ j.0
  pub hypotheses : r.diagnosis.hypotheses ≡ j.1
  pub abstains : r.diagnosis.abstained ≡ is_empty j.1
  pub coherent : IsCoherent r.diagnosis

conclude_total :
    (reason : String) (d : Diagnosis) (j : Judged)
    → (reason == "") ≡ false
    → (r : VerifierResult) × (conclude reason d j ≡ ok r) × Concluded j r
unfolding conclude abstention_invariant
conclude_total reason d (verdicts, []) h = (
  record {
    diagnosis = record {
      summary = "";
      abstained = true;
      abstention_reason = some reason;
      hypotheses = [];
      suggested_actions = [];
    };
    verdicts = verdicts;
  },
  rw h,
  record {
    verdicts = refl;
    hypotheses = refl;
    abstains = refl;
    coherent = record { reasoned = λ _. rw h; silent = λ _. refl; caused = λ e. cc };
  },
)
conclude_total reason d (verdicts, s ∷ ss) h = (
  record {
    diagnosis = record {
      summary = d.summary;
      abstained = false;
      abstention_reason = none;
      hypotheses = s ∷ ss;
      suggested_actions = d.suggested_actions;
    };
    verdicts = verdicts;
  },
  refl,
  record {
    verdicts = refl;
    hypotheses = refl;
    abstains = refl;
    coherent = record { reasoned = λ e. cc; silent = λ e. cc; caused = λ _. refl };
  },
)

pub conclude-Concluded :
    (reason : String) (d : Diagnosis) (j : Judged) {r : VerifierResult}
    → (reason == "") ≡ false
    → conclude reason d j ≡ ok r
    → Concluded j r
conclude-Concluded reason d j h e =
    let t = conclude_total reason d j h in subst (Concluded j) (ok-injective (sym t.1 ∙ e)) t.2

-- A lookup that finds a row finds one that offers the key.
entry-Offers :
    (name : String) (k : Key) (row : Row) (o : Option Value) {ix : Index}
    → entry row o ≡ ok ix
    → is_some (find_row k ix) ≡ true
    → (v : Value) × (o ≡ some v) × (key_eq k v ≡ true)
unfolding entry find_row
entry-Offers name k row none e h = absurd (ground arith)
entry-Offers name k row (some v) e h = elim (Bool-cases (is_hashable v)) [
  | inl t ↦ (v, refl, ground arith)
  | inr t ↦ absurd (ground arith)
]

find_row-append :
    (k : Key) (xs ys : Index)
    → is_some (find_row k (xs ++ ys)) ≡ true
    → (is_some (find_row k xs) ≡ true) ⊎ (is_some (find_row k ys) ≡ true)
unfolding find_row
find_row-append k [] ys h = inr h
find_row-append k ((v, row) ∷ xs) ys h = elim (Option-cases (find_row k (xs ++ ys))) [
  | inl n ↦ elim (Bool-cases (key_eq k v)) [
    | inl t ↦ elim (Option-cases (find_row k xs)) [
      | inl m ↦ inl (rw (m, t))
      | inr (r, m) ↦ inl (rw m)
    ]
    | inr t ↦ absurd (ground arith)
  ]
  | inr (r, e) ↦ elim (find_row-append k xs ys (rw e)) [
    | inl m ↦ elim (Option-cases (find_row k xs)) [
      | inl z ↦ absurd (ground arith)
      | inr (r', z) ↦ inl (rw z)
    ]
    | inr m ↦ inr m
  ]
]

pub index_by-Offers :
    (name : String) (k : Key) (rows : List Row) (ix : Index)
    → index_by name rows ≡ ok ix
    → is_some (find_row k ix) ≡ true
    → Offers name rows k
unfolding index_by
index_by-Offers name k [] ix e h = absurd (unfold find_row in ground arith)
index_by-Offers name k (row ∷ rows) ix e h =
    let first = >>=-eq-ok (entry row (get name row)) _ e in
    let later = >>=-eq-ok (index_by name rows) _ first.2 in
    let split =
      find_row-append k first.0 later.0
        (ap (λ t. is_some (find_row k t)) (ok-injective later.2) ∙ h) in
    elim split [
      | inl l ↦ (row, inl refl, entry-Offers name k row (get name row) first.1 l)
      | inr m ↦ let t = index_by-Offers name k rows later.0 later.1 m in (t.0, inr t.1, t.2)
    ]
