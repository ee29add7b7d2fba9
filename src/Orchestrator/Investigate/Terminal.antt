-- ===== src/Orchestrator/Investigate/Terminal.antt =====
-- orchestrator/investigate.py: a run always ends, and how it leaves the incident.
use quellgeist.Base.{
  ℕ, suc, String, false, ◌==◌, string_eq, Option, none, some, List, [], ◌∷◌, ◌≡◌, refl, sym, ap,
  ◌∙◌, ◌⊎◌, inl, inr, map, In, Bool-cases,
}
use quellgeist.Effects.{Exn, Result, ok, raise, Result-cases, message}
use quellgeist.Agent.Schema.{Diagnosis}
use quellgeist.Agent.Codec.{Codec}
use quellgeist.Agent.Providers.{CallUsage, Provider, calls_of}
use quellgeist.Agent.Loop.{LoopResult}
use quellgeist.Store.Models.{Status, pending_review, Outcome, Incident, RunRecord}
use quellgeist.Store.World.{
  World, Action, pure, attempt, transaction, now_ts, new_run_id, connect, ◌>>=◌, ◌>>◌, resume,
  except,
}
use quellgeist.Store.Dao.{set_incident_status, with_status}
use quellgeist.Orchestrator.Investigate.{
  Setup, InvestigationResult, persist_failed, conclude_run, fail_run, guard_run, investigate,
}

-- The run is stored as failed, or every incident with this id is pending review.
pub Ended : String → InvestigationResult → World → Type 0
Ended id result w =
    (result.run.outcome ≡ Outcome.failed)
    ⊎ ((i : Incident) → In i w.incidents → i.id ≡ id → i.status ≡ pending_review)

module _ {A : Type 0} (Q : A → World → Type 0) where
  -- The action returns, with the postcondition.
  Total : Action A → Type 0
  Total m = (w : World) → (a : A) × ((m w).0 ≡ ok a) × Q a (m w).1

  -- If the action returns, then with the postcondition.
  Ensures : Action A → Type 0
  Ensures m = (w : World) (a : A) → (m w).0 ≡ ok a → Q a (m w).1

module _ {A B : Type 0} (Q : B → World → Type 0) where
  Ensures-bind :
      (m : Action A) (f : A → Action B) → ((a : A) → Ensures Q (f a)) → Ensures Q (m >>= f)
  unfolding Ensures ◌>>=◌
  Ensures-bind m f h w b e = go (m w).0 (m w).1 e
    where
      go : (r : Result A) (w' : World) → (resume r f w').0 ≡ ok b → Q b (resume r f w').1
      go (ok a) w' e = h a w' b e
      go (raise x) w' e = absurd (cc)

  Total-bind :
      (m : Action A) (f : A → Action B)
      → ((w : World) → (a : A) × ((m w).0 ≡ ok a))
      → ((a : A) → Total Q (f a))
      → Total Q (m >>= f)
  unfolding Total ◌>>=◌
  Total-bind m f hm hf w = let (a, e) = hm w in rw e (hf a (m w).1)

attempt-returns :
    {A : Type 0} (m : Action A) (w : World) → (a : Result A) × ((attempt m w).0 ≡ ok a)
attempt-returns m w = ((m w).0, refl)

Failed : RunRecord → World → Type 0
Failed run w = run.outcome ≡ Outcome.failed

persist_failed-Total :
    (codec : Codec) (i r m t : String) (calls : List CallUsage) (d : Option Diagnosis) (e : String)
    → Total Failed (persist_failed codec i r m t calls d e)
unfolding persist_failed Total Failed now_ts ◌>>=◌
persist_failed-Total codec i r m t calls d e w = (_, refl, refl)

fail_run-Total :
    (s : Setup) (i r m t : String) (calls : List CallUsage) (d : Option Diagnosis) (e : Exn)
    → Total (Ended i) (fail_run s i r m t calls d e)
unfolding fail_run Total ◌>>=◌ Ended Failed
fail_run-Total s i r m t calls d e w =
    let (run, q, failed) = persist_failed-Total s.codec i r m t calls d (message e) w in
    rw q (_, refl, inl failed)

In-with_status :
    (id : String) (s : Status) (i : Incident) (xs : List Incident)
    → In i (map (with_status id s) xs)
    → i.id ≡ id
    → i.status ≡ s
In-with_status id s i [] h e = elim h [ ]
In-with_status id s i (x ∷ xs) (inr h) e = In-with_status id s i xs h e
In-with_status id s i (x ∷ xs) (inl q) e = elim (Bool-cases (x.id == id)) [
  | inl t ↦ ap (λ j. j.status) (rw t at q)
  | inr t ↦ absurd (cc ((string_eq.beq_iff x.id id).1 (sym (ap (λ j. j.id) (rw t at q)) ∙ e)))
]

settled :
    (id : String) (result : InvestigationResult)
    → Ensures (Ended id) (set_incident_status id pending_review >> pure result)
unfolding Ensures Ended set_incident_status transaction ◌>>=◌
settled id result w a e = elim (Bool-cases (w.faults w.transactions)) [
  | inl v ↦ absurd (cc (rw v at e))
  | inr v ↦ rw v (inr (λ i h. In-with_status id pending_review i w.incidents h))
]

conclude_run-Ensures :
    (s : Setup) (i dir r m t : String) (v : Option Provider) (l : LoopResult)
    (calls : List CallUsage)
    → Ensures (Ended i) (conclude_run s i dir r m t v l calls)
unfolding conclude_run
conclude_run-Ensures s i dir r m t v l calls = Ensures-bind _ _ _ λ signals.
    Ensures-bind _ _ _ λ fabricated. Ensures-bind _ _ _ λ ended.
      Ensures-bind _ _ _
        λ _. Ensures-bind _ _ _ λ _. Ensures-bind _ _ _ λ _. Ensures-bind _ _ _ λ _. settled i _

guard_run-Total :
    (s : Setup) (i dir r m t : String) (v : Option Provider) (l : Result LoopResult × Provider)
    → Total (Ended i) (guard_run s i dir r m t v l)
unfolding guard_run Total
guard_run-Total s i dir r m t v (raise e, p) w =
    unfold Total in fail_run-Total s i r m t (calls_of p) none e w
guard_run-Total s i dir r m t v (ok l, p) w =
    let body = conclude_run s i dir r m t v l (calls_of p) in
    unfold Total ◌>>=◌ except in
    elim (Result-cases (body w).0) [
      | inl (x, e) ↦
          rw e (unfold Total in fail_run-Total s i r m t _ (some l.diagnosis) x (body w).1)
      | inr (a, e) ↦
          rw e
            (a, refl, unfold Ensures in conclude_run-Ensures s i dir r m t v l (calls_of p) w a e)
    ]

-- Once the database has been reached, a run returns: nothing that the provider, the tools, the
-- verifier, the snapshot or a later transaction does makes it raise. It then reports a failed
-- run, or leaves the incident pending review.
pub investigate-Ended :
    (s : Setup) (id dir : String) (p : Provider) (m : String) (hint : Option String)
    (v : Option Provider) (now : Option String) (max_steps : ℕ) (w : World)
    → w.faults w.transactions ≡ false
    → (result : InvestigationResult) × ((investigate s id dir p m hint v now max_steps w).0
        ≡ ok result)
      × Ended id result (investigate s id dir p m hint v now max_steps w).1
unfolding investigate new_run_id now_ts connect transaction ◌>>=◌ Total except set_incident_status
investigate-Ended s id dir p m hint v now max_steps w reached =
    rw reached (elim (Bool-cases (w.faults (suc w.transactions))) [
      | inl x ↦ rw x (fail_run-Total s id _ m _ _ none _ _)
      | inr x ↦ rw x (guard_run-Total s id dir _ m _ v _ _)
    ])
