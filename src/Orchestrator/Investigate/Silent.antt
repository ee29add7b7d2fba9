-- ===== src/Orchestrator/Investigate/Silent.antt =====
-- orchestrator/investigate.py: a run publishes nothing.
use quellgeist.Base.{
  ℕ, String, Option, none, some, List, [], ◌∷◌, ◌≡◌, refl, Bool-cases, inl, inr, ◌∙◌, suc, arith,
}
use quellgeist.Effects.{Exn, Result, ok, raise}
use quellgeist.Agent.Schema.{Diagnosis}
use quellgeist.Agent.Codec.{Codec}
use quellgeist.Agent.Providers.{CallUsage, Provider}
use quellgeist.Agent.Loop.{LoopResult}
use quellgeist.Store.Models.{Status, RunRecord, EvidenceRow}
use quellgeist.Store.World.{
  World, Action, pure, lift, attempt, transaction, now_ts, new_run_id, connect, discard_snapshot,
  ◌>>=◌, resume, except,
}
use quellgeist.Store.Dao.{
  set_incident_status, record_run, record_diagnosis, record_evidence, append_event, get_incident,
  set_review, list_runs, get_diagnosis,
}
use quellgeist.Orchestrator.Investigate.{
  Setup, persist_failed, conclude_run, fail_run, guard_run, investigate,
}

-- An action that leaves the publications alone, whatever its outcome.
unfoldable pub Silent : {A : Type 0} → Action A → Type 0
Silent m = (w : World) → (m w).1.published ≡ w.published

module _ {A B : Type 0} where
  pub Silent-bind :
      (m : Action A) (f : A → Action B) → Silent m → ((a : A) → Silent (f a)) → Silent (m >>= f)
  unfolding Silent ◌>>=◌
  Silent-bind m f hm hf w = after (m w).0 (m w).1 (hm w)
    where
      after :
          (r : Result A) (w' : World)
          → w'.published ≡ w.published
          → (resume r f w').1.published ≡ w.published
      after (ok a) w' e = hf a w' ∙ e
      after (raise x) w' e = e

  Silent-except :
      (r : Result A) (rest : A → Action B) (handler : Exn → Action B)
      → ((a : A) → Silent (rest a))
      → ((e : Exn) → Silent (handler e))
      → Silent (except r rest handler)
  unfolding except
  Silent-except (ok a) rest handler hr hh = hr a
  Silent-except (raise e) rest handler hr hh = hh e

module _ {A : Type 0} where
  pub pure-Silent : (a : A) → Silent (pure a)
  unfolding Silent
  pure-Silent a w = refl

  lift-Silent : (r : Result A) → Silent (lift r)
  unfolding Silent
  lift-Silent r w = refl

  Silent-attempt : (m : Action A) → Silent m → Silent (attempt m)
  unfolding Silent
  Silent-attempt m h w = h w

  Silent-transaction : (body : Action A) → Silent body → Silent (transaction body)
  unfolding Silent transaction
  Silent-transaction body h w = elim (Bool-cases (w.faults w.transactions)) [
    | inl e ↦ rw e refl
    | inr e ↦ rw e (h (record w { transactions = suc w.transactions }))
  ]

pub set_incident_status-Silent : (id : String) (s : Status) → Silent (set_incident_status id s)
unfolding set_incident_status Silent
set_incident_status-Silent id s = Silent-transaction _ λ w. refl

pub set_review-Silent : (run_id d : String) (s r : Option String) → Silent (set_review run_id d s r)
unfolding set_review Silent
set_review-Silent run_id d s r = Silent-transaction _ λ w. refl

pub get_incident-Silent : (id : String) → Silent (get_incident id)
unfolding get_incident Silent
get_incident-Silent id = Silent-transaction _ λ w. refl

list_runs-Silent : (id : String) → Silent (list_runs id)
unfolding list_runs Silent
list_runs-Silent id = Silent-transaction _ λ w. refl

get_diagnosis-Silent : (id : String) → Silent (get_diagnosis id)
unfolding get_diagnosis Silent
get_diagnosis-Silent id = Silent-transaction _ λ w. refl

pub connect-Silent : Silent connect
unfolding connect Silent
connect-Silent = Silent-transaction _ λ w. refl

record_run-Silent : (run : RunRecord) → Silent (record_run run)
unfolding record_run Silent
record_run-Silent run = Silent-transaction _ λ w. ground arith

record_diagnosis-Silent :
    (run_id s d : String) (v : Option String) → Silent (record_diagnosis run_id s d v)
unfolding record_diagnosis Silent
record_diagnosis-Silent run_id s d v = Silent-transaction _ λ w. ground arith

record_evidence-Silent : (rows : List EvidenceRow) → Silent (record_evidence rows)
unfolding record_evidence Silent
record_evidence-Silent [] = λ w. refl
record_evidence-Silent (r ∷ rs) = Silent-transaction _ λ w. refl

pub append_event-Silent : (i k : String) (d r : Option String) → Silent (append_event i k d r)
unfolding append_event Silent now_ts ◌>>=◌
append_event-Silent i k d r w = Silent-transaction _ (λ w'. refl) _

now_ts-Silent : Silent now_ts
unfolding now_ts Silent
now_ts-Silent w = refl

new_run_id-Silent : Silent new_run_id
unfolding new_run_id Silent
new_run_id-Silent w = refl

pub discard_snapshot-Silent : (dir : String) → Silent (discard_snapshot dir)
unfolding discard_snapshot Silent
discard_snapshot-Silent dir w = refl

persist_failed-Silent :
    (codec : Codec) (i r m t : String) (calls : List CallUsage) (d : Option Diagnosis) (e : String)
    → Silent (persist_failed codec i r m t calls d e)
unfolding persist_failed
persist_failed-Silent codec i r m t calls d e = Silent-bind _ _ now_ts-Silent λ ended.
    Silent-bind _ _ (Silent-attempt _ (record_run-Silent _)) λ _.
      Silent-bind _ _ (Silent-attempt _ (append_event-Silent _ _ _ _))
        λ _. Silent-bind _ _ (Silent-attempt _ (set_incident_status-Silent _ _)) λ _. pure-Silent _

fail_run-Silent :
    (s : Setup) (i r m t : String) (calls : List CallUsage) (d : Option Diagnosis) (e : Exn)
    → Silent (fail_run s i r m t calls d e)
unfolding fail_run
fail_run-Silent s i r m t calls d e =
    Silent-bind _ _ (persist_failed-Silent s.codec i r m t calls d _) λ run. pure-Silent _

conclude_run-Silent :
    (s : Setup) (i dir r m t : String) (v : Option Provider) (l : LoopResult)
    (calls : List CallUsage)
    → Silent (conclude_run s i dir r m t v l calls)
unfolding conclude_run
conclude_run-Silent s i dir r m t v l calls = Silent-bind _ _ (lift-Silent _) λ signals.
    Silent-bind _ _ (lift-Silent _) λ fabricated. Silent-bind _ _ now_ts-Silent λ ended.
      Silent-bind _ _ (record_run-Silent _) λ _.
        Silent-bind _ _ (record_diagnosis-Silent _ _ _ _) λ _.
          Silent-bind _ _ (record_evidence-Silent _) λ _.
            Silent-bind _ _ (append_event-Silent _ _ _ _)
              λ _. Silent-bind _ _ (set_incident_status-Silent _ _) λ _. pure-Silent _

guard_run-Silent :
    (s : Setup) (i dir r m t : String) (v : Option Provider) (l : Result LoopResult × Provider)
    → Silent (guard_run s i dir r m t v l)
unfolding guard_run
guard_run-Silent s i dir r m t v (raise e, p) = fail_run-Silent s i r m t _ none e
guard_run-Silent s i dir r m t v (ok l, p) =
    Silent-bind _ _ (Silent-attempt _ (conclude_run-Silent s i dir r m t v l _))
      λ done. Silent-except done _ _ pure-Silent (fail_run-Silent s i r m t _ (some l.diagnosis))

-- A run, whatever its outcome, publishes nothing.
pub investigate-Silent :
    (s : Setup) (i dir : String) (p : Provider) (m : String) (hint : Option String)
    (v : Option Provider) (now : Option String) (max_steps : ℕ)
    → Silent (investigate s i dir p m hint v now max_steps)
unfolding investigate
investigate-Silent s i dir p m hint v now max_steps = Silent-bind _ _ new_run_id-Silent λ run_id.
    Silent-bind _ _ now_ts-Silent λ started. Silent-bind _ _ connect-Silent λ _.
      Silent-bind _ _ (Silent-attempt _ (set_incident_status-Silent _ _)) λ begun.
        Silent-except begun _ _ (λ _. guard_run-Silent s i dir run_id m started v _)
          (fail_run-Silent s i run_id m started _ none)
