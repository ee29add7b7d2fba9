-- ===== src/Service/Pool.antt =====
-- service/queue.py and `_recover_pending` of service/app.py: the bounded queue and what its workers run.
pub mod Recovery
pub mod Queue
use quellgeist.Base.{
  ℕ, suc, String, Bool, true, false, Option, none, some, List, [], ◌∷◌, ◌++◌, any, length, ltb,
  if◌then◌else◌,
}
use quellgeist.Effects.{Exn, Result, ok, raise, queue_full}
use quellgeist.Store.Models.{
  Status, status_beq, queued, running, pending_review, Outcome, completed, Incident, RunRecord,
}
use quellgeist.Store.World.{World, Action, pure, lift, connect, discard_snapshot, ◌>>=◌, ◌>>◌}
use quellgeist.Store.Dao.{get_incident, set_incident_status, incidents_by_status, list_runs}
use quellgeist.Orchestrator.Investigate.{InvestigationResult, investigate}
use quellgeist.Orchestrator.Review.{Config}

-- `put_nowait` on a queue of bounded size, oldest first.
unfoldable pub enqueue : ℕ → String → List String → Result (List String)
enqueue maxsize incident_id queue =
    if ltb (length queue) maxsize
    then ok (queue ++ incident_id ∷ [])
    else raise (queue_full "queue full")

unfoldable pub is_failed : Outcome → Bool
is_failed Outcome.failed = true
is_failed _ = false

-- The snapshot goes only when the persisted status is failed.
unfoldable pub reap_failed : Incident → Option Incident → Action (Unit {0})
reap_failed incident none = pure tt
reap_failed incident (some final) =
    if status_beq final.status Status.failed then discard_snapshot incident.signals_ref else pure tt

unfoldable pub finish : Incident → InvestigationResult → Action (Unit {0})
finish incident result =
    if is_failed result.run.outcome
    then (do connect; final ← get_incident incident.id; reap_failed incident final)
    else pure tt

unfoldable process : Config → Option Incident → Action (Unit {0})
process c none = pure tt
process c (some incident) = do
  result ←
      investigate c.setup incident.id incident.signals_ref c.provider c.model incident.hint
        c.verifier_provider (some incident.received_ts) c.max_steps
  finish incident result

unfoldable process_sync : Config → String → Action (Unit {0})
process_sync c incident_id = do connect; incident ← get_incident incident_id; process c incident

abbrev has_completed : List RunRecord → Bool
has_completed runs = any (λ r. completed r.outcome) runs

-- One incident of `_fetch`: a finished run only lacks its status, all else is to be run again.
unfoldable pub reconcile : Incident → Action (List String) → List RunRecord → Action (List String)
reconcile incident others runs =
    if has_completed runs
    then (do set_incident_status incident.id pending_review; others)
    else (do rest ← others; pure (incident.id ∷ rest))

unfoldable pub fetch_each : List Incident → Action (List String)
fetch_each [] = pure []
fetch_each (i ∷ is) = do runs ← list_runs i.id; reconcile i (fetch_each is) runs

unfoldable pub fetch : Action (List String)
fetch = do connect; stranded ← incidents_by_status (queued ∷ running ∷ []); fetch_each stranded

-- The loop over the fetched ids, which a full queue ends: the count, and the queue.
pub enqueue_each : ℕ → List String → List String → ℕ × List String
enqueue_each maxsize [] queue = (0, queue)
enqueue_each maxsize (id ∷ ids) queue = elim (enqueue maxsize id queue) [
  | ok longer ↦ let (n, final) = enqueue_each maxsize ids longer in (suc n, final)
  | raise e ↦ (0, queue)
]

unfoldable recover_pending : ℕ → List String → Action (ℕ × List String)
recover_pending maxsize queue = do ids ← fetch; pure (enqueue_each maxsize ids queue)
