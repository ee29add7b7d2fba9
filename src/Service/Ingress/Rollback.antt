-- ===== src/Service/Ingress/Rollback.antt =====
-- service/app.py `_rollback_ingest`: undoing a claim when the queue is full.
use quellgeist.Base.{
  suc, String, true, not, ◌&&◌, ◌==◌, string_eq, Option, none, ◌≡◌, ◌≢◌, refl, sym, ap, ◌∙◌, inl,
  inr, keep, any, Bool-cases, Option-cases,
}
use quellgeist.Effects.{Exn, raise, http_exception, ok, ok-injective}
use quellgeist.Store.World.{World, connect, transaction, discard_snapshot, ◌>>=◌}
use quellgeist.Store.Dao.{delete_incident, has_incident, find_incident}
use quellgeist.Service.Ingress.{Ingress, Ingested, ingest_incident, rollback_ingest}
use quellgeist.Service.Ingress.Claims.{
  Claimed, keep-added, ingest_incident-Claimed, ingest_duplicate,
}

rollback_ingest-keep :
    (c : Ingress) (id : String) (w : World)
    → (rollback_ingest c id w).0 ≡ ok tt
    → (rollback_ingest c id w).1.incidents ≡ keep (λ j. not (j.id == id)) w.incidents
unfolding rollback_ingest connect transaction delete_incident discard_snapshot has_incident ◌>>=◌
rollback_ingest-keep c id w e = elim (Bool-cases (w.faults w.transactions)) [
  | inl v ↦ absurd (cc (rw v at e))
  | inr v ↦ elim (Bool-cases (w.faults (suc w.transactions))) [
    | inl x ↦ absurd (cc (rw (v, x) at e))
    | inr x ↦ elim (Bool-cases (has_incident id w && any (λ r. r.incident_id == id) w.runs)) [
      | inl u ↦ absurd (cc (rw (v, x, u) at e))
      | inr u ↦ rw (v, x, u) refl
    ]
  ]
]

-- An answer that asks to enqueue was given to an id that was not stored.
enqueued-fresh :
    (c : Ingress) (id : String) (hint : Option String) (w : World) (a : Ingested)
    → (ingest_incident c id hint w).0 ≡ ok a
    → a.should_enqueue ≡ true
    → find_incident id w ≡ none
enqueued-fresh c id hint w a e enqueue = elim (Option-cases (find_incident id w)) [
  | inl free ↦ free
  | inr (i, found) ↦ absurd (elim (ingest_duplicate c id hint w i found).0 [
    | inl known ↦ cc (ap (λ b. b.should_enqueue) (ok-injective (sym known ∙ e)), enqueue)
    | inr locked ↦ cc (sym locked ∙ e)
  ])
]

-- A delivery that was accepted and then rolled back, as when the queue is full, leaves the incidents
-- as they were before the delivery, so that a later delivery of the same id is a first one again.
pub rollback_ingest-restores :
    (c : Ingress) (id : String) (hint : Option String) (w : World) (a : Ingested)
    → (ingest_incident c id hint w).0 ≡ ok a
    → a.should_enqueue ≡ true
    → (rollback_ingest c id (ingest_incident c id hint w).1).0 ≡ ok tt
    → (rollback_ingest c id (ingest_incident c id hint w).1).1.incidents ≡ w.incidents
unfolding Claimed find_incident
rollback_ingest-restores c id hint w a e enqueue undone =
    rollback_ingest-keep c id (ingest_incident c id hint w).1 undone
    ∙ elim (ingest_incident-Claimed c id hint w a e) [
      | inl (_, i, is_id, _, grown, _) ↦
          ap (keep (λ j. not (j.id == id))) grown
          ∙ keep-added id w.incidents i is_id (enqueued-fresh c id hint w a e enqueue)
      | inr (refused, _) ↦ absurd (cc (refused, enqueue))
    ]

-- A rollback that raises does not raise the answer for a full queue.
pub rollback_ingest-raises :
    (c : Ingress) (id : String) (w : World) (x : Exn)
    → (rollback_ingest c id w).0 ≡ raise x
    → x ≢ http_exception "server busy, retry later" 503
unfolding rollback_ingest connect transaction delete_incident discard_snapshot has_incident ◌>>=◌
rollback_ingest-raises c id w x e same = elim (Bool-cases (w.faults w.transactions)) [
  | inl v ↦ absurd (cc (rw v at e, same))
  | inr v ↦ elim (Bool-cases (w.faults (suc w.transactions))) [
    | inl y ↦ absurd (cc (rw (v, y) at e, same))
    | inr y ↦ elim (Bool-cases (has_incident id w && any (λ r. r.incident_id == id) w.runs)) [
      | inl u ↦ absurd (cc (rw (v, y, u) at e, same))
      | inr u ↦ absurd (cc (rw (v, y, u) at e))
    ]
  ]
]
