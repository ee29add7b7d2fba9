-- ===== src/Service/Endpoints/Shed.antt =====
-- service/app.py `POST /incidents` with a full queue.
use quellgeist.Base.{String, ◌≡◌, refl, sym, ap, ◌∙◌, inl, inr, true, Option, Bool-cases}
use quellgeist.Effects.{Result, ok, raise, http_exception, Result-cases}
use quellgeist.Store.World.{World}
use quellgeist.Service.Ingress.{Ingested, ingest_incident, rollback_ingest}
use quellgeist.Service.Ingress.Rollback.{rollback_ingest-restores, rollback_ingest-raises}
use quellgeist.Service.Pool.{enqueue}
use quellgeist.Service.Endpoints.{Webhook, State, shed, enqueued, settle, ingest_and_enqueue}

-- A delivery that is accepted and then turned away because the queue is full leaves the queue and the
-- table of incidents as they were, so that the client can deliver it again.
pub ingest_and_enqueue_shed :
    (s : Webhook) (id : String) (hint : Option String) (st : State) (a : Ingested)
    → (ingest_incident s.ingress id hint st.world).0 ≡ ok a
    → (ingest_and_enqueue s id hint st).0 ≡ raise (http_exception "server busy, retry later" 503)
    → ((ingest_and_enqueue s id hint st).1.queue ≡ st.queue)
      × ((ingest_and_enqueue s id hint st).1.world.incidents ≡ st.world.incidents)
unfolding ingest_and_enqueue settle enqueued
ingest_and_enqueue_shed s id hint st a ingested e = elim (Bool-cases a.should_enqueue) [
  | inr off ↦ absurd (cc (rw (ingested, settle, off) at e))
  | inl on ↦
      let w = (ingest_incident s.ingress id hint st.world).1 in
      elim (Result-cases (enqueue s.queue_maxsize id st.queue)) [
        | inr (longer, room) ↦ absurd (cc (rw (ingested, settle, on, enqueued, room) at e))
        | inl (x, full) ↦
            rw (ingested, settle, on, enqueued, full)
              (undone (rollback_ingest s.ingress id w) refl
                (rw (ingested, settle, on, enqueued, full) at e) on)
      ]
]
  where
    undone :
        (r : Result (Unit {0}) × World)
        → rollback_ingest s.ingress id (ingest_incident s.ingress id hint st.world).1 ≡ r
        → (shed r st.queue).0 ≡ raise (http_exception "server busy, retry later" 503)
        → a.should_enqueue ≡ true
        → ((shed r st.queue).1.queue ≡ st.queue)
          × ((shed r st.queue).1.world.incidents ≡ st.world.incidents)
    undone (ok u, v) p k on =
        unfold shed in
        (
          refl,
          ap (λ q. q.1.incidents) (sym p)
              ∙ rollback_ingest-restores s.ingress id hint st.world a ingested on (ap (λ q. q.0) p),
        )
    undone (raise x, v) p k on =
        unfold shed in
        absurd (
          rollback_ingest-raises s.ingress id (ingest_incident s.ingress id hint st.world).1 x
            (ap (λ q. q.0) p) (cc k))
