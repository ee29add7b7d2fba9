-- ===== src/Tests/Service.antt =====
-- Tests of the service's theorems.
use quellgeist.Base.{
  ◌++◌, ◌+◌, take, arith, ℕ, ◌≤◌, String, ◌≡◌, refl, ◌↔◌, ◌⊎◌, inl, inr, Option, none, some, List,
  [], ◌∷◌, In, any, length, false, true,
}
use quellgeist.Effects.{Exn, ok, raise, operational_error}
use quellgeist.Store.Models.{Incident, queued, running, pending_review, completed}
use quellgeist.Store.World.{World}
use quellgeist.Store.Dao.{runs_of}
use quellgeist.Store.Dao.Registry.{delete, execute, Refines, execute-Refines}
use quellgeist.Service.Ingress.{Ingested, answer, ingest_incident, rollback_ingest}
use quellgeist.Service.Ingress.Claims.{Claimed, ingest_incident-Claimed, ingest_duplicate}
use quellgeist.Service.Ingress.Rollback.{rollback_ingest-restores}
use quellgeist.Service.Pool.{fetch, enqueue_each}
use quellgeist.Service.Pool.Queue.{enqueue_each-prefix}
use quellgeist.Service.Pool.Recovery.{fetch-Unfinished}
use quellgeist.Service.Requests.{read_capped_body}
use quellgeist.Service.Requests.Bounds.{joined, read_capped_body_iff}
use quellgeist.Signals.{Row, get, str, dict, empty, field}
use quellgeist.Service.Endpoints.{
  Decoded, decoded, malformed, Request, Webhook, State, matches_id, ingest_and_enqueue,
  create_incident_ep,
}
use quellgeist.Service.Endpoints.Admission.{
  IsSigned, IsHint, Settled, create_incident_ep_guarded, ingest_and_enqueue-Settled,
}
use quellgeist.Service.Endpoints.Shed.{ingest_and_enqueue_shed}
use quellgeist.Service.Operator.{
  Console, get_incident_page, get_incident_status, post_review, post_verify_resolution,
}
use quellgeist.Service.Operator.Closed.{operator_endpoints_closed}
use quellgeist.Tests.Samples.{world, ingress, pending, config, setup}

ingest_incident-Claimed_example :
    Claimed ingress "third" world.incidents
      (answer 202 (some queued) true)
      (ingest_incident ingress "third" none world).1
unfolding ingest_incident quellgeist.Store.World.◌>>=◌ quellgeist.Store.World.connect
    quellgeist.Store.World.transaction quellgeist.Store.Dao.get_incident
    quellgeist.Service.Ingress.ingest_new quellgeist.Store.Dao.find_incident
    quellgeist.Base.find_first quellgeist.Store.World.now_ts quellgeist.Service.Ingress.claimed
    quellgeist.Store.Dao.create_incident quellgeist.Store.Dao.has_incident any
    quellgeist.Service.Ingress.snapshotted quellgeist.Service.Ingress.snapshot_signals
    quellgeist.Store.Dao.append_event
ingest_incident-Claimed_example =
    ingest_incident-Claimed ingress "third" none world (answer 202 (some queued) true) refl

ingest_duplicate_example :
    (((ingest_incident ingress "inc" none world).0 ≡ ok (answer 200 (some pending_review) false))
      ⊎ ((ingest_incident ingress "inc" none world).0
          ≡ raise (operational_error "database is locked")))
    × ((n : ℕ) × ((ingest_incident ingress "inc" none world).1 ≡ record world { transactions = n }))
unfolding quellgeist.Store.Dao.find_incident quellgeist.Base.find_first
ingest_duplicate_example = ingest_duplicate ingress "inc" none world pending refl

fetch-Unfinished_example :
    (i : Incident) × In i world.incidents
    × (i.id ≡ "new")
    × ((i.status ≡ queued) ⊎ (i.status ≡ running))
    × (any (λ r. completed r.outcome) (runs_of i.id world) ≡ false)
unfolding fetch quellgeist.Store.World.◌>>=◌ quellgeist.Store.World.connect
    quellgeist.Store.World.transaction quellgeist.Store.Dao.incidents_by_status
    quellgeist.Service.Pool.fetch_each quellgeist.Base.order_by quellgeist.Base.keep any
    quellgeist.Store.Models.status_beq quellgeist.Store.Dao.list_runs
    quellgeist.Service.Pool.reconcile runs_of
fetch-Unfinished_example = fetch-Unfinished world ("new" ∷ []) "new" refl (inl refl)

abbrev bytes : List ℕ
bytes = 1 ∷ 2 ∷ 3 ∷ []

read_capped_body_iff_example :
    (read_capped_body 3 ((1 ∷ 2 ∷ []) ∷ (3 ∷ []) ∷ []) ≡ ok bytes)
    ↔ ((bytes ≡ joined ((1 ∷ 2 ∷ []) ∷ (3 ∷ []) ∷ [])) × (length bytes ≤ 3))
read_capped_body_iff_example = read_capped_body_iff 3 ((1 ∷ 2 ∷ []) ∷ (3 ∷ []) ∷ []) bytes

rollback_ingest-restores_example :
    (rollback_ingest ingress "third" (ingest_incident ingress "third" none world).1).1.incidents
    ≡ world.incidents
unfolding ingest_incident quellgeist.Store.World.◌>>=◌ quellgeist.Store.World.connect
    quellgeist.Store.World.transaction quellgeist.Store.Dao.get_incident
    quellgeist.Service.Ingress.ingest_new quellgeist.Store.Dao.find_incident
    quellgeist.Base.find_first quellgeist.Store.World.now_ts quellgeist.Service.Ingress.claimed
    quellgeist.Store.Dao.create_incident quellgeist.Store.Dao.has_incident any
    quellgeist.Service.Ingress.snapshotted quellgeist.Service.Ingress.snapshot_signals
    quellgeist.Store.Dao.append_event rollback_ingest quellgeist.Base.keep
    quellgeist.Store.Dao.delete_incident quellgeist.Store.World.discard_snapshot
rollback_ingest-restores_example =
    rollback_ingest-restores ingress "third" none world (answer 202 (some queued) true) refl refl
      refl

abbrev waiting_ids : List String
waiting_ids = "z" ∷ []

abbrev two_ids : List String
two_ids = "a" ∷ "b" ∷ []

enqueue_each-prefix_example :
    let (n, final) = enqueue_each 2 two_ids waiting_ids in
    (final ≡ waiting_ids ++ take n two_ids)
    × (length final ≤ 2)
    × (length final ≡ length waiting_ids + n)
    × ((n ≡ length two_ids) ⊎ (length final ≡ 2))
enqueue_each-prefix_example = enqueue_each-prefix 2 two_ids waiting_ids (omega arith)

abbrev webhook : Webhook
webhook = record {
  ingress = ingress;
  webhook_secret = "secret";
  queue_maxsize = 2;
  max_body_bytes = 8;
  webhook_max_skew_s = 0;
  declared = λ s. none;
  hash = λ secret body. secret;
  stamp = λ ts body. body;
  parse_seconds = λ s. none;
  near = λ n skew. true;
  json_loads = λ body. decoded (dict (field "id" (str "third") empty));
}

abbrev delivery : Request
delivery = record {
  content_length = none;
  timestamp = none;
  signature = some "secret";
  authorization = none;
  chunks = bytes ∷ [];
}

abbrev one_waiting : State
one_waiting = record { queue = waiting_ids; world = world }

abbrev two_waiting : State
two_waiting = record { queue = two_ids; world = world }

create_incident_ep_guarded_example :
    ((e : Exn) × (create_incident_ep webhook delivery one_waiting ≡ (raise e, one_waiting)))
    ⊎ ((body : List ℕ) × (payload : Row) × (id : String) × (hint : Option String)
        × (read_capped_body 8 (bytes ∷ []) ≡ ok body)
        × IsSigned webhook delivery body
        × (webhook.json_loads body ≡ decoded (dict payload))
        × (get "id" payload ≡ some (str id))
        × (matches_id id ≡ true)
        × IsHint (get "hint" payload) hint
        × (create_incident_ep webhook delivery one_waiting
            ≡ ingest_and_enqueue webhook id hint one_waiting))
create_incident_ep_guarded_example = create_incident_ep_guarded webhook delivery one_waiting

ingest_and_enqueue-Settled_example :
    Settled webhook "third" one_waiting
      (answer 202 (some queued) true)
      (ingest_and_enqueue webhook "third" none one_waiting).1
unfolding ingest_and_enqueue quellgeist.Service.Endpoints.settle ingest_incident
    quellgeist.Store.World.◌>>=◌ quellgeist.Store.World.connect quellgeist.Store.World.transaction
    quellgeist.Store.Dao.get_incident quellgeist.Service.Ingress.ingest_new
    quellgeist.Store.Dao.find_incident quellgeist.Base.find_first quellgeist.Store.World.now_ts
    quellgeist.Service.Ingress.claimed quellgeist.Store.Dao.create_incident
    quellgeist.Store.Dao.has_incident any quellgeist.Service.Ingress.snapshotted
    quellgeist.Service.Ingress.snapshot_signals quellgeist.Base.keep
    quellgeist.Service.Endpoints.enqueued quellgeist.Service.Endpoints.shed rollback_ingest
    quellgeist.Service.Pool.enqueue quellgeist.Store.Dao.append_event
    quellgeist.Store.Dao.delete_incident quellgeist.Store.World.discard_snapshot
ingest_and_enqueue-Settled_example =
    ingest_and_enqueue-Settled webhook "third" none one_waiting (answer 202 (some queued) true) refl

ingest_and_enqueue_shed_example :
    ((ingest_and_enqueue webhook "third" none two_waiting).1.queue ≡ two_ids)
    × ((ingest_and_enqueue webhook "third" none two_waiting).1.world.incidents ≡ world.incidents)
unfolding ingest_incident quellgeist.Store.World.◌>>=◌ quellgeist.Store.World.connect
    quellgeist.Store.World.transaction quellgeist.Store.Dao.get_incident
    quellgeist.Service.Ingress.ingest_new quellgeist.Store.Dao.find_incident
    quellgeist.Base.find_first quellgeist.Store.World.now_ts quellgeist.Service.Ingress.claimed
    quellgeist.Store.Dao.create_incident quellgeist.Store.Dao.has_incident any
    quellgeist.Service.Ingress.snapshotted quellgeist.Service.Ingress.snapshot_signals
    quellgeist.Store.Dao.append_event ingest_and_enqueue quellgeist.Base.keep
    quellgeist.Service.Endpoints.enqueued quellgeist.Service.Endpoints.settle
    quellgeist.Service.Endpoints.shed rollback_ingest quellgeist.Service.Pool.enqueue
    quellgeist.Store.Dao.delete_incident quellgeist.Store.World.discard_snapshot
ingest_and_enqueue_shed_example =
    ingest_and_enqueue_shed webhook "third" none two_waiting (answer 202 (some queued) true) refl
      refl

abbrev console : Console
console = record {
  operator_token = "token";
  max_body_bytes = 8;
  review = config;
  codec = setup.codec;
  dumps = λ v. "verdict";
  live_signals = record { logs = []; commits = []; metrics = [] };
  json_loads = λ body. malformed;
  loads = λ s. none;
  status_text = λ s. "status";
  render_html = λ d title. title;
}

operator_endpoints_closed_example :
    (e : Exn) × (get_incident_page console "inc" delivery world ≡ (raise e, world))
    × (get_incident_status console "inc" delivery world ≡ (raise e, world))
    × (post_review console "inc" delivery world ≡ (raise e, world))
    × (post_verify_resolution console "inc" delivery world ≡ (raise e, world))
operator_endpoints_closed_example =
    operator_endpoints_closed console "inc" delivery world (inr (λ e. absurd (cc e)))

execute-Refines_example : Refines (delete "second") world (execute (delete "second") world)
execute-Refines_example = execute-Refines (delete "second") world

-- A delivery that is let in.
let_in :
    create_incident_ep webhook delivery one_waiting
    ≡ ingest_and_enqueue webhook "third" none one_waiting
unfolding create_incident_ep quellgeist.Service.Endpoints.after_guards
    quellgeist.Service.Endpoints.admit quellgeist.Service.Endpoints.check_length
    quellgeist.Service.Endpoints.authenticate quellgeist.Service.Endpoints.payload_of
    quellgeist.Service.Endpoints.object_of quellgeist.Service.Endpoints.id_of
    quellgeist.Service.Endpoints.matches_id quellgeist.Service.Endpoints.id_codes
    quellgeist.Service.Endpoints.without_feed quellgeist.Service.Endpoints.text_or_null
    quellgeist.Service.Requests.verify_signature quellgeist.Service.Requests.compare_digest
    quellgeist.Service.Requests.sign read_capped_body get quellgeist.Base.all
let_in = refl
