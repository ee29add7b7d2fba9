-- ===== src/Service/Ingress.antt =====
-- service/app.py `_ingest_incident` and `_rollback_ingest`, with `snapshot_signals`' effect.
-- The copying of the files is outside: the configuration says what it copied or raised.
pub mod Claims
pub mod Rollback
use quellgeist.Base.{
  ℕ, String, Bool, true, false, Option, none, some, List, [], ◌∷◌, pos, if◌then◌else◌,
}
use quellgeist.Effects.{Exn, Result, ok, raise, integrity_error, os_error}
use quellgeist.Signals.{int, dict, empty, field}
use quellgeist.Agent.Codec.{Codec}
use quellgeist.Store.Models.{Status, queued, Incident, RunRecord}
use quellgeist.Store.World.{
  World, Action, pure, throw, attempt, connect, now_ts, discard_snapshot, ◌>>=◌, ◌>>◌,
}
use quellgeist.Store.Dao.{
  get_incident, create_incident, delete_incident, append_event, list_runs, latest_event,
}

pub record Ingress : Type 0 where
  pub codec : Codec
  pub snapshot_dir : String → String
  pub copy_signals : String → Result ℕ

-- The status code, the reported status, and whether to enqueue.
pub record Ingested : Type 0 where
  pub status_code : ℕ
  pub status : Option Status
  pub should_enqueue : Bool

abbrev pub answer : ℕ → Option Status → Bool → Ingested
answer code status enqueue = record {
  status_code = code;
  status = status;
  should_enqueue = enqueue;
}

abbrev placed : String → World → Result ℕ → Result ℕ × World
placed dir w (raise e) = (raise e, w)
placed dir w (ok copied) = (ok copied, record w { snapshots = dir ∷ w.snapshots })

-- `snapshot_signals`: the directory is there once the copies are made.
unfoldable pub snapshot_signals : Ingress → String → Action ℕ
snapshot_signals c dir w = placed dir w (c.copy_signals dir)

abbrev is_os_error : Exn → Bool
is_os_error (os_error _) = true
is_os_error _ = false

abbrev is_integrity_error : Exn → Bool
is_integrity_error (integrity_error _) = true
is_integrity_error _ = false

-- After the snapshot: a failed one frees the id again.
unfoldable pub snapshotted : Ingress → String → Result ℕ → Action Ingested
snapshotted c incident_id (ok copied) = do
  append_event incident_id "received"
      (some (c.codec.dumps (dict (field "snapshot_files" (int (pos copied)) empty)))) none
  pure (answer 202 (some queued) true)
snapshotted c incident_id (raise e) =
    if is_os_error e
    then (do delete_incident incident_id; pure (answer 503 none false))
    else throw e

abbrev or_queued : Option Incident → Status
or_queued none = queued
or_queued (some i) = i.status

-- After the claim: one that another delivery won is a duplicate.
unfoldable pub claimed : Ingress → String → Result (Unit {0}) → Action Ingested
claimed c incident_id (ok _) = do
  copied ← attempt (snapshot_signals c (c.snapshot_dir incident_id))
  snapshotted c incident_id copied
claimed c incident_id (raise e) =
    if is_integrity_error e
    then (do got ← get_incident incident_id; pure (answer 200 (some (or_queued got)) false))
    else throw e

unfoldable pub ingest_new : Ingress → String → Option String → Option Incident → Action Ingested
ingest_new c incident_id hint (some existing) = pure (answer 200 (some existing.status) false)
ingest_new c incident_id hint none = do
  received ← now_ts
  made ← attempt (
      create_incident (record {
        id = incident_id;
        source = "webhook";
        received_ts = received;
        signals_ref = c.snapshot_dir incident_id;
        status = queued;
        hint = hint;
      }))
  claimed c incident_id made

unfoldable pub ingest_incident : Ingress → String → Option String → Action Ingested
ingest_incident c incident_id hint = do
  connect
  existing ← get_incident incident_id
  ingest_new c incident_id hint existing

unfoldable pub rollback_ingest : Ingress → String → Action (Unit {0})
rollback_ingest c incident_id = do
  connect
  delete_incident incident_id
  discard_snapshot (c.snapshot_dir incident_id)
