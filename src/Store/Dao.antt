-- ===== src/Store/Dao.antt =====
-- store/dao.py over the tables, with the keys and foreign keys of the schema.
pub mod Registry
use quellgeist.Base.{
  suc, String, Bool, not, ◌&&◌, ◌==◌, string_eq, nat_eq, Option, none, some, List, [], ◌∷◌, ◌++◌,
  map, keep, any, find_first, get_last?, order_by, if◌then◌else◌,
}
use quellgeist.Effects.{ok, raise, integrity_error}
use quellgeist.Store.Models.{
  Status, status_beq, Incident, RunRecord, DiagnosisRow, EvidenceRow, Event,
}
use quellgeist.Store.World.{World, Action, pure, transaction, now_ts, ◌>>=◌}

unfoldable pub has_incident : String → World → Bool
has_incident id w = any (λ i. i.id == id) w.incidents

unfoldable pub has_run : String → World → Bool
has_run id w = any (λ r. r.id == id) w.runs

unfoldable pub find_incident : String → World → Option Incident
find_incident id w = find_first (λ i. i.id == id) w.incidents

unfoldable pub create_incident : Incident → Action (Unit {0})
create_incident incident = transaction λ w.
    if has_incident incident.id w
    then (raise (integrity_error "UNIQUE constraint failed: incidents.id"), w)
    else (ok tt, record w { incidents = w.incidents ++ incident ∷ [] })

unfoldable pub get_incident : String → Action (Option Incident)
get_incident id = transaction λ w. (ok (find_incident id w), w)

abbrev pub with_status : String → Status → Incident → Incident
with_status id status i = if i.id == id then record i { status = status } else i

unfoldable pub set_incident_status : String → Status → Action (Unit {0})
set_incident_status id status =
    transaction λ w. (ok tt, record w { incidents = map (with_status id status) w.incidents })

-- The deletion of an incident that still has runs breaks their foreign key, and nothing is deleted.
unfoldable pub delete_incident : String → Action (Unit {0})
delete_incident id = transaction λ w.
    if has_incident id w && any (λ r. r.incident_id == id) w.runs
    then (raise (integrity_error "FOREIGN KEY constraint failed"), w)
    else (
      ok tt,
      record w {
        events = keep (λ e. not (e.incident_id == id)) w.events;
        incidents = keep (λ i. not (i.id == id)) w.incidents;
      },
    )

unfoldable pub incidents_by_status : List Status → Action (List Incident)
incidents_by_status [] = pure []
incidents_by_status (s ∷ ss) = transaction λ w. (
  ok (order_by (λ i. i.received_ts) (keep (λ i. any (status_beq i.status) (s ∷ ss)) w.incidents)),
  w,
)

unfoldable pub record_run : RunRecord → Action (Unit {0})
record_run run = transaction λ w.
    if has_run run.id w
    then (raise (integrity_error "UNIQUE constraint failed: runs.id"), w)
    else if not (has_incident run.incident_id w)
    then (raise (integrity_error "FOREIGN KEY constraint failed"), w)
    else (ok tt, record w { runs = w.runs ++ run ∷ [] })

unfoldable get_run : String → Action (Option RunRecord)
get_run id = transaction λ w. (ok (find_first (λ r. r.id == id) w.runs), w)

unfoldable pub runs_of : String → World → List RunRecord
runs_of incident_id w =
    order_by (λ r. r.started_ts) (keep (λ r. r.incident_id == incident_id) w.runs)

unfoldable pub list_runs : String → Action (List RunRecord)
list_runs incident_id = transaction λ w. (ok (runs_of incident_id w), w)

unfoldable pub find_diagnosis : String → World → Option DiagnosisRow
find_diagnosis run_id w = find_first (λ d. d.run_id == run_id) w.diagnoses

unfoldable pub record_diagnosis : String → String → String → Option String → Action (Unit {0})
record_diagnosis run_id summary diagnosis_json verified_json = transaction λ w.
    if any (λ d. d.run_id == run_id) w.diagnoses
    then (raise (integrity_error "UNIQUE constraint failed: diagnoses.run_id"), w)
    else if not (has_run run_id w)
    then (raise (integrity_error "FOREIGN KEY constraint failed"), w)
    else (
      ok tt,
      record w {
        diagnoses =
            w.diagnoses
            ++ record {
              run_id = run_id;
              summary = summary;
              diagnosis_json = diagnosis_json;
              verified_json = verified_json;
              reviewed_by = none;
              review_decision = none;
              steer_text = none;
            }
              ∷ [];
      },
    )

unfoldable pub evidence_beq : EvidenceRow → EvidenceRow → Bool
evidence_beq a b =
    a.run_id == b.run_id
    && (a.hyp_index == b.hyp_index
        && (a.handle_type == b.handle_type && a.handle_id == b.handle_id))

-- INSERT OR IGNORE, row after row.
unfoldable pub insert_evidence : List EvidenceRow → List EvidenceRow → List EvidenceRow
insert_evidence [] table = table
insert_evidence (r ∷ rs) table =
    insert_evidence rs (if any (evidence_beq r) table then table else table ++ r ∷ [])

unfoldable pub record_evidence : List EvidenceRow → Action (Unit {0})
record_evidence [] = pure tt
record_evidence (r ∷ rs) =
    transaction λ w. (ok tt, record w { evidence = insert_evidence (r ∷ rs) w.evidence })

abbrev with_review : String → String → Option String → Option String → DiagnosisRow → DiagnosisRow
with_review run_id decision steer reviewer d =
    if d.run_id == run_id
    then record d { review_decision = some decision; steer_text = steer; reviewed_by = reviewer }
    else d

unfoldable pub set_review : String → String → Option String → Option String → Action (Unit {0})
set_review run_id decision steer reviewer = transaction λ w.
    (ok tt, record w { diagnoses = map (with_review run_id decision steer reviewer) w.diagnoses })

unfoldable pub get_diagnosis : String → Action (Option DiagnosisRow)
get_diagnosis run_id = transaction λ w. (ok (find_diagnosis run_id w), w)

-- The time stamp is read before the statement runs.
unfoldable pub append_event : String → String → Option String → Option String → Action (Unit {0})
append_event incident_id kind detail_json run_id = do
  ts ← now_ts
  transaction λ w. (
    ok tt,
    record w {
      events =
          w.events
          ++ record {
            id = w.next_event;
            incident_id = incident_id;
            run_id = run_id;
            ts = ts;
            kind = kind;
            detail_json = detail_json;
          }
            ∷ [];
      next_event = suc w.next_event;
    },
  )

unfoldable list_events : String → Action (List Event)
list_events incident_id =
    transaction λ w. (ok (keep (λ e. e.incident_id == incident_id) w.events), w)

unfoldable pub latest_event : String → String → Action (Option Event)
latest_event incident_id kind =
    transaction
      λ w. (ok (get_last? (keep (λ e. e.incident_id == incident_id && e.kind == kind) w.events)), w)
