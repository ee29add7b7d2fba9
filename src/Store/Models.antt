-- ===== src/Store/Models.antt =====
-- store/models.py and the tables of store/migrations/001_init.sql.
use quellgeist.Base.{ℕ, String, Bool, true, false, Option}

-- queued|running|pending_review|posted|rejected|failed
pub data Status : Type 0 where
  queued running pending_review posted rejected failed : Status

unfoldable pub status_beq : Status → Status → Bool
status_beq queued queued = true
status_beq running running = true
status_beq pending_review pending_review = true
status_beq posted posted = true
status_beq rejected rejected = true
status_beq failed failed = true
status_beq _ _ = false

-- diagnosed | abstained | failed
pub data Outcome : Type 0 where
  diagnosed abstained failed : Outcome

unfoldable pub completed : Outcome → Bool
completed diagnosed = true
completed abstained = true
completed Outcome.failed = false

pub record Incident : Type 0 where
  pub id : String
  pub source : String
  pub received_ts : String
  pub signals_ref : String
  pub status : Status
  pub hint : Option String

-- `fabricated`: the empty text is clean, a JSON list names handles, none is unverified. The
-- latency column is left out.
pub record RunRecord : Type 0 where
  pub id : String
  pub incident_id : String
  pub model : String
  pub started_ts : String
  pub ended_ts : Option String
  pub steps : Option ℕ
  pub outcome : Outcome
  pub abstained : Bool
  pub fabricated : Option String
  pub prompt_tokens : Option ℕ
  pub completion_tokens : Option ℕ
  pub trace_json : Option String

pub record DiagnosisRow : Type 0 where
  pub run_id : String
  pub summary : String
  pub diagnosis_json : String
  pub verified_json : Option String
  pub reviewed_by : Option String
  pub review_decision : Option String
  pub steer_text : Option String

pub record EvidenceRow : Type 0 where
  pub run_id : String
  pub hyp_index : ℕ
  pub handle_type : String
  pub handle_id : String

pub record Event : Type 0 where
  pub id : ℕ
  pub incident_id : String
  pub run_id : Option String
  pub ts : String
  pub kind : String
  pub detail_json : Option String
