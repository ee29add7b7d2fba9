-- ===== src/Tests/Samples.antt =====
-- The inputs that the tests share.
use quellgeist.Base.{
  ℕ, zero, suc, true, false, none, some, [], ◌∷◌, pos, String, ◌≡◌, refl, ◌==◌, string_eq,
  if◌then◌else◌,
}
use quellgeist.Effects.{Exn, Result, ok, raise, value_error}
use quellgeist.Signals.{
  finite, get, put, to_list, of_list, Value, nil, int, str, list, dict, Row, empty, field, Float,
}
use quellgeist.Agent.Schema.{Diagnosis, Hypothesis, log_ref, commit_ref}
use quellgeist.Agent.Codec.{Codec}
use quellgeist.Agent.Providers.{Provider, lite, LiteLlm, Attempt, answer, transient, CallUsage}
use quellgeist.Agent.Loop.{Prompts}
use quellgeist.Store.Models.{Incident, RunRecord, DiagnosisRow, queued, pending_review, diagnosed}
use quellgeist.Store.World.{World}
use quellgeist.Orchestrator.Investigate.{Setup}
use quellgeist.Orchestrator.Review.{Config}
use quellgeist.Service.Ingress.{Ingress}
use quellgeist.Ingest.Runtime.{Runtime}
use quellgeist.Ingest.Normalize.Canonical.{LogFields, canonical_row}
use quellgeist.Ingest.Sources.{missing, file, read_log_source}
use quellgeist.Servers.Tools.{Host}

abbrev pub from_ok {ℓ} : {A : Type ℓ} → A → Result A → A
from_ok a (ok b) = b
from_ok a (raise e) = a

abbrev half : Float
half = record { mantissa = pos 1; scale = 1 }

abbrev pub deploy_hypothesis : Hypothesis
deploy_hypothesis = record {
  cause = "deploy";
  confidence = finite half;
  evidence = log_ref (pos 7) "" ∷ commit_ref "abc" "" ∷ [];
}

abbrev pub diagnosis : Diagnosis
diagnosis = record {
  summary = "the deploy";
  abstained = false;
  abstention_reason = none;
  hypotheses = deploy_hypothesis ∷ [];
  suggested_actions = [];
}

abbrev pub silent : Diagnosis
silent = record {
  summary = "";
  abstained = true;
  abstention_reason = some "no";
  hypotheses = [];
  suggested_actions = [];
}

abbrev pub log_row : Row
log_row =
    field "id" (int (pos 7))
      (field "level" (str "ERROR") (field "route" (str "/pay") (field "ts" (str "1") empty)))

abbrev pub healthy_row : Row
healthy_row =
    field "id" (int (pos 8))
      (field "level" (str "INFO") (field "route" (str "/pay") (field "ts" (str "3") empty)))

abbrev pub other_commit : Row
other_commit = field "sha" (str "def") empty

abbrev pub named_commit : Row
named_commit = field "sha" (str "abc") (field "ts" (str "2") empty)

-- Every JSON text reads as `obj`, and every stored diagnosis as the sample.
abbrev pub codec_of : Row → Codec
codec_of obj = record {
  raw_decode = λ _. some (dict obj);
  dumps = λ _. "{}";
  str_of = λ _. "7";
  coerce = λ _. some diagnosis;
  as_json = λ _. dict empty;
  model_dump_json = λ _. "{}";
  model_validate_json = λ _. some diagnosis;
}

abbrev pub usage : CallUsage
usage = record { prompt_tokens = some 5; completion_tokens = none }

-- The first attempt fails, and each later one is answered with a JSON text.
abbrev first_fails : ℕ → Attempt
first_fails zero = transient (Exn.provider_error "busy")
first_fails (suc n) = answer (some "{") usage

abbrev pub backend : LiteLlm
backend = record { max_retries = 2; attempts = λ n messages. first_fails n; made = 0; calls = [] }

abbrev pub provider : Provider
provider = lite backend

abbrev pub prompts : Prompts
prompts = record { build_system_prompt = λ _. "system"; user_trigger = λ _. "go" }

abbrev pub diagnose_reply : Row
diagnose_reply = field "action" (str "diagnose") (field "diagnosis" (dict empty) empty)

abbrev pub list_reply : Row
list_reply = field "action" (list nil) empty

abbrev pub supported_reply : Row
supported_reply = field "supported" (Value.bool true) empty

abbrev pub setup : Setup
setup = record {
  codec = codec_of diagnose_reply;
  prompts = prompts;
  incident_tools = λ _. [];
  read_signals =
      λ _. ok (record { logs = log_row ∷ []; commits = named_commit ∷ []; metrics = [] });
}

abbrev pub config : Config
config = record {
  setup = setup;
  model = "m";
  provider = provider;
  verifier_provider = none;
  max_steps = 2;
  slack_webhook_url = "";
  write_html = λ _ _. ok "page";
  post_slack = λ _ _. ok tt;
}

abbrev pub pending : Incident
pending = record {
  id = "inc";
  source = "webhook";
  received_ts = "1";
  signals_ref = "dir";
  status = pending_review;
  hint = none;
}

abbrev pub waiting : Incident
waiting = record pending { id = "new"; status = queued }

abbrev clean_run : RunRecord
clean_run = record {
  id = "run";
  incident_id = "inc";
  model = "m";
  started_ts = "1";
  ended_ts = some "2";
  steps = some 1;
  outcome = diagnosed;
  abstained = false;
  fabricated = some "";
  prompt_tokens = none;
  completion_tokens = none;
  trace_json = none;
}

abbrev verified_row : DiagnosisRow
verified_row = record {
  run_id = "run";
  summary = "the deploy";
  diagnosis_json = "{}";
  verified_json = some "{}";
  reviewed_by = none;
  review_decision = none;
  steer_text = none;
}

abbrev pub world : World
world = record {
  incidents = pending ∷ waiting ∷ [];
  runs = clean_run ∷ [];
  diagnoses = verified_row ∷ [];
  evidence = [];
  events = [];
  next_event = 1;
  snapshots = "dir" ∷ [];
  published = [];
  faults = λ _. false;
  transactions = 0;
  clock = λ _. "9";
  ticks = 0;
  run_ids = λ _. "fresh";
  drawn = 0;
}

abbrev pub ingress : Ingress
ingress = record {
  codec = codec_of diagnose_reply;
  snapshot_dir = λ _. "snap";
  copy_signals = λ _. ok 3;
}

abbrev lowered : String → String
lowered s =
    if s == "ERROR"
    then "error"
    else if s == "WARNING"
    then "warning"
    else if s == "INFO"
    then "info"
    else if s == "DEBUG"
    then "debug"
    else s

abbrev pub plain_fields : LogFields
plain_fields = record {
  id = pos 4;
  ts = "2024-05-01T10:00:00Z";
  level = "ERROR";
  route = some "/pay";
  status = some (pos 500);
  msg = "boom";
}

abbrev pub bare_fields : LogFields
bare_fields = record {
  id = pos 9;
  ts = "";
  level = "INFO";
  route = none;
  status = none;
  msg = "started";
}

-- A Python that reads four texts as JSON and the text of one number.
abbrev pub python : Runtime
python = record {
  str_of = λ v. "value";
  lower = lowered;
  upper = λ s. s;
  int_of_text = λ s. if s == "1" then some (pos 1) else none;
  float_of_int = λ z. raise (value_error "no epoch");
  float_of_text = λ s. raise (value_error "no number");
  thousandth = λ n. n;
  utc_of_iso = λ s. raise (value_error "no ISO time");
  utc_of_epoch = λ n. raise (value_error "no epoch");
  loads = λ s.
      if s == "{a}"
      then some (dict (canonical_row plain_fields))
      else if s == "{b}"
      then some (dict (canonical_row bare_fields))
      else if s == "[commits]"
      then some (list (of_list (dict named_commit ∷ [])))
      else if s == "[metrics]"
      then some (list (of_list (dict (field "metric" (str "errors") empty) ∷ [])))
      else none;
  group_at_start = λ pattern s. none;
  group_within = λ pattern s. none;
}

-- A machine that has the files of one snapshot, and shows one row at most.
abbrev pub host : Host
host = record {
  environ = λ name.
      if name == "QG_MAX_ROWS"
      then some "1"
      else if name == "QG_LOG_PATH"
      then some "incident_logs.jsonl"
      else if name == "QG_DEPLOY_LOG"
      then some "deploy_log.json"
      else if name == "QG_METRICS_PATH"
      then some "metrics.json"
      else none;
  disk = λ path.
      if path == "incident_logs.jsonl"
      then file "{a}\n{b}"
      else if path == "deploy_log.json"
      then file "[commits]"
      else if path == "metrics.json"
      then file "[metrics]"
      else missing;
}

abbrev pub inside : String → String → String
inside dir name = name

-- What the log file of that machine is read as.
pub log_read :
    read_log_source python (file "{a}\n{b}")
    ≡ ok (record {
      rows = canonical_row plain_fields ∷ canonical_row bare_fields ∷ [];
      skipped = 0;
      coerced = 0;
      files = 1;
    })
unfolding read_log_source quellgeist.Ingest.Normalize.normalize_log_rows
    quellgeist.Ingest.Sources.read_raw_log_file quellgeist.Ingest.Sources.whole_array
    quellgeist.Ingest.Lines.starts_with quellgeist.Base.strip quellgeist.Ingest.Sources.read_lines
    quellgeist.Ingest.Lines.splitlines quellgeist.Ingest.Lines.is_break
    quellgeist.Ingest.Sources.line_object quellgeist.Ingest.Normalize.normalize_log_row
    quellgeist.Ingest.Normalize.ts_field quellgeist.Ingest.Normalize.pick
    quellgeist.Ingest.Normalize.lowered_key quellgeist.Base.all quellgeist.Base.drop_z
    quellgeist.Base.insert_by quellgeist.Base.order_by quellgeist.Base.str_lt
    quellgeist.Ingest.Normalize.coerce_status quellgeist.Ingest.Normalize.epoch_of_text
    quellgeist.Ingest.Normalize.except_value_error quellgeist.Ingest.Normalize.from_epoch
    quellgeist.Ingest.Normalize.is_millis quellgeist.Ingest.Normalize.iso_text
    quellgeist.Ingest.Normalize.level_of_text quellgeist.Ingest.Normalize.level_synonym
    quellgeist.Ingest.Normalize.msg_text quellgeist.Ingest.Normalize.next_after
    quellgeist.Ingest.Normalize.normalize_level quellgeist.Ingest.Normalize.normalize_ts
    quellgeist.Ingest.Normalize.row_id quellgeist.Ingest.Normalize.text_of
    quellgeist.Ingest.Normalize.truncate quellgeist.Ingest.Normalize.ts_of_text
    quellgeist.Ingest.Normalize.with_route quellgeist.Ingest.Normalize.with_status
    quellgeist.Ingest.Sources.coerce_text_line quellgeist.Ingest.Sources.objects
    quellgeist.Ingest.Sources.read_files quellgeist.Ingest.Sources.renumber
    quellgeist.Ingest.Sources.ts_text quellgeist.Ingest.Sources.with_group
    quellgeist.Ingest.Sources.without get put to_list
    quellgeist.Servers.Filters.Timestamp.is_canonical_ts
log_read = refl
