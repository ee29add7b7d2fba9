-- ===== src/Store/World.antt =====
-- The state that the service's operations share: the five tables, and what the outside supplies.
-- The n-th database transaction raises OperationalError if `faults n` (a locked or broken file); the
-- n-th reading of the clock is `clock n`, and the n-th run id `run_ids n`.
use quellgeist.Base.{ℕ, suc, String, Bool, List, if◌then◌else◌, keep, not, ◌==◌, string_eq}
use quellgeist.Effects.{Exn, Result, ok, raise, operational_error}
use quellgeist.Agent.Schema.{Diagnosis}
use quellgeist.Store.Models.{Incident, RunRecord, DiagnosisRow, EvidenceRow, Event}

-- What `publish` emitted, on either channel.
pub data Channel : Type 0 where
  html slack : Channel

pub record Publication : Type 0 where
  pub channel : Channel
  pub incident_id : String
  pub diagnosis : Diagnosis

pub record World : Type 0 where
  pub incidents : List Incident
  pub runs : List RunRecord
  pub diagnoses : List DiagnosisRow
  pub evidence : List EvidenceRow
  pub events : List Event
  pub next_event : ℕ
  pub snapshots : List String
  pub published : List Publication
  pub faults : ℕ → Bool
  pub transactions : ℕ
  pub clock : ℕ → String
  pub ticks : ℕ
  pub run_ids : ℕ → String
  pub drawn : ℕ

abbrev pub Action : Type 0 → Type 0
Action A = World → Result A × World

module _ {A : Type 0} where
  abbrev pub pure : A → Action A
  pure a w = (ok a, w)

  abbrev pub throw : Exn → Action A
  throw e w = (raise e, w)

  abbrev pub lift : Result A → Action A
  lift r w = (r, w)

  -- `try`: what the body returned or raised, beside what it changed.
  abbrev pub attempt : Action A → Action (Result A)
  attempt m w = let (r, w') = m w in (ok r, w')

module _ {A B : Type 0} where
  abbrev pub resume : Result A → (A → Action B) → Action B
  resume (ok a) f = f a
  resume (raise e) f = throw e

  -- What follows a `try`: the rest, or the handler.
  unfoldable pub except : Result A → (A → Action B) → (Exn → Action B) → Action B
  except (ok a) rest handler = rest a
  except (raise e) rest handler = handler e

  infixl 5 ◌>>=◌ ◌>>◌
  unfoldable pub ◌>>=◌ : Action A → (A → Action B) → Action B
  ◌>>=◌ m f w = let (r, w') = m w in resume r f w'

  abbrev pub ◌>>◌ : Action A → Action B → Action B
  m >> k = m >>= λ _. k

-- One transaction: it raises, or its change is made as a whole.
unfoldable pub transaction : {A : Type 0} → (World → Result A × World) → Action A
transaction body w =
    if w.faults w.transactions
    then (
      raise (operational_error "database is locked"),
      record w { transactions = suc w.transactions },
    )
    else body (record w { transactions = suc w.transactions })

-- `clock.now_ts`.
unfoldable pub now_ts : Action String
now_ts w = (ok (w.clock w.ticks), record w { ticks = suc w.ticks })

unfoldable pub new_run_id : Action String
new_run_id w = (ok (w.run_ids w.drawn), record w { drawn = suc w.drawn })

-- `connect`: its first statements may meet a locked or broken file.
unfoldable pub connect : Action (Unit {0})
connect = transaction λ w. (ok tt, w)

unfoldable pub discard_snapshot : String → Action (Unit {0})
discard_snapshot dir w = (ok tt, record w { snapshots = keep (λ d. not (d == dir)) w.snapshots })
