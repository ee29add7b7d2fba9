-- ===== src/Orchestrator/Resolution/Unknown.antt =====
-- orchestrator/resolution.py: a check of an incident that is not stored.
use quellgeist.Base.{suc, String, ◌≡◌, refl, Option, none, inl, inr, Bool-cases, ℕ}
use quellgeist.Effects.{Exn, raise}
use quellgeist.Agent.Codec.{Codec}
use quellgeist.Store.World.{World, connect, transaction, ◌>>=◌}
use quellgeist.Store.Dao.{get_incident, find_incident}
use quellgeist.Orchestrator.Investigate.{Signals}
use quellgeist.Orchestrator.Resolution.{ResolutionVerdict, check_incident, verify_resolution}

-- A check of an unknown incident raises, and changes neither a table nor a snapshot.
verify_resolution_unknown :
    (codec : Codec) (dumps : ResolutionVerdict → String) (id : String) (signals : Signals)
    (run_id since : Option String) (w : World)
    → find_incident id w ≡ none
    → (e : Exn) × (n : ℕ) × (verify_resolution codec dumps id signals run_id since w
        ≡ (raise e, record w { transactions = n }))
unfolding verify_resolution check_incident connect get_incident transaction find_incident ◌>>=◌
verify_resolution_unknown codec dumps id signals run_id since w unknown =
    elim (Bool-cases (w.faults w.transactions)) [
      | inl v ↦ rw v (_, _, refl)
      | inr v ↦ elim (Bool-cases (w.faults (suc w.transactions))) [
        | inl x ↦ rw (v, x) (_, _, refl)
        | inr x ↦ rw (v, x, unknown) (_, _, refl)
      ]
    ]
