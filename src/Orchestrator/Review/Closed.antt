-- ===== src/Orchestrator/Review/Closed.antt =====
-- orchestrator/review.py: a review of an incident that is not pending review.
use quellgeist.Base.{
  ℕ, suc, String, false, not, ◌&&◌, ◌==◌, string_eq, Option, some, ◌≡◌, refl, inl, inr, Bool-cases,
  Option-cases,
}
use quellgeist.Effects.{Exn, raise}
use quellgeist.Store.Models.{status_beq, pending_review, Incident}
use quellgeist.Store.World.{World, connect, transaction, ◌>>=◌}
use quellgeist.Store.Dao.{get_incident, find_incident}
use quellgeist.Orchestrator.Review.{Config, is_set, is_decision, review_incident, apply_review}

-- A review of an unknown incident, or of one that is not pending review (as after it was posted or
-- rejected), raises for every decision, and changes neither a table nor a snapshot nor what is
-- published.
pub apply_review_closed :
    (c : Config) (id decision : String) (s r : Option String) (w : World)
    (closed : (i : Incident)
      → find_incident id w ≡ some i
      → status_beq i.status pending_review ≡ false)
    → ((x : Exn) × ((apply_review c id decision s r w).0 ≡ raise x))
      × ((n : ℕ) × ((apply_review c id decision s r w).1 ≡ record w { transactions = n }))
unfolding apply_review review_incident connect get_incident transaction find_incident ◌>>=◌
apply_review_closed c id decision s r w closed = elim (Bool-cases (is_decision decision)) [
  | inr e ↦ rw e ((_, refl), (w.transactions, refl))
  | inl e ↦ elim (Bool-cases (decision == "steer" && not (is_set s))) [
    | inl u ↦ rw (e, u) ((_, refl), (w.transactions, refl))
    | inr u ↦ elim (Bool-cases (w.faults w.transactions)) [
      | inl v ↦ rw (e, u, v) ((_, refl), (_, refl))
      | inr v ↦ elim (Bool-cases (w.faults (suc w.transactions))) [
        | inl x ↦ rw (e, u, v, x) ((_, refl), (_, refl))
        | inr x ↦ elim (Option-cases (find_incident id w)) [
          | inl free ↦ rw (e, u, v, x, free) ((_, refl), (_, refl))
          | inr (i, found) ↦ rw (e, u, v, x, found, closed i found) ((_, refl), (_, refl))
        ]
      ]
    ]
  ]
]
