-- ===== src/Orchestrator/Review/Gate.antt =====
-- orchestrator/review.py: what a review publishes, and when.
use quellgeist.Base.{
  ℕ, suc, String, true, false, ◌==◌, string_eq, Option, none, some, ◌≡◌, refl, ◌⊎◌, inl, inr,
  Bool-cases, or_iff, get_last?, not, ◌&&◌, any,
}
use quellgeist.Agent.Schema.{Diagnosis}
use quellgeist.Store.Models.{
  Status, pending_review, queued, running, posted, rejected, Incident, RunRecord, status_beq,
}
use quellgeist.Store.World.{World, transaction, connect, ◌>>=◌}
use quellgeist.Store.Dao.{
  get_incident, find_incident, list_runs, runs_of, get_diagnosis, find_diagnosis,
}
use quellgeist.Orchestrator.Investigate.Silent.{Silent}
use quellgeist.Orchestrator.Review.{
  Config, is_set, decided, decide, decide_latest, review_incident, is_decision, apply_review,
}
use quellgeist.Orchestrator.Review.Posting.{
  Posts, Verified, reject_run-Silent, steer_run-Silent, approve_run-Posts,
}

-- `decision in _DECISIONS`, past the tests for the other two.
is_decision-approve :
    (s : String)
    → is_decision s ≡ true
    → (s == "reject") ≡ false
    → (s == "steer") ≡ false
    → s ≡ "approve"
unfolding is_decision any
is_decision-approve s e u v = elim ((or_iff (s == "approve") _).0 e) [
  | inl h ↦ (string_eq.beq_iff s "approve").0 h
  | inr h ↦ absurd (cc)
]

-- What the gate promises of the second world.
pub Gated : Config → String → String → World → World → Type 0
Gated c incident_id decision w w' =
    (w'.published ≡ w.published)
    ⊎ ((decision ≡ "approve")
        × (incident : Incident) × (latest : RunRecord) × (d : Diagnosis) × (find_incident
              incident_id w
            ≡ some incident)
        × (incident.status ≡ pending_review)
        × (get_last? (runs_of incident.id w) ≡ some latest)
        × Verified c w latest d
        × Posts incident.id d w w')

-- A further transaction leaves the tables that the evidence stands on.
Verified-later :
    (c : Config) (w : World) (n : ℕ) (latest : RunRecord) (d : Diagnosis)
    → Verified c (record w { transactions = n }) latest d
    → Verified c w latest d
unfolding find_diagnosis
Verified-later c w n latest d v = record {
  row = v.row;
  text = v.text;
  is_clean = v.is_clean;
  is_stored = v.is_stored;
  has_text = v.has_text;
  is_nonempty = v.is_nonempty;
  is_parsed = v.is_parsed;
}

Gated-later :
    (c : Config) (id decision : String) (w w' : World) (n : ℕ)
    → Gated c id decision (record w { transactions = n }) w'
    → Gated c id decision w w'
unfolding Gated find_incident runs_of Posts
Gated-later c id decision w w' n (inl e) = inl e
Gated-later c id decision w w' n
      (inr (a, i, latest, d, is_found, is_pending, is_latest, v, posts)) =
    inr (a, i, latest, d, is_found, is_pending, is_latest, Verified-later c w n latest d v, posts)

decide-Gated :
    (c : Config) (id decision : String) (s r : Option String) (i : Incident) (latest : RunRecord)
    (w : World)
    → is_decision decision ≡ true
    → find_incident id w ≡ some i
    → i.status ≡ pending_review
    → get_last? (runs_of i.id w) ≡ some latest
    → Gated c id decision w (decide c decision s r i latest w).1
unfolding decide decided get_diagnosis transaction ◌>>=◌ Gated Posts
decide-Gated c id decision s r i latest w known is_found is_pending is_latest =
    elim (Bool-cases (w.faults w.transactions)) [
      | inl v ↦ inl (rw v refl)
      | inr v ↦ elim (Bool-cases (decision == "reject")) [
        | inl e ↦ inl (rw (v, e) (unfold Silent in reject_run-Silent c i latest r _))
        | inr e ↦ elim (Bool-cases (decision == "steer")) [
          | inl u ↦ inl (rw (v, e, u) (unfold Silent in steer_run-Silent c i latest s r _))
          | inr u ↦
              rw (v, e, u)
                (elim (approve_run-Posts c i latest _ r _ refl) [
                  | inl same ↦ inl same
                  | inr (d, verified, posts) ↦ inr (
                    is_decision-approve decision known e u,
                    i,
                    latest,
                    d,
                    is_found,
                    is_pending,
                    is_latest,
                    Verified-later c w (suc w.transactions) latest d verified,
                    posts,
                  )
                ])
        ]
      ]
    ]

decide_latest-Gated :
    (c : Config) (id decision : String) (s r : Option String) (i : Incident) (o : Option RunRecord)
    (w : World)
    → is_decision decision ≡ true
    → find_incident id w ≡ some i
    → i.status ≡ pending_review
    → get_last? (runs_of i.id w) ≡ o
    → Gated c id decision w (decide_latest c decision s r i o w).1
unfolding decide_latest Gated
decide_latest-Gated c id decision s r i none w known found pending latest = inl refl
decide_latest-Gated c id decision s r i (some run) w known found pending latest =
    unfold Gated in decide-Gated c id decision s r i run w known found pending latest

is_pending : (s : Status) → status_beq s pending_review ≡ true → s ≡ pending_review
unfolding status_beq
is_pending pending_review e = refl
is_pending queued e = absurd (cc)
is_pending running e = absurd (cc)
is_pending posted e = absurd (cc)
is_pending rejected e = absurd (cc)
is_pending Status.failed e = absurd (cc)

review_incident-Gated :
    (c : Config) (id decision : String) (s r : Option String) (o : Option Incident) (w : World)
    → is_decision decision ≡ true
    → find_incident id w ≡ o
    → Gated c id decision w (review_incident c decision s r o w).1
unfolding review_incident Gated list_runs transaction ◌>>=◌ find_incident runs_of
review_incident-Gated c id decision s r none w known found = inl refl
review_incident-Gated c id decision s r (some i) w known found =
    elim (Bool-cases (status_beq i.status pending_review)) [
      | inr e ↦ inl (rw e refl)
      | inl e ↦ elim (Bool-cases (w.faults w.transactions)) [
        | inl v ↦ inl (rw (e, v) refl)
        | inr v ↦
            rw (e, v)
              (unfold Gated in
                Gated-later c id decision w _ (suc w.transactions) (
                  decide_latest-Gated c id decision s r i _ _ known (unfold find_incident in found)
                    (is_pending i.status e) refl))
      ]
    ]

-- A review publishes nothing, unless it approves an incident that is pending review and whose latest
-- run is clean and has a verified text; then it publishes only the diagnosis that this text holds,
-- for this incident.
pub apply_review_gate :
    (c : Config) (id decision : String) (s r : Option String) (w : World)
    → Gated c id decision w (apply_review c id decision s r w).1
unfolding apply_review Gated connect get_incident transaction ◌>>=◌ find_incident
apply_review_gate c id decision s r w = elim (Bool-cases (is_decision decision)) [
  | inr e ↦ inl (rw e refl)
  | inl e ↦ elim (Bool-cases (decision == "steer" && not (is_set s))) [
    | inl u ↦ inl (rw (e, u) refl)
    | inr u ↦ elim (Bool-cases (w.faults w.transactions)) [
      | inl v ↦ inl (rw (e, u, v) refl)
      | inr v ↦ elim (Bool-cases (w.faults (suc w.transactions))) [
        | inl x ↦ inl (rw (e, u, v, x) refl)
        | inr x ↦
            rw (e, u, v, x)
              (unfold Gated in
                Gated-later c id decision w _ (suc (suc w.transactions))
                  (review_incident-Gated c id decision s r _ _ e refl))
      ]
    ]
  ]
]
