-- ===== src/Service/Ingress/Claims.antt =====
-- service/app.py `_ingest_incident`: what each answer leaves in the incident table.
use quellgeist.Base.{
  ℕ, suc, String, true, false, not, ◌==◌, string_eq, Option, none, some, List, [], ◌∷◌, ◌++◌, ◌≡◌,
  refl, sym, ap, ◌∙◌, ◌⊎◌, inl, inr, ◌&&◌, keep, any, find_first, In, Bool-cases, beq_refl,
}
use quellgeist.Effects.{ok, raise, Result-cases, ok-injective, operational_error}
use quellgeist.Store.Models.{queued, Incident}
use quellgeist.Store.World.{World, connect, now_ts, transaction, ◌>>=◌}
use quellgeist.Store.Dao.{
  get_incident, find_incident, has_incident, create_incident, delete_incident, append_event,
}
use quellgeist.Service.Ingress.{
  Ingress, Ingested, answer, snapshot_signals, snapshotted, claimed, ingest_new, ingest_incident,
  is_os_error,
}

-- An accepted delivery has added one queued incident with its snapshot; any other answer leaves
-- the incidents as they were.
unfoldable pub Claimed : Ingress → String → List Incident → Ingested → World → Type 0
Claimed c id incidents a w =
    ((a.should_enqueue ≡ true)
      × (i : Incident) × (i.id ≡ id)
      × (i.status ≡ queued)
      × (w.incidents ≡ incidents ++ i ∷ [])
      × In i.signals_ref w.snapshots)
    ⊎ ((a.should_enqueue ≡ false) × (w.incidents ≡ incidents))

-- Deleting what was just added to a table without that id.
pub keep-added :
    (id : String) (xs : List Incident) (i : Incident)
    → i.id ≡ id
    → find_first (λ j. j.id == id) xs ≡ none
    → keep (λ j. not (j.id == id)) (xs ++ i ∷ []) ≡ xs
unfolding keep find_first
keep-added id [] i e h = rw (ap (λ s. s == id) e ∙ beq_refl id) refl
keep-added id (x ∷ xs) i e h = elim (Bool-cases (x.id == id)) [
  | inl t ↦ absurd (cc (rw t at h))
  | inr t ↦ rw t (ap (λ ys. x ∷ ys) (keep-added id xs i e (rw t at h)))
]

claimed-Claimed :
    (c : Ingress) (id : String) (xs : List Incident) (i : Incident) (w : World) (a : Ingested)
    → w.incidents ≡ xs ++ i ∷ []
    → i.id ≡ id
    → i.status ≡ queued
    → i.signals_ref ≡ c.snapshot_dir id
    → find_first (λ j. j.id == id) xs ≡ none
    → (claimed c id (ok tt) w).0 ≡ ok a
    → Claimed c id xs a (claimed c id (ok tt) w).1
unfolding claimed snapshot_signals snapshotted append_event now_ts transaction delete_incident ◌>>=◌
    Claimed has_incident
claimed-Claimed c id xs i w a grown is_id is_queued is_dir fresh e =
    elim (Result-cases (c.copy_signals (c.snapshot_dir id))) [
      | inr (n, r) ↦ elim (Bool-cases (w.faults w.transactions)) [
        | inl v ↦ absurd (cc (rw (r, v) at e))
        | inr v ↦
            rw (r, v)
              (inl (
                ap (λ x. x.should_enqueue) (sym (ok-injective (rw (r, v) at e))),
                i,
                is_id,
                is_queued,
                grown,
                inl is_dir,
              ))
      ]
      | inl (x, r) ↦ elim (Bool-cases (is_os_error x)) [
        | inr t ↦ absurd (cc (rw (r, t) at e))
        | inl t ↦ elim (Bool-cases (w.faults w.transactions)) [
          | inl v ↦ absurd (cc (rw (r, t, v) at e))
          | inr v ↦ elim (Bool-cases (has_incident id w && any (λ j. j.incident_id == id) w.runs)) [
            | inl u ↦ absurd (cc (rw (r, t, v, u) at e))
            | inr u ↦
                rw (r, t, v, u)
                  (inr (
                    ap (λ y. y.should_enqueue) (sym (ok-injective (rw (r, t, v, u) at e))),
                    rw grown (keep-added id xs i is_id fresh),
                  ))
          ]
        ]
      ]
    ]

ingest_new-Claimed :
    (c : Ingress) (id : String) (hint : Option String) (o : Option Incident) (w : World)
    (a : Ingested)
    → find_incident id w ≡ o
    → (ingest_new c id hint o w).0 ≡ ok a
    → Claimed c id w.incidents a (ingest_new c id hint o w).1
unfolding ingest_new now_ts create_incident transaction ◌>>=◌ find_incident claimed get_incident
    has_incident Claimed
ingest_new-Claimed c id hint (some i) w a found e =
    inr (ap (λ y. y.should_enqueue) (sym (ok-injective e)), refl)
ingest_new-Claimed c id hint none w a found e = elim (Bool-cases (w.faults w.transactions)) [
  | inl v ↦ absurd (cc (rw v at e))
  | inr v ↦ elim (Bool-cases (has_incident id w)) [
    | inl u ↦ elim (Bool-cases (w.faults (suc w.transactions))) [
      | inl x ↦ absurd (cc (rw (v, u, x) at e))
      | inr x ↦
          rw (v, u, x)
            (inr (ap (λ y. y.should_enqueue) (sym (ok-injective (rw (v, u, x) at e))), refl))
    ]
    | inr u ↦
        rw (v, u)
          (claimed-Claimed c id w.incidents _ _ a refl refl refl refl found (rw (v, u) at e))
  ]
]

-- Every answer to a delivery: one that asks to enqueue has added exactly one queued incident, with the
-- given id and with its snapshot in place, and any other answer leaves the incidents as they were.
pub ingest_incident-Claimed :
    (c : Ingress) (id : String) (hint : Option String) (w : World) (a : Ingested)
    → (ingest_incident c id hint w).0 ≡ ok a
    → Claimed c id w.incidents a (ingest_incident c id hint w).1
unfolding ingest_incident connect get_incident transaction ◌>>=◌ find_incident
ingest_incident-Claimed c id hint w a e = elim (Bool-cases (w.faults w.transactions)) [
  | inl v ↦ absurd (cc (rw v at e))
  | inr v ↦ elim (Bool-cases (w.faults (suc w.transactions))) [
    | inl x ↦ absurd (cc (rw (v, x) at e))
    | inr x ↦ rw (v, x) (ingest_new-Claimed c id hint _ _ a refl (rw (v, x) at e))
  ]
]

-- A second delivery of a known id leaves every table and snapshot alone; it is answered 200 with the
-- stored status and nothing to enqueue, unless the database refuses one of its two readings.
pub ingest_duplicate :
    (c : Ingress) (id : String) (hint : Option String) (w : World) (i : Incident)
    → find_incident id w ≡ some i
    → (((ingest_incident c id hint w).0 ≡ ok (answer 200 (some i.status) false))
        ⊎ ((ingest_incident c id hint w).0 ≡ raise (operational_error "database is locked")))
      × ((n : ℕ) × ((ingest_incident c id hint w).1 ≡ record w { transactions = n }))
unfolding ingest_incident ingest_new connect get_incident transaction ◌>>=◌ find_incident
ingest_duplicate c id hint w i found = elim (Bool-cases (w.faults w.transactions)) [
  | inl v ↦ rw v (inr refl, (_, refl))
  | inr v ↦ elim (Bool-cases (w.faults (suc w.transactions))) [
    | inl x ↦ rw (v, x) (inr refl, (_, refl))
    | inr x ↦ rw (v, x, found) (inl refl, (_, refl))
  ]
]
