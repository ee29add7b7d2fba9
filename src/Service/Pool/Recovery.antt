-- ===== src/Service/Pool/Recovery.antt =====
-- service/app.py `_recover_pending`: which incidents are run again after a restart.
use quellgeist.Base.{
  suc, String, true, false, List, [], ◌∷◌, ◌≡◌, refl, sym, ◌⊎◌, inl, inr, any, keep, In, In-keep,
  In-order_by, Bool-cases, order_by, subst, ◌==◌, string_eq,
}
use quellgeist.Effects.{ok, ok-injective, Result-cases}
use quellgeist.Store.Models.{
  Status, status_beq, queued, running, pending_review, posted, rejected, failed, completed,
  Incident, RunRecord,
}
use quellgeist.Store.World.{World, Action, connect, transaction, ◌>>=◌}
use quellgeist.Store.Dao.{incidents_by_status, list_runs, runs_of, set_incident_status}
use quellgeist.Service.Pool.{reconcile, fetch_each, fetch}

-- An incident of the list with this id, no run of which has completed.
Unfinished : List Incident → List RunRecord → String → Type 0
Unfinished incidents runs id =
    (i : Incident) × In i incidents
    × (i.id ≡ id)
    × (any (λ r. completed r.outcome)
          (order_by (λ r. r.started_ts) (keep (λ r. r.incident_id == i.id) runs))
        ≡ false)

-- One more incident at the head of the list.
Unfinished-later :
    (i : Incident) (is : List Incident) (runs : List RunRecord) (id : String)
    → Unfinished is runs id
    → Unfinished (i ∷ is) runs id
unfolding Unfinished
Unfinished-later i is runs id (j, k, q, r) = (j, inr k, q, r)

reconcile-Unfinished :
    (i : Incident) (is : List Incident) (w : World) (ids : List String) (id : String)
    (others : Action (List String))
    → ((w' : World) (xs : List String)
        → w'.runs ≡ w.runs
        → (others w').0 ≡ ok xs
        → In id xs
        → Unfinished is w.runs id)
    → (reconcile i others (runs_of i.id w) w).0 ≡ ok ids
    → In id ids
    → Unfinished (i ∷ is) w.runs id
unfolding reconcile runs_of set_incident_status transaction ◌>>=◌
reconcile-Unfinished i is w ids id others hyp e h =
    elim (Bool-cases (any (λ r. completed r.outcome) (runs_of i.id w))) [
      | inl c ↦ elim (Bool-cases (w.faults w.transactions)) [
        | inl x ↦ absurd (cc (rw (c, x) at e))
        | inr x ↦ Unfinished-later i is w.runs id (hyp _ ids refl (rw (c, x) at e) h)
      ]
      | inr c ↦ elim (Result-cases (others w).0) [
        | inl (_, x) ↦ absurd (cc (rw (c, x) at e))
        | inr (xs, x) ↦ elim (subst (λ l. In id l) (sym (ok-injective (rw (c, x) at e))) h) [
          | inl q ↦ unfold Unfinished in (i, inl refl, sym q, c)
          | inr k ↦ Unfinished-later i is w.runs id (hyp w xs refl x k)
        ]
      ]
    ]

fetch_each-Unfinished :
    (is : List Incident) (runs : List RunRecord) (w : World) (ids : List String) (id : String)
    → w.runs ≡ runs
    → (fetch_each is w).0 ≡ ok ids
    → In id ids
    → Unfinished is runs id
unfolding fetch_each list_runs transaction ◌>>=◌
fetch_each-Unfinished [] runs w ids id same e h =
    absurd (subst (λ xs. In id xs) (sym (ok-injective e)) h)
fetch_each-Unfinished (i ∷ is) runs w ids id same e h =
    elim (Bool-cases (w.faults w.transactions)) [
      | inl v ↦ absurd (cc (rw v at e))
      | inr v ↦
          subst (λ rs. Unfinished (i ∷ is) rs id) same
            (reconcile-Unfinished i is (record w { transactions = suc w.transactions }) ids id
              (fetch_each is) (λ w' xs q. fetch_each-Unfinished is w.runs w' xs id q) (rw v at e) h)
    ]

is_stranded :
    (s : Status) → any (status_beq s) (queued ∷ running ∷ []) ≡ true → (s ≡ queued) ⊎ (s ≡ running)
unfolding status_beq any
is_stranded queued e = inl refl
is_stranded running e = inr refl
is_stranded pending_review e = absurd (cc)
is_stranded posted e = absurd (cc)
is_stranded rejected e = absurd (cc)
is_stranded failed e = absurd (cc)

-- What is fetched after a restart to run again: only ids of incidents that are stored as queued or
-- running and none of whose runs has completed.
pub fetch-Unfinished :
    (w : World) (ids : List String) (id : String)
    → (fetch w).0 ≡ ok ids
    → In id ids
    → (i : Incident) × In i w.incidents
      × (i.id ≡ id)
      × ((i.status ≡ queued) ⊎ (i.status ≡ running))
      × (any (λ r. completed r.outcome) (runs_of i.id w) ≡ false)
unfolding fetch incidents_by_status connect transaction ◌>>=◌ runs_of Unfinished
fetch-Unfinished w ids id e h = elim (Bool-cases (w.faults w.transactions)) [
  | inl v ↦ absurd (cc (rw v at e))
  | inr v ↦ elim (Bool-cases (w.faults (suc w.transactions))) [
    | inl x ↦ absurd (cc (rw (v, x) at e))
    | inr x ↦
        let (i, k, q, r) = fetch_each-Unfinished _ w.runs _ ids id refl (rw (v, x) at e) h in
        let (stored, s) =
          (In-keep i _ w.incidents).0 ((In-order_by (λ i. i.received_ts) i _).0 k) in
        (i, stored, q, is_stranded i.status s, r)
  ]
]
