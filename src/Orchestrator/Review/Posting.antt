-- ===== src/Orchestrator/Review/Posting.antt =====
-- orchestrator/review.py: what publishing and approving publish.
use quellgeist.Base.{
  String, false, ◌==◌, string_eq, Option, none, some, List, [], ◌∷◌, ◌++◌, ◌≡◌, refl, sym, ap, ◌∙◌,
  ◌⊎◌, inl, inr, Bool-cases, Option-cases, In,
}
use mathlib.Core.List.{append-nil, append_assoc}
use quellgeist.Effects.{Result, ok, raise, Result-cases}
use quellgeist.Agent.Schema.{Diagnosis}
use quellgeist.Store.Models.{Status, Incident, RunRecord, DiagnosisRow, status_beq}
use quellgeist.Store.World.{
  World, Action, Channel, Publication, html, slack, transaction, ◌>>=◌, resume,
}
use quellgeist.Store.Dao.{find_diagnosis, set_review}
use quellgeist.Orchestrator.Investigate.Silent.{
  Silent, Silent-bind, pure-Silent, set_review-Silent, append_event-Silent,
  set_incident_status-Silent, discard_snapshot-Silent, connect-Silent, get_incident-Silent,
  investigate-Silent,
}
use quellgeist.Orchestrator.Review.{
  Config, emit, post_if_set, publish, is_set, parsed, reject_run, reap_steered, steer_run, post_run,
  approve_run, verified_json_of,
}

-- The second world has further publications, each of this diagnosis for this incident.
unfoldable pub Posts : String → Diagnosis → World → World → Type 0
Posts incident_id d w w' =
    (ps : List Publication) × (w'.published ≡ w.published ++ ps)
    × ((p : Publication) → In p ps → (p.incident_id ≡ incident_id) × (p.diagnosis ≡ d))

-- The latest run is clean, and its stored verified text decodes to the diagnosis.
pub record Verified (c : Config) (w : World) (latest : RunRecord) (d : Diagnosis) : Type 0 where
  pub row : DiagnosisRow
  pub text : String
  pub is_clean : is_set latest.fabricated ≡ false
  pub is_stored : find_diagnosis latest.id w ≡ some row
  pub has_text : row.verified_json ≡ some text
  pub is_nonempty : (text == "") ≡ false
  pub is_parsed : parsed (c.setup.codec.model_validate_json text) ≡ ok d

publication : Channel → String → Diagnosis → Publication
publication channel i d = record { channel = channel; incident_id = i; diagnosis = d }

-- One publication, and two.
one_published :
    (ch : Channel) (i : String) (d : Diagnosis) (p : Publication)
    → In p (publication ch i d ∷ [])
    → (p.incident_id ≡ i) × (p.diagnosis ≡ d)
unfolding publication
one_published ch i d p (inl e) = (ap (λ q. q.incident_id) e, ap (λ q. q.diagnosis) e)
one_published ch i d p (inr h) = elim h [ ]

two_published :
    (i : String) (d : Diagnosis) (p : Publication)
    → In p (publication html i d ∷ publication slack i d ∷ [])
    → (p.incident_id ≡ i) × (p.diagnosis ≡ d)
unfolding publication
two_published i d p (inl e) = (ap (λ q. q.incident_id) e, ap (λ q. q.diagnosis) e)
two_published i d p (inr (inl e)) = (ap (λ q. q.incident_id) e, ap (λ q. q.diagnosis) e)
two_published i d p (inr (inr h)) = elim h [ ]

publish-Posts :
    (c : Config) (d : Diagnosis) (i : String) (w : World) → Posts i d w (publish c d i false w).1
unfolding publish post_if_set emit Posts ◌>>=◌ publication
publish-Posts c d i w = elim (Result-cases (c.write_html i d)) [
  | inl (x, e) ↦ rw e ([], sym (append-nil w.published), λ p h. elim h [ ])
  | inr (path, e) ↦ rw e (elim (Bool-cases (c.slack_webhook_url == "")) [
    | inl u ↦ rw u (publication html i d ∷ [], refl, one_published html i d)
    | inr u ↦ rw u (elim (Result-cases (c.post_slack i d)) [
      | inl (x, v) ↦ rw v (publication html i d ∷ [], refl, one_published html i d)
      | inr (_, v) ↦ rw v (
        publication html i d ∷ publication slack i d ∷ [],
        append_assoc w.published _ _,
        two_published i d,
      )
    ])
  ])
]

-- What follows an action and publishes nothing leaves its publications.
after_Silent :
    {A B : Type 0} (m : Action A) (f : A → Action B) (w : World)
    → ((a : A) → Silent (f a))
    → ((m >>= f) w).1.published ≡ (m w).1.published
unfolding ◌>>=◌ Silent
after_Silent {A = A} {B = B} m f w h = go (m w).0 (m w).1
  where
    go : (r : Result A) (w' : World) → (resume r f w').1.published ≡ w'.published
    go (ok a) w' = h a w'
    go (raise e) w' = refl

post_run-Posts :
    (c : Config) (i : Incident) (latest : RunRecord) (text : String) (r : Option String) (w : World)
    → ((post_run c i latest text r w).1.published ≡ w.published)
      ⊎ ((d : Diagnosis) × (parsed (c.setup.codec.model_validate_json text) ≡ ok d)
          × Posts i.id d w (post_run c i latest text r w).1)
unfolding post_run ◌>>=◌ Posts
post_run-Posts c i latest text r w =
    elim (Result-cases (parsed (c.setup.codec.model_validate_json text))) [
      | inl (x, e) ↦ inl (rw e refl)
      | inr (d, e) ↦
          let (ps, grown, each) = publish-Posts c d i.id w in
          inr (
            d,
            e,
            rw e (
              ps,
              after_Silent (publish c d i.id false) _ w (λ emitted.
                    Silent-bind _ _ connect-Silent λ _.
                      Silent-bind _ _ (append_event-Silent _ _ _ _) λ _.
                        Silent-bind _ _ (set_incident_status-Silent _ _)
                          λ _. Silent-bind _ _ (discard_snapshot-Silent _) λ _. pure-Silent _)
                  ∙ grown,
              each,
            ),
          )
    ]

pub reject_run-Silent :
    (c : Config) (i : Incident) (latest : RunRecord) (r : Option String)
    → Silent (reject_run c i latest r)
unfolding reject_run
reject_run-Silent c i latest r = Silent-bind _ _ (set_review-Silent _ _ _ _) λ _.
    Silent-bind _ _ (append_event-Silent _ _ _ _) λ _.
      Silent-bind _ _ (set_incident_status-Silent _ _)
        λ _. Silent-bind _ _ (discard_snapshot-Silent _) λ _. pure-Silent _

reap_steered-Silent : (o : Option Incident) → Silent (reap_steered o)
unfolding reap_steered
reap_steered-Silent none = pure-Silent _
reap_steered-Silent (some i) = elim (Bool-cases (status_beq i.status Status.failed)) [
  | inl e ↦ rw e (Silent-bind _ _ (discard_snapshot-Silent _) λ _. pure-Silent _)
  | inr e ↦ rw e (pure-Silent _)
]

pub steer_run-Silent :
    (c : Config) (i : Incident) (latest : RunRecord) (s r : Option String)
    → Silent (steer_run c i latest s r)
unfolding steer_run
steer_run-Silent c i latest s r = Silent-bind _ _ (set_review-Silent _ _ _ _) λ _.
    Silent-bind _ _ (append_event-Silent _ _ _ _) λ _.
      Silent-bind _ _ (investigate-Silent _ _ _ _ _ _ _ _ _) λ _.
        Silent-bind _ _ connect-Silent
          λ _. Silent-bind _ _ (get_incident-Silent _) λ steered. reap_steered-Silent steered

approve_run-none :
    (c : Config) (i : Incident) (latest : RunRecord) (r : Option String)
    → Silent (approve_run c i latest none r)
unfolding approve_run Silent
approve_run-none c i latest r w = elim (Bool-cases (is_set latest.fabricated)) [
  | inl e ↦ rw e refl
  | inr e ↦ rw e refl
]

approve_run-some :
    (c : Config) (i : Incident) (latest : RunRecord) (row : DiagnosisRow) (text : String)
    (r : Option String) (w : World)
    → find_diagnosis latest.id w ≡ some row
    → row.verified_json ≡ some text
    → ((approve_run c i latest (some text) r w).1.published ≡ w.published)
      ⊎ ((d : Diagnosis) × Verified c w latest d
          × Posts i.id d w (approve_run c i latest (some text) r w).1)
unfolding approve_run set_review transaction ◌>>=◌ Posts
approve_run-some c i latest row text r w stored has = elim (Bool-cases (is_set latest.fabricated)) [
  | inl e ↦ inl (rw e refl)
  | inr e ↦ elim (Bool-cases (text == "")) [
    | inl u ↦ inl (rw (e, u) refl)
    | inr u ↦ elim (Bool-cases (w.faults w.transactions)) [
      | inl v ↦ inl (rw (e, u, v) refl)
      | inr v ↦
          rw (e, u, v)
            (elim (post_run-Posts c i latest text r _) [
              | inl same ↦ inl same
              | inr (d, p, posts) ↦ inr (
                d,
                record {
                  row = row;
                  text = text;
                  is_clean = e;
                  is_stored = stored;
                  has_text = has;
                  is_nonempty = u;
                  is_parsed = p;
                },
                posts,
              )
            ])
    ]
  ]
]

pub approve_run-Posts :
    (c : Config) (i : Incident) (latest : RunRecord) (o : Option DiagnosisRow) (r : Option String)
    (w : World)
    → find_diagnosis latest.id w ≡ o
    → ((approve_run c i latest (verified_json_of o) r w).1.published ≡ w.published)
      ⊎ ((d : Diagnosis) × Verified c w latest d
          × Posts i.id d w (approve_run c i latest (verified_json_of o) r w).1)
unfolding Silent
approve_run-Posts c i latest none r w stored = inl (approve_run-none c i latest r w)
approve_run-Posts c i latest (some row) r w stored = elim (Option-cases row.verified_json) [
  | inl e ↦ inl (rw e (approve_run-none c i latest r w))
  | inr (text, e) ↦ rw e (approve_run-some c i latest row text r w stored e)
]
