-- ===== src/Service/Endpoints/Admission.antt =====
-- service/app.py `POST /incidents`: who is let in, and what a delivery leaves behind.
use quellgeist.Base.{
  ℕ, ◌<◌, String, ◌≡◌, ◌≢◌, refl, sym, ap, ◌∙◌, subst, ◌⊎◌, inl, inr, Bool, true, false, not, ◌&&◌,
  ◌||◌, ◌==◌, string_eq, Option, none, some, List, [], ◌∷◌, ◌++◌, ltb, all, length, In, Bool-cases,
  arith, if◌then◌else◌, eq_iff, codes,
}
use quellgeist.Effects.{
  Exn, Result, ok, raise, raise_if, http_exception, Result-cases, >>=-eq-ok, ok-injective,
}
use quellgeist.Signals.{Value, null, bool, int, float, str, list, dict, Row, get}
use quellgeist.Store.Models.{queued, Incident}
use quellgeist.Store.World.{World}
use quellgeist.Service.Requests.{
  sign, compare_digest, verify_signature, timestamp_within_skew, read_capped_body,
}
use quellgeist.Service.Ingress.{Ingested, ingest_incident, rollback_ingest}
use quellgeist.Service.Ingress.Claims.{Claimed, ingest_incident-Claimed}
use quellgeist.Service.Pool.{enqueue}
use quellgeist.Service.Endpoints.{
  Request, Webhook, matches_id, check_length, authenticate, payload_of, id_of, text_or_null, admit,
  Decoded, decoded, malformed, undecodable, object_of, State, shed, enqueued, settle,
  ingest_and_enqueue, after_guards, create_incident_ep,
}

-- The body is signed with the secret, bound to the time stamp where the window is on, in which case
-- the time stamp is near.
abbrev pub IsSigned : Webhook → Request → List ℕ → Type 0
IsSigned s req body =
    (s.webhook_secret ≢ "")
    × (req.signature
        ≡ some (
            sign s.hash s.stamp s.webhook_secret body
              (if ltb 0 s.webhook_max_skew_s then req.timestamp else none)))
    × ((s.webhook_max_skew_s ≡ 0)
        ⊎ (timestamp_within_skew s.parse_seconds s.near req.timestamp s.webhook_max_skew_s ≡ true))

-- The hint of a payload: its text, or nothing if it is missing or null.
abbrev pub IsHint : Option Value → Option String → Type 0
IsHint o hint =
    ((s : String) × (o ≡ some (str s)) × (hint ≡ some s))
    ⊎ ((hint ≡ none) × ((o ≡ none) ⊎ (o ≡ some null)))

pub compare_digest-eq : (a b : String) → compare_digest a b ≡ ok true → a ≡ b
unfolding compare_digest
compare_digest-eq a b e =
    elim (Bool-cases (all (λ c. ltb c 128) (codes a) && all (λ c. ltb c 128) (codes b))) [
      | inl t ↦ (eq_iff a b).0 (ok-injective (rw (compare_digest, t) at e))
      | inr t ↦ absurd (cc (rw (compare_digest, t) at e))
    ]

verify_signature-signed :
    (s : Webhook) (body : List ℕ) (sig ts : Option String)
    → verify_signature s.hash s.stamp s.webhook_secret body sig ts ≡ ok true
    → (s.webhook_secret ≢ "") × (sig ≡ some (sign s.hash s.stamp s.webhook_secret body ts))
unfolding verify_signature
verify_signature-signed s body none ts e = absurd (cc (ok-injective e))
verify_signature-signed s body (some sig) ts e =
    elim (Bool-cases (s.webhook_secret == "" || sig == "")) [
      | inl t ↦ absurd (cc (ok-injective (rw (verify_signature, t) at e)))
      | inr t ↦ (
        ground (arith, t, eq_iff s.webhook_secret ""),
        ap some (
            sym (
              compare_digest-eq (sign s.hash s.stamp s.webhook_secret body ts) sig
                (rw (verify_signature, t) at e))),
      )
    ]

raise_if-false : (b : Bool) (x : Exn) → raise_if b x ≡ ok tt → b ≡ false
raise_if-false false x e = refl
raise_if-false true x e = absurd (cc)

authenticate-IsSigned :
    (s : Webhook) (req : Request) (body : List ℕ)
    → authenticate s req body ≡ ok tt
    → IsSigned s req body
unfolding authenticate
authenticate-IsSigned s req body e =
    let windowed = ltb 0 s.webhook_max_skew_s in
    let near = timestamp_within_skew s.parse_seconds s.near req.timestamp s.webhook_max_skew_s in
    let ts = if windowed then req.timestamp else none in
    let a =
      >>=-eq-ok (raise_if (windowed && not near) (http_exception "stale or missing timestamp" 401))
        _ e in
    let b =
      >>=-eq-ok (verify_signature s.hash s.stamp s.webhook_secret body req.signature ts) _ a.2 in
    let v = raise_if-false (not b.0) (http_exception "invalid or missing signature" 401) b.2 in
    let signed =
      verify_signature-signed s body req.signature ts (b.1 ∙ ap ok (ground (arith, v))) in
    let w =
      raise_if-false (windowed && not near) (http_exception "stale or missing timestamp" 401) a.1 in
    (
      signed.0,
      signed.1,
      elim (Bool-cases near) [ inl t ↦ inr t | inr t ↦ inl (ground (arith, t, w)) ],
    )

id_of-matches :
    (o : Option Value) (id : String)
    → id_of o ≡ ok id
    → (o ≡ some (str id)) × (matches_id id ≡ true)
unfolding id_of
id_of-matches (some (str t)) id e = elim (Bool-cases (matches_id t)) [
  | inl m ↦
      let same = ok-injective (rw (m, id_of) at e) in
      (ap (λ x. some (str x)) same, sym (ap matches_id same) ∙ m)
  | inr m ↦ absurd (cc (rw (m, id_of) at e))
]
id_of-matches none id e = absurd (cc)
id_of-matches (some null) id e = absurd (cc)
id_of-matches (some (bool _)) id e = absurd (cc)
id_of-matches (some (int _)) id e = absurd (cc)
id_of-matches (some (float _)) id e = absurd (cc)
id_of-matches (some (list _)) id e = absurd (cc)
id_of-matches (some (dict _)) id e = absurd (cc)

text_or_null-IsHint :
    (name : String) (o : Option Value) (hint : Option String)
    → text_or_null name o ≡ ok hint
    → IsHint o hint
unfolding text_or_null
text_or_null-IsHint name none hint e = inr (sym (ok-injective e), inl refl)
text_or_null-IsHint name (some null) hint e = inr (sym (ok-injective e), inr refl)
text_or_null-IsHint name (some (str s)) hint e = inl (s, refl, sym (ok-injective e))
text_or_null-IsHint name (some (bool _)) hint e = absurd (cc)
text_or_null-IsHint name (some (int _)) hint e = absurd (cc)
text_or_null-IsHint name (some (float _)) hint e = absurd (cc)
text_or_null-IsHint name (some (list _)) hint e = absurd (cc)
text_or_null-IsHint name (some (dict _)) hint e = absurd (cc)

object_of-decoded : (d : Decoded) (row : Row) → object_of d ≡ ok row → d ≡ decoded (dict row)
unfolding object_of
object_of-decoded (decoded (dict p)) row e = ap (λ r. decoded (dict r)) (ok-injective e)
object_of-decoded (decoded null) row e = absurd (cc)
object_of-decoded (decoded (bool _)) row e = absurd (cc)
object_of-decoded (decoded (int _)) row e = absurd (cc)
object_of-decoded (decoded (float _)) row e = absurd (cc)
object_of-decoded (decoded (str _)) row e = absurd (cc)
object_of-decoded (decoded (list _)) row e = absurd (cc)
object_of-decoded malformed row e = absurd (cc)
object_of-decoded undecodable row e = absurd (cc)

payload_of-decoded :
    (s : Webhook) (body : List ℕ) (row : Row) (v : Value)
    → payload_of s body ≡ ok row
    → get "id" row ≡ some v
    → s.json_loads body ≡ decoded (dict row)
unfolding payload_of
payload_of-decoded s [] row v e h =
    let nothing : get "id" row ≡ none = unfold get in ap (get "id") (sym (ok-injective e)) in
    absurd (cc (nothing, h))
payload_of-decoded s (b ∷ bs) row v e h = object_of-decoded (s.json_loads (b ∷ bs)) row e

-- A delivery is refused with nothing changed, unless its body is within the cap and signed, and is a
-- JSON object whose id is a text that matches the pattern and whose hint, if it has one that is not
-- null, is a text; then it is handled under that very id with that hint.
pub create_incident_ep_guarded :
    (s : Webhook) (req : Request) (st : State)
    → ((e : Exn) × (create_incident_ep s req st ≡ (raise e, st)))
      ⊎ ((body : List ℕ) × (payload : Row) × (id : String) × (hint : Option String)
          × (read_capped_body s.max_body_bytes req.chunks ≡ ok body)
          × IsSigned s req body
          × (s.json_loads body ≡ decoded (dict payload))
          × (get "id" payload ≡ some (str id))
          × (matches_id id ≡ true)
          × IsHint (get "hint" payload) hint
          × (create_incident_ep s req st ≡ ingest_and_enqueue s id hint st))
unfolding create_incident_ep after_guards admit
create_incident_ep_guarded s req st = elim (Result-cases (admit s req)) [
  | inl (e, r) ↦ inl (e, rw r refl)
  | inr ((id, hint), r) ↦
      let a = >>=-eq-ok (check_length s req.content_length) _ r in
      let b = >>=-eq-ok (read_capped_body s.max_body_bytes req.chunks) _ a.2 in
      let c = >>=-eq-ok (authenticate s req b.0) _ b.2 in
      let d = >>=-eq-ok (payload_of s b.0) _ c.2 in
      let f = >>=-eq-ok (id_of (get "id" d.0)) _ d.2 in
      let g = >>=-eq-ok (text_or_null "hint must be a string" (get "hint" d.0)) _ f.2 in
      let same_id = ap (λ p. p.0) (ok-injective g.2) in
      let same_hint = ap (λ p. p.1) (ok-injective g.2) in
      let named = id_of-matches (get "id" d.0) f.0 f.1 in
      inr (
        b.0,
        d.0,
        id,
        hint,
        b.1,
        authenticate-IsSigned s req b.0 c.1,
        payload_of-decoded s b.0 d.0 (str f.0) d.1 named.0,
        named.0 ∙ ap (λ x. some (str x)) same_id,
        subst (λ x. matches_id x ≡ true) same_id named.1,
        subst (IsHint (get "hint" d.0)) same_hint
            (text_or_null-IsHint "hint must be a string" (get "hint" d.0) g.0 g.1),
        rw r refl,
      )
]

enqueue-ok :
    (n : ℕ) (id : String) (q longer : List String)
    → enqueue n id q ≡ ok longer
    → (longer ≡ q ++ id ∷ []) × (length q < n)
unfolding enqueue
enqueue-ok n id q longer e = elim (Bool-cases (ltb (length q) n)) [
  | inl t ↦ (sym (ok-injective (rw (t, enqueue) at e)), ground (arith, t))
  | inr t ↦ absurd (cc (rw (t, enqueue) at e))
]

-- What an answered delivery leaves: it is queued and stored together, or neither.
abbrev pub Settled : Webhook → String → State → Ingested → State → Type 0
Settled s id st a after =
    ((a.should_enqueue ≡ true)
      × (after.queue ≡ st.queue ++ id ∷ [])
      × (length st.queue < s.queue_maxsize)
      × (i : Incident) × (i.id ≡ id)
      × (i.status ≡ queued)
      × (after.world.incidents ≡ st.world.incidents ++ i ∷ [])
      × In i.signals_ref after.world.snapshots)
    ⊎ ((a.should_enqueue ≡ false)
        × (after.queue ≡ st.queue)
        × (after.world.incidents ≡ st.world.incidents))

shed-raises :
    (r : Result (Unit {0}) × World) (queue : List String) (a : Ingested) → (shed r queue).0 ≢ ok a
unfolding shed
shed-raises (ok u, w) queue a e = absurd (cc)
shed-raises (raise x, w) queue a e = absurd (cc)

settle-Settled :
    (s : Webhook) (id : String) (st : State) (w : World) (r : Result Ingested) (a : Ingested)
    → ((b : Ingested) → r ≡ ok b → Claimed s.ingress id st.world.incidents b w)
    → (settle s id r (record st { world = w })).0 ≡ ok a
    → Settled s id st a (settle s id r (record st { world = w })).1
unfolding settle enqueued Claimed
settle-Settled s id st w (raise x) a claims e = absurd (cc)
settle-Settled s id st w (ok b) a claims e = elim (claims b refl) [
  | inr (off, same) ↦ rw off (
      inr
        (sym (ap (λ c. c.should_enqueue) (ok-injective (rw (off, settle) at e))) ∙ off, refl, same))
  | inl (on, i, is_id, is_queued, grown, placed) ↦
      elim (Result-cases (enqueue s.queue_maxsize id st.queue)) [
        | inl (x, full) ↦ absurd (
            shed-raises (rollback_ingest s.ingress id w) st.queue a
              (rw (on, full, settle, enqueued) at e))
        | inr (longer, room) ↦
            let q = enqueue-ok s.queue_maxsize id st.queue longer room in
            let same = ok-injective (rw (on, room, settle, enqueued) at e) in
            rw (on, room)
              (inl (
                sym (ap (λ c. c.should_enqueue) same) ∙ on,
                q.0,
                q.1,
                i,
                is_id,
                is_queued,
                grown,
                placed,
              ))
      ]
]

-- A delivery under an id that is answered is in the queue and in the table of incidents, both for the
-- first time, within the bound of the queue and with its snapshot, or it changed neither.
pub ingest_and_enqueue-Settled :
    (s : Webhook) (id : String) (hint : Option String) (st : State) (a : Ingested)
    → (ingest_and_enqueue s id hint st).0 ≡ ok a
    → Settled s id st a (ingest_and_enqueue s id hint st).1
unfolding ingest_and_enqueue
ingest_and_enqueue-Settled s id hint st a e =
    let answered = ingest_incident s.ingress id hint st.world in
    settle-Settled s id st answered.1 answered.0 a
      (λ b r. ingest_incident-Claimed s.ingress id hint st.world b r) e
