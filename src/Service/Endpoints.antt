-- ===== src/Service/Endpoints.antt =====
-- service/app.py: the signed webhook `POST /incidents`. A request is handled as a whole, as under the
-- lock of its incident; logging is left out.
pub mod Admission
pub mod Shed
use quellgeist.Base.{
  ℕ, String, Bool, true, false, not, ◌&&◌, ◌||◌, ◌==◌, string_eq, Option, none, some, List, [], ◌∷◌,
  leb, ltb, nat_beq, all, codes, length, if◌then◌else◌,
}
use quellgeist.Effects.{Exn, Result, ok, raise, raise_if, value_error, http_exception, ◌>>=◌, ◌>>◌}
use quellgeist.Signals.{Number, Value, null, bool, int, float, str, list, dict, Row, empty, get}
use quellgeist.Store.World.{World}
use quellgeist.Service.Requests.{verify_signature, timestamp_within_skew, read_capped_body}
use quellgeist.Service.Ingress.{Ingress, Ingested, ingest_incident, rollback_ingest}
use quellgeist.Service.Pool.{enqueue}

-- What `json.loads` makes of a body: a value, a JSONDecodeError, or a UnicodeDecodeError.
pub data Decoded : Type 0 where
  decoded : Value → Decoded
  malformed undecodable : Decoded

-- The headers that the endpoints read, and the chunks of the body.
pub record Request : Type 0 where
  pub content_length : Option String
  pub timestamp : Option String
  pub signature : Option String
  pub authorization : Option String
  pub chunks : List (List ℕ)

-- The configuration of the ingress, and what it takes from Python: `declared` is `int(cl)` for a text
-- that `isdigit`, `hash` and `stamp` are as in the checks of requests, `parse_seconds` is `float`, and
-- `near` compares a time with the clock. A window of 0 stands for one that is not positive.
pub record Webhook : Type 0 where
  pub ingress : Ingress
  pub webhook_secret : String
  pub queue_maxsize : ℕ
  pub max_body_bytes : ℕ
  pub webhook_max_skew_s : ℕ
  pub declared : String → Option ℕ
  pub hash : String → List ℕ → String
  pub stamp : String → List ℕ → List ℕ
  pub parse_seconds : String → Option Number
  pub near : Number → ℕ → Bool
  pub json_loads : List ℕ → Decoded

-- `[A-Za-z0-9_-]`.
is_id_code : ℕ → Bool
is_id_code c =
    (leb b'A' c && leb c b'Z')
    || ((leb b'a' c && leb c b'z')
        || ((leb b'0' c && leb c b'9') || (nat_beq c b'_' || nat_beq c b'-')))

-- `$` also matches before a line feed at the end.
unfoldable pub without_feed : List ℕ → List ℕ
without_feed [] = []
without_feed (c ∷ []) = if nat_beq c 10 then [] else c ∷ []
without_feed (c ∷ d ∷ cs) = c ∷ without_feed (d ∷ cs)

unfoldable pub id_codes : List ℕ → Bool
unfolding is_id_code
id_codes cs = all is_id_code cs && (leb 1 (length cs) && leb (length cs) 128)

-- `_INCIDENT_ID_RE.match(incident_id)`.
unfoldable pub matches_id : String → Bool
matches_id s = id_codes (without_feed (codes s))

-- A declared length over the cap is refused before the body is read.
unfoldable pub check_length : Webhook → Option String → Result (Unit {0})
check_length s none = ok tt
check_length s (some cl) = elim (s.declared cl) [
  | none ↦ ok tt
  | some n ↦ raise_if (ltb s.max_body_bytes n) (http_exception "request body too large" 413)
]

-- The window and the signature.
unfoldable pub authenticate : Webhook → Request → List ℕ → Result (Unit {0})
authenticate s req body =
    let windowed = ltb 0 s.webhook_max_skew_s in
    raise_if
      (windowed
        && not (timestamp_within_skew s.parse_seconds s.near req.timestamp s.webhook_max_skew_s))
      (http_exception "stale or missing timestamp" 401)
    >> (verify_signature s.hash s.stamp s.webhook_secret body req.signature
          (if windowed then req.timestamp else none)
        >>= λ verified. raise_if (not verified) (http_exception "invalid or missing signature" 401))

-- `json.loads(body) if body else {}`, and that it is an object.
unfoldable pub object_of : Decoded → Result Row
object_of (decoded (dict payload)) = ok payload
object_of (decoded _) = raise (http_exception "body must be a JSON object" 400)
object_of malformed = raise (http_exception "invalid JSON body" 400)
object_of undecodable = raise (value_error "'utf-8' codec can't decode the body")

unfoldable pub payload_of : Webhook → List ℕ → Result Row
payload_of s [] = ok empty
payload_of s (b ∷ bs) = object_of (s.json_loads (b ∷ bs))

unfoldable pub id_of : Option Value → Result String
id_of (some (str id)) =
    if matches_id id
    then ok id
    else raise (http_exception "id must be a string matching ^[A-Za-z0-9_-]{1,128}$" 400)
id_of _ = raise (http_exception "id must be a string matching ^[A-Za-z0-9_-]{1,128}$" 400)

-- A field that must be a text or null.
unfoldable pub text_or_null : String → Option Value → Result (Option String)
text_or_null name none = ok none
text_or_null name (some null) = ok none
text_or_null name (some (str s)) = ok (some s)
text_or_null name (some _) = raise (http_exception name 400)

-- The guards of the endpoint, up to the id and the hint.
unfoldable pub admit : Webhook → Request → Result (String × Option String)
admit s req = do
  check_length s req.content_length
  body ← read_capped_body s.max_body_bytes req.chunks
  authenticate s req body
  payload ← payload_of s body
  incident_id ← id_of (get "id" payload)
  hint ← text_or_null "hint must be a string" (get "hint" payload)
  ok (incident_id, hint)

-- The queue and the stores that the endpoint changes.
pub record State : Type 0 where
  pub queue : List String
  pub world : World

-- The queue is full: the claim is undone, and the client is to retry.
unfoldable pub shed : Result (Unit {0}) × World → List String → Result Ingested × State
shed (ok _, w) queue =
    (raise (http_exception "server busy, retry later" 503), record { queue = queue; world = w })
shed (raise e, w) queue = (raise e, record { queue = queue; world = w })

unfoldable pub enqueued :
    Webhook → String → Ingested → State → Result (List String) → Result Ingested × State
enqueued s incident_id a st (ok longer) = (ok a, record st { queue = longer })
enqueued s incident_id a st (raise _) =
    shed (rollback_ingest s.ingress incident_id st.world) st.queue

unfoldable pub settle : Webhook → String → Result Ingested → State → Result Ingested × State
settle s incident_id (raise e) st = (raise e, st)
settle s incident_id (ok a) st = elim a.should_enqueue [
  | true ↦ enqueued s incident_id a st (enqueue s.queue_maxsize incident_id st.queue)
  | false ↦ (ok a, st)
]

unfoldable pub ingest_and_enqueue :
    Webhook → String → Option String → State → Result Ingested × State
ingest_and_enqueue s incident_id hint st =
    let answered = ingest_incident s.ingress incident_id hint st.world in
    settle s incident_id answered.0 (record st { world = answered.1 })

unfoldable pub after_guards :
    Webhook → Result (String × Option String) → State → Result Ingested × State
after_guards s (raise e) st = (raise e, st)
after_guards s (ok (incident_id, hint)) st = ingest_and_enqueue s incident_id hint st

unfoldable pub create_incident_ep : Webhook → Request → State → Result Ingested × State
create_incident_ep s req st = after_guards s (admit s req) st
