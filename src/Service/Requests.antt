-- ===== src/Service/Requests.antt =====
-- service/security.py, the capped body of service/app.py, and the checks of service/config.py.
-- The hash, the clock and the reading of a float are arguments; bytes are numbers.
pub mod Bounds
use quellgeist.Base.{
  ℕ, zero, ◌+◌, String, Bool, true, false, ◌||◌, ◌==◌, string_eq, Option, none, some, List, [], ◌∷◌,
  ◌++◌, length, ltb, all, codes, ◌&&◌, if◌then◌else◌,
}
use quellgeist.Effects.{
  Result, ok, raise, value_error, type_error, http_exception, ◌>>=◌, ◌>>◌, raise_if,
}
use quellgeist.Agent.Providers.{Provider}

abbrev blank : Option String → Bool
blank none = true
blank (some s) = s == ""

-- `sign`, given the keyed hash and how the time stamp is put before the body.
unfoldable pub sign :
    (String → List ℕ → String)
    → (String → List ℕ → List ℕ)
    → String
    → List ℕ
    → Option String
    → String
sign hash stamp secret body none = hash secret body
sign hash stamp secret body (some ts) = hash secret (stamp ts body)

-- `hmac.compare_digest` on two texts, which refuses a text that is not ASCII.
unfoldable pub compare_digest : String → String → Result Bool
compare_digest a b =
    if all (λ c. ltb c 128) (codes a) && all (λ c. ltb c 128) (codes b)
    then ok (a == b)
    else raise (type_error "comparing strings with non-ASCII characters is not supported")

unfoldable pub verify_signature :
    (String → List ℕ → String)
    → (String → List ℕ → List ℕ)
    → String
    → List ℕ
    → Option String
    → Option String
    → Result Bool
verify_signature hash stamp secret body none timestamp = ok false
verify_signature hash stamp secret body (some signature) timestamp =
    if secret == "" || signature == ""
    then ok false
    else compare_digest (sign hash stamp secret body timestamp) signature

-- `timestamp_within_skew`; `parse` is `float` with `none` for its ValueError, and `near` says whether
-- a time is at most so many seconds from now.
unfoldable pub timestamp_within_skew :
    {Time : Type 0} → (String → Option Time) → (Time → ℕ → Bool) → Option String → ℕ → Bool
timestamp_within_skew parse near none max_skew_s = false
timestamp_within_skew parse near (some timestamp) max_skew_s =
    if timestamp == ""
    then false
    else elim (parse timestamp) [ none ↦ false | some ts ↦ near ts max_skew_s ]

-- The loop of `_read_capped_body`, with the total and the chunks so far.
read_chunks : ℕ → ℕ → List ℕ → List (List ℕ) → Result (List ℕ)
read_chunks cap total body [] = ok body
read_chunks cap total body (chunk ∷ chunks) =
    let rest = read_chunks cap (total + length chunk) (body ++ chunk) chunks in
    if ltb cap (total + length chunk)
    then raise (http_exception "request body too large" 413)
    else rest

unfoldable pub read_capped_body : ℕ → List (List ℕ) → Result (List ℕ)
unfolding read_chunks
read_capped_body cap chunks = read_chunks cap 0 [] chunks

-- `ServiceConfig.__post_init__`.
unfoldable post_init : (num_workers queue_maxsize max_body_bytes : ℕ) → Result (Unit {0})
post_init num_workers queue_maxsize max_body_bytes = do
  raise_if (ltb num_workers 1) (value_error "num_workers must be >= 1")
  raise_if (ltb queue_maxsize 1) (value_error "queue_maxsize must be >= 1")
  raise_if (ltb max_body_bytes 1) (value_error "max_body_bytes must be >= 1")

-- `make_verifier_provider`; `make` is LiteLLMProvider(model=...).
unfoldable make_verifier_provider :
    Option (Option Provider)
    → (String → Provider)
    → (verifier_model model : String) → Option Provider
make_verifier_provider (some made) make verifier_model model = made
make_verifier_provider none make verifier_model model =
    if verifier_model == "" || verifier_model == model then none else some (make verifier_model)
