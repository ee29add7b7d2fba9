-- ===== src/Effects.antt =====
-- Exceptions as values. A Python function that may raise returns a `Result`.
use quellgeist.Base.{String, ◌≡◌, refl, ℕ, Bool, true, false, ◌⊎◌, inl, inr}

-- The exception classes that the modelled code raises or catches, with their messages.
pub data Exn : Type 0 where
  type_error value_error key_error os_error runtime_error : String → Exn
  overflow_error attribute_error : String → Exn
  operational_error integrity_error : String → Exn
  provider_error json_action_error validation_error : String → Exn
  publish_refused fabrication_error queue_full : String → Exn
  review_error resolution_error http_exception : String → ℕ → Exn

-- `str(e)`.
unfoldable pub message : Exn → String
message (type_error m) = m
message (value_error m) = m
message (key_error m) = m
message (os_error m) = m
message (runtime_error m) = m
message (overflow_error m) = m
message (attribute_error m) = m
message (operational_error m) = m
message (integrity_error m) = m
message (provider_error m) = m
message (json_action_error m) = m
message (validation_error m) = m
message (publish_refused m) = m
message (fabrication_error m) = m
message (queue_full m) = m
message (review_error m _) = m
message (resolution_error m _) = m
message (http_exception m _) = m

pub data Result {κ} (X : Type κ) : Type κ where
  ok : X → Result X
  raise : Exn → Result X

-- `if c: raise e`.
abbrev pub raise_if : Bool → Exn → Result (Unit {0})
raise_if false e = ok tt
raise_if true e = raise e

pub ok-injective {κ} : {X : Type κ} {x y : X} → ok x ≡ ok y → x ≡ y
ok-injective e = cc

infixl 5 ◌>>=◌ ◌>>◌
abbrev pub ◌>>=◌ {κ μ} : {X : Type κ} {Y : Type μ} → Result X → (X → Result Y) → Result Y
raise e >>= rest = raise e
ok x >>= rest = rest x

pub Result-cases {κ} :
    {X : Type κ} (r : Result X) → ((e : Exn) × (r ≡ raise e)) ⊎ ((x : X) × (r ≡ ok x))
Result-cases (raise e) = inl (e, refl)
Result-cases (ok x) = inr (x, refl)

-- Two blocks with the same first action, whose rests agree on every value.
pub >>=-ext {κ μ} :
    {X : Type κ} {Y : Type μ} (r : Result X) (f g : X → Result Y)
    → ((x : X) → f x ≡ g x)
    → (r >>= f) ≡ (r >>= g)
>>=-ext (raise e) f g h = refl
>>=-ext (ok x) f g h = h x

abbrev pub ◌>>◌ {κ μ} : {X : Type κ} {Y : Type μ} → Result X → Result Y → Result Y
r >> rest = r >>= λ _. rest

-- A block that succeeds: its first action did, with a value, and so did the rest on that value.
pub >>=-eq-ok {κ μ} :
    {X : Type κ} {Y : Type μ} (r : Result X) (rest : X → Result Y) {y : Y}
    → (r >>= rest) ≡ ok y
    → (x : X) × (r ≡ ok x) × (rest x ≡ ok y)
>>=-eq-ok (raise e) rest h = cc
>>=-eq-ok (ok x) rest h = (x, refl, h)
