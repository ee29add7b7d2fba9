-- ===== src/Service/Operator/Closed.antt =====
-- service/app.py `_require_operator`: whom the operator's endpoints answer.
use Prim.Native.Char.{Char, code}
use Prim.Native.Nat.{compare, Ordering}
use text.Mathlib.TextEquality.{codes_equal}
use text.Mathlib.Text.{is_eq}
use quellgeist.Base.{
  String, ◌≡◌, ◌≢◌, refl, sym, ap, ◌∙◌, ◌⊎◌, inl, inr, Bool, true, false, ◌==◌, string_eq, Option,
  none, some, nat_beq, Bool-cases, is_blank, eq_iff, arith,
}
use quellgeist.Effects.{Exn, Result, ok, raise, Result-cases}
use quellgeist.Ingest.Lines.Printed.{append}
use quellgeist.Store.World.{World, ◌>>=◌}
use quellgeist.Service.Requests.{compare_digest}
use quellgeist.Service.Endpoints.{Request}
use quellgeist.Service.Endpoints.Admission.{compare_digest-eq}
use quellgeist.Service.Operator.{
  Console, after_prefix, matched, require_operator, as_operator, get_incident_page,
  get_incident_status, post_review, post_verify_resolution,
}

is_eq-eq : (o : Ordering) → is_eq o ≡ true → o ≡ Ordering.eq
is_eq-eq Ordering.lt h = absurd (cc)
is_eq-eq Ordering.eq h = refl
is_eq-eq Ordering.gt h = absurd (cc)

same_char : (c d : Char) → nat_beq (code c) (code d) ≡ true → c ≡ d
same_char c d h = codes_equal c d (is_eq-eq (compare (code c) (code d)) h)

after_prefix-append :
    (p h : String) → is_blank (after_prefix p h) ≡ false → h ≡ append p (after_prefix p h)
unfolding after_prefix append
after_prefix-append String.[] h e = refl
after_prefix-append (String.◌∷◌ p ps) String.[] e = absurd (cc)
after_prefix-append (String.◌∷◌ p ps) (String.◌∷◌ c cs) e =
    elim (Bool-cases (nat_beq (code p) (code c))) [
      | inl t ↦ rw t (
          ap (λ d. String.◌∷◌ d cs) (sym (same_char p c t))
          ∙ ap (λ s. String.◌∷◌ p s) (after_prefix-append ps cs (rw (t, after_prefix) at e)))
      | inr t ↦ absurd (cc (rw (t, after_prefix) at e))
    ]

matched-ok : (r : Result Bool) → matched r ≡ ok tt → r ≡ ok true
unfolding matched
matched-ok (ok true) e = refl
matched-ok (ok false) e = absurd (cc)
matched-ok (raise x) e = absurd (cc)

without_header : (token : String) → require_operator token none ≢ ok tt
unfolding require_operator after_prefix
without_header token e = elim (Bool-cases (token == "")) [
  | inl t ↦ absurd (cc (rw (t, require_operator) at e))
  | inr t ↦ absurd (cc (rw (t, require_operator) at e))
]

-- Whoever passes has presented the token, and there is one.
require_operator-token :
    (token : String) (authorization : Option String)
    → require_operator token authorization ≡ ok tt
    → (token ≢ "") × (authorization ≡ some (append "Bearer " token))
unfolding require_operator
require_operator-token token none e = absurd (without_header token e)
require_operator-token token (some header) e =
    let presented = after_prefix "Bearer " header in
    elim (Bool-cases (token == "")) [
      | inl t ↦ absurd (cc (rw (t, require_operator) at e))
      | inr t ↦ elim (Bool-cases (presented == "")) [
        | inl b ↦ absurd (cc (rw (t, b, require_operator) at e))
        | inr b ↦
            let same =
              compare_digest-eq presented token
                (matched-ok (compare_digest presented token) (rw (t, b, require_operator) at e)) in
            (
              ground (arith, t, eq_iff token ""),
              ap some (
                  after_prefix-append "Bearer " header (nonblank presented b)
                  ∙ ap (append "Bearer ") same),
            )
      ]
    ]
  where
    nonblank : (s : String) → s == "" ≡ false → is_blank s ≡ false
    nonblank String.[] h = absurd (cc)
    nonblank (String.◌∷◌ c s) h = refl

-- Without the token in its header, or where no token is configured, a request to any of the operator's
-- four endpoints raises, reads nothing and changes nothing.
pub operator_endpoints_closed :
    (c : Console) (id : String) (req : Request) (w : World)
    → (c.operator_token ≡ "") ⊎ (req.authorization ≢ some (append "Bearer " c.operator_token))
    → (e : Exn) × (get_incident_page c id req w ≡ (raise e, w))
      × (get_incident_status c id req w ≡ (raise e, w))
      × (post_review c id req w ≡ (raise e, w))
      × (post_verify_resolution c id req w ≡ (raise e, w))
unfolding get_incident_page get_incident_status post_review post_verify_resolution as_operator ◌>>=◌
operator_endpoints_closed c id req w h =
    elim (Result-cases (require_operator c.operator_token req.authorization)) [
      | inl (e, r) ↦ (e, rw r refl, rw r refl, rw r refl, rw r refl)
      | inr (u, r) ↦
          let t = require_operator-token c.operator_token req.authorization r in
          absurd (elim h [ inl empty_token ↦ t.0 empty_token | inr other ↦ other t.1 ])
    ]
