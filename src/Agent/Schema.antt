-- ===== src/Agent/Schema.antt =====
-- agent/schema.py: the diagnosis contract. `note` is display text; what is checked is the key.
pub mod Validity
use quellgeist.Base.{
  ℕ, ◌^◌, String, Bool, true, false, not, ◌&&◌, ◌==◌, string_eq, Option, none, some, List, [], ◌∷◌,
  all, if◌then◌else◌, ℤ, pos, lez, ◌≡◌, refl, ◌↔◌, Eq,
}
use quellgeist.Effects.{Result, ok, raise, validation_error}
use quellgeist.Signals.{Float, Number, finite, infinite, not_a_number, Key, int_key, str_key}

-- The discriminator of an evidence reference.
pub data Kind : Type 0 where
  log commit metric : Kind

unfoldable pub kind_beq : Kind → Kind → Bool
kind_beq log log = true
kind_beq commit commit = true
kind_beq metric metric = true
kind_beq _ _ = false

unfoldable pub kind_name : Kind → String
kind_name log = "log"
kind_name commit = "commit"
kind_name metric = "metric"

pub data EvidenceRef : Type 0 where
  log_ref : (id : ℤ) (note : String) → EvidenceRef
  commit_ref : (sha : String) (note : String) → EvidenceRef
  metric_ref : (id : String) (note : String) → EvidenceRef

pub ref_type : EvidenceRef → Kind
ref_type (log_ref _ _) = log
ref_type (commit_ref _ _) = commit
ref_type (metric_ref _ _) = metric

pub ref_id : EvidenceRef → Key
ref_id (log_ref id _) = int_key id
ref_id (commit_ref sha _) = str_key sha
ref_id (metric_ref id _) = str_key id

unfoldable ref_note : EvidenceRef → String
ref_note (log_ref _ n) = n
ref_note (commit_ref _ n) = n
ref_note (metric_ref _ n) = n

abbrev pub Handle : Type 0
Handle = Kind × Key

unfoldable pub key : EvidenceRef → Handle
unfolding ref_type ref_id
key r = (ref_type r, ref_id r)

pub record Hypothesis : Type 0 where
  pub cause : String
  pub confidence : Number
  pub evidence : List EvidenceRef

pub record Diagnosis : Type 0 where
  pub summary : String
  pub abstained : Bool
  pub abstention_reason : Option String
  pub hypotheses : List Hypothesis
  pub suggested_actions : List String

abbrev pub is_empty {ℓ} : {A : Type ℓ} → List A → Bool
is_empty [] = true
is_empty (_ ∷ _) = false

-- `bool(s)` of an optional string: neither None nor empty.
abbrev pub truthy : Option String → Bool
truthy none = false
truthy (some s) = not (s == "")

-- `ge=0.0, le=1.0`: a value that is below 0 or above 1 is refused, so NaN, which is neither, is let in.
in_range : Number → Bool
unfolding lez
in_range (finite f) = lez (pos 0) f.mantissa && lez f.mantissa (pos (2 ^ f.scale))
in_range infinite = false
in_range not_a_number = true

-- The constraints on the fields of a hypothesis: the range of its confidence, and at least one handle.
unfoldable pub check_hypothesis : Hypothesis → Bool
unfolding in_range
check_hypothesis h = in_range h.confidence && not (is_empty h.evidence)

-- `_abstention_invariant`.
unfoldable pub abstention_invariant : Diagnosis → Result Diagnosis
abstention_invariant d =
    if d.abstained
    then (if not (truthy d.abstention_reason)
        then raise (validation_error "abstained=True requires a non-empty abstention_reason")
        else if not (is_empty d.hypotheses)
        then raise
            (validation_error "abstained=True is incompatible with a non-empty hypotheses list")
        else ok d)
    else if is_empty d.hypotheses
    then raise (validation_error "a non-abstained Diagnosis must contain at least one hypothesis")
    else ok d

-- Validation of decoded fields: first each hypothesis, then the model validator.
unfoldable pub validate : Diagnosis → Result Diagnosis
validate d =
    if all check_hypothesis d.hypotheses
    then abstention_invariant d
    else raise (validation_error "invalid hypothesis")
