-- ===== src/Agent/Citations.antt =====
-- agent/citations.py: every handle that a diagnosis cites must be a signal of the incident.
pub mod Exact
use quellgeist.Base.{
  String, Bool, true, false, not, ◌&&◌, ◌||◌, Option, none, some, List, [], ◌∷◌, ◌++◌, map,
  flat_map, keep, any, if◌then◌else◌, ◌==◌, int_eq, string_eq,
}
use quellgeist.Effects.{Result, ok, raise, type_error, fabrication_error, ◌>>=◌}
use quellgeist.Signals.{Value, Row, get, is_hashable, key_eq, int_key, str_key}
use quellgeist.Agent.Schema.{
  Kind, log, commit, metric, kind_beq, key, Handle, Hypothesis, Diagnosis, is_empty,
}

-- A handle that a signal offers: the identifier is whatever the row holds.
abbrev pub RealHandle : Type 0
RealHandle = Kind × Value

-- `if field in row: handles.add((kind, row[field]))`; an identifier that cannot be hashed raises.
unfoldable pub add_handle : Kind → Option Value → Result (List RealHandle)
add_handle kind none = ok []
add_handle kind (some v) = elim (is_hashable v) [
  | true ↦ ok ((kind, v) ∷ [])
  | false ↦ raise (type_error "unhashable type")
]

unfoldable pub handles_of : Kind → String → List Row → Result (List RealHandle)
handles_of kind name [] = ok []
handles_of kind name (row ∷ rows) = do
  here ← add_handle kind (get name row)
  rest ← handles_of kind name rows
  ok (here ++ rest)

-- `metrics or []`.
abbrev pub or_empty {ℓ} : {A : Type ℓ} → Option (List A) → List A
or_empty none = []
or_empty (some l) = l

unfoldable pub real_signal_handles :
    List Row → List Row → Option (List Row) → Result (List RealHandle)
real_signal_handles logs commits metrics = do
  from_logs ← handles_of log "id" logs
  from_commits ← handles_of commit "sha" commits
  from_metrics ← handles_of metric "metric" (or_empty metrics)
  ok (from_logs ++ from_commits ++ from_metrics)

-- Equality of two cited handles, as tuples.
unfoldable pub handle_same : Handle → Handle → Bool
handle_same (kind, int_key a) (kind', int_key b) = kind_beq kind kind' && a == b
handle_same (kind, str_key a) (kind', str_key b) = kind_beq kind kind' && a == b
handle_same _ _ = false

-- A set of handles, as a list without repetition.
handle_set : List Handle → List Handle
unfolding handle_same
handle_set [] = []
handle_set (h ∷ hs) =
    let rest = handle_set hs in if any (handle_same h) rest then rest else h ∷ rest

unfoldable pub cited_handles : Diagnosis → List Handle
unfolding handle_set
cited_handles d = handle_set (flat_map (λ h. map key h.evidence) d.hypotheses)

-- Equality of a cited and a real handle, as tuples.
unfoldable pub handle_eq : Handle → RealHandle → Bool
handle_eq h r = kind_beq h.0 r.0 && key_eq h.1 r.1

-- The `fabricated` set of the result.
unfoldable pub check_fabrication :
    Diagnosis → List Row → List Row → Option (List Row) → Result (List Handle)
check_fabrication d logs commits metrics = do
  real ← real_signal_handles logs commits metrics
  ok (keep (λ h. not (any (handle_eq h) real)) (cited_handles d))

unfoldable assert_no_fabrication :
    Diagnosis → List Row → List Row → Option (List Row) → Result (Unit {0})
assert_no_fabrication d logs commits metrics = do
  fabricated ← check_fabrication d logs commits metrics
  elim (is_empty fabricated) [
    | true ↦ ok tt
    | false ↦ raise (fabrication_error "cited evidence not found in real signals")
  ]
