-- ===== src/Agent/Timing.antt =====
-- agent/timing_verifier.py: a hypothesis whose cited commits all come after the first error is
-- dropped. `fromisoformat` is a parameter: it reads a text as a time without or with an offset, and
-- Python does not compare the one with the other.
pub mod Ordering
use quellgeist.Base.{
  ℕ, ◌<◌, String, Bool, true, false, Option, none, some, List, [], ◌∷◌, ◌++◌, ltb, strip, drop_z,
  upper_is, if◌then◌else◌, map,
}
use quellgeist.Effects.{Result, ok, raise, type_error, ◌>>=◌}
use quellgeist.Signals.{Value, str, Row, get, is_hashable, Key, str_key, key_eq}
use quellgeist.Agent.Schema.{EvidenceRef, commit_ref, Hypothesis, Diagnosis}
use quellgeist.Agent.Codec.{Codec}
use quellgeist.Agent.Verifier.{HypothesisVerdict, VerifierResult, Judged, add_verdict, conclude}

-- Microseconds of the wall clock, or of UTC.
pub data DateTime : Type 0 where
  naive : ℕ → DateTime
  aware : ℕ → DateTime

pub record TimeCodec : Type 0 where
  pub codec : Codec
  pub fromisoformat : String → Option DateTime
  pub objection_text : List String → DateTime → String

-- `a < b` on times.
unfoldable pub time_lt : DateTime → DateTime → Result Bool
time_lt (naive a) (naive b) = ok (ltb a b)
time_lt (aware a) (aware b) = ok (ltb a b)
time_lt _ _ = raise (type_error "can't compare offset-naive and offset-aware datetimes")

-- `_parse_ts`, on what `row.get("ts")` gave.
unfoldable parse_ts : TimeCodec → Option Value → Option DateTime
parse_ts tc (some (str s)) = tc.fromisoformat (drop_z (strip s))
parse_ts tc _ = none

-- `str(r.get("level", "")).upper() == "ERROR"`.
unfoldable pub is_error_level : Codec → Option Value → Bool
is_error_level codec none = false
is_error_level codec (some (str s)) = upper_is s "ERROR"
is_error_level codec (some v) = upper_is (codec.str_of v) "ERROR"

unfoldable error_times : TimeCodec → List Row → List DateTime
error_times tc [] = []
error_times tc (row ∷ rows) =
    let rest = error_times tc rows in
    if is_error_level tc.codec (get "level" row)
    then elim (parse_ts tc (get "ts" row)) [ none ↦ rest | some t ↦ t ∷ rest ]
    else rest

-- `min(times)`, from the least so far.
unfoldable min_time : DateTime → List DateTime → Result DateTime
min_time least [] = ok least
min_time least (t ∷ ts) = do smaller ← time_lt t least; min_time (if smaller then t else least) ts

unfoldable least_time : List DateTime → Result (Option DateTime)
least_time [] = ok none
least_time (t ∷ ts) = do least ← min_time t ts; ok (some least)

unfoldable first_error_ts : TimeCodec → List Row → Result (Option DateTime)
first_error_ts tc logs = least_time (error_times tc logs)

-- `{c["sha"]: t for c in commits if "sha" in c and (t := ...) is not None}`, in insertion order.
abbrev pub CommitTimes : Type 0
CommitTimes = List (Value × DateTime)

unfoldable time_entry : Option Value → Option DateTime → Result CommitTimes
time_entry none _ = ok []
time_entry (some v) none = ok []
time_entry (some v) (some t) = elim (is_hashable v) [
  | true ↦ ok ((v, t) ∷ [])
  | false ↦ raise (type_error "unhashable type")
]

unfoldable commit_times : TimeCodec → List Row → Result CommitTimes
commit_times tc [] = ok []
commit_times tc (c ∷ cs) = do
  here ← time_entry (get "sha" c) (parse_ts tc (get "ts" c))
  rest ← commit_times tc cs
  ok (here ++ rest)

-- `commit_ts[sha]`, if it is there.
unfoldable pub find_time : Key → CommitTimes → Option DateTime
find_time k [] = none
find_time k ((v, t) ∷ rest) = elim (find_time k rest) [
  | some u ↦ some u
  | none ↦ if key_eq k v then some t else none
]

-- `[e.ref_id for e in hyp.evidence if isinstance(e, CommitRef)]`.
unfoldable pub cited_commits : List EvidenceRef → List String
cited_commits [] = []
cited_commits (commit_ref sha _ ∷ es) = sha ∷ cited_commits es
cited_commits (_ ∷ es) = cited_commits es

-- `[(sha, commit_ts[sha]) for sha in cited if sha in commit_ts]`.
unfoldable pub resolved_commits : CommitTimes → List String → List (String × DateTime)
resolved_commits index [] = []
resolved_commits index (sha ∷ shas) =
    let rest = resolved_commits index shas in
    elim (find_time (str_key sha) index) [ none ↦ rest | some t ↦ (sha, t) ∷ rest ]

-- `all(ts > first_err for ...)`, which stops at the first that is not.
unfoldable pub all_after : DateTime → List (String × DateTime) → Result Bool
all_after first [] = ok true
all_after first ((_, t) ∷ rest) =
    let later = all_after first rest in time_lt first t >>= λ b. if b then later else ok false

abbrev state_objection : TimeCodec → DateTime → List (String × DateTime) → Bool → Option String
state_objection tc first resolved true = some (tc.objection_text (map (λ r. r.0) resolved) first)
state_objection tc first resolved false = none

abbrev object_to : TimeCodec → DateTime → List (String × DateTime) → Result (Option String)
object_to tc first [] = ok none
object_to tc first (r ∷ rs) = do
  after ← all_after first (r ∷ rs)
  ok (state_objection tc first (r ∷ rs) after)

unfoldable pub timing_objection :
    TimeCodec → Hypothesis → Option DateTime → CommitTimes → Result (Option String)
timing_objection tc hyp none index = ok none
timing_objection tc hyp (some first) index =
    object_to tc first (resolved_commits index (cited_commits hyp.evidence))

abbrev timing_verdict : Hypothesis → Option String → HypothesisVerdict
timing_verdict hyp none = record {
  cause = hyp.cause;
  supported = true;
  reason = "no timing objection";
}
timing_verdict hyp (some objection) = record {
  cause = hyp.cause;
  supported = false;
  reason = objection;
}

time_all : TimeCodec → Option DateTime → CommitTimes → List Hypothesis → Result Judged
time_all tc first index [] = ok ([], [])
time_all tc first index (hyp ∷ hyps) = do
  objection ← timing_objection tc hyp first index
  rest ← time_all tc first index hyps
  ok (add_verdict hyp (timing_verdict hyp objection) rest)

abbrev timing_dropped_all : String
timing_dropped_all =
    "timing verifier dropped all hypotheses: every cited commit post-dates the incident's first error (a cause cannot follow its effect)"

verify_timing : TimeCodec → Diagnosis → List Row → List Row → Result VerifierResult
verify_timing tc d logs commits = elim d.abstained [
  | true ↦ ok (record { diagnosis = d; verdicts = [] })
  | false ↦ do
    first ← first_error_ts tc logs
    index ← commit_times tc commits
    judged ← time_all tc first index d.hypotheses
    conclude timing_dropped_all d judged
]
