-- ===== src/Agent/Loop/Budget.antt =====
-- The loop is bounded, and whatever ends it the diagnosis is coherent.
use quellgeist.Base.{
  ℕ, zero, suc, ◌+◌, ◌*◌, ◌≤◌, String, ◌≡◌, refl, sym, ap, subst, Bool, true, false, ◌==◌,
  string_eq, Option, none, some, List, [], ◌∷◌, ◌++◌, arith, length, length-append, join-nonblank,
  Bool-cases, inl, inr, if◌then◌else◌,
}
use quellgeist.Effects.{Exn, Result, ok, raise, message, >>=-eq-ok, ok-injective, Result-cases}
use quellgeist.Signals.{Value, str, dict, Row, get}
use quellgeist.Agent.Schema.{Diagnosis}
use quellgeist.Agent.Schema.Validity.{IsCoherent, validate-ok}
use quellgeist.Agent.Codec.{Codec}
use quellgeist.Agent.Actions.{extract_json}
use quellgeist.Agent.Providers.{Provider, Message, complete, made_of, retries_of}
use quellgeist.Agent.Providers.Retry.{complete_bounds}
use quellgeist.Agent.Loop.{
  ToolSpec, Prompts, LoopResult, abstain, record_seen, complain, Turn, done, again, find_tool,
  build_diagnosis, validated, diagnose, observe, call_tool, with_tool, act, turn, exhausted,
  after_turn, run_steps, start, run_loop, unknown_action, fallback_exhausted_prefix,
}

-- What one turn may add, with at most `n` tool calls.
record Progress (n : ℕ) (r r' : LoopResult) : Type 0 where
  steps : r'.steps ≡ r.steps
  calls : length r'.tool_calls ≤ length r.tool_calls + n
  violations : length r'.schema_violations ≤ length r.schema_violations + 1

abbrev TurnOk : ℕ → LoopResult → Turn → Type 0
TurnOk n r (done r') = Progress n r r' × IsCoherent r'.diagnosis
TurnOk n r (again r') = Progress n r r'

append_one : {A : Type 0} (xs : List A) (y : A) → length (xs ++ y ∷ []) ≤ length xs + 1
append_one xs y = omega (arith, length-append xs (y ∷ []))

complain-Progress : (error : String) (r : LoopResult) → Progress 0 r (complain error r)
unfolding complain
complain-Progress error r = record {
  steps = refl;
  calls = omega arith;
  violations = append_one r.schema_violations error;
}

validated-IsCoherent : (o : Option Diagnosis) (d : Diagnosis) → validated o ≡ ok d → IsCoherent d
unfolding validated
validated-IsCoherent none d e = absurd (cc)
validated-IsCoherent (some x) d e = let k = (validate-ok x d).0 e in subst IsCoherent (sym k.0) k.1

build-IsCoherent :
    (codec : Codec) (v : Value) (d : Diagnosis) → build_diagnosis codec v ≡ ok d → IsCoherent d
unfolding build_diagnosis
build-IsCoherent codec (dict fields) d e = validated-IsCoherent (codec.coerce fields) d e
build-IsCoherent codec _ d e = absurd (cc)

diagnose-Fine :
    (r : LoopResult) (b : Result Diagnosis)
    → ((d : Diagnosis) → b ≡ ok d → IsCoherent d)
    → TurnOk 0 r (diagnose b r)
unfolding diagnose
diagnose-Fine r (ok d) h =
    (record { steps = refl; calls = omega arith; violations = omega arith }, h d refl)
diagnose-Fine r (raise e) h = complain-Progress (message e) r

observe-Fine :
    (codec : Codec) (action : String) (rows : Result (List Row)) (r : LoopResult) (t : Turn)
    → observe codec action rows r ≡ ok t
    → TurnOk 0 r t
unfolding observe
observe-Fine codec action (raise e) r t q =
    subst (TurnOk 0 r) (ok-injective q) (complain-Progress _ r)
observe-Fine codec action (ok rows) r t q =
    let s = >>=-eq-ok (record_seen r.seen_handles rows) _ q in
    subst (TurnOk 0 r) (ok-injective s.2)
      (record { steps = refl; calls = omega arith; violations = omega arith })

weaken : (r : LoopResult) (t : Turn) → TurnOk 0 r t → TurnOk 1 r t
weaken r (done r') (p, c) =
    (record { steps = p.steps; calls = omega (arith, p.calls); violations = p.violations }, c)
weaken r (again r') p = record {
  steps = p.steps;
  calls = omega (arith, p.calls);
  violations = p.violations;
}

after_call :
    (call : String × Row) (r : LoopResult) (t : Turn)
    → TurnOk 0 (record r { tool_calls = r.tool_calls ++ call ∷ [] }) t
    → TurnOk 1 r t
after_call call r (done r') (p, c) = (
  record {
    steps = p.steps;
    calls = omega (arith, p.calls, append_one r.tool_calls call);
    violations = p.violations;
  },
  c,
)
after_call call r (again r') p = record {
  steps = p.steps;
  calls = omega (arith, p.calls, append_one r.tool_calls call);
  violations = p.violations;
}

abbrev refused :
    (r : LoopResult) (error : String) (t : Turn)
    → ◌≡◌ {A = Result Turn} (ok (again (complain error r))) (ok t)
    → TurnOk 1 r t
refused r error t q =
    subst (TurnOk 1 r) (ok-injective q)
      (weaken r (again (complain error r)) (complain-Progress error r))

call_tool-Fine :
    (codec : Codec) (tool : ToolSpec) (action : String) (args : Option Value) (r : LoopResult)
    (t : Turn)
    → call_tool codec tool action args r ≡ ok t
    → TurnOk 1 r t
unfolding call_tool
call_tool-Fine codec tool action (some (dict args)) r t q =
    after_call (action, args) r t (observe-Fine codec action (tool.fn args) _ t q)
call_tool-Fine codec tool action _ r t q = refused r _ t q

with_tool-Fine :
    (codec : Codec) (tool : Option ToolSpec) (action : String) (args : Option Value)
    (r : LoopResult) (t : Turn)
    → with_tool codec tool action args r ≡ ok t
    → TurnOk 1 r t
unfolding with_tool
with_tool-Fine codec none action args r t q = refused r _ t q
with_tool-Fine codec (some tool) action args r t q = call_tool-Fine codec tool action args r t q

other_value :
    (b : Bool) (x : Exn) (r : LoopResult) (t : Turn)
    → ◌≡◌ {A = Result Turn} (if b then ok (unknown_action r) else raise x) (ok t)
    → TurnOk 1 r t
other_value true x r t q = refused r _ t q
other_value false x r t q = absurd (cc)

act-Fine :
    (codec : Codec) (tools : List ToolSpec) (obj : Row) (action : Option Value) (r : LoopResult)
    (t : Turn)
    → act codec tools obj action r ≡ ok t
    → TurnOk 1 r t
unfolding act
act-Fine codec tools obj none r t q = refused r _ t q
act-Fine codec tools obj (some (str a)) r t q = elim (Bool-cases (a == "diagnose")) [
  | inl d ↦
      subst (TurnOk 1 r) (ok-injective (rw (d, act) at q))
        (weaken r _ (diagnose-Fine r _ (build-IsCoherent codec _)))
  | inr d ↦ with_tool-Fine codec (find_tool a tools) a (get "args" obj) r t (rw (d, act) at q)
]
act-Fine codec tools obj (some v) r t q = other_value _ _ r t q

turn-Fine :
    (codec : Codec) (tools : List ToolSpec) (text : String) (r : LoopResult) (t : Turn)
    → turn codec tools text r ≡ ok t
    → TurnOk 1 r t
unfolding turn
turn-Fine codec tools text r t q = elim (Result-cases (extract_json codec text)) [
  | inl (x, e) ↦ moved _ t (refused _ (message x) t (rw (e, turn) at q))
  | inr (obj, e) ↦ moved _ t (act-Fine codec tools obj (get "action" obj) _ t (rw (e, turn) at q))
]
  where
    moved : (ms : List Message) (t : Turn) → TurnOk 1 (record r { messages = ms }) t → TurnOk 1 r t
    moved ms (done r') (p, c) =
        (record { steps = p.steps; calls = p.calls; violations = p.violations }, c)
    moved ms (again r') p = record { steps = p.steps; calls = p.calls; violations = p.violations }

-- What `left` more steps may add.
record Within (left : ℕ) (r r' : LoopResult) : Type 0 where
  steps : r'.steps ≤ r.steps + left
  calls : length r'.tool_calls + r.steps ≤ length r.tool_calls + r'.steps
  violations : length r'.schema_violations + r.steps ≤ length r.schema_violations + r'.steps
  coherent : IsCoherent r'.diagnosis

exhausted-IsCoherent :
    (codec : Codec) (n : ℕ) (r : LoopResult) → IsCoherent (exhausted codec n r).diagnosis
unfolding exhausted abstain
exhausted-IsCoherent codec n r = record {
  reasoned = λ _. join-nonblank fallback_exhausted_prefix _ refl;
  silent = λ _. refl;
  caused = λ e. cc;
}

-- A turn at the next step, and what the steps after it may add.
again-Within :
    (left : ℕ) (r r1 r2 out : LoopResult)
    → r1.steps ≡ suc r.steps
    → r1.tool_calls ≡ r.tool_calls
    → r1.schema_violations ≡ r.schema_violations
    → Progress 1 r1 r2
    → Within left r2 out
    → Within (suc left) r out
again-Within left r r1 r2 out a b c p w =
    let b' = ap length b in
    let c' = ap length c in
    record {
      steps = omega (arith, a, p.steps, w.steps);
      calls = omega (arith, a, b', p.steps, p.calls, w.calls);
      violations = omega (arith, a, c', p.steps, p.violations, w.violations);
      coherent = w.coherent;
    }

done-Within : (r : LoopResult) → IsCoherent r.diagnosis → Within 0 r r
done-Within r c = record {
  steps = omega arith;
  calls = omega arith;
  violations = omega arith;
  coherent = c;
}

widen : (left : ℕ) (r out : LoopResult) → Within 1 r out → Within (suc left) r out
widen left r out w = record {
  steps = omega (arith, w.steps);
  calls = w.calls;
  violations = w.violations;
  coherent = w.coherent;
}

run_steps-Within :
    (codec : Codec) (tools : List ToolSpec) (n left : ℕ) (r : LoopResult) (p : Provider)
    (out : LoopResult)
    → (run_steps codec tools n left r p).0 ≡ ok out
    → Within left r out
unfolding run_steps after_turn
run_steps-Within codec tools n zero r p out e = subst (Within 0 r) (ok-injective e) (record {
  steps = unfold exhausted in omega arith;
  calls = unfold exhausted in omega arith;
  violations = unfold exhausted in omega arith;
  coherent = exhausted-IsCoherent codec n r;
})
run_steps-Within codec tools n (suc left) r p out e =
    let c = complete p r.messages in
    elim (Result-cases c.0) [
      | inl (x, q) ↦ absurd (clash (rw (q, run_steps) at e))
      | inr (text, q) ↦
          let r1 : LoopResult = record r { steps = suc r.steps; messages = c.1 } in
          let e1 = rw (q, run_steps) at e in
          elim (Result-cases (turn codec tools text r1)) [
            | inl (x, z) ↦ absurd (clash (rw (z, after_turn) at e1))
            | inr (t, z) ↦
                finish r1 t (turn-Fine codec tools text r1 t z) refl refl refl (rw z at e1)
                  (λ r2. run_steps-Within codec tools n left r2 c.2 out)
          ]
    ]
  where
    clash : {x : Exn} → ◌≡◌ {A = Result LoopResult} (raise x) (ok out) → ⊥
    clash k = cc

    finish :
        (r1 : LoopResult) (t : Turn)
        → TurnOk 1 r1 t
        → r1.steps ≡ suc r.steps
        → r1.tool_calls ≡ r.tool_calls
        → r1.schema_violations ≡ r.schema_violations
        → (after_turn (run_steps codec tools n left) (ok t) (complete p r.messages).2).0 ≡ ok out
        → ((r2 : LoopResult)
            → (run_steps codec tools n left r2 (complete p r.messages).2).0 ≡ ok out
            → Within left r2 out)
        → Within (suc left) r out
    finish r1 (done r2) (g, h) a b c k ih =
        widen left r out (
          subst (Within 1 r) (ok-injective k)
            (again-Within 0 r r1 r2 r2 a b c g (done-Within r2 h)))
    finish r1 (again r2) g a b c k ih = again-Within left r r1 r2 out a b c g (ih r2 k)

-- A loop that returns took at most `max_steps` steps, called at most one tool and recorded at most
-- one schema violation per step, and its diagnosis is coherent, also when the steps ran out.
pub run_loop_bounds :
    (codec : Codec) (prompts : Prompts) (provider : Provider) (tools : List ToolSpec) (now : String)
    (max_steps : ℕ) (out : LoopResult)
    → (run_loop codec prompts provider tools now max_steps).0 ≡ ok out
    → (out.steps ≤ max_steps)
      × (length out.tool_calls ≤ out.steps)
      × (length out.schema_violations ≤ out.steps)
      × IsCoherent out.diagnosis
unfolding run_loop start
run_loop_bounds codec prompts provider tools now max_steps out e =
    let w = run_steps-Within codec tools max_steps max_steps _ provider out e in
    (omega (arith, w.steps), omega (arith, w.calls), omega (arith, w.violations), w.coherent)

run_steps-requests :
    (codec : Codec) (tools : List ToolSpec) (n left : ℕ) (r : LoopResult) (p : Provider)
    → made_of (run_steps codec tools n left r p).1 ≤ made_of p + left * retries_of p
unfolding run_steps after_turn
run_steps-requests codec tools n zero r p = omega arith
run_steps-requests codec tools n (suc left) r p =
    let c = complete p r.messages in
    let b = complete_bounds p r.messages in
    let more = ap (λ (t : ℕ). left * t) b.2 in
    elim (Result-cases c.0) [
      | inl (x, q) ↦ rw (q, run_steps) (omega (arith, b.1))
      | inr (text, q) ↦
          let r1 : LoopResult = record r { steps = suc r.steps; messages = c.1 } in
          rw (q, run_steps)
            (elim (Result-cases (turn codec tools text r1)) [
              | inl (x, z) ↦ rw (z, after_turn) (omega (arith, b.1))
              | inr (done r2, z) ↦ rw (z, after_turn) (omega (arith, b.1))
              | inr (again r2, z) ↦
                  rw (z, after_turn)
                    (omega (arith, b.1, more, run_steps-requests codec tools n left r2 c.2))
            ])
    ]

-- Of the backend the loop makes at most `max_retries` requests per step, however it ends.
pub run_loop_requests :
    (codec : Codec) (prompts : Prompts) (provider : Provider) (tools : List ToolSpec) (now : String)
    (max_steps : ℕ)
    → made_of (run_loop codec prompts provider tools now max_steps).1
      ≤ made_of provider + max_steps * retries_of provider
unfolding run_loop
run_loop_requests codec prompts provider tools now max_steps =
    run_steps-requests codec tools max_steps max_steps _ provider
