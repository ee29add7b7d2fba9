-- ===== src/Agent/Providers.antt =====
-- agent/providers.py: the model behind `complete`, with retries; and orchestrator/hint.py, the
-- wrapper that adds the operator's hint. The i-th request to the backend is answered by
-- `attempts i`; sleeping, pacing and latencies are left out.
pub mod Retry
use quellgeist.Base.{
  ℕ, zero, suc, String, Bool, true, false, Option, none, some, List, [], ◌∷◌, ◌++◌, if◌then◌else◌,
}
use Prim.Native.String.{◌++◌ as join}
use quellgeist.Effects.{Exn, Result, ok, raise, runtime_error}

pub record Message : Type 0 where
  pub role : String
  pub content : String

pub record CallUsage : Type 0 where
  pub prompt_tokens : Option ℕ
  pub completion_tokens : Option ℕ

-- One `litellm.completion`: an answer, one of the four retryable errors, or any other error.
pub data Attempt : Type 0 where
  answer : Option String → CallUsage → Attempt
  transient : Exn → Attempt
  fatal : Exn → Attempt

pub record LiteLlm : Type 0 where
  pub max_retries : ℕ
  pub attempts : ℕ → List Message → Attempt
  pub made : ℕ
  pub calls : List CallUsage

-- `content or ""`.
abbrev pub or_blank : Option String → String
or_blank none = ""
or_blank (some s) = s

abbrev pub requested : LiteLlm → LiteLlm
requested p = record p { made = suc p.made }

-- The `for attempt in range(max_retries)` loop, with the attempts left.
unfoldable pub retry : ℕ → LiteLlm → List Message → Result String × LiteLlm
retry zero p messages = (raise (runtime_error "unreachable: retry loop exited"), p)
retry (suc left) p messages = elim (p.attempts p.made messages) [
  | answer text usage ↦ (ok (or_blank text), record (requested p) { calls = p.calls ++ usage ∷ [] })
  | transient e ↦ elim left [
    | zero ↦ (raise e, requested p)
    | suc _ ↦ retry left (requested p) messages
  ]
  | fatal e ↦ (raise e, requested p)
]

-- What the loop can reason with: a model, or a provider that adds a hint on its first call.
pub data Provider : Type 0 where
  lite : LiteLlm → Provider
  hinted : (base : Provider) (hint : String) (injected : Bool) → Provider

abbrev hint_message : String → Message
hint_message hint = record { role = "user"; content = join "Operator hint: " hint }

-- `complete` may append to the caller's message list, so it returns that list too.
unfoldable pub complete : Provider → List Message → Result String × List Message × Provider
unfolding retry
complete (lite p) messages =
    let (reply, p') = retry p.max_retries p messages in (reply, messages, lite p')
complete (hinted base hint injected) messages =
    let sent = if injected then messages else messages ++ hint_message hint ∷ [] in
    let (reply, after, base') = complete base sent in (reply, after, hinted base' hint true)

-- `calls`, which a wrapper takes from its base.
pub calls_of : Provider → List CallUsage
calls_of (lite p) = p.calls
calls_of (hinted base _ _) = calls_of base

pub made_of : Provider → ℕ
made_of (lite p) = p.made
made_of (hinted base _ _) = made_of base

pub retries_of : Provider → ℕ
retries_of (lite p) = p.max_retries
retries_of (hinted base _ _) = retries_of base
