-- ===== src/Agent/Providers/Retry.antt =====
-- The retry loop and the hint.
use quellgeist.Base.{
  ℕ, zero, suc, ◌+◌, ◌≤◌, ◌<◌, String, ◌≡◌, refl, Option, List, [], ◌∷◌, ◌++◌, arith, length,
  length-append,
}
use quellgeist.Effects.{Exn, ok}
use quellgeist.Agent.Providers.{
  Message, CallUsage, answer, transient, LiteLlm, requested, retry, Provider, lite, hinted,
  complete, calls_of, made_of, retries_of, or_blank,
}

retry_bounds :
    (left : ℕ) (p : LiteLlm) (messages : List Message)
    → (p.made ≤ (retry left p messages).1.made)
      × ((retry left p messages).1.made ≤ p.made + left)
      × ((retry left p messages).1.max_retries ≡ p.max_retries)
      × (length (retry left p messages).1.calls ≤ length p.calls + 1)
unfolding retry
retry_bounds zero p messages = (omega arith, omega arith, refl, omega arith)
retry_bounds (suc zero) p messages = grind (arith, length-append)
retry_bounds (suc (suc left)) p messages =
    grind (arith, length-append, retry_bounds (suc left) (requested p) messages)

-- One `complete` asks the backend at least zero and at most `max_retries` times, and records the
-- usage of at most one call, also behind a hint.
pub complete_bounds :
    (p : Provider) (messages : List Message)
    → let (_, _, after) = complete p messages in
      (made_of p ≤ made_of after)
      × (made_of after ≤ made_of p + retries_of p)
      × (retries_of after ≡ retries_of p)
      × (length (calls_of after) ≤ length (calls_of p) + 1)
unfolding complete made_of retries_of calls_of
complete_bounds (lite p) messages = retry_bounds p.max_retries p messages
complete_bounds (hinted base hint injected) messages = complete_bounds base _

-- Every attempt in the window of `n` attempts that starts now fails transiently.
abbrev AllTransient : LiteLlm → List Message → ℕ → Type 0
AllTransient p messages zero = Unit
AllTransient p messages (suc n) =
    ((e : Exn) × (p.attempts p.made messages ≡ transient e)) × AllTransient (requested p) messages n

abbrev pub skip : ℕ → LiteLlm → LiteLlm
skip zero p = p
skip (suc n) p = skip n (requested p)

-- Fewer transient failures than there are retries do not surface: the answer after them is
-- returned, and its usage is recorded.
pub retry_recovers :
    (n left : ℕ) (p : LiteLlm) (messages : List Message) (text : Option String) (usage : CallUsage)
    → n < left
    → AllTransient p messages n
    → p.attempts (skip n p).made messages ≡ answer text usage
    → retry left p messages
      ≡ (ok (or_blank text), record (requested (skip n p)) { calls = p.calls ++ usage ∷ [] })
unfolding retry
retry_recovers n zero p messages text usage h fails e = absurd (omega arith)
retry_recovers zero (suc left) p messages text usage h fails e = ground arith
retry_recovers (suc n) (suc zero) p messages text usage h fails e = absurd (omega arith)
retry_recovers (suc n) (suc (suc left)) p messages text usage h fails e =
    let t = fails.0 in
    let ih =
      retry_recovers n (suc left) (requested p) messages text usage (omega arith) fails.1 e in
    ground (arith, ih)
