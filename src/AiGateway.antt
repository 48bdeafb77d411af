-- ===== src/AiGateway.antt =====
-- The gateway process of projects/13-ai-gateway/gateway.py: one request through the limits of its
-- tenant, the degradation chain and the retry budget, without streaming. Backends have distinct names.
-- The token estimate and the cache key of the request's body are arguments; a response that was read can be
-- sent.
-- A request runs to its end before the next, and the clock does not move within one attempt.
pub mod Handle
pub mod Health
pub mod Loads
pub mod Served
pub mod Drills
pub mod Tests
use llm_inference_stack.Prelude.{
  ℕ, zero, suc, ◌+◌, ◌-◌, String, Bool, true, false, Option, none, some, List, [], ◌∷◌, ◌++◌,
  length, drop, lookup, insert, without, str_eq, leb, ltb, ◌==◌, if◌then◌else◌,
}
use llm_inference_stack.Gateway.Backends.{Tier, Backend}
use llm_inference_stack.Gateway.Limits.{
  TenantLimits, Reason, max_concurrent, budget_exhausted, rpm, tpm,
}
use llm_inference_stack.Gateway.Retry.{RetryBudget}

pub record Metrics : Type 0 where
  pub requests : ℕ
  pub served : ℕ
  pub failed : ℕ
  pub rate_limited : ℕ
  pub degraded : ℕ
  pub retries : ℕ
  pub by_backend : List (String × ℕ)
  pub by_tier : List (String × ℕ)
  pub by_reject_reason : List (String × ℕ)
  pub ttft : List ℕ

unfoldable pub note_ttft : ℕ → Metrics → Metrics
note_ttft ms m =
    let all = m.ttft ++ ms ∷ [] in
    record m { ttft = if ltb 10000 (length all) then drop 5000 all else all }

-- `d[key] = d.get(key, 0) + 1`
unfoldable pub bump : String → List (String × ℕ) → List (String × ℕ)
bump key d = elim (lookup key d) [ none ↦ insert key 1 d | some n ↦ insert key (n + 1) d ]

-- What a response has: its payload and the usage it reports, where 0 is missing.
pub record Payload : Type 0 where
  pub text : String
  pub total_tokens : ℕ
  pub prompt_tokens : ℕ
  pub completion_tokens : ℕ

pub record AiGateway : Type 0 where
  pub backends : List Backend
  pub budget : RetryBudget
  pub allow_cached_response : Bool
  pub cache_ttl : ℕ
  pub max_attempts : ℕ
  pub response_cache : List (String × (Payload × ℕ))
  pub metrics : Metrics

-- What a server does with a request: no answer, an answer whose body cannot be read (it is not JSON, no
-- object, or its usage is not of numbers), or one that can.
pub data Reply : Type 0 where
  lost : Reply
  unreadable : ℕ → Reply
  answer : ℕ → Payload → Reply

-- What the gateway takes from elsewhere: the HTTP client and the environment, with the number of the
-- attempt, prices, the moving average, and an hour and a request in the units of the limits.
pub record World : Type 0 where
  pub has_key : Backend → Bool
  pub post : ℕ → Backend → Reply
  pub clock : ℕ → ℕ
  pub latency : ℕ → ℕ
  pub price : Backend → ℕ → ℕ → ℕ
  pub blend : ℕ → ℕ → ℕ
  pub hour : ℕ
  pub one : ℕ
  pub threshold : ℕ
  pub open_time : ℕ

abbrev pub tier_name : Tier → String
tier_name Tier.primary = "primary"
tier_name Tier.secondary = "secondary"
tier_name Tier.cheaper_model = "cheaper_model"
tier_name Tier.cached = "cached"
tier_name Tier.refuse = "refuse"

abbrev pub reason_name : Reason → String
reason_name max_concurrent = "max_concurrent"
reason_name budget_exhausted = "budget_exhausted"
reason_name rpm = "rpm"
reason_name tpm = "tpm"

-- Assignments to the fields of the backend of a name.
unfoldable pub update_backend : String → (Backend → Backend) → List Backend → List Backend
update_backend name f [] = []
update_backend name f (b ∷ bs) = (if str_eq b.name name then f b else b) ∷ update_backend name f bs

unfoldable pub cache_get :
    ℕ → ℕ → String → List (String × (Payload × ℕ)) → Option Payload × List (String × (Payload × ℕ))
cache_get now ttl key cache = elim (lookup key cache) [
  | none ↦ (none, cache)
  | some e ↦ if ltb ttl (now - e.1) then (none, without key cache) else (some e.0, cache)
]

unfoldable pub cache_put :
    ℕ → String → Payload → List (String × (Payload × ℕ)) → List (String × (Payload × ℕ))
cache_put now key p cache =
    insert key (p, now) (if ltb 2000 (length cache) then drop 500 cache else cache)
