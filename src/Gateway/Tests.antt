-- ===== src/Gateway/Tests.antt =====
-- Runs of the gateway's parts, and its theorems at concrete inputs.
use llm_inference_stack.Prelude.{
  some, ◌-◌, ◌*◌, is_among, ℕ, ◌+◌, ◌≤◌, ◌<◌, ◌≡◌, refl, String, true, false, none, List, [], ◌∷◌,
  ◌++◌, map, arith,
}
use llm_inference_stack.Gateway.Limits.{
  TokenBucket, TenantLimits, new_bucket, refill, take_tokens, try_consume, check,
}
use llm_inference_stack.Gateway.Rates.{Granted, Granted-le}
use llm_inference_stack.Gateway.Checks.{Decided, check-Decided}
use llm_inference_stack.Gateway.Retry.{RetryBudget, expire, trim, record_request, decide, try_retry}
use llm_inference_stack.Gateway.Window.{recent}
use llm_inference_stack.Gateway.Backends.{
  Tier, Backend, available, observe_success, observe_error, meeting_slo, keep, comes_before,
  insert_backend, sort_backends, tier_backends, candidates_of, candidates,
}
use llm_inference_stack.Gateway.Candidates.{Offered, candidates-Offered}
use llm_inference_stack.Gateway.Breaker.{observe_errors, observe_errors-available}

program : Unit {0}
unfolding refill take_tokens try_consume expire trim record_request decide try_retry recent
    available observe_success observe_error meeting_slo is_among keep comes_before insert_backend
    sort_backends tier_backends candidates_of candidates observe_errors
program = tt

abbrev budget : RetryBudget
budget = record {
  ratio_num = 1;
  ratio_den = 2;
  window = 10;
  min_rate = 0;
  requests = [];
  retries = [];
  denied = 0;
}

abbrev used : RetryBudget
used = (try_retry 4 (record_request 3 (record_request 1 budget))).1

-- The one retry of the window is used up.
used_run : ((try_retry 5 used).0 ≡ false) × (used.retries ≡ 4 ∷ [])
unfolding program
used_run = (refl, refl)

abbrev backend : String → Tier → ℕ → ℕ → Backend
backend name tier inflight ttft = record {
  name = name;
  tier = tier;
  weight = 1_000_000_000;
  ttft_slo = 100;
  max_concurrent = 4;
  inflight = inflight;
  total = 0;
  errors = 0;
  consecutive_errors = 0;
  probe_failures = 0;
  open_until = 0;
  ewma_ttft = ttft;
}

abbrev fleet : List Backend
fleet =
    backend "a" Tier.secondary 0 0
    ∷ backend "b" Tier.primary 2 50
    ∷ backend "c" Tier.primary 1 300
    ∷ backend "d" Tier.primary 4 0
    ∷ []

candidates_run :
    (map (λ b. b.name) (candidates 7 [] false fleet) ≡ "c" ∷ "b" ∷ "a" ∷ [])
    × (map (λ b. b.name) (candidates 7 [] true fleet) ≡ "b" ∷ "a" ∷ [])
unfolding program
candidates_run = (refl, refl)

candidates-Offered_example : Offered 7 [] true fleet (candidates 7 [] true fleet)
candidates-Offered_example = candidates-Offered 7 [] true fleet

abbrev steady : Backend
steady = backend "b" Tier.primary 2 50

observe_errors-available_example :
    (3 < 3
      → (observe_errors 3 15
          ((1 ∷ 2 ∷ []) ++ 4 ∷ [])
          (observe_success (λ a b. b) none steady)).open_until
        ≡ steady.open_until)
    × (3 ≤ 3
        → (t : ℕ) → t < 4 + 15
        → available t
            (observe_errors 3 15 ((1 ∷ 2 ∷ []) ++ 4 ∷ []) (observe_success (λ a b. b) none steady))
          ≡ false)
observe_errors-available_example =
    observe_errors-available 3 15 (λ a b. b) none (1 ∷ 2 ∷ []) 4 steady

abbrev bucket : TokenBucket
bucket = new_bucket 2 10 0

-- Ten at once, then a refusal, then what two ticks have brought.
granted : Granted bucket 14 (try_consume 2 4 (try_consume 0 5 (try_consume 0 10 bucket).1).1).1
unfolding program
granted =
    Granted.grant 2 4
      (Granted.refuse 0 5 (Granted.grant 0 10 Granted.here (omega arith) refl) (omega arith) refl)
      (omega arith) refl

Granted-le_example :
    14 ≤ 10 + ((try_consume 2 4 (try_consume 0 5 (try_consume 0 10 bucket).1).1).1.last - 0) * 2
Granted-le_example = Granted-le 2 10 0 granted

abbrev limits : TenantLimits
limits = record {
  max_inflight = 4;
  hourly_budget = some 1000;
  requests = new_bucket 1 60 0;
  tokens = new_bucket 10 600 0;
  inflight = 0;
  spent = 0;
  window_start = 0;
}

check-Decided_example : Decided 3600 1 5 900 limits (check 3600 1 5 900 limits)
check-Decided_example = check-Decided 3600 1 5 900 limits
