-- ===== src/AiGateway/Tests.antt =====
-- Runs of the gateway process, and its theorems at concrete inputs.
use llm_inference_stack.Prelude.{
  ℕ, zero, suc, ◌+◌, ◌≡◌, ◌<◌, ◌≤◌, refl, min, String, true, false, some, List, [], ◌∷◌, ◌++◌,
  arith, is_among, lookup, insert, without, get_elem?, str_eq,
}
use llm_inference_stack.Gateway.Backends.{
  Tier, Backend, available, observe_success, observe_error, meeting_slo, keep, comes_before,
  insert_backend, sort_backends, tier_backends, candidates_of, candidates,
}
use llm_inference_stack.Gateway.Retry.{expire, trim, record_request, decide, try_retry}
use llm_inference_stack.Gateway.Limits.{
  new_bucket, refill, take_tokens, try_consume, missing_tokens, refund, after_tokens,
  after_requests, check_rates, roll_window, check_budget, check_within, check, settle_bucket,
  settle,
}
use llm_inference_stack.AiGateway.{
  note_ttft, bump, Payload, AiGateway, lost, unreadable, answer, World, update_backend, cache_get,
  cache_put,
}
use llm_inference_stack.AiGateway.Handle.{
  Turn, note_success, settle_reply, read_reply, broken, forward, count_served, may_attempt,
  attempts, fresh, fail_request, from_cache, last_resort, finish, serve, admit, handle,
}
use llm_inference_stack.AiGateway.Served.{Handled, handle-Handled}
use llm_inference_stack.AiGateway.Health.{probe, probe_all, disable_backend}
use llm_inference_stack.AiGateway.Drills.{fail_probes, fail_probes-available, disable_backend-probe}

program : Unit {0}
unfolding is_among lookup insert without available observe_success observe_error meeting_slo keep
    comes_before insert_backend sort_backends tier_backends candidates_of candidates expire trim
    record_request decide try_retry refill take_tokens try_consume missing_tokens refund
    after_tokens after_requests check_rates roll_window check_budget check_within check
    settle_bucket settle note_ttft bump update_backend cache_get cache_put note_success settle_reply
    read_reply forward count_served may_attempt attempts fail_request from_cache last_resort finish
    serve admit handle probe probe_all disable_backend fail_probes
program = tt

abbrev backend : String → Tier → Backend
backend name tier = record {
  name = name;
  tier = tier;
  weight = 1;
  ttft_slo = 100;
  max_concurrent = 4;
  inflight = 0;
  total = 0;
  errors = 0;
  consecutive_errors = 0;
  probe_failures = 0;
  open_until = 0;
  ewma_ttft = 0;
}

abbrev payload : Payload
payload = record { text = "hello"; total_tokens = 30; prompt_tokens = 10; completion_tokens = 20 }

-- The first backend fails, the second answers.
abbrev world : World
world = record {
  has_key = λ b. true;
  post = λ k b. elim k [ zero ↦ lost | suc j ↦ answer 200 payload ];
  clock = λ k. 10 + k;
  latency = λ k. 7;
  price = λ b prompt output. prompt + output;
  blend = λ a b. b;
  hour = 3600;
  one = 1;
  threshold = 5;
  open_time = 15;
}

abbrev gateway : AiGateway
gateway = record {
  backends = backend "a" Tier.primary ∷ backend "b" Tier.secondary ∷ [];
  budget = record {
    ratio_num = 1;
    ratio_den = 10;
    window = 10;
    min_rate = 1;
    requests = [];
    retries = [];
    denied = 0;
  };
  allow_cached_response = true;
  cache_ttl = 100;
  max_attempts = 3;
  response_cache = [];
  metrics = record {
    requests = 0;
    served = 0;
    failed = 0;
    rate_limited = 0;
    degraded = 0;
    retries = 0;
    by_backend = [];
    by_tier = [];
    by_reject_reason = [];
    ttft = [];
  };
}

abbrev turn : Turn
turn = record {
  gateway = gateway;
  limits = record {
    max_inflight = 4;
    hourly_budget = some 1000;
    requests = new_bucket 1 60 0;
    tokens = new_bucket 10 600 0;
    inflight = 0;
    spent = 0;
    window_start = 0;
  };
}

handle_run :
    ((handle world "key" 25 turn).0 ≡ fresh payload)
    × ((handle world "key" 25 turn).1.gateway.metrics.degraded ≡ 1)
    × ((handle world "key" 25 turn).1.gateway.metrics.retries ≡ 1)
    × ((handle world "key" 25 turn).1.limits.spent ≡ 30)
unfolding program
handle_run = (refl, refl, refl, refl)

-- A body that cannot be read: one request, under no other counter.
handle_crash :
    ((handle (record world { post = λ k b. unreadable 200 }) "key" 25 turn).0 ≡ broken)
    × ((handle (record world { post = λ k b. unreadable 200 }) "key" 25 turn).1.gateway.metrics
        ≡ record gateway.metrics { requests = 1; ttft = 7 ∷ [] })
unfolding program
handle_crash = (refl, refl)

handle-Handled_example : Handled world "key" 25 turn (handle world "key" 25 turn)
handle-Handled_example = handle-Handled world "key" 25 turn

attempts_run : (attempts world "key" 25 3 0 [] turn).1 ≡ "a" ∷ "b" ∷ []
unfolding program
attempts_run = refl

fail_probes-available_example :
    (2 < 3
      → (fail_probes 15
          ((12 ∷ []) ++ 14 ∷ [])
          (probe 15 10 true (backend "a" Tier.primary))).open_until
        ≡ min 0 10)
    × (3 ≤ 2
        → (t : ℕ) → t < 14 + 15
        → available t
            (fail_probes 15 ((12 ∷ []) ++ 14 ∷ []) (probe 15 10 true (backend "a" Tier.primary)))
          ≡ false)
fail_probes-available_example = fail_probes-available 15 10 (12 ∷ []) 14 (backend "a" Tier.primary)

-- The backend "a" is the second of the list, and the probe of the first fails.
disable_backend-probe_example :
    (bs : List Backend) × (disable_backend 10 300 "a"
        (backend "b" Tier.primary ∷ backend "a" Tier.primary ∷ backend "c" Tier.secondary ∷ [])
      ≡ some bs)
    × (b' : Backend) × (get_elem? (probe_all 15 20 (λ _. true) (λ b. str_eq b.name "a") bs) 1
        ≡ some b')
    × (b'.name ≡ "a")
    × (available 20 b' ≡ true)
disable_backend-probe_example =
    disable_backend-probe 15 10 300 20 (backend "b" Tier.primary ∷ []) (backend "a" Tier.primary)
      (backend "c" Tier.secondary ∷ []) (λ _. true) (λ b. str_eq b.name "a") (refl, tt)
      (omega arith) refl refl
