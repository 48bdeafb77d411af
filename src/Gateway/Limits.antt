-- ===== src/Gateway/Limits.antt =====
-- `TokenBucket` and `TenantLimits` of packages/llmkit/llmkit/gateway.py. Amounts are whole units and
-- times whole ticks. Settling may take `tokens` below 0, at most to `-capacity`; the field `balance` is
-- `tokens + capacity`. The clock does not move within a call.
use llm_inference_stack.Prelude.{
  ℕ, ◌+◌, ◌-◌, ◌*◌, min, Bool, true, false, Option, none, some, leb, ltb, if◌then◌else◌,
}

pub record TokenBucket : Type 0 where
  pub rate : ℕ
  pub capacity : ℕ
  pub balance : ℕ
  pub last : ℕ

-- `TokenBucket(rate, capacity)`: the bucket starts full.
abbrev pub new_bucket : ℕ → ℕ → ℕ → TokenBucket
new_bucket rate capacity now = record {
  rate = rate;
  capacity = capacity;
  balance = capacity + capacity;
  last = now;
}

unfoldable pub refill : ℕ → TokenBucket → TokenBucket
refill now b = record b {
  balance = min (b.capacity + b.capacity) (b.balance + (now - b.last) * b.rate);
  last = now;
}

-- The test after the refill, and its branches.
unfoldable pub take_tokens : ℕ → TokenBucket → Bool × TokenBucket
take_tokens n b =
    if leb (n + b.capacity) b.balance
    then (true, record b { balance = b.balance - n })
    else (false, b)

unfoldable pub try_consume : ℕ → ℕ → TokenBucket → Bool × TokenBucket
unfolding refill take_tokens
try_consume now n b = take_tokens n (refill now b)

-- `retry_after_s`, as the amount that is missing; the delay is this over the rate.
unfoldable pub missing_tokens : ℕ → ℕ → TokenBucket → ℕ × TokenBucket
unfolding refill
missing_tokens now n b = let b' = refill now b in (n + b'.capacity - b'.balance, b')

pub data Reason : Type 0 where
  max_concurrent budget_exhausted rpm tpm : Reason

-- What `check` says to wait for: a second, the rest of the hour, or an amount at a rate.
pub data Delay : Type 0 where
  one_second : Delay
  rest_of_hour : ℕ → Delay
  refill_of : ℕ → ℕ → Delay

pub record TenantLimits : Type 0 where
  pub max_inflight : ℕ
  pub hourly_budget : Option ℕ
  pub requests : TokenBucket
  pub tokens : TokenBucket
  pub inflight : ℕ
  pub spent : ℕ
  pub window_start : ℕ

-- The answer of `check`: none, or why not and how long.
pub record Answer : Type 0 where
  pub refusal : Option (Reason × Delay)
  pub limits : TenantLimits

-- The refund of a request: `min(capacity, tokens + 1.0)`.
unfoldable pub refund : ℕ → TokenBucket → TokenBucket
refund n b = record b { balance = min (b.capacity + b.capacity) (b.balance + n) }

-- The window of the budget: an hour after its start it starts again.
unfoldable pub roll_window : ℕ → ℕ → TenantLimits → TenantLimits
roll_window hour now t =
    if leb hour (now - t.window_start) then record t { spent = 0; window_start = now } else t

-- `hour` is 3600 seconds in ticks, `one` is a request in the units of its bucket.
module _ (hour one : ℕ) where
  -- What follows the answer of the token bucket.
  unfoldable pub after_tokens : ℕ → ℕ → TenantLimits → Bool × TokenBucket → Answer
  unfolding missing_tokens refund
  after_tokens now est t (true, b) = record { refusal = none; limits = record t { tokens = b } }
  after_tokens now est t (false, b) =
      let (n, b') = missing_tokens now est b in
      record {
        refusal = some (tpm, refill_of n b'.rate);
        limits = record t { requests = refund one t.requests; tokens = b' };
      }

  -- What follows the answer of the request bucket.
  unfoldable pub after_requests : ℕ → ℕ → TenantLimits → Bool × TokenBucket → Answer
  unfolding try_consume missing_tokens after_tokens
  after_requests now est t (true, b) =
      after_tokens now est (record t { requests = b }) (try_consume now est t.tokens)
  after_requests now est t (false, b) =
      let (n, b') = missing_tokens now one b in
      record { refusal = some (rpm, refill_of n b'.rate); limits = record t { requests = b' } }

  unfoldable pub check_rates : ℕ → ℕ → TenantLimits → Answer
  unfolding try_consume after_requests
  check_rates now est t = after_requests now est t (try_consume now one t.requests)

  unfoldable pub check_budget : ℕ → ℕ → ℕ → TenantLimits → Answer
  unfolding check_rates
  check_budget limit now est t =
      if leb limit t.spent
      then record {
        refusal = some (budget_exhausted, rest_of_hour (hour - (now - t.window_start)));
        limits = t;
      }
      else check_rates now est t

  unfoldable pub check_within : Option ℕ → ℕ → ℕ → TenantLimits → Answer
  unfolding check_rates roll_window check_budget
  check_within none now est t = check_rates now est t
  check_within (some limit) now est t = check_budget limit now est (roll_window hour now t)

  unfoldable pub check : ℕ → ℕ → TenantLimits → Answer
  unfolding check_within
  check now est t =
      if leb t.max_inflight t.inflight
      then record { refusal = some (max_concurrent, one_second); limits = t }
      else check_within t.hourly_budget now est t

-- What `settle` does to a bucket: a debt goes down to `-capacity` at most.
unfoldable pub settle_bucket : ℕ → ℕ → TokenBucket → TokenBucket
settle_bucket actual est b =
    if ltb est actual
    then record b { balance = b.balance - (actual - est) }
    else record b { balance = min (b.capacity + b.capacity) (b.balance + (est - actual)) }

unfoldable pub settle : ℕ → ℕ → ℕ → TenantLimits → TenantLimits
unfolding settle_bucket
settle actual est usd t = record t {
  tokens = settle_bucket actual est t.tokens;
  spent = t.spent + usd;
}
