-- ===== src/Gateway/Checks.antt =====
-- `TenantLimits.check` of packages/llmkit/llmkit/gateway.py on all its branches.
use llm_inference_stack.Prelude.{
  ℕ, ◌+◌, ◌-◌, ◌*◌, ◌≤◌, ◌<◌, ◌≡◌, refl, ap, min, true, false, Option, none, some, inl, inr,
  Bool-cases, if_true, if_false, leb, leb→le, leb→lt, arith,
}
use llm_inference_stack.Gateway.Limits.{
  TokenBucket, TenantLimits, Delay, Answer, refill, take_tokens, try_consume, missing_tokens,
  refund, after_tokens, after_requests, check_rates, roll_window, check_budget, check_within, check,
  max_concurrent, budget_exhausted, rpm, tpm, one_second, rest_of_hour,
}

le→leb : (a b : ℕ) → a ≤ b → leb a b ≡ true
le→leb a b h = ground arith

lt→leb : (a b : ℕ) → b < a → leb a b ≡ false
lt→leb a b h = ground arith

-- A bucket after a refill has a number of tokens.
abbrev pub HasTokens : ℕ → ℕ → TokenBucket → Type 0
HasTokens now n b = n + b.capacity ≤ (refill now b).balance

-- What an allowed request takes, and what a refused one leaves, given how the two buckets answer.
pub data Checked (one now est : ℕ) (t : TenantLimits) : Answer → Type 0 where
  allowed :
      HasTokens now one t.requests
      → HasTokens now est t.tokens
      → Checked one now est t (record {
        refusal = none;
        limits = record t {
          requests = record (refill now t.requests) {
            balance = (refill now t.requests).balance - one;
          };
          tokens = record (refill now t.tokens) { balance = (refill now t.tokens).balance - est };
        };
      })
  no_tokens :
      (d : Delay)
      → (refill now t.tokens).balance < est + t.tokens.capacity
      → Checked one now est t (record {
        refusal = some (tpm, d);
        limits = record t { requests = refill now t.requests; tokens = refill now t.tokens };
      })
  no_requests :
      (d : Delay)
      → (refill now t.requests).balance < one + t.requests.capacity
      → Checked one now est t (record {
        refusal = some (rpm, d);
        limits = record t { requests = refill now t.requests };
      })

refill_again : (now : ℕ) (b : TokenBucket) → refill now (refill now b) ≡ refill now b
unfolding refill
refill_again now b =
    ap (λ (n : ℕ). record b { balance = n; last = now })
      (again (b.balance + (now - b.last) * b.rate) (b.capacity + b.capacity) now b.rate)
  where
    none_due : (now rate : ℕ) → (now - now) * rate ≡ 0
    none_due now rate = let same : now - now ≡ 0 = omega arith in rw same (omega arith)

    again : (x c now rate : ℕ) → min c (min c x + (now - now) * rate) ≡ min c x
    again x c now rate = omega (arith, none_due now rate)

try_consume-HasTokens :
    (now n : ℕ) (b : TokenBucket)
    → HasTokens now n b
    → try_consume now n b ≡ (true, record (refill now b) { balance = (refill now b).balance - n })
unfolding try_consume take_tokens
try_consume-HasTokens now n b h = rw (if_true _ _ (le→leb _ _ h)) refl

try_consume_short :
    (now n : ℕ) (b : TokenBucket)
    → (refill now b).balance < n + b.capacity
    → try_consume now n b ≡ (false, refill now b)
unfolding try_consume take_tokens
try_consume_short now n b h = rw (if_false _ _ (lt→leb _ _ h)) refl

-- A refund gives back what the same call took.
refund_exact :
    (now n : ℕ) (b : TokenBucket)
    → HasTokens now n b
    → refund n (record (refill now b) { balance = (refill now b).balance - n }) ≡ refill now b
unfolding refund refill
refund_exact now n b h = ap (λ (m : ℕ). record b { balance = m; last = now }) (omega (arith, h))

module _ (hour one : ℕ) where
  after_tokens-Checked :
      (now est : ℕ) (t : TenantLimits)
      → HasTokens now one t.requests
      → Checked one now est t (
          after_tokens hour one now est
            (record t {
              requests = record (refill now t.requests) {
                balance = (refill now t.requests).balance - one;
              };
            })
            (try_consume now est t.tokens))
  unfolding after_tokens missing_tokens
  after_tokens-Checked now est t r =
      elim (Bool-cases (leb (est + t.tokens.capacity) (refill now t.tokens).balance)) [
        | inl h ↦
            rw (try_consume-HasTokens now est t.tokens (leb→le _ _ h))
              (Checked.allowed r (leb→le _ _ h))
        | inr h ↦ rw (try_consume_short now est t.tokens (leb→lt _ _ h)) (
            rw (refund_exact now one t.requests r)
              (rw (refill_again now t.tokens) (Checked.no_tokens _ (leb→lt _ _ h))))
      ]

  check_rates-Checked :
      (now est : ℕ) (t : TenantLimits) → Checked one now est t (check_rates hour one now est t)
  unfolding check_rates after_requests missing_tokens
  check_rates-Checked now est t =
      elim (Bool-cases (leb (one + t.requests.capacity) (refill now t.requests).balance)) [
        | inl h ↦
            rw
              (ap (after_requests hour one now est t)
                (try_consume-HasTokens now one t.requests (leb→le _ _ h)))
              (after_tokens-Checked now est t (leb→le _ _ h))
        | inr h ↦
            rw
              (ap (after_requests hour one now est t)
                (try_consume_short now one t.requests (leb→lt _ _ h)))
              (rw (refill_again now t.requests) (Checked.no_requests _ (leb→lt _ _ h)))
      ]

-- The hour's window at a time: it starts again once an hour has gone by since its start, and is the
-- same before.
pub data Rolled (hour now : ℕ) (t : TenantLimits) : TenantLimits → Type 0 where
  restarted :
      hour ≤ now - t.window_start → Rolled hour now t (record t { spent = 0; window_start = now })
  running : now - t.window_start < hour → Rolled hour now t t

-- How `check` ends: too many requests in flight, nothing left of the hour's budget, or by the buckets.
pub data Decided (hour one now est : ℕ) (t : TenantLimits) : Answer → Type 0 where
  crowded :
      t.max_inflight ≤ t.inflight
      → Decided hour one now est t
          (record { refusal = some (max_concurrent, one_second); limits = t })
  exhausted :
      (limit : ℕ) {u : TenantLimits}
      → t.inflight < t.max_inflight
      → t.hourly_budget ≡ some limit
      → Rolled hour now t u
      → limit ≤ u.spent
      → Decided hour one now est t (record {
        refusal = some (budget_exhausted, rest_of_hour (hour - (now - u.window_start)));
        limits = u;
      })
  unlimited :
      {a : Answer}
      → t.inflight < t.max_inflight
      → t.hourly_budget ≡ none
      → Checked one now est t a
      → Decided hour one now est t a
  within :
      {a : Answer} (limit : ℕ) {u : TenantLimits}
      → t.inflight < t.max_inflight
      → t.hourly_budget ≡ some limit
      → Rolled hour now t u
      → u.spent < limit
      → Checked one now est u a
      → Decided hour one now est t a

module _ (hour one now est : ℕ) (t : TenantLimits) where
  roll_window-Rolled : Rolled hour now t (roll_window hour now t)
  unfolding roll_window
  roll_window-Rolled = elim (Bool-cases (leb hour (now - t.window_start))) [
    | inl h ↦ rw (if_true _ _ h) (Rolled.restarted (leb→le _ _ h))
    | inr h ↦ rw (if_false _ _ h) (Rolled.running (leb→lt _ _ h))
  ]

  check_budget-Decided :
      (limit : ℕ)
      → t.inflight < t.max_inflight
      → t.hourly_budget ≡ some limit
      → Decided hour one now est t (check_budget hour one limit now est (roll_window hour now t))
  unfolding check_budget
  check_budget-Decided limit l b = elim (Bool-cases (leb limit (roll_window hour now t).spent)) [
    | inl h ↦ rw (if_true _ _ h) (Decided.exhausted limit l b roll_window-Rolled (leb→le _ _ h))
    | inr h ↦ rw (if_false _ _ h) (
        Decided.within limit l b roll_window-Rolled (leb→lt _ _ h)
          (check_rates-Checked hour one now est (roll_window hour now t)))
  ]

  check_within-Decided :
      (limit : Option ℕ)
      → t.inflight < t.max_inflight
      → t.hourly_budget ≡ limit
      → Decided hour one now est t (check_within hour one limit now est t)
  unfolding check_within
  check_within-Decided none l b = Decided.unlimited l b (check_rates-Checked hour one now est t)
  check_within-Decided (some limit) l b = check_budget-Decided limit l b

  -- The check of a tenant ends in exactly the documented ways: refused as too many in flight with
  -- nothing changed; refused as out of budget when the window has spent it, where the window starts
  -- again with nothing spent once an hour has gone by since its start and is unchanged before;
  -- refused by the request bucket, which is only refilled; refused by the token bucket with both
  -- buckets only refilled, since the request is refunded in full; or allowed, when both buckets
  -- have enough after a refill, which pay exactly one request and the estimate.
  pub check-Decided : Decided hour one now est t (check hour one now est t)
  unfolding check
  check-Decided = elim (Bool-cases (leb t.max_inflight t.inflight)) [
    | inl h ↦ rw (if_true _ _ h) (Decided.crowded (leb→le _ _ h))
    | inr h ↦ rw (if_false _ _ h) (check_within-Decided t.hourly_budget (leb→lt _ _ h) refl)
  ]
