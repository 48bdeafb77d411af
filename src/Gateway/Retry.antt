-- ===== src/Gateway/Retry.antt =====
-- `RetryBudget` of packages/llmkit/llmkit/gateway.py. The ratio is the fraction
-- `ratio_num / ratio_den`, and comparisons with it are multiplied by its denominator; times are whole
-- ticks, and `min_rate` is the trickle per tick. A cutoff `now - window` may be negative, so the window
-- is added on the other side.
use llm_inference_stack.Prelude.{
  ℕ, ◌+◌, ◌*◌, max, Bool, true, false, List, [], ◌∷◌, ◌++◌, length, ltb, if◌then◌else◌,
}

pub record RetryBudget : Type 0 where
  pub ratio_num : ℕ
  pub ratio_den : ℕ
  pub window : ℕ
  pub min_rate : ℕ
  pub requests : List ℕ
  pub retries : List ℕ
  pub denied : ℕ

-- `while q and q[0] < cutoff: q.popleft()`
unfoldable pub expire : ℕ → ℕ → List ℕ → List ℕ
expire window now [] = []
expire window now (t ∷ ts) =
    let rest = expire window now ts in if ltb (t + window) now then rest else t ∷ ts

unfoldable pub trim : ℕ → RetryBudget → RetryBudget
unfolding expire
trim now b = record b {
  requests = expire b.window now b.requests;
  retries = expire b.window now b.retries;
}

unfoldable pub record_request : ℕ → RetryBudget → RetryBudget
unfolding trim
record_request now b = trim now (record b { requests = b.requests ++ now ∷ [] })

-- `allowed`, times the denominator.
abbrev pub allowance : RetryBudget → ℕ
allowance b = max (length b.requests * b.ratio_num) (b.min_rate * b.window * b.ratio_den)

-- The test and its branches.
unfoldable pub decide : ℕ → RetryBudget → Bool × RetryBudget
decide now b =
    if ltb (length b.retries * b.ratio_den) (allowance b)
    then (true, record b { retries = b.retries ++ now ∷ [] })
    else (false, record b { denied = b.denied + 1 })

unfoldable pub try_retry : ℕ → RetryBudget → Bool × RetryBudget
unfolding trim decide
try_retry now b = decide now (trim now b)
