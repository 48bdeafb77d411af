-- ===== src/Gateway/Window.antt =====
-- What `RetryBudget` of packages/llmkit/llmkit/gateway.py grants, over any run of its calls.
use llm_inference_stack.Prelude.{
  ℕ, ◌+◌, ◌*◌, ◌≤◌, ◌<◌, ◌≡◌, max, Bool, true, false, List, [], ◌∷◌, ◌++◌, length, All, ltb,
  if◌then◌else◌,
}
use llm_inference_stack.Gateway.Retry.{RetryBudget, record_request, try_retry}

-- The times of a list that are still in the window, wherever they stand.
unfoldable pub recent : ℕ → ℕ → List ℕ → List ℕ
recent window now [] = []
recent window now (t ∷ ts) =
    let rest = recent window now ts in if ltb (t + window) now then rest else t ∷ rest

-- Times in order, none after the clock.
unfoldable pub IsLog : ℕ → List ℕ → Type 0
IsLog clock [] = Unit
IsLog clock (t ∷ ts) = (t ≤ clock) × All (λ u. t ≤ u) ts × IsLog clock ts

-- A call of a client at a time, and what it makes of the budget.
pub data Call (now : ℕ) (b : RetryBudget) : RetryBudget → Type 0 where
  request : Call now b (record_request now b)
  retry : Call now b (try_retry now b).1

-- The runs from a budget without a history, with a clock that does not go back.
pub data Reach (b₀ : RetryBudget) : ℕ → RetryBudget → Type 0 where
  here : Reach b₀ 0 (record b₀ { requests = []; retries = [] })
  next :
      {clock now : ℕ} {b b' : RetryBudget}
      → Reach b₀ clock b
      → clock ≤ now
      → Call now b b'
      → Reach b₀ now b'

abbrev pub AreLogs : ℕ → RetryBudget → Type 0
AreLogs clock b = IsLog clock b.requests × IsLog clock b.retries

-- The answer to a retry at a time: what is still in the window counts, and nothing else.
pub record Tried (now : ℕ) (b : RetryBudget) (r : Bool × RetryBudget) : Type 0 where
  pub requests : (r.1).requests ≡ recent b.window now b.requests
  pub granted :
      r.0 ≡ true
      → (length (recent b.window now b.retries) * b.ratio_den
          < max
              (length (recent b.window now b.requests) * b.ratio_num)
              (b.min_rate * b.window * b.ratio_den))
        × ((r.1).retries ≡ recent b.window now b.retries ++ now ∷ [])
        × ((r.1).denied ≡ b.denied)
  pub refused :
      r.0 ≡ false
      → (max
            (length (recent b.window now b.requests) * b.ratio_num)
            (b.min_rate * b.window * b.ratio_den)
          ≤ length (recent b.window now b.retries) * b.ratio_den)
        × ((r.1).retries ≡ recent b.window now b.retries)
        × ((r.1).denied ≡ b.denied + 1)

recent_budget : ℕ → RetryBudget → RetryBudget
recent_budget now b = record b {
  requests = recent b.window now b.requests;
  retries = recent b.window now b.retries;
}
