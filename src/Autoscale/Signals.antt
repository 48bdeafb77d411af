-- ===== src/Autoscale/Signals.antt =====
-- The signal of a tick of `simulate` in packages/llmkit/llmkit/autoscale.py, as a fraction of units.
use llm_inference_stack.Prelude.{
  ℕ, ◌+◌, ◌-◌, ◌*◌, max, min, ◌&&◌, ◌||◌, List, [], ◌∷◌, length, leb, ltb, if◌then◌else◌,
}
use llm_inference_stack.Autoscale.{Signal, ScalerConfig}

-- The units of one.
abbrev pub one : ℕ
one = 1000000000

-- Utilisation in percent, at most 100.
unfoldable pub util_of : ℕ → ℕ → ℕ × ℕ
util_of offered capacity =
    if (ltb 0 capacity && ltb (capacity * 35) (offered * 100)) || leb (max capacity 1) offered
    then (100 * one, 1)
    else (offered * (100 * one), max capacity 1)

-- From what is offered, the capacity, the queue, what was done and the ready replicas.
unfoldable pub signal_of : Signal → ℕ → ℕ → ℕ → ℕ → ℕ → ℕ × ℕ
unfolding util_of
signal_of Signal.gpu_util offered capacity queue done n = util_of offered capacity
signal_of Signal.running_requests offered capacity queue done n =
    (min (queue + done) (n * (64 * one)), max n 1)
signal_of Signal.ttft_p95 offered capacity queue done n =
    (50 * one * max n 1 + queue * 120, max n 1)
signal_of Signal.queue_depth offered capacity queue done n = (queue, max n 1)
signal_of Signal.concurrency_per_replica offered capacity queue done n = (queue, max n 1)
signal_of Signal.queue_plus_predictive offered capacity queue done n = (queue, max n 1)

-- The entries of the last 120 seconds.
unfoldable pub recent : ℕ → List (ℕ × ℕ × ℕ) → List (ℕ × ℕ × ℕ)
recent t [] = []
recent t ((u, c, d) ∷ hist) = if leb t (u + 120) then (u, c, d) ∷ recent t hist else recent t hist

-- `max(sig, sig + slope * horizon)`: a falling signal is not extrapolated. The first of four entries is
-- of an earlier second.
abbrev pub extrapolate : ℕ → ℕ → ℕ × ℕ → ℕ × ℕ × ℕ → ℕ × ℕ
extrapolate horizon t (a, b) (t₀, c, d) =
    let span = max (t - t₀) 1 in (a * d * span + (a * d - c * b) * horizon, b * d * span)

unfoldable pub effective : ScalerConfig → ℕ → ℕ × ℕ → List (ℕ × ℕ × ℕ) → ℕ × ℕ
effective cfg t sig [] = sig
effective cfg t sig (first ∷ hist) =
    if ltb 0 cfg.predictive_horizon && leb 3 (length hist)
    then extrapolate cfg.predictive_horizon t sig first
    else sig
