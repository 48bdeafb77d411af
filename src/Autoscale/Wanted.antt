-- ===== src/Autoscale/Wanted.antt =====
-- The number of replicas that the scaler wants.
use llm_inference_stack.Prelude.{ℕ, ◌*◌, ◌≤◌, ◌<◌, arith}
use llm_inference_stack.Autoscale.{ScalerConfig, demand, supply, desired_replicas}

-- The least number that covers the demand, between the bounds.
pub record IsWanted (sig : ℕ × ℕ) (cfg : ScalerConfig) (current_ready w : ℕ) : Type 0 where
  pub least : cfg.min_replicas ≤ w
  pub most : w ≤ cfg.max_replicas
  pub covers : w < cfg.max_replicas → demand sig cfg current_ready ≤ w * supply sig cfg
  pub needed :
      (k : ℕ) → cfg.min_replicas ≤ k → k < w → k * supply sig cfg < demand sig cfg current_ready

pub desired_replicas-bounds :
    (sig : ℕ × ℕ) (cfg : ScalerConfig) (n : ℕ)
    → cfg.min_replicas ≤ cfg.max_replicas
    → (cfg.min_replicas ≤ desired_replicas sig cfg n)
      × (desired_replicas sig cfg n ≤ cfg.max_replicas)
unfolding desired_replicas
desired_replicas-bounds sig cfg n l = (omega arith, omega arith)
