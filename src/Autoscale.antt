-- ===== src/Autoscale.antt =====
-- packages/llmkit/llmkit/autoscale.py: the policy of the scaler, and the records of its simulation.
-- Times are whole seconds. Amounts that the source keeps as floats are in units of 1e-9, the least
-- that it divides by; a signal is a fraction, and so is the headroom factor.
pub mod Signals
pub mod Simulate
pub mod Ticks
pub mod Wanted
pub mod Counts
pub mod Scaled
pub mod Ran
pub mod Tests
use llm_inference_stack.Prelude.{
  ℕ, ◌+◌, ◌-◌, ◌*◌, ◌/◌, max, min, Bool, true, false, ◌&&◌, Option, none, some, List, [], ◌∷◌, leb,
}

pub data Phase : Type 0 where
  starting ready draining gone : Phase

pub record ReplicaState : Type 0 where
  pub replica_id : ℕ
  pub state : Phase
  pub ready_at : ℕ
  pub drain_until : ℕ
  pub inflight : ℕ

abbrev pub is_ready : Phase → Bool
is_ready Phase.ready = true
is_ready _ = false

abbrev pub is_starting : Phase → Bool
is_starting Phase.starting = true
is_starting _ = false

abbrev pub is_serving : ℕ → ReplicaState → Bool
is_serving t r = is_ready r.state && leb r.ready_at t

pub data Signal : Type 0 where
  queue_depth gpu_util running_requests concurrency_per_replica ttft_p95 queue_plus_predictive :
      Signal

pub record ScalerConfig : Type 0 where
  pub signal : Signal
  pub target : ℕ
  pub min_replicas : ℕ
  pub max_replicas : ℕ
  pub scale_up_cooldown : ℕ
  pub scale_down_cooldown : ℕ
  pub scale_down_stabilization : ℕ
  pub max_scale_up_step : ℕ
  pub max_scale_down_step : ℕ
  pub drain_time : ℕ
  pub headroom_factor : ℕ × ℕ
  pub predictive_horizon : ℕ

-- `math.ceil(n / d)`
unfoldable pub ceil_div : ℕ → ℕ → ℕ
ceil_div n d = (n + (d - 1)) / d

-- The products of the fractions: of the signal, the headroom and the target.
abbrev pub demand : ℕ × ℕ → ScalerConfig → ℕ → ℕ
demand sig cfg current_ready = max current_ready 1 * sig.0 * cfg.headroom_factor.0

abbrev pub supply : ℕ × ℕ → ScalerConfig → ℕ
supply sig cfg = sig.1 * max cfg.target 1 * cfg.headroom_factor.1

unfoldable pub desired_replicas : ℕ × ℕ → ScalerConfig → ℕ → ℕ
unfolding ceil_div
desired_replicas sig cfg current_ready =
    max cfg.min_replicas
      (min cfg.max_replicas (ceil_div (demand sig cfg current_ready) (supply sig cfg)))
