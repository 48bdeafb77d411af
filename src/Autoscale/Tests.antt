-- ===== src/Autoscale/Tests.antt =====
-- Runs of the scaler under a burst, and its theorems at concrete inputs.
use llm_inference_stack.Prelude.{
  ℕ, ◌*◌, ◌≡◌, refl, Option, none, some, List, [], ◌∷◌, map, arith, tally,
}
use llm_inference_stack.Autoscale.{Signal, ScalerConfig}
use llm_inference_stack.Autoscale.Signals.{one}
use llm_inference_stack.Autoscale.Simulate.{Simulation, Load}
use llm_inference_stack.Autoscale.Ticks.{simulate}
use llm_inference_stack.Autoscale.Ticks.{sawtooth_bursts}
use llm_inference_stack.Autoscale.Ran.{
  Ended, IsBalanced, IsSized, simulate-IsBalanced, simulate-IsSized,
}

abbrev config : ScalerConfig
config = record {
  signal = Signal.queue_depth;
  target = 2 * one;
  min_replicas = 1;
  max_replicas = 4;
  scale_up_cooldown = 2;
  scale_down_cooldown = 3;
  scale_down_stabilization = 2;
  max_scale_up_step = 2;
  max_scale_down_step = 1;
  drain_time = 1;
  headroom_factor = (1, 1);
  predictive_horizon = 0;
}

-- A burst of five seconds.
abbrev burst : Load
burst = record {
  arrival = sawtooth_bursts 0 (4 * one) 16;
  duration = 12;
  dt = 1;
  capacity_per_replica = one;
  queue_slo = 3 * one;
  max_queue = 10 * one;
  cold_start = λ id. 2;
}

abbrev ready_series : Option Simulation → List ℕ
ready_series none = []
ready_series (some s) = map (λ x. x.ready) s.samples

run : ready_series (simulate config burst) ≡ 1 ∷ 1 ∷ 1 ∷ 2 ∷ 2 ∷ 4 ∷ 4 ∷ 4 ∷ 3 ∷ 3 ∷ 3 ∷ 2 ∷ []
unfolding simulate tally
run = refl

simulate-IsBalanced_example : Ended config burst (IsBalanced config burst) (simulate config burst)
simulate-IsBalanced_example = simulate-IsBalanced config burst (omega arith)

simulate-IsSized_example : Ended config burst (IsSized config burst) (simulate config burst)
simulate-IsSized_example = simulate-IsSized config burst (omega arith) (omega arith) (omega arith)
