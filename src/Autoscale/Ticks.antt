-- ===== src/Autoscale/Ticks.antt =====
-- A turn of the loop of `simulate` in packages/llmkit/llmkit/autoscale.py, and the loop. The fuel is one
-- more than the duration, since each turn takes a second at least.
use llm_inference_stack.Prelude.{
  ℕ, zero, suc, ◌+◌, ◌-◌, ◌*◌, ◌%◌, max, min, Option, none, some, List, [], ◌∷◌, ◌++◌, leb, ltb,
  if◌then◌else◌,
}
use llm_inference_stack.Autoscale.{Phase, ReplicaState, ScalerConfig, desired_replicas}
use llm_inference_stack.Autoscale.Signals.{signal_of, recent, effective}
use llm_inference_stack.Autoscale.Simulate.{
  Pool, Totals, Simulation, Load, serving, starting, decide_scale, advance_replicas,
}

-- What a tick computes before the decision.
pub record Reading : Type 0 where
  pub n_ready : ℕ
  pub n_starting : ℕ
  pub offered : ℕ
  pub capacity : ℕ
  pub done : ℕ
  pub left : ℕ

abbrev pub read_tick : Load → Simulation → Reading
read_tick load s =
    let n_ready = serving s.time s.pool.replicas in
    let offered = load.arrival s.time in
    let capacity = n_ready * load.capacity_per_replica in
    let queued = s.queue + offered * load.dt in
    let done = min queued (capacity * load.dt) in
    record {
      n_ready = n_ready;
      n_starting = starting s.pool.replicas;
      offered = offered;
      capacity = capacity;
      done = done;
      left = queued - done;
    }

abbrev pub count_tick : Load → Reading → Totals → Totals
count_tick load r totals = record {
  served = totals.served + r.done;
  dropped = totals.dropped + (r.left - load.max_queue);
  slo_violation =
      if ltb (load.queue_slo * max r.n_ready 1) (min r.left load.max_queue)
      then totals.slo_violation + load.dt
      else totals.slo_violation;
  replica_seconds = totals.replica_seconds + (r.n_ready + r.n_starting) * load.dt;
  wasted_replica_seconds = totals.wasted_replica_seconds + r.n_starting * load.dt;
}

module _ (cfg : ScalerConfig) (load : Load) where
  abbrev pub tick_signal : Reading → ℕ × ℕ
  tick_signal r =
      signal_of cfg.signal r.offered r.capacity (min r.left load.max_queue) r.done r.n_ready

  abbrev pub tick_history : Simulation → List (ℕ × ℕ × ℕ)
  tick_history s =
      let sig = tick_signal (read_tick load s) in
      recent s.time (s.signal_hist ++ (s.time, sig.0, sig.1) ∷ [])

  unfoldable pub wanted : Simulation → ℕ
  unfolding signal_of recent effective desired_replicas
  wanted s =
      let r = read_tick load s in
      desired_replicas (effective cfg s.time (tick_signal r) (tick_history s)) cfg r.n_ready

  abbrev pub move_pool : ℕ → Pool → Pool
  move_pool t p = record p { replicas = advance_replicas t p.replicas }

  unfoldable pub tick : Simulation → Simulation
  unfolding wanted decide_scale advance_replicas
  tick s =
      let r = read_tick load s in
      record {
        time = s.time + load.dt;
        queue = min r.left load.max_queue;
        pool = move_pool s.time (decide_scale cfg load.cold_start s.time (wanted s) s.pool);
        signal_hist = tick_history s;
        totals = count_tick load r s.totals;
        samples =
            s.samples
            ++ record {
              at = s.time;
              offered = r.offered;
              capacity = r.capacity;
              queue = min r.left load.max_queue;
              ready = r.n_ready;
              starting = r.n_starting;
            }
              ∷ [];
      }

  -- The first replicas, which are ready.
  unfoldable pub first_replicas : ℕ → ℕ → List ReplicaState
  first_replicas zero next = []
  first_replicas (suc n) next =
      record { replica_id = next; state = Phase.ready; ready_at = 0; drain_until = 0; inflight = 0 }
      ∷ first_replicas n (next + 1)

  unfoldable pub start_simulation : Simulation
  unfolding first_replicas
  start_simulation = record {
    time = 0;
    queue = 0;
    pool = record {
      replicas = first_replicas cfg.min_replicas 0;
      next_id = cfg.min_replicas;
      last_up = none;
      last_down = none;
      low_since = none;
      events = [];
    };
    signal_hist = [];
    totals = record {
      served = 0;
      dropped = 0;
      slo_violation = 0;
      replica_seconds = 0;
      wasted_replica_seconds = 0;
    };
    samples = [];
  }

  -- The loop; `none` when the turns run out.
  unfoldable pub ticks : ℕ → Simulation → Option Simulation
  unfolding tick
  ticks zero s = none
  ticks (suc fuel) s =
      let rest = ticks fuel (tick s) in if ltb s.time load.duration then rest else some s

  unfoldable pub simulate : Option Simulation
  unfolding ticks start_simulation
  simulate = ticks (load.duration + 1) start_simulation

-- Traffic: a step, and bursts in the first three tenths of each period.
abbrev pub step : ℕ → ℕ → ℕ → ℕ → ℕ
step base peak at t = if leb at t then peak else base

abbrev pub sawtooth_bursts : ℕ → ℕ → ℕ → ℕ → ℕ
sawtooth_bursts base peak period t = if ltb (t % period * 10) (3 * period) then peak else base
