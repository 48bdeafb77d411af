-- ===== src/Autoscale/Ran.antt =====
-- The whole of `simulate`: it ends, no request is lost, and the pool keeps its size.
use llm_inference_stack.Prelude.{
  ℕ, zero, suc, ◌+◌, ◌-◌, ◌*◌, ◌≤◌, ◌<◌, ◌≡◌, refl, Option, some, List, [], ◌∷◌, ◌++◌, All,
  All-append, tally, inl, inr, Bool-cases, if_true, if_false, ltb, ltb→lt, ltb→ge, arith,
}
use llm_inference_stack.Autoscale.{ScalerConfig}
use llm_inference_stack.Autoscale.Wanted.{desired_replicas-bounds}
use llm_inference_stack.Autoscale.Simulate.{Sample, Simulation, Load, serving, starting}
use llm_inference_stack.Autoscale.Ticks.{
  wanted, tick, first_replicas, start_simulation, ticks, simulate,
}
use llm_inference_stack.Autoscale.Counts.{IsSettled}
use llm_inference_stack.Autoscale.Scaled.{
  IsScaled, decide_scale-IsScaled, advance_replicas-IsScaled,
}

-- What arrived in the ticks of the samples.
unfoldable pub arrived : ℕ → List Sample → ℕ
arrived dt [] = 0
arrived dt (s ∷ samples) = s.offered * dt + arrived dt samples

arrived-append :
    (dt : ℕ) (xs : List Sample) (s : Sample)
    → arrived dt (xs ++ s ∷ []) ≡ arrived dt xs + s.offered * dt
unfolding arrived
arrived-append dt [] s = omega arith
arrived-append dt (x ∷ xs) s = omega (arith, arrived-append dt xs s)

module _ (cfg : ScalerConfig) (load : Load) where
  -- Each request that arrived was served or dropped, or waits; and no more wait than may.
  pub record IsBalanced (s : Simulation) : Type 0 where
    pub balance : arrived load.dt s.samples ≡ s.totals.served + s.totals.dropped + s.queue
    pub waiting : s.queue ≤ load.max_queue

  -- The pool is scaled, and was at each tick.
  abbrev pub IsInBounds : Sample → Type 0
  IsInBounds x = (cfg.min_replicas ≤ x.ready) × (x.ready + x.starting ≤ cfg.max_replicas)

  pub record IsSized (s : Simulation) : Type 0 where
    pub pool : IsScaled cfg s.time s.pool.replicas
    pub samples : All IsInBounds s.samples

  -- A simulation that ended after its duration.
  pub record Ended (P : Simulation → Type 0) (r : Option Simulation) : Type 0 where
    pub state : Simulation
    pub returned : r ≡ some state
    pub over : load.duration ≤ state.time
    pub holds : P state

  tick_time : (s : Simulation) → (tick cfg load s).time ≡ s.time + load.dt
  unfolding tick
  tick_time s = refl

  tick-IsBalanced : (s : Simulation) → IsBalanced s → IsBalanced (tick cfg load s)
  unfolding tick
  tick-IsBalanced s h = record {
    balance = omega (arith, h.balance, arrived-append load.dt s.samples _);
    waiting = omega arith;
  }

  tick-IsSized :
      cfg.min_replicas ≤ cfg.max_replicas
      → 0 < cfg.max_scale_down_step
      → (s : Simulation) → IsSized s
      → IsSized (tick cfg load s)
  unfolding tick wanted
  tick-IsSized l d s h =
      let w = wanted cfg load s in
      let (a, b) = desired_replicas-bounds _ cfg _ l in
      record {
        pool =
            advance_replicas-IsScaled cfg s.time (s.time + load.dt) _ (omega arith)
              (decide_scale-IsScaled cfg s.time load.cold_start w s.pool a b d h.pool);
        samples = All-append IsInBounds s.samples _ h.samples ((h.pool.enough, h.pool.bounded), tt);
      }

  ticks-Ended :
      (P : Simulation → Type 0)
      → 0 < load.dt
      → ((s : Simulation) → P s → P (tick cfg load s))
      → (fuel : ℕ) (s : Simulation) → load.duration - s.time < fuel
      → P s
      → Ended P (ticks cfg load fuel s)
  unfolding ticks
  ticks-Ended P d k zero s l h = absurd (omega arith)
  ticks-Ended P d k (suc fuel) s l h = elim (Bool-cases (ltb s.time load.duration)) [
    | inl e ↦ rw (if_true _ _ e) (
        ticks-Ended P d k fuel (tick cfg load s) (omega (arith, tick_time s, ltb→lt _ _ e)) (k s h))
    | inr e ↦
        rw (if_false _ _ e) (record { state = s; returned = refl; over = ltb→ge _ _ e; holds = h })
  ]

  first_replicas-counts :
      (n next : ℕ)
      → (serving 0 (first_replicas cfg load n next) ≡ n)
        × (starting (first_replicas cfg load n next) ≡ 0)
        × All (IsSettled 0) (first_replicas cfg load n next)
  unfolding first_replicas tally
  first_replicas-counts zero next = (refl, refl, tt)
  first_replicas-counts (suc n) next =
      let (a, b, c) = first_replicas-counts n (next + 1) in
      (omega (arith, a), omega (arith, b), ((λ h. omega arith), c))

  -- For any traffic, with a tick of at least a second, the simulation ends after its duration; all
  -- that arrived in its ticks is what was served, what was dropped and what still waits together,
  -- and no more waits than the queue may hold.
  pub simulate-IsBalanced : 0 < load.dt → Ended IsBalanced (simulate cfg load)
  unfolding simulate start_simulation arrived
  simulate-IsBalanced d =
      ticks-Ended IsBalanced d tick-IsBalanced (load.duration + 1) (start_simulation cfg load)
        (omega arith) (record { balance = refl; waiting = omega arith })

  -- For any traffic, with a tick of at least a second, a least number of replicas no greater than
  -- the greatest, and a step down of at least one, the simulation ends after its duration; at each
  -- of its ticks and at the end at least the least number of replicas served, and no more than the
  -- greatest number served or started.
  pub simulate-IsSized :
      0 < load.dt
      → cfg.min_replicas ≤ cfg.max_replicas
      → 0 < cfg.max_scale_down_step
      → Ended IsSized (simulate cfg load)
  unfolding simulate start_simulation
  simulate-IsSized d l m =
      let (a, b, c) = first_replicas-counts cfg.min_replicas 0 in
      ticks-Ended IsSized d (tick-IsSized l m) (load.duration + 1) (start_simulation cfg load)
        (omega arith)
        (record {
          pool = record { settled = c; enough = omega (arith, a); bounded = omega (arith, a, b) };
          samples = tt;
        })
