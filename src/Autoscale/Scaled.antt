-- ===== src/Autoscale/Scaled.antt =====
-- The number of replicas through a tick of `simulate`.
use llm_inference_stack.Prelude.{
  ℕ, ◌+◌, ◌-◌, ◌≤◌, ◌<◌, min, ◌&&◌, Option, none, some, List, All, All-append, tally-append, inl,
  inr, Bool-cases, and_left, if_true, if_false, leb, ltb, ltb→lt, arith,
}
use llm_inference_stack.Autoscale.{ReplicaState, ScalerConfig}
use llm_inference_stack.Autoscale.Simulate.{
  Pool, serves, starts, serving, is_past, launch, kept, scale_up, scale_down, consider_down,
  decide_scale, advance_replicas,
}
use llm_inference_stack.Autoscale.Counts.{
  IsSettled, alive, launch-counts, drain_after-counts, drain_after-IsSettled,
  advance_replicas-counts,
}

-- At least the least number of replicas serves, and no more than the greatest number serves or starts.
pub record IsScaled (cfg : ScalerConfig) (t : ℕ) (rs : List ReplicaState) : Type 0 where
  pub settled : All (IsSettled t) rs
  pub enough : cfg.min_replicas ≤ serving t rs
  pub bounded : alive t rs ≤ cfg.max_replicas

pub advance_replicas-IsScaled :
    (cfg : ScalerConfig) (t u : ℕ) (rs : List ReplicaState)
    → t ≤ u
    → IsScaled cfg t rs
    → IsScaled cfg u (advance_replicas t rs)
advance_replicas-IsScaled cfg t u rs l h =
    let (a, b, c) = advance_replicas-counts t u l rs h.settled in
    record {
      settled = c;
      enough = omega (arith, b, h.enough);
      bounded = omega (arith, a, h.bounded);
    }

module _ (cfg : ScalerConfig) (t : ℕ) where
  scale_up-IsScaled :
      (cold_start : ℕ → ℕ) (want : ℕ) (p : Pool)
      → want ≤ cfg.max_replicas
      → alive t p.replicas < want
      → IsScaled cfg t p.replicas
      → IsScaled cfg t (scale_up cfg cold_start t want (alive t p.replicas) p).replicas
  unfolding scale_up
  scale_up-IsScaled cold_start want p m l h =
      let add = min (want - alive t p.replicas) cfg.max_scale_up_step in
      let new = launch cold_start t add p.next_id in
      let (a, b, c) = launch-counts cold_start t add p.next_id in
      record {
        settled = All-append (IsSettled t) p.replicas new h.settled c;
        enough = omega (arith, h.enough, tally-append (serves t) p.replicas new);
        bounded = omega (
          arith,
          a,
          b,
          tally-append (serves t) p.replicas new,
          tally-append starts p.replicas new,
        );
      }

  le-kept :
      (least want n step : ℕ)
      → least ≤ want
      → want < n
      → 0 < step
      → least ≤ kept n (min (n - want) step)
  le-kept least want n step a b c = ground arith

  scale_down-IsScaled :
      (want : ℕ) (p : Pool)
      → cfg.min_replicas ≤ want
      → 0 < cfg.max_scale_down_step
      → want < serving t p.replicas
      → IsScaled cfg t p.replicas
      → IsScaled cfg t (scale_down cfg t want (serving t p.replicas) p).replicas
  unfolding scale_down
  scale_down-IsScaled want p m s l h =
      let n = serving t p.replicas in
      let keep = kept n (min (n - want) cfg.max_scale_down_step) in
      let (a, b) = drain_after-counts (t + cfg.drain_time) t keep p.replicas in
      record {
        settled = drain_after-IsSettled (t + cfg.drain_time) t keep t p.replicas h.settled;
        enough =
            omega
              (arith, a, h.enough, le-kept cfg.min_replicas want n cfg.max_scale_down_step m l s);
        bounded = omega (arith, a, b, h.bounded);
      }

  consider_down-IsScaled :
      (want : ℕ) (since : Option ℕ) (p : Pool)
      → cfg.min_replicas ≤ want
      → 0 < cfg.max_scale_down_step
      → want < serving t p.replicas
      → IsScaled cfg t p.replicas
      → IsScaled cfg t (consider_down cfg t want (serving t p.replicas) since p).replicas
  unfolding consider_down
  consider_down-IsScaled want none p m s l h = h
  consider_down-IsScaled want (some since) p m s l h =
      elim (Bool-cases (
        leb cfg.scale_down_stabilization (t - since)
        && is_past t cfg.scale_down_cooldown p.last_down)) [
          | inl e ↦ rw (if_true _ _ e) (scale_down-IsScaled want p m s l h)
          | inr e ↦ rw (if_false _ _ e) h
        ]

  pub decide_scale-IsScaled :
      (cold_start : ℕ → ℕ) (want : ℕ) (p : Pool)
      → cfg.min_replicas ≤ want
      → want ≤ cfg.max_replicas
      → 0 < cfg.max_scale_down_step
      → IsScaled cfg t p.replicas
      → IsScaled cfg t (decide_scale cfg cold_start t want p).replicas
  unfolding decide_scale
  decide_scale-IsScaled cold_start want p l m s h =
      elim (Bool-cases
        (ltb (alive t p.replicas) want && is_past t cfg.scale_up_cooldown p.last_up)) [
          | inl e ↦
              rw (if_true _ _ e)
                (scale_up-IsScaled cold_start want p m (ltb→lt _ _ (and_left _ _ e)) h)
          | inr e ↦ rw (if_false _ _ e) (elim (Bool-cases (ltb want (serving t p.replicas))) [
            | inl k ↦
                rw (if_true _ _ k) (consider_down-IsScaled want p.low_since p l s (ltb→lt _ _ k) h)
            | inr k ↦ rw (if_false _ _ k) h
          ])
        ]
