-- ===== src/Autoscale/Simulate.antt =====
-- `simulate` of packages/llmkit/llmkit/autoscale.py. The replicas of the source are objects of one list;
-- here the list itself changes. The cold start of a replica with its jitter is a parameter, `cold_start`,
-- at the replica's id. A time before which nothing happened, -1e9, is `none`.
use llm_inference_stack.Prelude.{
  ℕ, zero, suc, ◌+◌, ◌-◌, min, Bool, true, ◌&&◌, Option, none, some, List, [], ◌∷◌, ◌++◌, leb, ltb,
  ◌==◌, if◌then◌else◌, tally,
}
use llm_inference_stack.Autoscale.{Phase, ReplicaState, is_starting, is_serving, ScalerConfig}

pub data Action : Type 0 where
  up down : Action

-- Without the signal and the reason, which are for display.
pub record ScaleEvent : Type 0 where
  pub at : ℕ
  pub action : Action
  pub from_n : ℕ
  pub to_n : ℕ

-- What a tick appends to the series of the result.
pub record Sample : Type 0 where
  pub at : ℕ
  pub offered : ℕ
  pub capacity : ℕ
  pub queue : ℕ
  pub ready : ℕ
  pub starting : ℕ

pub record Pool : Type 0 where
  pub replicas : List ReplicaState
  pub next_id : ℕ
  pub last_up : Option ℕ
  pub last_down : Option ℕ
  pub low_since : Option ℕ
  pub events : List ScaleEvent

pub record Totals : Type 0 where
  pub served : ℕ
  pub dropped : ℕ
  pub slo_violation : ℕ
  pub replica_seconds : ℕ
  pub wasted_replica_seconds : ℕ

pub record Simulation : Type 0 where
  pub time : ℕ
  pub queue : ℕ
  pub pool : Pool
  pub signal_hist : List (ℕ × ℕ × ℕ)
  pub totals : Totals
  pub samples : List Sample

pub record Load : Type 0 where
  pub arrival : ℕ → ℕ
  pub duration : ℕ
  pub dt : ℕ
  pub capacity_per_replica : ℕ
  pub queue_slo : ℕ
  pub max_queue : ℕ
  pub cold_start : ℕ → ℕ

abbrev pub serves : ℕ → ReplicaState → Bool
serves t r = is_serving t r

abbrev pub starts : ReplicaState → Bool
starts r = is_starting r.state

-- The replicas that serve, and those that start.
abbrev pub serving : ℕ → List ReplicaState → ℕ
serving t rs = tally (serves t) rs

abbrev pub starting : List ReplicaState → ℕ
starting rs = tally starts rs

abbrev pub is_past : ℕ → ℕ → Option ℕ → Bool
is_past t wait none = true
is_past t wait (some u) = leb wait (t - u)

-- `add` new replicas, in their cold start.
unfoldable pub launch : (ℕ → ℕ) → ℕ → ℕ → ℕ → List ReplicaState
launch cold_start t zero next = []
launch cold_start t (suc n) next =
    record {
      replica_id = next;
      state = Phase.starting;
      ready_at = t + cold_start next;
      drain_until = 0;
      inflight = 0;
    }
    ∷ launch cold_start t n (next + 1)

-- All that serve but the first `keep` drain.
unfoldable pub drain_after : ℕ → ℕ → ℕ → List ReplicaState → List ReplicaState
drain_after until t keep [] = []
drain_after until t keep (r ∷ rs) =
    let less = drain_after until t (keep - 1) rs in
    let same = drain_after until t keep rs in
    if serves t r
    then (if ltb 0 keep
        then r ∷ less
        else record r { state = Phase.draining; drain_until = until } ∷ same)
    else r ∷ same

-- How many of `ready` come before `ready[-remove:]`, which for 0 is the whole list.
abbrev pub kept : ℕ → ℕ → ℕ
kept n_ready remove = if remove == 0 then 0 else n_ready - remove

unfoldable pub scale_up : ScalerConfig → (ℕ → ℕ) → ℕ → ℕ → ℕ → Pool → Pool
unfolding launch
scale_up cfg cold_start t want n_total p =
    let add = min (want - n_total) cfg.max_scale_up_step in
    record p {
      replicas = p.replicas ++ launch cold_start t add p.next_id;
      next_id = p.next_id + add;
      last_up = some t;
      low_since = none;
      events =
          p.events
          ++ record { at = t; action = Action.up; from_n = n_total; to_n = n_total + add } ∷ [];
    }

unfoldable pub scale_down : ScalerConfig → ℕ → ℕ → ℕ → Pool → Pool
unfolding drain_after
scale_down cfg t want n_ready p =
    let remove = min (n_ready - want) cfg.max_scale_down_step in
    record p {
      replicas = drain_after (t + cfg.drain_time) t (kept n_ready remove) p.replicas;
      last_down = some t;
      low_since = none;
      events =
          p.events
          ++ record { at = t; action = Action.down; from_n = n_ready; to_n = n_ready - remove }
            ∷ [];
    }

-- A low signal starts the wait, or ends it.
unfoldable pub consider_down : ScalerConfig → ℕ → ℕ → ℕ → Option ℕ → Pool → Pool
unfolding scale_down
consider_down cfg t want n_ready none p = record p { low_since = some t }
consider_down cfg t want n_ready (some since) p =
    if leb cfg.scale_down_stabilization (t - since) && is_past t cfg.scale_down_cooldown p.last_down
    then scale_down cfg t want n_ready p
    else p

-- The three branches of the decision.
unfoldable pub decide_scale : ScalerConfig → (ℕ → ℕ) → ℕ → ℕ → Pool → Pool
unfolding scale_up consider_down
decide_scale cfg cold_start t want p =
    let n_ready = serving t p.replicas in
    let n_total = n_ready + starting p.replicas in
    if ltb n_total want && is_past t cfg.scale_up_cooldown p.last_up
    then scale_up cfg cold_start t want n_total p
    else if ltb want n_ready
    then consider_down cfg t want n_ready p.low_since p
    else record p { low_since = none }

-- From the time, when it is ready, how long it drains, and its phase.
unfoldable pub next_phase : ℕ → ℕ → ℕ → Phase → Phase
next_phase t ready_at until Phase.starting = if leb ready_at t then Phase.ready else Phase.starting
next_phase t ready_at until Phase.draining = if leb until t then Phase.gone else Phase.draining
next_phase t ready_at until Phase.ready = Phase.ready
next_phase t ready_at until Phase.gone = Phase.gone

-- In its new phase, unless it is gone.
unfoldable pub place : ReplicaState → Phase → List ReplicaState → List ReplicaState
place r Phase.gone rest = rest
place r Phase.starting rest = record r { state = Phase.starting } ∷ rest
place r Phase.ready rest = record r { state = Phase.ready } ∷ rest
place r Phase.draining rest = record r { state = Phase.draining } ∷ rest

-- The lifecycle, and the list without those that are gone.
unfoldable pub advance_replicas : ℕ → List ReplicaState → List ReplicaState
unfolding next_phase place
advance_replicas t [] = []
advance_replicas t (r ∷ rs) =
    place r (next_phase t r.ready_at r.drain_until r.state) (advance_replicas t rs)
