-- ===== src/Cluster/Colocated.antt =====
-- `run_colocated` and `_colocated_worker` of packages/llmkit/llmkit/cluster.py: each worker does both
-- phases. A worker's loop takes the number of its turns, and `none` is a loop that has not ended.
use llm_inference_stack.Prelude.{
  ℕ, zero, suc, ◌+◌, ◌-◌, ◌%◌, min, Bool, not, ◌&&◌, ◌||◌, Option, none, some, List, [], ◌∷◌, ◌++◌,
  map, length, replicate, sort_from, sort_by, leb, ltb, if◌then◌else◌,
}
use llm_inference_stack.Cluster.{ClusterRequest}
use llm_inference_stack.Cluster.Prefill.{arrives_before}
use llm_inference_stack.Cluster.Decode.{Active}
use llm_inference_stack.Cluster.Split.{push_group}

-- The settings of the single pool, and the durations of a step.
pub record PoolConfig : Type 0 where
  pub max_num_batched_tokens : ℕ
  pub max_batch : ℕ
  pub chunked_prefill : Bool
  pub mixed_time : List ℕ → List ℕ → List ℕ → ℕ
  pub prefill_time : List ℕ → List ℕ → ℕ
  pub decode_time : List ℕ → ℕ

pub record Prefilling : Type 0 where
  pub req : ClusterRequest
  pub tokens_done : ℕ

pub record PoolWorker : Type 0 where
  pub now : ℕ
  pub pending : List ClusterRequest
  pub prefilling : List Prefilling
  pub active : List Active
  pub prefill_busy : ℕ
  pub decode_busy : ℕ
  pub finished : List ClusterRequest

unfoldable pub admit_arrived :
    ℕ → ℕ → ℕ → List ClusterRequest → List Prefilling → List ClusterRequest × List Prefilling
admit_arrived room now n_active [] prefilling = ([], prefilling)
admit_arrived room now n_active (r ∷ rs) prefilling =
    let rest =
      admit_arrived room now n_active rs
        (prefilling ++ record { req = record r { prefill_start = now }; tokens_done = 0 } ∷ []) in
    if leb r.arrival now && ltb (n_active + length prefilling) room
    then rest
    else (r ∷ rs, prefilling)

-- What a step prefills: the chunks with the context after each, who is done, and who is not.
pub record Chunks : Type 0 where
  pub taken : List ℕ
  pub contexts : List ℕ
  pub newly_done : List ClusterRequest
  pub still : List Prefilling

abbrev pub put_chunk : Prefilling → ℕ → Chunks → Chunks
put_chunk p take c = record {
  taken = if ltb 0 take then (take ∷ c.taken) else c.taken;
  contexts = if ltb 0 take then ((p.tokens_done + take) ∷ c.contexts) else c.contexts;
  newly_done =
      if leb p.req.prompt_tokens (p.tokens_done + take)
      then (p.req ∷ c.newly_done)
      else c.newly_done;
  still =
      if leb p.req.prompt_tokens (p.tokens_done + take)
      then c.still
      else (record p { tokens_done = p.tokens_done + take } ∷ c.still);
}

-- The loop over `prefilling`, with the budget that is left.
unfoldable pub take_chunks : ℕ → List Prefilling → Chunks
take_chunks budget [] = record { taken = []; contexts = []; newly_done = []; still = [] }
take_chunks budget (p ∷ prefilling) =
    let take = min (p.req.prompt_tokens - p.tokens_done) budget in
    put_chunk p take (take_chunks (budget - take) prefilling)

-- A request whose prefill has ended has its first token.
abbrev pub first_served : ℕ → ℕ → ClusterRequest → Active
first_served w now r = record {
  req = record r {
    prefill_done = now;
    transfer_done = now;
    first_token = some now;
    decode_worker = some w;
    prefill_worker = some w;
  };
  remaining = r.output_tokens - 1;
  ctx = r.prompt_tokens;
}

abbrev pub next_token : Active → Active
next_token a = record a { remaining = a.remaining - 1; ctx = a.ctx + 1 }

-- Those with nothing left are finished and leave the batch.
unfoldable pub settle_batch : ℕ → List Active → List Active × List ClusterRequest
settle_batch now [] = ([], [])
settle_batch now (a ∷ batch) =
    let (active, done) = settle_batch now batch in
    if leb a.remaining 0
    then (active, record a.req { finish = some now } ∷ done)
    else (a ∷ active, done)

module _ (cfg : PoolConfig) (w : ℕ) where
  abbrev pub step_time : List ℕ → List ℕ → List ℕ → ℕ
  step_time [] contexts decode_ctx = cfg.decode_time decode_ctx
  step_time (c ∷ chunks) contexts [] = cfg.prefill_time (c ∷ chunks) contexts
  step_time (c ∷ chunks) contexts (d ∷ decode_ctx) =
      cfg.mixed_time (c ∷ chunks) contexts (d ∷ decode_ctx)

  -- A step of a worker that has something to do.
  unfoldable pub pool_step : PoolWorker → PoolWorker
  unfolding take_chunks settle_batch
  pool_step s =
      let budget =
        if cfg.chunked_prefill
        then cfg.max_num_batched_tokens - length s.active
        else cfg.max_num_batched_tokens in
      let chunks = take_chunks budget s.prefilling in
      let has_chunks = ltb 0 (length chunks.taken) in
      let decodes = cfg.chunked_prefill || not has_chunks in
      let duration =
        step_time chunks.taken chunks.contexts
          (if decodes then map (λ a. a.ctx) s.active else []) in
      let now = s.now + duration in
      let batch =
        (if decodes then map next_token s.active else s.active)
        ++ map (first_served w now) chunks.newly_done in
      let (active, done) = settle_batch now batch in
      record s {
        now = now;
        prefilling = chunks.still;
        active = active;
        prefill_busy = if has_chunks then s.prefill_busy + duration else s.prefill_busy;
        decode_busy = if has_chunks then s.decode_busy else s.decode_busy + duration;
        finished = s.finished ++ done;
      }

  abbrev pub is_idle : PoolWorker → Bool
  is_idle s = leb (length s.active + length s.prefilling) 0

  unfoldable pub wait_or_step : PoolWorker → PoolWorker
  unfolding pool_step
  wait_or_step s =
      if is_idle s
      then elim s.pending [ [] ↦ s | r ∷ rs ↦ record s { now = r.arrival } ]
      else pool_step s

  unfoldable pub pool_turn : PoolWorker → PoolWorker
  unfolding admit_arrived wait_or_step
  pool_turn s =
      let (pending, prefilling) =
        admit_arrived cfg.max_batch s.now (length s.active) s.pending s.prefilling in
      wait_or_step (record s { pending = pending; prefilling = prefilling })

  -- The outer `while`.
  unfoldable pub pool_turns : ℕ → PoolWorker → Option PoolWorker
  unfolding pool_turn
  pool_turns zero s = if is_idle s && leb (length s.pending) 0 then some s else none
  pool_turns (suc turns) s =
      let rest = pool_turns turns (pool_turn s) in
      if is_idle s && leb (length s.pending) 0 then some s else rest

  abbrev pub start_pool : List ClusterRequest → PoolWorker
  start_pool [] = record {
    now = 0;
    pending = [];
    prefilling = [];
    active = [];
    prefill_busy = 0;
    decode_busy = 0;
    finished = [];
  }
  start_pool (r ∷ rs) = record {
    now = r.arrival;
    pending = r ∷ rs;
    prefilling = [];
    active = [];
    prefill_busy = 0;
    decode_busy = 0;
    finished = [];
  }

  unfoldable pub colocated_worker : ℕ → List ClusterRequest → Option PoolWorker
  unfolding pool_turns sort_from
  colocated_worker turns group = pool_turns turns (start_pool (sort_by arrives_before group))

-- `groups[i % n_workers].append(r)`
unfoldable pub deal :
    ℕ → ℕ → List ClusterRequest → List (List ClusterRequest) → List (List ClusterRequest)
unfolding push_group
deal n i [] groups = groups
deal n i (r ∷ rs) groups = deal n (i + 1) rs (push_group (i % n) r groups)

unfoldable pub colocated_workers :
    PoolConfig → ℕ → ℕ → List (List ClusterRequest) → List (Option PoolWorker)
unfolding colocated_worker
colocated_workers cfg turns w [] = []
colocated_workers cfg turns w (g ∷ groups) =
    colocated_worker cfg w turns g ∷ colocated_workers cfg turns (w + 1) groups

-- With at least one worker.
unfoldable pub run_colocated : PoolConfig → ℕ → ℕ → List ClusterRequest → List (Option PoolWorker)
unfolding deal colocated_workers sort_from
run_colocated cfg turns n_workers reqs =
    colocated_workers cfg turns 0
      (deal n_workers 0 (sort_by arrives_before reqs) (replicate n_workers []))
