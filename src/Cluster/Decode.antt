-- ===== src/Cluster/Decode.antt =====
-- `_decode_worker` of packages/llmkit/llmkit/cluster.py: continuous batching on one worker. Request ids
-- are distinct, so that the dictionaries `remaining` and `ctx` are fields of what is active. The outer
-- loop takes fuel, one more than a bound for its rounds.
use llm_inference_stack.Prelude.{
  ℕ, zero, suc, ◌+◌, ◌-◌, max, Bool, ◌&&◌, Option, none, some, List, [], ◌∷◌, ◌++◌, map, length,
  sort_from, sort_by, leb, ltb, if◌then◌else◌,
}
use llm_inference_stack.Cluster.{ClusterRequest, ClusterConfig, Costs}

pub record Active : Type 0 where
  pub req : ClusterRequest
  pub remaining : ℕ
  pub ctx : ℕ

pub record Worker : Type 0 where
  pub now : ℕ
  pub busy : ℕ
  pub pending : List ClusterRequest
  pub active : List Active
  pub finished : List ClusterRequest

abbrev pub activate : ClusterRequest → Active
activate r = record {
  req = record r { first_token = none };
  remaining = r.output_tokens;
  ctx = r.prompt_tokens;
}

-- The inner `while`: what has arrived goes to the batch as long as it has room.
unfoldable pub admit_ready :
    ℕ → ℕ → List ClusterRequest → List Active → List ClusterRequest × List Active
admit_ready max_batch now [] active = ([], active)
admit_ready max_batch now (r ∷ rs) active =
    let rest = admit_ready max_batch now rs (active ++ activate r ∷ []) in
    if leb r.transfer_done now && ltb (length active) max_batch then rest else (r ∷ rs, active)

-- One token for a request of the batch.
abbrev pub decode_token : ℕ → Active → Active
decode_token now a = record {
  req = record a.req { first_token = elim a.req.first_token [ none ↦ some now | some t ↦ some t ] };
  remaining = a.remaining - 1;
  ctx = a.ctx + 1;
}

-- The `for` over the batch: what goes on, and what has finished.
unfoldable pub decode_batch : ℕ → List Active → List Active × List ClusterRequest
decode_batch now [] = ([], [])
decode_batch now (a ∷ batch) =
    let (active, done) = decode_batch now batch in
    let a' = decode_token now a in
    if leb a.remaining 1
    then (active, record a'.req { finish = some now } ∷ done)
    else (a' ∷ active, done)

-- The tokens that are to be made: each round of the batch makes one of each of its requests.
unfoldable pub work_of : List ClusterRequest → ℕ
work_of [] = 0
work_of (r ∷ rs) = max 1 r.output_tokens + work_of rs

abbrev pub ready_before : ClusterRequest → ClusterRequest → Bool
ready_before a b = ltb a.transfer_done b.transfer_done

-- `now = pending[0].transfer_done_ms`
abbrev pub start_worker : List ClusterRequest → Worker
start_worker [] = record { now = 0; busy = 0; pending = []; active = []; finished = [] }
start_worker (r ∷ rs) = record {
  now = r.transfer_done;
  busy = 0;
  pending = r ∷ rs;
  active = [];
  finished = [];
}

module _ (c : Costs) (cfg : ClusterConfig) where
  -- After the inner `while`: a step of the batch, or the clock moves to the next arrival.
  unfoldable pub decode_step : Worker → Worker
  unfolding decode_batch
  decode_step s =
      let duration = c.decode_time (map (λ a. a.ctx) s.active) in
      let (active, done) = decode_batch (s.now + duration) s.active in
      record s {
        now = s.now + duration;
        busy = s.busy + duration;
        active = active;
        finished = s.finished ++ done;
      }

  unfoldable pub advance_worker : Worker → Worker
  unfolding decode_step
  advance_worker s = elim s.active [
    | _ ∷ _ ↦ decode_step s
    | [] ↦ elim s.pending [ [] ↦ s | r ∷ rs ↦ record s { now = r.transfer_done } ]
  ]

  abbrev pub admit_worker : Worker → Worker
  admit_worker s = record s {
    pending = (admit_ready cfg.max_batch s.now s.pending s.active).0;
    active = (admit_ready cfg.max_batch s.now s.pending s.active).1;
  }

  unfoldable pub is_drained : Worker → Bool
  is_drained s = leb (length s.pending + length s.active) 0

  -- The outer `while`; `none` when the rounds run out.
  unfoldable pub decode_rounds : ℕ → Worker → Option Worker
  unfolding admit_ready advance_worker is_drained
  decode_rounds zero s = none
  decode_rounds (suc fuel) s =
      let rest = decode_rounds fuel (advance_worker (admit_worker s)) in
      if is_drained s then some s else rest

  -- What is left of a worker that has drained.
  abbrev pub results_of : Option Worker → Option (List ClusterRequest × ℕ)
  results_of none = none
  results_of (some s) = some (s.finished, s.busy)

  -- A worker without requests has nothing to do and returns at once.
  unfoldable pub decode_worker : List ClusterRequest → Option (List ClusterRequest × ℕ)
  unfolding decode_rounds work_of sort_from
  decode_worker group =
      let pending = sort_by ready_before group in
      results_of (decode_rounds (work_of pending + work_of pending + 2) (start_worker pending))
