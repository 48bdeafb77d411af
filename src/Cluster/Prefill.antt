-- ===== src/Cluster/Prefill.antt =====
-- The first stage of `run_disaggregated` in packages/llmkit/llmkit/cluster.py: prefill in order of
-- arrival over a pool of workers. The heap of free workers is the list of its items; `none` is the
-- `IndexError` of a pop of nothing.
use llm_inference_stack.Prelude.{
  ℕ, zero, suc, ◌+◌, max, Bool, ◌&&◌, ◌||◌, Option, none, some, List, [], ◌∷◌, ◌++◌, replicate,
  sort_from, sort_by, ltb, ◌==◌, if◌then◌else◌,
}
use llm_inference_stack.Cluster.{ClusterRequest, ClusterConfig, Costs, add_busy}

-- The order of tuples `(time, worker)`.
unfoldable pub is_freer : ℕ × ℕ → ℕ × ℕ → Bool
is_freer a b = ltb (a.0) (b.0) || ((a.0 == b.0) && ltb (a.1) (b.1))

-- `heapq.heappop`: the least item and the others.
unfoldable pub pop_least : List (ℕ × ℕ) → Option ((ℕ × ℕ) × List (ℕ × ℕ))
unfolding is_freer
pop_least [] = none
pop_least (x ∷ xs) = elim (pop_least xs) [
  | none ↦ some (x, [])
  | some r ↦ if is_freer r.0 x then some (r.0, x ∷ r.1) else some (x, xs)
]

-- `[(0.0, i) for i in range(n)]`
unfoldable pub workers_from : ℕ → ℕ → List (ℕ × ℕ)
workers_from zero i = []
workers_from (suc n) i = (0, i) ∷ workers_from n (i + 1)

-- What the loop carries.
pub record Stage : Type 0 where
  pub free : List (ℕ × ℕ)
  pub busy : List ℕ
  pub transfer_total : ℕ
  pub ready : List ClusterRequest

abbrev pub arrives_before : ClusterRequest → ClusterRequest → Bool
arrives_before a b = ltb a.arrival b.arrival

module _ (c : Costs) where
  -- A request on the worker that is free first.
  abbrev pub prefilled : ℕ → ℕ → ClusterRequest → ClusterRequest
  prefilled avail w r =
      let start = max avail r.arrival in
      let done = start + c.prefill_time r.prompt_tokens in
      record r {
        prefill_worker = some w;
        prefill_start = start;
        prefill_done = done;
        transfer_done = done + c.transfer_time r.prompt_tokens;
      }

  unfoldable pub prefill_on : ℕ × ℕ → List (ℕ × ℕ) → ClusterRequest → Stage → Stage
  unfolding add_busy
  prefill_on (avail, w) free r st =
      let r' = prefilled avail w r in
      record {
        free = (r'.prefill_done, w) ∷ free;
        busy = add_busy w (c.prefill_time r.prompt_tokens) st.busy;
        transfer_total = st.transfer_total + c.transfer_time r.prompt_tokens;
        ready = st.ready ++ r' ∷ [];
      }

  -- The `for` loop.
  unfoldable pub prefill_all : List ClusterRequest → Stage → Option Stage
  unfolding pop_least prefill_on
  prefill_all [] st = some st
  prefill_all (r ∷ rs) st = elim (pop_least st.free) [
    | none ↦ none
    | some m ↦ prefill_all rs (prefill_on m.0 m.1 r st)
  ]

  unfoldable pub prefill_stage : ClusterConfig → List ClusterRequest → Option Stage
  unfolding workers_from prefill_all sort_from
  prefill_stage cfg reqs = prefill_all (sort_by arrives_before reqs) (record {
    free = workers_from cfg.n_prefill 0;
    busy = replicate cfg.n_prefill 0;
    transfer_total = 0;
    ready = [];
  })
