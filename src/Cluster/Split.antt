-- ===== src/Cluster/Split.antt =====
-- `run_disaggregated` of packages/llmkit/llmkit/cluster.py from the prefill pool to the last token.
-- `none` is an error: no prefill worker, or no decode worker, for some request.
use llm_inference_stack.Prelude.{
  ℕ, zero, suc, ◌+◌, max, Option, none, some, List, [], ◌∷◌, ◌++◌, set, replicate, sort_from,
  sort_by, leb, if◌then◌else◌,
}
use llm_inference_stack.Cluster.{ClusterRequest, ClusterConfig, Costs}
use llm_inference_stack.Cluster.Prefill.{Stage, prefill_stage}
use llm_inference_stack.Cluster.Decode.{ready_before, decode_worker}

-- `min(range(n), key=lambda i: counts[i])`: the first position of the least count, with it.
unfoldable pub least_count : List ℕ → Option (ℕ × ℕ)
least_count [] = none
least_count (c ∷ cs) = elim (least_count cs) [
  | none ↦ some (0, c)
  | some m ↦ if leb c m.1 then some (0, c) else some (suc m.0, m.1)
]

-- What the loop carries: how many requests each worker has, and which.
pub record Groups : Type 0 where
  pub counts : List ℕ
  pub per_worker : List (List ClusterRequest)

-- `per_worker[w].append(r)`
unfoldable pub push_group :
    ℕ → ClusterRequest → List (List ClusterRequest) → List (List ClusterRequest)
push_group w r [] = []
push_group zero r (g ∷ groups) = (g ++ r ∷ []) ∷ groups
push_group (suc w) r (g ∷ groups) = g ∷ push_group w r groups

unfoldable pub assign_all : List ClusterRequest → Groups → Option Groups
unfolding least_count push_group
assign_all [] g = some g
assign_all (r ∷ rs) g = elim (least_count g.counts) [
  | none ↦ none
  | some m ↦ assign_all rs (record {
    counts = set g.counts m.0 (m.1 + 1);
    per_worker = push_group m.0 (record r { decode_worker = some m.0 }) g.per_worker;
  })
]

module _ (c : Costs) (cfg : ClusterConfig) where
  -- `for w, group in enumerate(per_worker)`: the finished requests and the busy times.
  unfoldable pub decode_all : List (List ClusterRequest) → Option (List ClusterRequest × List ℕ)
  unfolding decode_worker
  decode_all [] = some ([], [])
  decode_all (g ∷ groups) = elim (decode_worker c cfg g) [
    | none ↦ none
    | some d ↦ elim (decode_all groups) [ none ↦ none | some r ↦ some (d.0 ++ r.0, d.1 ∷ r.1) ]
  ]

  -- `max(r.finish_ms for ...)`, or 0.
  unfoldable pub makespan_of : List ClusterRequest → ℕ
  makespan_of [] = 0
  makespan_of (r ∷ rs) = elim r.finish [ none ↦ makespan_of rs | some t ↦ max t (makespan_of rs) ]

  pub record ClusterResult : Type 0 where
    pub requests : List ClusterRequest
    pub makespan : ℕ
    pub prefill_busy : List ℕ
    pub decode_busy : List ℕ
    pub transfer_total : ℕ

  unfoldable pub decode_stage : Stage → Option ClusterResult
  unfolding assign_all decode_all makespan_of sort_from
  decode_stage st =
      elim (assign_all (sort_by ready_before st.ready)
        (record { counts = replicate cfg.n_decode 0; per_worker = replicate cfg.n_decode [] })) [
          | none ↦ none
          | some g ↦ elim (decode_all g.per_worker) [
            | none ↦ none
            | some d ↦ some (record {
              requests = d.0;
              makespan = makespan_of d.0;
              prefill_busy = st.busy;
              decode_busy = d.1;
              transfer_total = st.transfer_total;
            })
          ]
        ]

  unfoldable pub run_disaggregated : List ClusterRequest → Option ClusterResult
  unfolding prefill_stage decode_stage
  run_disaggregated reqs = elim (prefill_stage c cfg reqs) [
    | none ↦ none
    | some st ↦ decode_stage st
  ]
