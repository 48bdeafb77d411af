-- ===== src/Cluster/Tests.antt =====
-- A run of the cluster with two prefill workers and one decode worker.
use llm_inference_stack.Prelude.{
  ℕ, ◌≡◌, refl, String, Option, none, some, List, [], ◌∷◌, map, length, arith, sort_from, insert_by,
}
use llm_inference_stack.Cluster.{ClusterRequest, ClusterConfig, Costs}
use llm_inference_stack.Cluster.Decode.{work_of, decode_rounds}
use llm_inference_stack.Cluster.Split.{push_group}
use llm_inference_stack.Prelude.{true}
use llm_inference_stack.Cluster.Decode.{start_worker}
use llm_inference_stack.Cluster.Split.{ClusterResult, run_disaggregated}
use llm_inference_stack.Cluster.Workers.{Drained, decode_rounds-Drained}
use llm_inference_stack.Cluster.Batch.{lag}
use llm_inference_stack.Cluster.Queue.{work_active}
use llm_inference_stack.Cluster.Drain.{measure}
use llm_inference_stack.Cluster.Colocated.{PoolConfig, PoolWorker, run_colocated}
use llm_inference_stack.Cluster.Complete.{Complete, run_disaggregated-Complete}

abbrev costs : Costs
costs = record { prefill_time = λ n. n; transfer_time = λ n. 2; decode_time = λ ctxs. length ctxs }

abbrev config : ClusterConfig
config = record { n_prefill = 2; n_decode = 1; max_batch = 2 }

abbrev request : String → ℕ → ℕ → ℕ → ClusterRequest
request id prompt output arrival = record {
  request_id = id;
  prompt_tokens = prompt;
  output_tokens = output;
  arrival = arrival;
  prefill_start = 0;
  prefill_done = 0;
  transfer_done = 0;
  first_token = none;
  finish = none;
  prefill_worker = none;
  decode_worker = none;
}

abbrev requests : List ClusterRequest
requests = request "b" 4 2 3 ∷ request "a" 5 3 0 ∷ request "c" 1 1 4 ∷ []

abbrev times : Option (ClusterResult costs config) → List (String × Option ℕ × Option ℕ)
times none = []
times (some r) = map (λ r. (r.request_id, r.first_token, r.finish)) r.requests

run :
    times (run_disaggregated costs config requests)
    ≡ ("c", some 10, some 10) ∷ ("a", some 8, some 12) ∷ ("b", some 12, some 13) ∷ []
unfolding run_disaggregated insert_by sort_from
run = refl

run_disaggregated-Complete_example :
    Complete costs config requests (run_disaggregated costs config requests)
run_disaggregated-Complete_example =
    run_disaggregated-Complete costs config requests (omega arith) (omega arith) (omega arith)

decode_rounds-Drained_example :
    Drained (start_worker requests) (decode_rounds costs config 20 (start_worker requests))
unfolding measure lag work_of work_active
decode_rounds-Drained_example =
    decode_rounds-Drained costs config 20 (start_worker requests) (omega arith) (omega arith)

abbrev pool : PoolConfig
pool = record {
  max_num_batched_tokens = 4;
  max_batch = 2;
  chunked_prefill = true;
  mixed_time = λ chunks contexts ctxs. 3;
  prefill_time = λ chunks contexts. 2;
  decode_time = λ ctxs. 1;
}

abbrev finishes : List (Option PoolWorker) → List (List (String × Option ℕ × Option ℕ))
finishes [] = []
finishes (none ∷ workers) = [] ∷ finishes workers
finishes (some s ∷ workers) =
    map (λ r. (r.request_id, r.first_token, r.finish)) s.finished ∷ finishes workers

colocated_run :
    finishes (run_colocated pool 20 2 requests)
    ≡ (("c", some 7, some 7) ∷ ("a", some 4, some 8) ∷ []) ∷ (("b", some 5, some 6) ∷ []) ∷ []
unfolding run_colocated insert_by sort_from push_group
colocated_run = refl
