-- ===== src/Cluster.antt =====
-- `ClusterSim` of packages/llmkit/llmkit/cluster.py: the split of prefill and decode over two pools.
-- Times are whole ticks; the durations of steps and transfers are the record `Costs`. A time that is
-- not yet known is `none` where the source reads it before it is set, and 0 elsewhere.
pub mod Prefill
pub mod Decode
pub mod Split
pub mod Colocated
pub mod Queue
pub mod Batch
pub mod Drain
pub mod Workers
pub mod Flow
pub mod Pools
pub mod Complete
pub mod Tests
use llm_inference_stack.Prelude.{
  ℕ, zero, suc, ◌+◌, String, Bool, true, false, Option, none, some, List, [], ◌∷◌, ◌++◌, get_elem?,
  set, leb, ltb, if◌then◌else◌,
}

pub record ClusterRequest : Type 0 where
  pub request_id : String
  pub prompt_tokens : ℕ
  pub output_tokens : ℕ
  pub arrival : ℕ
  pub prefill_start : ℕ
  pub prefill_done : ℕ
  pub transfer_done : ℕ
  pub first_token : Option ℕ
  pub finish : Option ℕ
  pub prefill_worker : Option ℕ
  pub decode_worker : Option ℕ

pub record ClusterConfig : Type 0 where
  pub n_prefill : ℕ
  pub n_decode : ℕ
  pub max_batch : ℕ

pub record Costs : Type 0 where
  pub prefill_time : ℕ → ℕ
  pub transfer_time : ℕ → ℕ
  pub decode_time : List ℕ → ℕ

-- `busy[w] += duration`
unfoldable pub add_busy : ℕ → ℕ → List ℕ → List ℕ
add_busy w duration busy = elim (get_elem? busy w) [
  | none ↦ busy
  | some b ↦ set busy w (b + duration)
]
