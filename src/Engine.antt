-- ===== src/Engine.antt =====
-- `EngineSim` of packages/llmkit/llmkit/simulator/engine.py: its data and the access to it.
-- A `Sequence` object is its position in the store `seqs`; the queues hold positions, so an object
-- that stands in several lists is shared. The dataclass compares by fields where a list removes an
-- object; positions agree with that while no two requests are equal in all fields. Times are whole ticks. The cost model, the hash of blocks,
-- the random draws and the hash of texts are the record `World`.
pub mod Arrivals
pub mod Schedule
pub mod Plan
pub mod Grow
pub mod Apply
pub mod Step
pub mod Tokens
pub mod Drafts
pub mod Sorted
pub mod Counted
pub mod Admitted
pub mod Chunks
pub mod Preempted
pub mod Tests
use llm_inference_stack.Prelude.{
  ℕ, zero, suc, ◌+◌, ◌-◌, ◌*◌, ◌/◌, ◌<◌, String, Bool, true, false, not, Option, none, some, List,
  [], ◌∷◌, ◌++◌, length, get_elem?, set, ◌==◌, leb, ltb, if◌then◌else◌,
}
use llm_inference_stack.Exec.{
  Error, Result, ok, raise, Exec, pure, fail, need, modify, gets, out_of_blocks, index_error,
  zero_division, value_error, ◌>>=◌, ◌>>◌,
}
use llm_inference_stack.Paged.{PagedKvCache}

pub data SeqStatus : Type 0 where
  waiting running swapped finished : SeqStatus

pub data PreemptionMode : Type 0 where
  recompute swap : PreemptionMode

pub record SimRequest : Type 0 where
  pub request_id : String
  pub prompt_tokens : ℕ
  pub output_tokens : ℕ
  pub arrival : ℕ
  pub token_ids : List ℕ
  pub session_id : Option String
  pub priority : ℕ
  pub shared_prefix_tokens : ℕ
  pub prefix_group : Option String

-- A time of -1 is `none`.
pub record Sequence : Type 0 where
  pub req : SimRequest
  pub status : SeqStatus
  pub block_table : List ℕ
  pub prefilled : ℕ
  pub generated : ℕ
  pub cached_tokens : ℕ
  pub arrival : ℕ
  pub first_token : Option ℕ
  pub finish : Option ℕ
  pub token_times : List ℕ
  pub n_preemptions : ℕ
  pub n_spec_accepted : ℕ
  pub n_spec_proposed : ℕ

abbrev pub ctx_len : Sequence → ℕ
ctx_len s = s.prefilled + s.generated

abbrev pub total_len : Sequence → ℕ
total_len s = s.req.prompt_tokens + s.generated

abbrev pub prefill_done : Sequence → Bool
prefill_done s = leb s.req.prompt_tokens s.prefilled

abbrev pub is_done : Sequence → Bool
is_done s = leb s.req.output_tokens s.generated

abbrev pub new_sequence : SimRequest → Sequence
new_sequence r = record {
  req = r;
  status = SeqStatus.waiting;
  block_table = [];
  prefilled = 0;
  generated = 0;
  cached_tokens = 0;
  arrival = r.arrival;
  first_token = none;
  finish = none;
  token_times = [];
  n_preemptions = 0;
  n_spec_accepted = 0;
  n_spec_proposed = 0;
}

pub record EngineConfig : Type 0 where
  pub block_size : ℕ
  pub max_num_seqs : ℕ
  pub max_num_batched_tokens : ℕ
  pub enable_chunked_prefill : Bool
  pub long_prefill_token_threshold : ℕ
  pub preemption_mode : PreemptionMode
  pub by_priority : Bool
  pub spec_draft_tokens : ℕ

-- What the engine takes from elsewhere. `coin n` is the `n`-th comparison of a random number with
-- the acceptance rate; `slack` is the tolerance of the clock.
pub record World : Type 0 where
  pub hash_block : Option String → List ℕ → String
  pub text_hash : String → String → ℕ
  pub swap_cost : ℕ → ℕ
  pub mixed_cost : List ℕ → List ℕ → List ℕ → ℕ
  pub prefill_cost : List ℕ → List ℕ → ℕ
  pub decode_cost : List ℕ → ℕ
  pub draft_cost : ℕ → ℕ → ℕ
  pub coin : ℕ → Bool
  pub slack : ℕ
  pub tick : ℕ

pub record Engine : Type 0 where
  pub kv : PagedKvCache
  pub now : ℕ
  pub step_no : ℕ
  pub seqs : List Sequence
  pub waiting : List ℕ
  pub running : List ℕ
  pub swapped : List ℕ
  pub finished : List ℕ
  pub total_preemptions : ℕ
  pub pending : List (ℕ × ℕ × SimRequest)
  pub seq_counter : ℕ
  pub drawn : ℕ

-- The object at a position.
abbrev pub seq : ℕ → Exec Engine Sequence
seq i e = need index_error (get_elem? e.seqs i) e

-- Assignments to fields of an object.
abbrev pub put_seq : ℕ → Sequence → Exec Engine (Unit {0})
put_seq i s = modify (λ e. record e { seqs = set e.seqs i s })

-- A method of the cache.
abbrev pub on_kv : {A : Type 0} → Exec PagedKvCache A → Exec Engine A
on_kv m e = ((m e.kv).0, record e { kv = (m e.kv).1 })

-- `try: m except OutOfBlocks: handler`
abbrev pub caught : {A : Type 0} → Result A × Engine → Exec Engine A → Result A × Engine
caught (raise out_of_blocks, e) handler = handler e
caught r handler = r

-- `list.remove`: the first occurrence, or `ValueError`.
unfoldable pub list_remove : ℕ → List ℕ → Option (List ℕ)
list_remove a [] = none
list_remove a (x ∷ xs) =
    if x == a then some xs else elim (list_remove a xs) [ none ↦ none | some ys ↦ some (x ∷ ys) ]

-- `math.ceil(a / b)`
unfoldable pub ceil_div : ℕ → ℕ → ℕ
ceil_div a b = (a + b - 1) / b

-- The sequences at the positions of a list that pass a test, as a comprehension gives them.
unfoldable pub select : (Sequence → Bool) → List Sequence → List ℕ → Option (List ℕ)
select test seqs [] = some []
select test seqs (i ∷ ids) = elim (get_elem? seqs i) [
  | none ↦ none
  | some s ↦ elim (select test seqs ids) [
    | none ↦ none
    | some rest ↦ some (if test s then i ∷ rest else rest)
  ]
]

abbrev pub selected : (Sequence → Bool) → Exec Engine (List ℕ)
selected test e = need index_error (select test e.seqs e.running) e
