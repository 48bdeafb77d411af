-- ===== src/Engine/Tests.antt =====
-- Runs of the engine's parts, and its theorems at concrete inputs.
use llm_inference_stack.Prelude.{
  ℕ, ◌%◌, ◌≡◌, refl, String, true, false, some, List, [], ◌∷◌, count, length, take, pop_last,
  lookup, insert, without, arith, ltb, if◌then◌else◌, str_eq,
}
use llm_inference_stack.Exec.{ok, raise, index_error, out_of_blocks}
use llm_inference_stack.Paged.{
  PagedKvCache, init, range_from, idle_blocks, num_evictable, can_allocate, find_idle, evict,
  evict_one, pop_free, make_room, take_free_block, forget, release, free,
}
use llm_inference_stack.Paged.Prompt.{
  elem, remove, take_hit, take_miss, take_tail, prompt_block, prompt_loop, allocate_prompt,
  copy_tail, fill_tail, append_token,
}
use llm_inference_stack.Engine.{
  PreemptionMode, SimRequest, Sequence, new_sequence, EngineConfig, World, Engine, list_remove,
  select,
}
use llm_inference_stack.Engine.Arrivals.{
  text_or, is_text, ids_from, key_base, synth_token_ids, submit, push, admit_arrivals, admit_while,
  admit_one, with_tokens,
}
use llm_inference_stack.Engine.Schedule.{
  goes_before, insert_seq, sort_seqs, positions, preempt, evict_seq, leave_running,
}
use llm_inference_stack.Engine.Plan.{Prefills, add_chunk, chunk_of, continue_prefills}
use llm_inference_stack.Engine.Grow.{Growth, grow_each, place, extend, last_other, drop_survivor}
use llm_inference_stack.Engine.Apply.{emit, first_emit, apply_decodes, apply_first_tokens}
use llm_inference_stack.Engine.Step.{accept_run}
use llm_inference_stack.Engine.Tokens.{n_shared, synth_token_ids-shared}
use llm_inference_stack.Engine.Drafts.{AcceptRun, accept_run-AcceptRun}
use llm_inference_stack.Engine.Sorted.{IsOrdered, alike, sort_seqs-IsOrdered}
use llm_inference_stack.Engine.Counted.{
  IsCounted, Kept, apply_decodes-Kept, apply_first_tokens-Kept,
}
use llm_inference_stack.Engine.Admitted.{IsLater, Admitted, admit_arrivals-Admitted}
use llm_inference_stack.Engine.Chunks.{IsChunk, Planned, continue_prefills-Planned}
use llm_inference_stack.Engine.Preempted.{grow_each-preempted}

program : Unit {0}
unfolding count pop_last lookup insert without init range_from idle_blocks num_evictable
    can_allocate find_idle evict evict_one pop_free make_room take_free_block forget release free
    elem remove take_hit take_miss take_tail prompt_block prompt_loop allocate_prompt copy_tail
    fill_tail append_token list_remove select text_or is_text ids_from key_base synth_token_ids push
    submit admit_arrivals admit_while admit_one with_tokens goes_before insert_seq sort_seqs
    positions preempt evict_seq leave_running add_chunk chunk_of continue_prefills grow_each place
    extend last_other drop_survivor emit first_emit apply_decodes apply_first_tokens accept_run
    n_shared IsOrdered IsLater IsChunk
program = tt

abbrev world : World
world = record {
  hash_block = λ prev chunk. "h";
  text_hash = λ kind key. if str_eq kind "prefix" then 3 else 5;
  swap_cost = λ n. n;
  mixed_cost = λ chunks contexts ctx. 1;
  prefill_cost = λ chunks contexts. 1;
  decode_cost = λ ctx. 1;
  draft_cost = λ cost k. k;
  coin = λ n. ltb n 2;
  slack = 0;
  tick = 1;
}

abbrev config : EngineConfig
config = record {
  block_size = 2;
  max_num_seqs = 4;
  max_num_batched_tokens = 8;
  enable_chunked_prefill = true;
  long_prefill_token_threshold = 0;
  preemption_mode = PreemptionMode.recompute;
  by_priority = true;
  spec_draft_tokens = 0;
}

abbrev request : String → ℕ → ℕ → ℕ → SimRequest
request name prompt output arrival = record {
  request_id = name;
  prompt_tokens = prompt;
  output_tokens = output;
  arrival = arrival;
  token_ids = [];
  session_id = some name;
  priority = arrival % 2;
  shared_prefix_tokens = 2;
  prefix_group = some "group";
}

abbrev engine : List Sequence → List (ℕ × ℕ × SimRequest) → Engine
engine seqs pending = record {
  kv = init 4 2 true 0;
  now = 5;
  step_no = 0;
  seqs = seqs;
  waiting = [];
  running = range_from (length seqs) 0;
  swapped = [];
  finished = [];
  total_preemptions = 0;
  pending = pending;
  seq_counter = 0;
  drawn = 0;
}

abbrev first : Sequence
first = new_sequence (request "a" 5 2 1)

abbrev second : Sequence
second = new_sequence (request "b" 3 4 4)

abbrev busy : Engine
busy = engine (first ∷ second ∷ []) []

synth_token_ids-shared_example :
    (length (synth_token_ids world (request "a" 5 2 1)) ≡ 5)
    × (take 2 (synth_token_ids world (request "a" 5 2 1))
        ≡ take 2 (synth_token_ids world (request "b" 3 4 4)))
unfolding program
synth_token_ids-shared_example =
    synth_token_ids-shared world (request "a" 5 2 1) (request "b" 3 4 4) refl 2 (omega arith)
      (omega arith)

shared_ids_run : take 2 (synth_token_ids world (request "a" 5 2 1)) ≡ 3000 ∷ 3001 ∷ []
unfolding program
shared_ids_run = refl

accept_run-AcceptRun_example : AcceptRun world 4 0 (accept_run world 4 0)
accept_run-AcceptRun_example = accept_run-AcceptRun world 4 0

accepted_run : accept_run world 4 0 ≡ (2, 3)
unfolding program
accepted_run = refl

abbrev queue : List (ℕ × Sequence)
queue = (0, first) ∷ (1, second) ∷ []

sort_seqs-IsOrdered_example :
    IsOrdered (sort_seqs [] queue)
    × ((priority arrival : ℕ)
        → alike priority arrival (sort_seqs [] queue) ≡ alike priority arrival queue)
sort_seqs-IsOrdered_example = sort_seqs-IsOrdered queue

sorted_run : positions (sort_seqs [] queue) ≡ 1 ∷ 0 ∷ []
unfolding program
sorted_run = refl

new-IsCounted : (r : SimRequest) → IsCounted (new_sequence r)
new-IsCounted r = record { timed = refl; bounded = omega arith; first_none = λ h. refl }

apply_decodes-Kept_example :
    (e' : Engine) × (apply_decodes 3 (1 ∷ 0 ∷ []) busy ≡ (ok tt, e')) × Kept busy e'
apply_decodes-Kept_example =
    apply_decodes-Kept 3 (1 ∷ 0 ∷ []) busy (new-IsCounted _, (new-IsCounted _, tt))
      (omega arith, (omega arith, tt)) (omega arith, (omega arith, tt))

-- Of a request that wants no token, the first one is taken back by a decode, but not its time.
abbrev unwanted : Sequence
unwanted = record (new_sequence (request "z" 3 0 4)) {
  generated = 1;
  token_times = 4 ∷ [];
  first_token = some 4;
}

emit_run : ((emit 3 9 unwanted).generated ≡ 0) × ((emit 3 9 unwanted).token_times ≡ 4 ∷ [])
unfolding program
emit_run = (refl, refl)

apply_first_tokens-Kept_example :
    (e' : Engine) × (apply_first_tokens ((0, 5) ∷ (1, 3) ∷ []) busy ≡ (ok tt, e')) × Kept busy e'
apply_first_tokens-Kept_example =
    apply_first_tokens-Kept ((0, 5) ∷ (1, 3) ∷ []) busy (new-IsCounted _, (new-IsCounted _, tt))
      (omega arith, (omega arith, tt))

abbrev loaded : Engine
loaded =
    engine []
      ((1, 1, request "a" 5 2 1) ∷ (4, 2, request "b" 3 4 4) ∷ (9, 3, request "c" 1 1 9) ∷ [])

admit_arrivals-Admitted_example : Admitted world loaded.pending loaded (admit_arrivals world loaded)
admit_arrivals-Admitted_example = admit_arrivals-Admitted world loaded

admitted_run : (admit_arrivals world loaded).waiting ≡ 0 ∷ 1 ∷ []
unfolding program
admitted_run = refl

abbrev budget : Prefills
budget = record { chunks = []; budget = 6 }

continue_prefills-Planned_example :
    (p' : Prefills) × (continue_prefills world config (0 ∷ 1 ∷ []) budget busy ≡ (ok p', busy))
    × Planned busy.seqs budget p'
unfolding program
continue_prefills-Planned_example =
    continue_prefills-Planned world config (0 ∷ 1 ∷ []) budget busy (omega arith, (omega arith, tt))

planned_run :
    (continue_prefills world config (0 ∷ 1 ∷ []) budget busy).0
    ≡ ok (record { chunks = (0, 5) ∷ (1, 1) ∷ []; budget = 0 })
unfolding program
planned_run = refl

abbrev started : Growth
started = record { survivors = []; extra = 0 }

-- A pool that holds a prompt of three tokens, for the second sequence.
abbrev held : PagedKvCache
held = (allocate_prompt world.hash_block (7 ∷ 7 ∷ 8 ∷ []) (init 4 2 false 0)).1

abbrev decoding : Sequence
decoding = record second { block_table = 3 ∷ 2 ∷ []; prefilled = 3; generated = 1 }

abbrev full : Engine
full = record busy { kv = held; seqs = first ∷ decoding ∷ [] }

abbrev emptied : PagedKvCache
emptied = (free (3 ∷ 2 ∷ []) held).1

held_run :
    (allocate_prompt world.hash_block (7 ∷ 7 ∷ 8 ∷ []) (init 4 2 false 0)).0 ≡ ok (3 ∷ 2 ∷ [], 0)
unfolding program
held_run = refl

-- A pool of two blocks: the first sequence has filled one, the second holds the other.
abbrev tight : PagedKvCache
tight =
    (allocate_prompt world.hash_block (8 ∷ [])
      ((allocate_prompt world.hash_block (7 ∷ 7 ∷ []) (init 2 2 false 0)).1)).1

abbrev growing : Sequence
growing = record (new_sequence (request "a" 2 4 1)) {
  block_table = 1 ∷ [];
  prefilled = 2;
  generated = 2;
}

abbrev victim : Sequence
victim = record (new_sequence (request "b" 1 4 4)) {
  block_table = 0 ∷ [];
  prefilled = 1;
  generated = 1;
}

abbrev crowded : Engine
crowded = record busy { kv = tight; seqs = growing ∷ victim ∷ [] }

tight_run :
    (tight.free_ids ≡ [])
    × ((append_token (1 ∷ []) 4 tight).0 ≡ raise out_of_blocks)
    × ((append_token (1 ∷ []) 4 (free (0 ∷ []) tight).1).0 ≡ ok (true, 1 ∷ 0 ∷ []))
unfolding program
tight_run = (refl, refl, refl)

grow_each-preempted_example :
    (grow_each world config (0 ∷ 1 ∷ []) started crowded).0 ≡ raise index_error
unfolding program
grow_each-preempted_example =
    grow_each-preempted world config crowded 0 1 growing victim [] started refl refl refl refl refl
      refl refl refl (omega arith) (λ h. omega (arith, h))
