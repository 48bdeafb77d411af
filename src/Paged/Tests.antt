-- ===== src/Paged/Tests.antt =====
-- Runs of the block pool, and its theorems at concrete inputs.
use mathlib.Core.List.{cons-ne-nil}
use llm_inference_stack.Prelude.{
  ℕ, zero, suc, ◌<◌, ◌+◌, ◌%◌, ◌≡◌, refl, String, true, false, Option, some, List, [], ◌∷◌, ◌++◌,
  inr, count, length, pop_last, lookup, insert, without, arith, ◌==◌, if◌then◌else◌,
}
use llm_inference_stack.Exec.{ok, Ends, Ends-ok}
use llm_inference_stack.Paged.{
  PagedKvCache, new_block, init, range_from, idle_blocks, num_evictable, can_allocate, find_idle,
  evict, evict_one, pop_free, make_room, take_free_block, forget, release, free,
}
use llm_inference_stack.Paged.Cells.{ref_at, hash_at, targets}
use llm_inference_stack.Paged.Prompt.{
  Progress, elem, remove, take_hit, take_miss, take_tail, prompt_block, prompt_loop,
  allocate_prompt, copy_tail, fill_tail, append_token,
}
use llm_inference_stack.Paged.Take.{IsValid, Ran, Took, Ends-take_free_block}
use llm_inference_stack.Paged.Rounds.{Lost}
use llm_inference_stack.Paged.Allocate.{Allocated, taken, prompt_chain, Ends-allocate_prompt}
use llm_inference_stack.Paged.Append.{Appended, Ends-append_token}
use llm_inference_stack.Paged.Release.{free-Ran}
use llm_inference_stack.Paged.Start.{init-IsValid}
use llm_inference_stack.Paged.Sessions
use llm_inference_stack.Paged.Sessions.{Sessions, Step, Reach, IsSound, Reach-IsSound}
use llm_inference_stack.Paged.Orphans.{take_miss-orphans}

program : Unit {0}
unfolding count pop_last lookup insert without init range_from idle_blocks num_evictable
    can_allocate find_idle evict evict_one pop_free make_room take_free_block forget release free
    elem remove take_hit take_miss take_tail prompt_block prompt_loop allocate_prompt copy_tail
    fill_tail append_token ref_at targets
program = tt

-- A hash of the first token, enough for the prompts below.
abbrev by_head : Option String → List ℕ → String
by_head prev [] = "none"
by_head prev (x ∷ chunk) = if x == 7 then "seven" else if x == 8 then "eight" else "other"

abbrev pool : PagedKvCache
pool = init 4 2 true 0

abbrev prompt : List ℕ
prompt = 7 ∷ 7 ∷ 8 ∷ 8 ∷ 9 ∷ []

-- The states of a run: the prompt, its release, three short prompts, their release, the prompt again.
abbrev run : PagedKvCache → PagedKvCache
run kv = (allocate_prompt by_head prompt kv).1

abbrev released : PagedKvCache
released = (free (3 ∷ 2 ∷ 1 ∷ []) (run pool)).1

abbrev short : ℕ → PagedKvCache → PagedKvCache
short t kv = (allocate_prompt by_head (t ∷ []) kv).1

-- Three one-token prompts take both free blocks and evict the entry of the first block.
abbrev crowded : PagedKvCache
crowded = (free (1 ∷ 0 ∷ 3 ∷ []) (short 3 (short 2 (short 1 released)))).1

first_prompt : (allocate_prompt by_head prompt pool).0 ≡ ok (3 ∷ 2 ∷ 1 ∷ [], 0)
unfolding program
first_prompt = refl

second_prompt : (allocate_prompt by_head prompt released).0 ≡ ok (3 ∷ 2 ∷ 1 ∷ [], 4)
unfolding program
second_prompt = refl

after_crowd : (crowded.free_ids ≡ 1 ∷ 0 ∷ 3 ∷ []) × (crowded.cache ≡ ("eight", 2) ∷ [])
unfolding program
after_crowd = (refl, refl)

-- After the prompt came again, block 2 is in no list and its reference count is 0.
lost_block :
    ((allocate_prompt by_head prompt crowded).0 ≡ ok (3 ∷ 0 ∷ 1 ∷ [], 0))
    × ((run crowded).free_ids ≡ [])
    × (targets (run crowded).cache ≡ 0 ∷ 3 ∷ [])
    × (ref_at (run crowded).blocks 2 ≡ 0)
unfolding program
lost_block = (refl, refl, refl, refl)

pool-IsValid : IsValid pool []
pool-IsValid = (init-IsValid 4 2 true 0).0

init-IsValid_example : IsValid (init 4 2 true 0) [] × (length (init 4 2 true 0).free_ids ≡ 4)
init-IsValid_example = init-IsValid 4 2 true 0

pool-positive : 0 < pool.block_size
unfolding init
pool-positive = omega arith

Ends-take_free_block_example : Ends (Took pool []) (Ran pool []) (take_free_block pool)
Ends-take_free_block_example = Ends-take_free_block pool pool-IsValid

Ends-allocate_prompt_example :
    Ends
      (Allocated (prompt_chain by_head pool.block_size prompt) [] pool (length prompt))
      (Lost pool [] (taken by_head prompt pool))
      (allocate_prompt by_head prompt pool)
Ends-allocate_prompt_example =
    Ends-allocate_prompt by_head [] prompt pool pool-positive pool-IsValid

run-IsSound : IsSound (record { kv = pool; live = []; lost = [] })
unfolding Sessions.held
run-IsSound = record { valid = pool-IsValid; positive = pool-positive }

run-Reach :
    Reach by_head
      (record { kv = pool; live = []; lost = [] })
      (record { kv = run pool; live = (3 ∷ 2 ∷ 1 ∷ []) ∷ []; lost = [] })
unfolding program
run-Reach = Reach.next Reach.here (Step.admit prompt {r = (3 ∷ 2 ∷ 1 ∷ [], 0)} refl)

Reach-IsSound_example : IsSound (record { kv = run pool; live = (3 ∷ 2 ∷ 1 ∷ []) ∷ []; lost = [] })
Reach-IsSound_example = Reach-IsSound by_head run-IsSound run-Reach

first_run : allocate_prompt by_head prompt pool ≡ (ok (3 ∷ 2 ∷ 1 ∷ [], 0), run pool)
unfolding program
first_run = refl

run-IsValid : IsValid (run pool) ((3 ∷ 2 ∷ 1 ∷ []) ++ [])
run-IsValid = (Ends-ok (rw first_run at Ends-allocate_prompt_example)).valid

run-positive : 0 < (run pool).block_size
unfolding program
run-positive = omega arith

Ends-append_token_example :
    Ends
      (Appended (run pool) [] (3 ∷ 2 ∷ 1 ∷ []) (5 % (run pool).block_size + 1))
      (Ran (run pool) ((3 ∷ 2 ∷ 1 ∷ []) ++ []))
      (append_token (3 ∷ 2 ∷ 1 ∷ []) 5 (run pool))
Ends-append_token_example =
    Ends-append_token [] (3 ∷ 2 ∷ 1 ∷ []) (run pool) 5 run-positive
      (inr (cons-ne-nil 3 (2 ∷ 1 ∷ []))) run-IsValid

free-Ran_example :
    (s : PagedKvCache) × (free (3 ∷ 2 ∷ 1 ∷ []) (run pool) ≡ (ok tt, s)) × Ran (run pool) [] s
free-Ran_example = free-Ran (3 ∷ 2 ∷ 1 ∷ []) (run pool) run-IsValid

-- One idle block in the prefix cache and one free block.
abbrev stale : PagedKvCache
stale = record (init 2 2 true 0) {
  blocks = record new_block { content_hash = some "seven"; n_tokens = 2 } ∷ new_block ∷ [];
  free_ids = 1 ∷ [];
  cache = ("seven", 0) ∷ [];
}

stale_refs : (i : ℕ) → ref_at stale.blocks i ≡ 0
unfolding ref_at
stale_refs zero = refl
stale_refs (suc zero) = refl
stale_refs (suc (suc i)) = refl

stale-IsValid : IsValid stale []
unfolding program hash_at
stale-IsValid = record {
  size = refl;
  refs = stale_refs;
  once = λ i. ground arith;
  idle = λ i h. refl;
  range = λ i. ground arith;
  hashes = (refl, tt);
  keys = (refl, tt);
  off = λ e. cc;
}

abbrev late : Progress
late = record { table = []; prev_hash = some "none"; cached_tokens = 0; matching = false }

take_miss-orphans_example :
    (p' : Progress) × (s : PagedKvCache) × (take_miss "seven" late stale ≡ (ok p', s))
    × (count 0 s.free_ids + count 0 (targets s.cache) ≡ 0)
    × (ref_at s.blocks 0 ≡ 0)
unfolding program
take_miss-orphans_example =
    take_miss-orphans stale "seven" late 0 stale-IsValid refl refl (cons-ne-nil 1 []) refl
