-- ===== src/Paged.antt =====
-- `PagedKVCache` of packages/llmkit/llmkit/simulator/paged.py: the block pool with prefix sharing.
-- A block object is its position in `blocks`, which is its `block_id`: no method changes that field.
-- Hashes are texts; `hash_block` is a parameter of the operations that call it.
pub mod Prompt
mod Cells
mod Pool
pub mod Take
pub mod Grow
pub mod Rounds
pub mod Allocate
pub mod Release
pub mod Append
pub mod Orphans
pub mod Start
pub mod Sessions
mod Tests
use llm_inference_stack.Prelude.{
  ℕ, zero, suc, ◌+◌, ◌-◌, ◌*◌, ◌/◌, ◌%◌, max, String, Bool, true, false, not, ◌&&◌, Option, none,
  some, List, [], ◌∷◌, ◌++◌, length, get_elem?, set, take, drop, replicate, pop_last, lookup,
  insert, without, ◌==◌, ltb, leb, if◌then◌else◌, str_eq,
}
use llm_inference_stack.Exec.{
  Result, ok, raise, Exec, pure, fail, need, modify, gets, out_of_blocks, index_error,
  zero_division, ◌>>=◌, ◌>>◌,
}

pub record Block : Type 0 where
  pub ref_count : ℕ
  pub content_hash : Option String
  pub n_tokens : ℕ
  pub last_used_step : ℕ

abbrev pub new_block : Block
new_block = record { ref_count = 0; content_hash = none; n_tokens = 0; last_used_step = 0 }

-- The property `cached`.
abbrev pub cached : Block → Bool
cached blk = elim blk.content_hash [ none ↦ false | some _ ↦ true ]

pub record AllocStats : Type 0 where
  pub allocated : ℕ
  pub freed : ℕ
  pub cache_hits : ℕ
  pub cache_misses : ℕ
  pub evictions : ℕ
  pub cow_copies : ℕ
  pub oom_events : ℕ

abbrev pub no_stats : AllocStats
no_stats = record {
  allocated = 0;
  freed = 0;
  cache_hits = 0;
  cache_misses = 0;
  evictions = 0;
  cow_copies = 0;
  oom_events = 0;
}

pub record PagedKvCache : Type 0 where
  pub block_size : ℕ
  pub num_blocks : ℕ
  pub enable_prefix_caching : Bool
  pub watermark_blocks : ℕ
  pub blocks : List Block
  pub free_ids : List ℕ
  pub cache : List (String × ℕ)
  pub stats : AllocStats
  pub step : ℕ

-- `list(range(n))`, from a first number.
unfoldable pub range_from : ℕ → ℕ → List ℕ
range_from zero i = []
range_from (suc n) i = i ∷ range_from n (i + 1)

-- The constructor. `scaled` is `int(num_blocks * watermark)`, a product of floats.
unfoldable pub init : ℕ → ℕ → Bool → ℕ → PagedKvCache
unfolding range_from
init num_blocks block_size enable scaled = record {
  block_size = block_size;
  num_blocks = num_blocks;
  enable_prefix_caching = enable;
  watermark_blocks = max scaled 1;
  blocks = replicate num_blocks new_block;
  free_ids = range_from num_blocks 0;
  cache = [];
  stats = no_stats;
  step = 0;
}

abbrev pub num_free : PagedKvCache → ℕ
num_free kv = length kv.free_ids

abbrev pub num_used : PagedKvCache → ℕ
num_used kv = kv.num_blocks - num_free kv

-- The sum over `cache.items()`, which reads each block.
unfoldable pub idle_blocks : List Block → List (String × ℕ) → Option ℕ
idle_blocks bs [] = some 0
idle_blocks bs ((h, bid) ∷ items) = elim (get_elem? bs bid) [
  | none ↦ none
  | some blk ↦ elim (idle_blocks bs items) [
    | none ↦ none
    | some n ↦ some ((if blk.ref_count == 0 then 1 else 0) + n)
  ]
]

unfoldable pub num_evictable : Exec PagedKvCache ℕ
unfolding idle_blocks
num_evictable kv = need index_error (idle_blocks kv.blocks kv.cache) kv

unfoldable pub can_allocate : ℕ → Exec PagedKvCache Bool
unfolding num_evictable
can_allocate n_blocks = do
  evictable ← num_evictable
  gets (λ kv. leb (n_blocks + kv.watermark_blocks) (num_free kv + evictable))

-- `self.blocks[bid]`
abbrev pub block : ℕ → Exec PagedKvCache Block
block bid kv = need index_error (get_elem? kv.blocks bid) kv

-- Assignments to fields of the block at `bid`.
abbrev pub store : ℕ → Block → Exec PagedKvCache (Unit {0})
store bid blk = modify (λ kv. record kv { blocks = set kv.blocks bid blk })

abbrev pub count_stat : (AllocStats → AllocStats) → Exec PagedKvCache (Unit {0})
count_stat f = modify (λ kv. record kv { stats = f kv.stats })

-- The loop of `_evict_one`: the first entry, the least recent, whose block nobody uses.
unfoldable pub find_idle : List (String × ℕ) → Exec PagedKvCache (Option (String × ℕ))
find_idle [] = pure none
find_idle ((h, bid) ∷ items) =
    block bid >>= λ blk. if blk.ref_count == 0 then pure (some (h, bid)) else find_idle items

-- The body of its `if`.
unfoldable pub evict : String → ℕ → Exec PagedKvCache (Unit {0})
evict h bid = do
  modify (λ kv. record kv { cache = without h kv.cache })
  blk ← block bid
  store bid (record blk { content_hash = none })
  modify (λ kv. record kv { free_ids = kv.free_ids ++ bid ∷ [] })
  count_stat (λ st. record st { evictions = st.evictions + 1 })

unfoldable pub evict_one : Exec PagedKvCache Bool
unfolding find_idle evict
evict_one kv =
    (find_idle kv.cache >>= λ found. elim found [
      | none ↦ pure false
      | some (h, bid) ↦ (evict h bid >>= λ _. pure true)
    ])
      kv

-- `self.free_ids.pop()`
unfoldable pub pop_free : Exec PagedKvCache ℕ
pop_free kv = elim (pop_last kv.free_ids) [
  | none ↦ (raise index_error, kv)
  | some (rest, bid) ↦ (ok bid, record kv { free_ids = rest })
]

-- `if not self.free_ids: ...`
unfoldable pub make_room : Exec PagedKvCache (Unit {0})
unfolding evict_one
make_room kv = elim kv.free_ids [
  | [] ↦
      (evict_one >>= λ evicted.
      if evicted
      then pure tt
      else do count_stat (λ st. record st { oom_events = st.oom_events + 1 }); fail out_of_blocks)
        kv
  | _ ∷ _ ↦ (ok tt, kv)
]

unfoldable pub take_free_block : Exec PagedKvCache ℕ
unfolding make_room pop_free
take_free_block = do
  make_room
  bid ← pop_free
  blk ← block bid
  store bid (record blk { ref_count = 0; content_hash = none; n_tokens = 0 })
  count_stat (λ st. record st { allocated = st.allocated + 1 })
  pure bid

-- `if blk.content_hash: ...` in `_release`; the empty text is false.
unfoldable pub forget : ℕ → Block → Exec PagedKvCache (Unit {0})
forget bid blk = elim blk.content_hash [
  | none ↦ pure tt
  | some h ↦ if str_eq h "" then pure tt else do
    modify (λ kv. record kv { cache = without h kv.cache })
    store bid (record blk { content_hash = none })
]

-- A count of 0 stays 0: the source decrements it to -1 and writes 0 again.
unfoldable pub release : ℕ → Exec PagedKvCache (Unit {0})
unfolding forget
release bid kv =
    (block bid >>= λ blk.
    if leb blk.ref_count 1
    then (store bid (record blk { ref_count = 0 }) >>= λ _.
        if kv.enable_prefix_caching && cached blk then pure tt else do
          forget bid (record blk { ref_count = 0 })
          modify (λ kv. record kv { free_ids = kv.free_ids ++ bid ∷ [] })
          count_stat (λ st. record st { freed = st.freed + 1 }))
    else store bid (record blk { ref_count = blk.ref_count - 1 }))
      kv

unfoldable pub free : List ℕ → Exec PagedKvCache (Unit {0})
unfolding release
free [] = pure tt
free (bid ∷ table) = release bid >>= λ _. free table
