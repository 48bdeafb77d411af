-- ===== src/Paged/Take.antt =====
-- `_evict_one` and `_take_free_block` of packages/llmkit/llmkit/simulator/paged.py on a valid pool.
use llm_inference_stack.Prelude.{
  ℕ, ◌+◌, ◌<◌, ◌≡◌, refl, ◌∙◌, count, lt-length_of_get_elem?, String, false, Option, none, some,
  List, [], ◌∷◌, ◌++◌, inl, inr, get_elem?, set, pop_last, lookup, without, IsDict,
  get_elem?-in_range, nil_of_pop_last, Option-cases, Bool-cases, List-cases, eq_iff, arith, ◌==◌,
}
use llm_inference_stack.Exec.{
  Result, ok, raise, Exec, out_of_blocks, pure, ◌>>=◌, ◌>>◌, resume, Ends, returns, exhausted,
}
use llm_inference_stack.Paged.{
  Block, AllocStats, PagedKvCache, block, store, count_stat, idle_blocks, find_idle, evict,
  evict_one, pop_free, make_room, take_free_block,
}
use llm_inference_stack.Paged.Cells.{hash_at, HashesMatch, hash_at-set, ref_at-some}
use llm_inference_stack.Paged.Pool.{Pool, IsSpare, evict-Pool, pop-Pool, popped-IsSpare}

-- The invariant of a cache whose live tables hold the blocks `held`.
abbrev pub IsValid : PagedKvCache → List ℕ → Type 0
IsValid kv held = Pool kv.num_blocks kv.enable_prefix_caching kv.blocks kv.free_ids kv.cache held

-- What no method changes.
pub record SameSetup (a b : PagedKvCache) : Type 0 where
  pub block_size : b.block_size ≡ a.block_size
  pub num_blocks : b.num_blocks ≡ a.num_blocks
  pub enable_prefix_caching : b.enable_prefix_caching ≡ a.enable_prefix_caching
  pub watermark_blocks : b.watermark_blocks ≡ a.watermark_blocks
  pub step : b.step ≡ a.step

pub SameSetup-of :
    {a b : PagedKvCache}
    → b.block_size ≡ a.block_size
    → b.num_blocks ≡ a.num_blocks
    → b.enable_prefix_caching ≡ a.enable_prefix_caching
    → b.watermark_blocks ≡ a.watermark_blocks
    → b.step ≡ a.step
    → SameSetup a b
SameSetup-of p q r s t = record {
  block_size = p;
  num_blocks = q;
  enable_prefix_caching = r;
  watermark_blocks = s;
  step = t;
}

pub SameSetup-refl : (a : PagedKvCache) → SameSetup a a
SameSetup-refl a = record {
  block_size = refl;
  num_blocks = refl;
  enable_prefix_caching = refl;
  watermark_blocks = refl;
  step = refl;
}

pub SameSetup-trans : {a b c : PagedKvCache} → SameSetup a b → SameSetup b c → SameSetup a c
SameSetup-trans p q = record {
  block_size = cc;
  num_blocks = cc;
  enable_prefix_caching = cc;
  watermark_blocks = cc;
  step = cc;
}

-- The block of an entry exists.
pub block_of_hash :
    (bs : List Block) (j : ℕ) (h : String)
    → hash_at bs j ≡ some h
    → (b : Block) × (get_elem? bs j ≡ some b)
unfolding hash_at
block_of_hash bs j h e = elim (Option-cases (get_elem? bs j)) [
  | inl gone ↦ ground arith
  | inr found ↦ found
]

-- The search either sees that every block is in use, or gives an entry whose block nobody uses.
pub data Search (kv : PagedKvCache) (items : List (String × ℕ))
    : Result (Option (String × ℕ)) × PagedKvCache → Type 0 where
  all_used : idle_blocks kv.blocks items ≡ some 0 → Search kv items (ok none, kv)
  idle_found :
      (h : String) (j : ℕ) (b : Block)
      → lookup h items ≡ some j
      → get_elem? kv.blocks j ≡ some b
      → b.ref_count ≡ 0
      → Search kv items (ok (some (h, j)), kv)

module _ (kv : PagedKvCache) where
  Search-skip :
      (k : String) (i : ℕ) (b : Block) (items : List (String × ℕ))
      → get_elem? kv.blocks i ≡ some b
      → (b.ref_count == 0) ≡ false
      → lookup k items ≡ none
      → {r : Result (Option (String × ℕ)) × PagedKvCache} → Search kv items r
      → Search kv ((k, i) ∷ items) r
  unfolding idle_blocks lookup
  Search-skip k i b items at used new (all_used e) = all_used (ground arith)
  Search-skip k i b items at used new (idle_found h j c e f z) =
      idle_found h j c (ground (arith, eq_iff k h)) f z

  pub find_idle-Search :
      (items : List (String × ℕ))
      → HashesMatch kv.blocks items
      → IsDict items
      → Search kv items (find_idle items kv)
  unfolding find_idle idle_blocks lookup
  find_idle-Search [] m d = all_used refl
  find_idle-Search ((k, i) ∷ items) m d =
      let (b, at) = block_of_hash kv.blocks i k m.0 in
      elim (Bool-cases (b.ref_count == 0)) [
        | inl unused ↦
            rw (at, unused) (idle_found k i b (ground (arith, eq_iff k k)) at (ground arith))
        | inr used ↦
            rw (at, used) (Search-skip k i b items at used d.0 (find_idle-Search items m.1 d.1))
      ]

-- The cache after the eviction of the entry `h` for block `j`.
abbrev pub evicted : PagedKvCache → String → ℕ → Block → PagedKvCache
evicted kv h j b = record kv {
  cache = without h kv.cache;
  blocks = set kv.blocks j (record b { content_hash = none });
  free_ids = kv.free_ids ++ j ∷ [];
  stats = record kv.stats { evictions = kv.stats.evictions + 1 };
}

evict_lem :
    (kv : PagedKvCache) (h : String) (j : ℕ) (b : Block)
    → get_elem? kv.blocks j ≡ some b
    → evict h j kv ≡ (ok tt, evicted kv h j b)
unfolding evict
evict_lem kv h j b at = rw at

-- The cache after an allocation that found nothing.
abbrev pub out_of_memory : PagedKvCache → PagedKvCache
out_of_memory kv = record kv { stats = record kv.stats { oom_events = kv.stats.oom_events + 1 } }

-- `_take_free_block` takes from the free list, and evicts an idle cached block first where the
-- list is empty.
pub data Room (kv : PagedKvCache) : Result (Unit {0}) × PagedKvCache → Type 0 where
  at_hand : (i : ℕ) (rest : List ℕ) → kv.free_ids ≡ i ∷ rest → Room kv (ok tt, kv)
  made :
      (h : String) (j : ℕ) (b : Block)
      → kv.free_ids ≡ []
      → lookup h kv.cache ≡ some j
      → get_elem? kv.blocks j ≡ some b
      → b.ref_count ≡ 0
      → Room kv (ok tt, evicted kv h j b)
  no_room :
      kv.free_ids ≡ []
      → idle_blocks kv.blocks kv.cache ≡ some 0
      → Room kv (raise out_of_blocks, out_of_memory kv)

module _ (kv : PagedKvCache) where
  pub room_at_hand : (i : ℕ) (rest : List ℕ) → kv.free_ids ≡ i ∷ rest → make_room kv ≡ (ok tt, kv)
  unfolding make_room
  room_at_hand i rest e = ground arith

  room_all_used :
      kv.free_ids ≡ []
      → find_idle kv.cache kv ≡ (ok none, kv)
      → make_room kv ≡ (raise out_of_blocks, out_of_memory kv)
  unfolding make_room evict_one
  room_all_used e q = ground arith

  room_made :
      (h : String) (j : ℕ) (b : Block)
      → kv.free_ids ≡ []
      → find_idle kv.cache kv ≡ (ok (some (h, j)), kv)
      → evict h j kv ≡ (ok tt, evicted kv h j b)
      → make_room kv ≡ (ok tt, evicted kv h j b)
  unfolding make_room evict_one
  room_made h j b e q r = ground arith

  Room-Search :
      kv.free_ids ≡ []
      → {r : Result (Option (String × ℕ)) × PagedKvCache} → Search kv kv.cache r
      → find_idle kv.cache kv ≡ r
      → Room kv (make_room kv)
  Room-Search empty (all_used e) q = rw (room_all_used empty q) (no_room empty e)
  Room-Search empty (idle_found h j b f at z) q =
      rw (room_made h j b empty q (evict_lem kv h j b at)) (made h j b empty f at z)

  pub make_room-Room : {held : List ℕ} → IsValid kv held → Room kv (make_room kv)
  make_room-Room p = elim (List-cases kv.free_ids) [
    | inl empty ↦ Room-Search empty (find_idle-Search kv kv.cache p.hashes p.keys) refl
    | inr (i, rest, e) ↦ rw (room_at_hand i rest e) (at_hand i rest e)
  ]

-- The block as `_take_free_block` hands it out.
abbrev pub reset : Block → Block
reset b = record b { ref_count = 0; content_hash = none; n_tokens = 0 }

abbrev pub taken : PagedKvCache → List ℕ → ℕ → Block → PagedKvCache
taken kv rest j b = record kv {
  free_ids = rest;
  blocks = set kv.blocks j (reset b);
  stats = record kv.stats { allocated = kv.stats.allocated + 1 };
}

-- Taking from a free list that is not empty.
pub data Popped (kv : PagedKvCache) : Result ℕ × PagedKvCache → Type 0 where
  popped :
      (rest : List ℕ) (j : ℕ) (b : Block)
      → pop_last kv.free_ids ≡ some (rest, j)
      → get_elem? kv.blocks j ≡ some b
      → Popped kv (ok j, taken kv rest j b)

abbrev pub after_room : Exec PagedKvCache ℕ
after_room = do
  bid ← pop_free
  blk ← block bid
  store bid (record blk { ref_count = 0; content_hash = none; n_tokens = 0 })
  count_stat (λ st. record st { allocated = st.allocated + 1 })
  pure bid

pub after_room_lem :
    (kv : PagedKvCache) (rest : List ℕ) (j : ℕ) (b : Block)
    → pop_last kv.free_ids ≡ some (rest, j)
    → get_elem? kv.blocks j ≡ some b
    → after_room kv ≡ (ok j, taken kv rest j b)
unfolding pop_free
after_room_lem kv rest j b pop at = ground arith

after_room-Popped :
    (kv : PagedKvCache) {held : List ℕ} (i : ℕ) (rest : List ℕ)
    → IsValid kv held
    → kv.free_ids ≡ i ∷ rest
    → Popped kv (after_room kv)
after_room-Popped kv i rest p e = elim (Option-cases (pop_last kv.free_ids)) [
  | inl none_left ↦ absurd (ground (arith, nil_of_pop_last kv.free_ids none_left))
  | inr ((left, j), pop) ↦
      let (b, at) =
        get_elem?-in_range kv.blocks j
          (omega (arith, p.size, (popped-IsSpare p left j pop).in_pool)) in
      rw (after_room_lem kv left j b pop at) (popped left j b pop at)
]

-- The blocks of live tables keep their hashes.
abbrev pub Kept : PagedKvCache → List ℕ → PagedKvCache → Type 0
Kept kv held kv' = (i : ℕ) → 0 < count i held → hash_at kv'.blocks i ≡ hash_at kv.blocks i

-- A run that leaves the live tables as they were.
pub record Ran (kv : PagedKvCache) (held : List ℕ) (kv' : PagedKvCache) : Type 0 where
  pub valid : IsValid kv' held
  pub setup : SameSetup kv kv'
  pub kept : Kept kv held kv'

-- What `_take_free_block` promises: the block `j` is in the pool, nobody names it, and the rest of
-- the cache is as it was.
pub record Took (kv : PagedKvCache) (held : List ℕ) (j : ℕ) (kv' : PagedKvCache) : Type 0 where
  pub ran : Ran kv held kv'
  pub spare : IsSpare kv'.num_blocks kv'.free_ids kv'.cache held j

module _ (kv : PagedKvCache) {held : List ℕ} (p : IsValid kv held) where
  taken-Took : {r : Result ℕ × PagedKvCache} → Popped kv r → Ends (Took kv held) (Ran kv held) r
  taken-Took (popped rest j b pop at) =
      let s = popped-IsSpare p rest j pop in
      returns j _ (record {
        ran = record {
          valid = pop-Pool p rest j pop (reset b) refl;
          setup = search SameSetup-of;
          kept = λ i h. ground (
            arith,
            hash_at-set kv.blocks j (reset b) i (lt-length_of_get_elem? _ j at),
            s.unheld,
          );
        };
        spare = s;
      })

  evicted-Ran :
      (h : String) (j : ℕ) (b : Block)
      → lookup h kv.cache ≡ some j
      → get_elem? kv.blocks j ≡ some b
      → b.ref_count ≡ 0
      → Ran kv held (evicted kv h j b)
  evicted-Ran h j b f at z = record {
    valid = evict-Pool p h j b f at z;
    setup = search SameSetup-of;
    kept = λ i l. ground (
      arith,
      hash_at-set kv.blocks j (record b { content_hash = none }) i (lt-length_of_get_elem? _ j at),
      ref_at-some kv.blocks j b at,
      p.refs j,
    );
  }

pub Ran-trans : {a b c : PagedKvCache} {held : List ℕ} → Ran a held b → Ran b held c → Ran a held c
Ran-trans r s = record {
  valid = s.valid;
  setup = SameSetup-trans r.setup s.setup;
  kept = λ i h. s.kept i h ∙ r.kept i h;
}

Took-trans :
    {a b c : PagedKvCache} {held : List ℕ} {j : ℕ}
    → Ran a held b
    → Took b held j c
    → Took a held j c
Took-trans r t = record { ran = Ran-trans r t.ran; spare = t.spare }

-- A change of the statistics alone.
pub stats-Ran :
    (kv : PagedKvCache) (st : AllocStats) {held : List ℕ}
    → IsValid kv held
    → Ran kv held (record kv { stats = st })
stats-Ran kv st p = record { valid = p; setup = search SameSetup-of; kept = λ i h. refl }

pub Ends-take_from :
    {a b : PagedKvCache} {held : List ℕ} {r : Result ℕ × PagedKvCache}
    → Ran a held b
    → Ends (Took b held) (Ran b held) r
    → Ends (Took a held) (Ran a held) r
Ends-take_from q (returns j s t) = returns j s (Took-trans q t)
Ends-take_from q (exhausted s r) = exhausted s (Ran-trans q r)

module _ (kv : PagedKvCache) {held : List ℕ} (p : IsValid kv held) where
  Ends-Room :
      {r : Result (Unit {0}) × PagedKvCache}
      → Room kv r
      → Ends (Took kv held) (Ran kv held) (resume r (λ _. after_room))
  Ends-Room (at_hand i rest e) = taken-Took kv p (after_room-Popped kv i rest p e)
  Ends-Room (made h j b e f at z) =
      let q = evicted-Ran kv p h j b f at z in
      Ends-take_from q
        (taken-Took _ q.valid (after_room-Popped (evicted kv h j b) j [] q.valid (ground arith)))
  Ends-Room (no_room e z) =
      exhausted (out_of_memory kv)
        (record { valid = p; setup = search SameSetup-of; kept = λ i h. refl })

  -- On a valid pool, _take_free_block gives a block of the pool that no live table, free list or
  -- cache entry names, or ends by OutOfBlocks; either way the pool is valid for the same tables,
  -- whose blocks keep their hashes, and no index is out of range.
  pub Ends-take_free_block : Ends (Took kv held) (Ran kv held) (take_free_block kv)
  unfolding take_free_block
  Ends-take_free_block = Ends-Room (make_room-Room kv p)
