-- ===== src/Paged/Orphans.antt =====
-- A miss in `allocate_prompt` of packages/llmkit/llmkit/simulator/paged.py whose hash is in the prefix
-- cache: an earlier block of the chain was evicted, and the later one was not.
use llm_inference_stack.Prelude.{
  ℕ, ◌+◌, ◌<◌, ◌≡◌, ◌≢◌, String, true, some, List, [], ◌∷◌, inl, inr, length, get_elem?, set, count,
  pop_last, lookup, insert, count-pop_last, lt-length_of_get_elem?, get_elem?-set, length-set,
  List-cases, Option-cases, nil_of_pop_last, get_elem?-in_range, arith,
}
use llm_inference_stack.Exec.{ok}
use llm_inference_stack.Paged.{Block, PagedKvCache, take_free_block}
use llm_inference_stack.Paged.Cells.{
  ref_at, targets, ref_at-set, count-targets-without, count-targets-insert_old,
}
use llm_inference_stack.Paged.Pool.{popped-IsSpare}
use llm_inference_stack.Paged.Prompt.{Progress, take_miss}
use llm_inference_stack.Paged.Take.{IsValid, room_at_hand, after_room_lem, taken, reset}
use llm_inference_stack.Paged.Grow.{computed, missed}

take_free_lem :
    (kv : PagedKvCache) (i : ℕ) (rest' rest : List ℕ) (j : ℕ) (b : Block)
    → kv.free_ids ≡ i ∷ rest'
    → pop_last kv.free_ids ≡ some (rest, j)
    → get_elem? kv.blocks j ≡ some b
    → take_free_block kv ≡ (ok j, taken kv rest j b)
unfolding take_free_block
take_free_lem kv i rest' rest j b e pop at =
    rw (room_at_hand kv i rest' e) (after_room_lem kv rest j b pop at)

module _ (kv : PagedKvCache) (bh : String) (p : Progress) where
  abbrev counted : PagedKvCache
  counted = record kv { stats = record kv.stats { cache_misses = kv.stats.cache_misses + 1 } }

  -- The cache after a miss that took `j` from the free list.
  abbrev after_miss : List ℕ → ℕ → Block → PagedKvCache
  after_miss rest j b = record (taken counted rest j b) {
    blocks = set (set kv.blocks j (reset b)) j (computed bh (reset b) kv);
    cache = insert bh j kv.cache;
  }

  take_miss_lem :
      (rest : List ℕ) (j : ℕ) (b : Block)
      → take_free_block counted ≡ (ok j, taken counted rest j b)
      → get_elem? (set kv.blocks j (reset b)) j ≡ some (reset b)
      → kv.enable_prefix_caching ≡ true
      → take_miss bh p kv ≡ (ok (missed bh p j), after_miss rest j b)
  unfolding take_miss
  take_miss_lem rest j b run at on = rw (run, at) (ground arith)

  module _ {held : List ℕ} (old : ℕ) (v : IsValid kv held) (stale : lookup bh kv.cache ≡ some old)
      (unheld : count old held ≡ 0) where
    -- The old block is in no list any more.
    orphaned :
        (rest : List ℕ) (j : ℕ) (b : Block)
        → pop_last kv.free_ids ≡ some (rest, j)
        → get_elem? kv.blocks j ≡ some b
        → (count old rest + count old (targets (insert bh j kv.cache)) ≡ 0)
          × (ref_at (after_miss rest j b).blocks old ≡ 0)
    orphaned rest j b pop at =
        let l = lt-length_of_get_elem? kv.blocks j at in
        let l' : j < length (set kv.blocks j (reset b)) = rw (length-set kv.blocks j (reset b)) l in
        let listed = count-targets-without bh old kv.cache old stale in
        let free = count-pop_last old kv.free_ids rest j pop in
        (
          ground (
            arith,
            listed,
            free,
            count-targets-insert_old bh old kv.cache j old stale,
            v.once old,
          ),
          ground (
            arith,
            listed,
            free,
            v.once old,
            v.refs old,
            ref_at-set kv.blocks j (reset b) old l,
            ref_at-set (set kv.blocks j (reset b)) j (computed bh (reset b) kv) old l',
          ),
        )

    from_popped :
        (i : ℕ) (rest' rest : List ℕ) (j : ℕ)
        → kv.free_ids ≡ i ∷ rest'
        → pop_last kv.free_ids ≡ some (rest, j)
        → kv.enable_prefix_caching ≡ true
        → (p' : Progress) × (s : PagedKvCache) × (take_miss bh p kv ≡ (ok p', s))
          × (count old s.free_ids + count old (targets s.cache) ≡ 0)
          × (ref_at s.blocks old ≡ 0)
    from_popped i rest' rest j e pop on =
        let (b, at) =
          get_elem?-in_range kv.blocks j
            (omega (arith, v.size, (popped-IsSpare v rest j pop).in_pool)) in
        let l = lt-length_of_get_elem? kv.blocks j at in
        let (gone, idle) = orphaned rest j b pop at in
        (
          missed bh p j,
          after_miss rest j b,
          take_miss_lem rest j b (take_free_lem counted i rest' rest j b e pop at)
              (ground (arith, get_elem?-set kv.blocks j (reset b) j)) on,
          gone,
          idle,
        )

    -- On a valid pool with prefix caching and a block on the free list, a miss in allocate_prompt
    -- on a hash that the prefix cache has for a block without references succeeds and leaves that
    -- block out of the free list and of the prefix cache, with reference count 0.
    pub take_miss-orphans :
        kv.free_ids ≢ []
        → kv.enable_prefix_caching ≡ true
        → (p' : Progress) × (s : PagedKvCache) × (take_miss bh p kv ≡ (ok p', s))
          × (count old s.free_ids + count old (targets s.cache) ≡ 0)
          × (ref_at s.blocks old ≡ 0)
    take_miss-orphans some_free on = elim (List-cases kv.free_ids) [
      | inl empty ↦ absurd (some_free empty)
      | inr (i, rest', e) ↦ elim (Option-cases (pop_last kv.free_ids)) [
        | inl none_left ↦ absurd (some_free (nil_of_pop_last kv.free_ids none_left))
        | inr ((rest, j), pop) ↦ from_popped i rest' rest j e pop on
      ]
    ]
