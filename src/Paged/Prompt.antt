-- ===== src/Paged/Prompt.antt =====
-- `allocate_prompt` and `append_token` of packages/llmkit/llmkit/simulator/paged.py.
use llm_inference_stack.Prelude.{
  ℕ, zero, suc, ◌+◌, ◌-◌, ◌*◌, ◌/◌, ◌%◌, String, Bool, true, false, ◌&&◌, Option, none, some, List,
  [], ◌∷◌, ◌++◌, length, take, drop, pop_last, lookup, insert, without, ◌==◌, ltb, if◌then◌else◌,
}
use llm_inference_stack.Exec.{
  Exec, pure, fail, need, modify, gets, index_error, zero_division, ◌>>=◌, ◌>>◌,
}
use llm_inference_stack.Paged.{PagedKvCache, block, store, count_stat, take_free_block, release}

-- The local variables of the loop.
pub record Progress : Type 0 where
  pub table : List ℕ
  pub prev_hash : Option String
  pub cached_tokens : ℕ
  pub matching : Bool

-- `bid in self.free_ids`
unfoldable pub elem : ℕ → List ℕ → Bool
elem a [] = false
elem a (x ∷ xs) = if x == a then true else elem a xs

-- `self.free_ids.remove(bid)`: the first occurrence.
unfoldable pub remove : ℕ → List ℕ → List ℕ
remove a [] = []
remove a (x ∷ xs) = if x == a then xs else x ∷ remove a xs

-- A block found in the prefix cache.
unfoldable pub take_hit : String → ℕ → Progress → Exec PagedKvCache Progress
unfolding elem remove
take_hit bh bid p = do
  blk ← block bid
  modify (λ kv.
      if (blk.ref_count == 0) && elem bid kv.free_ids
      then record kv { free_ids = remove bid kv.free_ids }
      else kv)
  now ← gets (λ kv. kv.step)
  store bid (record blk { ref_count = blk.ref_count + 1; last_used_step = now })
  modify (λ kv. record kv { cache = without bh kv.cache ++ (bh, bid) ∷ [] })
  size ← gets (λ kv. kv.block_size)
  count_stat (λ st. record st { cache_hits = st.cache_hits + 1 })
  pure (record p {
    table = p.table ++ bid ∷ [];
    prev_hash = some bh;
    cached_tokens = p.cached_tokens + size;
  })

-- A block that has to be computed.
unfoldable pub take_miss : String → Progress → Exec PagedKvCache Progress
take_miss bh p = do
  count_stat (λ st. record st { cache_misses = st.cache_misses + 1 })
  bid ← take_free_block
  blk ← block bid
  size ← gets (λ kv. kv.block_size)
  now ← gets (λ kv. kv.step)
  store bid
      (record blk { ref_count = 1; n_tokens = size; content_hash = some bh; last_used_step = now })
  modify
      (λ kv. if kv.enable_prefix_caching then record kv { cache = insert bh bid kv.cache } else kv)
  pure (record p { table = p.table ++ bid ∷ []; prev_hash = some bh; matching = false })

-- A new block at the end of a table, for the tail of a prompt or the first token of a block.
unfoldable pub take_tail : ℕ → List ℕ → Exec PagedKvCache (List ℕ)
take_tail n_tokens table = do
  bid ← take_free_block
  blk ← block bid
  store bid (record blk { ref_count = 1; n_tokens = n_tokens })
  pure (table ++ bid ∷ [])

-- The entry of the prefix cache that the loop may use, `matching and bh in self.cache`.
abbrev pub hit : String → Progress → PagedKvCache → Option ℕ
hit bh p kv = if p.matching then lookup bh kv.cache else none

-- The state before the loop.
abbrev pub start : PagedKvCache → Progress
start kv = record {
  table = [];
  prev_hash = none;
  cached_tokens = 0;
  matching = kv.enable_prefix_caching;
}

module _ (hash_block : Option String → List ℕ → String) where
  -- One round of the loop over the full blocks.
  unfoldable pub prompt_block : List ℕ → Progress → Exec PagedKvCache Progress
  unfolding take_hit take_miss
  prompt_block chunk p kv =
      let bh = hash_block p.prev_hash chunk in
      elim (hit bh p kv) [ some bid ↦ take_hit bh bid p kv | none ↦ take_miss bh p kv ]

  -- `for i in range(n_full)`: `rounds` are left.
  unfoldable pub prompt_loop : ℕ → ℕ → List ℕ → Progress → Exec PagedKvCache Progress
  unfolding prompt_block
  prompt_loop zero i token_ids p = pure p
  prompt_loop (suc rounds) i token_ids p = gets (λ kv. kv.block_size) >>= λ size.
      prompt_block (take size (drop (i * size) token_ids)) p >>= λ p'.
      prompt_loop rounds (i + 1) token_ids p'

  -- `n // self.block_size` raises on a block size of 0.
  unfoldable pub allocate_prompt : List ℕ → Exec PagedKvCache (List ℕ × ℕ)
  unfolding prompt_loop take_tail
  allocate_prompt token_ids kv =
      let size = kv.block_size in
      let n = length token_ids in
      let n_full = n / size in
      let rem = n - n_full * size in
      if size == 0
      then fail zero_division kv
      else ((prompt_loop n_full 0 token_ids (start kv) >>= λ p.
            if rem == 0
            then pure (p.table, p.cached_tokens)
            else (take_tail rem p.table >>= λ table. pure (table, p.cached_tokens)))
          kv)

-- `table[-1] = bid`
abbrev pub set_last : List ℕ → ℕ → List ℕ
set_last rest bid = rest ++ bid ∷ []

-- The tail block of `append_token` when another sequence shares it: copy-on-write.
unfoldable pub copy_tail : List ℕ → ℕ → Exec PagedKvCache (ℕ × List ℕ)
copy_tail rest tail = do
  new ← take_free_block
  fresh ← block new
  old ← block tail
  store new (record fresh { ref_count = 1; n_tokens = old.n_tokens })
  release tail
  count_stat (λ st. record st { cow_copies = st.cow_copies + 1 })
  pure (new, set_last rest new)

-- `tail.n_tokens = offset + 1`
unfoldable pub fill_tail : ℕ → ℕ → List ℕ → Exec PagedKvCache (Bool × List ℕ)
fill_tail offset tail table = do
  blk ← block tail
  store tail (record blk { n_tokens = offset + 1 })
  pure (false, table)

-- The table is changed in place, so it comes back beside the result; a raise leaves it as it was.
unfoldable pub append_token : List ℕ → ℕ → Exec PagedKvCache (Bool × List ℕ)
unfolding take_tail copy_tail fill_tail
append_token table seq_len kv =
    let offset = seq_len % kv.block_size in
    if kv.block_size == 0
    then fail zero_division kv
    else if offset == 0
    then (take_tail 1 table >>= λ table'. pure (true, table')) kv
    else ((need index_error (pop_last table) >>= λ (rest, tail). block tail >>= λ blk.
          if ltb 1 blk.ref_count
          then (copy_tail rest tail >>= λ (new, table'). fill_tail offset new table')
          else fill_tail offset tail table)
        kv)
