-- ===== src/Paged/Allocate.antt =====
-- `allocate_prompt` of packages/llmkit/llmkit/simulator/paged.py on a valid pool: every full block of
-- the table holds the chained hash of its tokens, and no live table is disturbed.
use mathlib.Core.List.{append-nil}
use llm_inference_stack.Prelude.{
  ℕ, ◌-◌, ◌*◌, ◌/◌, ◌%◌, ◌≤◌, ◌<◌, ◌≡◌, ◌≢◌, ◌∙◌, ap, String, true, false, Option, none, List, [],
  ◌∷◌, ◌++◌, inl, inr, length, count, count-append, Bool-cases, if_true, if_false, arith, ◌==◌,
  if◌then◌else◌,
}
use llm_inference_stack.Exec.{Ends, returns, Ends-resume}
use llm_inference_stack.Paged.{Block, PagedKvCache}
use llm_inference_stack.Paged.Cells.{hash_at}
use llm_inference_stack.Paged.Prompt.{Progress, start, allocate_prompt}
use llm_inference_stack.Paged.Take.{IsValid, SameSetup, SameSetup-trans, Kept, Ran}
use llm_inference_stack.Paged.Grow.{Grew, Ends-take_tail}
use llm_inference_stack.Paged.Rounds.{
  Addressed, Lost, Looped, reached, regroup, held_append, chain, Ends-prompt_loop,
}

pub positive_test : (n : ℕ) → 0 < n → (n == 0) ≡ false
positive_test n h = ground arith

remainder : (n size : ℕ) → n - n / size * size ≡ n % size
remainder n size = omega arith

no_rest : (n size : ℕ) → (n - n / size * size == 0) ≡ true → n % size ≡ 0
no_rest n size h = ground (arith, remainder n size)

some_rest : (n size : ℕ) → (n - n / size * size == 0) ≡ false → n % size ≢ 0
some_rest n size h = ground (arith, remainder n size)

Addressed-kept :
    (bs bs' : List Block) (table : List ℕ) (hashes : List String)
    → ((i : ℕ) → 0 < count i table → hash_at bs' i ≡ hash_at bs i)
    → Addressed bs table hashes
    → Addressed bs' table hashes
unfolding count
Addressed-kept bs bs' [] [] same a = tt
Addressed-kept bs bs' (i ∷ table) (h ∷ hashes) same a = (
  same i (ground arith) ∙ a.0,
  Addressed-kept bs bs' table hashes (λ k held. same k (ground arith)) a.1,
)
Addressed-kept bs bs' [] (h ∷ hashes) same a = a
Addressed-kept bs bs' (i ∷ table) [] same a = a

-- What `allocate_prompt` promises about the table and the number of cached tokens that it returns.
pub record Allocated (hashes : List String) (others : List ℕ) (kv : PagedKvCache) (n : ℕ)
    (r : List ℕ × ℕ) (s : PagedKvCache) : Type 0 where
  pub full : List ℕ
  pub tail : List ℕ
  pub blocks : r.0 ≡ full ++ tail
  pub addressed : Addressed s.blocks full hashes
  pub tail_length : length tail ≡ (if n % kv.block_size == 0 then 0 else 1)
  pub valid : IsValid s (r.0 ++ others)
  pub setup : SameSetup kv s
  pub kept : Kept kv others s
  pub hits : ℕ
  pub bounded : hits ≤ length full
  pub cached : r.1 ≡ hits * kv.block_size

module _ (others : List ℕ) (kv : PagedKvCache) (n : ℕ) {hashes : List String} {p : Progress}
    {s : PagedKvCache} (l : Looped kv others hashes (start kv) p s) where
  whole : n % kv.block_size ≡ 0 → Allocated hashes others kv n (p.table, p.cached_tokens) s
  whole z = record {
    full = l.new;
    tail = [];
    blocks = simp (l.grown, append-nil);
    addressed = l.addressed;
    tail_length = ground arith;
    valid = l.valid;
    setup = l.setup;
    kept = l.kept;
    hits = l.hits;
    bounded = l.bounded;
    cached = omega (arith, l.counted);
  }

  with_tail :
      (table' : List ℕ) (s' : PagedKvCache) (new : ℕ)
      → n % kv.block_size ≢ 0
      → Grew s (p.table ++ others) p.table table' new s'
      → Allocated hashes others kv n (table', p.cached_tokens) s'
  with_tail table' s' new z g = record {
    full = l.new;
    tail = new ∷ [];
    blocks = rw (g.grown, l.grown);
    addressed =
        Addressed-kept s.blocks s'.blocks l.new hashes
          (λ i h. g.kept i rw l.grown (omega (arith, count-append i l.new others))) l.addressed;
    tail_length = ground arith;
    valid = regroup others g;
    setup = SameSetup-trans l.setup g.setup;
    kept = λ i h. g.kept i (held_append i p.table others h) ∙ l.kept i h;
    hits = l.hits;
    bounded = l.bounded;
    cached = omega (arith, l.counted);
  }

  Lost-tail : (s' : PagedKvCache) → Ran s (p.table ++ others) s' → Lost kv others p.table s'
  Lost-tail s' r = record {
    valid = r.valid;
    setup = SameSetup-trans l.setup r.setup;
    kept = λ i h. r.kept i (held_append i p.table others h) ∙ l.kept i h;
  }

-- The chained hashes of the full blocks of a prompt.
unfoldable pub prompt_chain : (Option String → List ℕ → String) → ℕ → List ℕ → List String
prompt_chain hash_block size token_ids =
    chain hash_block size token_ids (length token_ids / size) 0 none

-- The blocks that `allocate_prompt` has in its table when its loop ends, by its end or by a raise.
unfoldable pub taken : (Option String → List ℕ → String) → List ℕ → PagedKvCache → List ℕ
unfolding reached
taken hash_block token_ids kv =
    (reached hash_block (length token_ids / kv.block_size) 0 token_ids (start kv) kv).table

module _ (hash_block : Option String → List ℕ → String) (others : List ℕ) where
  -- On a valid pool with a positive block size, allocate_prompt returns a table, or ends by
  -- OutOfBlocks, and raises nothing else. The full blocks of the table hold the chained hashes of
  -- their tokens in order, there is one more block exactly if tokens remain, the number of cached
  -- tokens is a number of the full blocks times the block size, the pool is valid for the table
  -- beside the other tables, and their blocks keep their hashes. After OutOfBlocks the pool is
  -- valid for the other tables and the blocks that the call had in its own table when it was
  -- raised, which thus keep their references, and the blocks of the other tables keep their hashes.
  pub Ends-allocate_prompt :
      (token_ids : List ℕ) (kv : PagedKvCache)
      → 0 < kv.block_size
      → IsValid kv others
      → Ends
          (Allocated (prompt_chain hash_block kv.block_size token_ids) others kv (length token_ids))
          (Lost kv others (taken hash_block token_ids kv))
          (allocate_prompt hash_block token_ids kv)
  unfolding allocate_prompt prompt_chain taken
  Ends-allocate_prompt token_ids kv positive v =
      rw (if_false _ _ (positive_test kv.block_size positive)) (
        Ends-resume _
          (Ends-prompt_loop hash_block others (length token_ids / kv.block_size) 0 token_ids
            (start kv) kv v)
          (λ p s (l, end).
            elim (Bool-cases
              (length token_ids - length token_ids / kv.block_size * kv.block_size == 0)) [
                | inl z ↦
                    rw (if_true _ _ z)
                      (returns _ s (whole others kv (length token_ids) l (no_rest _ _ z)))
                | inr z ↦ rw (if_false _ _ z) (
                    Ends-resume _ (Ends-take_tail _ p.table s l.valid)
                      (λ table' s' (new, g, fresh, wrote). returns _ s' (
                        with_tail others kv (length token_ids) l table' s' new (some_rest _ _ z) g))
                      (λ s' r.
                        rw (ap (λ (q : Progress). q.table) end)
                          (Lost-tail others kv (length token_ids) l s' r)))
              ])
          (λ s e. e))
