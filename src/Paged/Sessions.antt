-- ===== src/Paged/Sessions.antt =====
-- The clients of a `PagedKVCache` (packages/llmkit/llmkit/simulator/paged.py): sequences that get a
-- table, grow it and give it back, in any order, with the calls that fail.
use llm_inference_stack.Prelude.{
  ℕ, ◌+◌, ◌%◌, ◌<◌, ◌≡◌, ◌≢◌, sym, String, Bool, Option, List, [], ◌∷◌, ◌++◌, ◌⊎◌, count,
  count-append, arith,
}
use llm_inference_stack.Exec.{ok, raise, out_of_blocks, Ends-ok, Ends-failed}
use llm_inference_stack.Paged.{PagedKvCache, free}
use llm_inference_stack.Paged.Prompt.{allocate_prompt, append_token}
use llm_inference_stack.Paged.Pool.{recount-Pool}
use llm_inference_stack.Paged.Take.{IsValid}
use llm_inference_stack.Paged.Allocate.{taken, Ends-allocate_prompt}
use llm_inference_stack.Paged.Append.{Ends-append_token}
use llm_inference_stack.Paged.Release.{free-Ran}

-- A cache, the tables of the sequences that are alive, and the blocks that failed calls have taken and
-- not given back, which the program does not keep.
pub record Sessions : Type 0 where
  pub kv : PagedKvCache
  pub live : List (List ℕ)
  pub lost : List ℕ

-- All blocks that live tables name.
unfoldable pub held : List (List ℕ) → List ℕ
held [] = []
held (table ∷ live) = table ++ held live

-- One call, with its effect on the tables.
pub data Step (hash_block : Option String → List ℕ → String) : Sessions → Sessions → Type 0 where
  admit :
      (token_ids : List ℕ) {kv kv' : PagedKvCache} {live : List (List ℕ)} {lost : List ℕ}
      {r : List ℕ × ℕ}
      → allocate_prompt hash_block token_ids kv ≡ (ok r, kv')
      → Step hash_block
          (record { kv = kv; live = live; lost = lost })
          (record { kv = kv'; live = r.0 ∷ live; lost = lost })
  refuse :
      (token_ids : List ℕ) {kv kv' : PagedKvCache} {live : List (List ℕ)} {lost : List ℕ}
      → allocate_prompt hash_block token_ids kv ≡ (raise out_of_blocks, kv')
      → Step hash_block
          (record { kv = kv; live = live; lost = lost })
          (record { kv = kv'; live = live; lost = taken hash_block token_ids kv ++ lost })
  grow :
      (before : List (List ℕ)) (table : List ℕ) (after : List (List ℕ)) (seq_len : ℕ)
      {kv kv' : PagedKvCache} {live : List (List ℕ)} {lost : List ℕ} {r : Bool × List ℕ}
      → live ≡ before ++ table ∷ after
      → (seq_len % kv.block_size ≡ 0) ⊎ (table ≢ [])
      → append_token table seq_len kv ≡ (ok r, kv')
      → Step hash_block
          (record { kv = kv; live = live; lost = lost })
          (record { kv = kv'; live = before ++ r.1 ∷ after; lost = lost })
  stall :
      (before : List (List ℕ)) (table : List ℕ) (after : List (List ℕ)) (seq_len : ℕ)
      {kv kv' : PagedKvCache} {live : List (List ℕ)} {lost : List ℕ}
      → live ≡ before ++ table ∷ after
      → (seq_len % kv.block_size ≡ 0) ⊎ (table ≢ [])
      → append_token table seq_len kv ≡ (raise out_of_blocks, kv')
      → Step hash_block
          (record { kv = kv; live = live; lost = lost })
          (record { kv = kv'; live = live; lost = lost })
  finish :
      (before : List (List ℕ)) (table : List ℕ) (after : List (List ℕ)) {kv kv' : PagedKvCache}
      {live : List (List ℕ)} {lost : List ℕ}
      → live ≡ before ++ table ∷ after
      → free table kv ≡ (ok tt, kv')
      → Step hash_block
          (record { kv = kv; live = live; lost = lost })
          (record { kv = kv'; live = before ++ after; lost = lost })

pub data Reach (hash_block : Option String → List ℕ → String) (s : Sessions)
    : Sessions → Type 0 where
  here : Reach hash_block s s
  next : {t u : Sessions} → Reach hash_block s t → Step hash_block t u → Reach hash_block s u

-- The invariant: a block's reference count is the number of live tables that name it, and besides
-- them only what failed calls of `allocate_prompt` have taken and lost.
pub record IsSound (s : Sessions) : Type 0 where
  pub valid : IsValid s.kv (held s.live ++ s.lost)
  pub positive : 0 < s.kv.block_size

count-held_middle :
    (i : ℕ) (before : List (List ℕ)) (table : List ℕ) (after : List (List ℕ))
    → count i (held (before ++ table ∷ after)) ≡ count i table + count i (held (before ++ after))
unfolding held
count-held_middle i [] table after = count-append i table (held after)
count-held_middle i (t ∷ before) table after = omega (
  arith,
  count-held_middle i before table after,
  count-append i t (held (before ++ table ∷ after)),
  count-append i t (held (before ++ after)),
)

module _ (before : List (List ℕ)) (table : List ℕ) (after : List (List ℕ)) (lost : List ℕ)
    (kv : PagedKvCache) where
  around :
      (i : ℕ)
      → count i (held (before ++ table ∷ after) ++ lost)
        ≡ count i (table ++ (held (before ++ after) ++ lost))
  around i = omega (
    arith,
    count-held_middle i before table after,
    count-append i (held (before ++ table ∷ after)) lost,
    count-append i table (held (before ++ after) ++ lost),
    count-append i (held (before ++ after)) lost,
  )

  pull :
      {live : List (List ℕ)}
      → live ≡ before ++ table ∷ after
      → IsValid kv (held live ++ lost)
      → IsValid kv (table ++ (held (before ++ after) ++ lost))
  pull e v = recount-Pool (rw e at v) (table ++ (held (before ++ after) ++ lost)) around

  put :
      IsValid kv (table ++ (held (before ++ after) ++ lost))
      → IsValid kv (held (before ++ table ∷ after) ++ lost)
  put v = recount-Pool v (held (before ++ table ∷ after) ++ lost) (λ i. sym (around i))

module _ (hash_block : Option String → List ℕ → String) where
  Step-IsSound : {s t : Sessions} → Step hash_block s t → IsSound s → IsSound t
  Step-IsSound (admit token_ids {kv} {kv'} {live} {lost} {r} e) i =
      let others = held live ++ lost in
      let a =
        Ends-ok
          (rw e at (Ends-allocate_prompt hash_block others token_ids kv i.positive i.valid)) in
      record {
        valid = put [] (r.0) live lost kv' a.valid;
        positive = omega (arith, i.positive, a.setup.block_size);
      }
  Step-IsSound (refuse token_ids {kv} {kv'} {live} {lost} e) i =
      let dropped = taken hash_block token_ids kv in
      let others = held live ++ lost in
      let (_, l) =
        Ends-failed
          (rw e at (Ends-allocate_prompt hash_block others token_ids kv i.positive i.valid)) in
      record {
        valid = recount-Pool l.valid (held live ++ (dropped ++ lost)) (λ k. omega (
          arith,
          count-append k dropped others,
          count-append k (held live) lost,
          count-append k dropped lost,
          count-append k (held live) (dropped ++ lost),
        ));
        positive = omega (arith, i.positive, l.setup.block_size);
      }
  Step-IsSound (grow before table after seq_len {kv} {kv'} {live} {lost} {r} e h q) i =
      let others = held (before ++ after) ++ lost in
      let v = pull before table after lost kv e i.valid in
      let a = Ends-ok (rw q at (Ends-append_token others table kv seq_len i.positive h v)) in
      record {
        valid = put before (r.1) after lost kv' a.valid;
        positive = omega (arith, i.positive, a.setup.block_size);
      }
  Step-IsSound (stall before table after seq_len {kv} {kv'} {live} {lost} e h q) i =
      let others = held (before ++ after) ++ lost in
      let v = pull before table after lost kv e i.valid in
      let (_, a) =
        Ends-failed (rw q at (Ends-append_token others table kv seq_len i.positive h v)) in
      record {
        valid = rw e (put before table after lost kv' a.valid);
        positive = omega (arith, i.positive, a.setup.block_size);
      }
  Step-IsSound (finish before table after {kv} {kv'} {live} {lost} e q) i =
      let (s, runs, a) = free-Ran table kv (pull before table after lost kv e i.valid) in
      let same : kv' ≡ s = cc (q, runs) in
      record {
        valid = rw same a.valid;
        positive = rw same (omega (arith, i.positive, a.setup.block_size));
      }

  -- From a sound state, whatever sequences get tables, grow them, give them back and in whatever
  -- order, with the calls that end by OutOfBlocks, every reachable state is sound: the pool is
  -- valid for the blocks of the live tables and those that were lost, which are exactly the blocks
  -- that a failed allocate_prompt had in its table when it ended by OutOfBlocks, so each reference
  -- count is exactly the number of times that live tables and these lost tables name the block, no
  -- free block is in a live table, and the prefix cache names each block at most once and under the
  -- hash that it holds.
  pub Reach-IsSound : {s t : Sessions} → IsSound s → Reach hash_block s t → IsSound t
  Reach-IsSound i here = i
  Reach-IsSound i (next r st) = Step-IsSound st (Reach-IsSound i r)
