-- ===== src/Paged/Append.antt =====
-- `append_token` of packages/llmkit/llmkit/simulator/paged.py on a valid pool: the block that is
-- written belongs to the one table, by copy-on-write where it was shared.
use mathlib.Core.Path.{subst}
use llm_inference_stack.Prelude.{
  ℕ, ◌+◌, ◌%◌, ◌<◌, ◌≡◌, ◌≢◌, refl, sym, ◌∙◌, Bool, true, false, some, List, [], ◌∷◌, ◌++◌, ◌⊎◌,
  inl, inr, length, get_elem?, set, count, pop_last, length-append, lt-length_of_get_elem?,
  append-pop_last, nil_of_pop_last, count-append, count-append_one, if_true, if_false, Bool-cases,
  Option-cases, arith, ◌==◌, ltb, if◌then◌else◌,
}
use llm_inference_stack.Exec.{ok, index_error, need, pure, ◌>>=◌, Ends, returns, Ends-resume}
use llm_inference_stack.Paged.{Block, PagedKvCache, block, count_stat, release}
use llm_inference_stack.Paged.Cells.{ref_at, ref_at-some, hash_at-some, hash_at-set}
use llm_inference_stack.Paged.Pool.{claim-Pool, recount-Pool, touch-Pool}
use llm_inference_stack.Paged.Prompt.{set_last, copy_tail, fill_tail, append_token}
use llm_inference_stack.Paged.Take.{
  IsValid, SameSetup, SameSetup-of, SameSetup-trans, Kept, Ran, Took, Ends-take_free_block,
}
use llm_inference_stack.Paged.Grow.{Grew, Wrote, wrote-set, Ends-take_tail, block_of_Took, Kept-set}
use llm_inference_stack.Paged.Allocate.{positive_test}
use llm_inference_stack.Paged.Rounds.{regroup, held_append}
use llm_inference_stack.Paged.Release.{release-Released}

first_token : (offset : ℕ) → (offset == 0) ≡ true → 1 ≡ offset + 1
first_token offset h = ground arith

-- What `append_token` promises: the other tables are undisturbed, the table grows by one block if
-- the result says so, nobody else names its last block, and that block has `filled` tokens.
pub record Appended (kv : PagedKvCache) (others table : List ℕ) (filled : ℕ) (r : Bool × List ℕ)
    (s : PagedKvCache) : Type 0 where
  pub valid : IsValid s (r.1 ++ others)
  pub setup : SameSetup kv s
  pub kept : Kept kv others s
  pub front : List ℕ
  pub last : ℕ
  pub ends : r.1 ≡ front ++ last ∷ []
  pub exclusive : count last (r.1 ++ others) ≡ 1
  pub written : Wrote s last filled
  pub size : length r.1 ≡ length table + (if r.0 then 1 else 0)

held_block :
    (kv : PagedKvCache) {held : List ℕ} (j : ℕ)
    → IsValid kv held
    → 0 < count j held
    → (b : Block) × (get_elem? kv.blocks j ≡ some b)
unfolding ref_at
held_block kv j p h = elim (Option-cases (get_elem? kv.blocks j)) [
  | inl gone ↦ absurd (ground (arith, p.refs j))
  | inr found ↦ found
]

-- `tail.n_tokens = offset + 1` on a block that a table holds.
fill_tail-Ran :
    (offset tail : ℕ) (table : List ℕ) (kv : PagedKvCache) {held : List ℕ}
    → IsValid kv held
    → 0 < count tail held
    → (s : PagedKvCache) × (fill_tail offset tail table kv ≡ (ok (false, table), s))
      × Ran kv held s
      × Wrote s tail (offset + 1)
unfolding fill_tail
fill_tail-Ran offset tail table kv p h =
    let (b, at) = held_block kv tail p h in
    let b' : Block = record b { n_tokens = offset + 1 } in
    (
      record kv { blocks = set kv.blocks tail b' },
      rw at,
      record {
        valid = touch-Pool p tail b b' at refl refl;
        setup = search SameSetup-of;
        kept = λ i l. ground (
          arith,
          hash_at-set kv.blocks tail b' i (lt-length_of_get_elem? kv.blocks tail at),
          hash_at-some kv.blocks tail b at,
        );
      },
      wrote-set kv.blocks tail b' (lt-length_of_get_elem? kv.blocks tail at),
    )

module _ (others rest : List ℕ) (tail : ℕ) (kv : PagedKvCache)
    (p : IsValid kv ((rest ++ tail ∷ []) ++ others)) where
  tail_held : 0 < count tail ((rest ++ tail ∷ []) ++ others)
  tail_held =
      ground (arith, count-append tail (rest ++ tail ∷ []) others, count-append_one tail rest tail)

  -- Copy-on-write gives the table a block of its own in place of the shared one.
  abbrev Copied : ℕ × List ℕ → PagedKvCache → Type 0
  Copied r s =
      (r.1 ≡ rest ++ r.0 ∷ [])
      × IsValid s (r.1 ++ others)
      × SameSetup kv s
      × Kept kv others s
      × (count r.0 (r.1 ++ others) ≡ 1)

  module _ (new : ℕ) (s : PagedKvCache) (t : Took kv ((rest ++ tail ∷ []) ++ others) new s)
      (b : Block) (one : b.ref_count ≡ 1) where
    -- the table, with the new block in the place of the old one, which is let go
    swapped :
        IsValid (record s { blocks = set s.blocks new b }) (tail ∷ (rest ++ new ∷ []) ++ others)
    unfolding count
    swapped =
        recount-Pool (claim-Pool t.ran.valid new b t.spare one)
          (tail ∷ (rest ++ new ∷ []) ++ others)
          λ i. omega (
            arith,
            count-append i (rest ++ tail ∷ []) others,
            count-append_one i rest tail,
            count-append i (rest ++ new ∷ []) others,
            count-append_one i rest new,
          )

    own : count new ((rest ++ new ∷ []) ++ others) ≡ 1
    own = ground (
      arith,
      t.spare.unheld,
      count-append new (rest ++ tail ∷ []) others,
      count-append_one new rest tail,
      count-append new (rest ++ new ∷ []) others,
      count-append_one new rest new,
    )

    after_take : Ends Copied (Ran kv ((rest ++ tail ∷ []) ++ others)) (
        (release tail >>= λ _.
        count_stat (λ st. record st { cow_copies = st.cow_copies + 1 }) >>= λ _.
        pure (new, set_last rest new))
          (record s { blocks = set s.blocks new b }))
    after_take =
        let (s', e) = release-Released (record s { blocks = set s.blocks new b }) swapped in
        let (runs, r) = e in
        rw runs (
          returns (new, rest ++ new ∷ []) _
            (
              refl,
              r.valid,
              SameSetup-trans (SameSetup-trans t.ran.setup (search SameSetup-of))
                  (SameSetup-trans r.setup (search SameSetup-of)),
              (λ i h.
                  r.kept i (held_append i (rest ++ new ∷ []) others h)
                  ∙ Kept-set b t i (held_append i (rest ++ tail ∷ []) others h)),
              own,
            ))

  Ends-copy_tail : Ends Copied (Ran kv ((rest ++ tail ∷ []) ++ others)) (copy_tail rest tail kv)
  unfolding copy_tail
  Ends-copy_tail =
      Ends-resume _ (Ends-take_free_block kv p)
        (λ new s t.
          let (fresh, at) = block_of_Took t in
          let (old, at') = held_block s tail t.ran.valid tail_held in
          rw at (rw at' (after_take new s t _ refl)))
        (λ s e. e)

  -- The token goes into the tail block, which is copied first if another table names it.
  Ends-fill :
      (offset : ℕ)
      → Ends
          (Appended kv others (rest ++ tail ∷ []) (offset + 1))
          (Ran kv ((rest ++ tail ∷ []) ++ others))
          ((block tail >>= λ blk.
              if ltb 1 blk.ref_count
              then (copy_tail rest tail >>= λ (new, table'). fill_tail offset new table')
              else fill_tail offset tail (rest ++ tail ∷ []))
            kv)
  Ends-fill offset =
      let (b, at) = held_block kv tail p tail_held in
      rw at (elim (Bool-cases (ltb 1 b.ref_count)) [
        | inl many ↦ rw (if_true _ _ many) (
            Ends-resume _ Ends-copy_tail
              (λ (new, table') s c.
                let (s', runs, r, w) =
                  fill_tail-Ran offset new table' s (c.1) (omega (arith, c.4)) in
                rw runs (
                  returns (false, table') s'
                    (record {
                      valid = r.valid;
                      setup = SameSetup-trans c.2 r.setup;
                      kept = λ i h. r.kept i (held_append i table' others h) ∙ c.3 i h;
                      front = rest;
                      last = new;
                      ends = c.0;
                      exclusive = c.4;
                      written = w;
                      size = rw (c.0) (
                          omega
                            (arith, length-append rest (new ∷ []), length-append rest (tail ∷ [])));
                    })))
              (λ s e. e))
        | inr few ↦
            let (s, runs, r, w) = fill_tail-Ran offset tail (rest ++ tail ∷ []) kv p tail_held in
            rw (if_false _ _ few) (
              rw runs (
                returns _ s (record {
                  valid = r.valid;
                  setup = r.setup;
                  kept = λ i h. r.kept i (held_append i (rest ++ tail ∷ []) others h);
                  front = rest;
                  last = tail;
                  ends = refl;
                  exclusive =
                      ground (arith, p.refs tail, ref_at-some kv.blocks tail b at, tail_held);
                  written = w;
                  size = omega arith;
                })))
      ])

module _ (others table : List ℕ) (kv : PagedKvCache) where
  new_block-Appended :
      (table' : List ℕ) (new : ℕ) (s : PagedKvCache)
      → Grew kv (table ++ others) table table' new s
      → count new (table ++ others) ≡ 0
      → Wrote s new 1
      → Appended kv others table 1 (true, table') s
  unfolding count
  new_block-Appended table' new s g fresh w = record {
    valid = regroup others g;
    setup = g.setup;
    kept = λ i h. g.kept i (held_append i table others h);
    front = table;
    last = new;
    ends = g.grown;
    exclusive = rw g.grown (
        ground (
          arith,
          fresh,
          count-append new table others,
          count-append new (table ++ new ∷ []) others,
          count-append_one new table new,
        ));
    written = w;
    size = rw g.grown (omega (arith, length-append table (new ∷ [])));
  }

  Ends-write :
      (offset : ℕ)
      → table ≢ []
      → IsValid kv (table ++ others)
      → Ends (Appended kv others table (offset + 1)) (Ran kv (table ++ others)) (
          (need index_error (pop_last table) >>= λ (rest, tail). block tail >>= λ blk.
          if ltb 1 blk.ref_count
          then (copy_tail rest tail >>= λ (new, table'). fill_tail offset new table')
          else fill_tail offset tail table)
            kv)
  Ends-write offset some_tail p = elim (Option-cases (pop_last table)) [
    | inl empty ↦ absurd (some_tail (nil_of_pop_last table empty))
    | inr ((rest, tail), e) ↦ rw e (
        subst
          (λ t. Ends (Appended kv others t (offset + 1)) (Ran kv (t ++ others)) (
            (block tail >>= λ blk.
            if ltb 1 blk.ref_count
            then (copy_tail rest tail >>= λ (new, table'). fill_tail offset new table')
            else fill_tail offset tail t)
              kv))
          (sym (append-pop_last table rest tail e))
          (Ends-fill others rest tail kv
            (subst (λ t. IsValid kv (t ++ others)) (append-pop_last table rest tail e) p) offset))
  ]

  -- On a valid pool with a positive block size, and a table that is not empty unless a block
  -- starts, append_token returns or ends by OutOfBlocks with the table and the pool's references as
  -- they were. When it returns, nobody else names the last block of the table, this block has one
  -- token more than the offset of the sequence in it, the table is one block longer exactly if the
  -- result says so, and the other tables keep their blocks and hashes.
  pub Ends-append_token :
      (seq_len : ℕ)
      → 0 < kv.block_size
      → ((seq_len % kv.block_size ≡ 0) ⊎ (table ≢ []))
      → IsValid kv (table ++ others)
      → Ends
          (Appended kv others table (seq_len % kv.block_size + 1))
          (Ran kv (table ++ others))
          (append_token table seq_len kv)
  unfolding append_token
  Ends-append_token seq_len positive has_tail p =
      rw (if_false _ _ (positive_test kv.block_size positive))
        (elim (Bool-cases (seq_len % kv.block_size == 0)) [
          | inl full ↦ rw (if_true _ _ full) (
              Ends-resume _ (Ends-take_tail 1 table kv p)
                (λ table' s (new, g, fresh, w). returns _ s (
                  subst (λ n. Appended kv others table n (true, table') s) (first_token _ full)
                    (new_block-Appended table' new s g fresh w)))
                (λ s e. e))
          | inr room ↦
              rw (if_false _ _ room) (Ends-write (seq_len % kv.block_size) (ground arith) p)
        ])
