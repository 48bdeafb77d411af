-- ===== src/Paged/Grow.antt =====
-- The rounds of `allocate_prompt` and the new tail blocks, on a valid pool
-- (packages/llmkit/llmkit/simulator/paged.py).
use llm_inference_stack.Prelude.{
  ℕ, ◌+◌, ◌<◌, ◌≡◌, refl, String, true, false, some, List, [], ◌∷◌, ◌++◌, ◌⊎◌, inl, inr, length,
  get_elem?, set, count, lookup, insert, without, get_elem?-in_range, get_elem?-set,
  lt-length_of_get_elem?, Bool-cases, if_true, if_false, and_false, arith, ◌==◌, if◌then◌else◌,
}
use llm_inference_stack.Exec.{Result, ok, Ends, returns, Ends-resume}
use llm_inference_stack.Paged.{Block, PagedKvCache}
use llm_inference_stack.Paged.Cells.{hash_at, hash_at-set, hash_at-some, hash_of_lookup}
use llm_inference_stack.Paged.Pool.{claim-Pool, insert-Pool, hit-Pool, not_free_of_target}
use llm_inference_stack.Paged.Prompt.{Progress, elem, remove, take_hit, take_miss, take_tail}
use llm_inference_stack.Paged.Take.{
  IsValid, SameSetup, SameSetup-of, SameSetup-trans, Kept, Ran, Took, block_of_hash,
  Ends-take_free_block, stats-Ran, Ends-take_from,
}

-- A table got one more block, `new`.
pub record Grew (kv : PagedKvCache) (held : List ℕ) (table table' : List ℕ) (new : ℕ)
    (kv' : PagedKvCache) : Type 0 where
  pub grown : table' ≡ table ++ new ∷ []
  pub valid : IsValid kv' (new ∷ held)
  pub setup : SameSetup kv kv'
  pub kept : Kept kv held kv'

-- The block at this position has this number of tokens.
abbrev pub Wrote : PagedKvCache → ℕ → ℕ → Type 0
Wrote kv j n = (b : Block) × (get_elem? kv.blocks j ≡ some b) × (b.n_tokens ≡ n)

pub wrote-set :
    (bs : List Block) (j : ℕ) (b : Block)
    → j < length bs
    → (b' : Block) × (get_elem? (set bs j b) j ≡ some b') × (b'.n_tokens ≡ b.n_tokens)
wrote-set bs j b h = (b, ground (arith, get_elem?-set bs j b j), refl)

-- The block that a `_take_free_block` gave exists.
pub block_of_Took :
    {kv s : PagedKvCache} {held : List ℕ} {j : ℕ}
    → Took kv held j s
    → (b : Block) × (get_elem? s.blocks j ≡ some b)
block_of_Took {s = s} {j = j} t =
    get_elem?-in_range s.blocks j (omega (arith, t.ran.valid.size, t.spare.in_pool))

-- A write to a block that nobody holds.
pub Kept-set :
    {kv s : PagedKvCache} {held : List ℕ} {j : ℕ} (b : Block)
    → Took kv held j s
    → (i : ℕ) → 0 < count i held
    → hash_at (set s.blocks j b) i ≡ hash_at kv.blocks i
Kept-set {s = s} {j = j} b t i h = ground (
  arith,
  hash_at-set s.blocks j b i (omega (arith, t.ran.valid.size, t.spare.in_pool)),
  t.spare.unheld,
  t.ran.kept i h,
)

module _ (n_tokens : ℕ) (table : List ℕ) (kv : PagedKvCache) {held : List ℕ}
    (p : IsValid kv held) where
  -- A new tail block is nobody else's.
  pub Ends-take_tail :
      Ends
        (λ table' s.
          (new : ℕ) × Grew kv held table table' new s × (count new held ≡ 0) × Wrote s new n_tokens)
        (Ran kv held)
        (take_tail n_tokens table kv)
  unfolding take_tail
  Ends-take_tail =
      Ends-resume _ (Ends-take_free_block kv p)
        (λ j s t.
          let (b, at) = block_of_Took t in
          rw at (
            returns (table ++ j ∷ []) _ (
              j,
              record {
                grown = refl;
                valid =
                    claim-Pool t.ran.valid j (record b { ref_count = 1; n_tokens = n_tokens })
                      t.spare refl;
                setup = SameSetup-trans t.ran.setup (search SameSetup-of);
                kept = Kept-set _ t;
              },
              t.spare.unheld,
              wrote-set s.blocks j (record b { ref_count = 1; n_tokens = n_tokens })
                  (lt-length_of_get_elem? s.blocks j at),
            )))
        (λ s e. e)

-- One round of the loop: the block holds the chained hash `bh`, and the round is a hit or a miss.
pub record Round (kv : PagedKvCache) (held : List ℕ) (bh : String) (p p' : Progress) (new : ℕ)
    (s : PagedKvCache) : Type 0 where
  pub grew : Grew kv held p.table p'.table new s
  pub chained : p'.prev_hash ≡ some bh
  pub addressed : hash_at s.blocks new ≡ some bh
  pub reuse :
      ((p.matching ≡ true)
        × (p'.matching ≡ true)
        × (p'.cached_tokens ≡ p.cached_tokens + kv.block_size))
      ⊎ ((p'.matching ≡ false) × (p'.cached_tokens ≡ p.cached_tokens) × (count new held ≡ 0))

abbrev pub EndsRound :
    PagedKvCache → List ℕ → String → Progress → Result Progress × PagedKvCache → Type 0
EndsRound kv held bh p = Ends (λ p' s. (new : ℕ) × Round kv held bh p p' new s) (Ran kv held)

-- The block of a miss.
abbrev pub computed : String → Block → PagedKvCache → Block
computed bh b s = record b {
  ref_count = 1;
  n_tokens = s.block_size;
  content_hash = some bh;
  last_used_step = s.step;
}

abbrev pub missed : String → Progress → ℕ → Progress
missed bh pr j = record pr { table = pr.table ++ j ∷ []; prev_hash = some bh; matching = false }

module _ (bh : String) (pr : Progress) {kv s : PagedKvCache} {held : List ℕ} {j : ℕ}
    (t : Took kv held j s) (b : Block) (at : get_elem? s.blocks j ≡ some b) where
  in_range : j < length s.blocks
  in_range = lt-length_of_get_elem? s.blocks j at

  written : hash_at (set s.blocks j (computed bh b s)) j ≡ some bh
  written = ground (arith, hash_at-set s.blocks j (computed bh b s) j in_range)

  claimed : IsValid (record s { blocks = set s.blocks j (computed bh b s) }) (j ∷ held)
  claimed = claim-Pool t.ran.valid j (computed bh b s) t.spare refl

  miss-Round :
      (cache : List (String × ℕ))
      → IsValid (record s { blocks = set s.blocks j (computed bh b s); cache = cache }) (j ∷ held)
      → Round kv held bh pr
          (missed bh pr j)
          j
          (record s { blocks = set s.blocks j (computed bh b s); cache = cache })
  miss-Round cache v = record {
    grew = record {
      grown = refl;
      valid = v;
      setup = SameSetup-trans t.ran.setup (search SameSetup-of);
      kept = Kept-set (computed bh b s) t;
    };
    chained = refl;
    addressed = written;
    reuse = inr (refl, refl, t.spare.unheld);
  }

  -- The block enters the prefix cache if there is one.
  entered :
      s.enable_prefix_caching ≡ true
      → IsValid
          (record s { blocks = set s.blocks j (computed bh b s); cache = insert bh j s.cache })
          (j ∷ held)
  entered on =
      insert-Pool claimed bh j on (omega (arith, t.spare.in_pool)) written
        (omega (arith, t.spare.unlisted))

  miss_end : EndsRound kv held bh pr (
    ok (missed bh pr j),
    (if s.enable_prefix_caching
        then record s { blocks = set s.blocks j (computed bh b s); cache = insert bh j s.cache }
        else record s { blocks = set s.blocks j (computed bh b s) }),
  )
  miss_end = elim (Bool-cases s.enable_prefix_caching) [
    | inl on ↦ rw (if_true _ _ on) (returns _ _ (j, miss-Round _ (entered on)))
    | inr off ↦ rw (if_false _ _ off) (returns _ _ (j, miss-Round _ claimed))
  ]

module _ (bh : String) (pr : Progress) (kv : PagedKvCache) {held : List ℕ}
    (p : IsValid kv held) where
  pub Ends-take_miss : EndsRound kv held bh pr (take_miss bh pr kv)
  unfolding take_miss
  Ends-take_miss =
      let q = stats-Ran kv (record kv.stats { cache_misses = kv.stats.cache_misses + 1 }) p in
      Ends-resume _ (Ends-take_from q (Ends-take_free_block _ q.valid))
        (λ j s t. let (b, at) = block_of_Took t in rw at (miss_end bh pr t b at)) (λ s e. e)

module _ (bh : String) (pr : Progress) (kv : PagedKvCache) (j : ℕ) (b : Block) where
  abbrev reused : Progress
  reused = record pr {
    table = pr.table ++ j ∷ [];
    prev_hash = some bh;
    cached_tokens = pr.cached_tokens + kv.block_size;
  }

  abbrev shared : Block
  shared = record b { ref_count = b.ref_count + 1; last_used_step = kv.step }

  abbrev after_hit : PagedKvCache
  after_hit = record kv {
    blocks = set kv.blocks j shared;
    cache = without bh kv.cache ++ (bh, j) ∷ [];
    stats = record kv.stats { cache_hits = kv.stats.cache_hits + 1 };
  }

  take_hit_lem :
      get_elem? kv.blocks j ≡ some b
      → elem j kv.free_ids ≡ false
      → take_hit bh j pr kv ≡ (ok reused, after_hit)
  unfolding take_hit
  take_hit_lem at out = rw (
    at,
    if_false (record kv { free_ids = remove j kv.free_ids }) kv
        (and_false (b.ref_count == 0) _ out),
  )

  module _ {held : List ℕ} (p : IsValid kv held) (found : lookup bh kv.cache ≡ some j)
      (at : get_elem? kv.blocks j ≡ some b) where
    hit-Round : pr.matching ≡ true → Round kv held bh pr reused j after_hit
    hit-Round m =
        let l = lt-length_of_get_elem? kv.blocks j at in
        let old = hash_of_lookup kv.blocks bh kv.cache j p.hashes found in
        record {
          grew = record {
            grown = refl;
            valid = hit-Pool p bh j b shared found at refl refl;
            setup = search SameSetup-of;
            kept = λ i h.
                ground (arith, hash_at-set kv.blocks j shared i l, hash_at-some kv.blocks j b at);
          };
          chained = refl;
          addressed =
              ground (arith, hash_at-set kv.blocks j shared j l, hash_at-some kv.blocks j b at);
          reuse = inl (m, m, refl);
        }

elem-eq_false : (a : ℕ) (xs : List ℕ) → count a xs ≡ 0 → elem a xs ≡ false
unfolding elem count
elem-eq_false a [] h = refl
elem-eq_false a (x ∷ xs) h = ground (arith, elem-eq_false a xs)

module _ (bh : String) (pr : Progress) (kv : PagedKvCache) {held : List ℕ}
    (p : IsValid kv held) where
  pub Ends-take_hit :
      (j : ℕ)
      → pr.matching ≡ true
      → lookup bh kv.cache ≡ some j
      → EndsRound kv held bh pr (take_hit bh j pr kv)
  Ends-take_hit j m f =
      let (b, at) =
        block_of_hash kv.blocks j bh (hash_of_lookup kv.blocks bh kv.cache j p.hashes f) in
      let out = elem-eq_false j kv.free_ids (not_free_of_target p bh j b b f at) in
      rw (take_hit_lem bh pr kv j b at out) (returns _ _ (j, hit-Round bh pr kv j b p f at m))
