-- ===== src/Paged/Release.antt =====
-- `_release` and `free` of packages/llmkit/llmkit/simulator/paged.py on a valid pool: they never raise,
-- and a block is free again, or idle in the prefix cache, when its last table lets it go.
use llm_inference_stack.Prelude.{
  ℕ, ◌+◌, ◌-◌, ◌≤◌, ◌<◌, ◌≡◌, refl, ◌∙◌, String, true, false, ◌&&◌, none, some, List, [], ◌∷◌, ◌++◌,
  ◌⊎◌, inl, inr, get_elem?, set, set-set, count, without, Bool-cases, Option-cases,
  lt-length_of_get_elem?, arith, leb, str_eq,
}
use llm_inference_stack.Exec.{ok}
use llm_inference_stack.Paged.{Block, PagedKvCache, cached, release, free}
use llm_inference_stack.Paged.Cells.{
  ref_at, hash_at, targets, ref_at-some, hash_at-some, hash_at-set, not_target_of_none,
}
use llm_inference_stack.Paged.Pool.{drop-Pool, free-Pool}
use llm_inference_stack.Paged.Rounds.{held_append}
use llm_inference_stack.Paged.Take.{IsValid, SameSetup-of, SameSetup-trans, SameSetup-refl, Ran}

abbrev unused : Block → Block
unused b = record b { ref_count = 0 }

-- One reference is gone and others remain, or the block stays in the prefix cache.
abbrev dropped : PagedKvCache → ℕ → Block → PagedKvCache
dropped kv j b = record kv { blocks = set kv.blocks j b }

-- The block is free, with `b` written to it.
abbrev freed : PagedKvCache → ℕ → Block → PagedKvCache
freed kv j b = record kv {
  blocks = set kv.blocks j b;
  free_ids = kv.free_ids ++ j ∷ [];
  stats = record kv.stats { freed = kv.stats.freed + 1 };
}

module _ (kv : PagedKvCache) (j : ℕ) (b : Block) (at : get_elem? kv.blocks j ≡ some b) where
  release_shared :
      leb b.ref_count 1 ≡ false
      → release j kv ≡ (ok tt, dropped kv j (record b { ref_count = b.ref_count - 1 }))
  unfolding release
  release_shared more = ground arith

  release_cached :
      leb b.ref_count 1 ≡ true
      → (kv.enable_prefix_caching && cached b) ≡ true
      → release j kv ≡ (ok tt, dropped kv j (unused b))
  unfolding release
  release_cached last keep = ground arith

  release_plain :
      leb b.ref_count 1 ≡ true
      → b.content_hash ≡ none
      → release j kv ≡ (ok tt, freed kv j (unused b))
  unfolding release
  release_plain last bare = ground arith

  release_uncached :
      (h : String)
      → leb b.ref_count 1 ≡ true
      → b.content_hash ≡ some h
      → kv.enable_prefix_caching ≡ false
      → kv.cache ≡ []
      → (b' : Block) × (release j kv ≡ (ok tt, freed kv j b')) × (b'.ref_count ≡ 0)
  unfolding release without
  release_uncached h last e off empty = elim (Bool-cases (str_eq h "")) [
    | inl falsy ↦ (unused b, ground arith, refl)
    | inr truthy ↦ (
      record b { ref_count = 0; content_hash = none },
      ground
          (arith, set-set kv.blocks j (unused b) (record b { ref_count = 0; content_hash = none })),
      refl,
    )
  ]

-- The three ways in which a release ends.
data Way (kv : PagedKvCache) (j : ℕ) (b : Block) : Type 0 where
  shared : leb b.ref_count 1 ≡ false → Way kv j b
  resident : leb b.ref_count 1 ≡ true → (kv.enable_prefix_caching && cached b) ≡ true → Way kv j b
  bare : leb b.ref_count 1 ≡ true → b.content_hash ≡ none → Way kv j b
  uncached :
      (h : String)
      → leb b.ref_count 1 ≡ true
      → b.content_hash ≡ some h
      → kv.enable_prefix_caching ≡ false
      → Way kv j b

way : (kv : PagedKvCache) (j : ℕ) (b : Block) → Way kv j b
way kv j b = elim (Bool-cases (leb b.ref_count 1)) [
  | inr more ↦ shared more
  | inl last ↦ elim (Option-cases b.content_hash) [
    | inl none_set ↦ bare last none_set
    | inr (h, e) ↦ elim (Bool-cases kv.enable_prefix_caching) [
      | inl on ↦ resident last (ground arith)
      | inr off ↦ uncached h last e off
    ]
  ]
]

-- A release gives back one of the references that the live tables hold.
abbrev pub Released : PagedKvCache → List ℕ → ℕ → PagedKvCache → Type 0
Released kv held j s = (release j kv ≡ (ok tt, s)) × Ran kv held s

module _ (kv : PagedKvCache) {held : List ℕ} {j : ℕ} (p : IsValid kv (j ∷ held)) where
  block_of_held : (b : Block) × (get_elem? kv.blocks j ≡ some b)
  unfolding count ref_at
  block_of_held = elim (Option-cases (get_elem? kv.blocks j)) [
    | inl gone ↦ absurd (ground (arith, p.refs j))
    | inr found ↦ found
  ]

  module _ (b : Block) (at : get_elem? kv.blocks j ≡ some b) where
    -- A write that changes the hash only of a block that nobody holds any more.
    keeps :
        (b' : Block)
        → ((b'.content_hash ≡ b.content_hash) ⊎ (b.ref_count ≤ 1))
        → (i : ℕ) → 0 < count i held
        → hash_at (set kv.blocks j b') i ≡ hash_at kv.blocks i
    unfolding count
    keeps b' why i h = ground (
      arith,
      hash_at-set kv.blocks j b' i (lt-length_of_get_elem? kv.blocks j at),
      hash_at-some kv.blocks j b at,
      ref_at-some kv.blocks j b at,
      p.refs j,
    )

    dropped-Ran :
        (b' : Block)
        → b'.ref_count ≡ b.ref_count - 1
        → b'.content_hash ≡ b.content_hash
        → Ran kv held (dropped kv j b')
    dropped-Ran b' r h = record {
      valid = drop-Pool p b b' at r h;
      setup = search SameSetup-of;
      kept = keeps b' (inl h);
    }

    freed-Ran :
        (b' : Block)
        → b.ref_count ≤ 1
        → b'.ref_count ≡ 0
        → count j (targets kv.cache) ≡ 0
        → Ran kv held (freed kv j b')
    freed-Ran b' last r unlisted = record {
      valid = free-Pool p b b' at last unlisted r;
      setup = search SameSetup-of;
      kept = keeps b' (inr last);
    }

    release-Way : Way kv j b → (s : PagedKvCache) × Released kv held j s
    unfolding targets count
    release-Way (shared more) = (_, (release_shared kv j b at more, dropped-Ran _ refl refl))
    release-Way (resident last keep) =
        (_, (release_cached kv j b at last keep, dropped-Ran _ (ground arith) refl))
    release-Way (bare last e) = (
      _,
      (
        release_plain kv j b at last e,
        freed-Ran _ (ground arith) refl (
            not_target_of_none kv.blocks j kv.cache (ground (arith, hash_at-some kv.blocks j b at))
              p.hashes),
      ),
    )
    release-Way (uncached h last e off) =
        let (b', runs, zero_refs) = release_uncached kv j b at h last e off (p.off off) in
        (_, (runs, freed-Ran b' (ground arith) zero_refs (ground (arith, p.off off))))

  pub release-Released : (s : PagedKvCache) × Released kv held j s
  release-Released = let (b, at) = block_of_held in release-Way b at (way kv j b)

-- Giving back a table that is live on a valid pool never raises: the pool is then valid for the
-- other tables alone, whose blocks keep their hashes.
pub free-Ran :
    (table : List ℕ) (kv : PagedKvCache) {held : List ℕ}
    → IsValid kv (table ++ held)
    → (s : PagedKvCache) × (free table kv ≡ (ok tt, s)) × Ran kv held s
unfolding free
free-Ran [] kv p = (kv, refl, record { valid = p; setup = SameSetup-refl kv; kept = λ i h. refl })
free-Ran (j ∷ table) kv {held} p =
    let (s, e) = release-Released kv p in
    let (runs, r) = e in
    let (s', runs', r') = free-Ran table s r.valid in
    (
      s',
      rw (runs, runs'),
      record {
        valid = r'.valid;
        setup = SameSetup-trans r.setup r'.setup;
        kept = λ i h. r'.kept i h ∙ r.kept i (held_append i table held h);
      },
    )
