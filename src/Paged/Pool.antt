-- ===== src/Paged/Pool.antt =====
-- The invariant of the pool, relative to the blocks that the live tables hold (each as often as
-- tables name it), and that every change of `PagedKVCache` to its parts keeps it.
use llm_inference_stack.Prelude.{
  ℕ, ◌+◌, ◌-◌, ◌≤◌, ◌<◌, ◌≡◌, String, Bool, true, false, none, some, List, [], ◌∷◌, ◌++◌, length,
  get_elem?, set, count, pop_last, lookup, insert, without, IsDict, length-set,
  lt-length_of_get_elem?, count-append_one, count-pop_last, lookup-without_self, without-IsDict,
  insert-IsDict, append_one-IsDict, Option-cases, inl, inr, arith,
}
use llm_inference_stack.Paged.{Block}
use llm_inference_stack.Paged.Cells.{
  ref_at, hash_at, targets, HashesMatch, ref_at-set, ref_at-some, hash_at-some, HashesMatch-set_ne,
  HashesMatch-set_same, HashesMatch-without, HashesMatch-insert, HashesMatch-append_one,
  hash_of_lookup, count-targets-without, count-targets-insert_new, count-targets-insert_old,
  count-targets-append_one,
}

pub record Pool (n : ℕ) (on : Bool) (bs : List Block) (free : List ℕ) (cache : List (String × ℕ))
    (held : List ℕ) : Type 0 where
  pub size : length bs ≡ n
  -- a reference count is the number of times that live tables name the block
  pub refs : (i : ℕ) → ref_at bs i ≡ count i held
  -- a block is on the free list once, or in the prefix cache once, or in neither
  pub once : (i : ℕ) → count i free + count i (targets cache) ≤ 1
  -- no live table names a free block
  pub idle : (i : ℕ) → 0 < count i free → count i held ≡ 0
  pub range : (i : ℕ) → 0 < count i free + count i (targets cache) → i < n
  -- the prefix cache names blocks that hold the hash
  pub hashes : HashesMatch bs cache
  pub keys : IsDict cache
  pub off : on ≡ false → cache ≡ []

-- A block that nobody names: the state between taking a block and using it.
pub record IsSpare (n : ℕ) (free : List ℕ) (cache : List (String × ℕ)) (held : List ℕ) (j : ℕ)
    : Type 0 where
  pub in_pool : j < n
  pub unheld : count j held ≡ 0
  pub unlisted : count j free + count j (targets cache) ≡ 0

module _ {n : ℕ} {on : Bool} {bs : List Block} {free : List ℕ} {cache : List (String × ℕ)}
    {held : List ℕ} (p : Pool n on bs free cache held) where
  -- Only the numbers of occurrences among the live tables count.
  pub recount-Pool :
      (held' : List ℕ) → ((i : ℕ) → count i held ≡ count i held') → Pool n on bs free cache held'
  recount-Pool held' same = record {
    size = p.size;
    refs = λ i. omega (arith, p.refs i, same i);
    once = p.once;
    idle = λ i h. omega (arith, p.idle i h, same i);
    range = p.range;
    hashes = p.hashes;
    keys = p.keys;
    off = p.off;
  }

  -- `_evict_one`: the entry goes and its block is free.
  module _ (h : String) (j : ℕ) (b : Block) (found : lookup h cache ≡ some j)
      (at : get_elem? bs j ≡ some b) (unused : b.ref_count ≡ 0) where
    pub evict-Pool :
        Pool n on
          (set bs j (record b { content_hash = none }))
          (free ++ j ∷ [])
          (without h cache)
          held
    unfolding lookup
    evict-Pool =
        let l = lt-length_of_get_elem? bs j at in
        record {
          size = rw (length-set bs j (record b { content_hash = none })) p.size;
          refs = λ i. ground (
            arith,
            ref_at-set bs j (record b { content_hash = none }) i l,
            ref_at-some bs j b at,
            p.refs i,
          );
          once = λ i.
              ground (
                arith,
                count-append_one i free j,
                count-targets-without h i cache j found,
                p.once i,
              );
          idle = λ i.
              ground (arith, count-append_one i free j, p.idle i, p.refs i, ref_at-some bs j b at);
          range = λ i. ground (
            arith,
            count-append_one i free j,
            count-targets-without h i cache j found,
            p.range i,
          );
          hashes =
              HashesMatch-set_ne bs j _ (without h cache) l
                (ground (arith, count-targets-without h j cache j found, p.once j))
                (HashesMatch-without bs h cache p.hashes);
          keys = without-IsDict h cache p.keys;
          off = λ e. ground (arith, p.off e);
        }

  -- `free_ids.pop()` and the reset of the block: it is spare.
  module _ (rest : List ℕ) (j : ℕ) (popped : pop_last free ≡ some (rest, j)) where
    pub popped-IsSpare : IsSpare n rest cache held j
    popped-IsSpare = record {
      in_pool = ground (arith, count-pop_last j free rest j popped, p.range j);
      unheld = ground (arith, count-pop_last j free rest j popped, p.idle j);
      unlisted = ground (arith, count-pop_last j free rest j popped, p.once j);
    }

    pub pop-Pool : (b : Block) → b.ref_count ≡ 0 → Pool n on (set bs j b) rest cache held
    pop-Pool b zero_refs =
        let l : j < length bs = rw p.size popped-IsSpare.in_pool in
        record {
          size = rw (length-set bs j b) p.size;
          refs = λ i. ground (arith, ref_at-set bs j b i l, p.refs i, popped-IsSpare.unheld);
          once = λ i. ground (arith, count-pop_last i free rest j popped, p.once i);
          idle = λ i. ground (arith, count-pop_last i free rest j popped, p.idle i);
          range = λ i. ground (arith, count-pop_last i free rest j popped, p.range i);
          hashes =
              HashesMatch-set_ne bs j b cache l (omega (arith, popped-IsSpare.unlisted)) p.hashes;
          keys = p.keys;
          off = p.off;
        }

  -- A spare block is given to a table.
  pub claim-Pool :
      (j : ℕ) (b : Block)
      → IsSpare n free cache held j
      → b.ref_count ≡ 1
      → Pool n on (set bs j b) free cache (j ∷ held)
  unfolding count
  claim-Pool j b s one =
      let l : j < length bs = rw p.size s.in_pool in
      record {
        size = rw (length-set bs j b) p.size;
        refs = λ i. ground (arith, ref_at-set bs j b i l, p.refs i, s.unheld);
        once = p.once;
        idle = λ i. ground (arith, p.idle i, s.unlisted);
        range = p.range;
        hashes = HashesMatch-set_ne bs j b cache l (omega (arith, s.unlisted)) p.hashes;
        keys = p.keys;
        off = p.off;
      }

  -- A write that keeps the reference count and the hash.
  pub touch-Pool :
      (j : ℕ) (b b' : Block)
      → get_elem? bs j ≡ some b
      → b'.ref_count ≡ b.ref_count
      → b'.content_hash ≡ b.content_hash
      → Pool n on (set bs j b') free cache held
  touch-Pool j b b' at same_refs same =
      let l = lt-length_of_get_elem? bs j at in
      record {
        size = rw (length-set bs j b') p.size;
        refs = λ i. ground (arith, ref_at-set bs j b' i l, ref_at-some bs j b at, p.refs i);
        once = p.once;
        idle = p.idle;
        range = p.range;
        hashes =
            HashesMatch-set_same bs j b' cache l (ground (arith, hash_at-some bs j b at)) p.hashes;
        keys = p.keys;
        off = p.off;
      }

  -- A block with a hash enters the prefix cache, in place of an older one with the hash.
  pub insert-Pool :
      (h : String) (j : ℕ)
      → on ≡ true
      → j < n
      → hash_at bs j ≡ some h
      → count j free + count j (targets cache) ≡ 0
      → Pool n on bs free (insert h j cache) held
  insert-Pool h j enabled l e z = record {
    size = p.size;
    refs = p.refs;
    once = λ i. elim (Option-cases (lookup h cache)) [
      | inl new ↦ ground (arith, count-targets-insert_new h i cache j new, p.once i)
      | inr (o, old) ↦ ground (arith, count-targets-insert_old h i cache j o old, p.once i)
    ];
    idle = p.idle;
    range = λ i. elim (Option-cases (lookup h cache)) [
      | inl new ↦ ground (arith, count-targets-insert_new h i cache j new, p.range i)
      | inr (o, old) ↦ ground (arith, count-targets-insert_old h i cache j o old, p.range i)
    ];
    hashes = HashesMatch-insert bs h j cache e p.hashes;
    keys = insert-IsDict h j cache p.keys;
    off = λ e. cc;
  }

  -- A hit: one more reference, and the entry is the most recent.
  module _ (h : String) (j : ℕ) (b b' : Block) (found : lookup h cache ≡ some j)
      (at : get_elem? bs j ≡ some b) where
    pub not_free_of_target : count j free ≡ 0
    not_free_of_target = ground (arith, count-targets-without h j cache j found, p.once j)

    pub hit-Pool :
        b'.ref_count ≡ b.ref_count + 1
        → b'.content_hash ≡ b.content_hash
        → Pool n on (set bs j b') free (without h cache ++ (h, j) ∷ []) (j ∷ held)
    unfolding count lookup
    hit-Pool more same =
        let l = lt-length_of_get_elem? bs j at in
        record {
          size = rw (length-set bs j b') p.size;
          refs = λ i. ground (arith, ref_at-set bs j b' i l, ref_at-some bs j b at, p.refs i);
          once = λ i. ground (
            arith,
            count-targets-without h i cache j found,
            count-targets-append_one h i (without h cache) j,
            p.once i,
          );
          idle = λ i. ground (arith, p.idle i, not_free_of_target);
          range = λ i. ground (
            arith,
            count-targets-without h i cache j found,
            count-targets-append_one h i (without h cache) j,
            p.range i,
          );
          hashes =
              HashesMatch-set_same bs j b' (without h cache ++ (h, j) ∷ []) l
                (ground (arith, hash_at-some bs j b at))
                (HashesMatch-append_one bs h j (without h cache)
                  (hash_of_lookup bs h cache j p.hashes found)
                  (HashesMatch-without bs h cache p.hashes));
          keys =
              append_one-IsDict h j (without h cache) (lookup-without_self h cache p.keys)
                (without-IsDict h cache p.keys);
          off = λ e. ground (arith, p.off e);
        }

module _ {n : ℕ} {on : Bool} {bs : List Block} {free : List ℕ} {cache : List (String × ℕ)}
    {held : List ℕ} {j : ℕ} (p : Pool n on bs free cache (j ∷ held)) (b b' : Block)
    (at : get_elem? bs j ≡ some b) where
  unlisted_of_held : count j free ≡ 0
  unfolding count
  unlisted_of_held = ground (arith, p.idle j)

  -- A table gives up one of its references, and the block is not free.
  pub drop-Pool :
      b'.ref_count ≡ b.ref_count - 1
      → b'.content_hash ≡ b.content_hash
      → Pool n on (set bs j b') free cache held
  unfolding count
  drop-Pool less same =
      let l = lt-length_of_get_elem? bs j at in
      record {
        size = rw (length-set bs j b') p.size;
        refs = λ i. ground (arith, ref_at-set bs j b' i l, ref_at-some bs j b at, p.refs i);
        once = p.once;
        idle = λ i. ground (arith, p.idle i);
        range = p.range;
        hashes =
            HashesMatch-set_same bs j b' cache l (ground (arith, hash_at-some bs j b at)) p.hashes;
        keys = p.keys;
        off = p.off;
      }

  -- The last reference to a block that is not in the prefix cache: it is free again.
  pub free-Pool :
      b.ref_count ≤ 1
      → count j (targets cache) ≡ 0
      → b'.ref_count ≡ 0
      → Pool n on (set bs j b') (free ++ j ∷ []) cache held
  unfolding count
  free-Pool last unlisted none_left =
      let l = lt-length_of_get_elem? bs j at in
      record {
        size = rw (length-set bs j b') p.size;
        refs = λ i. ground (arith, ref_at-set bs j b' i l, ref_at-some bs j b at, p.refs i);
        once = λ i. ground (arith, count-append_one i free j, p.once i, unlisted_of_held);
        idle = λ i.
            ground (arith, count-append_one i free j, p.idle i, p.refs j, ref_at-some bs j b at);
        range = λ i. ground (arith, count-append_one i free j, p.range i, p.size);
        hashes = HashesMatch-set_ne bs j b' cache l unlisted p.hashes;
        keys = p.keys;
        off = p.off;
      }
