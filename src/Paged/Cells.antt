-- ===== src/Paged/Cells.antt =====
-- What the invariant of the pool reads: the reference count and the hash at a position, and the
-- positions that the prefix cache names.
use llm_inference_stack.Prelude.{
  ℕ, ◌+◌, ◌<◌, ◌≡◌, refl, String, Option, none, some, List, [], ◌∷◌, ◌++◌, All, length, get_elem?,
  set, count, lookup, insert, without, get_elem?-set, arith, ◌==◌, if◌then◌else◌, eq_iff,
}
use llm_inference_stack.Paged.{Block}

unfoldable pub ref_at : List Block → ℕ → ℕ
ref_at bs i = elim (get_elem? bs i) [ none ↦ 0 | some b ↦ b.ref_count ]

unfoldable pub hash_at : List Block → ℕ → Option String
hash_at bs i = elim (get_elem? bs i) [ none ↦ none | some b ↦ b.content_hash ]

unfoldable pub targets : List (String × ℕ) → List ℕ
targets [] = []
targets ((h, bid) ∷ items) = bid ∷ targets items

abbrev pub HashesMatch : List Block → List (String × ℕ) → Type 0
HashesMatch bs = All (λ e. hash_at bs e.1 ≡ some e.0)

module _ (bs : List Block) (j : ℕ) (b : Block) (i : ℕ) where
  pub ref_at-set :
      j < length bs → ref_at (set bs j b) i ≡ (if j == i then b.ref_count else ref_at bs i)
  unfolding ref_at
  ref_at-set h = ground (arith, get_elem?-set bs j b i)

  pub hash_at-set :
      j < length bs → hash_at (set bs j b) i ≡ (if j == i then b.content_hash else hash_at bs i)
  unfolding hash_at
  hash_at-set h = ground (arith, get_elem?-set bs j b i)

pub ref_at-some :
    (bs : List Block) (j : ℕ) (b : Block) → get_elem? bs j ≡ some b → ref_at bs j ≡ b.ref_count
unfolding ref_at
ref_at-some bs j b h = ground arith

pub hash_at-some :
    (bs : List Block) (j : ℕ) (b : Block) → get_elem? bs j ≡ some b → hash_at bs j ≡ b.content_hash
unfolding hash_at
hash_at-some bs j b h = ground arith

-- Entries about other positions are not touched by a write.
pub HashesMatch-set_ne :
    (bs : List Block) (j : ℕ) (b : Block) (cache : List (String × ℕ))
    → j < length bs
    → count j (targets cache) ≡ 0
    → HashesMatch bs cache
    → HashesMatch (set bs j b) cache
unfolding targets count
HashesMatch-set_ne bs j b [] l z h = tt
HashesMatch-set_ne bs j b ((k, i) ∷ cache) l z h =
    ground (arith, hash_at-set bs j b i, HashesMatch-set_ne bs j b cache)

-- A write that keeps the hash keeps all entries.
pub HashesMatch-set_same :
    (bs : List Block) (j : ℕ) (b : Block) (cache : List (String × ℕ))
    → j < length bs
    → hash_at bs j ≡ b.content_hash
    → HashesMatch bs cache
    → HashesMatch (set bs j b) cache
HashesMatch-set_same bs j b [] l z h = tt
HashesMatch-set_same bs j b ((k, i) ∷ cache) l z h =
    ground (arith, hash_at-set bs j b i, HashesMatch-set_same bs j b cache)

module _ (bs : List Block) (k : String) where
  pub HashesMatch-without :
      (cache : List (String × ℕ)) → HashesMatch bs cache → HashesMatch bs (without k cache)
  unfolding without
  HashesMatch-without [] h = tt
  HashesMatch-without ((i, w) ∷ cache) h = ground (arith, HashesMatch-without cache)

  pub HashesMatch-insert :
      (j : ℕ) (cache : List (String × ℕ))
      → hash_at bs j ≡ some k
      → HashesMatch bs cache
      → HashesMatch bs (insert k j cache)
  unfolding insert
  HashesMatch-insert j [] e h = (e, tt)
  HashesMatch-insert j ((i, w) ∷ cache) e h = ground (arith, HashesMatch-insert j cache)

  pub HashesMatch-append_one :
      (j : ℕ) (cache : List (String × ℕ))
      → hash_at bs j ≡ some k
      → HashesMatch bs cache
      → HashesMatch bs (cache ++ (k, j) ∷ [])
  HashesMatch-append_one j [] e h = (e, tt)
  HashesMatch-append_one j (x ∷ cache) e h = (h.0, HashesMatch-append_one j cache e h.1)

  pub hash_of_lookup :
      (cache : List (String × ℕ)) (j : ℕ)
      → HashesMatch bs cache
      → lookup k cache ≡ some j
      → hash_at bs j ≡ some k
  unfolding lookup
  hash_of_lookup [] j h e = cc
  hash_of_lookup ((i, w) ∷ cache) j h e = ground (arith, eq_iff i k, hash_of_lookup cache j)

module _ (k : String) (i : ℕ) where
  pub count-targets-without :
      (cache : List (String × ℕ)) (j : ℕ)
      → lookup k cache ≡ some j
      → count i (targets cache) ≡ count i (targets (without k cache)) + (if j == i then 1 else 0)
  unfolding lookup without targets count
  count-targets-without [] j e = cc
  count-targets-without ((h, w) ∷ cache) j e = ground (arith, count-targets-without cache j)

  pub count-targets-insert_new :
      (cache : List (String × ℕ)) (j : ℕ)
      → lookup k cache ≡ none
      → count i (targets (insert k j cache)) ≡ count i (targets cache) + (if j == i then 1 else 0)
  unfolding lookup insert targets count
  count-targets-insert_new [] j e = ground arith
  count-targets-insert_new ((h, w) ∷ cache) j e = ground (arith, count-targets-insert_new cache j)

  pub count-targets-insert_old :
      (cache : List (String × ℕ)) (j old : ℕ)
      → lookup k cache ≡ some old
      → count i (targets (insert k j cache)) + (if old == i then 1 else 0)
        ≡ count i (targets cache) + (if j == i then 1 else 0)
  unfolding lookup insert targets count
  count-targets-insert_old [] j old e = cc
  count-targets-insert_old ((h, w) ∷ cache) j old e =
      ground (arith, count-targets-insert_old cache j old)

  pub count-targets-append_one :
      (cache : List (String × ℕ)) (j : ℕ)
      → count i (targets (cache ++ (k, j) ∷ []))
        ≡ count i (targets cache) + (if j == i then 1 else 0)
  unfolding targets count
  count-targets-append_one [] j = ground arith
  count-targets-append_one ((h, w) ∷ cache) j = ground (arith, count-targets-append_one cache j)

-- A block with no hash is not in the prefix cache.
pub not_target_of_none :
    (bs : List Block) (j : ℕ) (cache : List (String × ℕ))
    → hash_at bs j ≡ none
    → HashesMatch bs cache
    → count j (targets cache) ≡ 0
unfolding targets count
not_target_of_none bs j [] e h = refl
not_target_of_none bs j ((k, i) ∷ cache) e h = ground (arith, not_target_of_none bs j cache)
