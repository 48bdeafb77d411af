-- ===== src/Paged/Start.antt =====
-- The constructor of `PagedKVCache` (packages/llmkit/llmkit/simulator/paged.py) gives a valid pool.
use llm_inference_stack.Prelude.{
  ℕ, zero, suc, ◌+◌, ◌≡◌, refl, Bool, ◌&&◌, [], length, replicate, count, length-replicate, arith,
  ltb, leb, if◌then◌else◌,
}
use llm_inference_stack.Paged.{new_block, init, range_from}
use llm_inference_stack.Paged.Cells.{ref_at, targets}
use llm_inference_stack.Paged.Take.{IsValid}

count-range_from :
    (i n first : ℕ)
    → count i (range_from n first) ≡ (if leb first i && ltb i (first + n) then 1 else 0)
unfolding count range_from
count-range_from i zero first = ground arith
count-range_from i (suc n) first = ground (arith, count-range_from i n (first + 1))

pub length-range_from : (n first : ℕ) → length (range_from n first) ≡ n
unfolding range_from
length-range_from zero first = refl
length-range_from (suc n) first = omega (arith, length-range_from n (first + 1))

ref_at-replicate : (n i : ℕ) → ref_at (replicate n new_block) i ≡ 0
unfolding ref_at
ref_at-replicate zero i = refl
ref_at-replicate (suc n) zero = refl
ref_at-replicate (suc n) (suc i) = ref_at-replicate n i

-- A new cache is valid with no live table, and all of its blocks are free.
pub init-IsValid :
    (n size : ℕ) (on : Bool) (scaled : ℕ)
    → IsValid (init n size on scaled) [] × (length (init n size on scaled).free_ids ≡ n)
unfolding init count targets
init-IsValid n size on scaled = (
  record {
    size = length-replicate n new_block;
    refs = ref_at-replicate n;
    once = λ i. ground (arith, count-range_from i n 0);
    idle = λ i h. refl;
    range = λ i. ground (arith, count-range_from i n 0);
    hashes = tt;
    keys = tt;
    off = λ e. refl;
  },
  length-range_from n 0,
)
