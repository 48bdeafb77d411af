-- ===== src/Metrics/Percentile.antt =====
-- `percentile` of packages/llmkit/llmkit/metrics.py by the nearest rank. The values come with their order;
-- p is a whole number of percent. `none` is NaN. The rank `math.ceil(p / 100.0 * len(xs))`, a product of
-- floats, is the parameter `ceil_product`.
use llm_inference_stack.Prelude.{
  ℕ, ◌-◌, max, min, Bool, Option, List, length, get_elem?, sort_by, sort_from, ◌==◌, if◌then◌else◌,
}

unfoldable pub percentile : {A : Type 0} → (ℕ → ℕ → ℕ) → (A → A → Bool) → List A → ℕ → Option A
unfolding sort_from
percentile ceil_product before values p =
    let xs = sort_by before values in
    if length xs == 1
    then get_elem? xs 0
    else get_elem? xs (max 1 (ceil_product (min p 100) (length xs)) - 1)
