-- ===== src/Metrics/Ranked.antt =====
-- What `percentile` gives is the percentile of the sample by its definition.
use llm_inference_stack.Prelude.{
  ℕ, zero, suc, ◌+◌, ◌-◌, ◌*◌, ◌≤◌, ◌<◌, ◌≡◌, ◌∙◌, refl, max, min, Bool, true, false, some, List,
  [], ◌∷◌, length, get_elem?, get_elem?-in_range, sort_by, All, IsAscending, sort_by-IsAscending,
  length-sort_by, tally, tally-sort_by, ltb, leb, arith, ◌==◌, inl, inr, Bool-cases, if_true,
  if_false,
}
use mathlib.Core.Path.{subst}
use mathlib.Core.Option.{some-injective}
use llm_inference_stack.Metrics.Percentile.{percentile}

abbrev pub at_most : ℕ → ℕ → Bool
at_most v y = leb y v

abbrev pub below : ℕ → ℕ → Bool
below v y = ltb y v

-- A value that at least p percent of the values do not exceed, and at most p percent lie below.
pub record IsPercentile (values : List ℕ) (p v : ℕ) : Type 0 where
  pub reached : p * length values ≤ 100 * tally (at_most v) values
  pub least : 100 * tally (below v) values ≤ p * length values
  pub occurs : tally (below v) values < tally (at_most v) values

none_below : (a : ℕ) (xs : List ℕ) → All (λ y. a ≤ y) xs → tally (below a) xs ≡ 0
unfolding tally
none_below a [] h = refl
none_below a (x ∷ xs) (l, h) = ground (arith, none_below a xs h)

get_elem?-le :
    (a v : ℕ) (xs : List ℕ) (i : ℕ) → All (λ y. a ≤ y) xs → get_elem? xs i ≡ some v → a ≤ v
get_elem?-le a v [] i h e = cc
get_elem?-le a v (x ∷ xs) zero (l, h) e = ground arith
get_elem?-le a v (x ∷ xs) (suc i) (l, h) e = get_elem?-le a v xs i h e

first_rank :
    (x : ℕ) (xs : List ℕ)
    → All (λ y. x ≤ y) xs
    → (0 < tally (at_most x) (x ∷ xs)) × (tally (below x) (x ∷ xs) ≤ 0)
unfolding tally
first_rank x xs h = (ground arith, ground (arith, none_below x xs h))

at_rank :
    (xs : List ℕ) (i v : ℕ)
    → IsAscending (λ y. y) xs
    → get_elem? xs i ≡ some v
    → (i < tally (at_most v) xs) × (tally (below v) xs ≤ i)
unfolding tally
at_rank [] i v a e = cc
at_rank (x ∷ xs) zero v (h, a) e =
    subst (λ u. (0 < tally (at_most u) (x ∷ xs)) × (tally (below u) (x ∷ xs) ≤ 0))
      (some-injective x v e) (first_rank x xs h)
at_rank (x ∷ xs) (suc i) v (h, a) e =
    let (b, c) = at_rank xs i v a e in
    let l = get_elem?-le x v xs i h e in (ground arith, ground arith)

before_yes : (x y : ℕ) → ltb x y ≡ true → x ≤ y
before_yes x y h = ground arith

before_no : (x y : ℕ) → ltb x y ≡ false → y ≤ x
before_no x y h = ground arith

-- What the float product and `math.ceil` give for samples of any real size: the rounding of
-- the product takes the rank at most one above the exact fraction, never below it, nor beyond n.
pub record IsCeiling (ceil_product : ℕ → ℕ → ℕ) (p n : ℕ) : Type 0 where
  pub enough : p * n ≤ 100 * ceil_product p n
  pub near : 100 * ceil_product p n ≤ p * n + 100
  pub in_range : ceil_product p n ≤ n

-- The position that `percentile` reads, as a number of values before it.
abbrev IsRank : ℕ → ℕ → ℕ → Type 0
IsRank p n i = (i < n) × (p * n ≤ 100 * (i + 1)) × (100 * i ≤ p * n)

IsRank-single : (p : ℕ) → p ≤ 100 → IsRank p 1 0
IsRank-single p l = (omega arith, omega arith, omega arith)

IsRank-ceil :
    (ceil_product : ℕ → ℕ → ℕ) (p n : ℕ)
    → 0 < n
    → IsCeiling ceil_product p n
    → IsRank p n (max 1 (ceil_product p n) - 1)
IsRank-ceil ceil_product p n h c =
    (omega (arith, c.in_range), omega (arith, c.enough), omega (arith, c.near))

-- The value at a position of the sorted sample.
at_rank-IsPercentile :
    (values : List ℕ) (p i v : ℕ)
    → IsRank p (length values) i
    → get_elem? (sort_by ltb values) i ≡ some v
    → IsPercentile values p v
at_rank-IsPercentile values p i v (l, enough, near) e =
    let xs = sort_by ltb values in
    let (b, c) = at_rank xs i v (sort_by-IsAscending (λ y. y) ltb before_yes before_no values) e in
    record {
      reached = omega (arith, b, enough, tally-sort_by (at_most v) ltb values);
      least = omega (arith, c, near, tally-sort_by (below v) ltb values);
      occurs =
          omega
            (arith, b, c, tally-sort_by (at_most v) ltb values, tally-sort_by (below v) ltb values);
    }

module _ (ceil_product : ℕ → ℕ → ℕ) (values : List ℕ) (p : ℕ) where
  -- The position that is read for a sample of this size.
  percentile-get_elem? :
      0 < length values
      → p ≤ 100
      → IsCeiling ceil_product p (length values)
      → (i : ℕ) × IsRank p (length values) i
        × (percentile ceil_product ltb values p ≡ get_elem? (sort_by ltb values) i)
  unfolding percentile
  percentile-get_elem? n l c =
      let k = length-sort_by (λ y. y) ltb before_yes before_no values in
      let q : min p 100 ≡ p = omega arith in
      rw (k, q)
        (elim (Bool-cases (length values == 1)) [
          | inl one ↦ (0, single (length values) one l, if_true _ _ one)
          | inr many ↦ (
            max 1 (ceil_product p (length values)) - 1,
            IsRank-ceil ceil_product p (length values) n c,
            if_false _ _ many,
          )
        ])
    where
      single : (n : ℕ) → (n == 1) ≡ true → p ≤ 100 → IsRank p n 0
      single n e l = let same : n ≡ 1 = ground arith in rw same (IsRank-single p l)

  -- For a sample that is not empty, a percent p of at most 100 and a ceiling of the float product
  -- that is at least the exact fraction, at most one above it and within the sample, percentile
  -- gives a value of the sample that at least p percent of the sample do not exceed and at most p
  -- percent lie below.
  pub percentile-IsPercentile :
      0 < length values
      → p ≤ 100
      → IsCeiling ceil_product p (length values)
      → (v : ℕ) × (percentile ceil_product ltb values p ≡ some v) × IsPercentile values p v
  percentile-IsPercentile n l c =
      let k = length-sort_by (λ y. y) ltb before_yes before_no values in
      let (i, r, e) = percentile-get_elem? n l c in
      let (v, at) = get_elem?-in_range (sort_by ltb values) i (omega (arith, k, r.0)) in
      (v, e ∙ at, at_rank-IsPercentile values p i v r at)
