-- ===== src/Gateway/Chain.antt =====
-- What `DegradationChain.candidates` of packages/llmkit/llmkit/gateway.py offers.
use llm_inference_stack.Prelude.{
  is_among, ℕ, ◌+◌, ◌≤◌, ◌≡◌, refl, String, Bool, true, false, not, ◌&&◌, List, [], ◌∷◌, ◌++◌, All,
  inl, inr, Bool-cases, if_true, if_false, arith, ◌==◌, if◌then◌else◌,
}
use llm_inference_stack.Gateway.Backends.{
  Tier, Backend, available, meeting_slo, rank, keep, comes_before, insert_backend, sort_backends,
  or_else, tier_backends,
}

-- How many backends of a list pass a test.
unfoldable pub number : (Backend → Bool) → List Backend → ℕ
number p [] = 0
number p (b ∷ bs) = (if p b then 1 else 0) + number p bs

pub number-append :
    (p : Backend → Bool) (xs ys : List Backend) → number p (xs ++ ys) ≡ number p xs + number p ys
unfolding number
number-append p [] ys = omega arith
number-append p (x ∷ xs) ys = omega (arith, number-append p xs ys)

number-insert_backend :
    (p : Backend → Bool) (x : Backend) (ys : List Backend)
    → number p (insert_backend x ys) ≡ number p (x ∷ ys)
unfolding number insert_backend
number-insert_backend p x [] = refl
number-insert_backend p x (y ∷ ys) = elim (Bool-cases (comes_before x y)) [
  | inl h ↦ rw (if_true _ _ h) refl
  | inr h ↦ rw (if_false _ _ h) (omega (arith, number-insert_backend p x ys))
]

pub number-sort_backends :
    (p : Backend → Bool) (done xs : List Backend)
    → number p (sort_backends done xs) ≡ number p done + number p xs
unfolding number sort_backends
number-sort_backends p done [] = omega arith
number-sort_backends p done (x ∷ xs) =
    omega (arith, number-sort_backends p (insert_backend x done) xs, number-insert_backend p x done)

number-keep :
    (p test : Backend → Bool) (b : Backend) (bs : List Backend)
    → number p (keep test (b ∷ bs)) ≡ (if test b && p b then 1 else 0) + number p (keep test bs)
unfolding number keep
number-keep p test b bs = elim (Bool-cases (test b)) [
  | inl h ↦ rw h refl
  | inr h ↦ rw h (omega arith)
]

-- Those that a request may go to.
unfoldable pub usable : ℕ → List String → Backend → Bool
usable now exclude b = not (is_among b.name exclude) && available now b

unfoldable pub in_tier : ℕ → List String → Tier → Backend → Bool
in_tier now exclude tier b = (rank b.tier == rank tier) && usable now exclude b

rank-le : (tier : Tier) → rank tier ≤ 4
rank-le Tier.primary = omega arith
rank-le Tier.secondary = omega arith
rank-le Tier.cheaper_model = omega arith
rank-le Tier.cached = omega arith
rank-le Tier.refuse = omega arith

-- A number at most 4 is one of five.
one_of_five :
    (n : ℕ) (u v : Bool)
    → n ≤ 4
    → (a₀ a₁ a₂ a₃ a₄ a : ℕ) → a₀ + a₁ + a₂ + a₃ + a₄ ≡ a
    → ((if ((n == 0) && u) && v then 1 else 0) + a₀)
        + ((if ((n == 1) && u) && v then 1 else 0) + a₁)
        + ((if ((n == 2) && u) && v then 1 else 0) + a₂)
        + ((if ((n == 3) && u) && v then 1 else 0) + a₃)
        + ((if ((n == 4) && u) && v then 1 else 0) + a₄)
      ≡ (if u && v then 1 else 0) + a
one_of_five n false v l a₀ a₁ a₂ a₃ a₄ a h = ground arith
one_of_five n true false l a₀ a₁ a₂ a₃ a₄ a h = ground arith
one_of_five n true true l a₀ a₁ a₂ a₃ a₄ a h = ground arith

module _ (now : ℕ) (exclude : List String) (p : Backend → Bool) where
  -- A backend stands in one of the five tiers.
  one_tier :
      (b : Backend) (a₀ a₁ a₂ a₃ a₄ a : ℕ)
      → a₀ + a₁ + a₂ + a₃ + a₄ ≡ a
      → ((if in_tier now exclude Tier.primary b && p b then 1 else 0) + a₀)
          + ((if in_tier now exclude Tier.secondary b && p b then 1 else 0) + a₁)
          + ((if in_tier now exclude Tier.cheaper_model b && p b then 1 else 0) + a₂)
          + ((if in_tier now exclude Tier.cached b && p b then 1 else 0) + a₃)
          + ((if in_tier now exclude Tier.refuse b && p b then 1 else 0) + a₄)
        ≡ (if usable now exclude b && p b then 1 else 0) + a
  unfolding in_tier
  one_tier b a₀ a₁ a₂ a₃ a₄ a h =
      one_of_five (rank b.tier) (usable now exclude b) (p b) (rank-le b.tier) a₀ a₁ a₂ a₃ a₄ a h

  unfoldable pub number_in : Tier → List Backend → ℕ
  number_in tier bs = number p (keep (in_tier now exclude tier) bs)

  number-no_tiers :
      number_in Tier.primary []
        + number_in Tier.secondary []
        + number_in Tier.cheaper_model []
        + number_in Tier.cached []
        + number_in Tier.refuse []
      ≡ number p (keep (usable now exclude) [])
  unfolding number keep number_in
  number-no_tiers = omega arith

  pub number-tiers :
      (bs : List Backend)
      → number_in Tier.primary bs
          + number_in Tier.secondary bs
          + number_in Tier.cheaper_model bs
          + number_in Tier.cached bs
          + number_in Tier.refuse bs
        ≡ number p (keep (usable now exclude) bs)
  unfolding number_in
  number-tiers [] = number-no_tiers
  number-tiers (b ∷ bs) = rw (number-keep p (in_tier now exclude Tier.primary) b bs) (
      rw (number-keep p (in_tier now exclude Tier.secondary) b bs) (
        rw (number-keep p (in_tier now exclude Tier.cheaper_model) b bs) (
          rw (number-keep p (in_tier now exclude Tier.cached) b bs) (
            rw (number-keep p (in_tier now exclude Tier.refuse) b bs) (
              rw (number-keep p (usable now exclude) b bs) (
                one_tier b (number_in Tier.primary bs) (number_in Tier.secondary bs)
                  (number_in Tier.cheaper_model bs) (number_in Tier.cached bs)
                  (number_in Tier.refuse bs) (number p (keep (usable now exclude) bs))
                  (number-tiers bs)))))))

-- The rank of a backend's tier never falls along the list.
unfoldable pub IsTiered : List Backend → Type 0
IsTiered [] = Unit
IsTiered (b ∷ bs) = All (λ c. rank b.tier ≤ rank c.tier) bs × IsTiered bs

pub All-append :
    (P : Backend → Type 0) (xs ys : List Backend) → All P xs → All P ys → All P (xs ++ ys)
All-append P [] ys a b = b
All-append P (x ∷ xs) ys (p, a) b = (p, All-append P xs ys a b)

All-insert_backend :
    (P : Backend → Type 0) (x : Backend) (ys : List Backend)
    → P x
    → All P ys
    → All P (insert_backend x ys)
unfolding insert_backend
All-insert_backend P x [] p a = (p, tt)
All-insert_backend P x (y ∷ ys) p (q, a) = elim (Bool-cases (comes_before x y)) [
  | inl h ↦ rw (if_true _ _ h) (p, (q, a))
  | inr h ↦ rw (if_false _ _ h) (q, All-insert_backend P x ys p a)
]

All-sort_backends :
    (P : Backend → Type 0) (done xs : List Backend)
    → All P done
    → All P xs
    → All P (sort_backends done xs)
unfolding sort_backends
All-sort_backends P done [] a b = a
All-sort_backends P done (x ∷ xs) a (p, b) =
    All-sort_backends P (insert_backend x done) xs (All-insert_backend P x done p a) b

All-keep :
    (P : Backend → Type 0) (test : Backend → Bool) (bs : List Backend)
    → All P bs
    → All P (keep test bs)
unfolding keep
All-keep P test [] a = tt
All-keep P test (b ∷ bs) (p, a) = elim (Bool-cases (test b)) [
  | inl h ↦ rw (if_true _ _ h) (p, All-keep P test bs a)
  | inr h ↦ rw (if_false _ _ h) (All-keep P test bs a)
]

keep-All : (test : Backend → Bool) (bs : List Backend) → All (λ b. test b ≡ true) (keep test bs)
unfolding keep
keep-All test [] = tt
keep-All test (b ∷ bs) = elim (Bool-cases (test b)) [
  | inl h ↦ rw (if_true _ _ h) (h, keep-All test bs)
  | inr h ↦ rw (if_false _ _ h) (keep-All test bs)
]

All-or_else :
    (P : Backend → Type 0) (xs ys : List Backend) → All P xs → All P ys → All P (or_else xs ys)
All-or_else P [] ys a b = b
All-or_else P (x ∷ xs) ys a b = a

pub All-map :
    (P Q : Backend → Type 0) (bs : List Backend) → ((b : Backend) → P b → Q b) → All P bs → All Q bs
All-map P Q [] f a = tt
All-map P Q (b ∷ bs) f (p, a) = (f b p, All-map P Q bs f a)

module _ (now : ℕ) (exclude : List String) (require_slo : Bool) (backends : List Backend) where
  -- A backend of one tier that may be used.
  abbrev pub InTier : Tier → Backend → Type 0
  InTier tier b = (rank b.tier ≡ rank tier) × (usable now exclude b ≡ true)

  in_tier-InTier : (tier : Tier) (b : Backend) → in_tier now exclude tier b ≡ true → InTier tier b
  unfolding in_tier
  in_tier-InTier tier b h = (ground arith, ground arith)

  pub tier_backends-InTier :
      (tier : Tier)
      → All (InTier tier) (sort_backends [] (tier_backends now exclude require_slo backends tier))
  unfolding tier_backends in_tier usable
  tier_backends-InTier tier =
      let kept =
        All-map _ (InTier tier) (keep (in_tier now exclude tier) backends) (in_tier-InTier tier)
          (keep-All (in_tier now exclude tier) backends) in
      All-sort_backends (InTier tier) [] _ tt (elim (Bool-cases require_slo) [
        | inl h ↦
            rw (if_true _ _ h) (All-or_else (InTier tier) _ _ (All-keep _ meeting_slo _ kept) kept)
        | inr h ↦ rw (if_false _ _ h) kept
      ])
