-- ===== src/Gateway/Candidates.antt =====
-- `DegradationChain.candidates` of packages/llmkit/llmkit/gateway.py as a whole.
use llm_inference_stack.Prelude.{
  ℕ, ◌+◌, ◌≤◌, ◌≡◌, refl, ap, ◌∙◌, String, Bool, true, false, List, [], ◌∷◌, ◌++◌, All, if_false,
  arith, if◌then◌else◌,
}
use llm_inference_stack.Gateway.Backends.{
  Tier, Backend, meeting_slo, tier_order, rank, keep, sort_backends, or_else, tier_backends,
  candidates_of, candidates,
}
use llm_inference_stack.Gateway.Chain.{
  number, number-append, number-sort_backends, usable, in_tier, number_in, number-tiers, IsTiered,
  All-append, All-map, tier_backends-InTier,
}

-- Tiers in rising order, none below a rank.
unfoldable IsRising : ℕ → List Tier → Type 0
IsRising n [] = Unit
IsRising n (tier ∷ tiers) = (n ≤ rank tier) × IsRising (rank tier) tiers

append-IsTiered :
    (n : ℕ) (xs ys : List Backend)
    → All (λ b. rank b.tier ≡ n) xs
    → All (λ b. n ≤ rank b.tier) ys
    → IsTiered ys
    → IsTiered (xs ++ ys)
unfolding IsTiered
append-IsTiered n [] ys a b t = t
append-IsTiered n (x ∷ xs) ys (e, a) b t = (
  All-append _ xs ys (All-map _ _ xs (λ c h. omega (arith, h, e)) a)
      (All-map _ _ ys (λ c h. omega (arith, h, e)) b),
  append-IsTiered n xs ys a b t,
)

number_all : List Backend → ℕ
number_all bs = number (λ _. true) bs

or_else-empty : (xs ys : List Backend) → number_all (or_else xs ys) ≡ 0 → number_all ys ≡ 0
unfolding number number_all
or_else-empty [] ys h = h
or_else-empty (x ∷ xs) ys h = absurd (omega (arith, h))

empty_kept :
    (slo : Bool) (xs : List Backend)
    → number_all (sort_backends [] (if slo then or_else (keep meeting_slo xs) xs else xs)) ≡ 0
    → number_all xs ≡ 0
unfolding number_all number
empty_kept true xs h =
    or_else-empty (keep meeting_slo xs) xs
      (omega (arith, number-sort_backends (λ _. true) [] (or_else (keep meeting_slo xs) xs), h))
empty_kept false xs h = omega (arith, number-sort_backends (λ _. true) [] xs, h)

nil_of_number : (bs : List Backend) → number_all bs ≡ 0 → bs ≡ []
unfolding number number_all
nil_of_number [] h = refl
nil_of_number (b ∷ bs) h = absurd (omega (arith, h))

-- What is offered: only backends that may be used, tier after tier; without the latency filter each
-- of them as often as it is configured; and nothing only if none may be used.
pub record Offered (now : ℕ) (exclude : List String) (require_slo : Bool)
    (backends out : List Backend) : Type 0 where
  pub fit : All (λ b. usable now exclude b ≡ true) out
  pub tiered : IsTiered out
  pub complete :
      require_slo ≡ false
      → (p : Backend → Bool) → number p out ≡ number p (keep (usable now exclude) backends)
  pub nonempty : out ≡ [] → keep (usable now exclude) backends ≡ []

module _ (now : ℕ) (exclude : List String) (require_slo : Bool) (backends : List Backend) where
  offered : List Tier → List Backend
  offered tiers = candidates_of now exclude require_slo backends tiers

  offered-usable : (tiers : List Tier) → All (λ b. usable now exclude b ≡ true) (offered tiers)
  unfolding offered candidates_of
  offered-usable [] = tt
  offered-usable (tier ∷ tiers) =
      All-append _ (sort_backends [] (tier_backends now exclude require_slo backends tier)) _
        (All-map _ _ (sort_backends [] (tier_backends now exclude require_slo backends tier))
          (λ b h. h.1) (tier_backends-InTier now exclude require_slo backends tier))
        (offered-usable tiers)

  offered-IsTiered :
      (n : ℕ) (tiers : List Tier)
      → IsRising n tiers
      → All (λ b. n ≤ rank b.tier) (offered tiers) × IsTiered (offered tiers)
  unfolding offered candidates_of IsRising IsTiered
  offered-IsTiered n [] r = (tt, tt)
  offered-IsTiered n (tier ∷ tiers) (l, r) =
      let (above, tiered) = offered-IsTiered (rank tier) tiers r in
      let first = sort_backends [] (tier_backends now exclude require_slo backends tier) in
      let here =
        All-map _ (λ b. rank b.tier ≡ rank tier) first (λ b h. h.0)
          (tier_backends-InTier now exclude require_slo backends tier) in
      (
        All-append _ first _ (All-map _ _ first (λ b h. omega (arith, l, h)) here)
            (All-map _ _ (offered tiers) (λ b h. omega (arith, l, h)) above),
        append-IsTiered (rank tier) first (offered tiers) here above tiered,
      )

  number-tier_backends :
      (p : Backend → Bool) (tier : Tier)
      → require_slo ≡ false
      → number p (sort_backends [] (tier_backends now exclude require_slo backends tier))
        ≡ number_in now exclude p tier backends
  unfolding tier_backends in_tier usable number_in number
  number-tier_backends p tier h = number-sort_backends p [] _ ∙ rw (if_false _ _ h) (omega arith)

  tier_backends-empty :
      (tier : Tier)
      → number_all (sort_backends [] (tier_backends now exclude require_slo backends tier)) ≡ 0
      → number_in now exclude (λ _. true) tier backends ≡ 0
  unfolding tier_backends in_tier usable number_in number_all
  tier_backends-empty tier h = empty_kept require_slo (keep (in_tier now exclude tier) backends) h

  -- The five tiers, one after the other.
  number-offered :
      (p : Backend → Bool)
      → number p (offered tier_order)
        ≡ number p (sort_backends [] (tier_backends now exclude require_slo backends Tier.primary))
          + number p
              (sort_backends [] (tier_backends now exclude require_slo backends Tier.secondary))
          + number p
              (sort_backends [] (tier_backends now exclude require_slo backends Tier.cheaper_model))
          + number p (sort_backends [] (tier_backends now exclude require_slo backends Tier.cached))
          + number p (sort_backends [] (tier_backends now exclude require_slo backends Tier.refuse))
  unfolding offered candidates_of number
  number-offered p = omega (
    arith,
    number-append p (sort_backends [] (tier_backends now exclude require_slo backends Tier.primary))
        (offered (Tier.secondary ∷ Tier.cheaper_model ∷ Tier.cached ∷ Tier.refuse ∷ [])),
    number-append p
        (sort_backends [] (tier_backends now exclude require_slo backends Tier.secondary))
        (offered (Tier.cheaper_model ∷ Tier.cached ∷ Tier.refuse ∷ [])),
    number-append p
        (sort_backends [] (tier_backends now exclude require_slo backends Tier.cheaper_model))
        (offered (Tier.cached ∷ Tier.refuse ∷ [])),
    number-append p (sort_backends [] (tier_backends now exclude require_slo backends Tier.cached))
        (offered (Tier.refuse ∷ [])),
    number-append p (sort_backends [] (tier_backends now exclude require_slo backends Tier.refuse))
        [],
  )

  offered-empty : offered tier_order ≡ [] → keep (usable now exclude) backends ≡ []
  unfolding number_all number
  offered-empty h = nil_of_number _ (
      omega (
        arith,
        ap (number (λ _. true)) h,
        number-offered (λ _. true),
        number-tiers now exclude (λ _. true) backends,
        tier_backends-empty Tier.primary,
        tier_backends-empty Tier.secondary,
        tier_backends-empty Tier.cheaper_model,
        tier_backends-empty Tier.cached,
        tier_backends-empty Tier.refuse,
      ))

  -- For any backends, excluded names and time, each candidate is available and not excluded, the
  -- candidates come tier after tier in the order of tiers, without the latency filter every usable
  -- backend is among them exactly as often as it is configured, and with the filter or without it
  -- there is no candidate only if no backend is usable.
  pub candidates-Offered :
      Offered now exclude require_slo backends (candidates now exclude require_slo backends)
  unfolding candidates offered IsRising
  candidates-Offered = record {
    fit = offered-usable tier_order;
    tiered =
        (offered-IsTiered 0 tier_order
          (omega arith, (omega arith, (omega arith, (omega arith, (omega arith, tt)))))).1;
    complete = λ h p. omega (
      arith,
      number-offered p,
      number-tiers now exclude p backends,
      number-tier_backends p Tier.primary h,
      number-tier_backends p Tier.secondary h,
      number-tier_backends p Tier.cheaper_model h,
      number-tier_backends p Tier.cached h,
      number-tier_backends p Tier.refuse h,
    );
    nonempty = offered-empty;
  }
