-- ===== src/Gateway/Backends.antt =====
-- `Backend` and `DegradationChain` of packages/llmkit/llmkit/gateway.py. Weights are in units of 1e-9,
-- so that the least weight of the sort key is 1; shares are compared crosswise. The average of
-- latencies is the parameter `blend`. Addresses, models and prices do not take part in the choice.
use llm_inference_stack.Prelude.{
  is_among, ℕ, ◌+◌, ◌*◌, max, String, Bool, not, ◌&&◌, ◌||◌, Option, none, some, List, [], ◌∷◌,
  ◌++◌, leb, ltb, ◌==◌, if◌then◌else◌,
}

pub data Tier : Type 0 where
  primary secondary cheaper_model cached refuse : Tier

pub record Backend : Type 0 where
  pub name : String
  pub tier : Tier
  pub weight : ℕ
  pub ttft_slo : ℕ
  pub max_concurrent : ℕ
  pub inflight : ℕ
  pub total : ℕ
  pub errors : ℕ
  pub consecutive_errors : ℕ
  pub probe_failures : ℕ
  pub open_until : ℕ
  pub ewma_ttft : ℕ

unfoldable pub available : ℕ → Backend → Bool
available now b = leb b.open_until now && ltb b.inflight b.max_concurrent

unfoldable pub observe_success : (ℕ → ℕ → ℕ) → Option ℕ → Backend → Backend
observe_success blend none b = record b { consecutive_errors = 0 }
observe_success blend (some ttft) b = record b {
  consecutive_errors = 0;
  ewma_ttft = if b.ewma_ttft == 0 then ttft else blend ttft b.ewma_ttft;
}

unfoldable pub observe_error : ℕ → ℕ → ℕ → Backend → Backend
observe_error threshold open_time now b = record b {
  errors = b.errors + 1;
  consecutive_errors = b.consecutive_errors + 1;
  open_until = if leb threshold (b.consecutive_errors + 1) then now + open_time else b.open_until;
}

unfoldable pub meeting_slo : Backend → Bool
meeting_slo b = (b.ewma_ttft == 0) || leb b.ewma_ttft b.ttft_slo

abbrev pub tier_order : List Tier
tier_order = Tier.primary ∷ Tier.secondary ∷ Tier.cheaper_model ∷ Tier.cached ∷ Tier.refuse ∷ []

-- The place in the order, by which tiers are compared.
abbrev pub rank : Tier → ℕ
rank Tier.primary = 0
rank Tier.secondary = 1
rank Tier.cheaper_model = 2
rank Tier.cached = 3
rank Tier.refuse = 4

-- `[b for b in backends if test(b)]`
unfoldable pub keep : (Backend → Bool) → List Backend → List Backend
keep test [] = []
keep test (b ∷ bs) = let rest = keep test bs in if test b then b ∷ rest else rest

-- The key of the sort.
unfoldable pub comes_before : Backend → Backend → Bool
comes_before a b =
    let x = a.inflight * max b.weight 1 in
    let y = b.inflight * max a.weight 1 in ltb x y || ((x == y) && ltb a.ewma_ttft b.ewma_ttft)

unfoldable pub insert_backend : Backend → List Backend → List Backend
unfolding comes_before
insert_backend x [] = x ∷ []
insert_backend x (y ∷ ys) = if comes_before x y then x ∷ y ∷ ys else y ∷ insert_backend x ys

unfoldable pub sort_backends : List Backend → List Backend → List Backend
unfolding insert_backend
sort_backends done [] = done
sort_backends done (x ∷ xs) = sort_backends (insert_backend x done) xs

-- `meeting or tier_backends`
abbrev pub or_else : List Backend → List Backend → List Backend
or_else [] others = others
or_else (b ∷ bs) others = b ∷ bs

module _ (now : ℕ) (exclude : List String) (require_slo : Bool) (backends : List Backend) where
  unfoldable pub tier_backends : Tier → List Backend
  unfolding available meeting_slo is_among keep
  tier_backends tier =
      let bs =
        keep (λ b. (rank b.tier == rank tier) && (not (is_among b.name exclude) && available now b))
          backends in
      if require_slo then or_else (keep meeting_slo bs) bs else bs

  unfoldable pub candidates_of : List Tier → List Backend
  unfolding tier_backends sort_backends
  candidates_of [] = []
  candidates_of (tier ∷ tiers) = sort_backends [] (tier_backends tier) ++ candidates_of tiers

  unfoldable pub candidates : List Backend
  unfolding candidates_of
  candidates = candidates_of tier_order
