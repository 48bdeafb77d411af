-- ===== src/Routing/Choice.antt =====
-- What `PrefixAffinityRouter.pick` of packages/llmkit/llmkit/routing.py chooses.
use llm_inference_stack.Prelude.{
  is_among, ℕ, zero, suc, ◌+◌, ◌≡◌, ◌⊎◌, refl, String, Bool, true, false, ◌&&◌, Option, none, some,
  List, [], ◌∷◌, get_elem?, inl, inr, Bool-cases, List-cases, if_true, if_false, arith, str_eq, ltb,
  if◌then◌else◌,
}
use llm_inference_stack.Routing.Replicas.{
  Replica, available_replicas, least, is_lighter, least_loaded, lookup_ring,
}
use llm_inference_stack.Routing.Affinity.{
  AffinityRouter, within_ceiling, holders, by_name, known_holder, first_within, pick_near,
  pick_from, pick,
}

abbrev pub IsIn : Replica → List Replica → Type 0
IsIn q rs = (i : ℕ) × (get_elem? rs i ≡ some q)

there : (q r : Replica) (rs : List Replica) → IsIn q rs → IsIn q (r ∷ rs)
there q r rs (i, h) = (suc i, h)

least-IsIn :
    (less : Replica → Replica → Bool) (r : Replica) (rs : List Replica)
    → IsIn (least less r rs) (r ∷ rs)
unfolding least
least-IsIn less r [] = (0, refl)
least-IsIn less r (x ∷ rs) = elim (Bool-cases (less x r)) [
  | inl h ↦ rw (if_true _ _ h) (there _ r (x ∷ rs) (least-IsIn less x rs))
  | inr h ↦ rw (if_false _ _ h) (skip (least less r rs) r x rs (least-IsIn less r rs))
]
  where
    skip : (q r x : Replica) (rs : List Replica) → IsIn q (r ∷ rs) → IsIn q (r ∷ x ∷ rs)
    skip q r x rs (zero, h) = (0, h)
    skip q r x rs (suc i, h) = (suc (suc i), h)

holders-IsIn :
    (key : String) (rs : List Replica) (q : Replica) → IsIn q (holders key rs) → IsIn q rs
unfolding holders
holders-IsIn key [] q = λ h. h
holders-IsIn key (r ∷ rs) q = elim (Bool-cases (is_among key r.prefix_keys)) [
  | inl e ↦ rw (if_true _ _ e) (kept r rs (holders key rs) q (holders-IsIn key rs q))
  | inr e ↦ rw (if_false _ _ e) (λ h. there q r rs (holders-IsIn key rs q h))
]
  where
    kept :
        (r : Replica) (rs xs : List Replica) (q : Replica)
        → (IsIn q xs → IsIn q rs)
        → IsIn q (r ∷ xs)
        → IsIn q (r ∷ rs)
    kept r rs xs q f (zero, h) = (0, h)
    kept r rs xs q f (suc i, h) = there q r rs (f (i, h))

-- A choice by affinity: one of them, within the ceiling.
abbrev pub IsNear : AffinityRouter → List Replica → Replica → Type 0
IsNear router av q = IsIn q av × (within_ceiling router av q ≡ true)

-- A result is missing, or it is a replica with the property.
abbrev pub Found : (Replica → Type 0) → Option Replica → Type 0
Found P o = (o ≡ none) ⊎ ((q : Replica) × (o ≡ some q) × P q)

by_name-Found : (name : String) (rs : List Replica) → Found (λ q. IsIn q rs) (by_name name rs)
unfolding by_name
by_name-Found name [] = inl refl
by_name-Found name (r ∷ rs) = elim (by_name-Found name rs) [
  | inl n ↦ rw n (elim (Bool-cases (str_eq r.name name)) [
    | inl h ↦ rw (if_true _ _ h) (inr (r, refl, (0, refl)))
    | inr h ↦ rw (if_false _ _ h) (inl refl)
  ])
  | inr (q, f, m) ↦ rw f (inr (q, refl, there q r rs m))
]

module _ (router : AffinityRouter) (av : List Replica) where
  IsNear-if :
      (test : Bool) (q : Replica)
      → IsIn q av
      → Found (IsNear router av) (if test && within_ceiling router av q then some q else none)
  IsNear-if false q m = inl refl
  IsNear-if true q m = elim (Bool-cases (within_ceiling router av q)) [
    | inl h ↦ rw (if_true _ _ h) (inr (q, refl, (m, h)))
    | inr h ↦ rw (if_false _ _ h) (inl refl)
  ]

  known_holder-Found : (key : String) → Found (IsNear router av) (known_holder router av key)
  unfolding known_holder
  known_holder-Found key = go (holders key av) (holders-IsIn key av)
    where
      go :
          (xs : List Replica)
          → ((q : Replica) → IsIn q xs → IsIn q av)
          → Found (IsNear router av) (elim xs [
            | [] ↦ none
            | r ∷ rs ↦
                let best = least (λ a b. ltb a.inflight b.inflight) r rs in
                if router.honour_known_prefixes && within_ceiling router av best
                then some best
                else none
          ])
      go [] f = inl refl
      go (r ∷ rs) f =
          IsNear-if router.honour_known_prefixes (least (λ a b. ltb a.inflight b.inflight) r rs)
            (f _ (least-IsIn (λ a b. ltb a.inflight b.inflight) r rs))

  first_within-Found :
      (names : List String) → Found (IsNear router av) (first_within router av names)
  unfolding first_within
  first_within-Found [] = inl refl
  first_within-Found (name ∷ names) = elim (by_name-Found name av) [
    | inl n ↦ rw (n, first_within) (first_within-Found names)
    | inr (q, f, m) ↦
        rw (f, first_within)
          (elim (Bool-cases (within_ceiling router av q)) [
            | inl h ↦ rw (if_true _ _ h) (inr (q, refl, (m, h)))
            | inr h ↦ rw (if_false _ _ h) (first_within-Found names)
          ])
  ]

-- How often a router followed affinity, and how often it did not.
abbrev pub followed : AffinityRouter → ℕ
followed router = router.stats.affinity_hits + router.stats.known_prefix_hits

abbrev pub fell_back : AffinityRouter → ℕ
fell_back router = router.stats.no_key + router.stats.overload_deflections

-- The replica chosen among the available ones, and the counters after it.
pub record Picked (router : AffinityRouter) (av : List Replica) (lightest q : Replica)
    (router' : AffinityRouter) : Type 0 where
  pub member : IsIn q av
  pub why :
      ((within_ceiling router av q ≡ true)
        × (followed router' ≡ followed router + 1)
        × (fell_back router' ≡ fell_back router))
      ⊎ ((q ≡ lightest)
          × (followed router' ≡ followed router)
          × (fell_back router' ≡ fell_back router + 1))

module _ (hash : String → ℕ) (router : AffinityRouter) where
  pick_near-Picked :
      (r : Replica) (rs : List Replica) (key : String)
      → (q : Replica) × (router' : AffinityRouter) × (pick_near hash
            (r ∷ rs)
            (least is_lighter r rs)
            key
            router
          ≡ (some q, router'))
        × Picked router (r ∷ rs) (least is_lighter r rs) q router'
  unfolding pick_near
  pick_near-Picked r rs key = elim (known_holder-Found router (r ∷ rs) key) [
    | inr (q, f, (m, h)) ↦
        rw (f, pick_near)
          (q, _, refl, record { member = m; why = inl (h, omega arith, omega arith) })
    | inl n ↦
        rw (n, pick_near)
          (elim (first_within-Found router (r ∷ rs)
            (lookup_ring hash router.ring key router.probe)) [
              | inr (q, f, (m, h)) ↦
                  rw f (q, _, refl, record { member = m; why = inl (h, omega arith, omega arith) })
              | inl n' ↦ rw n' (
                _,
                _,
                refl,
                record {
                  member = least-IsIn is_lighter r rs;
                  why = inr (refl, omega arith, omega arith);
                },
              )
            ])
  ]

  pick_from-Picked :
      (r : Replica) (rs : List Replica) (key : Option String)
      → (q : Replica) × (router' : AffinityRouter) × (pick_from hash (r ∷ rs) key router
          ≡ (some q, router'))
        × Picked router (r ∷ rs) (least is_lighter r rs) q router'
  unfolding pick_from
  pick_from-Picked r rs none = (
    _,
    _,
    refl,
    record { member = least-IsIn is_lighter r rs; why = inr (refl, omega arith, omega arith) },
  )
  pick_from-Picked r rs (some key) = pick_near-Picked r rs key

  -- The pick by prefix affinity gives none, and changes no counter, only if no replica is
  -- available; otherwise it gives an available replica that is within the ceiling, and counts it
  -- once as affinity or known prefix, or the one that the least loaded router gives, and counts it
  -- once as deflection or missing key.
  pub pick-Picked :
      (now : ℕ) (replicas : List Replica) (key : Option String)
      → ((available_replicas now replicas ≡ [])
          × (pick hash now replicas key router ≡ (none, router)))
        ⊎ ((q lightest : Replica) × (router' : AffinityRouter) × (least_loaded now replicas
              ≡ some lightest)
            × (pick hash now replicas key router ≡ (some q, router'))
            × Picked router (available_replicas now replicas) lightest q router')
  unfolding pick pick_from least_loaded
  pick-Picked now replicas key = elim (List-cases (available_replicas now replicas)) [
    | inl n ↦ rw n (inl (refl, refl))
    | inr (r, rs, c) ↦
        rw (c, least_loaded)
          (let (q, router', run, p) = pick_from-Picked r rs key in
            inr (q, least is_lighter r rs, router', refl, run, p))
  ]
