-- ===== src/Autoscale/Counts.antt =====
-- How the parts of a tick of `simulate` change the numbers of replicas that serve and that start.
use llm_inference_stack.Prelude.{
  ℕ, zero, suc, ◌+◌, ◌-◌, ◌≤◌, ◌≡◌, refl, min, Bool, true, false, ◌&&◌, List, [], ◌∷◌, All, tally,
  inl, inr, Bool-cases, if_true, if_false, leb, leb→le, ltb→lt, ltb→ge, ltb, if◌then◌else◌, arith,
}
use llm_inference_stack.Autoscale.{Phase, ReplicaState, is_ready, is_starting}
use llm_inference_stack.Autoscale.Simulate.{
  serves, starts, serving, starting, launch, drain_after, next_phase, place, advance_replicas,
}

-- A ready replica became ready by now.
abbrev pub IsSettled : ℕ → ReplicaState → Type 0
IsSettled t r = is_ready r.state ≡ true → r.ready_at ≤ t

-- The replicas that serve or start.
abbrev pub alive : ℕ → List ReplicaState → ℕ
alive t rs = serving t rs + starting rs

pub launch-counts :
    (cold_start : ℕ → ℕ) (t n next : ℕ)
    → (serving t (launch cold_start t n next) ≡ 0)
      × (starting (launch cold_start t n next) ≡ n)
      × All (IsSettled t) (launch cold_start t n next)
unfolding launch tally
launch-counts cold_start t zero next = (refl, refl, tt)
launch-counts cold_start t (suc n) next =
    let (a, b, c) = launch-counts cold_start t n (next + 1) in
    (omega (arith, a), omega (arith, b), ((λ h. cc), c))

not_starting : (p : Phase) (b : Bool) → (is_ready p && b) ≡ true → is_starting p ≡ false
not_starting Phase.starting b h = cc
not_starting Phase.ready b h = refl
not_starting Phase.draining b h = refl
not_starting Phase.gone b h = refl

-- What a replica counts for.
abbrev units : Bool → ℕ
units b = if b then 1 else 0

serves_one :
    (t : ℕ) (r : ReplicaState)
    → serves t r ≡ true
    → (units (serves t r) ≡ 1) × (units (starts r) ≡ 0)
serves_one t r h = (rw h refl, rw (not_starting r.state _ h) refl)

serves_not : (t : ℕ) (r : ReplicaState) → serves t r ≡ false → units (serves t r) ≡ 0
serves_not t r h = rw h refl

module _ (until t keep : ℕ) (r : ReplicaState) (rs : List ReplicaState) where
  drain_after-keep :
      serves t r ≡ true
      → ltb 0 keep ≡ true
      → drain_after until t keep (r ∷ rs) ≡ r ∷ drain_after until t (keep - 1) rs
  unfolding drain_after
  drain_after-keep h k = rw (if_true _ _ h) (if_true _ _ k)

  drain_after-drop :
      serves t r ≡ true
      → ltb 0 keep ≡ false
      → drain_after until t keep (r ∷ rs)
        ≡ record r { state = Phase.draining; drain_until = until } ∷ drain_after until t keep rs
  unfolding drain_after
  drain_after-drop h k = rw (if_true _ _ h) (if_false _ _ k)

  drain_after-pass :
      serves t r ≡ false → drain_after until t keep (r ∷ rs) ≡ r ∷ drain_after until t keep rs
  unfolding drain_after
  drain_after-pass h = if_false _ _ h

drain_after-nil :
    (until t keep : ℕ)
    → (serving t (drain_after until t keep []) ≡ min keep (serving t []))
      × (starting (drain_after until t keep []) ≡ starting [])
unfolding drain_after tally
drain_after-nil until t keep = (omega arith, refl)

pub drain_after-counts :
    (until t keep : ℕ) (rs : List ReplicaState)
    → (serving t (drain_after until t keep rs) ≡ min keep (serving t rs))
      × (starting (drain_after until t keep rs) ≡ starting rs)
unfolding tally
drain_after-counts until t keep [] = drain_after-nil until t keep
drain_after-counts until t keep (r ∷ rs) =
    let (a, b) = drain_after-counts until t (keep - 1) rs in
    let (c, d) = drain_after-counts until t keep rs in
    elim (Bool-cases (serves t r)) [
      | inl h ↦
          let (n, z) = serves_one t r h in
          elim (Bool-cases (ltb 0 keep)) [
            | inl k ↦
                rw (drain_after-keep until t keep r rs h k)
                  (omega (arith, a, n, ltb→lt _ _ k), omega (arith, b))
            | inr k ↦
                rw (drain_after-drop until t keep r rs h k)
                  (omega (arith, c, ltb→ge _ _ k), omega (arith, d, z))
          ]
      | inr h ↦
          rw (drain_after-pass until t keep r rs h)
            (omega (arith, c, serves_not t r h), omega (arith, d))
    ]

drain_after-IsSettled_nil : (until t keep u : ℕ) → All (IsSettled u) (drain_after until t keep [])
unfolding drain_after
drain_after-IsSettled_nil until t keep u = tt

pub drain_after-IsSettled :
    (until t keep u : ℕ) (rs : List ReplicaState)
    → All (IsSettled u) rs
    → All (IsSettled u) (drain_after until t keep rs)
drain_after-IsSettled until t keep u [] a = drain_after-IsSettled_nil until t keep u
drain_after-IsSettled until t keep u (r ∷ rs) (h, a) = elim (Bool-cases (serves t r)) [
  | inl e ↦ elim (Bool-cases (ltb 0 keep)) [
    | inl k ↦
        rw (drain_after-keep until t keep r rs e k)
          (h, drain_after-IsSettled until t (keep - 1) u rs a)
    | inr k ↦
        rw (drain_after-drop until t keep r rs e k)
          ((λ d. cc), drain_after-IsSettled until t keep u rs a)
  ]
  | inr e ↦ rw (drain_after-pass until t keep r rs e) (h, drain_after-IsSettled until t keep u rs a)
]

module _ (t u : ℕ) (l : t ≤ u) where
  place-counts :
      (p : Phase) (r : ReplicaState) (rest : List ReplicaState)
      → (is_ready p ≡ true → r.ready_at ≤ t)
      → (alive u (place r (next_phase t r.ready_at r.drain_until p) rest)
          ≡ (if is_ready p && leb r.ready_at t then 1 else 0)
            + (if is_starting p then 1 else 0)
            + alive u rest)
        × ((if is_ready p && leb r.ready_at t then 1 else 0) + serving u rest
            ≤ serving u (place r (next_phase t r.ready_at r.drain_until p) rest))
  unfolding next_phase place tally
  place-counts Phase.starting r rest h = ground arith
  place-counts Phase.ready r rest h = ground arith
  place-counts Phase.draining r rest h = ground arith
  place-counts Phase.gone r rest h = ground arith

  place-IsSettled :
      (p : Phase) (r : ReplicaState) (rest : List ReplicaState)
      → (is_ready p ≡ true → r.ready_at ≤ t)
      → All (IsSettled u) rest
      → All (IsSettled u) (place r (next_phase t r.ready_at r.drain_until p) rest)
  unfolding next_phase place
  place-IsSettled Phase.starting r rest h a = elim (Bool-cases (leb r.ready_at t)) [
    | inl e ↦ rw (if_true _ _ e, place) ((λ k. omega (arith, l, leb→le _ _ e)), a)
    | inr e ↦ rw (if_false _ _ e, place) ((λ k. cc), a)
  ]
  place-IsSettled Phase.ready r rest h a = ((λ k. omega (arith, l, h k)), a)
  place-IsSettled Phase.draining r rest h a = elim (Bool-cases (leb r.drain_until t)) [
    | inl e ↦ rw (if_true _ _ e, place) a
    | inr e ↦ rw (if_false _ _ e, place) ((λ k. cc), a)
  ]
  place-IsSettled Phase.gone r rest h a = a

  pub advance_replicas-counts :
      (rs : List ReplicaState)
      → All (IsSettled t) rs
      → (alive u (advance_replicas t rs) ≡ alive t rs)
        × (serving t rs ≤ serving u (advance_replicas t rs))
        × All (IsSettled u) (advance_replicas t rs)
  unfolding advance_replicas tally
  advance_replicas-counts [] a = (refl, omega arith, tt)
  advance_replicas-counts (r ∷ rs) (h, a) =
      let (b, c, d) = advance_replicas-counts rs a in
      let (e, f) = place-counts r.state r (advance_replicas t rs) h in
      (
        omega (arith, b, e),
        omega (arith, c, f),
        place-IsSettled r.state r (advance_replicas t rs) h d,
      )
