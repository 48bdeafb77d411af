-- ===== src/Routing/Affinity.antt =====
-- `PrefixAffinityRouter.pick` of packages/llmkit/llmkit/routing.py. The overload factor is the fraction
-- `overload_num / overload_den`; a comparison with the ceiling is multiplied by the denominators.
use llm_inference_stack.Prelude.{
  is_among, ℕ, ◌+◌, ◌*◌, max, String, Bool, ◌&&◌, Option, none, some, List, [], ◌∷◌, length, str_eq,
  leb, ltb, if◌then◌else◌,
}
use llm_inference_stack.Routing.Replicas.{
  Replica, available_replicas, least, is_lighter, lookup_ring,
}

pub record AffinityStats : Type 0 where
  pub affinity_hits : ℕ
  pub overload_deflections : ℕ
  pub no_key : ℕ
  pub known_prefix_hits : ℕ

pub record AffinityRouter : Type 0 where
  pub ring : List (ℕ × String)
  pub overload_num : ℕ
  pub overload_den : ℕ
  pub probe : ℕ
  pub honour_known_prefixes : Bool
  pub stats : AffinityStats

unfoldable pub sum_inflight : List Replica → ℕ
sum_inflight [] = 0
sum_inflight (r ∷ rs) = r.inflight + sum_inflight rs

-- `r.inflight <= ceiling`
unfoldable pub within_ceiling : AffinityRouter → List Replica → Replica → Bool
unfolding sum_inflight
within_ceiling router av r =
    leb (r.inflight * (length av * router.overload_den))
      (max (router.overload_num * sum_inflight av) (length av * router.overload_den))

unfoldable pub holders : String → List Replica → List Replica
unfolding is_among
holders key [] = []
holders key (r ∷ rs) =
    let rest = holders key rs in if is_among key r.prefix_keys then r ∷ rest else rest

-- `by_name.get(name)`: of replicas with one name the dictionary keeps the last.
unfoldable pub by_name : String → List Replica → Option Replica
by_name name [] = none
by_name name (r ∷ rs) = elim (by_name name rs) [
  | some q ↦ some q
  | none ↦ if str_eq r.name name then some r else none
]

-- The branch of known prefixes: the holder with the fewest requests, within the ceiling.
unfoldable pub known_holder : AffinityRouter → List Replica → String → Option Replica
unfolding holders least within_ceiling
known_holder router av key = elim (holders key av) [
  | [] ↦ none
  | r ∷ rs ↦
      let best = least (λ a b. ltb a.inflight b.inflight) r rs in
      if router.honour_known_prefixes && within_ceiling router av best then some best else none
]

-- `for name in self.ring.lookup(...)`
unfoldable pub first_within : AffinityRouter → List Replica → List String → Option Replica
unfolding by_name within_ceiling
first_within router av [] = none
first_within router av (name ∷ names) =
    let rest = first_within router av names in
    elim (by_name name av) [
      | none ↦ rest
      | some r ↦ if within_ceiling router av r then some r else rest
    ]

-- The rest of `pick` when the least loaded is `lightest` and the key is not empty.
unfoldable pub pick_near :
    (String → ℕ)
    → List Replica
    → Replica
    → String
    → AffinityRouter
    → Option Replica × AffinityRouter
unfolding lookup_ring known_holder first_within
pick_near hash av lightest k router =
    let st = router.stats in
    elim (known_holder router av k) [
      | some q ↦ (
        some q,
        record router { stats = record st { known_prefix_hits = st.known_prefix_hits + 1 } },
      )
      | none ↦ elim (first_within router av (lookup_ring hash router.ring k router.probe)) [
        | some q ↦
            (some q, record router { stats = record st { affinity_hits = st.affinity_hits + 1 } })
        | none ↦ (
          some lightest,
          record router {
            stats = record st { overload_deflections = st.overload_deflections + 1 };
          },
        )
      ]
    ]

-- The choice among the available ones. A key is `none` when it is missing or empty. The clock does not
-- move within a call, so that those are available for `LeastLoadedRouter` too.
unfoldable pub pick_from :
    (String → ℕ) → List Replica → Option String → AffinityRouter → Option Replica × AffinityRouter
unfolding least is_lighter pick_near
pick_from hash [] key router = (none, router)
pick_from hash (r ∷ rs) none router =
    let st = router.stats in
    (some (least is_lighter r rs), record router { stats = record st { no_key = st.no_key + 1 } })
pick_from hash (r ∷ rs) (some k) router = pick_near hash (r ∷ rs) (least is_lighter r rs) k router

unfoldable pub pick :
    (String → ℕ)
    → ℕ
    → List Replica
    → Option String
    → AffinityRouter
    → Option Replica × AffinityRouter
unfolding available_replicas pick_from
pick hash now replicas key router = pick_from hash (available_replicas now replicas) key router
