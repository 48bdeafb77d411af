-- ===== src/Routing/Ring.antt =====
-- `ConsistentHashRing.rebuild` and `SessionAffinityRouter` of packages/llmkit/llmkit/routing.py. The hash
-- of a virtual node, the text of a name and a number, is the parameter `node_hash`.
use llm_inference_stack.Prelude.{
  ℕ, zero, suc, ◌+◌, ◌*◌, ◌/◌, max, String, Bool, true, false, ◌&&◌, ◌||◌, Option, none, some, List,
  [], ◌∷◌, ◌++◌, length, ltb, leb, ◌==◌, if◌then◌else◌, sort_by, sort_from,
}
use Prim.Native.Nat.{Ordering}
use Prim.Native.String.{compare as compare_text}
use llm_inference_stack.Routing.Replicas.{
  Replica, available_replicas, least, is_lighter, lookup_ring,
}
use llm_inference_stack.Routing.Affinity.{sum_inflight, by_name}

-- The order of tuples of a key and a name.
abbrev pub slot_before : ℕ × String → ℕ × String → Bool
slot_before a b =
    ltb (a.0) (b.0)
    || ((a.0 == b.0) && elim (compare_text (a.1) (b.1)) [ Ordering.lt ↦ true | _ ↦ false ])

-- `for i in range(n)`
unfoldable pub nodes_from : (String → ℕ → ℕ) → String → ℕ → ℕ → List (ℕ × String)
nodes_from node_hash name zero i = []
nodes_from node_hash name (suc n) i = (node_hash name i, name) ∷ nodes_from node_hash name n (i + 1)

unfoldable pub all_nodes : (String → ℕ → ℕ) → ℕ → List Replica → List (ℕ × String)
unfolding nodes_from
all_nodes node_hash vnodes [] = []
all_nodes node_hash vnodes (r ∷ rs) =
    nodes_from node_hash r.name (max 1 (vnodes * r.weight / 1000000)) 0
    ++ all_nodes node_hash vnodes rs

unfoldable pub rebuild : (String → ℕ → ℕ) → ℕ → List Replica → List (ℕ × String)
unfolding all_nodes sort_from
rebuild node_hash vnodes replicas = sort_by slot_before (all_nodes node_hash vnodes replicas)

pub record SessionRouter : Type 0 where
  pub ring : List (ℕ × String)
  pub overload_num : ℕ
  pub overload_den : ℕ

abbrev pub under_ceiling : SessionRouter → List Replica → Replica → Bool
under_ceiling router av r =
    leb (r.inflight * (length av * router.overload_den))
      (max (router.overload_num * sum_inflight av) (length av * router.overload_den))

unfoldable pub session_choice : SessionRouter → List Replica → List String → Option Replica
unfolding by_name sum_inflight
session_choice router av [] = none
session_choice router av (name ∷ names) =
    let rest = session_choice router av names in
    elim (by_name name av) [
      | none ↦ rest
      | some r ↦ if under_ceiling router av r then some r else rest
    ]

-- The first within the ceiling, or the least loaded.
unfoldable pub session_from :
    (String → ℕ) → List Replica → Option String → SessionRouter → Option Replica
unfolding session_choice lookup_ring least is_lighter
session_from hash [] key router = none
session_from hash (r ∷ rs) none router = some (least is_lighter r rs)
session_from hash (r ∷ rs) (some k) router =
    elim (session_choice router (r ∷ rs) (lookup_ring hash router.ring k 3)) [
      | some q ↦ some q
      | none ↦ some (least is_lighter r rs)
    ]

unfoldable pub session_pick :
    (String → ℕ) → ℕ → List Replica → Option String → SessionRouter → Option Replica
unfolding available_replicas session_from
session_pick hash now replicas key router =
    session_from hash (available_replicas now replicas) key router
