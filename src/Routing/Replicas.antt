-- ===== src/Routing/Replicas.antt =====
-- `Replica`, `RoundRobinRouter`, `LeastLoadedRouter` and `ConsistentHashRing.lookup` of
-- packages/llmkit/llmkit/routing.py. Weights are in units of 1e-6, so that the least weight of the sort
-- key is 1; shares are compared crosswise. Of the prefixes only the keys count here.
use llm_inference_stack.Prelude.{
  is_among, ℕ, zero, suc, ◌+◌, ◌*◌, ◌%◌, max, String, Bool, ◌&&◌, ◌||◌, Option, none, some, List,
  [], ◌∷◌, ◌++◌, length, get_elem?, leb, ltb, ◌==◌, if◌then◌else◌,
}

pub record Replica : Type 0 where
  pub name : String
  pub weight : ℕ
  pub healthy : Bool
  pub inflight : ℕ
  pub queued_tokens : ℕ
  pub open_until : ℕ
  pub prefix_keys : List String

unfoldable pub available_replicas : ℕ → List Replica → List Replica
available_replicas now [] = []
available_replicas now (r ∷ rs) =
    let rest = available_replicas now rs in
    if r.healthy && leb r.open_until now then r ∷ rest else rest

unfoldable pub turn_of : ℕ → List Replica → Option Replica × ℕ
turn_of turn [] = (none, turn)
turn_of turn (r ∷ rs) = (get_elem? (r ∷ rs) (turn % length (r ∷ rs)), turn + 1)

-- The counter's value is `turn`.
unfoldable pub round_robin : ℕ → ℕ → List Replica → Option Replica × ℕ
unfolding available_replicas turn_of
round_robin now turn replicas = turn_of turn (available_replicas now replicas)

-- `min(..., key=...)`: the first of the least, with the order of the keys.
unfoldable pub least : (Replica → Replica → Bool) → Replica → List Replica → Replica
least less best [] = best
least less best (r ∷ rs) = least less (if less r best then r else best) rs

-- The order of the least loaded.
unfoldable pub is_lighter : Replica → Replica → Bool
is_lighter a b =
    let x = a.inflight * max b.weight 1 in
    let y = b.inflight * max a.weight 1 in
    ltb x y || ((x == y) && ltb a.queued_tokens b.queued_tokens)

unfoldable pub least_loaded : ℕ → List Replica → Option Replica
unfolding available_replicas least is_lighter
least_loaded now replicas = elim (available_replicas now replicas) [
  | [] ↦ none
  | r ∷ rs ↦ some (least is_lighter r rs)
]

-- `bisect.bisect`: how many keys of a sorted ring are at most `h`.
unfoldable pub bisect : ℕ → List (ℕ × String) → ℕ
bisect h [] = 0
bisect h ((k, name) ∷ ring) = let rest = bisect h ring in if leb k h then rest + 1 else 0

-- The loop of `lookup`, with the rounds that are left; `break` ends it.
unfoldable pub walk : List (ℕ × String) → ℕ → ℕ → ℕ → List String → List String
unfolding is_among
walk ring n zero at out = out
walk ring n (suc rounds) at out = elim (get_elem? ring (at % length ring)) [
  | none ↦ out
  | some (k, name) ↦
      let skipped = walk ring n rounds (at + 1) out in
      let taken = walk ring n rounds (at + 1) (out ++ name ∷ []) in
      if is_among name out
      then skipped
      else (if leb n (length out + 1) then out ++ name ∷ [] else taken)
]

unfoldable pub lookup_ring : (String → ℕ) → List (ℕ × String) → String → ℕ → List String
unfolding bisect walk
lookup_ring hash [] key n = []
lookup_ring hash (slot ∷ ring) key n =
    walk (slot ∷ ring) n (length (slot ∷ ring))
      (bisect (hash key) (slot ∷ ring) % length (slot ∷ ring)) []
