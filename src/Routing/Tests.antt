-- ===== src/Routing/Tests.antt =====
-- Runs of the routers, and their theorems at concrete inputs.
use llm_inference_stack.Prelude.{
  is_among, take, ℕ, ◌+◌, ◌*◌, insert_by, ◌≡◌, ◌⊎◌, refl, String, true, none, some, List, [], ◌∷◌,
  str_eq, if◌then◌else◌,
}
use llm_inference_stack.Routing.Ring.{rebuild, session_pick}
use llm_inference_stack.Routing.Moves.{take_out, lookup_ring-take_out}
use llm_inference_stack.Routing.Replicas.{
  Replica, available_replicas, turn_of, round_robin, least, is_lighter, least_loaded, bisect, walk,
  lookup_ring,
}
use llm_inference_stack.Routing.Affinity.{
  AffinityRouter, sum_inflight, within_ceiling, holders, by_name, known_holder, first_within,
  pick_near, pick_from, pick,
}
use llm_inference_stack.Routing.Choice.{Picked, pick-Picked}
use llm_inference_stack.Routing.Walk.{first_seen, clockwise, lookup_ring-clockwise}

program : Unit {0}
unfolding is_among available_replicas turn_of round_robin least is_lighter least_loaded bisect walk
    lookup_ring sum_inflight within_ceiling holders by_name known_holder first_within pick_near
    pick_from pick
program = tt

abbrev replica : String → ℕ → List String → Replica
replica name inflight keys = record {
  name = name;
  weight = 1_000_000;
  healthy = true;
  inflight = inflight;
  queued_tokens = 0;
  open_until = 0;
  prefix_keys = keys;
}

abbrev fleet : List Replica
fleet = replica "a" 9 ("chat" ∷ []) ∷ replica "b" 1 [] ∷ replica "c" 2 [] ∷ []

abbrev ring : List (ℕ × String)
ring = (10, "a") ∷ (20, "c") ∷ (30, "a") ∷ (40, "b") ∷ []

abbrev router : AffinityRouter
router = record {
  ring = ring;
  overload_num = 5;
  overload_den = 4;
  probe = 2;
  honour_known_prefixes = true;
  stats = record { affinity_hits = 0; overload_deflections = 0; no_key = 0; known_prefix_hits = 0 };
}

abbrev hash : String → ℕ
hash key = if str_eq key "chat" then 25 else 45

-- "a" holds the prefix and is the first of the ring, but has too much to do; the probe ends at "b".
walk_run : lookup_ring hash ring "chat" 2 ≡ "a" ∷ "b" ∷ []
unfolding program
walk_run = refl

pick_run : (pick hash 0 fleet (some "chat") router).0 ≡ some (replica "b" 1 [])
unfolding program
pick_run = refl

pick-Picked_example :
    ((available_replicas 0 fleet ≡ []) × (pick hash 0 fleet (some "chat") router ≡ (none, router)))
    ⊎ ((q lightest : Replica) × (router' : AffinityRouter) × (least_loaded 0 fleet ≡ some lightest)
        × (pick hash 0 fleet (some "chat") router ≡ (some q, router'))
        × Picked router (available_replicas 0 fleet) lightest q router')
pick-Picked_example = pick-Picked hash router 0 fleet (some "chat")

lookup_ring-clockwise_example :
    lookup_ring hash ring "chat" 2 ≡ take 2 (first_seen [] (clockwise (hash "chat") ring))
lookup_ring-clockwise_example = lookup_ring-clockwise hash ring "chat" 2

-- The ring of the fleet, with three virtual nodes each.
abbrev node_hash : String → ℕ → ℕ
node_hash name i = (if str_eq name "a" then 3 else if str_eq name "b" then 5 else 7) + 10 * i

abbrev fleet_ring : List (ℕ × String)
fleet_ring = rebuild node_hash 3 fleet

session_run :
    session_pick
      (λ k. 14)
      0
      fleet
      (some "chat")
      (record { ring = fleet_ring; overload_num = 3; overload_den = 2 })
    ≡ some (replica "b" 1 [])
unfolding program session_pick rebuild insert_by
session_run = refl

-- A key between the nodes of "a" and "b" stays with "b" when "c" is taken out.
lookup_ring-take_out_example : lookup_ring (λ k. 14) (take_out "c" fleet_ring) "chat" 1 ≡ "b" ∷ []
unfolding program rebuild insert_by
lookup_ring-take_out_example = lookup_ring-take_out (λ k. 14) fleet_ring "chat" "c" "b" refl refl
