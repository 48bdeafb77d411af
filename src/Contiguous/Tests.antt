-- ===== src/Contiguous/Tests.antt =====
-- Runs of the contiguous allocator, and its theorems at concrete inputs.
use llm_inference_stack.Prelude.{ℕ, ◌+◌, ◌≤◌, ◌≡◌, ◌⊎◌, refl, none, some, [], ◌∷◌, map, arith}
use llm_inference_stack.Contiguous.{
  ContiguousAllocator, new_allocator, split_slot, first_fit, reserve, is_owned, disown, insert_slot,
  sort_slots, merge_slots, merge_all, coalesce, unreserve,
}
use llm_inference_stack.Contiguous.Undo.{unreserve-reserve}
use llm_inference_stack.Contiguous.Calls.{
  IsTiled, NoFit, Call, Reach, Reach-IsTiled, reserve-IsTiled,
}

program : Unit {0}
unfolding split_slot first_fit reserve is_owned disown insert_slot sort_slots merge_slots merge_all
    coalesce unreserve
program = tt

abbrev two : ContiguousAllocator
two = (reserve "b" (reserve "a" (new_allocator 10 4)).1).1

abbrev left : ContiguousAllocator
left = unreserve "b" two

-- What "b" leaves joins the rest of the memory.
left_run : map (λ s. s.size) left.slots ≡ 4 ∷ 6 ∷ []
unfolding program
left_run = refl

left-Reach : Reach (new_allocator 10 4) left
left-Reach =
    Reach.next (Reach.next (Reach.next Reach.here (Call.admit "a")) (Call.admit "b"))
      (Call.leave "b")

Reach-IsTiled_example : IsTiled left
Reach-IsTiled_example = Reach-IsTiled 10 4 (omega arith) (omega arith) left-Reach

reserve-IsTiled_example :
    ((reserve "c" left ≡ (none, record left { rejections = left.rejections + 1 }))
      × NoFit left.reserve_len left.slots)
    ⊎ ((start : ℕ) × (a' : ContiguousAllocator) × (reserve "c" left ≡ (some start, a'))
        × IsTiled a'
        × (start + left.reserve_len ≤ a'.capacity))
reserve-IsTiled_example = reserve-IsTiled "c" left Reach-IsTiled_example

unreserve-reserve_example : unreserve "c" (reserve "c" left).1 ≡ left
unfolding program
unreserve-reserve_example =
    unreserve-reserve "c" left (reserve "c" left).1 4
      (Reach-IsTiled 10 4 (omega arith) (omega arith) left-Reach) (refl, (refl, tt)) refl
