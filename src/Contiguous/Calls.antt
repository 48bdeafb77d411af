-- ===== src/Contiguous/Calls.antt =====
-- What calls of `ContiguousAllocator` in packages/llmkit/llmkit/simulator/paged.py keep.
use llm_inference_stack.Prelude.{
  ℕ, ◌+◌, ◌-◌, ◌≤◌, ◌<◌, ◌≡◌, ◌⊎◌, refl, ap, sym, ◌∙◌, String, Bool, true, false, ◌&&◌, none, some,
  List, [], ◌∷◌, ◌++◌, inl, inr, Bool-cases, if_true, if_false, and_false, and_left, arith, leb→le,
  ltb→lt, leb, ltb,
}
use llm_inference_stack.Contiguous.{
  Slot, ContiguousAllocator, new_allocator, is_free, split_slot, first_fit, reserve, disown,
  sort_slots, merge_all, coalesce, unreserve,
}
use llm_inference_stack.Contiguous.Tiling.{
  IsTiling, IsMerged, disown-IsTiling, sort_slots-IsTiling, merge_slots-IsTiling,
  merge_slots-IsMerged,
}

-- The slots cover the memory, and free space is in as few slots as can be.
pub record IsTiled (a : ContiguousAllocator) : Type 0 where
  pub tiling : IsTiling 0 a.capacity a.slots
  pub merged : IsMerged a.slots
  pub positive : 0 < a.reserve_len

merge_all-keeps :
    (slots : List Slot) (end : ℕ)
    → IsTiling 0 end slots
    → IsTiling 0 end (merge_all slots) × IsMerged (merge_all slots)
unfolding merge_all IsMerged
merge_all-keeps [] end t = (t, tt)
merge_all-keeps (s ∷ slots) end t =
    (merge_slots-IsTiling s slots 0 end t, merge_slots-IsMerged s slots 0 end t)

unreserve-IsTiled :
    (seq_id : String) (a : ContiguousAllocator) → IsTiled a → IsTiled (unreserve seq_id a)
unfolding unreserve coalesce
unreserve-IsTiled seq_id a v =
    let t = disown-IsTiling seq_id 0 a.capacity a.slots v.tiling in
    let (tiling, merged) =
      merge_all-keeps (sort_slots (disown seq_id a.slots)) a.capacity
        (rw (sort_slots-IsTiling (disown seq_id a.slots) 0 a.capacity t) t) in
    record { tiling = tiling; merged = merged; positive = v.positive }

and_right : (a b : Bool) → (a && b) ≡ true → b ≡ true
and_right a b h = ground arith

-- One step of the loop of `allocate`.
pub fits :
    (need : ℕ) (s : Slot)
    → (is_free s && leb need s.size) ≡ true
    → (is_free s ≡ true) × (need ≤ s.size)
fits need s h = (
  and_left (is_free s) (leb need s.size) h,
  leb→le need s.size (and_right (is_free s) (leb need s.size) h),
)

split_slot-IsTiling :
    (need : ℕ) (seq_id : String) (s : Slot) (slots : List Slot) (at end : ℕ)
    → 0 < need
    → need ≤ s.size
    → IsTiling at end (s ∷ slots)
    → IsTiling at end (split_slot need seq_id s ++ slots)
unfolding split_slot IsTiling
split_slot-IsTiling need seq_id s slots at end p l (b, q, t) = elim (Bool-cases (ltb need s.size)) [
  | inl h ↦ rw (if_true _ _ h) (
    b,
    p,
    (omega (arith, b), omega (arith, ltb→lt need s.size h), rw (rejoin at need s.size l) t),
  )
  | inr h ↦ rw (if_false _ _ h) (b, p, rw (whole need s.size l h) t)
]
  where
    rejoin : (at need size : ℕ) → need ≤ size → at + need + (size - need) ≡ at + size
    rejoin at need size l = omega arith

    whole : (need size : ℕ) → need ≤ size → ltb need size ≡ false → need ≡ size
    whole need size l h = ground arith

-- A slot in front of free space, and one in front of the same space with its free slot split.
IsMerged-tail :
    (s t : Slot) (slots : List Slot)
    → is_free t ≡ is_free s
    → IsMerged (s ∷ slots)
    → IsMerged (t ∷ slots)
unfolding IsMerged
IsMerged-tail s t [] e m = tt
IsMerged-tail s t (u ∷ slots) e (f, m) = (ap (λ b. b && is_free u) e ∙ f, m)

split_slot-IsMerged :
    (need : ℕ) (seq_id : String) (s prev : Slot) (slots : List Slot)
    → is_free s ≡ true
    → IsMerged (s ∷ slots)
    → IsMerged (prev ∷ (split_slot need seq_id s ++ slots))
unfolding split_slot IsMerged
split_slot-IsMerged need seq_id s prev slots e m = elim (Bool-cases (ltb need s.size)) [
  | inl h ↦ rw (if_true _ _ h) (
    and_false (is_free prev) false refl,
    (
      refl,
      IsMerged-tail s (record { start = s.start + need; size = s.size - need; owner = none }) slots
          (sym e) m,
    ),
  )
  | inr h ↦ rw (if_false _ _ h) (and_false (is_free prev) false refl, owned slots m)
]
  where
    owned :
        (slots : List Slot)
        → IsMerged (s ∷ slots)
        → IsMerged (record { start = s.start; size = need; owner = some seq_id } ∷ slots)
    owned [] m = tt
    owned (u ∷ slots) (f, m) = (refl, m)

-- What a reservation makes of the slots; without one every free slot is too small.
pub record Fitted (need at end : ℕ) (slots : List Slot) (r : ℕ × List Slot) : Type 0 where
  pub tiling : IsTiling at end r.1
  pub merged : (prev : Slot) → IsMerged (prev ∷ slots) → IsMerged (prev ∷ r.1)
  pub inside : (at ≤ r.0) × (r.0 + need ≤ end)

unfoldable pub NoFit : ℕ → List Slot → Type 0
NoFit need [] = Unit
NoFit need (s ∷ slots) = ((is_free s && leb need s.size) ≡ false) × NoFit need slots

tiling-le : (at end : ℕ) (slots : List Slot) → IsTiling at end slots → at ≤ end
unfolding IsTiling
tiling-le at end [] t = omega (arith, t)
tiling-le at end (s ∷ slots) (b, p, t) = omega (arith, tiling-le (at + s.size) end slots t)

pub first_fit-Fitted :
    (need : ℕ) (seq_id : String) (slots : List Slot) (at end : ℕ)
    → 0 < need
    → IsTiling at end slots
    → ((first_fit need seq_id slots ≡ none) × NoFit need slots)
      ⊎ ((r : ℕ × List Slot) × (first_fit need seq_id slots ≡ some r) × Fitted need at end slots r)
unfolding first_fit IsTiling NoFit IsMerged
first_fit-Fitted need seq_id [] at end p t = inl (refl, tt)
first_fit-Fitted need seq_id (s ∷ slots) at end p (b, q, t) =
    elim (Bool-cases (is_free s && leb need s.size)) [
      | inl h ↦ rw (if_true _ _ h) (
          let (e, l) = fits need s h in
          inr (
            _,
            refl,
            record {
              tiling = split_slot-IsTiling need seq_id s slots at end p l (b, q, t);
              merged = λ prev m. split_slot-IsMerged need seq_id s prev slots e m.1;
              inside = (omega (arith, b), omega (arith, b, l, tiling-le (at + s.size) end slots t));
            },
          ))
      | inr h ↦
          rw (if_false _ _ h) (elim (first_fit-Fitted need seq_id slots (at + s.size) end p t) [
            | inl (n, small) ↦ rw (n, first_fit) (inl (refl, (h, small)))
            | inr (r, e, f) ↦
                rw (e, first_fit)
                  (inr (
                    _,
                    refl,
                    record {
                      tiling = (b, q, f.tiling);
                      merged = λ prev m. (m.0, f.merged s m.1);
                      inside = (omega (arith, f.inside.0), f.inside.1);
                    },
                  ))
          ])
    ]

pub untail : (prev : Slot) (slots : List Slot) → IsMerged (prev ∷ slots) → IsMerged slots
unfolding IsMerged
untail prev [] m = tt
untail prev (s ∷ slots) m = m.1

behind_owned :
    (slots : List Slot)
    → IsMerged slots
    → IsMerged (record { start = 0; size = 0; owner = some "" } ∷ slots)
unfolding IsMerged
behind_owned [] m = tt
behind_owned (s ∷ slots) m = (refl, m)

-- On an allocator whose slots cover the memory in this way, allocate either counts a rejection and
-- changes nothing else, when every free slot is smaller than the reservation, or gives a start from
-- which the reservation lies within the capacity, and the slots cover the memory in the same way.
pub reserve-IsTiled :
    (seq_id : String) (a : ContiguousAllocator)
    → IsTiled a
    → ((reserve seq_id a ≡ (none, record a { rejections = a.rejections + 1 }))
        × NoFit a.reserve_len a.slots)
      ⊎ ((start : ℕ) × (a' : ContiguousAllocator) × (reserve seq_id a ≡ (some start, a'))
          × IsTiled a'
          × (start + a.reserve_len ≤ a'.capacity))
unfolding reserve
reserve-IsTiled seq_id a v =
    elim (first_fit-Fitted a.reserve_len seq_id a.slots 0 a.capacity v.positive v.tiling) [
      | inl (n, small) ↦ rw (n, reserve) (inl (refl, small))
      | inr (r, e, f) ↦
          rw (e, reserve)
            (inr (
              r.0,
              record a { slots = r.1 },
              refl,
              record {
                tiling = f.tiling;
                merged = untail _ r.1 (f.merged _ (behind_owned a.slots v.merged));
                positive = v.positive;
              },
              f.inside.1,
            ))
    ]

pub data Call (a : ContiguousAllocator) : ContiguousAllocator → Type 0 where
  admit : (seq_id : String) → Call a (reserve seq_id a).1
  leave : (seq_id : String) → Call a (unreserve seq_id a)

pub data Reach (a : ContiguousAllocator) : ContiguousAllocator → Type 0 where
  here : Reach a a
  next : {b c : ContiguousAllocator} → Reach a b → Call b c → Reach a c

reserve-keeps :
    (seq_id : String) (a : ContiguousAllocator) → IsTiled a → IsTiled (reserve seq_id a).1
reserve-keeps seq_id a v = elim (reserve-IsTiled seq_id a v) [
  | inl (e, small) ↦ rw e (record { tiling = v.tiling; merged = v.merged; positive = v.positive })
  | inr (start, a', e, v', l) ↦ rw e v'
]

Call-IsTiled : {a b : ContiguousAllocator} → Call a b → IsTiled a → IsTiled b
Call-IsTiled {a} (Call.admit seq_id) v = reserve-keeps seq_id a v
Call-IsTiled {a} (Call.leave seq_id) v = unreserve-IsTiled seq_id a v

new_allocator-IsTiled :
    (capacity reserve_len : ℕ)
    → 0 < capacity
    → 0 < reserve_len
    → IsTiled (new_allocator capacity reserve_len)
unfolding IsTiling IsMerged
new_allocator-IsTiled capacity reserve_len h p = record {
  tiling = (refl, h, omega arith);
  merged = tt;
  positive = p;
}

-- From a new allocator with positive capacity and reservation, whatever is reserved and given back
-- in whatever order, the slots cover the memory exactly, one after the other and none empty, and no
-- free slot is followed by a free one.
pub Reach-IsTiled :
    (capacity reserve_len : ℕ) {a : ContiguousAllocator}
    → 0 < capacity
    → 0 < reserve_len
    → Reach (new_allocator capacity reserve_len) a
    → IsTiled a
Reach-IsTiled capacity reserve_len h p Reach.here = new_allocator-IsTiled capacity reserve_len h p
Reach-IsTiled capacity reserve_len h p (Reach.next r c) =
    Call-IsTiled c (Reach-IsTiled capacity reserve_len h p r)
