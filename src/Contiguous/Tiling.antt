-- ===== src/Contiguous/Tiling.antt =====
-- The slots tile the memory, and no two free ones touch.
use llm_inference_stack.Prelude.{
  ℕ, ◌+◌, ◌<◌, ◌≡◌, refl, ap, sym, ◌∙◌, String, Bool, true, false, ◌&&◌, none, List, [], ◌∷◌, inl,
  inr, Bool-cases, if_true, if_false, arith, ◌==◌,
}
use llm_inference_stack.Contiguous.{
  Slot, is_free, is_owned, disown, insert_slot, sort_slots, merge_slots,
}

-- The slots cover exactly what lies from `at` to `end`, one after the other, and none is empty.
unfoldable pub IsTiling : ℕ → ℕ → List Slot → Type 0
IsTiling at end [] = at ≡ end
IsTiling at end (s ∷ slots) = (s.start ≡ at) × (0 < s.size) × IsTiling (at + s.size) end slots

-- A free slot is not followed by a free one.
unfoldable pub IsMerged : List Slot → Type 0
IsMerged [] = Unit
IsMerged (s ∷ []) = Unit
IsMerged (s ∷ t ∷ slots) = ((is_free s && is_free t) ≡ false) × IsMerged (t ∷ slots)

pub disown-IsTiling :
    (seq_id : String) (at end : ℕ) (slots : List Slot)
    → IsTiling at end slots
    → IsTiling at end (disown seq_id slots)
unfolding disown IsTiling
disown-IsTiling seq_id at end [] t = t
disown-IsTiling seq_id at end (s ∷ slots) (b, p, t) = elim (Bool-cases (is_owned seq_id s)) [
  | inl h ↦ rw (if_true _ _ h) (b, p, disown-IsTiling seq_id (at + s.size) end slots t)
  | inr h ↦ rw (if_false _ _ h) (b, p, disown-IsTiling seq_id (at + s.size) end slots t)
]

insert_slot-IsTiling :
    (s : Slot) (slots : List Slot) (at end : ℕ)
    → IsTiling at end (s ∷ slots)
    → insert_slot s slots ≡ s ∷ slots
unfolding insert_slot IsTiling
insert_slot-IsTiling s [] at end t = refl
insert_slot-IsTiling s (u ∷ slots) at end (b, p, (b', p', t)) = ground arith

-- A tiling is in order.
pub sort_slots-IsTiling :
    (slots : List Slot) (at end : ℕ) → IsTiling at end slots → sort_slots slots ≡ slots
unfolding sort_slots IsTiling
sort_slots-IsTiling [] at end t = refl
sort_slots-IsTiling (s ∷ slots) at end (b, p, t) =
    ap (insert_slot s) (sort_slots-IsTiling slots (at + s.size) end t)
    ∙ insert_slot-IsTiling s slots at end (b, p, t)

shift : (a b c : ℕ) → a + (b + c) ≡ a + b + c
shift a b c = omega arith

pub merge_slots-IsTiling :
    (last : Slot) (slots : List Slot) (at end : ℕ)
    → IsTiling at end (last ∷ slots)
    → IsTiling at end (merge_slots last slots)
unfolding merge_slots IsTiling
merge_slots-IsTiling last [] at end t = t
merge_slots-IsTiling last (s ∷ slots) at end (b, p, (b', p', t)) =
    elim (Bool-cases ((is_free last && is_free s) && (last.start + last.size == s.start))) [
      | inl h ↦ rw (if_true _ _ h) (
          merge_slots-IsTiling
            (record { start = last.start; size = last.size + s.size; owner = none }) slots at end
            (b, omega (arith, p), rw (shift at last.size s.size) t))
      | inr h ↦
          rw (if_false _ _ h) (b, p, merge_slots-IsTiling s slots (at + last.size) end (b', p', t))
    ]

-- What the first slot of a merge is: free exactly if the given one is.
merge_slots-head :
    (last : Slot) (slots : List Slot)
    → (t : Slot) × (rest : List Slot) × (merge_slots last slots ≡ t ∷ rest)
      × (is_free t ≡ is_free last)
unfolding merge_slots
merge_slots-head last [] = (last, [], refl, refl)
merge_slots-head last (s ∷ slots) =
    elim (Bool-cases ((is_free last && is_free s) && (last.start + last.size == s.start))) [
      | inl h ↦ rw (if_true _ _ h) (
          let (t, rest, e, f) =
            merge_slots-head
              (record { start = last.start; size = last.size + s.size; owner = none }) slots in
          (t, rest, e, f ∙ sym (both_true _ _ _ h)))
      | inr h ↦ rw (if_false _ _ h) (last, merge_slots s slots, refl, refl)
    ]
  where
    both_true : (a b c : Bool) → ((a && b) && c) ≡ true → a ≡ true
    both_true a b c h = ground arith

apart-IsMerged :
    (last : Slot) (xs : List Slot) (t : Slot) (rest : List Slot)
    → xs ≡ t ∷ rest
    → (is_free last && is_free t) ≡ false
    → IsMerged xs
    → IsMerged (last ∷ xs)
unfolding IsMerged
apart-IsMerged last xs t rest e f m = rw e (f, rw e at m)

not_both : (u v : Bool) (m n : ℕ) → ((u && v) && (m == n)) ≡ false → n ≡ m → (u && v) ≡ false
not_both u v m n h e = ground arith

pub merge_slots-IsMerged :
    (last : Slot) (slots : List Slot) (at end : ℕ)
    → IsTiling at end (last ∷ slots)
    → IsMerged (merge_slots last slots)
unfolding merge_slots IsTiling IsMerged
merge_slots-IsMerged last [] at end t = tt
merge_slots-IsMerged last (s ∷ slots) at end (b, p, (b', p', t)) =
    elim (Bool-cases ((is_free last && is_free s) && (last.start + last.size == s.start))) [
      | inl h ↦ rw (if_true _ _ h) (
          merge_slots-IsMerged
            (record { start = last.start; size = last.size + s.size; owner = none }) slots at end
            (b, omega (arith, p), rw (shift at last.size s.size) t))
      | inr h ↦ rw (if_false _ _ h) (
          let (first, rest, e, f) = merge_slots-head s slots in
          apart-IsMerged last (merge_slots s slots) first rest e
            (ap (λ c. is_free last && c) f
              ∙ not_both (is_free last) (is_free s) (last.start + last.size) s.start h
                  (omega (arith, b, b')))
            (merge_slots-IsMerged s slots (at + last.size) end (b', p', t)))
    ]
