-- ===== src/Contiguous/Undo.antt =====
-- A reservation that is given back leaves the memory as it was.
use llm_inference_stack.Prelude.{
  ℕ, ◌+◌, ◌-◌, ◌≤◌, ◌≡◌, refl, ap, sym, ◌∙◌, String, Bool, true, false, ◌&&◌, Option, none, some,
  List, [], ◌∷◌, ◌++◌, All, inl, inr, Bool-cases, Option-cases, if_true, if_false, arith, leb, ltb,
  ◌==◌, str_eq, eq_iff,
}
use mathlib.Core.Option.{some-injective, none-ne-some}
use llm_inference_stack.Contiguous.{
  Slot, ContiguousAllocator, is_free, split_slot, first_fit, reserve, is_owned, disown, merge_slots,
  merge_all, coalesce, unreserve,
}
use llm_inference_stack.Contiguous.Tiling.{IsMerged, disown-IsTiling, sort_slots-IsTiling}
use llm_inference_stack.Contiguous.Calls.{IsTiled, first_fit-Fitted, fits}

-- No slot has this owner.
abbrev pub IsFresh : String → List Slot → Type 0
IsFresh seq_id slots = All (λ s. is_owned seq_id s ≡ false) slots

disown_fresh :
    (seq_id : String) (slots : List Slot) → IsFresh seq_id slots → disown seq_id slots ≡ slots
unfolding disown
disown_fresh seq_id [] h = refl
disown_fresh seq_id (s ∷ slots) (h, k) =
    rw (if_false (record s { owner = none }) s h) (ap (◌∷◌ s) (disown_fresh seq_id slots k))

not_both : (a b : Bool) → a ≡ false → (a && b) ≡ false
not_both a b h = rw h refl

merge_nil : (s : Slot) → merge_slots s [] ≡ s ∷ []
unfolding merge_slots
merge_nil s = refl

same_place : (n : ℕ) → (n == n) ≡ true
same_place n = ground arith

no_rest : (need size : ℕ) → need ≤ size → ltb need size ≡ false → need ≡ size
no_rest need size l h = ground arith

merge_apart :
    (s t : Slot) (slots : List Slot)
    → (is_free s && is_free t) ≡ false
    → merge_slots s (t ∷ slots) ≡ s ∷ merge_slots t slots
unfolding merge_slots
merge_apart s t slots h =
    if_false _ _ (not_both (is_free s && is_free t) (s.start + s.size == t.start) h)

-- Nothing is joined in slots that are merged.
merge_merged :
    (s : Slot) (slots : List Slot) → IsMerged (s ∷ slots) → merge_slots s slots ≡ s ∷ slots
unfolding IsMerged
merge_merged s [] m = merge_nil s
merge_merged s (t ∷ slots) (f, m) = merge_apart s t slots f ∙ ap (◌∷◌ s) (merge_merged t slots m)

free_owner : (o : Option String) → elim o [ none ↦ true | some _ ↦ false ] ≡ true → o ≡ none
free_owner none h = refl
free_owner (some _) h = cc

rejoined :
    (s : Slot) (n : ℕ)
    → n ≡ s.size
    → is_free s ≡ true
    → ◌≡◌ {A = Slot} (record { start = s.start; size = n; owner = none }) s
rejoined s n p f =
    ap (λ k. record { start = s.start; size = k; owner = none }) p
    ∙ ap (λ o. record { start = s.start; size = s.size; owner = o }) (sym (free_owner s.owner f))

owns : (seq_id : String) → str_eq seq_id seq_id ≡ true
owns seq_id = ground (arith, eq_iff seq_id seq_id)

-- A slot that was split is joined again.
merge_split :
    (need : ℕ) (seq_id : String) (s : Slot) (slots : List Slot)
    → need ≤ s.size
    → is_free s ≡ true
    → IsFresh seq_id slots
    → IsMerged (s ∷ slots)
    → merge_all (disown seq_id (split_slot need seq_id s ++ slots)) ≡ s ∷ slots
unfolding split_slot disown is_owned merge_all merge_slots
merge_split need seq_id s slots l f h m = elim (Bool-cases (ltb need s.size)) [
  | inl e ↦
      rw (if_true _ _ e, if_true _ _ (owns seq_id), disown_fresh seq_id slots h)
        (if_true _ _ (same_place (s.start + need))
          ∙ ap (λ t. merge_slots t slots) (rejoined s (need + (s.size - need)) (omega arith) f)
          ∙ merge_merged s slots m)
  | inr e ↦
      rw (if_false _ _ e, if_true _ _ (owns seq_id), disown_fresh seq_id slots h)
        (ap (λ t. merge_slots t slots) (rejoined s need (no_rest need s.size l e) f)
          ∙ merge_merged s slots m)
]

behind_used :
    (last : Slot) (slots : List Slot)
    → is_free last ≡ false
    → merge_slots last slots ≡ last ∷ merge_all slots
unfolding merge_all
behind_used last [] f = merge_nil last
behind_used last (s ∷ slots) f = merge_apart last s slots (not_both (is_free last) (is_free s) f)

used_of : (a b : Bool) → (a && b) ≡ false → b ≡ true → a ≡ false
used_of a b h k = ground arith

disown_cons :
    (seq_id : String) (s : Slot) (slots : List Slot)
    → is_owned seq_id s ≡ false
    → disown seq_id (s ∷ slots) ≡ s ∷ disown seq_id slots
unfolding disown
disown_cons seq_id s slots o =
    ap (λ t. t ∷ disown seq_id slots) (if_false (record s { owner = none }) s o)

no_slots : (need : ℕ) (seq_id : String) → first_fit need seq_id [] ≡ none
unfolding first_fit
no_slots need seq_id = refl

abbrev carried : Slot → Option (ℕ × List Slot) → Option (ℕ × List Slot)
carried s o = elim o [ none ↦ none | some q ↦ some (q.0, s ∷ q.1) ]

-- The two cases of a turn of the loop of `allocate`.
first_fit-here :
    (need : ℕ) (seq_id : String) (s : Slot) (slots : List Slot) (r : ℕ × List Slot)
    → (is_free s && leb need s.size) ≡ true
    → first_fit need seq_id (s ∷ slots) ≡ some r
    → split_slot need seq_id s ++ slots ≡ r.1
unfolding first_fit
first_fit-here need seq_id s slots r k e =
    ap (λ z. z.1)
      (some-injective (s.start, split_slot need seq_id s ++ slots) r (sym (if_true _ _ k) ∙ e))

first_fit-later :
    (need : ℕ) (seq_id : String) (s : Slot) (slots : List Slot) (r : ℕ × List Slot)
    → (is_free s && leb need s.size) ≡ false
    → first_fit need seq_id (s ∷ slots) ≡ some r
    → (q : ℕ × List Slot) × (first_fit need seq_id slots ≡ some q) × (s ∷ q.1 ≡ r.1)
unfolding first_fit
first_fit-later need seq_id s slots r k e =
    let skip : first_fit need seq_id (s ∷ slots)
        ≡ elim (first_fit need seq_id slots) [ none ↦ none | some q ↦ some (q.0, s ∷ q.1) ] =
      if_false _ _ k in
    elim (Option-cases (first_fit need seq_id slots)) [
      | inl n ↦ absurd (none-ne-some r (sym (ap (carried s) n) ∙ sym skip ∙ e))
      | inr (q, n) ↦ (
        q,
        n,
        ap (λ z. z.1) (some-injective (q.0, s ∷ q.1) r (sym (ap (carried s) n) ∙ sym skip ∙ e)),
      )
    ]

-- The same behind a slot.
merge_behind :
    (need : ℕ) (seq_id : String) (last : Slot) (slots : List Slot) (r : ℕ × List Slot)
    → IsFresh seq_id slots
    → IsMerged (last ∷ slots)
    → first_fit need seq_id slots ≡ some r
    → merge_slots last (disown seq_id (r.1)) ≡ last ∷ slots
unfolding IsMerged
merge_behind need seq_id last [] r h m e = absurd (none-ne-some r (sym (no_slots need seq_id) ∙ e))
merge_behind need seq_id last (s ∷ slots) r (o, h) (f, m) e =
    elim (Bool-cases (is_free s && leb need s.size)) [
      | inl k ↦
          let (free, l) = fits need s k in
          ap (λ z. merge_slots last (disown seq_id z))
            (sym (first_fit-here need seq_id s slots r k e))
          ∙ behind_used last (disown seq_id (split_slot need seq_id s ++ slots))
              (used_of (is_free last) (is_free s) f free)
          ∙ ap (◌∷◌ last) (merge_split need seq_id s slots l free h m)
      | inr k ↦
          let (q, n, p) = first_fit-later need seq_id s slots r k e in
          ap (λ z. merge_slots last (disown seq_id z)) (sym p)
          ∙ ap (merge_slots last) (disown_cons seq_id s (q.1) o)
          ∙ merge_apart last s (disown seq_id (q.1)) f
          ∙ ap (◌∷◌ last) (merge_behind need seq_id s slots q h m n)
    ]

merge_undo :
    (need : ℕ) (seq_id : String) (slots : List Slot) (r : ℕ × List Slot)
    → IsFresh seq_id slots
    → IsMerged slots
    → first_fit need seq_id slots ≡ some r
    → merge_all (disown seq_id (r.1)) ≡ slots
unfolding merge_all
merge_undo need seq_id [] r h m e = absurd (none-ne-some r (sym (no_slots need seq_id) ∙ e))
merge_undo need seq_id (s ∷ slots) r (o, h) m e = elim (Bool-cases (is_free s && leb need s.size)) [
  | inl k ↦
      let (free, l) = fits need s k in
      ap (λ z. merge_all (disown seq_id z)) (sym (first_fit-here need seq_id s slots r k e))
      ∙ merge_split need seq_id s slots l free h m
  | inr k ↦
      let (q, n, p) = first_fit-later need seq_id s slots r k e in
      ap (λ z. merge_all (disown seq_id z)) (sym p)
      ∙ ap merge_all (disown_cons seq_id s (q.1) o)
      ∙ merge_behind need seq_id s slots q h m n
]

abbrev settled : ContiguousAllocator → Option (ℕ × List Slot) → Option ℕ × ContiguousAllocator
settled a o = elim o [
  | none ↦ (none, record a { rejections = a.rejections + 1 })
  | some r ↦ (some r.0, record a { slots = r.1 })
]

-- On an allocator whose slots cover the memory in this way, if allocate succeeds for an id that
-- owns no slot, then giving that id's reservation back gives exactly the allocator from before.
pub unreserve-reserve :
    (seq_id : String) (a a' : ContiguousAllocator) (start : ℕ)
    → IsTiled a
    → IsFresh seq_id a.slots
    → reserve seq_id a ≡ (some start, a')
    → unreserve seq_id a' ≡ a
unfolding reserve unreserve coalesce
unreserve-reserve seq_id a a' start v h e =
    elim (first_fit-Fitted a.reserve_len seq_id a.slots 0 a.capacity v.positive v.tiling) [
      | inl (n, small) ↦ absurd (none-ne-some start (ap (λ z. z.0) (sym (ap (settled a) n) ∙ e)))
      | inr (r, n, f) ↦
          let d = disown-IsTiling seq_id 0 a.capacity (r.1) f.tiling in
          ap (unreserve seq_id) (sym (ap (λ z. z.1) (sym (ap (settled a) n) ∙ e)))
          ∙ ap (λ z. record a { slots = z })
              (ap merge_all (sort_slots-IsTiling (disown seq_id (r.1)) 0 a.capacity d)
                ∙ merge_undo a.reserve_len seq_id a.slots r h v.merged n)
    ]
