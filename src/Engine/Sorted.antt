-- ===== src/Engine/Sorted.antt =====
-- The stable sort of the waiting queue by priority and arrival.
use mathlib.Core.List.{append-nil, append_assoc}
use llm_inference_stack.Prelude.{
  ℕ, ◌≤◌, ◌<◌, ◌≡◌, ◌⊎◌, refl, sym, ap, ◌∙◌, Bool, true, false, ◌&&◌, List, [], ◌∷◌, ◌++◌, All, inl,
  inr, Bool-cases, ◌==◌, if◌then◌else◌, if_true, if_false, arith,
}
use llm_inference_stack.Engine.{Sequence}
use llm_inference_stack.Engine.Schedule.{goes_before, insert_seq, sort_seqs}

-- The lower number of a priority stands in front, and of the same priority the earlier arrival.
abbrev pub IsInFront : Sequence → Sequence → Type 0
IsInFront a b =
    (a.req.priority < b.req.priority)
    ⊎ ((a.req.priority ≡ b.req.priority) × (a.arrival ≤ b.arrival))

unfoldable pub IsOrdered : List (ℕ × Sequence) → Type 0
IsOrdered [] = Unit
IsOrdered (x ∷ xs) = All (λ y. IsInFront (x.1) (y.1)) xs × IsOrdered xs

-- The positions of the sequences of one priority and arrival, in their order.
unfoldable pub alike : ℕ → ℕ → List (ℕ × Sequence) → List ℕ
alike priority arrival [] = []
alike priority arrival ((i, s) ∷ xs) =
    if (s.req.priority == priority) && (s.arrival == arrival)
    then i ∷ alike priority arrival xs
    else alike priority arrival xs

-- None goes before one that stands in front of it.
unfoldable IsUnbeaten : List (ℕ × Sequence) → Type 0
IsUnbeaten [] = Unit
IsUnbeaten (x ∷ xs) = All (λ y. goes_before (y.1) (x.1) ≡ false) xs × IsUnbeaten xs

in_front : (a b : Sequence) → goes_before b a ≡ false → IsInFront a b
unfolding goes_before
in_front a b h = ground arith

IsUnbeaten-IsOrdered : (xs : List (ℕ × Sequence)) → IsUnbeaten xs → IsOrdered xs
unfolding IsUnbeaten IsOrdered
IsUnbeaten-IsOrdered [] o = tt
IsUnbeaten-IsOrdered (x ∷ xs) (a, o) = (all_in_front xs a, IsUnbeaten-IsOrdered xs o)
  where
    all_in_front :
        (ys : List (ℕ × Sequence))
        → All (λ y. goes_before (y.1) (x.1) ≡ false) ys
        → All (λ y. IsInFront (x.1) (y.1)) ys
    all_in_front [] a = tt
    all_in_front (y ∷ ys) (h, a) = (in_front (x.1) (y.1) h, all_in_front ys a)

not_before : (a b : Sequence) → goes_before a b ≡ true → goes_before b a ≡ false
unfolding goes_before
not_before a b h = ground arith

not_before_trans :
    (a b c : Sequence) → goes_before b a ≡ false → goes_before c b ≡ false → goes_before c a ≡ false
unfolding goes_before
not_before_trans a b c h g = ground arith

All-later :
    (x : ℕ × Sequence) (y : ℕ × Sequence) (ys : List (ℕ × Sequence))
    → goes_before (y.1) (x.1) ≡ false
    → All (λ z. goes_before (z.1) (y.1) ≡ false) ys
    → All (λ z. goes_before (z.1) (x.1) ≡ false) ys
All-later x y [] h a = tt
All-later x y (z ∷ ys) h (g, a) = (not_before_trans (x.1) (y.1) (z.1) h g, All-later x y ys h a)

All-insert_seq :
    (P : ℕ × Sequence → Type 0) (x : ℕ × Sequence) (ys : List (ℕ × Sequence))
    → P x
    → All P ys
    → All P (insert_seq x ys)
unfolding insert_seq
All-insert_seq P x [] p a = (p, tt)
All-insert_seq P x (y ∷ ys) p (q, a) = elim (Bool-cases (goes_before (x.1) (y.1))) [
  | inl h ↦ rw (if_true _ _ h) (p, (q, a))
  | inr h ↦ rw (if_false _ _ h) (q, All-insert_seq P x ys p a)
]

insert_seq-IsUnbeaten :
    (x : ℕ × Sequence) (ys : List (ℕ × Sequence)) → IsUnbeaten ys → IsUnbeaten (insert_seq x ys)
unfolding insert_seq IsUnbeaten
insert_seq-IsUnbeaten x [] o = (tt, tt)
insert_seq-IsUnbeaten x (y ∷ ys) (a, o) = elim (Bool-cases (goes_before (x.1) (y.1))) [
  | inl h ↦
      rw (if_true _ _ h)
        ((not_before (x.1) (y.1) h, All-later x y ys (not_before (x.1) (y.1) h) a), (a, o))
  | inr h ↦ rw (if_false _ _ h) (All-insert_seq _ x ys h a, insert_seq-IsUnbeaten x ys o)
]

-- The test of `alike`.
abbrev is_alike : ℕ → ℕ → Sequence → Bool
is_alike priority arrival s = (s.req.priority == priority) && (s.arrival == arrival)

unlike :
    (priority arrival : ℕ) (a b : Sequence)
    → is_alike priority arrival a ≡ true
    → goes_before a b ≡ true
    → is_alike priority arrival b ≡ false
unfolding goes_before
unlike priority arrival a b h g = ground arith

unlike_later :
    (priority arrival : ℕ) (a b c : Sequence)
    → is_alike priority arrival a ≡ true
    → goes_before a b ≡ true
    → goes_before c b ≡ false
    → is_alike priority arrival c ≡ false
unfolding goes_before
unlike_later priority arrival a b c h g k = ground arith

module _ (priority arrival : ℕ) where
  alike_none :
      (a b : Sequence) (ys : List (ℕ × Sequence))
      → is_alike priority arrival a ≡ true
      → goes_before a b ≡ true
      → All (λ y. goes_before (y.1) b ≡ false) ys
      → alike priority arrival ys ≡ []
  unfolding alike
  alike_none a b [] h g k = refl
  alike_none a b ((i, c) ∷ ys) h g (k, ks) =
      if_false _ _ (unlike_later priority arrival a b c h g k) ∙ alike_none a b ys h g ks

  -- The new one comes behind those that are alike.
  alike-insert_seq :
      (x : ℕ × Sequence) (ys : List (ℕ × Sequence))
      → IsUnbeaten ys
      → alike priority arrival (insert_seq x ys)
        ≡ alike priority arrival ys ++ alike priority arrival (x ∷ [])
  unfolding insert_seq alike IsUnbeaten
  alike-insert_seq (i, s) [] o = refl
  alike-insert_seq (i, s) ((j, t) ∷ ys) (a, o) = elim (Bool-cases (goes_before s t)) [
    | inl g ↦ rw (if_true _ _ g) (elim (Bool-cases (is_alike priority arrival s)) [
      | inl h ↦ rw (h, unlike priority arrival s t h g, alike_none s t ys h g a) refl
      | inr h ↦ rw h (sym (append-nil _))
    ])
    | inr g ↦ rw (if_false _ _ g) (elim (Bool-cases (is_alike priority arrival t)) [
      | inl h ↦ rw h (ap (λ l. j ∷ l) (alike-insert_seq (i, s) ys o))
      | inr h ↦ rw h (alike-insert_seq (i, s) ys o)
    ])
  ]

  alike-sort_seqs :
      (done xs : List (ℕ × Sequence))
      → IsUnbeaten done
      → alike priority arrival (sort_seqs done xs)
        ≡ alike priority arrival done ++ alike priority arrival xs
  unfolding sort_seqs alike
  alike-sort_seqs done [] o = sym (append-nil _)
  alike-sort_seqs done (x ∷ xs) o =
      alike-sort_seqs (insert_seq x done) xs (insert_seq-IsUnbeaten x done o)
      ∙ ap (λ l. l ++ alike priority arrival xs) (alike-insert_seq x done o)
      ∙ append_assoc (alike priority arrival done) (alike priority arrival (x ∷ []))
          (alike priority arrival xs)
      ∙ ap (λ l. alike priority arrival done ++ l) (cons_alike x xs)
    where
      cons_alike :
          (x : ℕ × Sequence) (xs : List (ℕ × Sequence))
          → alike priority arrival (x ∷ []) ++ alike priority arrival xs
            ≡ alike priority arrival (x ∷ xs)
      cons_alike (i, s) xs = elim (Bool-cases (is_alike priority arrival s)) [
        | inl h ↦ rw h refl
        | inr h ↦ rw h refl
      ]

sort_seqs-IsUnbeaten :
    (done xs : List (ℕ × Sequence)) → IsUnbeaten done → IsUnbeaten (sort_seqs done xs)
unfolding sort_seqs
sort_seqs-IsUnbeaten done [] o = o
sort_seqs-IsUnbeaten done (x ∷ xs) o =
    sort_seqs-IsUnbeaten (insert_seq x done) xs (insert_seq-IsUnbeaten x done o)

-- The sort of the waiting queue gives a list in which the lower number of a priority stands in
-- front of the higher and, of the same priority, the earlier arrival in front of the later; the
-- sequences of one priority and arrival are those of the queue, in the order in which they stood
-- there.
pub sort_seqs-IsOrdered :
    (xs : List (ℕ × Sequence))
    → IsOrdered (sort_seqs [] xs)
      × ((priority arrival : ℕ)
          → alike priority arrival (sort_seqs [] xs) ≡ alike priority arrival xs)
unfolding IsUnbeaten alike
sort_seqs-IsOrdered xs = (
  IsUnbeaten-IsOrdered (sort_seqs [] xs) (sort_seqs-IsUnbeaten [] xs tt),
  λ priority arrival. alike-sort_seqs priority arrival [] xs tt,
)
