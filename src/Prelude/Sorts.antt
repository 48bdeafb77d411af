-- ===== src/Prelude/Sorts.antt =====
-- The stable sort of a list by an order of its items, as Python's `sort` with a key gives it.
use Prim.Native.Nat.{ℕ, suc, ◌+◌, ◌≤◌}
use mathlib.Core.Path.{◌≡◌, refl, ap}
use mathlib.Core.Logic.{inl, inr}
use mathlib.Core.Bool.{Bool, true, false}
use mathlib.Core.List.{List, [], ◌∷◌, ◌++◌}
use native.Mathlib.Omega.{arith}
use llm_inference_stack.Prelude.Tests.{if◌then◌else◌, Bool-cases, if_true, if_false}
use llm_inference_stack.Prelude.Lists.{All, length}

module _ {A : Type 0} where
  -- Behind all that it does not come before.
  unfoldable pub insert_by : (A → A → Bool) → A → List A → List A
  insert_by before x [] = x ∷ []
  insert_by before x (y ∷ ys) = if before x y then x ∷ y ∷ ys else y ∷ insert_by before x ys

  unfoldable pub sort_from : (A → A → Bool) → List A → List A → List A
  unfolding insert_by
  sort_from before done [] = done
  sort_from before done (x ∷ xs) = sort_from before (insert_by before x done) xs

  abbrev pub sort_by : (A → A → Bool) → List A → List A
  sort_by before xs = sort_from before [] xs

  -- How many items pass a test.
  unfoldable pub tally : (A → Bool) → List A → ℕ
  tally p [] = 0
  tally p (x ∷ xs) = (if p x then 1 else 0) + tally p xs

  pub tally-append : (p : A → Bool) (xs ys : List A) → tally p (xs ++ ys) ≡ tally p xs + tally p ys
  unfolding tally
  tally-append p [] ys = omega arith
  tally-append p (x ∷ xs) ys = omega (arith, tally-append p xs ys)

  tally-insert_by :
      (p : A → Bool) (before : A → A → Bool) (x : A) (ys : List A)
      → tally p (insert_by before x ys) ≡ tally p (x ∷ ys)
  unfolding tally insert_by
  tally-insert_by p before x [] = refl
  tally-insert_by p before x (y ∷ ys) = elim (Bool-cases (before x y)) [
    | inl h ↦ rw (if_true _ _ h) refl
    | inr h ↦ rw (if_false _ _ h) (omega (arith, tally-insert_by p before x ys))
  ]

  tally-sort_from :
      (p : A → Bool) (before : A → A → Bool) (done xs : List A)
      → tally p (sort_from before done xs) ≡ tally p done + tally p xs
  unfolding tally sort_from
  tally-sort_from p before done [] = omega arith
  tally-sort_from p before done (x ∷ xs) = omega (
    arith,
    tally-sort_from p before (insert_by before x done) xs,
    tally-insert_by p before x done,
  )

  pub tally-sort_by :
      (p : A → Bool) (before : A → A → Bool) (xs : List A)
      → tally p (sort_by before xs) ≡ tally p xs
  unfolding tally
  tally-sort_by p before xs = omega (arith, tally-sort_from p before [] xs)

  All-insert_by :
      (P : A → Type 0) (before : A → A → Bool) (x : A) (ys : List A)
      → P x
      → All P ys
      → All P (insert_by before x ys)
  unfolding insert_by
  All-insert_by P before x [] p a = (p, tt)
  All-insert_by P before x (y ∷ ys) p (q, a) = elim (Bool-cases (before x y)) [
    | inl h ↦ rw (if_true _ _ h) (p, (q, a))
    | inr h ↦ rw (if_false _ _ h) (q, All-insert_by P before x ys p a)
  ]

  pub All-sort_from :
      (P : A → Type 0) (before : A → A → Bool) (done xs : List A)
      → All P done
      → All P xs
      → All P (sort_from before done xs)
  unfolding sort_from
  All-sort_from P before done [] a b = a
  All-sort_from P before done (x ∷ xs) a (p, b) =
      All-sort_from P before (insert_by before x done) xs (All-insert_by P before x done p a) b

  pub All-append : (P : A → Type 0) (xs ys : List A) → All P xs → All P ys → All P (xs ++ ys)
  All-append P [] ys a b = b
  All-append P (x ∷ xs) ys (p, a) b = (p, All-append P xs ys a b)

  -- The sum of a measure over a list.
  unfoldable pub sum_of : (A → ℕ) → List A → ℕ
  sum_of f [] = 0
  sum_of f (x ∷ xs) = f x + sum_of f xs

  sum_of-insert_by :
      (f : A → ℕ) (before : A → A → Bool) (x : A) (ys : List A)
      → sum_of f (insert_by before x ys) ≡ sum_of f (x ∷ ys)
  unfolding sum_of insert_by
  sum_of-insert_by f before x [] = refl
  sum_of-insert_by f before x (y ∷ ys) = elim (Bool-cases (before x y)) [
    | inl h ↦ rw (if_true _ _ h) refl
    | inr h ↦ rw (if_false _ _ h) (omega (arith, sum_of-insert_by f before x ys))
  ]

  sum_of-sort_from :
      (f : A → ℕ) (before : A → A → Bool) (done xs : List A)
      → sum_of f (sort_from before done xs) ≡ sum_of f done + sum_of f xs
  unfolding sum_of sort_from
  sum_of-sort_from f before done [] = omega arith
  sum_of-sort_from f before done (x ∷ xs) = omega (
    arith,
    sum_of-sort_from f before (insert_by before x done) xs,
    sum_of-insert_by f before x done,
  )

  pub sum_of-sort_by :
      (f : A → ℕ) (before : A → A → Bool) (xs : List A) → sum_of f (sort_by before xs) ≡ sum_of f xs
  unfolding sum_of
  sum_of-sort_by f before xs = omega (arith, sum_of-sort_from f before [] xs)

  -- Each item has the least key of those from it on.
  abbrev pub IsAscending : (A → ℕ) → List A → Type 0
  IsAscending key [] = Unit
  IsAscending key (x ∷ xs) = All (λ y. key x ≤ key y) xs × IsAscending key xs

  All-weaken :
      (key : A → ℕ) (a b : ℕ) (xs : List A)
      → a ≤ b
      → All (λ y. b ≤ key y) xs
      → All (λ y. a ≤ key y) xs
  All-weaken key a b [] l h = tt
  All-weaken key a b (x ∷ xs) l (p, h) = (omega (arith, p), All-weaken key a b xs l h)

  module _ (key : A → ℕ) (before : A → A → Bool)
      (yes : (x y : A) → before x y ≡ true → key x ≤ key y)
      (no : (x y : A) → before x y ≡ false → key y ≤ key x) where
    insert_by-IsAscending :
        (x : A) (ys : List A) → IsAscending key ys → IsAscending key (insert_by before x ys)
    unfolding insert_by
    insert_by-IsAscending x [] a = (tt, tt)
    insert_by-IsAscending x (y ∷ ys) (h, a) = elim (Bool-cases (before x y)) [
      | inl e ↦
          rw (if_true _ _ e) ((yes x y e, All-weaken key (key x) (key y) ys (yes x y e) h), (h, a))
      | inr e ↦ rw (if_false _ _ e) (
        All-insert_by (λ z. key y ≤ key z) before x ys (no x y e) h,
        insert_by-IsAscending x ys a,
      )
    ]

    sort_from-IsAscending :
        (done xs : List A) → IsAscending key done → IsAscending key (sort_from before done xs)
    unfolding sort_from
    sort_from-IsAscending done [] a = a
    sort_from-IsAscending done (x ∷ xs) a =
        sort_from-IsAscending (insert_by before x done) xs (insert_by-IsAscending x done a)

    pub sort_by-IsAscending : (xs : List A) → IsAscending key (sort_by before xs)
    sort_by-IsAscending xs = sort_from-IsAscending [] xs tt

    length-insert_by : (x : A) (ys : List A) → length (insert_by before x ys) ≡ suc (length ys)
    unfolding insert_by
    length-insert_by x [] = refl
    length-insert_by x (y ∷ ys) = elim (Bool-cases (before x y)) [
      | inl e ↦ rw (if_true _ _ e) refl
      | inr e ↦ rw (if_false _ _ e) (ap suc (length-insert_by x ys))
    ]

    length-sort_from :
        (done xs : List A) → length (sort_from before done xs) ≡ length done + length xs
    unfolding sort_from
    length-sort_from done [] = omega arith
    length-sort_from done (x ∷ xs) =
        omega (arith, length-sort_from (insert_by before x done) xs, length-insert_by x done)

    pub length-sort_by : (xs : List A) → length (sort_by before xs) ≡ length xs
    length-sort_by xs = omega (arith, length-sort_from [] xs)
