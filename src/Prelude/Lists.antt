-- ===== src/Prelude/Lists.antt =====
-- Lists measured, indexed and counted by native numbers, under the library's names.
use Prim.Native.Nat.{ℕ, zero, suc, ◌+◌, ◌-◌, ◌<◌, min}
use mathlib.Core.Path.{◌≡◌, refl, ap}
use mathlib.Core.List.{List, [], ◌∷◌, ◌++◌}
use mathlib.Core.Option.{Option, none, some}
use native.Mathlib.Omega.{arith}
use mathlib.Core.Logic.{◌⊎◌, inl, inr}
use llm_inference_stack.Prelude.Tests.{◌==◌, ltb, if◌then◌else◌, Option-cases}

-- A predicate on every element.
abbrev pub All {ℓ κ} : {A : Type ℓ} → (A → Type κ) → List A → Type κ
All P [] = Unit
All P (x ∷ xs) = P x × All P xs

module _ {ℓ} {A : Type ℓ} where
  abbrev pub length : List A → ℕ
  length [] = 0
  length (x ∷ xs) = suc (length xs)

  abbrev pub get_elem? : List A → ℕ → Option A
  get_elem? [] i = none
  get_elem? (x ∷ xs) zero = some x
  get_elem? (x ∷ xs) (suc i) = get_elem? xs i

  -- A write out of bounds changes nothing.
  abbrev pub set : List A → ℕ → A → List A
  set [] i v = []
  set (x ∷ xs) zero v = v ∷ xs
  set (x ∷ xs) (suc i) v = x ∷ set xs i v

  abbrev pub take : ℕ → List A → List A
  take zero xs = []
  take (suc n) [] = []
  take (suc n) (x ∷ xs) = x ∷ take n xs

  abbrev pub drop : ℕ → List A → List A
  drop zero xs = xs
  drop (suc n) [] = []
  drop (suc n) (x ∷ xs) = drop n xs

  abbrev pub replicate : ℕ → A → List A
  replicate zero a = []
  replicate (suc n) a = a ∷ replicate n a

  -- `xs.pop()`: the list without its last element, and that element; `none` on an empty list.
  unfoldable pub pop_last : List A → Option (List A × A)
  pop_last [] = none
  pop_last (x ∷ xs) = elim (pop_last xs) [ none ↦ some ([], x) | some (ys, y) ↦ some (x ∷ ys, y) ]

module _ {ℓ} {A : Type ℓ} where
  pub length-append : (xs ys : List A) → length (xs ++ ys) ≡ length xs + length ys
  length-append [] ys = omega arith
  length-append (x ∷ xs) ys = omega (arith, length-append xs ys)

  pub length-set : (xs : List A) (i : ℕ) (v : A) → length (set xs i v) ≡ length xs
  length-set [] i v = refl
  length-set (x ∷ xs) zero v = refl
  length-set (x ∷ xs) (suc i) v = ap suc (length-set xs i v)

  pub length-take : (n : ℕ) (xs : List A) → length (take n xs) ≡ min n (length xs)
  length-take zero xs = omega arith
  length-take (suc n) [] = omega arith
  length-take (suc n) (x ∷ xs) = omega (arith, length-take n xs)

  pub length-drop : (n : ℕ) (xs : List A) → length (drop n xs) ≡ length xs - n
  length-drop zero xs = omega arith
  length-drop (suc n) [] = omega arith
  length-drop (suc n) (x ∷ xs) = omega (arith, length-drop n xs)

  pub length-replicate : (n : ℕ) (a : A) → length (replicate n a) ≡ n
  length-replicate zero a = refl
  length-replicate (suc n) a = ap suc (length-replicate n a)

  -- Reading after a write.
  pub get_elem?-set :
      (xs : List A) (i : ℕ) (v : A) (j : ℕ)
      → get_elem? (set xs i v) j
        ≡ (if i == j then (if ltb j (length xs) then some v else none) else get_elem? xs j)
  get_elem?-set [] i v j = ground arith
  get_elem?-set (x ∷ xs) zero v zero = ground arith
  get_elem?-set (x ∷ xs) zero v (suc j) = ground arith
  get_elem?-set (x ∷ xs) (suc i) v zero = ground arith
  get_elem?-set (x ∷ xs) (suc i) v (suc j) = ground (arith, get_elem?-set xs i v j)

  pub List-cases : (xs : List A) → (xs ≡ []) ⊎ ((x : A) × (ys : List A) × (xs ≡ x ∷ ys))
  List-cases [] = inl refl
  List-cases (x ∷ xs) = inr (x, xs, refl)

  pub set-set : (xs : List A) (i : ℕ) (u v : A) → set (set xs i u) i v ≡ set xs i v
  set-set [] i u v = refl
  set-set (x ∷ xs) zero u v = refl
  set-set (x ∷ xs) (suc i) u v = ap (◌∷◌ x) (set-set xs i u v)

  pub get_elem?-in_range :
      (xs : List A) (i : ℕ) → i < length xs → (x : A) × (get_elem? xs i ≡ some x)
  get_elem?-in_range [] i h = absurd (omega arith)
  get_elem?-in_range (x ∷ xs) zero h = (x, refl)
  get_elem?-in_range (x ∷ xs) (suc i) h = get_elem?-in_range xs i (omega arith)

  pub lt-length_of_get_elem? :
      (xs : List A) (i : ℕ) {x : A} → get_elem? xs i ≡ some x → i < length xs
  lt-length_of_get_elem? [] i h = cc
  lt-length_of_get_elem? (y ∷ xs) zero h = omega arith
  lt-length_of_get_elem? (y ∷ xs) (suc i) h = omega (arith, lt-length_of_get_elem? xs i h)

  pub nil_of_pop_last : (xs : List A) → pop_last xs ≡ none → xs ≡ []
  unfolding pop_last
  nil_of_pop_last [] h = refl
  nil_of_pop_last (x ∷ xs) h = ground arith

  -- What `pop` takes off was the last element.
  pub append-pop_last : (xs ys : List A) (y : A) → pop_last xs ≡ some (ys, y) → xs ≡ ys ++ y ∷ []
  unfolding pop_last
  append-pop_last [] ys y h = cc
  append-pop_last (x ∷ xs) ys y h = elim (Option-cases (pop_last xs)) [
    | inl e ↦ ground (arith, nil_of_pop_last xs)
    | inr ((zs, z), e) ↦ ground (arith, append-pop_last xs zs z)
  ]

-- How often a number stands in a list.
unfoldable pub count : ℕ → List ℕ → ℕ
count a [] = 0
count a (x ∷ xs) = (if x == a then 1 else 0) + count a xs

pub count-append : (a : ℕ) (xs ys : List ℕ) → count a (xs ++ ys) ≡ count a xs + count a ys
unfolding count
count-append a [] ys = omega arith
count-append a (x ∷ xs) ys = omega (arith, count-append a xs ys)

pub count-append_one :
    (a : ℕ) (xs : List ℕ) (y : ℕ) → count a (xs ++ y ∷ []) ≡ count a xs + (if y == a then 1 else 0)
unfolding count
count-append_one a xs y = omega (arith, count-append a xs (y ∷ []))

pub count-pop_last :
    (a : ℕ) (xs ys : List ℕ) (y : ℕ)
    → pop_last xs ≡ some (ys, y)
    → count a xs ≡ count a ys + (if y == a then 1 else 0)
count-pop_last a xs ys y h = rw (append-pop_last xs ys y h) (count-append_one a ys y)

pub length-pop_last :
    (xs ys : List ℕ) (y : ℕ) → pop_last xs ≡ some (ys, y) → length xs ≡ length ys + 1
length-pop_last xs ys y h =
    rw (append-pop_last xs ys y h) (omega (arith, length-append ys (y ∷ [])))
