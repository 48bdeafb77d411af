-- ===== src/Routing/Walk.antt =====
-- `ConsistentHashRing.lookup` of packages/llmkit/llmkit/routing.py against the names of the ring read
-- clockwise.
use llm_inference_stack.Prelude.{
  ℕ, zero, suc, ◌+◌, ◌-◌, ◌%◌, ◌≤◌, ◌<◌, ◌≡◌, refl, sym, ap, ◌∙◌, max, String, true, false, some,
  List, [], ◌∷◌, ◌++◌, length, length-append, get_elem?, take, map, inl, inr, Bool-cases, if_true,
  if_false, arith, is_among, leb, leb→le, leb→lt, if◌then◌else◌,
}
use mathlib.Core.List.{append-nil, append_assoc}
use native.Mathlib.Nat.{mod-eq_of_lt, mod-add-mod, add-mod_right}
use llm_inference_stack.Routing.Replicas.{bisect, walk, lookup_ring}

-- The slots before the first key above a hash, and those from it on.
unfoldable pub upto : ℕ → List (ℕ × String) → List (ℕ × String)
upto h [] = []
upto h ((k, name) ∷ ring) = if leb k h then (k, name) ∷ upto h ring else []

unfoldable pub behind : ℕ → List (ℕ × String) → List (ℕ × String)
behind h [] = []
behind h ((k, name) ∷ ring) = if leb k h then behind h ring else (k, name) ∷ ring

abbrev pub name_of : ℕ × String → String
name_of (k, name) = name

-- The names of a ring, clockwise from a hash.
unfoldable pub clockwise : ℕ → List (ℕ × String) → List String
unfolding upto behind
clockwise h ring = map name_of (behind h ring ++ upto h ring)

-- The names that are not seen before, each once.
unfoldable pub first_seen : List String → List String → List String
unfolding is_among
first_seen seen [] = []
first_seen seen (name ∷ names) =
    if is_among name seen
    then first_seen seen names
    else name ∷ first_seen (seen ++ name ∷ []) names

split_ring : (h : ℕ) (ring : List (ℕ × String)) → ring ≡ upto h ring ++ behind h ring
unfolding upto behind
split_ring h [] = refl
split_ring h ((k, name) ∷ ring) = elim (Bool-cases (leb k h)) [
  | inl e ↦ rw (if_true _ _ e) (rw (if_true _ _ e) (ap (λ r. (k, name) ∷ r) (split_ring h ring)))
  | inr e ↦ rw (if_false _ _ e) (rw (if_false _ _ e) refl)
]

bisect-length : (h : ℕ) (ring : List (ℕ × String)) → bisect h ring ≡ length (upto h ring)
unfolding bisect upto
bisect-length h [] = refl
bisect-length h ((k, name) ∷ ring) = elim (Bool-cases (leb k h)) [
  | inl e ↦ rw (if_true _ _ e) (rw (if_true _ _ e) (omega (arith, bisect-length h ring)))
  | inr e ↦ rw (if_false _ _ e) (rw (if_false _ _ e) refl)
]

module _ {A : Type 0} where
  take_nil : (n : ℕ) → take {A = A} n [] ≡ []
  take_nil zero = refl
  take_nil (suc n) = refl

  get_elem?-append_left :
      (xs ys : List A) (j : ℕ) → j < length xs → get_elem? (xs ++ ys) j ≡ get_elem? xs j
  get_elem?-append_left [] ys j l = absurd (omega arith)
  get_elem?-append_left (x ∷ xs) ys zero l = refl
  get_elem?-append_left (x ∷ xs) ys (suc j) l = get_elem?-append_left xs ys j (omega (arith, l))

  get_elem?-append_right :
      (xs ys : List A) (i j : ℕ) → i ≡ length xs + j → get_elem? (xs ++ ys) i ≡ get_elem? ys j
  get_elem?-append_right [] ys i j e = ap (get_elem? ys) (omega (arith, e))
  get_elem?-append_right (x ∷ xs) ys zero j e = absurd (omega (arith, e))
  get_elem?-append_right (x ∷ xs) ys (suc i) j e =
      get_elem?-append_right xs ys i j (omega (arith, e))

  -- Positions counted round the ring from the end of `xs`.
  get_elem?-around :
      (xs ys : List A) (j : ℕ)
      → j < length (ys ++ xs)
      → get_elem? (xs ++ ys) ((length xs + j) % length (xs ++ ys)) ≡ get_elem? (ys ++ xs) j
  get_elem?-around xs ys j l = elim (Bool-cases (leb (length ys) j)) [
    | inr h ↦
        ap (get_elem? (xs ++ ys)) (mod-eq_of_lt (below h))
        ∙ get_elem?-append_right xs ys (length xs + j) j refl
        ∙ sym (get_elem?-append_left ys xs j (leb→lt _ _ h))
    | inl h ↦
        ap (get_elem? (xs ++ ys)) (
          ap (λ m. m % length (xs ++ ys)) (wrapped (leb→le _ _ h))
          ∙ add-mod_right (j - length ys) (length (xs ++ ys))
          ∙ mod-eq_of_lt (rest (leb→le _ _ h)))
        ∙ get_elem?-append_left xs ys (j - length ys) (short (leb→le _ _ h))
        ∙ sym (get_elem?-append_right ys xs j (j - length ys) (omega (arith, leb→le _ _ h)))
  ]
    where
      below : leb (length ys) j ≡ false → length xs + j < length (xs ++ ys)
      below h = omega (arith, leb→lt _ _ h, length-append xs ys)

      wrapped : length ys ≤ j → length xs + j ≡ (j - length ys) + length (xs ++ ys)
      wrapped h = omega (arith, h, length-append xs ys)

      short : length ys ≤ j → j - length ys < length xs
      short h = omega (arith, h, l, length-append ys xs)

      rest : length ys ≤ j → j - length ys < length (xs ++ ys)
      rest h = omega (arith, short h, length-append xs ys)

-- The walk takes the first names that it has not seen, until it has enough.
module _ (ring : List (ℕ × String)) (n : ℕ) where
  abbrev Reads : ℕ → List (ℕ × String) → Type 0
  Reads at slots =
      (j : ℕ) → j < length slots → get_elem? ring ((at + j) % length ring) ≡ get_elem? slots j

  Reads-next :
      (at : ℕ) (slot : ℕ × String) (slots : List (ℕ × String))
      → Reads at (slot ∷ slots)
      → Reads (at + 1) slots
  Reads-next at slot slots r j l =
      ap (λ m. get_elem? ring (m % length ring)) (omega arith) ∙ r (suc j) (omega (arith, l))

  Reads-first :
      (at : ℕ) (slot : ℕ × String) (slots : List (ℕ × String))
      → Reads at (slot ∷ slots)
      → get_elem? ring (at % length ring) ≡ some slot
  Reads-first at slot slots r =
      ap (λ m. get_elem? ring (m % length ring)) (omega arith) ∙ r 0 (omega arith)

  abbrev room : List String → ℕ
  room out = max 1 n - length out

  taken-more :
      (out : List String) (name : String) (names : List String)
      → leb n (length out + 1) ≡ false
      → (out ++ name ∷ []) ++ take (room (out ++ name ∷ [])) names
        ≡ out ++ take (room out) (name ∷ names)
  taken-more out name names h =
      let l = leb→lt n (length out + 1) h in
      let e : room out ≡ suc (room (out ++ name ∷ [])) =
        omega (arith, l, length-append out (name ∷ [])) in
      append_assoc out (name ∷ []) _ ∙ ap (λ m. out ++ take m (name ∷ names)) (sym e)

  taken-last :
      (out : List String) (name : String) (names : List String)
      → length out < max 1 n
      → leb n (length out + 1) ≡ true
      → out ++ name ∷ [] ≡ out ++ take (room out) (name ∷ names)
  taken-last out name names l h =
      let e : room out ≡ 1 = omega (arith, l, leb→le n (length out + 1) h) in
      ap (λ m. out ++ take m (name ∷ names)) (sym e)

  walk-first_seen :
      (slots : List (ℕ × String)) (at : ℕ) (out : List String)
      → length out < max 1 n
      → Reads at slots
      → walk ring n (length slots) at out
        ≡ out ++ take (room out) (first_seen out (map name_of slots))
  unfolding walk first_seen
  walk-first_seen [] at out l r = sym (ap (λ t. out ++ t) (take_nil (room out)) ∙ append-nil out)
  walk-first_seen ((k, name) ∷ slots) at out l r =
      rw (Reads-first at (k, name) slots r, walk)
        (elim (Bool-cases (is_among name out)) [
          | inl m ↦ rw (if_true _ _ m) (
              rw (if_true _ _ m)
                (walk-first_seen slots (at + 1) out l (Reads-next at (k, name) slots r)))
          | inr m ↦ rw (if_false _ _ m) (
              rw (if_false _ _ m) (elim (Bool-cases (leb n (length out + 1))) [
                | inl b ↦ rw (if_true _ _ b) (taken-last out name _ l b)
                | inr b ↦ rw (if_false _ _ b) (
                    walk-first_seen slots (at + 1) (out ++ name ∷ []) (less out name b)
                      (Reads-next at (k, name) slots r)
                    ∙ taken-more out name _ b)
              ]))
        ])
    where
      less :
          (out : List String) (name : String)
          → leb n (length out + 1) ≡ false
          → length (out ++ name ∷ []) < max 1 n
      less out name b = omega (arith, length-append out (name ∷ []), leb→lt n (length out + 1) b)

-- The slots that the lookup reads are those of the ring from the one behind the hash.
Reads-clockwise :
    (h n : ℕ) (ring : List (ℕ × String))
    → Reads ring n (bisect h ring % length ring) (behind h ring ++ upto h ring)
Reads-clockwise h n ring j l =
    ap (get_elem? ring) (mod-add-mod (bisect h ring) (length ring) j)
    ∙ ap (λ m. get_elem? ring ((m + j) % length ring)) (bisect-length h ring)
    ∙ ap (λ r. get_elem? r ((length (upto h ring) + j) % length r)) (split_ring h ring)
    ∙ get_elem?-around (upto h ring) (behind h ring) j l

length-clockwise :
    (h : ℕ) (ring : List (ℕ × String)) → length ring ≡ length (behind h ring ++ upto h ring)
length-clockwise h ring =
    ap length (split_ring h ring)
    ∙ omega (
      arith,
      length-append (upto h ring) (behind h ring),
      length-append (behind h ring) (upto h ring),
    )

-- The lookup of any key gives the names of the ring clockwise from the key's hash, from the first
-- slot whose key is above it and round to the slots before that one, each name once, and of these
-- as many as are asked for, or one if none are, or all if there are fewer.
pub lookup_ring-clockwise :
    (hash : String → ℕ) (ring : List (ℕ × String)) (key : String) (n : ℕ)
    → lookup_ring hash ring key n ≡ take (max 1 n) (first_seen [] (clockwise (hash key) ring))
unfolding lookup_ring clockwise first_seen upto behind
lookup_ring-clockwise hash [] key n = sym (take_nil (max 1 n))
lookup_ring-clockwise hash (slot ∷ ring) key n =
    let h = hash key in
    let r = slot ∷ ring in
    ap (λ (rounds : ℕ). walk r n rounds (bisect h r % length r) []) (length-clockwise h r)
    ∙ walk-first_seen r n (behind h r ++ upto h r) (bisect h r % length r) [] (omega arith)
        (Reads-clockwise h n r)
    ∙ ap (λ (m : ℕ). take m (first_seen [] (clockwise h r))) (all_room (max 1 n))
  where
    all_room : (m : ℕ) → m - 0 ≡ m
    all_room m = omega arith
