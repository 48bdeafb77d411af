-- ===== src/Routing/Moves.antt =====
-- Taking a replica off the hash ring moves only the keys that it had.
use llm_inference_stack.Prelude.{
  ℕ, suc, ◌+◌, ◌%◌, ◌<◌, ◌≡◌, refl, sym, ap, ◌∙◌, String, false, Option, none, some, List, [], ◌∷◌,
  length, get_elem?, str_eq, inl, inr, Bool-cases, Option-cases, leb, arith, if◌then◌else◌,
  is_among,
}
use mathlib.Core.Option.{some-injective, some-ne-none, none-ne-some}
use native.Mathlib.Nat.{mod-eq_of_lt, mod_self, zero-mod}
use llm_inference_stack.Routing.Replicas.{bisect, walk, lookup_ring}

-- The ring without the slots of a replica.
unfoldable pub take_out : String → List (ℕ × String) → List (ℕ × String)
take_out x [] = []
take_out x ((k, name) ∷ ring) =
    if str_eq name x then take_out x ring else (k, name) ∷ take_out x ring

-- The first name behind a hash.
unfoldable after : ℕ → List (ℕ × String) → Option String
after h [] = none
after h ((k, name) ∷ ring) = if leb k h then after h ring else some name

unfoldable first_name : List (ℕ × String) → Option String
first_name [] = none
first_name ((k, name) ∷ ring) = some name

abbrev or_first : Option String → Option String → Option String
or_first (some y) first = some y
or_first none first = first

abbrev owner : ℕ → List (ℕ × String) → Option String
owner h ring = or_first (after h ring) (first_name ring)

abbrev named : Option (ℕ × String) → Option String
named none = none
named (some slot) = some (slot.1)

get_elem?_next :
    (s : ℕ × String) (ring : List (ℕ × String)) (n : ℕ)
    → get_elem? (s ∷ ring) (n + 1) ≡ get_elem? ring n
get_elem?_next s ring n = ap (get_elem? (s ∷ ring)) (one_more n)
  where
    one_more : (n : ℕ) → n + 1 ≡ suc n
    one_more n = omega arith

-- The slot that `lookup` begins with is the one behind the hash.
bisect-after :
    (h : ℕ) (ring : List (ℕ × String))
    → ((y : String)
        → after h ring ≡ some y
        → (named (get_elem? ring (bisect h ring)) ≡ some y) × (bisect h ring < length ring))
      × (after h ring ≡ none → bisect h ring ≡ length ring)
unfolding bisect after
bisect-after h [] = ((λ y e. cc), λ e. refl)
bisect-after h ((k, name) ∷ ring) =
    let (a, b) = bisect-after h ring in
    elim (Bool-cases (leb k h)) [
      | inl e ↦ rw e (
        (λ y d. (
          ap named (get_elem?_next (k, name) ring (bisect h ring)) ∙ (a y d).0,
          omega (arith, (a y d).1),
        )),
        λ d. omega (arith, b d),
      )
      | inr e ↦ rw e ((λ y d. (d, omega arith)), λ d. absurd (some-ne-none name d))
    ]

walk_one :
    (ring : List (ℕ × String)) (rounds at : ℕ) (y : String)
    → named (get_elem? ring (at % length ring)) ≡ some y
    → walk ring 1 (suc rounds) at [] ≡ y ∷ []
unfolding walk is_among
walk_one ring rounds at y h = elim (Option-cases (get_elem? ring (at % length ring))) [
  | inl e ↦ absurd (none-ne-some y (sym (ap named e) ∙ h))
  | inr ((k, name), e) ↦
      rw (e, walk) (ap (λ z. z ∷ []) (some-injective name y (sym (ap named e) ∙ h)))
]

wraps : (b n : ℕ) → b ≡ n → b % n % n ≡ 0
wraps b n e = rw e (rw (mod_self n) (zero-mod n))

stays : (b n : ℕ) → b < n → b % n % n ≡ b
stays b n l = rw (mod-eq_of_lt l) (mod-eq_of_lt l)

at_owner :
    (h : ℕ) (s : ℕ × String) (ring : List (ℕ × String)) (y : String)
    → owner h (s ∷ ring) ≡ some y
    → named (get_elem? (s ∷ ring) (bisect h (s ∷ ring) % length (s ∷ ring) % length (s ∷ ring)))
      ≡ some y
unfolding first_name
at_owner h (k, name) ring y o =
    let r = (k, name) ∷ ring in
    let n = length r in
    elim (Option-cases (after h r)) [
      | inl e ↦
          ap (λ i. named (get_elem? r i)) (wraps (bisect h r) n ((bisect-after h r).1 e))
          ∙ sym (ap (λ a. or_first a (first_name r)) e)
          ∙ o
      | inr (z, e) ↦
          ap (λ i. named (get_elem? r i)) (stays (bisect h r) n ((bisect-after h r).0 z e).1)
          ∙ ((bisect-after h r).0 z e).0
          ∙ sym (ap (λ a. or_first a (first_name r)) e)
          ∙ o
    ]

lookup_ring-owner :
    (hash : String → ℕ) (ring : List (ℕ × String)) (key y : String)
    → owner (hash key) ring ≡ some y
    → lookup_ring hash ring key 1 ≡ y ∷ []
unfolding lookup_ring after first_name
lookup_ring-owner hash [] key y o = cc
lookup_ring-owner hash (s ∷ ring) key y o =
    walk_one (s ∷ ring) (length ring) _ y (at_owner (hash key) s ring y o)

after-take_out :
    (h : ℕ) (x y : String) (ring : List (ℕ × String))
    → str_eq y x ≡ false
    → after h ring ≡ some y
    → after h (take_out x ring) ≡ some y
unfolding after take_out
after-take_out h x y [] n e = cc
after-take_out h x y ((k, name) ∷ ring) n e = ground (arith, after-take_out h x y ring)

after-take_out-none :
    (h : ℕ) (x : String) (ring : List (ℕ × String))
    → after h ring ≡ none
    → after h (take_out x ring) ≡ none
unfolding after take_out
after-take_out-none h x [] e = refl
after-take_out-none h x ((k, name) ∷ ring) e = ground (arith, after-take_out-none h x ring)

first_name-take_out :
    (x y : String) (ring : List (ℕ × String))
    → str_eq y x ≡ false
    → first_name ring ≡ some y
    → first_name (take_out x ring) ≡ some y
unfolding first_name take_out
first_name-take_out x y [] n e = cc
first_name-take_out x y ((k, name) ∷ ring) n e = ground arith

owner-take_out :
    (h : ℕ) (x y : String) (ring : List (ℕ × String))
    → str_eq y x ≡ false
    → owner h ring ≡ some y
    → owner h (take_out x ring) ≡ some y
owner-take_out h x y ring n o = elim (Option-cases (after h ring)) [
  | inl e ↦
      ap (λ a. or_first a (first_name (take_out x ring))) (after-take_out-none h x ring e)
      ∙ first_name-take_out x y ring n (sym (ap (λ a. or_first a (first_name ring)) e) ∙ o)
  | inr (z, e) ↦
      ap (λ a. or_first a (first_name (take_out x ring)))
        (after-take_out h x y ring n (e ∙ sym (ap (λ a. or_first a (first_name ring)) e) ∙ o))
]

-- Some replica owns each key of a ring.
an_owner :
    (h : ℕ) (s : ℕ × String) (ring : List (ℕ × String))
    → (z : String) × (owner h (s ∷ ring) ≡ some z)
unfolding first_name
an_owner h (k, name) ring = elim (Option-cases (after h ((k, name) ∷ ring))) [
  | inl e ↦ (name, ap (λ a. or_first a (some name)) e)
  | inr (z, e) ↦ (z, ap (λ a. or_first a (some name)) e)
]

head_eq : (y z : String) → ◌≡◌ {A = List String} (z ∷ []) (y ∷ []) → z ≡ y
head_eq y z e = some-injective z y (ap (λ l. elim l [ [] ↦ none | a ∷ _ ↦ some a ]) e)

-- For any ring, hash and key, if the lookup of one name gives y, and x is another name, then on the
-- ring without the slots of x the lookup still gives y: taking a replica off the ring moves no key
-- that it did not have.
pub lookup_ring-take_out :
    (hash : String → ℕ) (ring : List (ℕ × String)) (key x y : String)
    → str_eq y x ≡ false
    → lookup_ring hash ring key 1 ≡ y ∷ []
    → lookup_ring hash (take_out x ring) key 1 ≡ y ∷ []
unfolding lookup_ring
lookup_ring-take_out hash [] key x y n e = cc
lookup_ring-take_out hash (s ∷ ring) key x y n e =
    let (z, o) = an_owner (hash key) s ring in
    let q = head_eq y z (sym (lookup_ring-owner hash (s ∷ ring) key z o) ∙ e) in
    lookup_ring-owner hash (take_out x (s ∷ ring)) key y
      (owner-take_out (hash key) x y (s ∷ ring) n (o ∙ ap some q))
