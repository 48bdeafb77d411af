-- ===== src/Prelude/Names.antt =====
-- Lists of names: membership, and lists without a repetition.
use Prim.Native.String.{String}
use mathlib.Core.Path.{◌≡◌, refl}
use mathlib.Core.Bool.{Bool, true, false, ◌||◌}
use mathlib.Core.List.{List, [], ◌∷◌, ◌++◌}
use native.Mathlib.Omega.{arith}
use text.Mathlib.Text.{◌==◌ as str_eq}
use text.Mathlib.TextEquality.{eq_iff}

-- `name in names`
unfoldable pub is_among : String → List String → Bool
is_among name [] = false
is_among name (x ∷ names) = str_eq name x || is_among name names

unfoldable pub IsDistinct : List String → Type 0
IsDistinct [] = Unit
IsDistinct (x ∷ xs) = (is_among x xs ≡ false) × IsDistinct xs

str_eq_comm : (x y : String) → str_eq x y ≡ false → str_eq y x ≡ false
str_eq_comm x y h = ground (arith, eq_iff x y, eq_iff y x)

or_false : (a b : Bool) → (a || b) ≡ false → (a ≡ false) × (b ≡ false)
or_false false b h = (refl, h)
or_false true b h = cc

is_among-append :
    (x name : String) (xs : List String)
    → is_among x xs ≡ false
    → str_eq x name ≡ false
    → is_among x (xs ++ name ∷ []) ≡ false
unfolding is_among
is_among-append x name [] h e = rw e refl
is_among-append x name (y ∷ xs) h e =
    let (h₀, h₁) = or_false (str_eq x y) (is_among x xs) h in rw h₀ (is_among-append x name xs h₁ e)

pub append-IsDistinct :
    (name : String) (xs : List String)
    → is_among name xs ≡ false
    → IsDistinct xs
    → IsDistinct (xs ++ name ∷ [])
unfolding IsDistinct is_among
append-IsDistinct name [] h d = (refl, tt)
append-IsDistinct name (y ∷ xs) h (e, d) =
    let (h₀, h₁) = or_false (str_eq name y) (is_among name xs) h in
    (is_among-append y name xs e (str_eq_comm name y h₀), append-IsDistinct name xs h₁ d)
