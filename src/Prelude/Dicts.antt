-- ===== src/Prelude/Dicts.antt =====
-- Dictionaries with text keys, as association lists in the order of insertion.
use Prim.Native.String.{String}
use mathlib.Core.Path.{◌≡◌, refl}
use mathlib.Core.Logic.{◌≢◌}
use mathlib.Core.List.{List, [], ◌∷◌, ◌++◌}
use mathlib.Core.Option.{Option, none, some}
use native.Mathlib.Omega.{arith}
use text.Mathlib.Text.{◌==◌ as str_eq}
use text.Mathlib.TextEquality.{eq_iff}
use llm_inference_stack.Prelude.Tests.{if◌then◌else◌}

module _ {V : Type 0} where
  unfoldable pub lookup : String → List (String × V) → Option V
  lookup k [] = none
  lookup k ((j, v) ∷ l) = if str_eq j k then some v else lookup k l

  -- `d[k] = v`: an old key keeps its place, a new one goes to the end.
  unfoldable pub insert : String → V → List (String × V) → List (String × V)
  insert k v [] = (k, v) ∷ []
  insert k v ((j, w) ∷ l) = if str_eq j k then (k, v) ∷ l else (j, w) ∷ insert k v l

  -- `d.pop(k, None)`
  unfoldable pub without : String → List (String × V) → List (String × V)
  without k [] = []
  without k ((j, w) ∷ l) = if str_eq j k then l else (j, w) ∷ without k l

  -- No key stands twice, as in any dictionary.
  abbrev pub IsDict : List (String × V) → Type 0
  IsDict [] = Unit
  IsDict ((j, _) ∷ l) = (lookup j l ≡ none) × IsDict l

  pub lookup-insert :
      (k j : String) (v : V) (l : List (String × V))
      → lookup j (insert k v l) ≡ (if str_eq k j then some v else lookup j l)
  unfolding lookup insert
  lookup-insert k j v [] = refl
  lookup-insert k j v ((i, w) ∷ l) =
      ground (arith, eq_iff k j, eq_iff i k, eq_iff i j, lookup-insert k j v l)

  pub lookup-without_ne :
      (k j : String) (l : List (String × V)) → k ≢ j → lookup j (without k l) ≡ lookup j l
  unfolding lookup without
  lookup-without_ne k j [] h = refl
  lookup-without_ne k j ((i, w) ∷ l) h =
      ground (arith, eq_iff i k, eq_iff i j, lookup-without_ne k j l)

  pub without_absent : (k : String) (l : List (String × V)) → lookup k l ≡ none → without k l ≡ l
  unfolding lookup without
  without_absent k [] h = refl
  without_absent k ((i, w) ∷ l) h = ground (arith, without_absent k l)

  pub lookup-without_self :
      (k : String) (l : List (String × V)) → IsDict l → lookup k (without k l) ≡ none
  unfolding lookup without
  lookup-without_self k [] d = refl
  lookup-without_self k ((i, w) ∷ l) d = ground (arith, eq_iff i k, lookup-without_self k l d.1)

  lookup-without-none :
      (k j : String) (l : List (String × V)) → lookup j l ≡ none → lookup j (without k l) ≡ none
  unfolding lookup without
  lookup-without-none k j [] h = refl
  lookup-without-none k j ((i, w) ∷ l) h =
      ground (arith, eq_iff i k, eq_iff i j, lookup-without-none k j l)

  pub without-IsDict : (k : String) (l : List (String × V)) → IsDict l → IsDict (without k l)
  unfolding without
  without-IsDict k [] d = tt
  without-IsDict k ((i, w) ∷ l) d =
      ground (arith, lookup-without-none k i l, without-IsDict k l d.1)

  pub lookup-append_one :
      (k j : String) (v : V) (l : List (String × V))
      → lookup k l ≡ none
      → lookup j (l ++ (k, v) ∷ []) ≡ (if str_eq k j then some v else lookup j l)
  unfolding lookup
  lookup-append_one k j v [] h = refl
  lookup-append_one k j v ((i, w) ∷ l) h =
      ground (arith, eq_iff i k, eq_iff i j, eq_iff k j, lookup-append_one k j v l)

  pub append_one-IsDict :
      (k : String) (v : V) (l : List (String × V))
      → lookup k l ≡ none
      → IsDict l
      → IsDict (l ++ (k, v) ∷ [])
  unfolding lookup
  append_one-IsDict k v [] h d = (refl, tt)
  append_one-IsDict k v ((i, w) ∷ l) h d =
      ground (arith, eq_iff i k, eq_iff k i, lookup-append_one k i v l, append_one-IsDict k v l)

  pub insert-IsDict :
      (k : String) (v : V) (l : List (String × V)) → IsDict l → IsDict (insert k v l)
  unfolding insert lookup
  insert-IsDict k v [] d = (refl, tt)
  insert-IsDict k v ((i, w) ∷ l) d =
      ground (arith, eq_iff i k, eq_iff k i, lookup-insert k i v l, insert-IsDict k v l)
