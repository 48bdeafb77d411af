-- ===== src/Metrics/Knee.antt =====
-- `find_knee` gives the greatest load that passes.
use llm_inference_stack.Prelude.{
  ℕ, ◌≤◌, ◌≡◌, refl, sym, ap, ◌∙◌, Bool, true, false, ◌&&◌, Option, none, some, List, [], ◌∷◌, inl,
  inr, Bool-cases, if_true, if_false, sort_by, All, IsAscending, sort_by-IsAscending, tally,
  tally-sort_by, ltb, arith, if◌then◌else◌,
}
use mathlib.Core.Path.{subst}
use mathlib.Core.Option.{some-injective, none-ne-some}
use llm_inference_stack.Metrics.Summary.{
  RunSummary, is_passing, lower_concurrency, last_passing, find_knee,
}

-- The greatest load that passes.
abbrev pub passes_above : ℕ → RunSummary → Bool
passes_above c s = is_passing s && ltb c s.concurrency

last_passing-le :
    (a : ℕ) (best : Option RunSummary) (s : RunSummary) (xs : List RunSummary)
    → ((b : RunSummary) → best ≡ some b → a ≤ b.concurrency)
    → All (λ x. a ≤ x.concurrency) xs
    → last_passing best xs ≡ some s
    → a ≤ s.concurrency
unfolding last_passing
last_passing-le a best s [] h k e = h s e
last_passing-le a best s (x ∷ xs) h (l, k) e = elim (Bool-cases (is_passing x)) [
  | inl p ↦
      last_passing-le a (some x) s xs
        (λ b d. subst (λ z. a ≤ z.concurrency) (some-injective x b d) l) k
        (sym (ap (λ o. last_passing o xs) (if_true (some x) best p)) ∙ e)
  | inr p ↦
      last_passing-le a best s xs h k
        (sym (ap (λ o. last_passing o xs) (if_false (some x) best p)) ∙ e)
]

-- What the search over an ascending list finds.
record Searched (best : Option RunSummary) (xs : List RunSummary) : Type 0 where
  missing : last_passing best xs ≡ none → (best ≡ none) × (tally is_passing xs ≡ 0)
  found :
      (s : RunSummary)
      → last_passing best xs ≡ some s
      → ((b : RunSummary) → best ≡ some b → is_passing b ≡ true)
      → (is_passing s ≡ true) × (tally (passes_above s.concurrency) xs ≡ 0)

above_not : (b : Bool) (c d : ℕ) → d ≤ c → ◌≡◌ {A = ℕ} (if b && ltb c d then 1 else 0) 0
above_not true c d l = ground arith
above_not false c d l = refl

fails_not : (b : Bool) (c d : ℕ) → b ≡ false → ◌≡◌ {A = ℕ} (if b && ltb c d then 1 else 0) 0
fails_not true c d h = cc
fails_not false c d h = refl

units_false : (b : Bool) → b ≡ false → ◌≡◌ {A = ℕ} (if b then 1 else 0) 0
units_false b h = rw h refl

last_passing-Searched_nil : (best : Option RunSummary) → Searched best []
unfolding last_passing tally
last_passing-Searched_nil best = record { missing = λ e. (e, refl); found = λ s e b. (b s e, refl) }

last_passing-Searched_pass :
    (best : Option RunSummary) (x : RunSummary) (xs : List RunSummary)
    → is_passing x ≡ true
    → All (λ y. x.concurrency ≤ y.concurrency) xs
    → Searched (some x) xs
    → Searched best (x ∷ xs)
unfolding last_passing tally
last_passing-Searched_pass best x xs p l h = record {
  missing = λ e. absurd (none-ne-some x (sym (h.missing (here ∙ e)).0));
  found = λ s e b.
      let (q, t) =
        h.found s (here ∙ e) (λ y d. subst (λ z. is_passing z ≡ true) (some-injective x y d) p) in
      (
        q,
        omega (
          arith,
          t,
          above_not (is_passing x) s.concurrency x.concurrency (
              last_passing-le x.concurrency (some x) s xs
                (λ y d.
                  subst (λ z. x.concurrency ≤ z.concurrency) (some-injective x y d) (omega arith))
                l (here ∙ e)),
        ),
      );
}
  where
    here : last_passing (some x) xs ≡ last_passing (if is_passing x then some x else best) xs
    here = ap (λ o. last_passing o xs) (sym (if_true (some x) best p))

last_passing-Searched_fail :
    (best : Option RunSummary) (x : RunSummary) (xs : List RunSummary)
    → is_passing x ≡ false
    → Searched best xs
    → Searched best (x ∷ xs)
unfolding last_passing tally
last_passing-Searched_fail best x xs p h = record {
  missing =
      λ e. let (a, b) = h.missing (here ∙ e) in (a, omega (arith, b, units_false (is_passing x) p));
  found = λ s e b.
      let (q, t) = h.found s (here ∙ e) b in
      (q, omega (arith, t, fails_not (is_passing x) s.concurrency x.concurrency p));
}
  where
    here : last_passing best xs ≡ last_passing (if is_passing x then some x else best) xs
    here = ap (λ o. last_passing o xs) (sym (if_false (some x) best p))

last_passing-Searched :
    (best : Option RunSummary) (xs : List RunSummary)
    → IsAscending (λ x. x.concurrency) xs
    → Searched best xs
last_passing-Searched best [] a = last_passing-Searched_nil best
last_passing-Searched best (x ∷ xs) (l, a) = elim (Bool-cases (is_passing x)) [
  | inl p ↦ last_passing-Searched_pass best x xs p l (last_passing-Searched (some x) xs a)
  | inr p ↦ last_passing-Searched_fail best x xs p (last_passing-Searched best xs a)
]

lower_yes : (x y : RunSummary) → lower_concurrency x y ≡ true → x.concurrency ≤ y.concurrency
lower_yes x y h = ground arith

lower_no : (x y : RunSummary) → lower_concurrency x y ≡ false → y.concurrency ≤ x.concurrency
lower_no x y h = ground arith

-- What `find_knee` finds.
pub record Knee (summaries : List RunSummary) (r : Option RunSummary) : Type 0 where
  pub missing : r ≡ none → tally is_passing summaries ≡ 0
  pub found :
      (s : RunSummary)
      → r ≡ some s
      → (is_passing s ≡ true) × (tally (passes_above s.concurrency) summaries ≡ 0)

-- For any summaries, find_knee gives none only if none of them passes, and otherwise one that
-- passes, such that none with a higher concurrency does.
pub find_knee-Knee : (summaries : List RunSummary) → Knee summaries (find_knee summaries)
unfolding find_knee
find_knee-Knee summaries =
    let h =
      last_passing-Searched none (sort_by lower_concurrency summaries)
        (sort_by-IsAscending (λ x. x.concurrency) lower_concurrency lower_yes lower_no summaries) in
    record {
      missing = λ e. sym (tally-sort_by is_passing lower_concurrency summaries) ∙ (h.missing e).1;
      found = λ s e.
          let (q, t) = h.found s e (λ b d. cc) in
          (q, sym (tally-sort_by (passes_above s.concurrency) lower_concurrency summaries) ∙ t);
    }
