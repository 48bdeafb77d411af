-- ===== src/Engine/Admitted.antt =====
-- `_admit_arrivals` of packages/llmkit/llmkit/simulator/engine.py.
use llm_inference_stack.Prelude.{
  ℕ, ◌+◌, ◌≤◌, ◌<◌, ◌≡◌, refl, ap, sym, ◌∙◌, List, [], ◌∷◌, ◌++◌, map, length, All, inl, inr,
  Bool-cases, if_true, if_false, length-append, leb, leb→le, leb→lt,
}
use llm_inference_stack.Paged.{range_from}
use llm_inference_stack.Engine.{SimRequest, new_sequence, World, Engine}
use llm_inference_stack.Engine.Arrivals.{with_tokens, admit_one, admit_while, admit_arrivals}

-- The first of the heap is later than the clock.
unfoldable pub IsLater : ℕ → List (ℕ × ℕ × SimRequest) → Type 0
IsLater now [] = Unit
IsLater now (x ∷ heap) = now < x.0

abbrev pub requests : List (ℕ × ℕ × SimRequest) → List SimRequest
requests [] = []
requests ((arrival, number, r) ∷ heap) = r ∷ requests heap

-- `due` is what left the heap, in its order.
pub record Admitted (w : World) (heap : List (ℕ × ℕ × SimRequest)) (e e' : Engine) : Type 0 where
  pub due : List (ℕ × ℕ × SimRequest)
  pub all : heap ≡ due ++ e'.pending
  pub arrived : All (λ x. x.0 ≤ e.now + w.slack) due
  pub later : IsLater (e.now + w.slack) e'.pending
  pub made : e'.seqs ≡ e.seqs ++ map (λ r. new_sequence (with_tokens w r)) (requests due)
  pub queued : e'.waiting ≡ e.waiting ++ range_from (length due) (length e.seqs)
  pub rest : e' ≡ record e { pending = e'.pending; seqs = e'.seqs; waiting = e'.waiting }

append-nil {ℓ} : {A : Type ℓ} (xs : List A) → xs ++ [] ≡ xs
append-nil [] = refl
append-nil (x ∷ xs) = ap (◌∷◌ x) (append-nil xs)

append-append {ℓ} : {A : Type ℓ} (xs ys zs : List A) → (xs ++ ys) ++ zs ≡ xs ++ (ys ++ zs)
append-append [] ys zs = refl
append-append (x ∷ xs) ys zs = ap (◌∷◌ x) (append-append xs ys zs)

module _ (w : World) where
  admit_one-Admitted :
      (heap : List (ℕ × ℕ × SimRequest)) (e : Engine) {e' : Engine} (x : ℕ × ℕ × SimRequest)
      → e.pending ≡ x ∷ heap
      → x.0 ≤ e.now + w.slack
      → Admitted w heap (admit_one w (x.2) heap e) e'
      → Admitted w (x ∷ heap) e e'
  unfolding admit_one range_from
  admit_one-Admitted heap e x h l a = record {
    due = x ∷ a.due;
    all = ap (◌∷◌ x) a.all;
    arrived = (l, a.arrived);
    later = a.later;
    made = a.made ∙ append-append e.seqs _ _;
    queued =
        a.queued
        ∙ append-append e.waiting (length e.seqs ∷ []) _
        ∙ ap (λ n. e.waiting ++ length e.seqs ∷ range_from (length a.due) n)
            (length-append e.seqs _);
    rest = a.rest;
  }

  admit_while-Admitted :
      (heap : List (ℕ × ℕ × SimRequest)) (e : Engine)
      → e.pending ≡ heap
      → Admitted w heap e (admit_while w heap e)
  unfolding admit_while admit_one IsLater range_from
  admit_while-Admitted [] e h = record {
    due = [];
    all = sym h;
    arrived = tt;
    later = rw h tt;
    made = sym (append-nil e.seqs);
    queued = sym (append-nil e.waiting);
    rest = refl;
  }
  admit_while-Admitted ((arrival, number, r) ∷ heap) e h =
      elim (Bool-cases (leb arrival (e.now + w.slack))) [
        | inl l ↦ rw (if_true _ _ l) (
            admit_one-Admitted heap e (arrival, number, r) h (leb→le arrival (e.now + w.slack) l)
              (admit_while-Admitted heap (admit_one w r heap e) refl))
        | inr l ↦ rw (if_false _ _ l) (record {
          due = [];
          all = sym h;
          arrived = tt;
          later = rw h (leb→lt arrival (e.now + w.slack) l);
          made = sym (append-nil e.seqs);
          queued = sym (append-nil e.waiting);
          rest = refl;
        })
      ]

  -- What admit_arrivals takes from the heap is a prefix of it in which every arrival is within the
  -- clock and its tolerance, what is left starts later, each request taken becomes one new sequence
  -- at the end of the store in heap order, their numbers go to the end of the waiting queue in that
  -- order, and nothing else of the engine changes.
  pub admit_arrivals-Admitted : (e : Engine) → Admitted w e.pending e (admit_arrivals w e)
  unfolding admit_arrivals
  admit_arrivals-Admitted e = admit_while-Admitted e.pending e refl
