-- ===== src/Engine/Chunks.antt =====
-- The prefill chunks of running sequences, in `_schedule` of
-- packages/llmkit/llmkit/simulator/engine.py.
use llm_inference_stack.Prelude.{
  ℕ, ◌+◌, ◌-◌, ◌≤◌, ◌<◌, ◌≡◌, refl, ap, sym, ◌∙◌, some, List, [], ◌∷◌, ◌++◌, length, get_elem?,
  get_elem?-in_range, All, inl, inr, Bool-cases, if_true, if_false, ltb→lt, arith, ltb, ◌==◌,
  if◌then◌else◌,
}
use llm_inference_stack.Exec.{ok}
use llm_inference_stack.Engine.{Sequence, EngineConfig, World, Engine}
use llm_inference_stack.Engine.Plan.{Prefills, add_chunk, chunk_of, continue_prefills}
use llm_inference_stack.Engine.Apply.{sum_chunks}

-- A chunk is some of the prompt tokens that its sequence has left.
unfoldable pub IsChunk : List Sequence → ℕ × ℕ → Type 0
IsChunk seqs (i, c) =
    (s : Sequence) × (get_elem? seqs i ≡ some s) × (0 < c) × (s.prefilled + c ≤ s.req.prompt_tokens)

-- What was planned before stays, and the budget pays for each new chunk.
pub record Planned (seqs : List Sequence) (p p' : Prefills) : Type 0 where
  pub more : List (ℕ × ℕ)
  pub chunks : p'.chunks ≡ p.chunks ++ more
  pub valid : All (IsChunk seqs) more
  pub paid : sum_chunks more + p'.budget ≡ p.budget

append-nil : (xs : List (ℕ × ℕ)) → xs ++ [] ≡ xs
append-nil [] = refl
append-nil (x ∷ xs) = ap (◌∷◌ x) (append-nil xs)

append-append : (xs ys zs : List (ℕ × ℕ)) → (xs ++ ys) ++ zs ≡ xs ++ (ys ++ zs)
append-append [] ys zs = refl
append-append (x ∷ xs) ys zs = ap (◌∷◌ x) (append-append xs ys zs)

nothing-Planned : (seqs : List Sequence) (p : Prefills) → Planned seqs p p
unfolding sum_chunks
nothing-Planned seqs p = record {
  more = [];
  chunks = sym (append-nil p.chunks);
  valid = tt;
  paid = omega arith;
}

module _ (w : World) (cfg : EngineConfig) where
  chunk_of-le :
      (remaining budget : ℕ)
      → (chunk_of w cfg remaining budget ≤ remaining) × (chunk_of w cfg remaining budget ≤ budget)
  unfolding chunk_of
  chunk_of-le remaining budget = (ground arith, ground arith)

  -- The round for one sequence.
  next_chunk-Planned :
      (seqs : List Sequence) (i : ℕ) (s : Sequence) (p : Prefills) {p' : Prefills}
      → get_elem? seqs i ≡ some s
      → (let chunk = chunk_of w cfg (s.req.prompt_tokens - s.prefilled) p.budget in
          Planned seqs (if ltb 0 chunk then add_chunk i chunk p else p) p')
      → Planned seqs p p'
  unfolding add_chunk IsChunk sum_chunks
  next_chunk-Planned seqs i s p {p'} h =
      let chunk = chunk_of w cfg (s.req.prompt_tokens - s.prefilled) p.budget in
      let (left, paid) = chunk_of-le (s.req.prompt_tokens - s.prefilled) p.budget in
      elim (Bool-cases (ltb 0 chunk))
        as (λ _.
          Planned seqs (if ltb 0 chunk then add_chunk i chunk p else p) p' → Planned seqs p p') [
            | inl l ↦ rw (if_true _ _ l) (λ a. record {
              more = (i, chunk) ∷ a.more;
              chunks = a.chunks ∙ append-append p.chunks _ _;
              valid = ((s, h, ltb→lt 0 chunk l, omega (arith, left, ltb→lt 0 chunk l)), a.valid);
              paid = omega (arith, a.paid, paid);
            })
            | inr l ↦ rw (if_false _ _ l) (λ a. a)
          ]

  -- For running sequences in the store, the loop that continues partial prefills always returns and
  -- leaves the engine as it was; it only adds chunks, each positive and within the prompt tokens
  -- that its sequence has left, and the chunks it adds and the budget it leaves sum to the budget
  -- it got.
  pub continue_prefills-Planned :
      (ids : List ℕ) (p : Prefills) (e : Engine)
      → All (λ i. i < length e.seqs) ids
      → (p' : Prefills) × (continue_prefills w cfg ids p e ≡ (ok p', e)) × Planned e.seqs p p'
  unfolding continue_prefills
  continue_prefills-Planned [] p e l = (p, refl, nothing-Planned e.seqs p)
  continue_prefills-Planned (i ∷ ids) p e (l, ls) = elim (Bool-cases (p.budget == 0)) [
    | inl h ↦ (p, rw (if_true _ _ h) refl, nothing-Planned e.seqs p)
    | inr h ↦
        let (s, found) = get_elem?-in_range e.seqs i l in
        let chunk = chunk_of w cfg (s.req.prompt_tokens - s.prefilled) p.budget in
        let (p', run, planned) =
          continue_prefills-Planned ids (if ltb 0 chunk then add_chunk i chunk p else p) e ls in
        (p', rw (if_false _ _ h) (rw found run), next_chunk-Planned e.seqs i s p found planned)
  ]
