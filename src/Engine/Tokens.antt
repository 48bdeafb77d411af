-- ===== src/Engine/Tokens.antt =====
-- The synthetic token ids of packages/llmkit/llmkit/simulator/engine.py.
use llm_inference_stack.Prelude.{
  ℕ, zero, suc, ◌+◌, ◌-◌, ◌≤◌, ◌≡◌, refl, ap, sym, ◌∙◌, min, not, ◌&&◌, some, List, [], ◌∷◌, ◌++◌,
  length, take, length-append, length-take, Bool-cases, inl, inr, arith, if◌then◌else◌,
}
use llm_inference_stack.Engine.{SimRequest, World}
use llm_inference_stack.Engine.Arrivals.{text_or, is_text, ids_from, key_base, synth_token_ids}

length-ids_from : (base first n : ℕ) → length (ids_from base first n) ≡ n
unfolding ids_from
length-ids_from base first zero = refl
length-ids_from base first (suc n) = ap suc (length-ids_from base (first + 1) n)

-- How many of the first tokens of a request come from its group or session.
unfoldable pub n_shared : SimRequest → ℕ
unfolding text_or is_text
n_shared r =
    if is_text (text_or r.prefix_group r.session_id)
    then min r.shared_prefix_tokens r.prompt_tokens
    else 0

n_shared-le : (r : SimRequest) → n_shared r ≤ r.prompt_tokens
unfolding n_shared
n_shared-le r = ground arith

take-append {ℓ} :
    {A : Type ℓ} (k n : ℕ) (xs ys : List A)
    → k ≤ length xs
    → k ≤ n
    → take k (take n (xs ++ ys)) ≡ take k xs
take-append zero n xs ys h l = refl
take-append (suc k) n [] ys h l = absurd (omega arith)
take-append (suc k) zero (x ∷ xs) ys h l = absurd (omega arith)
take-append (suc k) (suc n) (x ∷ xs) ys h l =
    ap (◌∷◌ x) (take-append k n xs ys (omega arith) (omega arith))

take-ids_from :
    (base first k n : ℕ) → k ≤ n → take k (ids_from base first n) ≡ ids_from base first k
unfolding ids_from
take-ids_from base first zero n h = refl
take-ids_from base first (suc k) zero h = absurd (omega arith)
take-ids_from base first (suc k) (suc n) h =
    ap (◌∷◌ (base + first)) (take-ids_from base (first + 1) k n (omega arith))

module _ (w : World) where
  -- The request's own tokens, after the shared ones.
  own_ids : SimRequest → List ℕ
  unfolding key_base is_text
  own_ids r =
      if is_text r.session_id && not (is_text r.prefix_group)
      then ids_from (key_base w "sess" r.session_id + 500_000_000) (n_shared r)
          (r.prompt_tokens - n_shared r)
      else ids_from (key_base w "uniq" (some r.request_id) + 900_000_000) 0
          (r.prompt_tokens - n_shared r)

  shared_ids : SimRequest → List ℕ
  shared_ids r = ids_from (key_base w "prefix" (text_or r.prefix_group r.session_id)) 0 (n_shared r)

  synth_token_ids-split :
      (r : SimRequest) → synth_token_ids w r ≡ take r.prompt_tokens (shared_ids r ++ own_ids r)
  unfolding synth_token_ids n_shared own_ids shared_ids
  synth_token_ids-split r =
      elim (Bool-cases (is_text r.session_id && not (is_text r.prefix_group))) [
        | inl h ↦ rw h refl
        | inr h ↦ rw h (
            rw
              (length-ids_from (key_base w "prefix" (text_or r.prefix_group r.session_id)) 0
                (n_shared r))
              refl)
      ]

  length-own_ids : (r : SimRequest) → length (own_ids r) ≡ r.prompt_tokens - n_shared r
  unfolding own_ids
  length-own_ids r = elim (Bool-cases (is_text r.session_id && not (is_text r.prefix_group))) [
    | inl h ↦ rw h (length-ids_from _ _ _)
    | inr h ↦ rw h (length-ids_from _ _ _)
  ]

  length-shared_ids : (r : SimRequest) → length (shared_ids r) ≡ n_shared r
  unfolding shared_ids
  length-shared_ids r = length-ids_from _ _ _

  pub length-synth_token_ids : (r : SimRequest) → length (synth_token_ids w r) ≡ r.prompt_tokens
  length-synth_token_ids r = rw (synth_token_ids-split r) (
      rw (length-take r.prompt_tokens (shared_ids r ++ own_ids r)) (
        omega (
          arith,
          length-append (shared_ids r) (own_ids r),
          length-shared_ids r,
          length-own_ids r,
          n_shared-le r,
        )))

  take-synth_token_ids :
      (k : ℕ) (r : SimRequest)
      → k ≤ n_shared r
      → take k (synth_token_ids w r)
        ≡ ids_from (key_base w "prefix" (text_or r.prefix_group r.session_id)) 0 k
  unfolding shared_ids
  take-synth_token_ids k r l = rw (synth_token_ids-split r) (
      take-append k r.prompt_tokens (shared_ids r) (own_ids r)
        (omega (arith, length-shared_ids r, l)) (omega (arith, n_shared-le r, l))
      ∙ take-ids_from _ 0 k (n_shared r) l)

  -- The synthetic prompt has exactly prompt_tokens ids, and two requests with the same group or
  -- session agree on the first k ids for every k that is at most the shared tokens of both.
  pub synth_token_ids-shared :
      (q r : SimRequest)
      → text_or q.prefix_group q.session_id ≡ text_or r.prefix_group r.session_id
      → (k : ℕ) → k ≤ n_shared q
      → k ≤ n_shared r
      → (length (synth_token_ids w q) ≡ q.prompt_tokens)
        × (take k (synth_token_ids w q) ≡ take k (synth_token_ids w r))
  synth_token_ids-shared q r same k l m = (
    length-synth_token_ids q,
    take-synth_token_ids k q l
        ∙ ap (λ key. ids_from (key_base w "prefix" key) 0 k) same
        ∙ sym (take-synth_token_ids k r m),
  )
