-- ===== src/Engine/Counted.antt =====
-- The tokens that `step` gives to its sequences, in packages/llmkit/llmkit/simulator/engine.py.
use mathlib.Core.Option.{some-injective}
use llm_inference_stack.Prelude.{
  ℕ, zero, suc, ◌-◌, ◌≤◌, ◌<◌, ◌≡◌, refl, sym, ◌∙◌, min, max, none, some, List, [], ◌∷◌, ◌++◌, ◌⊎◌,
  length, get_elem?, set, replicate, All, inl, inr, length-append, length-replicate, length-set,
  get_elem?-in_range, arith,
}
use llm_inference_stack.Exec.{ok, Exec, gets, ◌>>=◌}
use llm_inference_stack.Engine.{Sequence, Engine, seq, put_seq}
use llm_inference_stack.Engine.Apply.{emit, first_emit, apply_decodes, apply_first_tokens}

-- A sequence has a time for each token, no more tokens than its request wants (or the first one),
-- and a time of the first token exactly if it has a token.
pub record IsCounted (s : Sequence) : Type 0 where
  pub timed : length s.token_times ≡ s.generated
  pub bounded : s.generated ≤ max 1 s.req.output_tokens
  pub first_none : s.first_token ≡ none → s.generated ≡ 0

-- A request that wants a token at least.
abbrev pub Wants : Sequence → Type 0
Wants s = 0 < s.req.output_tokens

emit-IsCounted :
    (tokens now : ℕ) (s : Sequence) → IsCounted s → Wants s → IsCounted (emit tokens now s)
unfolding emit
emit-IsCounted tokens now s c wants = record {
  timed = omega (
    arith,
    length-append s.token_times (replicate (min tokens (s.req.output_tokens - s.generated)) now),
    length-replicate (min tokens (s.req.output_tokens - s.generated)) now,
    c.timed,
    c.bounded,
    wants,
  );
  bounded = omega arith;
  first_none = ground (arith, c.first_none);
}

first_emit-cases :
    (now : ℕ) (s : Sequence)
    → (first_emit now s ≡ s)
      ⊎ ((s.first_token ≡ none)
          × (first_emit now s ≡ record s {
            generated = 1;
            first_token = some now;
            token_times = s.token_times ++ now ∷ [];
          }))
unfolding first_emit
first_emit-cases now s = ground arith

first_emit-IsCounted : (now : ℕ) (s : Sequence) → IsCounted s → IsCounted (first_emit now s)
first_emit-IsCounted now s c = elim (first_emit-cases now s) [
  | inl h ↦ rw h c
  | inr (n, h) ↦ rw h (record {
    timed = omega (arith, length-append s.token_times (now ∷ []), c.timed, c.first_none n);
    bounded = omega arith;
    first_none = λ h'. cc;
  })
]

All-get {ℓ} :
    {A : Type 0} (P : A → Type ℓ) (xs : List A) (i : ℕ) (x : A)
    → All P xs
    → get_elem? xs i ≡ some x
    → P x
All-get P [] i x a e = cc
All-get P (y ∷ xs) zero x (p, a) e = rw (sym (some-injective y x e)) p
All-get P (y ∷ xs) (suc i) x (p, a) e = All-get P xs i x a e

All-set {ℓ} :
    {A : Type 0} (P : A → Type ℓ) (xs : List A) (i : ℕ) (x : A)
    → All P xs
    → P x
    → All P (set xs i x)
All-set P [] i x a p = tt
All-set P (y ∷ xs) zero x (q, a) p = (p, a)
All-set P (y ∷ xs) (suc i) x (q, a) p = (q, All-set P xs i x a p)

-- What the loops keep of the engine: the number of sequences and that all are counted.
pub record Kept (e e' : Engine) : Type 0 where
  pub counted : All IsCounted e'.seqs
  pub size : length e'.seqs ≡ length e.seqs
  pub clock : e'.now ≡ e.now

-- What a loop keeps that replaces sequences by others that meet `P`.
module _ (P : Sequence → Type 0) where
  record KeptBy (e e' : Engine) : Type 0 where
    holds : All P e'.seqs
    size : length e'.seqs ≡ length e.seqs
    clock : e'.now ≡ e.now

  put-KeptBy :
      (e : Engine) (i : ℕ) (s : Sequence)
      → All P e.seqs
      → P s
      → KeptBy e (record e { seqs = set e.seqs i s })
  put-KeptBy e i s a c = record {
    holds = All-set P e.seqs i s a c;
    size = length-set e.seqs i s;
    clock = refl;
  }

  module _ (e : Engine) (i : ℕ) (f : ℕ → Sequence → Sequence) (loop : Exec Engine (Unit {0})) where
    -- One round of a loop that replaces each sequence by `f` of it.
    round-KeptBy :
        ((s : Sequence) → P s → P (f e.now s))
        → All P e.seqs
        → i < length e.seqs
        → ((e₁ : Engine) → KeptBy e e₁ → (e' : Engine) × (loop e₁ ≡ (ok tt, e')) × KeptBy e₁ e')
        → (e' : Engine) × ((seq i >>= λ s.
                gets (λ e. e.now) >>= λ now. put_seq i (f now s) >>= λ _. loop)
              e
            ≡ (ok tt, e'))
          × KeptBy e e'
    round-KeptBy keeps all l next =
        let (s, h) = get_elem?-in_range e.seqs i l in
        let k = put-KeptBy e i (f e.now s) all (keeps s (All-get P e.seqs i s all h)) in
        let (e', run, k') = next (record e { seqs = set e.seqs i (f e.now s) }) k in
        (
          e',
          rw h run,
          record { holds = k'.holds; size = k'.size ∙ k.size; clock = k'.clock ∙ k.clock },
        )

All-in_range : (ids : List ℕ) {m n : ℕ} → m ≡ n → All (λ i. i < n) ids → All (λ i. i < m) ids
All-in_range [] h a = tt
All-in_range (i ∷ ids) h (l, a) = (omega (arith, l, h), All-in_range ids h a)

-- Two properties of each of a list.
All-both :
    (P Q : Sequence → Type 0) (xs : List Sequence) → All P xs → All Q xs → All (λ x. P x × Q x) xs
All-both P Q [] a b = tt
All-both P Q (x ∷ xs) (p, a) (q, b) = ((p, q), All-both P Q xs a b)

All-first : (P Q : Sequence → Type 0) (xs : List Sequence) → All (λ x. P x × Q x) xs → All P xs
All-first P Q [] a = tt
All-first P Q (x ∷ xs) ((p, q), a) = (p, All-first P Q xs a)

abbrev IsDecoding : Sequence → Type 0
IsDecoding s = IsCounted s × Wants s

emit-IsDecoding : (tokens now : ℕ) (s : Sequence) → IsDecoding s → IsDecoding (emit tokens now s)
unfolding emit
emit-IsDecoding tokens now s (c, wants) = (emit-IsCounted tokens now s c wants, wants)

module _ (tokens : ℕ) where
  decodes-KeptBy :
      (ids : List ℕ) (e : Engine)
      → All IsDecoding e.seqs
      → All (λ i. i < length e.seqs) ids
      → (e' : Engine) × (apply_decodes tokens ids e ≡ (ok tt, e')) × KeptBy IsDecoding e e'
  unfolding apply_decodes
  decodes-KeptBy [] e all l = (e, refl, record { holds = all; size = refl; clock = refl })
  decodes-KeptBy (i ∷ ids) e all (l, ls) =
      round-KeptBy IsDecoding e i (emit tokens) (apply_decodes tokens ids)
        (emit-IsDecoding tokens e.now) all l
        (λ e₁ k. decodes-KeptBy ids e₁ k.holds (All-in_range ids k.size ls))

  -- On sequences whose requests want a token at least, that each have as many token times as
  -- tokens, at most the tokens wanted, and no token before the first token's time, the decode loop
  -- of a step returns for any decodes in the store and any number of tokens, and all sequences are
  -- still so; the clock and the number of sequences stay.
  pub apply_decodes-Kept :
      (ids : List ℕ) (e : Engine)
      → All IsCounted e.seqs
      → All Wants e.seqs
      → All (λ i. i < length e.seqs) ids
      → (e' : Engine) × (apply_decodes tokens ids e ≡ (ok tt, e')) × Kept e e'
  apply_decodes-Kept ids e all wants l =
      let (e', run, k) = decodes-KeptBy ids e (All-both IsCounted Wants e.seqs all wants) l in
      (
        e',
        run,
        record {
          counted = All-first IsCounted Wants e'.seqs k.holds;
          size = k.size;
          clock = k.clock;
        },
      )

All-pairs :
    (chunks : List (ℕ × ℕ)) {m n : ℕ}
    → m ≡ n
    → All (λ p. p.0 < n) chunks
    → All (λ p. p.0 < m) chunks
All-pairs [] h a = tt
All-pairs (p ∷ chunks) h (l, a) = (omega (arith, l, h), All-pairs chunks h a)

first_tokens-KeptBy :
    (chunks : List (ℕ × ℕ)) (e : Engine)
    → All IsCounted e.seqs
    → All (λ p. p.0 < length e.seqs) chunks
    → (e' : Engine) × (apply_first_tokens chunks e ≡ (ok tt, e')) × KeptBy IsCounted e e'
unfolding apply_first_tokens
first_tokens-KeptBy [] e all l = (e, refl, record { holds = all; size = refl; clock = refl })
first_tokens-KeptBy ((i, c) ∷ chunks) e all (l, ls) =
    round-KeptBy IsCounted e i first_emit (apply_first_tokens chunks) (first_emit-IsCounted e.now)
      all l (λ e₁ k. first_tokens-KeptBy chunks e₁ k.holds (All-pairs chunks k.size ls))

-- The loop that gives first tokens after prefills returns for any chunks of sequences in the store
-- and keeps, for all sequences, that token times and tokens agree in number, tokens are at most
-- those wanted (or one), and there is none before the first token's time.
pub apply_first_tokens-Kept :
    (chunks : List (ℕ × ℕ)) (e : Engine)
    → All IsCounted e.seqs
    → All (λ p. p.0 < length e.seqs) chunks
    → (e' : Engine) × (apply_first_tokens chunks e ≡ (ok tt, e')) × Kept e e'
apply_first_tokens-Kept chunks e all l =
    let (e', run, k) = first_tokens-KeptBy chunks e all l in
    (e', run, record { counted = k.holds; size = k.size; clock = k.clock })
