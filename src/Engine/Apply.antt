-- ===== src/Engine/Apply.antt =====
-- The loops of `step` that apply its results to the sequences, in
-- packages/llmkit/llmkit/simulator/engine.py.
use llm_inference_stack.Prelude.{
  ℕ, ◌+◌, ◌-◌, min, Bool, true, false, none, some, List, [], ◌∷◌, ◌++◌, replicate, ltb,
  if◌then◌else◌,
}
use llm_inference_stack.Exec.{Exec, pure, modify, gets, ◌>>=◌, ◌>>◌}
use llm_inference_stack.Paged.{free}
use llm_inference_stack.Engine.{
  SeqStatus, Sequence, prefill_done, is_done, Engine, seq, put_seq, on_kv,
}
use llm_inference_stack.Engine.Schedule.{leave_running}

abbrev pub is_empty : {A : Type 0} → List A → Bool
is_empty [] = true
is_empty (x ∷ xs) = false

unfoldable pub sum_chunks : List (ℕ × ℕ) → ℕ
sum_chunks [] = 0
sum_chunks ((i, c) ∷ chunks) = c + sum_chunks chunks

-- `[f(s) for s in ...]` over positions.
unfoldable pub collect : (Sequence → ℕ) → List ℕ → Exec Engine (List ℕ)
collect f [] = pure []
collect f (i ∷ ids) = seq i >>= λ s. collect f ids >>= λ rest. pure (f s ∷ rest)

unfoldable pub prefill_contexts : List (ℕ × ℕ) → Exec Engine (List ℕ)
prefill_contexts [] = pure []
prefill_contexts ((i, c) ∷ chunks) =
    seq i >>= λ s. prefill_contexts chunks >>= λ rest. pure ((s.prefilled + c) ∷ rest)

-- `for s, c in prefills: s.prefilled += c`
unfoldable pub apply_prefills : List (ℕ × ℕ) → Exec Engine (Unit {0})
apply_prefills [] = pure tt
apply_prefills ((i, c) ∷ chunks) = seq i >>= λ s.
    put_seq i (record s { prefilled = s.prefilled + c }) >>= λ _. apply_prefills chunks

-- A decoding sequence emits at most what its request still wants. Of a request that wants fewer than
-- it has, `min(tokens, output_tokens - generated)` is negative: no times, and the difference is taken
-- from `generated`.
unfoldable pub emit : ℕ → ℕ → Sequence → Sequence
emit tokens now s =
    let generated = min (s.generated + tokens) s.req.output_tokens in
    record s {
      token_times = s.token_times ++ replicate (min tokens (s.req.output_tokens - s.generated)) now;
      generated = generated;
      first_token = elim s.first_token [
        | some t ↦ some t
        | none ↦ if ltb 0 generated then some now else none
      ];
    }

unfoldable pub apply_decodes : ℕ → List ℕ → Exec Engine (Unit {0})
unfolding emit
apply_decodes tokens [] = pure tt
apply_decodes tokens (i ∷ ids) = seq i >>= λ s.
    gets (λ e. e.now) >>= λ now. put_seq i (emit tokens now s) >>= λ _. apply_decodes tokens ids

-- The first token of a sequence whose prefill is finished.
unfoldable pub first_emit : ℕ → Sequence → Sequence
first_emit now s = elim s.first_token [
  | some t ↦ s
  | none ↦
      if prefill_done s
      then record s {
        generated = 1;
        first_token = some now;
        token_times = s.token_times ++ now ∷ [];
      }
      else s
]

unfoldable pub apply_first_tokens : List (ℕ × ℕ) → Exec Engine (Unit {0})
unfolding first_emit
apply_first_tokens [] = pure tt
apply_first_tokens ((i, c) ∷ chunks) = seq i >>= λ s.
    gets (λ e. e.now) >>= λ now. put_seq i (first_emit now s) >>= λ _. apply_first_tokens chunks

-- The body of `if s.done`.
unfoldable pub finish_seq : ℕ → Sequence → Exec Engine (Unit {0})
finish_seq i s = do
  now ← gets (λ e. e.now)
  on_kv (free s.block_table)
  put_seq i (record s { finish = some now; status = SeqStatus.finished; block_table = [] })
  leave_running i
  modify (λ e. record e { finished = e.finished ++ i ∷ [] })

-- `for s in list(self.running)`
unfoldable pub finish_all : List ℕ → Exec Engine (Unit {0})
unfolding finish_seq leave_running
finish_all [] = pure tt
finish_all (i ∷ ids) =
    seq i >>= λ s. (if is_done s then finish_seq i s else pure tt) >>= λ _. finish_all ids

-- `for s in decodes: s.n_spec_proposed += k; s.n_spec_accepted += accepted`
unfoldable pub count_drafts : ℕ → ℕ → List ℕ → Exec Engine (Unit {0})
count_drafts k accepted [] = pure tt
count_drafts k accepted (i ∷ ids) = seq i >>= λ s.
    put_seq i (record s {
      n_spec_proposed = s.n_spec_proposed + k;
      n_spec_accepted = s.n_spec_accepted + accepted;
    })
    >>= λ _. count_drafts k accepted ids
