-- ===== src/Engine/Plan.antt =====
-- `_schedule` of packages/llmkit/llmkit/simulator/engine.py: the work of one step. Each loop is a
-- recursion on the queue that it takes from. A token budget below 0 is 0 here: the source only tests
-- whether it is positive.
use llm_inference_stack.Prelude.{
  ℕ, ◌+◌, ◌-◌, min, Bool, true, false, not, ◌&&◌, List, [], ◌∷◌, ◌++◌, length, take, replicate,
  ◌==◌, ltb, if◌then◌else◌,
}
use llm_inference_stack.Exec.{ok, Exec, pure, modify, gets, ◌>>=◌, ◌>>◌}
use llm_inference_stack.Paged.{can_allocate}
use llm_inference_stack.Paged.Prompt.{allocate_prompt}
use llm_inference_stack.Engine.{
  SeqStatus, Sequence, ctx_len, total_len, prefill_done, EngineConfig, World, Engine, seq, put_seq,
  on_kv, selected,
}
use llm_inference_stack.Engine.Schedule.{sort_waiting, blocks_for, allocate}

-- Chunks of prompt to prefill, with the budget that is left.
pub record Prefills : Type 0 where
  pub chunks : List (ℕ × ℕ)
  pub budget : ℕ

-- What `_schedule` returns.
pub record Plan : Type 0 where
  pub prefills : List (ℕ × ℕ)
  pub decodes : List ℕ
  pub extra : ℕ

unfoldable pub add_chunk : ℕ → ℕ → Prefills → Prefills
add_chunk i chunk p = record { chunks = p.chunks ++ (i, chunk) ∷ []; budget = p.budget - chunk }

module _ (w : World) (cfg : EngineConfig) where
  -- `cap = long_prefill_token_threshold or token_budget` and the chunk within it.
  unfoldable pub chunk_of : ℕ → ℕ → ℕ
  chunk_of remaining budget =
      let threshold = cfg.long_prefill_token_threshold in
      min remaining (min budget (if threshold == 0 then budget else threshold))

  -- `for s in partial`
  unfoldable pub continue_prefills : List ℕ → Prefills → Exec Engine Prefills
  unfolding chunk_of add_chunk
  continue_prefills [] p = pure p
  continue_prefills (i ∷ ids) p =
      if p.budget == 0
      then pure p
      else (seq i >>= λ s.
          let chunk = chunk_of (s.req.prompt_tokens - s.prefilled) p.budget in
          continue_prefills ids (if ltb 0 chunk then add_chunk i chunk p else p))

  -- `waiting.pop(0)`, the status and `running.append(s)`
  unfoldable pub start_running : ℕ → List ℕ → Exec Engine Sequence
  start_running i rest = do
    modify (λ e. record e { waiting = rest })
    s ← seq i
    put_seq i (record s { status = SeqStatus.running })
    modify (λ e. record e { running = e.running ++ i ∷ [] })
    pure s

  -- The chunk of a sequence that has just been admitted.
  unfoldable pub first_chunk : ℕ → Sequence → Prefills → Prefills
  unfolding chunk_of add_chunk
  first_chunk i s p =
      let remaining = s.req.prompt_tokens - s.prefilled in
      if remaining == 0 then p else add_chunk i (chunk_of remaining p.budget) p

  -- The `while` over the waiting queue, with chunked prefill.
  unfoldable pub admit_chunked : List ℕ → Prefills → Exec Engine Prefills
  unfolding start_running first_chunk
  admit_chunked [] p e = (ok p, e)
  admit_chunked (i ∷ rest) p e =
      let more =
        (allocate w cfg i >>= λ allocated.
        if allocated
        then (start_running i rest >>= λ s. admit_chunked rest (first_chunk i s p))
        else pure p)
          e in
      if ltb 0 p.budget && ltb (length e.running + length p.chunks) cfg.max_num_seqs
      then more
      else (ok p, e)

  unfoldable pub schedule_chunked : Exec Engine Plan
  unfolding continue_prefills admit_chunked
  schedule_chunked = do
    decodes ← selected prefill_done
    partial ← selected (λ s. not (prefill_done s))
    p ←
        continue_prefills partial
          (record { chunks = []; budget = cfg.max_num_batched_tokens - length decodes })
    queue ← gets (λ e. e.waiting)
    p' ← admit_chunked queue p
    pure (record { prefills = p'.chunks; decodes = decodes; extra = 0 })

  unfoldable pub whole_chunk : ℕ → Sequence → Prefills → Prefills
  unfolding add_chunk
  whole_chunk i s p =
      let chunk = s.req.prompt_tokens - s.prefilled in
      if ltb 0 chunk then add_chunk i chunk p else p

  -- The `while` over the waiting queue, without chunked prefill.
  unfoldable pub admit_whole : List ℕ → Bool → Prefills → Exec Engine Prefills
  unfolding start_running whole_chunk
  admit_whole [] admitted p e = (ok p, e)
  admit_whole (i ∷ rest) admitted p e =
      let more =
        (seq i >>= λ s.
        if ltb p.budget (s.req.prompt_tokens - s.cached_tokens) && admitted
        then pure p
        else (allocate w cfg i >>= λ allocated.
            if allocated
            then (start_running i rest >>= λ s'. admit_whole rest true (whole_chunk i s' p))
            else pure p))
          e in
      if ltb (length e.running) cfg.max_num_seqs && ltb 0 p.budget then more else (ok p, e)

  -- `token_ids[: total_len] or [0] * total_len`
  unfoldable pub restore_ids : Sequence → List ℕ
  restore_ids s = elim (take (total_len s) s.req.token_ids) [
    | [] ↦ replicate (total_len s) 0
    | x ∷ xs ↦ x ∷ xs
  ]

  -- The body of the loop over the swapped sequences; here `OutOfBlocks` is not caught.
  unfoldable pub restore_one : ℕ → List ℕ → Exec Engine ℕ
  unfolding restore_ids
  restore_one i rest = do
    modify (λ e. record e { swapped = rest })
    s ← seq i
    (table, cached) ← on_kv (allocate_prompt w.hash_block (restore_ids s))
    put_seq i (record s { block_table = table; status = SeqStatus.running })
    modify (λ e. record e { running = e.running ++ i ∷ [] })
    pure (w.swap_cost (ctx_len s))

  unfoldable pub restore_swapped : List ℕ → ℕ → Exec Engine ℕ
  unfolding restore_one
  restore_swapped [] extra e = (ok extra, e)
  restore_swapped (i ∷ rest) extra e =
      let more =
        (seq i >>= λ s. blocks_for w cfg (total_len s) >>= λ need_blocks.
        on_kv (can_allocate need_blocks) >>= λ fits.
        if fits
        then (restore_one i rest >>= λ cost. restore_swapped rest (extra + cost))
        else pure extra)
          e in
      if ltb (length e.running) cfg.max_num_seqs then more else (ok extra, e)

  -- Prefill first: if anything waits and fits, the step is a prefill step.
  unfoldable pub schedule_whole : Exec Engine Plan
  unfolding admit_whole restore_swapped
  schedule_whole = do
    queue ← gets (λ e. e.waiting)
    p ← admit_whole queue false (record { chunks = []; budget = cfg.max_num_batched_tokens })
    elim p.chunks [
      | _ ∷ _ ↦ pure (record { prefills = p.chunks; decodes = []; extra = 0 })
      | [] ↦ do
        out ← gets (λ e. e.swapped)
        extra ← restore_swapped out 0
        decodes ← selected prefill_done
        pure (record { prefills = []; decodes = decodes; extra = extra })
    ]

  unfoldable pub schedule : Exec Engine Plan
  unfolding schedule_chunked schedule_whole
  schedule = do
    sort_waiting w cfg
    if cfg.enable_chunked_prefill then schedule_chunked else schedule_whole
