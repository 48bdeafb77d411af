-- ===== src/Engine/Step.antt =====
-- `step`, `run` and `_sample_accepted` of packages/llmkit/llmkit/simulator/engine.py. The cost model
-- is the record `World`; the trace has no utilisation and no bound, which are floats for display.
use llm_inference_stack.Prelude.{
  ℕ, zero, suc, ◌+◌, ◌-◌, Bool, ◌&&◌, Option, none, some, List, [], ◌∷◌, length, map, ◌==◌, ltb,
  if◌then◌else◌,
}
use llm_inference_stack.Exec.{ok, Exec, pure, modify, gets, ◌>>=◌, ◌>>◌}
use llm_inference_stack.Engine.{ctx_len, EngineConfig, World, Engine}
use llm_inference_stack.Engine.Arrivals.{admit_arrivals}
use llm_inference_stack.Engine.Plan.{schedule}
use llm_inference_stack.Engine.Grow.{Growth, grow_or_preempt}
use llm_inference_stack.Engine.Apply.{
  is_empty, sum_chunks, collect, prefill_contexts, apply_prefills, apply_decodes,
  apply_first_tokens, finish_all, count_drafts,
}

pub data Phase : Type 0 where
  stalled mixed prefill decode : Phase

pub record StepTrace : Type 0 where
  pub step : ℕ
  pub time : ℕ
  pub phase : Phase
  pub prefill_tokens : ℕ
  pub decode_seqs : ℕ
  pub n_running : ℕ
  pub n_waiting : ℕ
  pub n_swapped : ℕ
  pub preemptions : ℕ
  pub cache_hit_blocks : ℕ

module _ (w : World) where
  -- The accepted drafts of `k`, from the draw `drawn` on, and the next draw.
  unfoldable pub accept_run : ℕ → ℕ → ℕ × ℕ
  accept_run zero drawn = (0, drawn)
  accept_run (suc k) drawn =
      let (n, next) = accept_run k (drawn + 1) in
      if w.coin drawn then (n + 1, next) else (0, drawn + 1)

  unfoldable pub sample_accepted : ℕ → Exec Engine ℕ
  unfolding accept_run
  sample_accepted k e = let (n, next) = accept_run k e.drawn in (ok n, record e { drawn = next })

  module _ (cfg : EngineConfig) where
    -- A decode step, with drafts or without.
    unfoldable pub charge_decodes : List ℕ → List ℕ → Exec Engine (ℕ × ℕ × Phase)
    unfolding sample_accepted count_drafts
    charge_decodes decodes decode_ctx =
        let k = cfg.spec_draft_tokens in
        if ltb 0 k
        then (do
          accepted ← sample_accepted k
          count_drafts k accepted decodes
          pure (
            w.draft_cost (w.decode_cost decode_ctx) k + w.decode_cost (map (λ c. c + k) decode_ctx),
            accepted + 1,
            decode,
          ))
        else pure (w.decode_cost decode_ctx, 1, decode)

    -- The time of the step without what `_schedule` charged, and the tokens of each decode.
    unfoldable pub charge : List (ℕ × ℕ) → List ℕ → Exec Engine (ℕ × ℕ × Phase)
    unfolding collect prefill_contexts charge_decodes
    charge prefills decodes = do
      contexts ← prefill_contexts prefills
      decode_ctx ← collect ctx_len decodes
      if is_empty prefills
          then charge_decodes decodes decode_ctx
          else if is_empty decodes
          then pure (w.prefill_cost (map (λ p. p.1) prefills) contexts, 1, prefill)
          else pure (w.mixed_cost (map (λ p. p.1) prefills) contexts decode_ctx, 1, mixed)

    -- The work of the step, from the clock to the trace.
    unfoldable pub perform : List (ℕ × ℕ) → List ℕ → ℕ → ℕ → ℕ → Exec Engine (Option StepTrace)
    unfolding charge apply_prefills apply_decodes apply_first_tokens finish_all sum_chunks
    perform prefills decodes extra hits_before preempt_before = do
      (cost, tokens, phase) ← charge prefills decodes
      modify (λ e. record e { now = e.now + (cost + extra); step_no = e.step_no + 1 })
      apply_prefills prefills
      apply_decodes tokens decodes
      apply_first_tokens prefills
      running ← gets (λ e. e.running)
      finish_all running
      modify (λ e. record e { kv = record e.kv { step = e.step_no } })
      e ← gets (λ e. e)
      pure (
          some (record {
            step = e.step_no;
            time = e.now;
            phase = phase;
            prefill_tokens = sum_chunks prefills;
            decode_seqs = length decodes;
            n_running = length e.running;
            n_waiting = length e.waiting;
            n_swapped = length e.swapped;
            preemptions = e.total_preemptions - preempt_before;
            cache_hit_blocks = e.kv.stats.cache_hits - hits_before;
          }))

    -- Nothing runnable: a tick, so that the loop cannot spin forever.
    unfoldable pub stall : Exec Engine (Option StepTrace)
    stall e =
        let e' : Engine = record e { now = e.now + w.tick; step_no = e.step_no + 1 } in
        (
          ok (
              some (record {
                step = e'.step_no;
                time = e'.now;
                phase = stalled;
                prefill_tokens = 0;
                decode_seqs = 0;
                n_running = length e.running;
                n_waiting = length e.waiting;
                n_swapped = length e.swapped;
                preemptions = 0;
                cache_hit_blocks = 0;
              })),
          e',
        )

    -- `if decodes: ...`
    unfoldable pub grow_decodes : List ℕ → Exec Engine Growth
    grow_decodes [] = pure (record { survivors = []; extra = 0 })
    grow_decodes (i ∷ ids) = grow_or_preempt w cfg (i ∷ ids)

    -- From `_schedule` on.
    unfoldable pub advance : Exec Engine (Option StepTrace)
    unfolding perform stall grow_decodes
    advance = do
      plan ← schedule w cfg
      hits_before ← gets (λ e. e.kv.stats.cache_hits)
      preempt_before ← gets (λ e. e.total_preemptions)
      g ← grow_decodes plan.decodes
      if is_empty plan.prefills && is_empty g.survivors
          then stall
          else perform plan.prefills g.survivors (plan.extra + g.extra) hits_before preempt_before

    -- `not (self.running or self.waiting or self.swapped)`
    unfoldable pub is_idle : Engine → Bool
    is_idle e = (length e.running + length e.waiting + length e.swapped) == 0

    -- `none` when nothing is left.
    unfoldable pub step : Exec Engine (Option StepTrace)
    unfolding advance is_idle
    step e₀ =
        let e = admit_arrivals w e₀ in
        if is_idle e
        then elim e.pending [
          | [] ↦ (ok none, e)
          | (arrival, number, r) ∷ rest ↦ advance (admit_arrivals w (record e { now = arrival }))
        ]
        else advance e

    -- `run`, with the steps that are left as its rounds.
    unfoldable pub run : ℕ → ℕ → Exec Engine (Unit {0})
    unfolding step
    run zero max_time e = (ok tt, e)
    run (suc steps) max_time e =
        let more =
          (step >>= λ trace. elim trace [ none ↦ pure tt | some _ ↦ run steps max_time ]) e in
        if ltb e.now max_time then more else (ok tt, e)
