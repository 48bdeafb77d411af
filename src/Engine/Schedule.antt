-- ===== src/Engine/Schedule.antt =====
-- `_allocate`, `_preempt`, `_sort_waiting` and `_schedule` of
-- packages/llmkit/llmkit/simulator/engine.py. A token budget below 0 is 0 here: the source only tests
-- it against 0.
use llm_inference_stack.Prelude.{
  ℕ, ◌+◌, Bool, true, false, ◌&&◌, ◌||◌, Option, none, some, List, [], ◌∷◌, ◌++◌, get_elem?, ◌==◌,
  ltb, if◌then◌else◌,
}
use llm_inference_stack.Exec.{
  ok, raise, Exec, pure, fail, need, modify, index_error, zero_division, value_error, ◌>>=◌, ◌>>◌,
}
use llm_inference_stack.Paged.{can_allocate, free}
use llm_inference_stack.Paged.Prompt.{allocate_prompt}
use llm_inference_stack.Engine.{
  SeqStatus, PreemptionMode, Sequence, ctx_len, EngineConfig, World, Engine, seq, put_seq, on_kv,
  caught, list_remove, ceil_div,
}

-- `sort(key=lambda s: (s.req.priority, s.arrival_ms))`, a stable sort.
unfoldable pub goes_before : Sequence → Sequence → Bool
goes_before a b =
    ltb a.req.priority b.req.priority
    || ((a.req.priority == b.req.priority) && ltb a.arrival b.arrival)

-- Insertion behind all that do not come after it.
unfoldable pub insert_seq : ℕ × Sequence → List (ℕ × Sequence) → List (ℕ × Sequence)
unfolding goes_before
insert_seq x [] = x ∷ []
insert_seq x (y ∷ ys) = if goes_before (x.1) (y.1) then x ∷ y ∷ ys else y ∷ insert_seq x ys

unfoldable pub sort_seqs : List (ℕ × Sequence) → List (ℕ × Sequence) → List (ℕ × Sequence)
unfolding insert_seq
sort_seqs done [] = done
sort_seqs done (x ∷ xs) = sort_seqs (insert_seq x done) xs

unfoldable pub with_seqs : List Sequence → List ℕ → Option (List (ℕ × Sequence))
with_seqs seqs [] = some []
with_seqs seqs (i ∷ ids) = elim (get_elem? seqs i) [
  | none ↦ none
  | some s ↦ elim (with_seqs seqs ids) [ none ↦ none | some rest ↦ some ((i, s) ∷ rest) ]
]

unfoldable pub positions : List (ℕ × Sequence) → List ℕ
positions [] = []
positions ((i, s) ∷ xs) = i ∷ positions xs

-- `self.running.remove(victim)`
unfoldable pub leave_running : ℕ → Exec Engine (Unit {0})
leave_running i e = elim (list_remove i e.running) [
  | none ↦ (raise value_error, e)
  | some rest ↦ (ok tt, record e { running = rest })
]

module _ (w : World) (cfg : EngineConfig) where
  unfoldable pub sort_waiting : Exec Engine (Unit {0})
  unfolding sort_seqs with_seqs positions
  sort_waiting e =
      if cfg.by_priority
      then (need index_error (with_seqs e.seqs e.waiting) >>= λ queue.
            modify (λ e. record e { waiting = positions (sort_seqs [] queue) }))
          e
      else (ok tt, e)

  -- `need = math.ceil(n / self.cfg.block_size)`, which raises on a block size of 0.
  unfoldable pub blocks_for : ℕ → Exec Engine ℕ
  unfolding ceil_div
  blocks_for n =
      if cfg.block_size == 0 then fail zero_division else pure (ceil_div n cfg.block_size)

  -- The `try` of `_allocate`, and what follows it.
  unfoldable pub try_allocate : ℕ → Sequence → Exec Engine Bool
  try_allocate i s e =
      caught
        ((on_kv (allocate_prompt w.hash_block s.req.token_ids) >>= λ (table, cached).
            put_seq i (record s { block_table = table; cached_tokens = cached; prefilled = cached })
            >>= λ _. pure true)
          e)
        (pure false)

  unfoldable pub allocate : ℕ → Exec Engine Bool
  unfolding blocks_for try_allocate
  allocate i = do
    s ← seq i
    need_blocks ← blocks_for s.req.prompt_tokens
    fits ← on_kv (can_allocate need_blocks)
    if fits then try_allocate i s else pure false

  -- The two ways to preempt, with the time that each costs.
  unfoldable pub evict_seq : ℕ → Sequence → Exec Engine ℕ
  evict_seq i s = elim cfg.preemption_mode [
    | PreemptionMode.swap ↦ do
      on_kv (free s.block_table)
      put_seq i (record s { block_table = []; status = SeqStatus.swapped })
      modify (λ e. record e { swapped = e.swapped ++ i ∷ [] })
      pure (w.swap_cost (ctx_len s))
    | PreemptionMode.recompute ↦ do
      on_kv (free s.block_table)
      put_seq i (record s {
        block_table = [];
        prefilled = 0;
        generated = 0;
        first_token = none;
        token_times = [];
        status = SeqStatus.waiting;
      })
      modify (λ e. record e { waiting = i ∷ e.waiting })
      pure 0
  ]

  unfoldable pub preempt : ℕ → Exec Engine ℕ
  unfolding evict_seq leave_running
  preempt i = do
    modify (λ e. record e { total_preemptions = e.total_preemptions + 1 })
    s ← seq i
    cost ← evict_seq i (record s { n_preemptions = s.n_preemptions + 1 })
    leave_running i
    pure cost
