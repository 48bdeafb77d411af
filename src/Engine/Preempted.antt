-- ===== src/Engine/Preempted.antt =====
-- A decode that `_grow_or_preempt` of packages/llmkit/llmkit/simulator/engine.py preempts before its
-- turn comes in the same pass.
use llm_inference_stack.Prelude.{
  ℕ, zero, suc, Bool, true, ◌++◌, length, inl, inr, Option-cases, ◌+◌, ◌%◌, ◌<◌, ◌≡◌, ◌≢◌, refl, ap,
  sym, ◌∙◌, false, none, some, List, [], ◌∷◌, get_elem?, set, get_elem?-set, pop_last,
  lt-length_of_get_elem?, if_false, arith, ◌==◌,
}
use llm_inference_stack.Exec.{ok, raise, index_error, out_of_blocks}
use llm_inference_stack.Paged.{PagedKvCache, free}
use llm_inference_stack.Paged.Prompt.{append_token}
use llm_inference_stack.Paged.Allocate.{positive_test}
use llm_inference_stack.Engine.{
  SeqStatus, PreemptionMode, Sequence, total_len, EngineConfig, World, Engine, list_remove,
}
use llm_inference_stack.Engine.Schedule.{preempt, evict_seq, leave_running}
use llm_inference_stack.Engine.Grow.{Growth, extend, place, last_other, drop_survivor, grow_each}

nonzero_test : (n : ℕ) → n ≢ 0 → (n == 0) ≡ false
nonzero_test n h = ground arith

append_token-empty :
    (n : ℕ) (kv : PagedKvCache)
    → 0 < kv.block_size
    → n % kv.block_size ≢ 0
    → append_token [] n kv ≡ (raise index_error, kv)
unfolding append_token pop_last
append_token-empty n kv p h =
    rw (if_false _ _ (positive_test kv.block_size p))
      (rw (if_false _ _ (nonzero_test (n % kv.block_size) h)) refl)

get_elem?-put :
    (seqs : List Sequence) (i : ℕ) (s t : Sequence)
    → get_elem? seqs i ≡ some s
    → get_elem? (set seqs i t) i ≡ some t
get_elem?-put seqs i s t h =
    ground (arith, get_elem?-set seqs i t i, lt-length_of_get_elem? seqs i h)

-- What a preemption by recompute makes of its sequence.
abbrev pub restarted : Sequence → Sequence
restarted s = record s {
  n_preemptions = s.n_preemptions + 1;
  block_table = [];
  prefilled = 0;
  generated = 0;
  first_token = none;
  token_times = [];
  status = SeqStatus.waiting;
}

module _ (w : World) (cfg : EngineConfig) (e : Engine) (v : ℕ) (s : Sequence) where
  -- The engine after that preemption.
  abbrev pub preempted : PagedKvCache → List ℕ → Engine
  preempted kv running = record e {
    kv = kv;
    total_preemptions = e.total_preemptions + 1;
    seqs = set e.seqs v (restarted s);
    waiting = v ∷ e.waiting;
    running = running;
  }

  preempt-recompute :
      {kv : PagedKvCache} {running : List ℕ}
      → cfg.preemption_mode ≡ PreemptionMode.recompute
      → get_elem? e.seqs v ≡ some s
      → free s.block_table e.kv ≡ (ok tt, kv)
      → list_remove v e.running ≡ some running
      → preempt w cfg v e ≡ (ok 0, preempted kv running)
  unfolding preempt evict_seq leave_running
  preempt-recompute mode found freed removed = ground arith

module _ (w : World) (cfg : EngineConfig) where
  -- The turn of a sequence without blocks, inside a block.
  grow_each-empty :
      (e : Engine) (v : ℕ) (s : Sequence) (rest : List ℕ) (g : Growth)
      → get_elem? e.seqs v ≡ some s
      → append_token s.block_table (total_len s) e.kv ≡ (raise index_error, e.kv)
      → (grow_each w cfg (v ∷ rest) g e).0 ≡ raise index_error
  unfolding grow_each place extend
  grow_each-empty e v s rest g found fails = ground arith

  extend-failed :
      (i : ℕ) (a : Sequence) (e : Engine) {kv : PagedKvCache}
      → get_elem? e.seqs i ≡ some a
      → append_token a.block_table (total_len a) e.kv ≡ (raise out_of_blocks, kv)
      → extend i e ≡ (raise out_of_blocks, record e { kv = kv })
  unfolding extend
  extend-failed i a e found fails = ground arith

  extend-ok :
      (i : ℕ) (a : Sequence) (e : Engine) {r : Bool × List ℕ} {kv : PagedKvCache}
      → get_elem? e.seqs i ≡ some a
      → append_token a.block_table (total_len a) e.kv ≡ (ok r, kv)
      → extend i e
        ≡ (ok true, record e { kv = kv; seqs = set e.seqs i (record a { block_table = r.1 }) })
  unfolding extend
  extend-ok i a e found runs = ground arith

  -- A first try that runs out of blocks preempts the last other running sequence.
  place-victim :
      (fuel i v cost : ℕ) (a : Sequence) (g : Growth) (e e' : Engine) {kv : PagedKvCache}
      → get_elem? e.seqs i ≡ some a
      → append_token a.block_table (total_len a) e.kv ≡ (raise out_of_blocks, kv)
      → last_other i e.running ≡ some v
      → preempt w cfg v (record e { kv = kv }) ≡ (ok cost, e')
      → place w cfg (suc fuel) i g e
        ≡ place w cfg fuel i
            (record { survivors = drop_survivor v g.survivors; extra = g.extra + cost })
            e'
  unfolding place
  place-victim fuel i v cost a g e e' found fails other runs =
      rw (extend-failed i a e found fails, place) (rw (other, runs) refl)

  -- A try that finds its block.
  place-ok :
      (fuel i : ℕ) (a : Sequence) (g : Growth) (e : Engine) {r : Bool × List ℕ} {kv : PagedKvCache}
      → get_elem? e.seqs i ≡ some a
      → append_token a.block_table (total_len a) e.kv ≡ (ok r, kv)
      → place w cfg (suc fuel) i g e
        ≡ (ok (true, g), record e { kv = kv; seqs = set e.seqs i (record a { block_table = r.1 }) })
  unfolding place
  place-ok fuel i a g e found runs = rw (extend-ok i a e found runs, place) refl

  grow_each-placed :
      (i : ℕ) (rest : List ℕ) (g g' : Growth) (e e' : Engine)
      → place w cfg (suc (length e.running)) i g e ≡ (ok (true, g'), e')
      → grow_each w cfg (i ∷ rest) g e
        ≡ grow_each w cfg rest (record g' { survivors = g'.survivors ++ i ∷ [] }) e'
  unfolding grow_each
  grow_each-placed i rest g g' e e' h = rw h refl

  -- The victim is another sequence that runs.
  last_other-other : (i v : ℕ) (xs : List ℕ) → last_other i xs ≡ some v → (v ≢ i) × (0 < length xs)
  unfolding last_other
  last_other-other i v [] h = absurd cc
  last_other-other i v (x ∷ xs) h = elim (Option-cases (last_other i xs)) [
    | inl e ↦ ground arith
    | inr (j, e) ↦
        let same : j ≡ v = ground arith in
        ((last_other-other i v xs (e ∙ ap some same)).0, omega arith)
  ]

  get_elem?-put_other :
      (seqs : List Sequence) (i v : ℕ) (t : Sequence)
      → v ≢ i
      → get_elem? (set seqs v t) i ≡ get_elem? seqs i
  get_elem?-put_other seqs i v t h = ground (arith, get_elem?-set seqs v t i)

  -- With preemption by recompute: if the turn of a decode runs out of blocks, the last other
  -- running sequence can give its table back, the decode then gets its token, and the victim is the
  -- next of the same pass with a prompt whose length is no multiple of the block size, then the
  -- pass raises IndexError.
  pub grow_each-preempted :
      (e : Engine) (i v : ℕ) (a s : Sequence) {r : Bool × List ℕ} {kv kv₁ kv₂ : PagedKvCache}
      {running : List ℕ} (rest : List ℕ) (g : Growth)
      → cfg.preemption_mode ≡ PreemptionMode.recompute
      → get_elem? e.seqs i ≡ some a
      → get_elem? e.seqs v ≡ some s
      → last_other i e.running ≡ some v
      → append_token a.block_table (total_len a) e.kv ≡ (raise out_of_blocks, kv)
      → free s.block_table kv ≡ (ok tt, kv₁)
      → list_remove v e.running ≡ some running
      → append_token a.block_table (total_len a) kv₁ ≡ (ok r, kv₂)
      → 0 < kv₂.block_size
      → s.req.prompt_tokens % kv₂.block_size ≢ 0
      → (grow_each w cfg (i ∷ v ∷ rest) g e).0 ≡ raise index_error
  grow_each-preempted e i v a s {r} {kv} {kv₁} {kv₂} {running} rest g mode at_i at_v other fails
        freed removed grows positive inside =
      let (distinct, n) = last_other-other i v e.running other in
      let failed : Engine = record e { kv = kv } in
      let e₁ = preempted w cfg failed v s kv₁ running in
      let g₁ : Growth = record { survivors = drop_survivor v g.survivors; extra = g.extra + 0 } in
      let found₁ = get_elem?-put_other e.seqs i v (restarted s) distinct ∙ at_i in
      let e₂ : Engine = record e₁ {
        kv = kv₂;
        seqs = set e₁.seqs i (record a { block_table = r.1 });
      } in
      let (fuel, more) = some_fuel (length e.running) n in
      let first =
        place-victim (length e.running) i v 0 a g e e₁ at_i fails other
          (preempt-recompute w cfg failed v s mode at_v freed removed) in
      let second = ap (λ f. place w cfg f i g₁ e₁) more ∙ place-ok fuel i a g₁ e₁ found₁ grows in
      ap (λ p. p.0) (grow_each-placed i (v ∷ rest) g g₁ e e₂ (first ∙ second))
      ∙ grow_each-empty e₂ v (restarted s) rest _
          (get_elem?-put_other e₁.seqs v i _ (λ z. distinct (sym z))
            ∙ get_elem?-put e.seqs v s (restarted s) at_v)
          (append_token-empty (s.req.prompt_tokens + 0) kv₂ positive
            (λ z. inside (ap (λ n. n % kv₂.block_size) (omega arith) ∙ z)))
    where
      some_fuel : (n : ℕ) → 0 < n → (m : ℕ) × (n ≡ suc m)
      some_fuel zero h = absurd (omega (arith, h))
      some_fuel (suc m) h = (m, refl)
