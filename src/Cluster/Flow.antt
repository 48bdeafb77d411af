-- ===== src/Cluster/Flow.antt =====
-- The way of the requests through both pools: none is lost, and each is timed in order.
use llm_inference_stack.Prelude.{
  ℕ, zero, suc, ◌+◌, ◌<◌, ◌≡◌, refl, Bool, Option, some, List, [], ◌∷◌, All, All-append, tally,
  tally-append, tally-sort_by, sort_by, inl, inr, Bool-cases, arith, length,
}
use llm_inference_stack.Cluster.{ClusterRequest, ClusterConfig, Costs}
use llm_inference_stack.Cluster.Prefill.{
  Stage, pop_least, workers_from, is_freer, arrives_before, prefilled, prefill_on, prefill_all,
  prefill_stage,
}
use llm_inference_stack.Cluster.Queue.{Facts, IsReady, has_facts}

-- A pool that is not empty has a worker that is free first.
pop_least-some :
    (x : ℕ × ℕ) (xs : List (ℕ × ℕ)) → (m : (ℕ × ℕ) × List (ℕ × ℕ)) × (pop_least (x ∷ xs) ≡ some m)
unfolding pop_least
pop_least-some x [] = ((x, []), refl)
pop_least-some x (y ∷ xs) =
    let (m, e) = pop_least-some y xs in
    elim (Bool-cases (is_freer m.0 x)) [
      | inl h ↦ ((m.0, x ∷ m.1), rw (e, h) refl)
      | inr h ↦ ((x, y ∷ xs), rw (e, h) refl)
    ]

free_worker :
    (xs : List (ℕ × ℕ)) → 0 < length xs → (m : (ℕ × ℕ) × List (ℕ × ℕ)) × (pop_least xs ≡ some m)
free_worker [] l = absurd (omega arith)
free_worker (x ∷ xs) l = pop_least-some x xs

-- What the first stage makes of its requests.
pub record Prefilled (reqs : List ClusterRequest) (st : Stage) (r : Option Stage) : Type 0 where
  pub stage : Stage
  pub returned : r ≡ some stage
  pub ids :
      (p : Facts → Bool)
      → tally (has_facts p) stage.ready ≡ tally (has_facts p) reqs + tally (has_facts p) st.ready
  pub ready : All IsReady st.ready → All IsReady stage.ready

module _ (c : Costs) where
  tally-prefill_on :
      (p : Facts → Bool) (avail w : ℕ) (free : List (ℕ × ℕ)) (r : ClusterRequest) (st : Stage)
      → tally (has_facts p) (prefill_on c (avail, w) free r st).ready
        ≡ tally (has_facts p) st.ready + tally (has_facts p) (r ∷ [])
  unfolding prefill_on tally
  tally-prefill_on p avail w free r st =
      tally-append (has_facts p) st.ready (prefilled c avail w r ∷ [])

  prefill_on-Prefilled :
      (reqs : List ClusterRequest) (r : ClusterRequest) (m : (ℕ × ℕ) × List (ℕ × ℕ)) (st : Stage)
      {o : Option Stage}
      → Prefilled reqs (prefill_on c m.0 m.1 r st) o
      → Prefilled (r ∷ reqs) st o
  unfolding prefill_on tally
  prefill_on-Prefilled reqs r ((avail, w), free) st d = record {
    stage = d.stage;
    returned = d.returned;
    ids = λ p. omega (arith, d.ids p, tally-prefill_on p avail w free r st);
    ready = λ a. d.ready (
        All-append IsReady st.ready _ a (
          record { started = omega arith; prefilled = omega arith; transferred = omega arith },
          tt,
        ));
  }

  frees :
      (m : (ℕ × ℕ) × List (ℕ × ℕ)) (r : ClusterRequest) (st : Stage)
      → 0 < length (prefill_on c m.0 m.1 r st).free
  unfolding prefill_on
  frees ((avail, w), free) r st = omega arith

  prefill_all-Prefilled :
      (reqs : List ClusterRequest) (st : Stage)
      → 0 < length st.free
      → Prefilled reqs st (prefill_all c reqs st)
  unfolding prefill_all tally
  prefill_all-Prefilled [] st l = record {
    stage = st;
    returned = refl;
    ids = λ p. omega arith;
    ready = λ a. a;
  }
  prefill_all-Prefilled (r ∷ rs) st l =
      let (m, e) = free_worker st.free l in
      rw (e, prefill_all)
        (prefill_on-Prefilled rs r m st
          (prefill_all-Prefilled rs (prefill_on c m.0 m.1 r st) (frees m r st)))

  workers_free : (n : ℕ) → 0 < n → 0 < length (workers_from n 0)
  unfolding workers_from
  workers_free zero l = l
  workers_free (suc n) l = omega arith

  -- The requests after the first stage.
  pub record Transferred (reqs : List ClusterRequest) (r : Option Stage) : Type 0 where
    pub stage : Stage
    pub returned : r ≡ some stage
    pub ids : (p : Facts → Bool) → tally (has_facts p) stage.ready ≡ tally (has_facts p) reqs
    pub ready : All IsReady stage.ready

  pub prefill_stage-Transferred :
      (cfg : ClusterConfig) (reqs : List ClusterRequest)
      → 0 < cfg.n_prefill
      → Transferred reqs (prefill_stage c cfg reqs)
  unfolding prefill_stage tally
  prefill_stage-Transferred cfg reqs l =
      let d =
        prefill_all-Prefilled (sort_by arrives_before reqs) _ (workers_free cfg.n_prefill l) in
      record {
        stage = d.stage;
        returned = d.returned;
        ids = λ p. omega (arith, d.ids p, tally-sort_by (has_facts p) arrives_before reqs);
        ready = d.ready tt;
      }
