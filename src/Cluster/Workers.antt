-- ===== src/Cluster/Workers.antt =====
-- The loop of a decode worker ends within its fuel, and what it returns.
use llm_inference_stack.Prelude.{
  ℕ, zero, suc, ◌+◌, ◌<◌, ◌≡◌, refl, ap, ◌∙◌, Bool, true, Option, some, List, [], ◌∷◌, All, tally,
  tally-sort_by, All-sort_from, sort_by, inl, inr, Bool-cases, if_true, if_false, arith, leb,
  length,
}
use llm_inference_stack.Cluster.{ClusterRequest, ClusterConfig, Costs}
use llm_inference_stack.Cluster.Decode.{
  Worker, work_of, is_drained, decode_rounds, results_of, decode_worker, start_worker, ready_before,
}
use llm_inference_stack.Cluster.Queue.{work_active, Facts, IsReady, IsServed, has_facts}
use llm_inference_stack.Cluster.Batch.{lag}
use llm_inference_stack.Cluster.Drain.{
  IsTimed, held, measure, Keeps, round, round-Keeps, round-measure,
}

-- A finished worker: every request that it was given, served.
pub record Drained (s : Worker) (r : Option Worker) : Type 0 where
  pub state : Worker
  pub returned : r ≡ some state
  pub ids : (p : Facts → Bool) → tally (has_facts p) state.finished ≡ held p s
  pub served : IsTimed s → All IsServed state.finished

empty_of :
    (xs : List ClusterRequest) {A : Type 0} (ys : List A)
    → leb (length xs + length ys) 0 ≡ true
    → (xs ≡ []) × (ys ≡ [])
empty_of [] [] h = (refl, refl)
empty_of (x ∷ xs) ys h = absurd (ground arith)
empty_of [] (y ∷ ys) h = absurd (ground arith)

module _ (c : Costs) (cfg : ClusterConfig) where
  is_drained-Drained : (s : Worker) → is_drained c cfg s ≡ true → Drained s (some s)
  unfolding is_drained tally
  is_drained-Drained s h =
      let (p, a) = empty_of s.pending s.active h in
      record {
        state = s;
        returned = refl;
        ids = λ q. rw (p, a) (omega arith);
        served = λ t. t.done;
      }

  later_Drained : (s s' : Worker) (r : Option Worker) → Keeps s s' → Drained s' r → Drained s r
  later_Drained s s' r k d = record {
    state = d.state;
    returned = d.returned;
    ids = λ p. d.ids p ∙ k.ids p;
    served = λ t. d.served (k.timed t);
  }

  -- From any state of a decode worker whose batch has room for a request, with fuel above twice the
  -- tokens left plus one for a clock behind the queue, the loop of the worker ends; it returns the
  -- worker with every request that it held among the finished ones, and if these were well timed
  -- then all are served.
  pub decode_rounds-Drained :
      (fuel : ℕ) (s : Worker)
      → 0 < cfg.max_batch
      → measure s < fuel
      → Drained s (decode_rounds c cfg fuel s)
  unfolding decode_rounds
  decode_rounds-Drained zero s l m = absurd (omega arith)
  decode_rounds-Drained (suc fuel) s l m = elim (Bool-cases (is_drained c cfg s)) [
    | inl h ↦ rw (if_true _ _ h) (is_drained-Drained s h)
    | inr h ↦ rw (if_false _ _ h) (
        later_Drained s (round c cfg s) _ (round-Keeps c cfg s)
          (decode_rounds-Drained fuel (round c cfg s) l (omega (arith, round-measure c cfg s l h))))
  ]

  -- What a worker returns for its group.
  pub record Finished (group : List ClusterRequest) (r : Option (List ClusterRequest × ℕ))
      : Type 0 where
    pub result : List ClusterRequest × ℕ
    pub returned : r ≡ some result
    pub ids : (p : Facts → Bool) → tally (has_facts p) (result.0) ≡ tally (has_facts p) group
    pub served : All IsReady group → All IsServed (result.0)

  start_measure :
      (pending : List ClusterRequest)
      → measure (start_worker pending) < work_of pending + work_of pending + 2
  unfolding measure lag work_active
  start_measure [] = omega arith
  start_measure (r ∷ rs) = ground arith

  start_held :
      (p : Facts → Bool) (pending : List ClusterRequest)
      → held p (start_worker pending) ≡ tally (has_facts p) pending
  unfolding tally
  start_held p [] = refl
  start_held p (r ∷ rs) = omega arith

  start_worker-IsTimed :
      (pending : List ClusterRequest) → All IsReady pending → IsTimed (start_worker pending)
  start_worker-IsTimed [] q = record { queue = tt; batch = tt; done = tt }
  start_worker-IsTimed (r ∷ rs) q = record { queue = q; batch = tt; done = tt }

  pub decode_worker-Finished :
      (group : List ClusterRequest) → 0 < cfg.max_batch → Finished group (decode_worker c cfg group)
  unfolding decode_worker
  decode_worker-Finished group l =
      let pending = sort_by ready_before group in
      let d =
        decode_rounds-Drained (work_of pending + work_of pending + 2) (start_worker pending) l
          (start_measure pending) in
      record {
        result = (d.state.finished, d.state.busy);
        returned = ap (results_of c cfg) d.returned;
        ids = λ p. d.ids p ∙ start_held p pending ∙ tally-sort_by (has_facts p) ready_before group;
        served = λ q.
            d.served
              (start_worker-IsTimed pending (All-sort_from IsReady ready_before [] group tt q));
      }
