-- ===== src/Cluster/Complete.antt =====
-- The whole of `run_disaggregated`: it returns, and every request comes out served.
use llm_inference_stack.Prelude.{
  ℕ, zero, suc, ◌≤◌, ◌<◌, ◌≡◌, refl, sym, ◌∙◌, Bool, Option, some, List, [], ◌∷◌, replicate, All,
  tally, tally-sort_by, All-sort_from, sort_by, inl, inr, Option-cases, arith, length-replicate,
}
use llm_inference_stack.Cluster.{ClusterRequest, ClusterConfig, Costs}
use llm_inference_stack.Cluster.Prefill.{Stage}
use llm_inference_stack.Cluster.Decode.{ready_before}
use llm_inference_stack.Cluster.Split.{
  Groups, makespan_of, ClusterResult, decode_stage, run_disaggregated,
}
use llm_inference_stack.Cluster.Queue.{Facts, IsReady, IsServed, has_facts}
use llm_inference_stack.Cluster.Flow.{prefill_stage-Transferred}
use llm_inference_stack.Cluster.Pools.{total, assign_all-Assigned, decode_all-AllFinished}

module _ (c : Costs) (cfg : ClusterConfig) where
  total-replicate : (p : Facts → Bool) (n : ℕ) → total p (replicate n []) ≡ 0
  unfolding total tally
  total-replicate p zero = refl
  total-replicate p (suc n) = omega (arith, total-replicate p n)

  All-replicate : (n : ℕ) → All (All IsReady) (replicate n [])
  All-replicate zero = tt
  All-replicate (suc n) = (tt, All-replicate n)

  abbrev pub IsWithin : ℕ → ClusterRequest → Type 0
  IsWithin n r = (t : ℕ) → r.finish ≡ some t → t ≤ n

  All-map :
      {P Q : ClusterRequest → Type 0} (f : (r : ClusterRequest) → P r → Q r)
      (rs : List ClusterRequest)
      → All P rs
      → All Q rs
  All-map f [] a = tt
  All-map f (r ∷ rs) (p, a) = (f r p, All-map f rs a)

  le-makespan_of :
      (r : ClusterRequest) (rs : List ClusterRequest) → IsWithin (makespan_of c cfg (r ∷ rs)) r
  unfolding makespan_of
  le-makespan_of r rs t e = rw (e, makespan_of) (omega arith)

  makespan_of-le :
      (r : ClusterRequest) (rs : List ClusterRequest)
      → makespan_of c cfg rs ≤ makespan_of c cfg (r ∷ rs)
  unfolding makespan_of
  makespan_of-le r rs = elim (Option-cases r.finish) [
    | inl e ↦ rw (e, makespan_of) (omega arith)
    | inr (t, e) ↦ rw (e, makespan_of) (omega arith)
  ]

  makespan_of-IsWithin : (rs : List ClusterRequest) → All (IsWithin (makespan_of c cfg rs)) rs
  makespan_of-IsWithin [] = tt
  makespan_of-IsWithin (r ∷ rs) = (
    le-makespan_of r rs,
    All-map (λ x h t e. omega (arith, h t e, makespan_of-le r rs)) rs (makespan_of-IsWithin rs),
  )

  -- The result of a run over the given requests.
  pub record Complete (reqs : List ClusterRequest) (r : Option (ClusterResult c cfg)) : Type 0 where
    pub result : ClusterResult c cfg
    pub returned : r ≡ some result
    pub ids : (p : Facts → Bool) → tally (has_facts p) result.requests ≡ tally (has_facts p) reqs
    pub served : All IsServed result.requests
    pub within : All (IsWithin result.makespan) result.requests

  decode_stage-Complete :
      (reqs : List ClusterRequest) (st : Stage)
      → 0 < cfg.n_decode
      → 0 < cfg.max_batch
      → ((p : Facts → Bool) → tally (has_facts p) st.ready ≡ tally (has_facts p) reqs)
      → All IsReady st.ready
      → Complete reqs (decode_stage c cfg st)
  unfolding decode_stage
  decode_stage-Complete reqs st l k h q =
      let start : Groups = record {
        counts = replicate cfg.n_decode 0;
        per_worker = replicate cfg.n_decode [];
      } in
      let sorted = sort_by ready_before st.ready in
      let g =
        assign_all-Assigned sorted start (omega (arith, length-replicate {A = ℕ} cfg.n_decode 0)) (
          length-replicate {A = ℕ} cfg.n_decode 0
          ∙ sym (length-replicate {A = List ClusterRequest} cfg.n_decode [])) in
      let d = decode_all-AllFinished c cfg g.groups.per_worker k in
      record {
        result = record {
          requests = d.result.0;
          makespan = makespan_of c cfg d.result.0;
          prefill_busy = st.busy;
          decode_busy = d.result.1;
          transfer_total = st.transfer_total;
        };
        returned = rw (g.returned, d.returned, decode_stage) refl;
        ids = λ p. omega (
          arith,
          d.ids p,
          g.ids p,
          total-replicate p cfg.n_decode,
          tally-sort_by (has_facts p) ready_before st.ready,
          h p,
        );
        served = d.served (
            g.ready (All-sort_from IsReady ready_before [] st.ready tt q)
              (All-replicate cfg.n_decode));
        within = makespan_of-IsWithin (d.result.0);
      }

  -- With at least one prefill worker, one decode worker and room for one request in a batch,
  -- run_disaggregated returns for any requests and any durations: exactly the requests that were
  -- given, with their ids, lengths and arrivals, and each is finished, with arrival, start and end
  -- of prefill, end of transfer, first token and finish in this order, and no finish after the
  -- makespan.
  pub run_disaggregated-Complete :
      (reqs : List ClusterRequest)
      → 0 < cfg.n_prefill
      → 0 < cfg.n_decode
      → 0 < cfg.max_batch
      → Complete reqs (run_disaggregated c cfg reqs)
  unfolding run_disaggregated
  run_disaggregated-Complete reqs l m n =
      let t = prefill_stage-Transferred c cfg reqs l in
      rw (t.returned, run_disaggregated) (decode_stage-Complete reqs t.stage m n t.ids t.ready)
