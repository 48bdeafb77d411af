-- ===== src/Cluster/Pools.antt =====
-- The assignment to the decode pool, its workers, and the whole of `run_disaggregated`.
use llm_inference_stack.Prelude.{
  ℕ, zero, suc, ◌+◌, ◌<◌, ◌≡◌, refl, ap, Bool, Option, some, List, [], ◌∷◌, ◌++◌, set, All,
  All-append, tally, tally-append, inl, inr, Bool-cases, arith, leb, length, length-set,
}
use llm_inference_stack.Cluster.{ClusterRequest, ClusterConfig, Costs}
use llm_inference_stack.Cluster.Split.{least_count, Groups, push_group, assign_all, decode_all}
use llm_inference_stack.Cluster.Queue.{Facts, IsReady, IsServed, has_facts}
use llm_inference_stack.Cluster.Workers.{decode_worker-Finished}

-- The requests of all groups that pass a test.
unfoldable pub total : (Facts → Bool) → List (List ClusterRequest) → ℕ
total p [] = 0
total p (g ∷ groups) = tally (has_facts p) g + total p groups

total-push_group :
    (p : Facts → Bool) (w : ℕ) (r : ClusterRequest) (groups : List (List ClusterRequest))
    → w < length groups
    → total p (push_group w r groups) ≡ total p groups + tally (has_facts p) (r ∷ [])
unfolding total push_group tally
total-push_group p w r [] l = absurd (omega arith)
total-push_group p zero r (g ∷ groups) l = omega (arith, tally-append (has_facts p) g (r ∷ []))
total-push_group p (suc w) r (g ∷ groups) l =
    omega (arith, total-push_group p w r groups (omega arith))

length-push_group :
    (w : ℕ) (r : ClusterRequest) (groups : List (List ClusterRequest))
    → length (push_group w r groups) ≡ length groups
unfolding push_group
length-push_group w r [] = refl
length-push_group zero r (g ∷ groups) = refl
length-push_group (suc w) r (g ∷ groups) = ap suc (length-push_group w r groups)

All-push_group :
    (w : ℕ) (r : ClusterRequest) (groups : List (List ClusterRequest))
    → IsReady r
    → All (All IsReady) groups
    → All (All IsReady) (push_group w r groups)
unfolding push_group
All-push_group w r [] h a = tt
All-push_group zero r (g ∷ groups) h (q, a) = (All-append IsReady g (r ∷ []) q (h, tt), a)
All-push_group (suc w) r (g ∷ groups) h (q, a) = (q, All-push_group w r groups h a)

least_count-some :
    (c : ℕ) (cs : List ℕ) → (m : ℕ × ℕ) × (least_count (c ∷ cs) ≡ some m) × (m.0 < suc (length cs))
unfolding least_count
least_count-some c [] = ((0, c), refl, omega arith)
least_count-some c (d ∷ cs) =
    let (m, e, l) = least_count-some d cs in
    elim (Bool-cases (leb c m.1)) [
      | inl h ↦ ((0, c), rw (e, h) refl, omega arith)
      | inr h ↦ ((suc m.0, m.1), rw (e, h) refl, omega (arith, l))
    ]

a_count :
    (cs : List ℕ) → 0 < length cs → (m : ℕ × ℕ) × (least_count cs ≡ some m) × (m.0 < length cs)
a_count [] l = absurd (omega arith)
a_count (c ∷ cs) l = least_count-some c cs

-- The groups after the assignment.
pub record Assigned (reqs : List ClusterRequest) (g : Groups) (r : Option Groups) : Type 0 where
  pub groups : Groups
  pub returned : r ≡ some groups
  pub ids :
      (p : Facts → Bool)
      → total p groups.per_worker ≡ tally (has_facts p) reqs + total p g.per_worker
  pub ready :
      All IsReady reqs → All (All IsReady) g.per_worker → All (All IsReady) groups.per_worker

pub assign_all-Assigned :
    (reqs : List ClusterRequest) (g : Groups)
    → 0 < length g.counts
    → length g.counts ≡ length g.per_worker
    → Assigned reqs g (assign_all reqs g)
unfolding assign_all tally
assign_all-Assigned [] g l k = record {
  groups = g;
  returned = refl;
  ids = λ p. omega arith;
  ready = λ q a. a;
}
assign_all-Assigned (r ∷ rs) g l k =
    let (m, e, i) = a_count g.counts l in
    let r' : ClusterRequest = record r { decode_worker = some m.0 } in
    let d =
      assign_all-Assigned rs
        (record {
          counts = set g.counts m.0 (m.1 + 1);
          per_worker = push_group m.0 r' g.per_worker;
        })
        (omega (arith, length-set g.counts m.0 (m.1 + 1)))
        (omega (arith, length-set g.counts m.0 (m.1 + 1), length-push_group m.0 r' g.per_worker)) in
    rw (e, assign_all)
      (record {
        groups = d.groups;
        returned = d.returned;
        ids = λ p. omega (arith, d.ids p, total-push_group p m.0 r' g.per_worker (omega arith));
        ready = λ q a. d.ready q.1 (
            All-push_group m.0 r' g.per_worker
              (record {
                started = q.0.started;
                prefilled = q.0.prefilled;
                transferred = q.0.transferred;
              })
              a);
      })

module _ (c : Costs) (cfg : ClusterConfig) where
  -- The requests of all groups, finished.
  pub record AllFinished (groups : List (List ClusterRequest))
      (r : Option (List ClusterRequest × List ℕ)) : Type 0 where
    pub result : List ClusterRequest × List ℕ
    pub returned : r ≡ some result
    pub ids : (p : Facts → Bool) → tally (has_facts p) (result.0) ≡ total p groups
    pub served : All (All IsReady) groups → All IsServed (result.0)

  pub decode_all-AllFinished :
      (groups : List (List ClusterRequest))
      → 0 < cfg.max_batch
      → AllFinished groups (decode_all c cfg groups)
  unfolding decode_all total tally
  decode_all-AllFinished [] l = record {
    result = ([], []);
    returned = refl;
    ids = λ p. refl;
    served = λ a. tt;
  }
  decode_all-AllFinished (g ∷ groups) l =
      let d = decode_worker-Finished c cfg g l in
      let r = decode_all-AllFinished groups l in
      record {
        result = (d.result.0 ++ r.result.0, d.result.1 ∷ r.result.1);
        returned = rw (d.returned, r.returned, decode_all) refl;
        ids = λ p.
            omega (arith, tally-append (has_facts p) (d.result.0) (r.result.0), d.ids p, r.ids p);
        served = λ a. All-append IsServed (d.result.0) (r.result.0) (d.served a.0) (r.served a.1);
      }
