-- ===== src/Cluster/Drain.antt =====
-- A decode worker finishes all that it is given: its rounds end, and each request is served once.
use llm_inference_stack.Prelude.{
  ℕ, ◌+◌, ◌*◌, ◌≤◌, ◌<◌, ◌≡◌, refl, sym, ◌∙◌, Bool, true, false, List, [], ◌∷◌, map, All,
  All-append, tally, tally-append, inl, inr, arith, leb, if◌then◌else◌,
}
use mathlib.Core.Bool.{true≢false}
use llm_inference_stack.Cluster.{ClusterRequest, ClusterConfig, Costs}
use llm_inference_stack.Cluster.Decode.{
  Active, Worker, work_of, decode_batch, decode_step, advance_worker, admit_worker, is_drained,
}
use llm_inference_stack.Cluster.Queue.{
  work_active, Facts, IsReady, IsRunning, IsServed, has_facts, runs_facts, admit_ready-Admission,
}
use llm_inference_stack.Cluster.Batch.{decode_batch-Batch, lag, lag_le, stalled}

-- What the worker holds is well timed.
pub record IsTimed (s : Worker) : Type 0 where
  pub queue : All IsReady s.pending
  pub batch : All (IsRunning s.now) s.active
  pub done : All IsServed s.finished

-- The requests of the worker that pass a test on the id.
abbrev pub held : (Facts → Bool) → Worker → ℕ
held p s =
    tally (has_facts p) s.pending + (tally (runs_facts p) s.active + tally (has_facts p) s.finished)

-- A bound for the rounds that are left.
unfoldable pub measure : Worker → ℕ
measure s = 2 * (work_of s.pending + work_active s.active) + lag s.now s.pending s.active

-- What each part of a round keeps.
pub record Keeps (s s' : Worker) : Type 0 where
  pub ids : (p : Facts → Bool) → held p s' ≡ held p s
  pub timed : IsTimed s → IsTimed s'

lt-measure :
    (s : Worker) {n : ℕ} {w : ℕ}
    → w ≡ work_of s.pending + work_active s.active
    → n < 2 * w + lag s.now s.pending s.active
    → n < measure s
unfolding measure
lt-measure s e k = omega (arith, e, k)

not_late : (t : ℕ) → ◌≡◌ {A = ℕ} (if leb t t then 0 else 1) 0
not_late t = ground arith

module _ (c : Costs) (cfg : ClusterConfig) where
  decode_step-Keeps : (s : Worker) → Keeps s (decode_step c cfg s)
  unfolding decode_step
  decode_step-Keeps s =
      let later = s.now + c.decode_time (map (λ a. a.ctx) s.active) in
      let b = decode_batch-Batch s.now later s.active (omega arith) in
      record {
        ids = λ p. omega (
          arith,
          b.ids p,
          tally-append (has_facts p) s.finished ((decode_batch later s.active).1),
        );
        timed = λ t. record {
          queue = t.queue;
          batch = b.running t.batch;
          done = All-append IsServed s.finished _ t.done (b.served t.batch);
        };
      }

  advance_worker-Keeps :
      (now busy : ℕ) (pending : List ClusterRequest) (active : List Active)
      (finished : List ClusterRequest)
      → Keeps
          (record {
            now = now;
            busy = busy;
            pending = pending;
            active = active;
            finished = finished;
          })
          (advance_worker c cfg (record {
            now = now;
            busy = busy;
            pending = pending;
            active = active;
            finished = finished;
          }))
  unfolding advance_worker
  advance_worker-Keeps now busy pending (a ∷ active) finished = decode_step-Keeps _
  advance_worker-Keeps now busy [] [] finished = record { ids = λ p. refl; timed = λ t. t }
  advance_worker-Keeps now busy (r ∷ rs) [] finished = record {
    ids = λ p. refl;
    timed = λ t. record { queue = t.queue; batch = tt; done = t.done };
  }

  -- The clock goes on by a step of the batch, or to the next arrival.
  advance_worker-measure :
      (now busy : ℕ) (pending : List ClusterRequest) (active : List Active)
      (finished : List ClusterRequest) (l : ℕ)
      → (active ≡ [] → (lag now pending [] ≡ 1) × (1 ≤ l))
      → measure (
          advance_worker c cfg (record {
            now = now;
            busy = busy;
            pending = pending;
            active = active;
            finished = finished;
          }))
        < 2 * (work_of pending + work_active active) + l
  unfolding advance_worker measure lag
  advance_worker-measure now busy pending (a ∷ active) finished l h =
      let later = now + c.decode_time (map (λ a. a.ctx) (a ∷ active)) in
      let b = decode_batch-Batch now later (a ∷ active) (omega arith) in
      omega (arith, b.work, lag_le later pending (decode_batch later (a ∷ active)).0)
  advance_worker-measure now busy [] [] finished l h = absurd (omega (arith, (h refl).0))
  advance_worker-measure now busy (r ∷ rs) [] finished l h =
      omega (arith, (h refl).1, not_late r.transfer_done)

  abbrev pub round : Worker → Worker
  round s = advance_worker c cfg (admit_worker c cfg s)

  pub round-Keeps : (s : Worker) → Keeps s (round s)
  round-Keeps s =
      let m = admit_ready-Admission cfg.max_batch s.now s.pending s.active in
      let k =
        advance_worker-Keeps s.now s.busy (admit_worker c cfg s).pending
          (admit_worker c cfg s).active s.finished in
      record {
        ids = λ p. omega (arith, m.ids p, k.ids p);
        timed = λ t.
            k.timed
              (record { queue = m.queue t.queue; batch = m.batch t.queue t.batch; done = t.done });
      }

  drained_of : (s : Worker) → s.pending ≡ [] → s.active ≡ [] → is_drained c cfg s ≡ true
  unfolding is_drained
  drained_of s p a = rw (p, a) refl

  stuck :
      (s : Worker)
      → 0 < cfg.max_batch
      → is_drained c cfg s ≡ false
      → (admit_worker c cfg s).active ≡ []
      → (lag s.now (admit_worker c cfg s).pending [] ≡ 1) × (1 ≤ lag s.now s.pending s.active)
  stuck s l h e =
      let (a, p, late) = stalled cfg.max_batch s.now s.pending s.active l e in
      elim late [
        | inl n ↦ absurd (true≢false (sym (drained_of s n a) ∙ h))
        | inr n ↦ (rw p n, rw (a, n) (omega arith))
      ]

  pub round-measure :
      (s : Worker) → 0 < cfg.max_batch → is_drained c cfg s ≡ false → measure (round s) < measure s
  round-measure s l h =
      let m = admit_ready-Admission cfg.max_batch s.now s.pending s.active in
      let k =
        advance_worker-measure s.now s.busy (admit_worker c cfg s).pending
          (admit_worker c cfg s).active s.finished (lag s.now s.pending s.active) (stuck s l h) in
      lt-measure s m.work k
