-- ===== src/Cluster/Batch.antt =====
-- A step of the batch of a decode worker, and a batch that stays empty.
use llm_inference_stack.Prelude.{
  ℕ, ◌+◌, ◌≤◌, ◌<◌, ◌≡◌, ◌⊎◌, refl, sym, ap, ◌∙◌, Bool, true, false, ◌&&◌, some, List, [], ◌∷◌,
  ◌++◌, length, All, tally, inl, inr, Bool-cases, Option-cases, if_true, if_false, leb→le, leb→lt,
  arith, leb, ltb, if◌then◌else◌,
}
use llm_inference_stack.Cluster.{ClusterRequest}
use llm_inference_stack.Cluster.Decode.{Active, activate, admit_ready, decode_token, decode_batch}
use llm_inference_stack.Cluster.Queue.{
  work_active, Facts, IsRunning, IsServed, has_facts, runs_facts,
}

-- A step takes one token of work from each request of the batch, and loses none of them.
pub record Batch (now later : ℕ) (batch : List Active) (r : List Active × List ClusterRequest)
    : Type 0 where
  pub work : work_active (r.0) + length batch ≡ work_active batch
  pub ids :
      (p : Facts → Bool)
      → tally (runs_facts p) (r.0) + tally (has_facts p) (r.1) ≡ tally (runs_facts p) batch
  pub running : All (IsRunning now) batch → All (IsRunning later) (r.0)
  pub served : All (IsRunning now) batch → All IsServed (r.1)

first_of :
    (now later : ℕ) (a : Active)
    → now ≤ later
    → IsRunning now a
    → (t : ℕ) × ((decode_token later a).req.first_token ≡ some t)
      × (a.req.transfer_done ≤ t)
      × (t ≤ later)
first_of now later a l h = elim (Option-cases a.req.first_token) [
  | inl e ↦ (later, rw e refl, omega (arith, h.here), omega arith)
  | inr (t, e) ↦ (t, rw e refl, (h.timed t e).0, omega (arith, (h.timed t e).1))
]

decode_token-IsRunning :
    (now later : ℕ) (a : Active)
    → now ≤ later
    → IsRunning now a
    → IsRunning later (decode_token later a)
decode_token-IsRunning now later a l h =
    let (t, e, b, c) = first_of now later a l h in
    record {
      ready = record {
        started = h.ready.started;
        prefilled = h.ready.prefilled;
        transferred = h.ready.transferred;
      };
      here = omega (arith, h.here);
      timed = λ u d. timed t e b c u d;
    }
  where
    timed :
        (t : ℕ)
        → (decode_token later a).req.first_token ≡ some t
        → a.req.transfer_done ≤ t
        → t ≤ later
        → (u : ℕ) → (decode_token later a).req.first_token ≡ some u
        → (a.req.transfer_done ≤ u) × (u ≤ later)
    timed t e b c u d = ground arith

finished-IsServed :
    (now later : ℕ) (a : Active)
    → now ≤ later
    → IsRunning now a
    → IsServed (record (decode_token later a).req { finish = some later })
finished-IsServed now later a l h =
    let (t, e, b, c) = first_of now later a l h in
    record {
      ready = record {
        started = h.ready.started;
        prefilled = h.ready.prefilled;
        transferred = h.ready.transferred;
      };
      first = t;
      last = later;
      first_token = e;
      finish = refl;
      after_transfer = b;
      in_order = c;
    }

goes_on :
    (now later : ℕ) (a : Active) (batch : List Active) (m : List Active × List ClusterRequest)
    → now ≤ later
    → 1 < a.remaining
    → Batch now later batch m
    → Batch now later (a ∷ batch) (decode_token later a ∷ m.0, m.1)
unfolding work_active tally
goes_on now later a batch m l h b = record {
  work = omega (arith, b.work);
  ids = λ p. omega (arith, b.ids p);
  running = λ q. (decode_token-IsRunning now later a l q.0, b.running q.1);
  served = λ q. b.served q.1;
}

stops :
    (now later : ℕ) (a : Active) (batch : List Active) (m : List Active × List ClusterRequest)
    → now ≤ later
    → a.remaining ≤ 1
    → Batch now later batch m
    → Batch now later
        (a ∷ batch)
        (m.0, record (decode_token later a).req { finish = some later } ∷ m.1)
unfolding work_active tally
stops now later a batch m l h b = record {
  work = omega (arith, b.work);
  ids = λ p. omega (arith, b.ids p);
  running = λ q. b.running q.1;
  served = λ q. (finished-IsServed now later a l q.0, b.served q.1);
}

pub decode_batch-Batch :
    (now later : ℕ) (batch : List Active)
    → now ≤ later
    → Batch now later batch (decode_batch later batch)
unfolding decode_batch work_active tally
decode_batch-Batch now later [] l = record {
  work = refl;
  ids = λ p. refl;
  running = λ q. q;
  served = λ q. q;
}
decode_batch-Batch now later (a ∷ batch) l = elim (Bool-cases (leb a.remaining 1)) [
  | inl h ↦
      rw (if_true _ _ h)
        (stops now later a batch _ l (leb→le _ _ h) (decode_batch-Batch now later batch l))
  | inr h ↦
      rw (if_false _ _ h)
        (goes_on now later a batch _ l (leb→lt _ _ h) (decode_batch-Batch now later batch l))
]

-- 1 when the batch is empty and the first of the queue has not arrived.
unfoldable pub lag : ℕ → List ClusterRequest → List Active → ℕ
lag now [] batch = 0
lag now (r ∷ rs) (a ∷ batch) = 0
lag now (r ∷ rs) [] = if leb r.transfer_done now then 0 else 1

pub lag_le :
    (now : ℕ) (pending : List ClusterRequest) (batch : List Active) → lag now pending batch ≤ 1
unfolding lag
lag_le now [] batch = omega arith
lag_le now (r ∷ rs) (a ∷ batch) = omega arith
lag_le now (r ∷ rs) [] = ground arith

append_one_nonempty : (xs : List Active) (a : Active) → xs ++ a ∷ [] ≡ [] → ⊥
append_one_nonempty [] a h = cc
append_one_nonempty (x ∷ xs) a h = cc

has_room :
    (max_batch : ℕ) (active : List Active)
    → 0 < max_batch
    → active ≡ []
    → ltb (length active) max_batch ≡ true
has_room max_batch active l h = rw h (ground arith)

late_of : (a b : Bool) → (a && b) ≡ false → b ≡ true → a ≡ false
late_of a b h k = ground arith

-- A batch that is empty after the queue was looked at: nothing was taken, and what waits is later.
pub stalled :
    (max_batch now : ℕ) (pending : List ClusterRequest) (active : List Active)
    → 0 < max_batch
    → (admit_ready max_batch now pending active).1 ≡ []
    → (active ≡ [])
      × ((admit_ready max_batch now pending active).0 ≡ pending)
      × ((pending ≡ []) ⊎ (lag now pending [] ≡ 1))
unfolding admit_ready lag
stalled max_batch now [] active l h = (h, refl, inl refl)
stalled max_batch now (r ∷ rs) active l h =
    elim (Bool-cases (leb r.transfer_done now && ltb (length active) max_batch)) [
      | inl e ↦ absurd (
          append_one_nonempty active (activate r)
            (stalled max_batch now rs (active ++ activate r ∷ []) l (
              sym
                (ap (λ (q : List ClusterRequest × List Active). q.1) (if_true _ (r ∷ rs, active) e))
              ∙ h)).0)
      | inr e ↦
          let none_active =
            sym
              (ap (λ (q : List ClusterRequest × List Active). q.1) (if_false _ (r ∷ rs, active) e))
            ∙ h in
          (
            none_active,
            rw (if_false _ _ e) refl,
            inr (
                rw
                  (late_of (leb r.transfer_done now) (ltb (length active) max_batch) e
                    (has_room max_batch active l none_active))
                  refl),
          )
    ]
