-- ===== src/Cluster/Queue.antt =====
-- The batch of a decode worker: what a round does to the work that is left, and to the requests.
use llm_inference_stack.Prelude.{
  ℕ, ◌+◌, ◌≤◌, ◌≡◌, refl, max, String, Bool, ◌&&◌, some, List, [], ◌∷◌, ◌++◌, length, All,
  All-append, tally, tally-append, inl, inr, Bool-cases, if_true, if_false, leb→le, and_left, arith,
  leb, ltb,
}
use llm_inference_stack.Cluster.{ClusterRequest}
use llm_inference_stack.Cluster.Decode.{Active, activate, admit_ready, work_of}

-- The tokens that are to be made for the batch.
unfoldable pub work_active : List Active → ℕ
work_active [] = 0
work_active (a ∷ batch) = max 1 a.remaining + work_active batch

work_active-append :
    (xs ys : List Active) → work_active (xs ++ ys) ≡ work_active xs + work_active ys
unfolding work_active
work_active-append [] ys = omega arith
work_active-append (x ∷ xs) ys = omega (arith, work_active-append xs ys)

-- The times of a request in the first stage.
pub record IsReady (r : ClusterRequest) : Type 0 where
  pub started : r.arrival ≤ r.prefill_start
  pub prefilled : r.prefill_start ≤ r.prefill_done
  pub transferred : r.prefill_done ≤ r.transfer_done

-- A request of the batch: it has arrived, and its first token, if any, is not before that.
pub record IsRunning (now : ℕ) (a : Active) : Type 0 where
  pub ready : IsReady a.req
  pub here : a.req.transfer_done ≤ now
  pub timed : (t : ℕ) → a.req.first_token ≡ some t → (a.req.transfer_done ≤ t) × (t ≤ now)

-- A finished request.
pub record IsServed (r : ClusterRequest) : Type 0 where
  pub ready : IsReady r
  pub first : ℕ
  pub last : ℕ
  pub first_token : r.first_token ≡ some first
  pub finish : r.finish ≡ some last
  pub after_transfer : r.transfer_done ≤ first
  pub in_order : first ≤ last

-- What a request was given with.
abbrev pub Facts : Type 0
Facts = String × ℕ × ℕ × ℕ

abbrev pub has_facts : (Facts → Bool) → ClusterRequest → Bool
has_facts p r = p (r.request_id, r.prompt_tokens, r.output_tokens, r.arrival)

abbrev pub runs_facts : (Facts → Bool) → Active → Bool
runs_facts p a = has_facts p a.req

-- What `admit_ready` does: it moves requests from the queue to the batch, and if the batch is empty
-- after it then nothing was moved, and the first of the queue is later.
pub record Admission (now : ℕ) (pending : List ClusterRequest) (active : List Active)
    (r : List ClusterRequest × List Active) : Type 0 where
  pub work : work_of (r.0) + work_active (r.1) ≡ work_of pending + work_active active
  pub ids :
      (p : Facts → Bool)
      → tally (has_facts p) (r.0) + tally (runs_facts p) (r.1)
        ≡ tally (has_facts p) pending + tally (runs_facts p) active
  pub queue : All IsReady pending → All IsReady (r.0)
  pub batch : All IsReady pending → All (IsRunning now) active → All (IsRunning now) (r.1)

activate-IsRunning :
    (now : ℕ) (r : ClusterRequest) → IsReady r → r.transfer_done ≤ now → IsRunning now (activate r)
activate-IsRunning now r h l = record {
  ready = record { started = h.started; prefilled = h.prefilled; transferred = h.transferred };
  here = l;
  timed = λ t e. cc;
}

moved_Admission :
    (now : ℕ) (r : ClusterRequest) (rs : List ClusterRequest) (active : List Active)
    {m : List ClusterRequest × List Active}
    → r.transfer_done ≤ now
    → Admission now rs (active ++ activate r ∷ []) m
    → Admission now (r ∷ rs) active m
unfolding work_of work_active tally
moved_Admission now r rs active l m = record {
  work = omega (arith, m.work, work_active-append active (activate r ∷ []));
  ids = λ p. omega (arith, m.ids p, tally-append (runs_facts p) active (activate r ∷ []));
  queue = λ q. m.queue q.1;
  batch = λ q a.
      m.batch q.1 (
        All-append (IsRunning now) active (activate r ∷ []) a (activate-IsRunning now r q.0 l, tt));
}

pub admit_ready-Admission :
    (max_batch now : ℕ) (pending : List ClusterRequest) (active : List Active)
    → Admission now pending active (admit_ready max_batch now pending active)
unfolding admit_ready
admit_ready-Admission max_batch now [] active = record {
  work = refl;
  ids = λ p. refl;
  queue = λ q. q;
  batch = λ q a. a;
}
admit_ready-Admission max_batch now (r ∷ rs) active =
    elim (Bool-cases (leb r.transfer_done now && ltb (length active) max_batch)) [
      | inr h ↦
          rw (if_false _ _ h)
            (record { work = refl; ids = λ p. refl; queue = λ q. q; batch = λ q a. a })
      | inl h ↦ rw (if_true _ _ h) (
          moved_Admission now r rs active (leb→le _ _ (and_left _ _ h))
            (admit_ready-Admission max_batch now rs (active ++ activate r ∷ [])))
    ]
