-- ===== src/Engine/Drafts.antt =====
-- How `_sample_accepted` and the loops after it count tokens, in
-- packages/llmkit/llmkit/simulator/engine.py.
use llm_inference_stack.Prelude.{
  ℕ, zero, suc, ◌+◌, ◌≤◌, ◌<◌, ◌≡◌, ap, ◌∙◌, min, true, false, inl, inr, Bool-cases, if_true,
  if_false, arith,
}
use llm_inference_stack.Engine.{World}
use llm_inference_stack.Engine.Step.{accept_run}

-- `(n, next)` is the run of accepted drafts among `k` from the draw `drawn`.
pub record AcceptRun (w : World) (k drawn : ℕ) (r : ℕ × ℕ) : Type 0 where
  pub bound : r.0 ≤ k
  pub accepted : (j : ℕ) → j < r.0 → w.coin (drawn + j) ≡ true
  pub stopped : r.0 < k → w.coin (drawn + r.0) ≡ false
  pub next : r.1 ≡ drawn + min k (r.0 + 1)

module _ (w : World) where
  accepted_more :
      (k drawn : ℕ) {r : ℕ × ℕ}
      → w.coin drawn ≡ true
      → AcceptRun w k (drawn + 1) r
      → AcceptRun w (suc k) drawn (r.0 + 1, r.1)
  accepted_more k drawn {r} h a = record {
    bound = omega (arith, a.bound);
    accepted = go;
    stopped = λ l. ap w.coin (omega arith) ∙ a.stopped (omega arith);
    next = omega (arith, a.next);
  }
    where
      go : (j : ℕ) → j < r.0 + 1 → w.coin (drawn + j) ≡ true
      go zero l = ap w.coin (omega arith) ∙ h
      go (suc j) l = ap w.coin (omega arith) ∙ a.accepted j (omega arith)

  -- The number of accepted drafts is at most k, each draw before it was an acceptance, the draw at
  -- it was a rejection if it is less than k, and the draws used are that number and the rejection,
  -- at most k.
  pub accept_run-AcceptRun : (k drawn : ℕ) → AcceptRun w k drawn (accept_run w k drawn)
  unfolding accept_run
  accept_run-AcceptRun zero drawn = record {
    bound = omega arith;
    accepted = λ j l. absurd (omega arith);
    stopped = λ l. absurd (omega arith);
    next = omega arith;
  }
  accept_run-AcceptRun (suc k) drawn = elim (Bool-cases (w.coin drawn)) [
    | inl h ↦ rw (if_true _ _ h) (accepted_more k drawn h (accept_run-AcceptRun k (drawn + 1)))
    | inr h ↦ rw (if_false _ _ h) (record {
      bound = omega arith;
      accepted = λ j l. absurd (omega arith);
      stopped = λ l. ap w.coin (omega arith) ∙ h;
      next = omega arith;
    })
  ]
