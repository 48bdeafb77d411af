-- ===== src/AiGateway/Served.antt =====
-- How `handle` of projects/13-ai-gateway/gateway.py counts a request, and what it leaves.
use llm_inference_stack.Prelude.{
  ℕ, ◌+◌, ◌≡◌, refl, ◌∙◌, String, Option, none, some, List, [], inl, inr, Bool-cases, if_true,
  if_false, arith,
}
use llm_inference_stack.Gateway.Limits.{TenantLimits, Reason, Delay, Answer, check}
use llm_inference_stack.Gateway.Checks.{Checked, Rolled, Decided, check-Decided}
use llm_inference_stack.AiGateway.{Payload, World}
use llm_inference_stack.AiGateway.Handle.{
  Turn, attempts, Outcome, got, backend_error, crashed, Response, fresh, cached, unavailable,
  broken, rejected, fail_request, from_cache, last_resort, finish, serve, admit, handle,
}
use llm_inference_stack.AiGateway.Loads.{loads, IsBalanced, Kept, won, attempts-Tried}

Rolled-inflight :
    {hour now : ℕ} {t u : TenantLimits} → Rolled hour now t u → u.inflight ≡ t.inflight
Rolled-inflight (Rolled.restarted h) = refl
Rolled-inflight (Rolled.running h) = refl

Checked-inflight :
    {one now est : ℕ} {t : TenantLimits} {a : Answer}
    → Checked one now est t a
    → a.limits.inflight ≡ t.inflight
Checked-inflight (Checked.allowed r s) = refl
Checked-inflight (Checked.no_tokens d s) = refl
Checked-inflight (Checked.no_requests d r) = refl

Decided-inflight :
    {hour one now est : ℕ} {t : TenantLimits} {a : Answer}
    → Decided hour one now est t a
    → a.limits.inflight ≡ t.inflight
Decided-inflight (Decided.crowded l) = refl
Decided-inflight (Decided.exhausted limit l b r s) = Rolled-inflight r
Decided-inflight (Decided.unlimited l b c) = Checked-inflight c
Decided-inflight (Decided.within limit l b r s c) = Checked-inflight c ∙ Rolled-inflight r

module _ (w : World) (key : String) (est : ℕ) where
  -- Which counter a response belongs to.
  abbrev pub served_by : Response w key est → ℕ
  served_by (fresh p) = 1
  served_by (cached p) = 1
  served_by broken = 0
  served_by unavailable = 0
  served_by (rejected r d) = 0

  abbrev pub failed_by : Response w key est → ℕ
  failed_by (fresh p) = 0
  failed_by (cached p) = 0
  failed_by broken = 0
  failed_by unavailable = 1
  failed_by (rejected r d) = 0

  abbrev pub rejected_by : Response w key est → ℕ
  rejected_by (fresh p) = 0
  rejected_by (cached p) = 0
  rejected_by broken = 0
  rejected_by unavailable = 0
  rejected_by (rejected r d) = 1

  abbrev pub crashed_by : Response w key est → ℕ
  crashed_by (fresh p) = 0
  crashed_by (cached p) = 0
  crashed_by unavailable = 0
  crashed_by broken = 1
  crashed_by (rejected r d) = 0

  -- A response, counted once under what it is, with the loads as before.
  pub record Counted (t : Turn) (r : Response w key est × Turn) : Type 0 where
    pub loads : loads (r.1).gateway.backends ≡ loads t.gateway.backends
    pub inflight : (r.1).limits.inflight ≡ t.limits.inflight
    pub requests : (r.1).gateway.metrics.requests ≡ t.gateway.metrics.requests
    pub served : (r.1).gateway.metrics.served ≡ t.gateway.metrics.served + served_by (r.0)
    pub failed : (r.1).gateway.metrics.failed ≡ t.gateway.metrics.failed + failed_by (r.0)
    pub rate_limited :
        (r.1).gateway.metrics.rate_limited ≡ t.gateway.metrics.rate_limited + rejected_by (r.0)

  fail_request-Counted : (t : Turn) → Counted t (fail_request w key est t)
  unfolding fail_request
  fail_request-Counted t = record {
    loads = refl;
    inflight = refl;
    requests = refl;
    served = omega arith;
    failed = refl;
    rate_limited = omega arith;
  }

  from_cache-Counted :
      (c : Option Payload × List (String × (Payload × ℕ))) (t : Turn)
      → Counted t (from_cache w key est c t)
  unfolding from_cache fail_request
  from_cache-Counted (some p, cache) t = record {
    loads = refl;
    inflight = refl;
    requests = refl;
    served = refl;
    failed = omega arith;
    rate_limited = omega arith;
  }
  from_cache-Counted (none, cache) t = record {
    loads = refl;
    inflight = refl;
    requests = refl;
    served = omega arith;
    failed = refl;
    rate_limited = omega arith;
  }

  last_resort-Counted : (t : Turn) → Counted t (last_resort w key est t)
  unfolding last_resort
  last_resort-Counted t = elim (Bool-cases t.gateway.allow_cached_response) [
    | inl h ↦ rw (if_true _ _ h) (from_cache-Counted _ t)
    | inr h ↦ rw (if_false _ _ h) (fail_request-Counted t)
  ]

  -- A response after the loop.
  after_Kept :
      {t t' : Turn} {r : Response w key est × Turn} → Kept 0 t t' → Counted t' r → Counted t r
  after_Kept k c = record {
    loads = c.loads ∙ k.loads;
    inflight = c.inflight ∙ k.inflight;
    requests = c.requests ∙ k.requests;
    served = omega (arith, c.served, k.served);
    failed = omega (arith, c.failed, k.failed);
    rate_limited = omega (arith, c.rate_limited, k.rate_limited);
  }

  finish-Counted :
      (found : Outcome) (t t' : Turn)
      → Kept (won w key est found) t t'
      → Counted t (finish w key est found t')
  unfolding finish
  finish-Counted backend_error t t' k = after_Kept k (last_resort-Counted t')
  finish-Counted crashed t t' k = record {
    loads = k.loads;
    inflight = k.inflight;
    requests = k.requests;
    served = k.served;
    failed = omega (arith, k.failed);
    rate_limited = omega (arith, k.rate_limited);
  }
  finish-Counted (got p) t t' k = record {
    loads = k.loads;
    inflight = k.inflight;
    requests = k.requests;
    served = k.served;
    failed = omega (arith, k.failed);
    rate_limited = omega (arith, k.rate_limited);
  }

  serve-Counted : (t : Turn) → Counted t (serve w key est t)
  unfolding serve
  serve-Counted t =
      let entered : Turn = record t {
        limits = record t.limits { inflight = t.limits.inflight + 1 };
      } in
      let r = attempts w key est t.gateway.max_attempts 0 [] entered in
      let c =
        finish-Counted (r.0) entered (r.2)
          (attempts-Tried w key est t.gateway.max_attempts 0 [] entered).kept in
      record {
        loads = c.loads;
        inflight = omega (arith, c.inflight);
        requests = c.requests;
        served = c.served;
        failed = c.failed;
        rate_limited = c.rate_limited;
      }

  admit-Counted : (a : Option (Reason × Delay)) (t : Turn) → Counted t (admit w key est a t)
  unfolding admit
  admit-Counted none t = serve-Counted t
  admit-Counted (some (reason, delay)) t = record {
    loads = refl;
    inflight = refl;
    requests = refl;
    served = omega arith;
    failed = omega arith;
    rate_limited = refl;
  }

  -- A request: one more, under exactly one of the counters unless it crashed, and the loads as before.
  pub record Handled (t : Turn) (r : Response w key est × Turn) : Type 0 where
    pub loads : loads (r.1).gateway.backends ≡ loads t.gateway.backends
    pub inflight : (r.1).limits.inflight ≡ t.limits.inflight
    pub requests : (r.1).gateway.metrics.requests ≡ t.gateway.metrics.requests + 1
    pub served : (r.1).gateway.metrics.served ≡ t.gateway.metrics.served + served_by (r.0)
    pub failed : (r.1).gateway.metrics.failed ≡ t.gateway.metrics.failed + failed_by (r.0)
    pub rate_limited :
        (r.1).gateway.metrics.rate_limited ≡ t.gateway.metrics.rate_limited + rejected_by (r.0)
    pub once : served_by (r.0) + failed_by (r.0) + rejected_by (r.0) + crashed_by (r.0) ≡ 1
    pub balanced :
        crashed_by (r.0) ≡ 0 → IsBalanced t.gateway.metrics → IsBalanced (r.1).gateway.metrics

  one_counter :
      (r : Response w key est) → served_by r + failed_by r + rejected_by r + crashed_by r ≡ 1
  one_counter (fresh p) = refl
  one_counter (cached p) = refl
  one_counter unavailable = refl
  one_counter broken = refl
  one_counter (rejected r d) = refl

  -- For any behaviour of the servers, a request whose own body was read counts one request and
  -- exactly one of served, failed and rate limited, the one that its response says, or none of them
  -- if the body of an answer cannot be read, and requests remain the sum of the three unless that
  -- happens; the requests in flight of its tenant and of every backend are as before in every case.
  pub handle-Handled : (t : Turn) → Handled t (handle w key est t)
  unfolding handle
  handle-Handled t =
      let a = check w.hour w.one (w.clock 0) est t.limits in
      let c = admit-Counted a.refusal _ in
      let total = one_counter (handle w key est t).0 in
      record {
        loads = c.loads;
        inflight =
            c.inflight ∙ Decided-inflight (check-Decided w.hour w.one (w.clock 0) est t.limits);
        requests = c.requests;
        served = c.served;
        failed = c.failed;
        rate_limited = c.rate_limited;
        once = total;
        balanced =
            λ z b. omega (arith, z, b, c.requests, c.served, c.failed, c.rate_limited, total);
      }
