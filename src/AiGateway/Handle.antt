-- ===== src/AiGateway/Handle.antt =====
-- `forward`, without streaming, and `handle` of projects/13-ai-gateway/gateway.py.
use llm_inference_stack.Prelude.{
  ℕ, zero, suc, ◌+◌, ◌-◌, String, Bool, true, false, ◌||◌, Option, none, some, List, [], ◌∷◌, ◌++◌,
  leb, ◌==◌, if◌then◌else◌,
}
use llm_inference_stack.Gateway.Backends.{Backend, observe_success, observe_error, candidates, rank}
use llm_inference_stack.Gateway.Limits.{TenantLimits, Reason, Delay, check, settle}
use llm_inference_stack.Gateway.Retry.{record_request, try_retry}
use llm_inference_stack.AiGateway.{
  Metrics, note_ttft, bump, Payload, AiGateway, Reply, lost, unreadable, answer, World, tier_name,
  reason_name, update_backend, cache_get, cache_put,
}

-- What a request changes: the gateway and the limits of its tenant.
pub record Turn : Type 0 where
  pub gateway : AiGateway
  pub limits : TenantLimits

abbrev pub on_backend : String → (Backend → Backend) → Turn → Turn
on_backend name f t = record t {
  gateway = record t.gateway { backends = update_backend name f t.gateway.backends };
}

abbrev pub on_metrics : (Metrics → Metrics) → Turn → Turn
on_metrics f t = record t { gateway = record t.gateway { metrics = f t.gateway.metrics } }

-- How `forward` ends: with a payload, by `_BackendError`, or by an exception that `handle` does not catch.
pub data Outcome : Type 0 where
  got : Payload → Outcome
  backend_error crashed : Outcome

-- `x or y` on numbers.
abbrev pub or_number : ℕ → ℕ → ℕ
or_number x y = if x == 0 then y else x

module _ (w : World) (key : String) (est : ℕ) where
  -- The status is good: the backend and the latencies, before the body is read.
  unfoldable pub note_success : ℕ → Backend → Turn → Turn
  unfolding observe_success note_ttft update_backend
  note_success k b t =
      let ms = w.latency k in
      on_metrics (note_ttft ms) (on_backend b.name (observe_success w.blend (some ms)) t)

  -- The body is read: the tenant's account and the cache.
  unfoldable pub settle_reply : ℕ → Backend → Payload → Turn → Turn
  unfolding settle cache_put
  settle_reply k b p t = record t {
    limits =
        settle (or_number p.total_tokens est) est (w.price b p.prompt_tokens p.completion_tokens)
          t.limits;
    gateway = record t.gateway {
      response_cache = cache_put (w.clock k) key p t.gateway.response_cache;
    };
  }

  -- `r.status_code >= 500 or r.status_code == 429`
  abbrev pub is_failure : ℕ → Bool
  is_failure status = leb 500 status || (status == 429)

  -- After the request is counted in and out of the backend: an error status raises `_BackendError`,
  -- and a body that cannot be read raises another exception.
  unfoldable pub read_reply : ℕ → Backend → Reply → Turn → Outcome × Turn
  unfolding note_success settle_reply
  read_reply k b lost t = (backend_error, t)
  read_reply k b (unreadable status) t =
      if is_failure status then (backend_error, t) else (crashed, note_success k b t)
  read_reply k b (answer status p) t =
      if is_failure status
      then (backend_error, t)
      else (got p, settle_reply k b p (note_success k b t))

  unfoldable pub forward : ℕ → Backend → Turn → Outcome × Turn
  unfolding read_reply update_backend
  forward k b t =
      if w.has_key b
      then read_reply k b (w.post k b) (
          on_backend b.name (λ c. record c { inflight = c.inflight - 1 })
            (on_backend b.name (λ c. record c { inflight = c.inflight + 1; total = c.total + 1 })
              t))
      else (backend_error, t)

  unfoldable pub count_served : Backend → Metrics → Metrics
  unfolding bump
  count_served b m = record m {
    served = m.served + 1;
    by_backend = bump b.name m.by_backend;
    by_tier = bump (tier_name b.tier) m.by_tier;
    degraded = if rank b.tier == 0 then m.degraded else m.degraded + 1;
  }

  -- `if attempt > 0`: whether the loop goes on.
  unfoldable pub may_attempt : ℕ → Turn → Bool × Turn
  unfolding try_retry
  may_attempt zero t = (true, t)
  may_attempt (suc k) t =
      let (granted, budget) = try_retry (w.clock (suc k)) t.gateway.budget in
      let t' : Turn = record t { gateway = record t.gateway { budget = budget } } in
      if granted
      then (true, on_metrics (λ m. record m { retries = m.retries + 1 }) t')
      else (false, t')

  -- The `for` loop: `left` attempts are left and `k` were made. It gives the payload, the error of a
  -- backend if there is none, or the exception that leaves it, with the names that were tried.
  unfoldable pub attempts : ℕ → ℕ → List String → Turn → Outcome × List String × Turn
  unfolding may_attempt candidates forward count_served observe_error update_backend
  attempts zero k tried t = (backend_error, tried, t)
  attempts (suc left) k tried t =
      let (go, t₁) = may_attempt k t in
      elim go [
        | false ↦ (backend_error, tried, t₁)
        | true ↦ elim (candidates (w.clock k) tried true t₁.gateway.backends) [
          | [] ↦ (backend_error, tried, t₁)
          | b ∷ bs ↦ elim ((forward k b t₁).0) [
            | got p ↦ (got p, tried ++ b.name ∷ [], on_metrics (count_served b) (forward k b t₁).1)
            | crashed ↦ (crashed, tried ++ b.name ∷ [], (forward k b t₁).1)
            | backend_error ↦ attempts left (k + 1) (tried ++ b.name ∷ []) (
                on_backend b.name (observe_error w.threshold w.open_time (w.clock k))
                  (forward k b t₁).1)
          ]
        ]
      ]

  -- How a request ends: an answer of a backend or of the cache, `HTTPException` 503 or 429, or the
  -- exception of a body that cannot be read.
  pub data Response : Type 0 where
    fresh cached : Payload → Response
    unavailable broken : Response
    rejected : Reason → Delay → Response

  unfoldable pub fail_request : Turn → Response × Turn
  fail_request t = (unavailable, on_metrics (λ m. record m { failed = m.failed + 1 }) t)

  -- What follows `_cache_get`.
  unfoldable pub from_cache :
      Option Payload × List (String × (Payload × ℕ)) → Turn → Response × Turn
  unfolding fail_request bump
  from_cache (some p, cache) t = (
    cached p,
    on_metrics
        (λ m. record m {
          served = m.served + 1;
          degraded = m.degraded + 1;
          by_tier = bump "cached" m.by_tier;
        })
        (record t { gateway = record t.gateway { response_cache = cache } }),
  )
  from_cache (none, cache) t =
      fail_request (record t { gateway = record t.gateway { response_cache = cache } })

  -- The last resort.
  unfoldable pub last_resort : Turn → Response × Turn
  unfolding cache_get from_cache fail_request
  last_resort t =
      let g = t.gateway in
      if g.allow_cached_response
      then from_cache (cache_get (w.clock g.max_attempts) g.cache_ttl key g.response_cache) t
      else fail_request t

  -- What follows the loop.
  unfoldable pub finish : Outcome → Turn → Response × Turn
  unfolding last_resort
  finish (got p) t = (fresh p, t)
  finish crashed t = (broken, t)
  finish backend_error t = last_resort t

  -- The `finally`.
  abbrev pub leave : Response × Turn → Response × Turn
  leave (response, t) =
      (response, record t { limits = record t.limits { inflight = t.limits.inflight - 1 } })

  unfoldable pub serve : Turn → Response × Turn
  unfolding attempts finish
  serve t =
      let entered : Turn = record t {
        limits = record t.limits { inflight = t.limits.inflight + 1 };
      } in
      let (found, tried, t') = attempts t.gateway.max_attempts 0 [] entered in
      leave (finish found t')

  -- The answer of `check`, and what follows it.
  unfoldable pub admit : Option (Reason × Delay) → Turn → Response × Turn
  unfolding serve bump
  admit none t = serve t
  admit (some (reason, delay)) t = (
    rejected reason delay,
    on_metrics
        (λ m. record m {
          rate_limited = m.rate_limited + 1;
          by_reject_reason = bump (reason_name reason) m.by_reject_reason;
        })
        t,
  )

  unfoldable pub handle : Turn → Response × Turn
  unfolding admit check record_request
  handle t =
      let counted : Turn = on_metrics (λ m. record m { requests = m.requests + 1 }) t in
      let recorded : Turn = record counted {
        gateway = record counted.gateway { budget = record_request (w.clock 0) t.gateway.budget };
      } in
      let a = check w.hour w.one (w.clock 0) est t.limits in
      admit a.refusal (record recorded { limits = a.limits })
