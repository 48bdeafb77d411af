-- ===== src/Gateway/Breaker.antt =====
-- The circuit breaker of `Backend` in packages/llmkit/llmkit/gateway.py.
use llm_inference_stack.Prelude.{
  ℕ, ◌+◌, ◌≤◌, ◌<◌, ◌≡◌, refl, ◌∙◌, false, Option, none, some, List, [], ◌∷◌, ◌++◌, length,
  length-append, arith,
}
use llm_inference_stack.Gateway.Backends.{Backend, available, observe_success, observe_error}

-- Errors at the given times, with no success between them.
unfoldable pub observe_errors : ℕ → ℕ → List ℕ → Backend → Backend
observe_errors threshold open_time [] b = b
observe_errors threshold open_time (t ∷ ts) b =
    observe_errors threshold open_time ts (observe_error threshold open_time t b)

success_resets :
    (blend : ℕ → ℕ → ℕ) (ttft : Option ℕ) (b : Backend)
    → (observe_success blend ttft b).consecutive_errors ≡ 0
unfolding observe_success
success_resets blend none b = refl
success_resets blend (some t) b = refl

success-open_until :
    (blend : ℕ → ℕ → ℕ) (ttft : Option ℕ) (b : Backend)
    → (observe_success blend ttft b).open_until ≡ b.open_until
unfolding observe_success
success-open_until blend none b = refl
success-open_until blend (some t) b = refl

module _ (threshold open_time : ℕ) where
  counted :
      (ts : List ℕ) (b : Backend)
      → (observe_errors threshold open_time ts b).consecutive_errors
        ≡ b.consecutive_errors + length ts
  unfolding observe_errors observe_error
  counted [] b = omega arith
  counted (t ∷ ts) b = omega (arith, counted ts (observe_error threshold open_time t b))

  still_closed :
      (ts : List ℕ) (b : Backend)
      → b.consecutive_errors + length ts < threshold
      → (observe_errors threshold open_time ts b).open_until ≡ b.open_until
  unfolding observe_errors observe_error
  still_closed [] b h = refl
  still_closed (t ∷ ts) b h =
      still_closed ts (observe_error threshold open_time t b) (omega (arith, h)) ∙ ground arith

  last_opens :
      (ts : List ℕ) (now : ℕ) (b : Backend)
      → threshold ≤ b.consecutive_errors + length ts + 1
      → now + open_time ≤ (observe_errors threshold open_time (ts ++ now ∷ []) b).open_until
  unfolding observe_errors observe_error
  last_opens [] now b h = ground arith
  last_opens (t ∷ ts) now b h =
      last_opens ts now (observe_error threshold open_time t b) (omega (arith, h))

  closed_before :
      (t now : ℕ) (b : Backend)
      → now + open_time ≤ b.open_until
      → t < now + open_time
      → available t b ≡ false
  unfolding available
  closed_before t now b h l = ground arith

  -- After a success, a run of errors shorter than the threshold leaves the breaker as it was, and a
  -- run as long as the threshold or longer makes the backend unavailable at every time before the
  -- last error plus the open time.
  pub observe_errors-available :
      (blend : ℕ → ℕ → ℕ) (ttft : Option ℕ) (ts : List ℕ) (now : ℕ) (b : Backend)
      → (length ts + 1 < threshold
          → (observe_errors threshold open_time
              (ts ++ now ∷ [])
              (observe_success blend ttft b)).open_until
            ≡ b.open_until)
        × (threshold ≤ length ts + 1
            → (t : ℕ) → t < now + open_time
            → available t
                (observe_errors threshold open_time (ts ++ now ∷ []) (observe_success blend ttft b))
              ≡ false)
  observe_errors-available blend ttft ts now b = (
    λ h.
        still_closed (ts ++ now ∷ []) (observe_success blend ttft b)
          (omega (arith, h, success_resets blend ttft b, length-append ts (now ∷ [])))
        ∙ success-open_until blend ttft b,
    λ h t l.
        closed_before t now _ (last_opens ts now (observe_success blend ttft b) (omega (arith, h)))
          l,
  )
