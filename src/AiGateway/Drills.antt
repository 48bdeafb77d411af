-- ===== src/AiGateway/Drills.antt =====
-- Probes against the breaker, in projects/13-ai-gateway/gateway.py.
use llm_inference_stack.Prelude.{
  ℕ, ◌+◌, ◌≤◌, ◌<◌, ◌≡◌, refl, ◌∙◌, min, String, Bool, true, false, some, List, [], ◌∷◌, ◌++◌, All,
  length, length-append, eq_iff, if_true, if_false, ap, arith, get_elem?, str_eq,
}
use llm_inference_stack.Gateway.Backends.{Backend, available}
use llm_inference_stack.AiGateway.Health.{probe, probe_all, disable_backend}

-- Failed probes at the given times.
unfoldable pub fail_probes : ℕ → List ℕ → Backend → Backend
unfolding probe
fail_probes open_time [] b = b
fail_probes open_time (t ∷ ts) b = fail_probes open_time ts (probe open_time t false b)

module _ (open_time : ℕ) where
  few_failures :
      (ts : List ℕ) (b : Backend)
      → b.probe_failures + length ts < 3
      → (fail_probes open_time ts b).open_until ≡ b.open_until
  unfolding fail_probes probe
  few_failures [] b h = refl
  few_failures (t ∷ ts) b h =
      few_failures ts (probe open_time t false b) (omega (arith, h)) ∙ ground arith

  many_failures :
      (ts : List ℕ) (now : ℕ) (b : Backend)
      → 3 ≤ b.probe_failures + length ts + 1
      → now + open_time ≤ (fail_probes open_time (ts ++ now ∷ []) b).open_until
  unfolding fail_probes probe
  many_failures [] now b h = ground arith
  many_failures (t ∷ ts) now b h =
      many_failures ts now (probe open_time t false b) (omega (arith, h))

  closed_before :
      (t until : ℕ) (b : Backend) → until ≤ b.open_until → t < until → available t b ≡ false
  unfolding available
  closed_before t until b h l = ground arith

  -- After a good health probe, one or two failed probes in a row leave the breaker as it was, and
  -- three or more make the backend unavailable at every time before the last of them plus the open
  -- time.
  pub fail_probes-available :
      (start : ℕ) (ts : List ℕ) (now : ℕ) (b : Backend)
      → (length ts + 1 < 3
          → (fail_probes open_time (ts ++ now ∷ []) (probe open_time start true b)).open_until
            ≡ min b.open_until start)
        × (3 ≤ length ts + 1
            → (t : ℕ) → t < now + open_time
            → available t (fail_probes open_time (ts ++ now ∷ []) (probe open_time start true b))
              ≡ false)
  unfolding probe
  fail_probes-available start ts now b = (
    λ h.
        few_failures (ts ++ now ∷ []) (probe open_time start true b)
          (omega (arith, h, length-append ts (now ∷ []))),
    λ h t l.
        closed_before t (now + open_time) _
          (many_failures ts now (probe open_time start true b) (omega (arith, h))) l,
  )

  open_again :
      (t : ℕ) (b : Backend)
      → b.open_until ≤ t
      → b.inflight < b.max_concurrent
      → available t b ≡ true
  unfolding available
  open_again t b h l = ground arith

  same_name : (name : String) → str_eq name name ≡ true
  same_name name = ground (arith, eq_iff name name)

  abbrev disabled : ℕ → Backend → Backend
  disabled until b = record b { open_until = until }

  disable_backend-found :
      (start secs : ℕ) (before : List Backend) (b : Backend) (after : List Backend)
      → All (λ c. str_eq c.name b.name ≡ false) before
      → disable_backend start secs b.name (before ++ b ∷ after)
        ≡ some (before ++ disabled (start + secs) b ∷ after)
  unfolding disable_backend
  disable_backend-found start secs [] b after h = if_true _ _ (same_name b.name)
  disable_backend-found start secs (c ∷ before) b after (n, h) =
      if_false _ _ n ∙ rw (disable_backend-found start secs before b after h) refl

  get_elem?-probe_all :
      (now : ℕ) (self_hosted healthy : Backend → Bool) (before : List Backend) (b : Backend)
      (after : List Backend)
      → self_hosted b ≡ true
      → get_elem?
          (probe_all open_time now self_hosted healthy (before ++ b ∷ after))
          (length before)
        ≡ some (probe open_time now (healthy b) b)
  unfolding probe_all
  get_elem?-probe_all now self_hosted healthy [] b after h = ap some (if_true _ _ h)
  get_elem?-probe_all now self_hosted healthy (c ∷ before) b after h =
      get_elem?-probe_all now self_hosted healthy before b after h

  -- A self-hosted backend with room, anywhere in the list and the first of its name, that was
  -- disabled by hand is available again after the next round of probes in which its own is good,
  -- whatever time it was disabled for and whatever the other probes give.
  pub disable_backend-probe :
      (start secs now : ℕ) (before : List Backend) (b : Backend) (after : List Backend)
      (self_hosted healthy : Backend → Bool)
      → All (λ c. str_eq c.name b.name ≡ false) before
      → b.inflight < b.max_concurrent
      → self_hosted (record b { open_until = start + secs }) ≡ true
      → healthy (record b { open_until = start + secs }) ≡ true
      → (bs : List Backend) × (disable_backend start secs b.name (before ++ b ∷ after) ≡ some bs)
        × (b' : Backend) × (get_elem?
              (probe_all open_time now self_hosted healthy bs)
              (length before)
            ≡ some b')
        × (b'.name ≡ b.name)
        × (available now b' ≡ true)
  unfolding probe
  disable_backend-probe start secs now before b after self_hosted healthy first l h good = (
    _,
    disable_backend-found start secs before b after first,
    probe open_time now true (disabled (start + secs) b),
    get_elem?-probe_all now self_hosted healthy before (disabled (start + secs) b) after h
        ∙ ap (λ g. some (probe open_time now g (disabled (start + secs) b))) good,
    refl,
    open_again now (probe open_time now true (disabled (start + secs) b)) (omega arith) l,
  )
