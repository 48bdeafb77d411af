-- ===== src/AiGateway/Health.antt =====
-- The health probes and the manual breaker of projects/13-ai-gateway/gateway.py.
use llm_inference_stack.Prelude.{
  ℕ, ◌+◌, min, max, String, Bool, true, false, Option, none, some, List, [], ◌∷◌, str_eq, leb,
  if◌then◌else◌,
}
use llm_inference_stack.Gateway.Backends.{Backend}

-- What a probe does to a backend; `open_time` is 15 seconds in ticks.
unfoldable pub probe : ℕ → ℕ → Bool → Backend → Backend
probe open_time now true b = record b {
  consecutive_errors = 0;
  probe_failures = 0;
  open_until = min b.open_until now;
}
probe open_time now false b = record b {
  probe_failures = b.probe_failures + 1;
  open_until =
      if leb 3 (b.probe_failures + 1) then max b.open_until (now + open_time) else b.open_until;
}

-- One round of the loop: the self-hosted backends are asked.
unfoldable pub probe_all : ℕ → ℕ → (Backend → Bool) → (Backend → Bool) → List Backend → List Backend
unfolding probe
probe_all open_time now self_hosted healthy [] = []
probe_all open_time now self_hosted healthy (b ∷ bs) =
    (if self_hosted b then probe open_time now (healthy b) b else b)
    ∷ probe_all open_time now self_hosted healthy bs

-- `disable_backend`: the first backend of the name; none is `HTTPException` 404.
unfoldable pub disable_backend : ℕ → ℕ → String → List Backend → Option (List Backend)
disable_backend now secs name [] = none
disable_backend now secs name (b ∷ bs) =
    let rest = disable_backend now secs name bs in
    if str_eq b.name name
    then some (record b { open_until = now + secs } ∷ bs)
    else elim rest [ none ↦ none | some bs' ↦ some (b ∷ bs') ]
