-- ===== src/AiGateway/Loads.antt =====
-- What a request leaves of the loads of the backends and of its tenant.
use llm_inference_stack.Prelude.{
  ℕ, zero, suc, ◌+◌, ◌-◌, ◌≤◌, ◌≡◌, refl, ap, ◌∙◌, String, Bool, true, false, not, ◌&&◌, some, List,
  [], ◌∷◌, ◌++◌, map, length, length-append, inl, inr, Bool-cases, ◌⊎◌, List-cases, if_true,
  if_false, arith, str_eq, is_among, IsDistinct, append-IsDistinct,
}
use llm_inference_stack.Gateway.Backends.{
  Backend, observe_success, observe_error, available, candidates,
}
use llm_inference_stack.Gateway.Chain.{usable}
use llm_inference_stack.Gateway.Candidates.{candidates-Offered}
use llm_inference_stack.Gateway.Limits.{settle}
use llm_inference_stack.Gateway.Retry.{try_retry}
use llm_inference_stack.AiGateway.{
  Metrics, note_ttft, Payload, Reply, lost, unreadable, answer, World, update_backend,
}
use llm_inference_stack.AiGateway.Handle.{
  Turn, on_backend, on_metrics, Outcome, got, backend_error, crashed, note_success, is_failure,
  settle_reply, read_reply, forward, count_served, may_attempt, attempts,
}

-- The requests in flight at each backend.
abbrev pub loads : List Backend → List ℕ
loads = map (λ b. b.inflight)

-- The metrics count every request once.
abbrev pub IsBalanced : Metrics → Type 0
IsBalanced m = m.requests ≡ m.served + m.failed + m.rate_limited

-- Counters that the loop does not touch, `n` more served, the loads and the tenant's requests in flight.
pub record Kept (n : ℕ) (t t' : Turn) : Type 0 where
  pub loads : loads t'.gateway.backends ≡ loads t.gateway.backends
  pub inflight : t'.limits.inflight ≡ t.limits.inflight
  pub served : t'.gateway.metrics.served ≡ t.gateway.metrics.served + n
  pub requests : t'.gateway.metrics.requests ≡ t.gateway.metrics.requests
  pub failed : t'.gateway.metrics.failed ≡ t.gateway.metrics.failed
  pub rate_limited : t'.gateway.metrics.rate_limited ≡ t.gateway.metrics.rate_limited
  pub max_attempts : t'.gateway.max_attempts ≡ t.gateway.max_attempts

pub Kept-trans : {n : ℕ} {t u v : Turn} → Kept 0 t u → Kept n u v → Kept n t v
Kept-trans k l = record {
  loads = l.loads ∙ k.loads;
  inflight = l.inflight ∙ k.inflight;
  served = omega (arith, l.served, k.served);
  requests = l.requests ∙ k.requests;
  failed = l.failed ∙ k.failed;
  rate_limited = l.rate_limited ∙ k.rate_limited;
  max_attempts = l.max_attempts ∙ k.max_attempts;
}

loads-update_backend :
    (name : String) (f : Backend → Backend) (bs : List Backend)
    → ((b : Backend) → (f b).inflight ≡ b.inflight)
    → loads (update_backend name f bs) ≡ loads bs
unfolding update_backend
loads-update_backend name f [] h = refl
loads-update_backend name f (b ∷ bs) h = elim (Bool-cases (str_eq b.name name)) [
  | inl e ↦ rw (if_true _ _ e) (rw (h b) (ap (◌∷◌ b.inflight) (loads-update_backend name f bs h)))
  | inr e ↦ rw (if_false _ _ e) (ap (◌∷◌ b.inflight) (loads-update_backend name f bs h))
]

update_backend-update_backend :
    (name : String) (f g : Backend → Backend) (bs : List Backend)
    → ((b : Backend) → (f b).name ≡ b.name)
    → update_backend name g (update_backend name f bs) ≡ update_backend name (λ b. g (f b)) bs
unfolding update_backend
update_backend-update_backend name f g [] h = refl
update_backend-update_backend name f g (b ∷ bs) h = elim (Bool-cases (str_eq b.name name)) [
  | inl e ↦ rw e (
      rw (ap (λ n. str_eq n name) (h b) ∙ e)
        (ap (◌∷◌ (g (f b))) (update_backend-update_backend name f g bs h)))
  | inr e ↦ rw e (rw e (ap (◌∷◌ b) (update_backend-update_backend name f g bs h)))
]

module _ (w : World) (key : String) (est : ℕ) where
  settle_reply-Kept :
      (k : ℕ) (b : Backend) (p : Payload) (t : Turn) → Kept 0 t (settle_reply w key est k b p t)
  unfolding settle_reply settle
  settle_reply-Kept k b p t = record {
    loads = refl;
    inflight = refl;
    served = omega arith;
    requests = refl;
    failed = refl;
    rate_limited = refl;
    max_attempts = refl;
  }

  note_success-Kept : (k : ℕ) (b : Backend) (t : Turn) → Kept 0 t (note_success w key est k b t)
  unfolding note_success observe_success note_ttft
  note_success-Kept k b t = record {
    loads =
        loads-update_backend b.name (observe_success w.blend (some (w.latency k)))
          t.gateway.backends (λ c. refl);
    inflight = refl;
    served = omega arith;
    requests = refl;
    failed = refl;
    rate_limited = refl;
    max_attempts = refl;
  }

  pub Kept-refl : (t : Turn) → Kept 0 t t
  Kept-refl t = record {
    loads = refl;
    inflight = refl;
    served = omega arith;
    requests = refl;
    failed = refl;
    rate_limited = refl;
    max_attempts = refl;
  }

  read_reply-Kept :
      (k : ℕ) (b : Backend) (r : Reply) (t : Turn) → Kept 0 t (read_reply w key est k b r t).1
  unfolding read_reply
  read_reply-Kept k b lost t = Kept-refl t
  read_reply-Kept k b (unreadable status) t = elim (Bool-cases (is_failure w key est status)) [
    | inl h ↦ rw (if_true _ _ h) (Kept-refl t)
    | inr h ↦ rw (if_false _ _ h) (note_success-Kept k b t)
  ]
  read_reply-Kept k b (answer status p) t = elim (Bool-cases (is_failure w key est status)) [
    | inl h ↦ rw (if_true _ _ h) (Kept-refl t)
    | inr h ↦ rw (if_false _ _ h) (
        Kept-trans (note_success-Kept k b t)
          (settle_reply-Kept k b p (note_success w key est k b t)))
  ]

  forward-Kept : (k : ℕ) (b : Backend) (t : Turn) → Kept 0 t (forward w key est k b t).1
  unfolding forward
  forward-Kept k b t = elim (Bool-cases (w.has_key b)) [
    | inl h ↦ rw (if_true _ _ h) (Kept-trans (in_out b.name t) (read_reply-Kept k b (w.post k b) _))
    | inr h ↦ rw (if_false _ _ h) (Kept-refl t)
  ]
    where
      in_out :
          (name : String) (t : Turn)
          → Kept 0 t (
              on_backend name
                (λ c. record c { inflight = c.inflight - 1 })
                (on_backend name
                  (λ c. record c { inflight = c.inflight + 1; total = c.total + 1 })
                  t))
      in_out name t = record {
        loads =
            ap loads (
              update_backend-update_backend name _ (λ c. record c { inflight = c.inflight - 1 })
                t.gateway.backends (λ c. refl))
            ∙ loads-update_backend name _ t.gateway.backends (λ c. omega arith);
        inflight = refl;
        served = omega arith;
        requests = refl;
        failed = refl;
        rate_limited = refl;
        max_attempts = refl;
      }

  may_attempt-Kept : (k : ℕ) (t : Turn) → Kept 0 t (may_attempt w key est k t).1
  unfolding may_attempt
  may_attempt-Kept zero t = Kept-refl t
  may_attempt-Kept (suc k) t = elim (Bool-cases (try_retry (w.clock (suc k)) t.gateway.budget).0) [
    | inl h ↦ rw (if_true _ _ h) (record {
      loads = refl;
      inflight = refl;
      served = omega arith;
      requests = refl;
      failed = refl;
      rate_limited = refl;
      max_attempts = refl;
    })
    | inr h ↦ rw (if_false _ _ h) (record {
      loads = refl;
      inflight = refl;
      served = omega arith;
      requests = refl;
      failed = refl;
      rate_limited = refl;
      max_attempts = refl;
    })
  ]

  -- How many were served: one if a payload was found.
  abbrev pub won : Outcome → ℕ
  won (got p) = 1
  won backend_error = 0
  won crashed = 0

  Outcome-cases :
      (o : Outcome) → (o ≡ backend_error) ⊎ ((o ≡ crashed) ⊎ ((p : Payload) × (o ≡ got p)))
  Outcome-cases (got p) = inr (inr (p, refl))
  Outcome-cases backend_error = inl refl
  Outcome-cases crashed = inr (inl refl)

  -- What the loop leaves, from the names that were tried before it.
  pub record Tried (left : ℕ) (tried : List String) (t : Turn) (r : Outcome × List String × Turn)
      : Type 0 where
    pub kept : Kept (won (r.0)) t (r.2)
    pub bound : length (r.1) ≤ length tried + left
    pub distinct : IsDistinct tried → IsDistinct (r.1)

  stops :
      (left : ℕ) (tried : List String) (t t' : Turn)
      → Kept 0 t t'
      → Tried left tried t (backend_error, tried, t')
  stops left tried t t' k = record { kept = k; bound = omega arith; distinct = λ d. d }

  -- A candidate was not tried.
  fresh_name :
      (now : ℕ) (tried : List String) (bs : List Backend) (b : Backend) (rest : List Backend)
      → candidates now tried true bs ≡ b ∷ rest
      → is_among b.name tried ≡ false
  unfolding usable
  fresh_name now tried bs b rest e =
      let (h, _) = rw e at (candidates-Offered now tried true bs).fit in
      not_named (is_among b.name tried) (available now b) h
    where
      not_named : (a c : Bool) → (not a && c) ≡ true → a ≡ false
      not_named a c h = ground arith

  counted-Kept : (b : Backend) (t : Turn) → Kept 1 t (on_metrics (count_served w key est b) t)
  unfolding count_served
  counted-Kept b t = record {
    loads = refl;
    inflight = refl;
    served = refl;
    requests = refl;
    failed = refl;
    rate_limited = refl;
    max_attempts = refl;
  }

  error-Kept :
      (b : Backend) (now : ℕ) (t : Turn)
      → Kept 0 t (on_backend b.name (observe_error w.threshold w.open_time now) t)
  unfolding observe_error
  error-Kept b now t = record {
    loads =
        loads-update_backend b.name (observe_error w.threshold w.open_time now) t.gateway.backends
          (λ c. refl);
    inflight = refl;
    served = omega arith;
    requests = refl;
    failed = refl;
    rate_limited = refl;
    max_attempts = refl;
  }

  pub attempts-Tried :
      (left k : ℕ) (tried : List String) (t : Turn)
      → Tried left tried t (attempts w key est left k tried t)
  unfolding attempts
  attempts-Tried zero k tried t = stops zero tried t t (Kept-refl t)
  attempts-Tried (suc left) k tried t =
      let t₁ = (may_attempt w key est k t).1 in
      let k₁ = may_attempt-Kept k t in
      elim (Bool-cases (may_attempt w key est k t).0) [
        | inr h ↦ rw (h, attempts) (stops (suc left) tried t t₁ k₁)
        | inl h ↦
            rw (h, attempts)
              (elim (List-cases (candidates (w.clock k) tried true t₁.gateway.backends)) [
                | inl e ↦ rw (e, attempts) (stops (suc left) tried t t₁ k₁)
                | inr (b, bs, e) ↦
                    rw (e, attempts)
                      (let new = fresh_name (w.clock k) tried t₁.gateway.backends b bs e in
                        let t₂ = (forward w key est k b t₁).1 in
                        let k₂ = Kept-trans k₁ (forward-Kept k b t₁) in
                        elim (Outcome-cases (forward w key est k b t₁).0) [
                          | inl f ↦
                              rw (f, attempts)
                                (more left k tried t b new
                                  (Kept-trans k₂ (error-Kept b (w.clock k) t₂))
                                  (attempts-Tried left (k + 1) (tried ++ b.name ∷ []) _))
                          | inr (inl f) ↦
                              rw (f, attempts)
                                (record {
                                  kept = k₂;
                                  bound = omega (arith, length-append tried (b.name ∷ []));
                                  distinct = append-IsDistinct b.name tried new;
                                })
                          | inr (inr (p, f)) ↦
                              rw (f, attempts)
                                (record {
                                  kept = Kept-trans k₂ (counted-Kept b t₂);
                                  bound = omega (arith, length-append tried (b.name ∷ []));
                                  distinct = append-IsDistinct b.name tried new;
                                })
                        ])
              ])
      ]
    where
      more :
          (left k : ℕ) (tried : List String) (t : Turn) {t' : Turn}
          {r : Outcome × List String × Turn} (b : Backend)
          → is_among b.name tried ≡ false
          → Kept 0 t t'
          → Tried left (tried ++ b.name ∷ []) t' r
          → Tried (suc left) tried t r
      more left k tried t b new kept r = record {
        kept = Kept-trans kept r.kept;
        bound = omega (arith, r.bound, length-append tried (b.name ∷ []));
        distinct = λ d. r.distinct (append-IsDistinct b.name tried new d);
      }
