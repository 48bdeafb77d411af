-- ===== src/Prom/Log.antt =====
-- What a `CounterRate` stands for: the log of all samples that came in order, the newest first.
use llm_inference_stack.Prelude.{
  ℕ, ◌+◌, ◌-◌, ◌≡◌, refl, sym, ap, ◌∙◌, Option, none, some, List, [], ◌∷◌, leb, ltb, inl, inr,
  Bool-cases, if_true, if_false, arith, if◌then◌else◌,
}
use llm_inference_stack.Prom.{CounterRate, take_sample, update, update_all}

-- The specification: a sample that is not later than the newest is not logged.
unfoldable pub log_sample : ℕ × ℕ → List (ℕ × ℕ) → List (ℕ × ℕ)
log_sample (value, t) [] = (value, t) ∷ []
log_sample (value, t) ((u, s) ∷ log) = if leb t s then (u, s) ∷ log else (value, t) ∷ (u, s) ∷ log

unfoldable pub log_all : List (ℕ × ℕ) → List (ℕ × ℕ) → List (ℕ × ℕ)
unfolding log_sample
log_all [] log = log
log_all (sample ∷ samples) log = log_all samples (log_sample sample log)

-- How often a value of the log is lower than the one before it.
unfoldable pub descents : List (ℕ × ℕ) → ℕ
descents [] = 0
descents ((value, t) ∷ []) = 0
descents ((value, t) ∷ (u, s) ∷ log) = (if ltb value u then 1 else 0) + descents ((u, s) ∷ log)

-- The slope of the newest step that does not go down.
unfoldable pub last_slope : List (ℕ × ℕ) → ℕ × ℕ
last_slope [] = (0, 1)
last_slope ((value, t) ∷ []) = (0, 1)
last_slope ((value, t) ∷ (u, s) ∷ log) =
    if ltb value u then last_slope ((u, s) ∷ log) else (value - u, t - s)

unfoldable pub newest : List (ℕ × ℕ) → Option (ℕ × ℕ)
newest [] = none
newest (sample ∷ log) = some sample

-- The counter that a log stands for.
unfoldable pub counter_of : List (ℕ × ℕ) → CounterRate
unfolding newest last_slope descents
counter_of log = record { last = newest log; rate = last_slope log; restarts = descents log }

with_restarts :
    (value t : ℕ) (rate : ℕ × ℕ) (n m : ℕ)
    → n ≡ m
    → ◌≡◌ {A = CounterRate}
        (record { last = some (value, t); rate = rate; restarts = n })
        (record { last = some (value, t); rate = rate; restarts = m })
with_restarts value t rate n m e =
    ap (λ k. record { last = some (value, t); rate = rate; restarts = k }) e

take_sample-log :
    (value t u s : ℕ) (log : List (ℕ × ℕ))
    → (take_sample value t (u, s) (counter_of ((u, s) ∷ log))).1
      ≡ counter_of ((value, t) ∷ (u, s) ∷ log)
unfolding take_sample counter_of
take_sample-log value t u s log = elim (Bool-cases (ltb value u)) [
  | inl k ↦ rw k (with_restarts value t (last_slope ((u, s) ∷ log)) _ _ (omega arith))
  | inr k ↦ rw k (with_restarts value t (value - u, t - s) _ _ (omega arith))
]

update-log_sample :
    (value t : ℕ) (log : List (ℕ × ℕ))
    → (update value t (counter_of log)).1 ≡ counter_of (log_sample (value, t) log)
unfolding update counter_of log_sample
update-log_sample value t [] = refl
update-log_sample value t ((u, s) ∷ log) = elim (Bool-cases (leb t s)) [
  | inl h ↦
      ap (λ (q : (ℕ × ℕ) × CounterRate). q.1) (if_true _ _ h) ∙ ap counter_of (sym (if_true _ _ h))
  | inr h ↦
      ap (λ (q : (ℕ × ℕ) × CounterRate). q.1) (if_false _ _ h)
      ∙ take_sample-log value t u s log
      ∙ ap counter_of (sym (if_false _ _ h))
]

-- A CounterRate refines the log of its samples: after any run of updates, from the counter that any
-- log stands for, the counter is the one that the log stands for when each sample that is later
-- than the newest is put in front of it, where the last sample is the newest of the log, the
-- restarts are the steps of the log that go down, and the rate is the slope of the newest step that
-- does not.
pub update_all-log_all :
    (samples log : List (ℕ × ℕ))
    → update_all samples (counter_of log) ≡ counter_of (log_all samples log)
unfolding update_all log_all
update_all-log_all [] log = refl
update_all-log_all ((value, t) ∷ samples) log =
    ap (update_all samples) (update-log_sample value t log)
    ∙ update_all-log_all samples (log_sample (value, t) log)
