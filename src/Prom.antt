-- ===== src/Prom.antt =====
-- `CounterRate` of packages/llmkit/llmkit/prom.py. Values and times are whole numbers, and a rate is a
-- fraction.
pub mod Log
pub mod Tests
use llm_inference_stack.Prelude.{
  ℕ, ◌+◌, ◌-◌, Option, none, some, List, [], ◌∷◌, leb, ltb, if◌then◌else◌,
}

pub record CounterRate : Type 0 where
  pub last : Option (ℕ × ℕ)
  pub rate : ℕ × ℕ
  pub restarts : ℕ

abbrev pub new_counter : CounterRate
new_counter = record { last = none; rate = (0, 1); restarts = 0 }

-- A value later than the last one: a restart if it is lower, and a new rate otherwise.
unfoldable pub take_sample : ℕ → ℕ → ℕ × ℕ → CounterRate → (ℕ × ℕ) × CounterRate
take_sample value t (last_value, last_t) c =
    if ltb value last_value
    then (c.rate, record c { last = some (value, t); restarts = c.restarts + 1 })
    else (
      (value - last_value, t - last_t),
      record c { last = some (value, t); rate = (value - last_value, t - last_t) },
    )

-- `update`: what it returns, and the counter after it.
unfoldable pub update_from : Option (ℕ × ℕ) → ℕ → ℕ → CounterRate → (ℕ × ℕ) × CounterRate
unfolding take_sample
update_from none value t c = ((0, 1), record c { last = some (value, t) })
update_from (some (last_value, last_t)) value t c =
    if leb t last_t then (c.rate, c) else take_sample value t (last_value, last_t) c

unfoldable pub update : ℕ → ℕ → CounterRate → (ℕ × ℕ) × CounterRate
unfolding update_from
update value t c = update_from c.last value t c

-- A run of updates.
unfoldable pub update_all : List (ℕ × ℕ) → CounterRate → CounterRate
unfolding update
update_all [] c = c
update_all ((value, t) ∷ samples) c = update_all samples (update value t c).1
