-- ===== src/Metrics/Concurrency.antt =====
-- `_integrate_concurrency` of packages/llmkit/llmkit/metrics.py. Its integers `cur` and `area` may be
-- negative; here each is the difference of two numbers, what the sends give and what the ends give.
use llm_inference_stack.Prelude.{
  ℕ, ◌+◌, ◌-◌, ◌*◌, max, min, Bool, true, false, not, ◌&&◌, ◌||◌, Option, none, some, List, [], ◌∷◌,
  length, ltb, ◌==◌, if◌then◌else◌, sort_by, sort_from,
}
use llm_inference_stack.Metrics.{RequestRecord, is_set}

-- A time, and whether a request is sent then, or ends.
pub record Event : Type 0 where
  pub at : ℕ
  pub sent : Bool

-- The order of `(t, delta)`: of two events at one time an end comes first.
abbrev pub event_before : Event → Event → Bool
event_before a b = ltb a.at b.at || ((a.at == b.at) && (not a.sent && b.sent))

abbrev pub end_of : ℕ → RequestRecord → ℕ
end_of t_end r = if is_set r.t_done then r.t_done else t_end

unfoldable pub events_of : ℕ → List RequestRecord → List Event
events_of t_end [] = []
events_of t_end (r ∷ records) =
    let rest = events_of t_end records in
    if is_set r.t_send
    then record { at = r.t_send; sent = true } ∷ record { at = end_of t_end r; sent = false } ∷ rest
    else rest

abbrev pub clamp : ℕ → ℕ → ℕ → ℕ
clamp t_start t_end t = min (max t t_start) t_end

-- `cur` is `ups - downs`, `area` is `plus - minus`.
pub record Integral : Type 0 where
  pub prev : ℕ
  pub ups : ℕ
  pub downs : ℕ
  pub plus : ℕ
  pub minus : ℕ

abbrev pub advance_integral : ℕ → Integral → Integral
advance_integral t i = record i {
  prev = t;
  plus = i.plus + i.ups * (t - i.prev);
  minus = i.minus + i.downs * (t - i.prev);
}

abbrev pub turn : Bool → Integral → Integral
turn true i = record i { ups = i.ups + 1 }
turn false i = record i { downs = i.downs + 1 }

unfoldable pub integrate : ℕ → ℕ → List Event → Integral → Integral
integrate t_start t_end [] i = advance_integral t_end i
integrate t_start t_end (e ∷ events) i =
    integrate t_start t_end events (turn e.sent (advance_integral (clamp t_start t_end e.at) i))

-- The area, as what is added and what is taken off; `none` is NaN.
unfoldable pub integrate_concurrency : List RequestRecord → ℕ → ℕ → Option Integral
unfolding events_of integrate sort_from
integrate_concurrency records t_start t_end =
    let events = sort_by event_before (events_of t_end records) in
    if ltb 0 (length events) && ltb t_start t_end
    then some (
        integrate t_start t_end events
          (record { prev = t_start; ups = 0; downs = 0; plus = 0; minus = 0 }))
    else none
