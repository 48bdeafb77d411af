-- ===== src/Metrics/Areas.antt =====
-- The sweep over the events gives the time that the requests spend in the window.
use llm_inference_stack.Prelude.{
  ℕ, ◌+◌, ◌-◌, ◌*◌, ◌≤◌, ◌<◌, ◌≡◌, refl, ap, ◌∙◌, Bool, true, false, ◌&&◌, some, List, [], ◌∷◌,
  length, inl, inr, Bool-cases, sort_by, All, IsAscending, sort_by-IsAscending, length-sort_by,
  sum_of, sum_of-sort_by, ltb, arith, if◌then◌else◌, if_true, if_false,
}
use llm_inference_stack.Metrics.{RequestRecord, is_set}
use llm_inference_stack.Metrics.Concurrency.{
  Event, event_before, end_of, events_of, clamp, Integral, advance_integral, turn, integrate,
  integrate_concurrency,
}

split_product : (a p c e : ℕ) → p ≤ c → c ≤ e → a * (e - p) ≡ a * (c - p) + a * (e - c)
split_product a p c e h k = ap (λ z. a * z) (opened h k) ∙ opened_product
  where
    opened : p ≤ c → c ≤ e → e - p ≡ (c - p) + (e - c)
    opened h k = omega arith

    opened_product : a * ((c - p) + (e - c)) ≡ a * (c - p) + a * (e - c)
    opened_product = omega arith

-- What an event adds, or takes off, until the end of the window.
abbrev pub gain : ℕ → ℕ → Event → ℕ
gain t_start t_end e = if e.sent then t_end - clamp t_start t_end e.at else 0

abbrev pub loss : ℕ → ℕ → Event → ℕ
loss t_start t_end e = if e.sent then 0 else t_end - clamp t_start t_end e.at

turn_ups :
    (b : Bool) (i : Integral) (n : ℕ)
    → (turn b i).plus + (turn b i).ups * n ≡ i.plus + i.ups * n + (if b then n else 0)
turn_ups true i n = omega arith
turn_ups false i n = omega arith

turn_downs :
    (b : Bool) (i : Integral) (n : ℕ)
    → (turn b i).minus + (turn b i).downs * n ≡ i.minus + i.downs * n + (if b then 0 else n)
turn_downs true i n = omega arith
turn_downs false i n = omega arith

turn_prev : (b : Bool) (i : Integral) → (turn b i).prev ≡ i.prev
turn_prev true i = refl
turn_prev false i = refl

module _ (t_start t_end : ℕ) where
  -- The time of a request in the window.
  abbrev pub time_within : RequestRecord → ℕ
  time_within r =
      if is_set r.t_send
      then clamp t_start t_end (end_of t_end r) - clamp t_start t_end r.t_send
      else 0

  -- A request that was sent does not end before that.
  abbrev pub IsOrdered : RequestRecord → Type 0
  IsOrdered r = is_set r.t_send ≡ true → r.t_send ≤ end_of t_end r

module _ (t_start t_end : ℕ) (l : t_start ≤ t_end) where
  clamp_mono :
      (a : ℕ) (events : List Event)
      → All (λ e. a ≤ e.at) events
      → All (λ e. clamp t_start t_end a ≤ clamp t_start t_end e.at) events
  clamp_mono a [] h = tt
  clamp_mono a (e ∷ events) (p, h) = (omega (arith, p), clamp_mono a events h)

  integrate-sums :
      (events : List Event) (i : Integral)
      → i.prev ≤ t_end
      → All (λ e. i.prev ≤ clamp t_start t_end e.at) events
      → IsAscending (λ e. e.at) events
      → ((integrate t_start t_end events i).plus
          ≡ i.plus + i.ups * (t_end - i.prev) + sum_of (gain t_start t_end) events)
        × ((integrate t_start t_end events i).minus
            ≡ i.minus + i.downs * (t_end - i.prev) + sum_of (loss t_start t_end) events)
  unfolding integrate sum_of
  integrate-sums [] i k h a = (omega arith, omega arith)
  integrate-sums (e ∷ events) i k (p, h) (q, a) =
      let c = clamp t_start t_end e.at in
      let j = advance_integral c i in
      let pr = turn_prev e.sent j in
      let (x, y) =
        integrate-sums events (turn e.sent j) (rw pr (omega arith))
          (rw pr (clamp_mono e.at events q)) a in
      let u : (turn e.sent j).ups * (t_end - (turn e.sent j).prev)
          ≡ (turn e.sent j).ups * (t_end - c) =
        ap (λ z. (turn e.sent j).ups * (t_end - z)) pr in
      let d : (turn e.sent j).downs * (t_end - (turn e.sent j).prev)
          ≡ (turn e.sent j).downs * (t_end - c) =
        ap (λ z. (turn e.sent j).downs * (t_end - z)) pr in
      (
        omega (
          arith,
          x,
          u,
          turn_ups e.sent j (t_end - c),
          split_product i.ups i.prev c t_end p (omega arith),
        ),
        omega (
          arith,
          y,
          d,
          turn_downs e.sent j (t_end - c),
          split_product i.downs i.prev c t_end p (omega arith),
        ),
      )

  within_set :
      (r : RequestRecord)
      → is_set r.t_send ≡ true
      → time_within t_start t_end r
        ≡ clamp t_start t_end (end_of t_end r) - clamp t_start t_end r.t_send
  within_set r e = if_true _ _ e

  within_unset : (r : RequestRecord) → is_set r.t_send ≡ false → time_within t_start t_end r ≡ 0
  within_unset r e = if_false _ _ e

  events_of-sums :
      (records : List RequestRecord)
      → All (IsOrdered t_start t_end) records
      → sum_of (gain t_start t_end) (events_of t_end records)
        ≡ sum_of (loss t_start t_end) (events_of t_end records)
          + sum_of (time_within t_start t_end) records
  unfolding events_of sum_of
  events_of-sums [] h = refl
  events_of-sums (r ∷ records) (p, h) = elim (Bool-cases (is_set r.t_send)) [
    | inl e ↦ rw (if_true _ _ e) (omega (arith, p e, within_set r e, events_of-sums records h))
    | inr e ↦ rw (if_false _ _ e) (omega (arith, within_unset r e, events_of-sums records h))
  ]

before_yes : (x y : Event) → event_before x y ≡ true → x.at ≤ y.at
before_yes x y h = ground arith

before_no : (x y : Event) → event_before x y ≡ false → y.at ≤ x.at
before_no x y h = ground arith

from_start :
    (t_start t_end : ℕ)
    → t_start ≤ t_end
    → (events : List Event) → All (λ e. t_start ≤ clamp t_start t_end e.at) events
from_start t_start t_end l [] = tt
from_start t_start t_end l (e ∷ events) = (omega arith, from_start t_start t_end l events)

both : (n a b : ℕ) → 0 < n → a < b → (ltb 0 n && ltb a b) ≡ true
both n a b h k = ground arith

-- Over a window that is not empty, for records of which one was sent and none ends before it was
-- sent, the sweep over the events gives an area equal to the sum, over the records that were sent,
-- of the time from the send to the end, both moved into the window.
pub integrate_concurrency-sum :
    (records : List RequestRecord) (t_start t_end : ℕ)
    → t_start < t_end
    → 0 < length (events_of t_end records)
    → All (IsOrdered t_start t_end) records
    → (i : Integral) × (integrate_concurrency records t_start t_end ≡ some i)
      × (i.plus ≡ i.minus + sum_of (time_within t_start t_end) records)
unfolding integrate_concurrency
integrate_concurrency-sum records t_start t_end l n h =
    let events = sort_by event_before (events_of t_end records) in
    let start : Integral = record { prev = t_start; ups = 0; downs = 0; plus = 0; minus = 0 } in
    let (x, y) =
      integrate-sums t_start t_end (omega arith) events start (omega arith)
        (from_start t_start t_end (omega arith) events)
        (sort_by-IsAscending (λ e. e.at) event_before before_yes before_no
          (events_of t_end records)) in
    (
      integrate t_start t_end events start,
      if_true _ _ (
          both (length events) t_start t_end
            (omega (
              arith,
              length-sort_by (λ e. e.at) event_before before_yes before_no
                  (events_of t_end records),
            ))
            l),
      omega (
        arith,
        x,
        y,
        sum_of-sort_by (gain t_start t_end) event_before (events_of t_end records),
        sum_of-sort_by (loss t_start t_end) event_before (events_of t_end records),
        events_of-sums t_start t_end (omega arith) records h,
      ),
    )
