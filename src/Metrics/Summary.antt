-- ===== src/Metrics/Summary.antt =====
-- The counts of `summarize` in packages/llmkit/llmkit/metrics.py, with `SLO.met_by` of types.py, and
-- `find_knee`. Times are in nanoseconds; a second is 10^9 of them. `ceil_product` is the rank of
-- `percentile`.
use llm_inference_stack.Prelude.{
  ℕ, ◌+◌, ◌-◌, ◌*◌, max, min, Bool, true, false, not, ◌&&◌, Option, none, some, List, [], ◌∷◌,
  length, drop, ltb, leb, if◌then◌else◌, sort_by, sort_from, tally, sum_of,
}
use llm_inference_stack.Metrics.{
  RequestRecord, is_set, is_ok, ttft, e2e, content_events, gaps_of, itls,
}
use llm_inference_stack.Metrics.Percentile.{percentile}
use llm_inference_stack.Metrics.Concurrency.{Integral, integrate_concurrency}

pub record Slo : Type 0 where
  pub ttft : ℕ
  pub p_itl : ℕ
  pub itl_percentile : ℕ
  pub e2e : Option ℕ

-- Of fractions.
abbrev pub is_smaller : ℕ × ℕ → ℕ × ℕ → Bool
is_smaller (a, b) (c, d) = ltb (a * d) (c * b)

-- `not (isnan(v) or v > limit)`
abbrev pub is_within : ℕ → Option ℕ → Bool
is_within limit none = false
is_within limit (some v) = leb v limit

abbrev pub itl_within : ℕ → Option (ℕ × ℕ) → Bool
itl_within limit none = true
itl_within limit (some (a, b)) = leb a (limit * b)

abbrev pub e2e_within : Option ℕ → RequestRecord → Bool
e2e_within none r = true
e2e_within (some limit) r = is_within limit (e2e r)

unfoldable pub met_by : (ℕ → ℕ → ℕ) → Slo → RequestRecord → Bool
unfolding percentile content_events gaps_of
met_by ceil_product slo r =
    is_ok r
    && is_within slo.ttft (ttft r)
    && itl_within slo.p_itl (percentile ceil_product is_smaller (itls r) slo.itl_percentile)
    && e2e_within slo.e2e r

pub record RunSummary : Type 0 where
  pub concurrency : ℕ
  pub n_total : ℕ
  pub n_ok : ℕ
  pub n_error : ℕ
  pub n_excluded_warmup : ℕ
  pub window : ℕ
  pub prompt_tokens : ℕ
  pub output_tokens : ℕ
  pub cached_prompt_tokens : ℕ
  pub goodput_ratio : Option (ℕ × ℕ)
  pub achieved_concurrency : Option (Integral × ℕ)

abbrev pub sent_before : RequestRecord → RequestRecord → Bool
sent_before a b = ltb (max 1 a.t_send) (max 1 b.t_send)

-- Those that were sent at the cutoff or later.
unfoldable pub from_cutoff : ℕ → List RequestRecord → List RequestRecord
from_cutoff cutoff [] = []
from_cutoff cutoff (r ∷ records) =
    if leb cutoff r.t_send then r ∷ from_cutoff cutoff records else from_cutoff cutoff records

-- The warmup in time starts at the first record that is left.
unfoldable pub after_warmup : ℕ → List RequestRecord → List RequestRecord
unfolding from_cutoff
after_warmup warmup [] = []
after_warmup warmup (r ∷ records) =
    if ltb 0 warmup then from_cutoff (r.t_send + warmup) (r ∷ records) else r ∷ records

abbrev pub is_bad : RequestRecord → Bool
is_bad r = not (is_ok r)

unfoldable pub first_send : ℕ → List RequestRecord → ℕ
first_send t [] = t
first_send t (r ∷ records) = first_send (min t r.t_send) records

unfoldable pub last_done : List RequestRecord → ℕ
last_done [] = 0
last_done (r ∷ records) = max r.t_done (last_done records)

-- `default=t_start` if no request is done.
abbrev pub end_of_window : ℕ → List RequestRecord → ℕ
end_of_window t_start records = if is_set (last_done records) then last_done records else t_start

abbrev pub ok_tokens : (RequestRecord → ℕ) → RequestRecord → ℕ
ok_tokens f r = if is_ok r then f r else 0

abbrev pub per_span : ℕ → Option Integral → Option (Integral × ℕ)
per_span span none = none
per_span span (some i) = some (i, span)

unfoldable pub summarize_retained : (ℕ → ℕ → ℕ) → Slo → ℕ → ℕ → ℕ → List RequestRecord → RunSummary
unfolding tally sum_of first_send last_done met_by integrate_concurrency
summarize_retained ceil_product slo concurrency n_total excluded [] = record {
  concurrency = concurrency;
  n_total = n_total;
  n_ok = 0;
  n_error = 0;
  n_excluded_warmup = excluded;
  window = 0;
  prompt_tokens = 0;
  output_tokens = 0;
  cached_prompt_tokens = 0;
  goodput_ratio = none;
  achieved_concurrency = none;
}
summarize_retained ceil_product slo concurrency n_total excluded (r ∷ records) =
    let retained = r ∷ records in
    let t_start = first_send r.t_send records in
    let t_end = end_of_window t_start retained in
    record {
      concurrency = concurrency;
      n_total = n_total;
      n_ok = tally is_ok retained;
      n_error = tally is_bad retained;
      n_excluded_warmup = excluded;
      window = max (t_end - t_start) 1;
      prompt_tokens = sum_of (ok_tokens (λ r. r.prompt_tokens)) retained;
      output_tokens = sum_of (ok_tokens (λ r. r.output_tokens)) retained;
      cached_prompt_tokens = sum_of (ok_tokens (λ r. r.cached_prompt_tokens)) retained;
      goodput_ratio =
          some (tally (λ r. is_ok r && met_by ceil_product slo r) retained, length retained);
      achieved_concurrency =
          per_span (t_end - t_start) (integrate_concurrency retained t_start t_end);
    }

-- The records are sorted, then the warmup is taken off by number and by time.
unfoldable pub summarize : (ℕ → ℕ → ℕ) → Slo → ℕ → ℕ → ℕ → List RequestRecord → RunSummary
unfolding after_warmup summarize_retained sort_from
summarize ceil_product slo concurrency warmup_requests warmup records =
    let ordered = sort_by sent_before records in
    let rest = drop warmup_requests ordered in
    let retained = after_warmup warmup rest in
    summarize_retained ceil_product slo concurrency (length ordered)
      (min warmup_requests (length ordered) + (length rest - length retained)) retained

-- `goodput_ratio >= 0.95`
abbrev pub is_passing : RunSummary → Bool
is_passing s = elim s.goodput_ratio [ none ↦ false | some r ↦ leb (95 * r.1) (100 * r.0) ]

abbrev pub lower_concurrency : RunSummary → RunSummary → Bool
lower_concurrency a b = ltb a.concurrency b.concurrency

-- The last of those that pass.
unfoldable pub last_passing : Option RunSummary → List RunSummary → Option RunSummary
last_passing best [] = best
last_passing best (s ∷ summaries) = last_passing (if is_passing s then some s else best) summaries

unfoldable pub find_knee : List RunSummary → Option RunSummary
unfolding last_passing sort_from
find_knee summaries = last_passing none (sort_by lower_concurrency summaries)
