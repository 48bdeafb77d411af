-- ===== src/Metrics/Tests.antt =====
-- Records of a small run, and the theorems at concrete inputs.
use llm_inference_stack.Prelude.{
  ℕ, ◌+◌, ◌*◌, ◌/◌, ◌≡◌, refl, none, some, List, [], ◌∷◌, ltb, arith, sum_of, insert_by,
}
use llm_inference_stack.Metrics.{FinishReason, RequestRecord, gaps}
use llm_inference_stack.Metrics.Percentile.{percentile}
use llm_inference_stack.Metrics.Concurrency.{Integral, events_of, integrate_concurrency}
use llm_inference_stack.Metrics.Summary.{Slo, RunSummary, summarize, find_knee}
use llm_inference_stack.Metrics.Ranked.{IsPercentile, percentile-IsPercentile}
use llm_inference_stack.Metrics.Areas.{time_within, integrate_concurrency-sum}
use llm_inference_stack.Metrics.Accounts.{IsAccounted, summarize-IsAccounted}
use llm_inference_stack.Metrics.Knee.{Knee, find_knee-Knee}

abbrev sample : List ℕ
sample = 30 ∷ 10 ∷ 20 ∷ 40 ∷ 20 ∷ []

-- The rank in exact arithmetic.
abbrev exact : ℕ → ℕ → ℕ
exact p n = (p * n + 99) / 100

median : percentile exact ltb sample 50 ≡ some 20
unfolding percentile insert_by
median = refl

percentile-IsPercentile_example :
    (v : ℕ) × (percentile exact ltb sample 90 ≡ some v) × IsPercentile sample 90 v
percentile-IsPercentile_example =
    percentile-IsPercentile exact sample 90 (omega arith) (omega arith)
      (record { enough = omega arith; near = omega arith; in_range = omega arith })

abbrev request : ℕ → ℕ → ℕ → RequestRecord
request t_send t_first t_done = record {
  request_id = "r";
  t_submit = t_send;
  t_send = t_send;
  t_first_token = t_first;
  t_last_token = t_done;
  t_done = t_done;
  prompt_tokens = 5;
  output_tokens = 3;
  cached_prompt_tokens = 1;
  finish_reason = FinishReason.stop;
  failure = none;
  token_events =
      record { at = t_first; content_tokens = 1 } ∷ record { at = t_done; content_tokens = 2 } ∷ [];
}

-- Two that overlap, one that ends with the window, and one that was never sent.
abbrev records : List RequestRecord
records = request 20 25 40 ∷ request 10 12 30 ∷ request 35 36 0 ∷ request 0 0 0 ∷ []

integrate_concurrency-sum_example :
    (i : Integral) × (integrate_concurrency records 10 50 ≡ some i)
    × (i.plus ≡ i.minus + sum_of (time_within 10 50) records)
unfolding events_of
integrate_concurrency-sum_example =
    integrate_concurrency-sum records 10 50 (omega arith) (omega arith)
      ((λ h. omega arith), ((λ h. omega arith), ((λ h. omega arith), ((λ h. omega arith), tt))))

abbrev slo : Slo
slo = record { ttft = 10; p_itl = 20; itl_percentile = 95; e2e = none }

abbrev counts_of : RunSummary → ℕ × ℕ × ℕ × ℕ
counts_of s = (s.n_total, s.n_excluded_warmup, s.n_ok, s.n_error)

-- One record is taken off as warmup; of the others one was not sent.
counts : counts_of (summarize exact slo 2 1 0 records) ≡ (4, 1, 3, 0)
unfolding summarize insert_by gaps
counts = refl

summarize-IsAccounted_example : IsAccounted 4 (summarize exact slo 2 1 5 records)
summarize-IsAccounted_example = summarize-IsAccounted exact slo 2 1 5 records

abbrev runs : List RunSummary
runs = summarize exact slo 4 1 0 records ∷ summarize exact slo 2 1 0 records ∷ []

find_knee-Knee_example : Knee runs (find_knee runs)
find_knee-Knee_example = find_knee-Knee runs
