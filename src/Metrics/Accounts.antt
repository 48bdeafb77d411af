-- ===== src/Metrics/Accounts.antt =====
-- Every record is accounted for in a summary.
use llm_inference_stack.Prelude.{
  ℕ, ◌+◌, ◌-◌, ◌≤◌, ◌≡◌, refl, sym, ◌∙◌, max, min, Bool, true, false, not, ◌&&◌, some, List, [],
  ◌∷◌, length, drop, length-drop, inl, inr, Bool-cases, if_true, if_false, sort_by, length-sort_by,
  tally, ltb, leb, arith, if◌then◌else◌,
}
use mathlib.Core.Path.{subst}
use mathlib.Core.Option.{some-injective}
use llm_inference_stack.Metrics.{RequestRecord, is_ok}
use llm_inference_stack.Metrics.Summary.{
  Slo, RunSummary, met_by, sent_before, from_cutoff, after_warmup, is_bad, summarize_retained,
  summarize,
}

tally-is_bad :
    (records : List RequestRecord) → tally is_ok records + tally is_bad records ≡ length records
unfolding tally
tally-is_bad [] = refl
tally-is_bad (r ∷ records) = omega (arith, tally-is_bad records, one_of (is_ok r))
  where
    one_of : (b : Bool) → ◌≡◌ {A = ℕ} ((if b then 1 else 0) + (if not b then 1 else 0)) 1
    one_of true = refl
    one_of false = refl

tally_le :
    (p q : RequestRecord → Bool) (records : List RequestRecord)
    → tally (λ r. p r && q r) records ≤ tally p records
unfolding tally
tally_le p q [] = omega arith
tally_le p q (r ∷ records) = omega (arith, tally_le p q records, fewer (p r) (q r))
  where
    fewer : (a b : Bool) → ◌≤◌ (if a && b then 1 else 0) (if a then 1 else 0)
    fewer true true = omega arith
    fewer true false = omega arith
    fewer false b = omega arith

length-from_cutoff :
    (cutoff : ℕ) (records : List RequestRecord)
    → length (from_cutoff cutoff records) ≤ length records
unfolding from_cutoff
length-from_cutoff cutoff [] = omega arith
length-from_cutoff cutoff (r ∷ records) = elim (Bool-cases (leb cutoff r.t_send)) [
  | inl h ↦ rw (if_true _ _ h) (omega (arith, length-from_cutoff cutoff records))
  | inr h ↦ rw (if_false _ _ h) (omega (arith, length-from_cutoff cutoff records))
]

length-after_warmup :
    (warmup : ℕ) (records : List RequestRecord)
    → length (after_warmup warmup records) ≤ length records
unfolding after_warmup
length-after_warmup warmup [] = omega arith
length-after_warmup warmup (r ∷ records) = elim (Bool-cases (ltb 0 warmup)) [
  | inl h ↦ rw (if_true _ _ h) (length-from_cutoff (r.t_send + warmup) (r ∷ records))
  | inr h ↦ rw (if_false _ _ h) (omega arith)
]

-- How the counts of a summary add up.
pub record IsAccounted (n : ℕ) (s : RunSummary) : Type 0 where
  pub total : s.n_total ≡ n
  pub parts : s.n_excluded_warmup + s.n_ok + s.n_error ≡ n
  pub good : (r : ℕ × ℕ) → s.goodput_ratio ≡ some r → (r.0 ≤ s.n_ok) × (r.1 ≡ s.n_ok + s.n_error)

summarize_retained-IsAccounted :
    (ceil_product : ℕ → ℕ → ℕ) (slo : Slo) (concurrency n excluded : ℕ)
    (retained : List RequestRecord)
    → excluded + length retained ≡ n
    → IsAccounted n (summarize_retained ceil_product slo concurrency n excluded retained)
unfolding summarize_retained
summarize_retained-IsAccounted ceil_product slo concurrency n excluded [] h = record {
  total = refl;
  parts = omega arith;
  good = λ y e. cc;
}
summarize_retained-IsAccounted ceil_product slo concurrency n excluded (r ∷ records) h = record {
  total = refl;
  parts = omega (arith, tally-is_bad (r ∷ records));
  good = λ y e.
      subst
        (λ z.
          (z.0 ≤ tally is_ok (r ∷ records))
          × (z.1 ≡ tally is_ok (r ∷ records) + tally is_bad (r ∷ records)))
        (some-injective _ y e)
        (tally_le is_ok (met_by ceil_product slo) (r ∷ records), sym (tally-is_bad (r ∷ records)));
}

sent_yes : (x y : RequestRecord) → sent_before x y ≡ true → max 1 x.t_send ≤ max 1 y.t_send
sent_yes x y h = ground arith

sent_no : (x y : RequestRecord) → sent_before x y ≡ false → max 1 y.t_send ≤ max 1 x.t_send
sent_no x y h = ground arith

-- For any records, service level and warmup, the total of a summary is the number of records, and
-- the records that the warmup excludes, the good ones and the failed ones add up to it; a ratio of
-- goodput is of no more than the good ones out of the good and the failed ones.
pub summarize-IsAccounted :
    (ceil_product : ℕ → ℕ → ℕ) (slo : Slo) (concurrency warmup_requests warmup : ℕ)
    (records : List RequestRecord)
    → IsAccounted
        (length records)
        (summarize ceil_product slo concurrency warmup_requests warmup records)
unfolding summarize
summarize-IsAccounted ceil_product slo concurrency warmup_requests warmup records =
    let ordered = sort_by sent_before records in
    let n = length-sort_by (λ r. max 1 r.t_send) sent_before sent_yes sent_no records in
    let rest = drop warmup_requests ordered in
    let a =
      summarize_retained-IsAccounted ceil_product slo concurrency (length ordered)
        (min warmup_requests (length ordered) + (length rest - length (after_warmup warmup rest)))
        (after_warmup warmup rest)
        (omega (arith, length-drop warmup_requests ordered, length-after_warmup warmup rest)) in
    record { total = a.total ∙ n; parts = a.parts ∙ n; good = a.good }
