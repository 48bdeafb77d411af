-- ===== src/Gateway/Rates.antt =====
-- How much a `TokenBucket` of packages/llmkit/llmkit/gateway.py grants.
use mathlib.Core.Bool.{true≢false}
use llm_inference_stack.Prelude.{
  ℕ, ◌+◌, ◌-◌, ◌*◌, ◌≤◌, ◌≡◌, ◌⊎◌, refl, sym, ap, ◌∙◌, min, true, false, inl, inr, Bool-cases,
  if_true, if_false, leb, leb→le, arith,
}
use llm_inference_stack.Gateway.Limits.{TokenBucket, new_bucket, refill, take_tokens, try_consume}

-- `tokens` is at most the capacity.
abbrev pub IsLevel : TokenBucket → Type 0
IsLevel b = b.balance ≤ b.capacity + b.capacity

-- Calls of `try_consume` under a clock that does not go back, with the sum of what was granted.
pub data Granted (b₀ : TokenBucket) : ℕ → TokenBucket → Type 0 where
  here : Granted b₀ 0 b₀
  grant :
      {total : ℕ} {b : TokenBucket} (now n : ℕ)
      → Granted b₀ total b
      → b.last ≤ now
      → (try_consume now n b).0 ≡ true
      → Granted b₀ (total + n) (try_consume now n b).1
  refuse :
      {total : ℕ} {b : TokenBucket} (now n : ℕ)
      → Granted b₀ total b
      → b.last ≤ now
      → (try_consume now n b).0 ≡ false
      → Granted b₀ total (try_consume now n b).1

-- What a call does to the bucket, with the amount that it took.
pub record Consumed (now took : ℕ) (b b' : TokenBucket) : Type 0 where
  pub capacity : b'.capacity ≡ b.capacity
  pub rate : b'.rate ≡ b.rate
  pub last : b'.last ≡ now
  pub level : IsLevel b'
  pub paid : took + b'.balance ≤ b.balance + (now - b.last) * b.rate
  pub reserve : b.capacity ≤ b.balance → b.capacity ≤ b'.balance

-- The two ends of a call.
try_consume-Consumed :
    (now n : ℕ) (b : TokenBucket)
    → ((b' : TokenBucket) × (try_consume now n b ≡ (true, b')) × Consumed now n b b')
      ⊎ ((b' : TokenBucket) × (try_consume now n b ≡ (false, b')) × Consumed now 0 b b')
unfolding try_consume refill take_tokens
try_consume-Consumed now n b =
    elim (Bool-cases (
      leb (n + b.capacity) (min (b.capacity + b.capacity) (b.balance + (now - b.last) * b.rate)))) [
        | inl h ↦ rw (if_true _ _ h) (
            inl (
              _,
              refl,
              record {
                capacity = refl;
                rate = refl;
                last = refl;
                level = omega arith;
                paid = omega (arith, leb→le _ _ h);
                reserve = λ p. omega (arith, leb→le _ _ h);
              },
            ))
        | inr h ↦ rw (if_false _ _ h) (
            inr (
              _,
              refl,
              record {
                capacity = refl;
                rate = refl;
                last = refl;
                level = omega arith;
                paid = omega arith;
                reserve = λ p. omega arith;
              },
            ))
      ]

distribute : (x y r : ℕ) → (x + y) * r ≡ x * r + y * r
distribute x y r = omega arith

span : (a b c r : ℕ) → a ≤ b → b ≤ c → (c - a) * r ≡ (b - a) * r + (c - b) * r
span a b c r h k = ap (λ d. d * r) (omega arith) ∙ distribute (b - a) (c - b) r

-- What a run has granted, and the bucket after it.
pub record Spent (b₀ : TokenBucket) (total : ℕ) (b : TokenBucket) : Type 0 where
  pub capacity : b.capacity ≡ b₀.capacity
  pub rate : b.rate ≡ b₀.rate
  pub clock : b₀.last ≤ b.last
  pub level : IsLevel b
  pub reserve : b₀.capacity ≤ b.balance
  pub bound : total + b.balance ≤ b₀.balance + (b.last - b₀.last) * b₀.rate

step-Spent :
    {b₀ : TokenBucket} {total : ℕ} {b : TokenBucket} (now took : ℕ) (b' : TokenBucket)
    → Spent b₀ total b
    → b.last ≤ now
    → Consumed now took b b'
    → Spent b₀ (total + took) b'
step-Spent {b₀} {total} {b} now took b' s later c = record {
  capacity = c.capacity ∙ s.capacity;
  rate = c.rate ∙ s.rate;
  clock = omega (arith, s.clock, later, c.last);
  level = c.level;
  reserve = omega (arith, c.reserve (omega (arith, s.reserve, s.capacity)), s.capacity);
  bound =
      let more : (now - b.last) * b.rate ≡ (now - b.last) * b₀.rate =
        ap (λ q. (now - b.last) * q) s.rate in
      let whole : (b'.last - b₀.last) * b₀.rate
          ≡ (b.last - b₀.last) * b₀.rate + (now - b.last) * b₀.rate =
        ap (λ t. (t - b₀.last) * b₀.rate) c.last ∙ span b₀.last b.last now b₀.rate s.clock later in
      omega (arith, s.bound, c.paid, more, whole);
}

Granted-Spent :
    {b₀ : TokenBucket} {total : ℕ} {b : TokenBucket}
    → IsLevel b₀
    → b₀.capacity ≤ b₀.balance
    → Granted b₀ total b
    → Spent b₀ total b
Granted-Spent l f Granted.here = record {
  capacity = refl;
  rate = refl;
  clock = omega arith;
  level = l;
  reserve = f;
  bound = omega arith;
}
Granted-Spent l f (Granted.grant {total} {b} now n g later h) =
    elim (try_consume-Consumed now n b) [
      | inl (b', e, c) ↦ rw (ap (λ r. r.1) e) (step-Spent now n b' (Granted-Spent l f g) later c)
      | inr (b', e, c) ↦ absurd (true≢false (sym h ∙ ap (λ r. r.0) e))
    ]
Granted-Spent l f (Granted.refuse {total} {b} now n g later h) =
    elim (try_consume-Consumed now n b) [
      | inl (b', e, c) ↦ absurd (true≢false (sym (ap (λ r. r.0) e) ∙ h))
      | inr (b', e, c) ↦
          rw (ap (λ r. r.1) e)
            (rw (nothing total) (step-Spent now 0 b' (Granted-Spent l f g) later c))
    ]
  where
    nothing : (n : ℕ) → n ≡ n + 0
    nothing n = omega arith

-- Whatever calls of try_consume are made on a new bucket under a clock that does not go back, the
-- sum of the amounts that were granted is at most the capacity plus the rate times the time since
-- the bucket was made.
pub Granted-le :
    (rate capacity start : ℕ) {total : ℕ} {b : TokenBucket}
    → Granted (new_bucket rate capacity start) total b
    → total ≤ capacity + (b.last - start) * rate
Granted-le rate capacity start g =
    let s = Granted-Spent (omega arith) (omega arith) g in omega (arith, s.bound, s.reserve)
