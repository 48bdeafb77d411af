-- ===== src/Exec.antt =====
-- Methods that change an object and may raise: Python keeps what was written before a raise, so the
-- object comes back beside the error too. Used for the classes of
-- packages/llmkit/llmkit/simulator/paged.py.
use llm_inference_stack.Prelude.{◌≡◌, refl, Option, none, some}

pub data Error : Type 0 where
  out_of_blocks index_error zero_division value_error no_fuel : Error

-- `no_fuel` is the model's own: a loop ran out of its rounds, which the theorems exclude.
pub data Result (A : Type 0) : Type 0 where
  ok : A → Result A
  raise : Error → Result A

abbrev pub Exec : Type 0 → Type 0 → Type 0
Exec S A = S → Result A × S

module _ {S A : Type 0} where
  abbrev pub pure : A → Exec S A
  pure a s = (ok a, s)

  abbrev pub fail : Error → Exec S A
  fail e s = (raise e, s)

  -- A value that may be missing, with the error that its absence raises.
  abbrev pub need : Error → Option A → Exec S A
  need e none s = (raise e, s)
  need e (some a) s = (ok a, s)

abbrev pub modify : {S : Type 0} → (S → S) → Exec S (Unit {0})
modify f s = (ok tt, f s)

abbrev pub gets : {S A : Type 0} → (S → A) → Exec S A
gets f s = (ok (f s), s)

module _ {S A B : Type 0} where
  abbrev pub resume : Result A × S → (A → Exec S B) → Result B × S
  resume (ok a, s) f = f a s
  resume (raise e, s) f = (raise e, s)

  infixl 5 ◌>>=◌
  abbrev pub ◌>>=◌ : Exec S A → (A → Exec S B) → Exec S B
  ◌>>=◌ m f s = resume (m s) f

infixl 5 ◌>>◌
abbrev pub ◌>>◌ : {S B : Type 0} → Exec S (Unit {0}) → Exec S B → Exec S B
◌>>◌ m n = m >>= λ _. n

-- A run that returns meets `P`, one that ends by `OutOfBlocks` meets `E`, and no other error arises.
pub data Ends {S A : Type 0} (P : A → S → Type 0) (E : S → Type 0) : Result A × S → Type 0 where
  returns : (a : A) (s : S) → P a s → Ends P E (ok a, s)
  exhausted : (s : S) → E s → Ends P E (raise out_of_blocks, s)

module _ {S A B : Type 0} {Q : A → S → Type 0} {P : B → S → Type 0} {E F : S → Type 0} where
  pub Ends-resume :
      {r : Result A × S} (f : A → Exec S B)
      → Ends Q F r
      → ((a : A) (s : S) → Q a s → Ends P E (f a s))
      → ((s : S) → F s → E s)
      → Ends P E (resume r f)
  Ends-resume f (returns a s q) k w = k a s q
  Ends-resume f (exhausted s e) k w = exhausted s (w s e)

module _ {S A : Type 0} {P : A → S → Type 0} {E : S → Type 0} {s : S} where
  pub Ends-ok : {a : A} → Ends P E (ok a, s) → P a s
  Ends-ok (returns a s p) = p

  pub Ends-failed : {e : Error} → Ends P E (raise e, s) → (e ≡ out_of_blocks) × E s
  Ends-failed (exhausted s p) = (refl, p)
