-- ===== src/Engine/Grow.antt =====
-- `_grow_or_preempt` of packages/llmkit/llmkit/simulator/engine.py: one more token of cache for each
-- decoding sequence, preempting others where the blocks run out. The inner loop takes as fuel one
-- more than the number of running sequences: each round but the last preempts one of them.
use llm_inference_stack.Prelude.{
  ℕ, zero, suc, ◌+◌, Bool, true, false, Option, none, some, List, [], ◌∷◌, ◌++◌, length, ◌==◌,
  if◌then◌else◌,
}
use llm_inference_stack.Exec.{ok, raise, Exec, pure, gets, no_fuel, ◌>>=◌, ◌>>◌}
use llm_inference_stack.Paged.Prompt.{append_token}
use llm_inference_stack.Engine.{
  total_len, EngineConfig, World, Engine, seq, put_seq, on_kv, caught, list_remove,
}
use llm_inference_stack.Engine.Schedule.{preempt}

-- `for cand in reversed(self.running): if cand is not s`: the last other one.
unfoldable pub last_other : ℕ → List ℕ → Option ℕ
last_other i [] = none
last_other i (x ∷ xs) = elim (last_other i xs) [
  | some j ↦ some j
  | none ↦ if x == i then none else some x
]

-- `if victim in survivors: survivors.remove(victim)`
unfoldable pub drop_survivor : ℕ → List ℕ → List ℕ
unfolding list_remove
drop_survivor i survivors = elim (list_remove i survivors) [ none ↦ survivors | some rest ↦ rest ]

-- What the outer loop carries.
pub record Growth : Type 0 where
  pub survivors : List ℕ
  pub extra : ℕ

-- The `append_token` of the `try`; its table is changed in place.
unfoldable pub extend : ℕ → Exec Engine Bool
extend i = do
  s ← seq i
  (added, table) ← on_kv (append_token s.block_table (total_len s))
  put_seq i (record s { block_table = table })
  pure true

module _ (w : World) (cfg : EngineConfig) where
  -- `while not placed`: whether `i` got its token, and the loop's variables.
  unfoldable pub place : ℕ → ℕ → Growth → Exec Engine (Bool × Growth)
  unfolding extend last_other drop_survivor
  place zero i g e = (raise no_fuel, e)
  place (suc fuel) i g e = caught ((extend i >>= λ _. pure (true, g)) e) (
      gets (λ e. last_other i e.running) >>= λ victim. elim victim [
        | none ↦ (preempt w cfg i >>= λ cost. pure (false, record g { extra = g.extra + cost }))
        | some v ↦
            (preempt w cfg v >>= λ cost.
            place fuel i
              (record { survivors = drop_survivor v g.survivors; extra = g.extra + cost }))
      ])

  -- `for s in decodes`
  unfoldable pub grow_each : List ℕ → Growth → Exec Engine Growth
  unfolding place
  grow_each [] g e = (ok g, e)
  grow_each (i ∷ decodes) g e =
      (place (suc (length e.running)) i g >>= λ (placed, g').
      grow_each decodes (if placed then record g' { survivors = g'.survivors ++ i ∷ [] } else g'))
        e

  unfoldable pub grow_or_preempt : List ℕ → Exec Engine Growth
  unfolding grow_each
  grow_or_preempt decodes = grow_each decodes (record { survivors = []; extra = 0 })
