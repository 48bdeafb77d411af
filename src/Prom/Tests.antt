-- ===== src/Prom/Tests.antt =====
-- A counter that restarts once, with a sample that comes late.
use llm_inference_stack.Prelude.{ℕ, ◌≡◌, refl, some, List, [], ◌∷◌}
use llm_inference_stack.Prom.{new_counter, update_all}
use llm_inference_stack.Prom.Log.{log_all, counter_of, update_all-log_all}

abbrev samples : List (ℕ × ℕ)
samples = (10, 1) ∷ (30, 3) ∷ (25, 2) ∷ (4, 5) ∷ (10, 8) ∷ []

run : update_all samples new_counter ≡ record { last = some (10, 8); rate = (6, 3); restarts = 1 }
unfolding update_all
run = refl

update_all-log_all_example : update_all samples (counter_of []) ≡ counter_of (log_all samples [])
update_all-log_all_example = update_all-log_all samples []
