-- ===== src/Engine/Arrivals.antt =====
-- `submit`, `_admit_arrivals` and `synth_token_ids` of packages/llmkit/llmkit/simulator/engine.py.
-- The heap of `heapq` is kept as the list that its pops give: in order of arrival, then of number.
use llm_inference_stack.Prelude.{
  ℕ, zero, suc, ◌+◌, ◌-◌, ◌*◌, ◌%◌, min, String, Bool, true, false, not, ◌&&◌, ◌||◌, Option, none,
  some, List, [], ◌∷◌, ◌++◌, length, take, ◌==◌, leb, ltb, if◌then◌else◌, str_eq,
}
use llm_inference_stack.Exec.{Exec, pure, modify, ◌>>=◌}
use llm_inference_stack.Engine.{SimRequest, new_sequence, World, Engine}

-- `x or y` on optional texts, of which the empty one is false.
unfoldable pub text_or : Option String → Option String → Option String
text_or none b = b
text_or (some a) b = if str_eq a "" then b else some a

unfoldable pub is_text : Option String → Bool
is_text none = false
is_text (some a) = if str_eq a "" then false else true

-- `base + i for i in range(first, first + n)`
unfoldable pub ids_from : ℕ → ℕ → ℕ → List ℕ
ids_from base first zero = []
ids_from base first (suc n) = (base + first) ∷ ids_from base (first + 1) n

module _ (w : World) where
  unfoldable pub key_base : String → Option String → ℕ
  key_base kind none = 0
  key_base kind (some key) = w.text_hash kind key % 1_000_000 * 1000

  unfoldable pub synth_token_ids : SimRequest → List ℕ
  unfolding text_or is_text ids_from key_base
  synth_token_ids r =
      let shared_key = text_or r.prefix_group r.session_id in
      let n_shared = if is_text shared_key then min r.shared_prefix_tokens r.prompt_tokens else 0 in
      let ids = ids_from (key_base "prefix" shared_key) 0 n_shared in
      if is_text r.session_id && not (is_text r.prefix_group)
      then take r.prompt_tokens (
          ids
          ++ ids_from (key_base "sess" r.session_id + 500_000_000) n_shared
              (r.prompt_tokens - n_shared))
      else take r.prompt_tokens (
          ids
          ++ ids_from (key_base "uniq" (some r.request_id) + 900_000_000) 0
              (r.prompt_tokens - length ids))

  -- `heapq.heappush` of `(arrival, number, request)`.
  unfoldable pub push : ℕ × ℕ × SimRequest → List (ℕ × ℕ × SimRequest) → List (ℕ × ℕ × SimRequest)
  push x [] = x ∷ []
  push x (y ∷ heap) =
      if ltb (x.0) (y.0) || ((x.0 == y.0) && ltb (x.1) (y.1)) then x ∷ y ∷ heap else y ∷ push x heap

  unfoldable pub submit : List SimRequest → Exec Engine (Unit {0})
  unfolding push
  submit [] = pure tt
  submit (r ∷ reqs) =
      modify (λ e. record e {
        seq_counter = e.seq_counter + 1;
        pending = push (r.arrival, e.seq_counter + 1, r) e.pending;
      })
      >>= λ _. submit reqs

  -- `if not r.token_ids: r.token_ids = synth_token_ids(r)`
  unfoldable pub with_tokens : SimRequest → SimRequest
  unfolding synth_token_ids
  with_tokens r = elim r.token_ids [ [] ↦ record r { token_ids = synth_token_ids r } | _ ∷ _ ↦ r ]

  -- The body of the loop: a new sequence at the end of the store and of the queue.
  unfoldable pub admit_one : SimRequest → List (ℕ × ℕ × SimRequest) → Engine → Engine
  unfolding with_tokens
  admit_one r rest e = record e {
    pending = rest;
    seqs = e.seqs ++ new_sequence (with_tokens r) ∷ [];
    waiting = e.waiting ++ length e.seqs ∷ [];
  }

  -- `while self._pending and self._pending[0][0] <= self.now_ms + 1e-9`, over the heap.
  unfoldable pub admit_while : List (ℕ × ℕ × SimRequest) → Engine → Engine
  unfolding admit_one
  admit_while [] e = e
  admit_while ((arrival, number, r) ∷ rest) e =
      let more = admit_while rest (admit_one r rest e) in
      if leb arrival (e.now + w.slack) then more else e

  unfoldable pub admit_arrivals : Engine → Engine
  unfolding admit_while
  admit_arrivals e = admit_while e.pending e
