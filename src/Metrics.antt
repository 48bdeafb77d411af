-- ===== src/Metrics.antt =====
-- The records of packages/llmkit/llmkit/types.py. A time stamp is a number one above the source's, so
-- that 0 is UNSET; all that the code does with stamps is to compare them and take differences.
pub mod Percentile
pub mod Concurrency
pub mod Summary
pub mod Ranked
pub mod Areas
pub mod Accounts
pub mod Knee
pub mod Tests
use llm_inference_stack.Prelude.{
  ℕ, zero, suc, ◌+◌, ◌-◌, ◌*◌, max, String, Bool, true, false, ◌&&◌, Option, none, some, List, [],
  ◌∷◌, ◌++◌, replicate, ltb, leb, if◌then◌else◌,
}

pub data FinishReason : Type 0 where
  stop length_reached error timeout cancelled preempted_drop : FinishReason

pub record TokenEvent : Type 0 where
  pub at : ℕ
  pub content_tokens : ℕ

pub record RequestRecord : Type 0 where
  pub request_id : String
  pub t_submit : ℕ
  pub t_send : ℕ
  pub t_first_token : ℕ
  pub t_last_token : ℕ
  pub t_done : ℕ
  pub prompt_tokens : ℕ
  pub output_tokens : ℕ
  pub cached_prompt_tokens : ℕ
  pub finish_reason : FinishReason
  pub failure : Option String
  pub token_events : List TokenEvent

abbrev pub is_set : ℕ → Bool
is_set stamp = ltb 0 stamp

abbrev pub is_finished : FinishReason → Bool
is_finished FinishReason.stop = true
is_finished FinishReason.length_reached = true
is_finished _ = false

abbrev pub is_ok : RequestRecord → Bool
is_ok r = elim r.failure [ none ↦ is_finished r.finish_reason | some _ ↦ false ]

-- The time from the send, in nanoseconds; `none` is NaN. A time before the send counts as 0, which no
-- limit tells apart.
abbrev pub since_send : RequestRecord → ℕ → Option ℕ
since_send r stamp = if is_set stamp && is_set r.t_send then some (stamp - r.t_send) else none

abbrev pub ttft : RequestRecord → Option ℕ
ttft r = since_send r r.t_first_token

abbrev pub e2e : RequestRecord → Option ℕ
e2e r = since_send r r.t_done

unfoldable pub content_events : List TokenEvent → List TokenEvent
content_events [] = []
content_events (e ∷ events) =
    if ltb 0 e.content_tokens then e ∷ content_events events else content_events events

-- Each gap as many times as its chunk has tokens, divided by them: a pair is a fraction.
-- The clock of the events does not go back.
unfoldable pub gaps : TokenEvent → List TokenEvent → List (ℕ × ℕ)
gaps prev [] = []
gaps prev (e ∷ events) =
    replicate (max 1 e.content_tokens) (e.at - prev.at, max 1 e.content_tokens) ++ gaps e events

unfoldable pub gaps_of : List TokenEvent → List (ℕ × ℕ)
unfolding gaps
gaps_of [] = []
gaps_of (e ∷ events) = gaps e events

abbrev pub itls : RequestRecord → List (ℕ × ℕ)
itls r = gaps_of (content_events r.token_events)
