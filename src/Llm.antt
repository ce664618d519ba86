-- ===== src/Llm.antt =====
-- src/infra/llm_call_retry.py and src/infra/llm_failover.py: calls of a language model, with retries
-- and with a second client. A client is a function: what it does on a call that is given a number, with
-- a time limit. A delay that is no number or is negative is `none`; `second` is how many units of time a
-- second has. Log lines are left out.
mod Outcomes
mod Tests
use ss.Prelude.{
  ℕ, zero, suc, ◌+◌, ◌*◌, String, List, [], ◌∷◌, ◌++◌, Option, none, some, nat_eq, ltb,
  if◌then◌else◌,
}
use ss.Worker.Retry.{normalized_max_attempts, backoff_seconds}

-- An answer, or an error that the callers handle: `asyncio.TimeoutError`, `LLMProviderError`.
pub data Reply : Type 0 where
  answered : String → Reply
  timed_out : Reply
  provider_error : String → Reply

abbrev pub normalized_timeout_seconds : Option ℕ → ℕ → ℕ
normalized_timeout_seconds none default = default
normalized_timeout_seconds (some seconds) default = if nat_eq seconds 0 then default else seconds

abbrev pub normalized_backoff_seconds : Option ℕ → ℕ → ℕ
normalized_backoff_seconds none default = default
normalized_backoff_seconds (some seconds) default = seconds

pub record RetryPolicy : Type 0 where
  pub timeout_seconds : Option ℕ
  pub max_attempts : ℕ
  pub backoff_base_seconds : Option ℕ
  pub backoff_max_seconds : Option ℕ

-- `error` is the reply that was no answer.
pub record CallOutcome : Type 0 where
  pub text : Option String
  pub response_text : String
  pub error : Option Reply
  pub attempts : ℕ

-- A policy after `RetryPolicy.normalize`.
pub record Normalized : Type 0 where
  pub timeout : ℕ
  pub max_attempts : ℕ
  pub backoff_base : ℕ
  pub backoff_max : ℕ

module _ (second : ℕ) where
  unfoldable pub normalize : RetryPolicy → ℕ → Normalized
  unfolding normalized_max_attempts
  normalize policy default_timeout = record {
    timeout = normalized_timeout_seconds policy.timeout_seconds default_timeout;
    max_attempts = normalized_max_attempts policy.max_attempts;
    backoff_base = normalized_backoff_seconds policy.backoff_base_seconds second;
    backoff_max = normalized_backoff_seconds policy.backoff_max_seconds (30 * second);
  }

-- What the attempt gives when the client's call ends in this way.
abbrev pub attempt_complete_text : Reply → Option String × Option Reply
attempt_complete_text (answered text) = (some text, none)
attempt_complete_text timed_out = (none, some timed_out)
attempt_complete_text (provider_error message) = (none, some (provider_error message))

-- `inner` is the client on the n-th attempt. With the outcome come the delays that were slept.
module _ (inner : ℕ → ℕ → Reply) (policy : Normalized) where
  abbrev pub pause : ℕ → List ℕ
  pause attempt =
      if ltb attempt policy.max_attempts
      then backoff_seconds attempt policy.backoff_base policy.backoff_max ∷ []
      else []

  -- The body of the loop after an attempt: `rest` is what the later attempts do.
  abbrev pub after_call :
      ℕ
      → Option String × Option Reply
      → (Option Reply → CallOutcome × List ℕ)
      → CallOutcome × List ℕ
  after_call attempt (some answer, _) rest =
      (record { text = some answer; response_text = answer; error = none; attempts = attempt }, [])
  after_call attempt (none, error) rest =
      let (outcome, slept) = rest error in (outcome, pause attempt ++ slept)

  -- The attempts from `attempt` on, of which there are `left`.
  unfoldable pub attempts_from : ℕ → ℕ → Option Reply → CallOutcome × List ℕ
  attempts_from zero attempt last_error = (
    record { text = none; response_text = ""; error = last_error; attempts = policy.max_attempts },
    [],
  )
  attempts_from (suc left) attempt last_error =
      after_call attempt (attempt_complete_text (inner attempt policy.timeout))
        (attempts_from left (suc attempt))

unfoldable pub call_complete_text_with_retry :
    ℕ → (ℕ → ℕ → Reply) → RetryPolicy → CallOutcome × List ℕ
unfolding attempts_from
call_complete_text_with_retry second inner policy =
    let normalized = normalize second policy (30 * second) in
    attempts_from inner normalized normalized.max_attempts 1 none

-- `FailoverLLMClient.complete_text`: the second client is not given a time limit.
unfoldable pub failover_complete_text : (ℕ → Reply) → Reply → ℕ → Reply
failover_complete_text primary fallback primary_timeout_seconds =
    elim (primary primary_timeout_seconds) [
      | answered text ↦ answered text
      | timed_out ↦ fallback
      | provider_error _ ↦ fallback
    ]
