-- ===== src/Llm/Tests.antt =====
-- A client that times out, is refused, and answers on the third attempt.
use ss.Prelude.{ℕ, zero, suc, ◌≤◌, ◌≡◌, refl, [], ◌∷◌, none, some, arith}
use ss.Llm.{
  Reply, answered, timed_out, provider_error, RetryPolicy, call_complete_text_with_retry, normalize,
  attempts_from,
}
use ss.Worker.Retry.{normalized_max_attempts, backoff_seconds}
use ss.Llm.Outcomes.{IsAnswer, EndedAt, used, retry_returns, retry_fails}

abbrev client : ℕ → ℕ → Reply
client (suc zero) _ = timed_out
client (suc (suc zero)) _ = provider_error "429"
client (suc (suc (suc zero))) _ = answered "use regress"
client _ _ = timed_out

abbrev policy : RetryPolicy
policy = record {
  timeout_seconds = some 20;
  max_attempts = 3;
  backoff_base_seconds = some 1;
  backoff_max_seconds = none;
}

abbrev hasty : RetryPolicy
hasty = record {
  timeout_seconds = none;
  max_attempts = 0;
  backoff_base_seconds = none;
  backoff_max_seconds = some 4;
}

run : call_complete_text_with_retry 1 client policy ≡ (
  record { text = some "use regress"; response_text = "use regress"; error = none; attempts = 3 },
  1 ∷ 2 ∷ [],
)
unfolding call_complete_text_with_retry attempts_from normalize normalized_max_attempts
    backoff_seconds
run = refl

retry_returns_example :
    EndedAt client (used 1 policy) 1 3 "use regress" (call_complete_text_with_retry 1 client policy)
unfolding normalize normalized_max_attempts
retry_returns_example =
    retry_returns 1 client policy 3 "use regress" (omega arith) (omega arith)
      (record { answers = refl; before = λ j l u. early j l u })
  where
    early : (j : ℕ) → 1 ≤ j → suc j ≤ 3 → ¬ IsAnswer (client j 20)
    early zero l u = absurd (omega arith)
    early (suc zero) l u = λ a. a
    early (suc (suc zero)) l u = λ a. a
    early (suc (suc (suc n))) l u = absurd (omega arith)

retry_fails_example :
    (call_complete_text_with_retry 1 client hasty).0
    ≡ record { text = none; response_text = ""; error = some timed_out; attempts = 1 }
unfolding normalize normalized_max_attempts
retry_fails_example = retry_fails 1 client hasty only
  where
    only : (j : ℕ) → 1 ≤ j → j ≤ 1 → ¬ IsAnswer (client j 30)
    only zero l u = absurd (omega arith)
    only (suc zero) l u = λ a. a
    only (suc (suc n)) l u = absurd (omega arith)
