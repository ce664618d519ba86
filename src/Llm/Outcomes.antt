-- ===== src/Llm/Outcomes.antt =====
-- What a call with retries comes to.
use ss.Prelude.{
  ℕ, zero, suc, ◌+◌, ◌*◌, ◌≤◌, ◌<◌, ◌≡◌, refl, sym, ◌∙◌, length-append, All-append, ap, subst,
  String, List, [], ◌++◌, Option, none, some, ◌⊎◌, inl, inr, arith, length, All, nat_eq,
  if◌then◌else◌,
}
use ss.Worker.Retry.{normalized_max_attempts}
use ss.Worker.Retry.Bounds.{backoff_seconds_bounds}
use ss.Llm.{
  Reply, answered, timed_out, provider_error, RetryPolicy, CallOutcome, Normalized, normalize,
  pause, attempts_from, attempt_complete_text, after_call, call_complete_text_with_retry,
}

abbrev pub IsAnswer : Reply → Type 0
IsAnswer (answered text) = Unit
IsAnswer _ = ⊥

module _ (inner : ℕ → ℕ → Reply) (policy : Normalized) where
  abbrev cap : ℕ
  cap = if nat_eq policy.backoff_max 0 then policy.backoff_base else policy.backoff_max

  -- The attempt `k` answers, and none from `from` on before it does.
  pub record FirstAnswer (from k : ℕ) (text : String) : Type 0 where
    pub answers : inner k policy.timeout ≡ answered text
    pub before : (j : ℕ) → from ≤ j → j < k → ¬ IsAnswer (inner j policy.timeout)

  pause-length :
      (attempt : ℕ) → attempt < policy.max_attempts → length (pause inner policy attempt) ≡ 1
  pause-length attempt lt = ground arith

  pause-All : (attempt : ℕ) → All (λ d. d ≤ cap) (pause inner policy attempt)
  pause-All attempt =
      ground (arith, backoff_seconds_bounds attempt policy.backoff_base policy.backoff_max)

  attempts_from-answered :
      (left attempt : ℕ) (last : Option Reply) (text : String)
      → inner attempt policy.timeout ≡ answered text
      → attempts_from inner policy (suc left) attempt last
        ≡ (record { text = some text; response_text = text; error = none; attempts = attempt }, [])
  unfolding attempts_from
  attempts_from-answered left attempt last text e =
      ap
        (λ r.
          after_call inner policy attempt (attempt_complete_text r)
            (attempts_from inner policy left (suc attempt)))
        e

  attempts_from-failed :
      (left attempt : ℕ) (last : Option Reply)
      → attempt_complete_text (inner attempt policy.timeout)
        ≡ (none, some (inner attempt policy.timeout))
      → attempts_from inner policy (suc left) attempt last ≡ (
          let rest =
            attempts_from inner policy left (suc attempt) (some (inner attempt policy.timeout)) in
          (rest.0, pause inner policy attempt ++ rest.1))
  unfolding attempts_from
  attempts_from-failed left attempt last e =
      ap (λ r. after_call inner policy attempt r (attempts_from inner policy left (suc attempt))) e

  no_answer-failed : (r : Reply) → ¬ IsAnswer r → attempt_complete_text r ≡ (none, some r)
  no_answer-failed (answered text) wrong = absurd (wrong tt)
  no_answer-failed timed_out wrong = refl
  no_answer-failed (provider_error message) wrong = refl

  -- The loop that stands at `attempt` ended with the answer of the attempt `k`.
  abbrev pub EndedAt : ℕ → ℕ → String → CallOutcome × List ℕ → Type 0
  EndedAt attempt k text r =
      (r.0 ≡ record { text = some text; response_text = text; error = none; attempts = k })
      × (length r.1 + attempt ≡ k)
      × All (λ d. d ≤ cap) r.1

  EndedAt-pause :
      (attempt k : ℕ) (text : String) (r : CallOutcome × List ℕ)
      → attempt < policy.max_attempts
      → EndedAt (suc attempt) k text r
      → EndedAt attempt k text (r.0, pause inner policy attempt ++ r.1)
  EndedAt-pause attempt k text r lt (e, n, a) = (
    e,
    omega (arith, length-append (pause inner policy attempt) r.1, pause-length attempt lt, n),
    All-append (λ d. d ≤ cap) (pause inner policy attempt) r.1 (pause-All attempt) a,
  )

  attempts_from-first :
      (left attempt k : ℕ) (last : Option Reply) (text : String)
      → FirstAnswer attempt k text
      → attempt ≤ k
      → k < attempt + left
      → attempt + left ≡ suc policy.max_attempts
      → EndedAt attempt k text (attempts_from inner policy left attempt last)
  attempts_from-first zero attempt k last text f l u e = absurd (omega arith)
  attempts_from-first (suc left) attempt k last text f l u e = elim split [
    | inl same ↦
        subst (EndedAt attempt k text)
          (sym (
            attempts_from-answered left attempt last text
              (subst (λ j. inner j policy.timeout ≡ answered text) (sym same) f.answers)))
          (
            ap (λ j. record { text = some text; response_text = text; error = none; attempts = j })
                same,
            omega arith,
            tt,
          )
    | inr before ↦
        let fails =
          no_answer-failed (inner attempt policy.timeout) (f.before attempt (omega arith) before) in
        subst (EndedAt attempt k text) (sym (attempts_from-failed left attempt last fails)) (
          EndedAt-pause attempt k text
            (attempts_from inner policy left (suc attempt) (some (inner attempt policy.timeout)))
            (omega arith)
            (attempts_from-first left (suc attempt) k (some (inner attempt policy.timeout)) text
              (record { answers = f.answers; before = λ j le lt. f.before j (omega arith) lt })
              before (omega arith) (omega arith)))
  ]
    where
      split : (attempt ≡ k) ⊎ (attempt < k)
      split = omega arith

  attempts_from-none :
      (left attempt : ℕ) (last : Option Reply)
      → ((j : ℕ) → attempt ≤ j → j ≤ policy.max_attempts → ¬ IsAnswer (inner j policy.timeout))
      → attempt + left ≡ suc policy.max_attempts
      → attempt ≤ policy.max_attempts ⊎ (last ≡ some (inner policy.max_attempts policy.timeout))
      → (attempts_from inner policy left attempt last).0 ≡ record {
        text = none;
        response_text = "";
        error = some (inner policy.max_attempts policy.timeout);
        attempts = policy.max_attempts;
      }
  unfolding attempts_from
  attempts_from-none zero attempt last fails e (inl le) = absurd (omega arith)
  attempts_from-none zero attempt last fails e (inr same) =
      ap
        (λ x. record { text = none; response_text = ""; error = x; attempts = policy.max_attempts })
        same
  attempts_from-none (suc left) attempt last fails e seen =
      let no =
        no_answer-failed (inner attempt policy.timeout)
          (fails attempt (omega arith) (omega arith)) in
      ap (λ r. r.0) (attempts_from-failed left attempt last no)
      ∙ attempts_from-none left (suc attempt) (some (inner attempt policy.timeout))
          (λ j le. fails j (omega arith)) (omega arith) (next_or_last left e)
    where
      next_or_last :
          (n : ℕ)
          → attempt + suc n ≡ suc policy.max_attempts
          → suc attempt ≤ policy.max_attempts
            ⊎ (some (inner attempt policy.timeout)
                ≡ some (inner policy.max_attempts policy.timeout))
      next_or_last zero h = inr (ap (λ j. some (inner j policy.timeout)) (omega arith))
      next_or_last (suc n) h = inl (omega arith)

-- The policy that the call works with.
abbrev pub used : ℕ → RetryPolicy → Normalized
used second policy = normalize second policy (30 * second)

used-max_attempts : (second : ℕ) (policy : RetryPolicy) → 1 ≤ (used second policy).max_attempts
unfolding normalize normalized_max_attempts
used-max_attempts second policy = ground arith

-- If the client, with the time limit of the normalized policy, answers an attempt that the policy
-- allows, and none before it, the call returns that answer, says how many attempts it took, and
-- has slept once before each attempt but the first, never longer than the cap.
pub retry_returns :
    (second : ℕ) (inner : ℕ → ℕ → Reply) (policy : RetryPolicy) (k : ℕ) (text : String)
    → 1 ≤ k
    → k ≤ (used second policy).max_attempts
    → FirstAnswer inner (used second policy) 1 k text
    → EndedAt inner
        (used second policy)
        1
        k
        text
        (call_complete_text_with_retry second inner policy)
unfolding call_complete_text_with_retry
retry_returns second inner policy k text l u f =
    attempts_from-first inner (used second policy) (used second policy).max_attempts 1 k none text f
      l (omega arith) (omega arith)

-- If the client, with the time limit of the normalized policy, answers none of the attempts that
-- the policy allows, the call returns no text, with the error of the last attempt and with all the
-- attempts counted.
pub retry_fails :
    (second : ℕ) (inner : ℕ → ℕ → Reply) (policy : RetryPolicy)
    → ((j : ℕ)
        → 1 ≤ j
        → j ≤ (used second policy).max_attempts
        → ¬ IsAnswer (inner j (used second policy).timeout))
    → (call_complete_text_with_retry second inner policy).0 ≡ (
        let p = used second policy in
        record {
          text = none;
          response_text = "";
          error = some (inner p.max_attempts p.timeout);
          attempts = p.max_attempts;
        })
unfolding call_complete_text_with_retry
retry_fails second inner policy fails =
    attempts_from-none inner (used second policy) (used second policy).max_attempts 1 none fails
      (omega arith) (inl (used-max_attempts second policy))
