-- ===== src/Worker/Loop.antt =====
-- How often `_run_job_with_retries` settles a claim and runs a plan.
use ss.Prelude.{
  ℕ, zero, suc, ◌+◌, ◌-◌, ◌≤◌, ◌<◌, ◌≡◌, refl, Bool, false, arith, not, length, leb, ltb, ltb→lt,
  Bool-cases, inl, inr,
}
use ss.Job.Data.{JobStatus, succeeded, failed, Job, RunResult}
use ss.Exec.{ok, Exec, ◌>>◌}
use ss.Queue.Record.{QueueClaim}
use ss.Worker.Retry.{normalized_max_attempts, should_retry}
use ss.Worker.World.{Ports, acked, released, executed, slept, World}
use ss.Worker.Ops.{
  WorkerRetryPolicy, do_ack, do_release, finish_job, after_attempt, attempts, run_job_with_retries,
}
use ss.Worker.Counting.{
  count, Adds, Adds-pure, Adds-quietly, Adds-logged, Adds-logged_other, Adds-if, Adds-if_eq,
  Adds-note_other, Adds-bind, Adds-then, Adds-weaken,
}
use ss.Worker.Parts.{settles, executes, finish_job-Adds, run_attempt-Adds}

module _ {B : Type 0} (ports : Ports B) (retry : WorkerRetryPolicy) (claim : QueueClaim) where
  pub do_ack-settles : Adds settles 1 1 (do_ack ports claim)
  do_ack-settles = Adds-logged (acked claim) (ports.ack claim) refl

  pub do_release-settles : Adds settles 1 1 (do_release ports claim)
  do_release-settles = Adds-logged (released claim) (ports.release claim) refl

  closed-settles :
      (job : Job) (status : JobStatus)
      → Adds settles 1 1 (finish_job ports job status claim >> do_ack ports claim)
  closed-settles job status =
      Adds-then 1 1 _ _
        (finish_job-Adds ports settles (λ j. refl) (λ s t. refl) (λ s. refl) job status claim)
        λ _. do_ack-settles

  after_attempt-settles :
      (attempt : ℕ) (again : Job → Exec (World B) (Unit {0})) (job : Job) (result : RunResult)
      → (leb (normalized_max_attempts retry.max_attempts) attempt ≡ false
          → (j : Job) → Adds settles 1 1 (again j))
      → Adds settles 1 1 (after_attempt ports retry claim attempt again (job, result))
  unfolding after_attempt
  after_attempt-settles attempt again job result k =
      Adds-if 1 1 result.success _ _ (closed-settles job succeeded) (
        Adds-if 1 1 (not (should_retry result)) _ _ (closed-settles job failed) (
          Adds-if_eq 1 1 (leb (normalized_max_attempts retry.max_attempts) attempt) _ _
            (λ _. closed-settles job failed)
            λ h. Adds-then {A = Bool} 1 1 _ _ (Adds-quietly ports.stop_requested) λ stop.
              Adds-if 1 1 stop _ _ do_release-settles
                (Adds-then 1 1 _ _ (Adds-note_other (slept _) refl) λ _. k h job)))

  round-settles :
      (rounds attempt : ℕ) (job : Job)
      → (leb (normalized_max_attempts retry.max_attempts) attempt ≡ false
          → (j : Job) → Adds settles 1 1 (attempts ports retry claim rounds (suc attempt) j))
      → Adds settles 1 1 (attempts ports retry claim (suc rounds) attempt job)
  unfolding attempts
  round-settles rounds attempt job k =
      Adds-then {A = Bool} 1 1 _ _ (Adds-quietly ports.stop_requested) λ stop.
        Adds-if 1 1 stop _ _ do_release-settles (
          Adds-then {A = Job × RunResult} 1 1 _ _
            (run_attempt-Adds ports settles (λ j. refl) (λ s t. refl) (λ s. refl) 0 job claim
              attempt λ i m. Adds-logged_other (executed i) m refl)
            λ (job', result).
              after_attempt-settles attempt (attempts ports retry claim rounds (suc attempt)) job'
                result k)

  attempts-settles :
      (rounds attempt : ℕ) (job : Job)
      → attempt + rounds ≡ normalized_max_attempts retry.max_attempts
      → Adds settles 1 1 (attempts ports retry claim (suc rounds) attempt job)
  attempts-settles zero attempt job e = round-settles zero attempt job λ h j. absurd (ground arith)
  attempts-settles (suc rounds) attempt job e =
      round-settles (suc rounds) attempt job
        λ h j. attempts-settles rounds (suc attempt) j (omega arith)

  pub run_job_with_retries-settles :
      (job : Job)
      → length job.runs < normalized_max_attempts retry.max_attempts
      → Adds settles 1 1 (run_job_with_retries ports retry job claim)
  unfolding run_job_with_retries
  run_job_with_retries-settles job h =
      let max = normalized_max_attempts retry.max_attempts in
      let rounds = max - length job.runs - 1 in
      let e : max + 1 - (length job.runs + 1) ≡ suc rounds = omega arith in
      let e' : length job.runs + 1 + rounds ≡ max = omega arith in
      rw e (attempts-settles rounds (length job.runs + 1) job e')

  -- A job that has as many runs as the policy allows or more is not run: the loop returns at once
  -- and changes nothing, so the claim is not settled.
  pub run_job_with_retries-spent :
      (job : Job) (w : World B)
      → normalized_max_attempts retry.max_attempts ≤ length job.runs
      → run_job_with_retries ports retry job claim w ≡ (ok tt, w)
  unfolding run_job_with_retries attempts
  run_job_with_retries-spent job w h =
      let e : normalized_max_attempts retry.max_attempts + 1 - (length job.runs + 1) ≡ 0 =
        omega arith in
      rw e

  pub run_job_with_retries-at_most :
      (job : Job) → Adds settles 0 1 (run_job_with_retries ports retry job claim)
  run_job_with_retries-at_most job =
      elim (Bool-cases (ltb (length job.runs) (normalized_max_attempts retry.max_attempts))) [
        | inl h ↦
            Adds-weaken 1 1 0 1 _ (run_job_with_retries-settles job (ltb→lt _ _ h)) (omega arith)
              (omega arith)
        | inr h ↦ unrun job (ground arith)
      ]
    where
      unrun :
          (job : Job)
          → normalized_max_attempts retry.max_attempts ≤ length job.runs
          → Adds settles 0 1 (run_job_with_retries ports retry job claim)
      unrun job h = record {
        at_most = λ w. rw (run_job_with_retries-spent job w h) (omega arith);
        at_least = λ w b k. rw (run_job_with_retries-spent job w h) (omega arith);
      }

  closed-executes :
      (job : Job) (status : JobStatus)
      → Adds executes 0 0 (finish_job ports job status claim >> do_ack ports claim)
  closed-executes job status =
      Adds-then 0 0 _ _
        (finish_job-Adds ports executes (λ j. refl) (λ s t. refl) (λ s. refl) job status claim)
        λ _. Adds-logged_other (acked claim) (ports.ack claim) refl

  closed_within :
      (n : ℕ) (job : Job) (status : JobStatus)
      → Adds executes 0 n (finish_job ports job status claim >> do_ack ports claim)
  closed_within n job status =
      Adds-weaken 0 0 0 n _ (closed-executes job status) (omega arith) (omega arith)

  do_release-executes : (n : ℕ) → Adds executes 0 n (do_release ports claim)
  do_release-executes n =
      Adds-weaken 0 0 0 n _ (Adds-logged_other (released claim) (ports.release claim) refl)
        (omega arith) (omega arith)

  after_attempt-executes :
      (n attempt : ℕ) (again : Job → Exec (World B) (Unit {0})) (job : Job) (result : RunResult)
      → ((j : Job) → Adds executes 0 n (again j))
      → Adds executes 0 n (after_attempt ports retry claim attempt again (job, result))
  unfolding after_attempt
  after_attempt-executes n attempt again job result k =
      Adds-if 0 n result.success _ _ (closed_within n job succeeded) (
        Adds-if 0 n (not (should_retry result)) _ _ (closed_within n job failed) (
          Adds-if 0 n (leb (normalized_max_attempts retry.max_attempts) attempt) _ _
            (closed_within n job failed)
            (Adds-then {A = Bool} 0 n _ _ (Adds-quietly ports.stop_requested) λ stop.
              Adds-if 0 n stop _ _ (do_release-executes n)
                (Adds-then 0 n _ _ (Adds-note_other (slept _) refl) λ _. k job))))

  pub attempts-executes :
      (rounds attempt : ℕ) (job : Job)
      → Adds executes 0 rounds (attempts ports retry claim rounds attempt job)
  unfolding attempts
  attempts-executes zero attempt job = Adds-pure tt
  attempts-executes (suc rounds) attempt job =
      Adds-then {A = Bool} 0 (suc rounds) _ _ (Adds-quietly ports.stop_requested) λ stop.
        Adds-if 0 (suc rounds) stop _ _ (do_release-executes (suc rounds)) (
          Adds-weaken 1 (1 + rounds) 0 (suc rounds) _
            (Adds-bind {A = Job × RunResult} 1 1 0 rounds _ _
              (run_attempt-Adds ports executes (λ j. refl) (λ s t. refl) (λ s. refl) 1 job claim
                attempt λ i m. Adds-logged (executed i) m refl)
              λ (job', result).
                after_attempt-executes rounds attempt
                  (attempts ports retry claim rounds (suc attempt)) job' result
                  (attempts-executes rounds (suc attempt)))
            (omega arith) (omega arith))

  -- The loop runs the plan at most as often as the policy allows, less the runs that the job has.
  pub run_job_with_retries-executes :
      (job : Job) (w : World B)
      → count executes (run_job_with_retries ports retry job claim w).1.log
        ≤ normalized_max_attempts retry.max_attempts - length job.runs + count executes w.log
  unfolding run_job_with_retries
  run_job_with_retries-executes job w =
      let max = normalized_max_attempts retry.max_attempts in
      omega (
        arith,
        (attempts-executes (max + 1 - (length job.runs + 1)) (length job.runs + 1) job).at_most w,
      )
