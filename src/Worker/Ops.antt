-- ===== src/Worker/Ops.antt =====
-- The methods of `WorkerService` in src/domain/worker_service.py, with `load_job_or_handle` and
-- `ensure_job_claimable` of src/domain/worker_claim_handling.py. Log lines are left out; the audit log
-- and the metrics stand in the log of the world.
use ss.Prelude.{
  ℕ, zero, suc, ◌+◌, ◌-◌, String, Bool, true, false, not, ◌||◌, List, [], ◌++◌, Option, none, some,
  length, leb, if◌then◌else◌,
}
use ss.Job.Data.{
  JobStatus, queued, running, succeeded, failed, status_eq, ArtifactRef, Job, RunError, RunResult,
}
use ss.Job.Status.{ensure_transition}
use ss.Exec.{
  job_not_found, job_data_corrupted, job_store_io, Outcome, ok, err, Exec, pure, raise, look,
  modify, ◌>>=◌, ◌>>◌,
}
use ss.Queue.Record.{QueueClaim}
use ss.Worker.Retry.{normalized_max_attempts, backoff_seconds, should_retry}
use ss.Worker.Attempts.{attempt_started, record_attempt_finished}
use ss.Worker.World.{
  Ports, saved, acked, released, executed, audited, counted, slept, World, quietly, logged, finally,
  note,
}

pub record WorkerRetryPolicy : Type 0 where
  pub max_attempts : ℕ
  pub backoff_base_seconds : ℕ
  pub backoff_max_seconds : ℕ

module _ {B : Type 0} (ports : Ports B) where
  abbrev pub do_ack : QueueClaim → Exec (World B) (Unit {0})
  do_ack claim = logged (acked claim) (ports.ack claim)

  abbrev pub do_release : QueueClaim → Exec (World B) (Unit {0})
  do_release claim = logged (released claim) (ports.release claim)

  abbrev pub do_save : String → Job → Exec (World B) Job
  do_save tenant_id job = logged (saved job) (ports.save tenant_id job)

  -- The three `except` clauses; any other error goes through.
  abbrev pub handled : QueueClaim → Outcome Job → Exec (World B) (Option Job)
  handled claim (ok job) = pure (some job)
  handled claim (err (job_not_found _)) = do_ack claim >> pure none
  handled claim (err (job_data_corrupted _)) = do_ack claim >> pure none
  handled claim (err (job_store_io _ _)) = do_release claim >> pure none
  handled claim (err e) = raise e

  unfoldable pub load_job_or_handle : QueueClaim → Exec (World B) (Option Job)
  load_job_or_handle claim w =
      let (r, b) = ports.load claim.tenant_id claim.job_id w.base in
      handled claim r (record w { base = b })

  -- The job to go on with, if it is claimable: its object is changed on the way.
  unfoldable pub ensure_job_claimable : Job → QueueClaim → Exec (World B) (Option Job)
  ensure_job_claimable job claim =
      if status_eq job.status queued
      then (do
        moved ← look (λ _. ensure_transition job.job_id job.status running)
        if moved
            then (do
              job' ← do_save claim.tenant_id (record job { status = running })
              note (audited job.status running)
              pure (some job'))
            else pure (some job))
      else if status_eq job.status running
      then pure (some job)
      else if status_eq job.status succeeded || status_eq job.status failed
      then do_ack claim >> pure none
      else do_release claim >> pure none

  unfoldable pub finish_job : Job → JobStatus → QueueClaim → Exec (World B) (Unit {0})
  finish_job job status claim = do
    moved ← look (λ _. ensure_transition job.job_id job.status status)
    let done = if moved then record job { status = status } else job
    job' ← do_save claim.tenant_id done
    note (counted status)
    if status_eq job.status job'.status then pure tt else note (audited job.status job'.status)

  -- The new `RunResult` where the formatter had something to say.
  abbrev pub merged : RunResult → Option RunError × List ArtifactRef → RunResult
  merged result (none, []) = result
  merged result (none, more) = record result { artifacts = result.artifacts ++ more }
  merged result (some e, more) = record result {
    success = false;
    artifacts = result.artifacts ++ more;
    error = some e;
  }

  unfoldable pub run_once : Job → String → Exec (World B) RunResult
  run_once job run_id = do
    result ← logged (executed run_id) (ports.execute_plan job run_id)
    if result.success
        then (do
          formatted ← quietly (ports.format_run_outputs job run_id result.artifacts)
          pure (merged result formatted))
        else pure result

  -- One attempt: its entry is saved, the plan is run, and its end is saved.
  unfoldable pub run_attempt : Job → QueueClaim → ℕ → Exec (World B) (Job × RunResult)
  run_attempt job claim attempt = do
    run_id ← quietly ports.new_run_id
    started_at ← quietly ports.clock
    started ← do_save job.tenant_id (attempt_started run_id attempt started_at job)
    result ← run_once started run_id
    ended_at ← quietly ports.clock
    ended ← look (λ _. record_attempt_finished run_id ended_at result started)
    job' ← do_save claim.tenant_id ended
    pure (job', result)

  -- The branches after an attempt: `again` is the rest of the loop.
  unfoldable pub after_attempt :
      WorkerRetryPolicy
      → QueueClaim
      → ℕ
      → (Job → Exec (World B) (Unit {0}))
      → Job × RunResult
      → Exec (World B) (Unit {0})
  after_attempt retry claim attempt again (job, result) =
      if result.success
      then finish_job job succeeded claim >> do_ack claim
      else if not (should_retry result)
      then finish_job job failed claim >> do_ack claim
      else if leb (normalized_max_attempts retry.max_attempts) attempt
      then finish_job job failed claim >> do_ack claim
      else (do
        stop ← quietly ports.stop_requested
        if stop then do_release claim else (do
          note
              (slept (backoff_seconds attempt retry.backoff_base_seconds retry.backoff_max_seconds))
          again job))

  -- The `while` loop, by the rounds that `attempt <= max_attempts` leaves.
  unfoldable pub attempts : WorkerRetryPolicy → QueueClaim → ℕ → ℕ → Job → Exec (World B) (Unit {0})
  attempts retry claim zero attempt job = pure tt
  attempts retry claim (suc rounds) attempt job = do
    stop ← quietly ports.stop_requested
    if stop then do_release claim else (do
      ended ← run_attempt job claim attempt
      after_attempt retry claim attempt (attempts retry claim rounds (suc attempt)) ended)

  unfoldable pub run_job_with_retries :
      WorkerRetryPolicy → Job → QueueClaim → Exec (World B) (Unit {0})
  run_job_with_retries retry job claim =
      let max_attempts = normalized_max_attempts retry.max_attempts in
      let attempt = length job.runs + 1 in
      attempts retry claim (max_attempts + 1 - attempt) attempt job

  unfoldable pub process_claim : WorkerRetryPolicy → QueueClaim → Exec (World B) (Unit {0})
  process_claim retry claim = do
    stop ← quietly ports.stop_requested
    if stop then do_release claim else (do
      found ← load_job_or_handle claim
      elim found [
        | none ↦ pure tt
        | some job ↦ do
          stop' ← quietly ports.stop_requested
          if stop' then do_release claim else (do
            claimable ← ensure_job_claimable job claim
            elim claimable [
              | none ↦ pure tt
              | some job' ↦ do
                modify (λ w. record w { inflight = w.inflight + 1 })
                finally (run_job_with_retries retry job' claim)
                    (λ w. record w { inflight = w.inflight - 1 })
            ])
      ])

  unfoldable pub process_next : WorkerRetryPolicy → String → Exec (World B) Bool
  process_next retry worker_id = do
    stop ← quietly ports.stop_requested
    if stop then pure false else (do
      got ← quietly (ports.claim worker_id)
      elim got [
        | none ↦ pure false
        | some claim ↦ do
          stop' ← quietly ports.stop_requested
          if stop' then do_release claim >> pure false else process_claim retry claim >> pure true
      ])
