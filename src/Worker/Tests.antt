-- ===== src/Worker/Tests.antt =====
-- The worker with concrete ports.
use Prim.Native.Nat.{min}
use ss.Prelude.{
  inr, ℕ, suc, ◌+◌, ◌-◌, ◌*◌, ◌≤◌, ◌<◌, ◌≡◌, refl, false, List, [], ◌∷◌, none, some, arith, length,
}
use ss.Job.Data.{JobStatus, queued, running, Job, RunAttempt}
use ss.Job.Status.{ensure_transition}
use ss.Exec.{ok, pure}
use ss.Queue.Record.{QueueClaim}
use ss.Worker.Retry.{normalized_max_attempts, backoff_seconds, should_retry}
use ss.Worker.Retry.Bounds.{backoff_seconds_doubles}
use ss.Worker.Attempts.{attempt_started, finish_attempt, index_artifacts, record_attempt_finished}
use ss.Worker.World.{Ports, World}
use ss.Worker.Ops.{
  WorkerRetryPolicy, load_job_or_handle, ensure_job_claimable, finish_job, run_once, run_attempt,
  after_attempt, attempts, run_job_with_retries, process_claim,
}
use ss.Worker.Counting.{count}
use ss.Worker.Parts.{settles, executes}
use ss.Worker.Loop.{run_job_with_retries-executes}
use ss.Worker.Stuck.{process_claim-stuck}
use ss.Worker.Settles.{process_claim-settles_once, process_claim-settles}

abbrev held : QueueClaim
held = record {
  tenant_id = "default";
  job_id = "job_1";
  claim_id = "c1";
  worker_id = "w1";
  claimed_at = 5;
  lease_expires_at = 65;
  traceparent = none;
}

abbrev job_in : JobStatus → List RunAttempt → Job
job_in status runs = record {
  schema_version = 3;
  version = 4;
  tenant_id = "default";
  job_id = "job_1";
  trace_id = some "trace";
  status = status;
  requirement = some "ols";
  confirmation = none;
  created_at = 1;
  scheduled_at = some 2;
  inputs = none;
  draft = none;
  llm_plan = some "plan";
  selected_template_id = none;
  output_formats = none;
  runs = runs;
  artifacts_index = [];
  redeem_task_code = none;
  auth_token = none;
  auth_expires_at = none;
}

abbrev ended : ℕ → RunAttempt
ended n = record {
  run_id = "r";
  attempt = n;
  status = "failed";
  started_at = some 3;
  ended_at = some 4;
  artifacts = [];
}

-- The state counts the runs; every run fails, without saying why.
abbrev ports : Ports ℕ
ports = record {
  load = λ t i. pure (job_in queued []);
  save = λ t job. pure job;
  claim = λ w. pure (some held);
  ack = λ c. pure tt;
  release = λ c. pure tt;
  execute_plan = λ job i n. (
    ok (record {
      job_id = "job_1";
      run_id = i;
      success = false;
      exit_code = some 1;
      timed_out = false;
      artifacts = [];
      error = none;
    }),
    suc n,
  );
  format_run_outputs = λ job i refs. pure (none, []);
  stop_requested = pure false;
  clock = pure 9;
  new_run_id = pure "r";
}

abbrev policy : WorkerRetryPolicy
policy = record { max_attempts = 2; backoff_base_seconds = 1; backoff_max_seconds = 30 }

abbrev world : World ℕ
world = record { base = 0; log = []; inflight = 0 }

returns : (process_claim ports policy held world).0 ≡ ok tt
unfolding process_claim load_job_or_handle ensure_job_claimable ensure_transition
    run_job_with_retries attempts run_attempt run_once after_attempt finish_job attempt_started
    record_attempt_finished finish_attempt index_artifacts should_retry normalized_max_attempts
    backoff_seconds
returns = refl

fresh :
    (b : ℕ) (job : Job)
    → (ports.load "default" "job_1" b).0 ≡ ok job
    → length job.runs < normalized_max_attempts 2
unfolding normalized_max_attempts
fresh b job h = ground arith

kept :
    (b : ℕ) (job job' : Job)
    → (ports.save "default" job b).0 ≡ ok job'
    → length job'.runs ≡ length job.runs
kept b job job' h = ground arith

process_claim-settles_example :
    count settles (process_claim ports policy held world).1.log ≡ 1 + count settles world.log
process_claim-settles_example = process_claim-settles ports policy held world fresh kept returns

process_claim-settles_once_example :
    count settles (process_claim ports policy held world).1.log ≤ 1 + count settles world.log
process_claim-settles_once_example = process_claim-settles_once ports policy held world

run_job_with_retries-executes_example :
    count executes (run_job_with_retries ports policy (job_in running []) held world).1.log
    ≤ normalized_max_attempts 2 - 0 + count executes world.log
run_job_with_retries-executes_example =
    run_job_with_retries-executes ports policy held (job_in running []) world

abbrev spent_job : Job
spent_job = job_in running (ended 1 ∷ ended 2 ∷ [])

spent : normalized_max_attempts 2 ≤ length spent_job.runs
unfolding normalized_max_attempts
spent = omega arith

abbrev left_ports : Ports ℕ
left_ports = record ports { load = λ t i. pure spent_job }

left-kept :
    (b : ℕ) (j : Job)
    → (left_ports.save "default" (record spent_job { status = running }) b).0 ≡ ok j
    → length j.runs ≡ 2
left-kept b j h = ground arith

process_claim-stuck_example :
    let s = (process_claim left_ports policy held world).1 in
    (count settles s.log ≡ 0) × (count executes s.log ≡ 0)
process_claim-stuck_example =
    process_claim-stuck left_ports policy held world spent_job (λ b. refl) (λ b. refl) (inr refl)
      spent left-kept

backoff_seconds_doubles_example :
    (backoff_seconds 0 1 30 ≡ 1)
    × (backoff_seconds 1 1 30 ≡ 1)
    × (backoff_seconds 3 1 30 ≡ min (2 * backoff_seconds 2 1 30) 30)
backoff_seconds_doubles_example = backoff_seconds_doubles 1 1 30 (omega arith)

-- The delays that tests/test_worker_retry.py expects.
expected_delays :
    (backoff_seconds 1 1 30 ≡ 1)
    × (backoff_seconds 2 1 30 ≡ 2)
    × (backoff_seconds 3 1 30 ≡ 4)
    × (backoff_seconds 10 2 3 ≡ 3)
unfolding backoff_seconds
expected_delays = (refl, refl, refl, refl)
