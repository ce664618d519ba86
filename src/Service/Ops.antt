-- ===== src/Service/Ops.antt =====
-- The methods of `JobService` in src/domain/job_service.py, with src/domain/job_retry.py and
-- src/domain/job_confirm_validation.py. Log lines and metrics are left out; the audit log stands in the
-- log of the world. `lower` is Python's `str.lower`, `read_draft` reads the text that a job carries as
-- its draft, and `collapse_spaces`, `sha256` and `str_of` are `re.sub(r"\s+", " ", _)`, the hash as
-- hexadecimal digits and the text of a revision.
use ss.Prelude.{
  ℕ, zero, suc, String, Bool, true, false, ◌||◌, List, [], Option, none, some, nat_eq,
  if◌then◌else◌,
}
use ss.Job.Data.{JobStatus, confirmed, queued, running, succeeded, failed, status_eq, Job}
use ss.Job.Status.{ensure_transition}
use ss.Exec.{
  job_version_conflict, draft_confirm_blocked, raised, Outcome, ok, err, Exec, pure, raise, look,
  and_then, ◌>>=◌, ◌>>◌,
}
use ss.Service.Formats.{normalize_output_formats}
use ss.Service.Blocking.{JsonValue, Draft, confirm_blockers}
use ss.Service.World.{
  RunRequest, Ports, scheduled, saved, audited, World, quietly, logged, handling, note,
}

-- `status in {QUEUED, RUNNING, SUCCEEDED}`
abbrev pub underway : JobStatus → Bool
underway s = status_eq s queued || status_eq s running || status_eq s succeeded

-- `{} if answers is None else dict(answers)`
abbrev pub given : Option (List (String × JsonValue)) → List (String × JsonValue)
given none = []
given (some answers) = answers

abbrev pub drafted : (String → Draft) → Option String → Option Draft
drafted read_draft none = none
drafted read_draft (some text) = some (read_draft text)

module _ {B : Type 0} (ports : Ports B) (lower : String → String) where
  -- `job.scheduled_at = utc_now().isoformat()`
  abbrev pub stamped : Job → Exec (World B) Job
  stamped job = do now ← quietly ports.clock; pure (record job { scheduled_at = some now })

  abbrev pub do_schedule : Job → Exec (World B) (Unit {0})
  do_schedule job = logged (scheduled job) (ports.schedule job)

  abbrev pub do_save : String → Job → Exec (World B) Job
  do_save tenant_id job = logged (saved job) (ports.save tenant_id job)

  -- The block under `if self._state_machine.ensure_transition(...)`, or the job as it is.
  abbrev pub put_in_line : Bool → Job → Exec (World B) Job
  put_in_line false job = pure job
  put_in_line true job = do
    let moved = record job { status = queued }
    job' ← elim job.scheduled_at [ none ↦ stamped moved | some _ ↦ pure moved ]
    do_schedule job'
    pure job'

  unfoldable pub queue_run : String → Job → Exec (World B) Job
  queue_run tenant_id job = do
    moved ← look (λ _. ensure_transition job.job_id job.status confirmed)
    let job' = if moved then record job { status = confirmed } else job
    ready ← look (λ _. ensure_transition job.job_id job'.status queued)
    in_line ← put_in_line ready job'
    held ← do_save tenant_id in_line
    note (audited "job.run.trigger" "success" held.status)
    pure held

  -- The formats asked for and those of the job.
  abbrev pub retry_formats :
      Option (List String) → Option (List String) → Outcome (Option (List String))
  retry_formats none (some kept) = ok (some kept)
  retry_formats asked _ = and_then (normalize_output_formats lower asked) (λ fs. ok (some fs))

  unfoldable pub retry_failed_job : String → Job → Option (List String) → Exec (World B) Job
  retry_failed_job tenant_id job output_formats = do
    formats ← look (λ _. retry_formats output_formats job.output_formats)
    moved ← look (λ _. ensure_transition job.job_id job.status queued)
    job' ← stamped (record job { output_formats = formats; status = queued })
    do_schedule job'
    held ← do_save tenant_id job'
    note (audited "job.run.trigger" "success" held.status)
    pure held

  unfoldable pub run_idempotent_noop : Job → Exec (World B) Job
  run_idempotent_noop job = do note (audited "job.run.trigger" "noop" job.status); pure job

  -- The body of the `try` of `trigger_run`.
  unfoldable pub try_run : String → String → RunRequest → Job → Exec (World B) Job
  try_run tenant_id job_id request job = do
    formats ← look (λ _. normalize_output_formats lower request.output_formats)
    moved ← look (λ _. ensure_transition job_id job.status confirmed)
    quietly (ports.freeze_plan_for_run tenant_id job_id request)
    queue_run tenant_id (record job { output_formats = some formats })

  -- The `except` clause: the job as it is now, if another caller has queued it; else the next
  -- attempt, or the conflict itself after the last one.
  abbrev pub after_try : String → String → ℕ → Exec (World B) Job → Outcome Job → Exec (World B) Job
  after_try tenant_id job_id left again (ok job) = pure job
  after_try tenant_id job_id left again (err (job_version_conflict id expected actual)) = do
    latest ← quietly (ports.load tenant_id job_id)
    if underway latest.status
        then pure latest
        else if nat_eq left 0
        then raise (job_version_conflict id expected actual)
        else again
  after_try tenant_id job_id left again (err e) = raise e

  -- `left` more attempts may follow this one.
  abbrev pub attempt_run :
      String → String → RunRequest → ℕ → Exec (World B) Job → Exec (World B) Job
  attempt_run tenant_id job_id request left again = do
    job ← quietly (ports.load tenant_id job_id)
    if underway job.status
        then run_idempotent_noop job
        else if status_eq job.status failed
        then retry_failed_job tenant_id job request.output_formats
        else handling (try_run tenant_id job_id request job) (after_try tenant_id job_id left again)

  unfoldable pub run_attempts : String → String → RunRequest → ℕ → Exec (World B) Job
  run_attempts tenant_id job_id request zero = raise (raised "unreachable")
  run_attempts tenant_id job_id request (suc left) =
      attempt_run tenant_id job_id request left (run_attempts tenant_id job_id request left)

  unfoldable pub trigger_run : String → String → RunRequest → Exec (World B) Job
  unfolding run_attempts
  trigger_run tenant_id job_id request = run_attempts tenant_id job_id request 3

  module _ (read_draft : String → Draft) where
    abbrev pub blockers_of : Job → Option (List (String × JsonValue)) → List String × List String
    blockers_of job answers = confirm_blockers (drafted read_draft job.draft) (given answers)

    abbrev pub refused_if : List String × List String → Exec (World B) (Unit {0})
    refused_if ([], []) = pure tt
    refused_if (missing, fields) = raise (draft_confirm_blocked missing fields)

    unfoldable pub validate_confirm_not_blocked :
        String → String → Option (List (String × JsonValue)) → Exec (World B) (Unit {0})
    validate_confirm_not_blocked tenant_id job_id answers = do
      job ← quietly (ports.load tenant_id job_id)
      refused_if (blockers_of job answers)

    unfoldable pub confirm_job : String → String → Bool → RunRequest → Exec (World B) Job
    unfolding trigger_run validate_confirm_not_blocked
    confirm_job tenant_id job_id false request = do
      job ← quietly (ports.load tenant_id job_id)
      note (audited "job.confirm" "noop" job.status)
      pure job
    confirm_job tenant_id job_id true request = do
      validate_confirm_not_blocked tenant_id job_id request.answers
      updated ← trigger_run tenant_id job_id request
      note (audited "job.confirm" "success" updated.status)
      pure updated
