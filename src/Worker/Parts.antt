-- ===== src/Worker/Parts.antt =====
-- What one attempt and the end of a job add to the log, by the kind of event.
use ss.Prelude.{ℕ, String, ◌≡◌, Bool, true, false, if◌then◌else◌, List, Option}
use ss.Job.Status.{ensure_transition}
use ss.Worker.Attempts.{attempt_started, record_attempt_finished}
use ss.Job.Data.{JobStatus, status_eq, ArtifactRef, Job, RunError, RunResult}
use ss.Exec.{Exec}
use ss.Queue.Record.{QueueClaim}
use ss.Worker.World.{Ports, Event, saved, acked, released, executed, audited, counted, logged}
use ss.Worker.Ops.{do_save, finish_job, merged, run_once, run_attempt}
use ss.Worker.Counting.{
  Adds, Adds-look, Adds-pure, Adds-quietly, Adds-logged_other, Adds-if, Adds-note_other, Adds-then,
  Adds-first,
}

-- A claim is settled when it is acknowledged or given back.
abbrev pub settles : Event → Bool
settles (acked _) = true
settles (released _) = true
settles _ = false

abbrev pub executes : Event → Bool
executes (executed _) = true
executes _ = false

module _ {B : Type 0} (ports : Ports B) (p : Event → Bool)
    (p_saved : (j : Job) → p (saved j) ≡ false)
    (p_audited : (s t : JobStatus) → p (audited s t) ≡ false)
    (p_counted : (s : JobStatus) → p (counted s) ≡ false) where
  do_save-Adds : (tenant_id : String) (job : Job) → Adds p 0 0 (do_save ports tenant_id job)
  do_save-Adds tenant_id job =
      Adds-logged_other (saved job) (ports.save tenant_id job) (p_saved job)

  pub finish_job-Adds :
      (job : Job) (status : JobStatus) (claim : QueueClaim)
      → Adds p 0 0 (finish_job ports job status claim)
  unfolding finish_job
  finish_job-Adds job status claim =
      Adds-then {A = Bool} 0 0 _ _ (Adds-look (λ _. ensure_transition job.job_id job.status status))
        λ moved.
          let done = if moved then record job { status = status } else job in
          Adds-then {A = Job} 0 0 _ _ (do_save-Adds claim.tenant_id done) λ job'.
            Adds-then 0 0 _ _ (Adds-note_other (counted status) (p_counted status)) λ _.
              Adds-if 0 0 (status_eq job.status job'.status) _ _ (Adds-pure tt)
                (Adds-note_other (audited job.status job'.status) (p_audited _ _))

  pub run_once-Adds :
      (n : ℕ) (job : Job) (run_id : String)
      → ((m : Exec B RunResult) → Adds p n n (logged (executed run_id) m))
      → Adds p n n (run_once ports job run_id)
  unfolding run_once
  run_once-Adds n job run_id run =
      Adds-first {A = RunResult} {B = RunResult} n n _ _ (run (ports.execute_plan job run_id))
        λ result.
          Adds-if 0 0 result.success _ _
            (Adds-then {A = Option RunError × List ArtifactRef} 0 0 _ _
              (Adds-quietly (ports.format_run_outputs job run_id result.artifacts))
              λ formatted. Adds-pure (merged ports result formatted))
            (Adds-pure result)

  pub run_attempt-Adds :
      (n : ℕ) (job : Job) (claim : QueueClaim) (attempt : ℕ)
      → ((i : String) (m : Exec B RunResult) → Adds p n n (logged (executed i) m))
      → Adds p n n (run_attempt ports job claim attempt)
  unfolding run_attempt
  run_attempt-Adds n job claim attempt run =
      Adds-then {A = String} {B = Job × RunResult} n n _ _ (Adds-quietly ports.new_run_id) λ run_id.
        Adds-then {A = ℕ} {B = Job × RunResult} n n _ _ (Adds-quietly ports.clock) λ now.
          Adds-then {A = Job} {B = Job × RunResult} n n _ _
            (do_save-Adds job.tenant_id (attempt_started run_id attempt now job))
            λ started.
              Adds-first {A = RunResult} {B = Job × RunResult} n n _ _
                (run_once-Adds n started run_id (run run_id))
                λ result.
                  Adds-then {A = ℕ} {B = Job × RunResult} 0 0 _ _ (Adds-quietly ports.clock)
                    λ ended_at.
                      Adds-then {A = Job} {B = Job × RunResult} 0 0 _ _
                        (Adds-look (λ _. record_attempt_finished run_id ended_at result started))
                        λ ended.
                          Adds-then {A = Job} {B = Job × RunResult} 0 0 _ _
                            (do_save-Adds claim.tenant_id ended) λ job'. Adds-pure (job', result)
