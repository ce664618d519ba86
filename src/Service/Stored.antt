-- ===== src/Service/Stored.antt =====
-- The service on the job store of src/infra/job_store.py.
use ss.Prelude.{ℕ, suc, String, ◌≡◌, refl, ap, sym, true, false, List, [], ◌∷◌, none, some, arith}
use ss.Prelude.Text.{is_blank}
use ss.Job.Data.{created, draft_ready, queued, Job, job_schema_version_current}
use ss.Job.Status.{ensure_transition}
use ss.Exec.{Outcome, ok, err, job_version_conflict}
use ss.Store.Payload.{Codec}
use ss.Store.Disk.{Disk}
use ss.Store.Ops.{Escapes, load, save, create}
use ss.Store.Writes.{save-ok}
use ss.Store.Conflicts.{save-save-stale}
use ss.Store.Creates.{create-create, load-create}
use ss.Service.Formats.{normalize_output_formats}
use ss.Service.World.{RunRequest, Ports, scheduled, audited, World}
use ss.Service.Ops.{underway, queue_run, try_run, trigger_run}
use ss.Paths.{is_safe_path_segment}
use ss.Service.Create.{JobIdempotency, CreateRequest, job_id_for, new_job, create_job}
use ss.Service.Attempts.{trigger_run-underway}

module _ {R : Type 0} (codec : Codec R) (escapes : Escapes) (others : Ports (Disk R)) where
  -- The job store in the place of its protocol, beside the other components.
  abbrev pub over_store : Ports (Disk R)
  over_store = record others {
    load = load codec escapes;
    save = save codec escapes;
    create = create codec escapes;
  }

  pub save-status :
      (tenant_id : String) (d : Disk R) (job held : Job)
      → (save codec escapes tenant_id job d).0 ≡ ok held
      → held.status ≡ job.status
  save-status tenant_id d job held h =
      let (l, found, new, _, _) = save-ok codec escapes tenant_id job d held h in
      ap (λ j. j.status) new

  -- On the job store, a job that trigger_run returns, called with an empty log, is queued, running
  -- or succeeded.
  pub stored_run-underway :
      (lower : String → String) (tenant_id job_id : String) (request : RunRequest) (d : Disk R)
      (job : Job)
      → (trigger_run over_store lower tenant_id job_id request (record { base = d; log = [] })).0
        ≡ ok job
      → underway job.status ≡ true
  stored_run-underway lower tenant_id job_id request d job h =
      trigger_run-underway over_store lower tenant_id job_id request d job (save-status tenant_id) h

  -- The job that `_queue_run` hands to the scheduler.
  abbrev pub in_line : List String → ℕ → Job → Job
  in_line formats now job = record job {
    output_formats = some formats;
    status = queued;
    scheduled_at = some now;
  }

  -- Where the formats asked for are valid, the job is draft_ready and has no schedule, the freeze
  -- leaves the disk that a save of a job with the same id and version leaves, without a fault to
  -- come, and the clock and the scheduler answer and leave the disk, an attempt to run the job
  -- schedules it as queued and then raises the version conflict, with nothing but the schedule in
  -- the log.
  pub try_run-conflicts :
      (lower : String → String) (tenant_id : String) (request : RunRequest) (w : World (Disk R))
      (job frozen held : Job) (formats : List String) (now : ℕ) (d : Disk R) (t : String)
      → normalize_output_formats lower request.output_formats ≡ ok formats
      → job.status ≡ draft_ready
      → job.scheduled_at ≡ none
      → job.schema_version ≡ job_schema_version_current
      → others.freeze_plan_for_run tenant_id job.job_id request w.base
        ≡ (ok tt, (save codec escapes tenant_id frozen d).1)
      → (save codec escapes tenant_id frozen d).0 ≡ ok held
      → (save codec escapes tenant_id frozen d).1.faults ≡ []
      → frozen.job_id ≡ job.job_id
      → frozen.version ≡ job.version
      → frozen.trace_id ≡ some t
      → is_blank t ≡ false
      → (others.clock (save codec escapes tenant_id frozen d).1
          ≡ (ok now, (save codec escapes tenant_id frozen d).1))
      → (others.schedule (in_line formats now job) (save codec escapes tenant_id frozen d).1
          ≡ (ok tt, (save codec escapes tenant_id frozen d).1))
      → ((try_run over_store lower tenant_id job.job_id request job w).0
          ≡ err (job_version_conflict job.job_id job.version (suc job.version)))
        × ((try_run over_store lower tenant_id job.job_id request job w).1.log
            ≡ scheduled (in_line formats now job) ∷ w.log)
  unfolding try_run queue_run ensure_transition
  try_run-conflicts lower tenant_id request w job frozen held formats now d t fs draft new current
        freeze saved quiet same version traced full clock schedule =
      let late = in_line formats now job in
      let (stale, _) =
        save-save-stale codec escapes tenant_id frozen held late d t saved quiet traced full
          (sym same) current (omega (arith, version)) in
      rw fs (
        rw draft (
          rw freeze (rw new (rw clock (rw schedule (rw stale (rw same (rw version refl), refl)))))))

  module _ (collapse sha256 : String → String) (idempotency : JobIdempotency)
      (tenant_id : String) where
    abbrev pub asked_again : CreateRequest → World (Disk R) → Outcome Job × World (Disk R)
    asked_again = create_job collapse sha256 idempotency over_store tenant_id

    -- The job of a request, with the trace id and the time that the ports answer.
    abbrev pub job_for : CreateRequest → (Disk R → String) → (Disk R → ℕ) → World (Disk R) → Job
    job_for request tokens times w =
        new_job tenant_id (job_id_for collapse sha256 idempotency request) request (tokens w.base)
          (times w.base)

    -- Where a request has created its job in the job store without a fault to come, a request with
    -- the same job id returns that same job, and adds nothing to the log but the audit of a no-op,
    -- if the token for its trace is not blank, the tenant's id is a safe segment, and the clock
    -- and the source of tokens answer and leave the disk.
    pub create_job-twice :
        (request again : CreateRequest) (w : World (Disk R)) (tokens : Disk R → String)
        (times : Disk R → ℕ)
        → ((e : Disk R) → others.new_trace_id e ≡ (ok (tokens e), e))
        → ((e : Disk R) → others.clock e ≡ (ok (times e), e))
        → is_blank (tokens w.base) ≡ false
        → is_safe_path_segment tenant_id ≡ true
        → job_id_for collapse sha256 idempotency again
          ≡ job_id_for collapse sha256 idempotency request
        → (create codec escapes tenant_id (job_for request tokens times w) w.base).0 ≡ ok tt
        → (create codec escapes tenant_id (job_for request tokens times w) w.base).1.faults ≡ []
        → ((asked_again request w).0 ≡ ok (job_for request tokens times w))
          × ((asked_again again (asked_again request w).1).0 ≡ ok (job_for request tokens times w))
          × ((asked_again again (asked_again request w).1).1.log
              ≡ audited "job.create" "noop" created ∷ (asked_again request w).1.log)
    unfolding create_job
    create_job-twice request again w tokens times trace clock full safe same created_ok quiet =
        let id = job_id_for collapse sha256 idempotency request in
        let job = job_for request tokens times w in
        let d' = (create codec escapes tenant_id job w.base).1 in
        let refused =
          create-create codec escapes tenant_id job
            (new_job tenant_id id again (tokens d') (times d')) w.base created_ok refl in
        let loaded =
          load-create codec escapes tenant_id job w.base (tokens w.base) created_ok quiet refl
            (omega arith) safe refl full in
        (
          rw (trace w.base) (rw (clock w.base) (rw safe (rw created_ok refl))),
          rw (trace w.base) (
              rw (clock w.base) (
                rw safe (
                  rw created_ok
                    (rw same (rw (trace d') (rw (clock d') (rw refused (rw loaded refl)))))))),
          rw (trace w.base) (
              rw (clock w.base) (
                rw safe (
                  rw created_ok
                    (rw same (rw (trace d') (rw (clock d') (rw refused (rw loaded refl)))))))),
        )
