-- ===== src/Store/Conflicts.antt =====
-- Optimistic concurrency: what a client reads after a save, and what a second client's save meets.
use ss.Prelude.{suc, ◌≤◌, String, ◌≡◌, true, false, [], some, arith, ◌≢◌, ap, ◌∙◌}
use ss.Prelude.Assoc.{get}
use ss.Prelude.Text.{is_blank}
use ss.Job.Data.{Job, job_schema_version_current}
use ss.Paths.{is_safe_path_segment}
use ss.Exec.{ok, err, job_version_conflict}
use ss.Store.Payload.{Payload, Codec, of_text, int, text}
use ss.Store.Migrate.{assert_supported_schema_version, migrate_payload_to_current}
use ss.Store.Disk.{Layout, object, Disk, write_file, write_file_self, syscall}
use ss.Store.Ops.{
  Escapes, load, load_at, save, save_locked, save_at, migrate, read_job_payload, disk_version,
}
use ss.Store.Writes.{save-ok, save-err, place, place-write}

module _ {R : Type 0} (e : R) (token job_id : String) (p : Payload R) (t : String)
    (current : get "schema_version" p ≡ some (int 3)) where
  -- A payload of the current schema is its own migration.
  pub migrate-current :
      get "trace_id" p ≡ some (text t)
      → is_blank t ≡ false
      → migrate_payload_to_current e token job_id p ≡ ok (p, false)
  unfolding migrate_payload_to_current
  migrate-current traced full = ground arith

  pub assert-current : assert_supported_schema_version job_id p ≡ ok tt
  unfolding assert_supported_schema_version
  assert-current = ground arith

module _ {R : Type 0} (codec : Codec R) (escapes : Escapes) (tenant_id : String) where
  -- What `load` gives where the file holds the dump of a job with a trace id.
  pub load_at-dump :
      (job : Job) (l : Layout) (d : Disk R) (t : String)
      → d.faults ≡ []
      → d.files tenant_id job.job_id l ≡ some (object (codec.model_dump job))
      → job.schema_version ≡ job_schema_version_current
      → 1 ≤ job.version
      → is_safe_path_segment job.tenant_id ≡ true
      → job.trace_id ≡ some t
      → is_blank t ≡ false
      → (load_at codec escapes tenant_id job.job_id l d).0 ≡ ok job
  unfolding load_at read_job_payload syscall migrate
  load_at-dump job l d t quiet stored current pos safe traced full =
      let p = codec.model_dump job in
      let here : get "schema_version" p ≡ some (int 3) =
        codec.dump_schema_version job ∙ ap (λ n. some (int n)) current in
      let trace : get "trace_id" p ≡ some (text t) =
        codec.dump_trace_id job ∙ ap (λ o. some (of_text o)) traced in
      let token = codec.token_hex d.draws in
      ground (
        arith,
        assert-current codec.empty_list token job.job_id p t here,
        migrate-current codec.empty_list token job.job_id p t here trace full,
        codec.validate_dump job current pos safe,
      )

  -- What `save` answers where the file holds the dump of a job with another version.
  save_at-stale :
      (job stored : Job) (l : Layout) (d : Disk R) (t : String)
      → d.faults ≡ []
      → d.files tenant_id job.job_id l ≡ some (object (codec.model_dump stored))
      → job.schema_version ≡ job_schema_version_current
      → stored.schema_version ≡ job_schema_version_current
      → 1 ≤ stored.version
      → job.version ≢ stored.version
      → stored.trace_id ≡ some t
      → is_blank t ≡ false
      → (save_at codec escapes tenant_id job l d).0
        ≡ err (job_version_conflict job.job_id job.version stored.version)
  unfolding save_at save_locked read_job_payload syscall migrate disk_version
  save_at-stale job stored l d t quiet held mine theirs pos differ traced full =
      let p = codec.model_dump stored in
      let here : get "schema_version" p ≡ some (int 3) =
        codec.dump_schema_version stored ∙ ap (λ n. some (int n)) theirs in
      let trace : get "trace_id" p ≡ some (text t) =
        codec.dump_trace_id stored ∙ ap (λ o. some (of_text o)) traced in
      let token = codec.token_hex d.draws in
      ground (
        arith,
        assert-current codec.empty_list token job.job_id p t here,
        migrate-current codec.empty_list token job.job_id p t here trace full,
        codec.dump_version stored,
      )

  load-written :
      (job : Job) (l : Layout) (d d' : Disk R) (t : String)
      → place codec escapes tenant_id job.job_id d ≡ ok (some l)
      → d'.files ≡ write_file tenant_id job.job_id l (object (codec.model_dump job)) d.files
      → d'.faults ≡ []
      → job.schema_version ≡ job_schema_version_current
      → 1 ≤ job.version
      → is_safe_path_segment job.tenant_id ≡ true
      → job.trace_id ≡ some t
      → is_blank t ≡ false
      → (load codec escapes tenant_id job.job_id d').0 ≡ ok job
  unfolding load
  load-written job l d d' t found files quiet current pos safe traced full =
      rw (place-write codec escapes tenant_id job.job_id d d' l _ found files) (
        load_at-dump job l d' t quiet
          (ap (λ f. f tenant_id job.job_id l) files
            ∙ write_file_self tenant_id job.job_id l (object (codec.model_dump job)) d.files)
          current pos safe traced full)

  -- Once a save has returned, a load returns the job as it was saved, with its new version: the
  -- caller's version plus one.
  pub load-save :
      (job job' : Job) (d : Disk R) (t : String)
      → (save codec escapes tenant_id job d).0 ≡ ok job'
      → (save codec escapes tenant_id job d).1.faults ≡ []
      → is_safe_path_segment job.tenant_id ≡ true
      → job.trace_id ≡ some t
      → is_blank t ≡ false
      → ((load codec escapes tenant_id job.job_id (save codec escapes tenant_id job d).1).0
          ≡ ok job')
        × (job' ≡ record job { version = suc job.version })
  load-save job job' d t saved quiet safe traced full =
      let (l, found, new, files, current) = save-ok codec escapes tenant_id job d job' saved in
      (
        rw new (
            load-written (record job { version = suc job.version }) l d
              (save codec escapes tenant_id job d).1 t found (rw new at files) quiet current
              (omega arith) safe traced full),
        new,
      )

  save_written-stale :
      (late stored : Job) (l : Layout) (d d' : Disk R) (t : String)
      → place codec escapes tenant_id late.job_id d ≡ ok (some l)
      → d'.files ≡ write_file tenant_id late.job_id l (object (codec.model_dump stored)) d.files
      → d'.faults ≡ []
      → late.schema_version ≡ job_schema_version_current
      → stored.schema_version ≡ job_schema_version_current
      → 1 ≤ stored.version
      → late.version ≢ stored.version
      → stored.trace_id ≡ some t
      → is_blank t ≡ false
      → (save codec escapes tenant_id late d').0
        ≡ err (job_version_conflict late.job_id late.version stored.version)
  unfolding save
  save_written-stale late stored l d d' t found files quiet mine theirs pos differ traced full =
      rw (place-write codec escapes tenant_id late.job_id d d' l _ found files) (
        save_at-stale late stored l d' t quiet
          (ap (λ f. f tenant_id late.job_id l) files
            ∙ write_file_self tenant_id late.job_id l (object (codec.model_dump stored)) d.files)
          mine theirs pos differ traced full)

  -- Where a job with a trace id that is not blank was saved, no system call fails after that, and a
  -- late job has the same id, the current schema version and any version but the new one, the save of
  -- the late job is refused with the version conflict and leaves the files as they were.
  pub save-save-stale :
      (job job' late : Job) (d : Disk R) (t : String)
      → (save codec escapes tenant_id job d).0 ≡ ok job'
      → (save codec escapes tenant_id job d).1.faults ≡ []
      → job.trace_id ≡ some t
      → is_blank t ≡ false
      → late.job_id ≡ job.job_id
      → late.schema_version ≡ job_schema_version_current
      → late.version ≢ suc job.version
      → let d' = (save codec escapes tenant_id job d).1 in
        ((save codec escapes tenant_id late d').0
          ≡ err (job_version_conflict job.job_id late.version (suc job.version)))
        × ((save codec escapes tenant_id late d').1.files ≡ d'.files)
  save-save-stale job job' late d t saved quiet traced full same current stale =
      let (l, found, new, files, mine) = save-ok codec escapes tenant_id job d job' saved in
      let d' = (save codec escapes tenant_id job d).1 in
      let refused : (save codec escapes tenant_id late d').0
          ≡ err (job_version_conflict late.job_id late.version (suc job.version)) =
        save_written-stale late (record job { version = suc job.version }) l d d' t (rw same found)
          (rw same (rw new at files)) quiet current mine (omega arith) stale traced full in
      (
        refused ∙ ap (λ i. err (job_version_conflict i late.version (suc job.version))) same,
        save-err codec escapes tenant_id late d' _ refused,
      )
