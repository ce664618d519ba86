-- ===== src/Store/Creates.antt =====
-- Creation once: what a create leaves, and what a second one for the same job meets.
use ss.Prelude.{String, ◌≡◌, refl, ◌≤◌, true, false, [], some, arith, eq_refl, ap, ◌∙◌}
use ss.Prelude.Text.{is_blank}
use ss.Job.Data.{Job, job_schema_version_current}
use ss.Paths.{is_safe_path_segment}
use ss.Exec.{ok, err, look, bind-ok, job_already_exists, job_store_io}
use ss.Store.Payload.{Codec}
use ss.Store.Disk.{Disk, sharded, object, write_file, write_file_self, exists, Layout}
use ss.Store.Ops.{
  Escapes, create, load, resolve_job_dir_for_existing_job, resolve_sharded_job_dir,
  resolve_legacy_job_dir,
}
use ss.Store.Atomic.{atomic_write_json-ok}
use ss.Store.Writes.{place}
use ss.Store.Conflicts.{load_at-dump}

module _ {R : Type 0} (codec : Codec R) (escapes : Escapes) (tenant_id : String) where
  -- The file of the new job stands in the sharded directory.
  create-ok :
      (job : Job) (d : Disk R)
      → (create codec escapes tenant_id job d).0 ≡ ok tt
      → (place codec escapes tenant_id job.job_id (create codec escapes tenant_id job d).1
          ≡ ok (some sharded))
        × ((create codec escapes tenant_id job d).1.files
            ≡ write_file tenant_id job.job_id sharded (object (codec.model_dump job)) d.files)
  unfolding create resolve_job_dir_for_existing_job resolve_sharded_job_dir resolve_legacy_job_dir
  create-ok job d h =
      let written =
        atomic_write_json-ok tenant_id job.job_id sharded (codec.model_dump job)
          (job_store_io "create" job.job_id) d in
      ground (arith, written, eq_refl tenant_id, eq_refl job.job_id)

  sharded_only :
      (job_id : String) (l : Layout)
      → resolve_sharded_job_dir escapes tenant_id job_id ≡ ok l
      → l ≡ sharded
  unfolding resolve_sharded_job_dir
  sharded_only job_id l h = ground arith

  create-present :
      (job : Job) (d : Disk R) (l : Layout)
      → resolve_sharded_job_dir escapes tenant_id job.job_id ≡ ok sharded
      → resolve_legacy_job_dir escapes tenant_id job.job_id ≡ ok l
      → exists tenant_id job.job_id sharded d ≡ true
      → create codec escapes tenant_id job d ≡ (err (job_already_exists job.job_id), d)
  unfolding create
  create-present job d l e k there = rw e (rw k (rw there refl))

  -- After a create that returned, a create of a job with the same id is refused and leaves the disk as
  -- it was.
  pub create-create :
      (job again : Job) (d : Disk R)
      → (create codec escapes tenant_id job d).0 ≡ ok tt
      → again.job_id ≡ job.job_id
      → create codec escapes tenant_id again (create codec escapes tenant_id job d).1
        ≡ (err (job_already_exists job.job_id), (create codec escapes tenant_id job d).1)
  unfolding create
  create-create job again d h same =
      let (s, e, rest, _) =
        bind-ok (look (λ d. resolve_sharded_job_dir escapes tenant_id job.job_id)) _ d h in
      let (l, k, _, _) =
        bind-ok (look (λ d. resolve_legacy_job_dir escapes tenant_id job.job_id)) _ d rest in
      let (_, files) = create-ok job d h in
      let d' = (create codec escapes tenant_id job d).1 in
      let there : d'.files tenant_id job.job_id sharded ≡ some (object (codec.model_dump job)) =
        ap (λ f. f tenant_id job.job_id sharded) files
        ∙ write_file_self tenant_id job.job_id sharded (object (codec.model_dump job)) d.files in
      create-present again d' l (rw same (e ∙ ap ok (sharded_only job.job_id s e))) (rw same k)
        (rw same (rw (there, exists) refl))
      ∙ ap (λ i. (err (job_already_exists i), d')) same

  -- After a create that returned, a load returns the job that was created.
  pub load-create :
      (job : Job) (d : Disk R) (t : String)
      → (create codec escapes tenant_id job d).0 ≡ ok tt
      → (create codec escapes tenant_id job d).1.faults ≡ []
      → job.schema_version ≡ job_schema_version_current
      → 1 ≤ job.version
      → is_safe_path_segment job.tenant_id ≡ true
      → job.trace_id ≡ some t
      → is_blank t ≡ false
      → (load codec escapes tenant_id job.job_id (create codec escapes tenant_id job d).1).0
        ≡ ok job
  unfolding load
  load-create job d t h quiet current pos safe traced full =
      let (found, files) = create-ok job d h in
      let d' = (create codec escapes tenant_id job d).1 in
      rw found (
        load_at-dump codec escapes tenant_id job sharded d' t quiet
          (ap (λ f. f tenant_id job.job_id sharded) files
            ∙ write_file_self tenant_id job.job_id sharded (object (codec.model_dump job)) d.files)
          current pos safe traced full)
