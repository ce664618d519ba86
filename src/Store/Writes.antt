-- ===== src/Store/Writes.antt =====
-- The disk before and after a save of src/infra/job_store.py.
use ss.Prelude.{nat_eq, not, inl, suc, String, ◌≡◌, refl, Option, none, some, arith, eq_refl}
use ss.Job.Data.{Job, job_schema_version_current}
use ss.Exec.{Error, job_store_io, Outcome, ok, err}
use ss.Store.Payload.{Payload, Codec}
use ss.Store.Disk.{Layout, sharded, FileText, object, Disk, write_file}
use ss.Exec.Triple.{
  Triple-weaken, Post, Triple, Triple-bind, Triple-look, Triple-pure, Triple-raise, Triple-if,
}
use ss.Store.Migrate.{assert_supported_schema_version}
use ss.Store.Atomic.{Untouched, Unharmed, Written, syscall-Triple, atomic_write_json-Triple}
use ss.Store.Ops.{
  Escapes, resolve_job_dir_for_existing_job, read_job_payload, migrate, disk_version, save_locked,
  save_at, save,
}

abbrev layout_of : Outcome (Option Layout) → Layout
layout_of (ok (some l)) = l
layout_of _ = sharded

module _ {R : Type 0} (codec : Codec R) (escapes : Escapes) (tenant_id : String) where
  -- What a save leaves where it returns: the new version of the job in its file.
  abbrev pub Saved : Job → Layout → Disk R → Job → Disk R → Type 0
  Saved job l d job' s =
      (job' ≡ record job { version = suc job.version })
      × Written tenant_id job.job_id l (codec.model_dump job') d s

  module _ (d : Disk R) where
    read_job_payload-Triple :
        (job_id : String) (l : Layout)
        → Triple
            (Untouched d)
            (read_job_payload codec escapes tenant_id job_id l)
            (λ _. Untouched d)
            (Unharmed d)
    unfolding read_job_payload
    read_job_payload-Triple job_id l =
        Triple-bind _ _ (syscall-Triple d (job_store_io "read" job_id))
          λ _. record { at = λ s h. ground arith }

    migrate-Triple :
        (job_id : String) (p : Payload R)
        → Triple (Untouched d) (migrate codec escapes job_id p) (λ _. Untouched d) (Unharmed d)
    unfolding migrate
    migrate-Triple job_id p = record { at = λ s h. ground arith }

    intact : (s : Disk R) → Untouched d s → Unharmed d s
    intact s (f, t, _) = (f, inl t)

    save_locked-Triple :
        (job : Job) (l : Layout)
        → Triple
            (Untouched d)
            (save_locked codec escapes tenant_id job l)
            (Saved job l d)
            (Unharmed d)
    unfolding save_locked
    save_locked-Triple job l = Triple-bind _ _ (read_job_payload-Triple job.job_id l) λ payload.
        Triple-look (assert_supported_schema_version job.job_id payload) _ intact λ _ _.
          Triple-bind _ _ (migrate-Triple job.job_id payload) λ current.
            Triple-look (disk_version codec escapes job.job_id current.0) _ intact λ version v.
              Triple-if (not (nat_eq job.version version)) _ _ (λ _. Triple-raise _ intact)
                λ same.
                  Triple-bind _ _ (atomic_write_json-Triple tenant_id job.job_id l _ _ d)
                    λ _. Triple-pure _ λ s h. (ground arith, h)

    save_at-Triple :
        (job : Job) (l : Layout)
        → Triple
            (Untouched d)
            (save_at codec escapes tenant_id job l)
            (λ job' s. (job.schema_version ≡ job_schema_version_current) × Saved job l d job' s)
            (Unharmed d)
    unfolding save_at
    save_at-Triple job l =
        Triple-if (not (nat_eq job.schema_version job_schema_version_current)) _ _
          (λ _. Triple-raise _ intact)
          λ current.
            Triple-bind _ _ (syscall-Triple d (job_store_io "write" job.job_id)) λ _.
              Triple-weaken _ (save_locked-Triple job l) (λ _ _ q. (ground arith, q)) (λ _ h. h)

  -- Where `save` looks for the job.
  abbrev pub place : String → Disk R → Outcome (Option Layout)
  place = resolve_job_dir_for_existing_job codec escapes tenant_id

  -- What a save leaves, whichever system call of it fails.
  abbrev pub Whole : Job → Disk R → Outcome Job → Disk R → Type 0
  Whole job d (ok job') s =
      (l : Layout) × (place job.job_id d ≡ ok (some l))
      × (job.schema_version ≡ job_schema_version_current)
      × Saved job l d job' s
  Whole job d (err e) s = Unharmed d s

  -- Whichever of its system calls fail, a save either returns, and then the file of the job, found
  -- where save looks for it, holds the dump of the job with the version raised by one, every other
  -- file is as before and no temporary file is left; or it raises, and then the files of all jobs
  -- are as before, and no temporary file is left beside them, or just one, where at least two
  -- system calls failed.
  pub save-Whole :
      (job : Job) (d : Disk R)
      → Whole job d (save codec escapes tenant_id job d).0 (save codec escapes tenant_id job d).1
  unfolding save
  save-Whole job d = go (place job.job_id d) refl
    where
      at :
          (l : Layout)
          → place job.job_id d ≡ ok (some l)
          → (r : Outcome Job) (s : Disk R)
          → Post
              (λ job' s. (job.schema_version ≡ job_schema_version_current) × Saved job l d job' s)
              (Unharmed d)
              r
              s
          → Whole job d r s
      at l e (ok job') s h = (l, e, h.0, h.1)
      at l e (err x) s h = h

      go :
          (o : Outcome (Option Layout))
          → place job.job_id d ≡ o
          → Whole job d
              (save codec escapes tenant_id job d).0
              (save codec escapes tenant_id job d).1
      go (ok (some l)) e = rw e (
          at l e (save_at codec escapes tenant_id job l d).0
            (save_at codec escapes tenant_id job l d).1
            ((save_at-Triple d job l).at d (refl, refl, omega arith)))
      go (ok none) e = rw e (refl, inl refl)
      go (err x) e = rw e (refl, inl refl)

  pub save-ok :
      (job : Job) (d : Disk R) (job' : Job)
      → (save codec escapes tenant_id job d).0 ≡ ok job'
      → (l : Layout) × (place job.job_id d ≡ ok (some l))
        × (job' ≡ record job { version = suc job.version })
        × ((save codec escapes tenant_id job d).1.files
            ≡ write_file tenant_id job.job_id l (object (codec.model_dump job')) d.files)
        × (job.schema_version ≡ job_schema_version_current)
  save-ok job d job' h =
      let w : Whole job d (ok job') (save codec escapes tenant_id job d).1 =
        rw h at (save-Whole job d) in
      let (l, found, current, (new, (files, _))) = w in (l, found, new, files, current)

  -- A save that raises leaves every job's file as it was.
  pub save-err :
      (job : Job) (d : Disk R) (e : Error)
      → (save codec escapes tenant_id job d).0 ≡ err e
      → (save codec escapes tenant_id job d).1.files ≡ d.files
  save-err job d e h =
      let w : Whole job d (err e) (save codec escapes tenant_id job d).1 =
        rw h at (save-Whole job d) in
      w.0

  -- A write at the place of a job leaves its place.
  pub place-write :
      (job_id : String) (d d' : Disk R) (l : Layout) (t : FileText R)
      → place job_id d ≡ ok (some l)
      → d'.files ≡ write_file tenant_id job_id l t d.files
      → place job_id d' ≡ ok (some l)
  unfolding resolve_job_dir_for_existing_job
  place-write job_id d d' l t h w = rw w (ground (arith, eq_refl job_id, eq_refl tenant_id))
