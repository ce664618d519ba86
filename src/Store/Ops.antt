-- ===== src/Store/Ops.antt =====
-- The methods of `JobStore` in src/infra/job_store.py. A method of the class is an action on the
-- disk; the warnings that it logs are left out. `escapes` is the check of a resolved path against its
-- base, which depends on the symbolic links of the file system.
use ss.Prelude.{
  ℕ, suc, ◌+◌, String, Bool, List, [], ◌∷◌, ◌||◌, not, Option, none, some, ◌==◌, if◌then◌else◌,
  nat_eq, leb,
}
use ss.Prelude.Assoc.{get}
use ss.Job.Data.{Job, job_schema_version_current}
use ss.Paths.{default_tenant_id, is_safe_tenant_id, is_safe_path_segment, shard_for_job_id}
use ss.Exec.{
  Error, job_not_found, job_already_exists, job_data_corrupted, job_id_unsafe, job_store_io,
  job_version_conflict, tenant_id_unsafe, Outcome, ok, err, and_then, Exec, pure, raise, gets, look,
  modify, ◌>>=◌, ◌>>◌,
}
use ss.Store.Payload.{Payload, Codec, int}
use ss.Store.Migrate.{assert_supported_schema_version, migrate_payload_to_current}
use ss.Store.Disk.{
  Layout, sharded, legacy, FileText, object, not_object, broken, Files, Disk, exists, write_file,
  syscall,
}

abbrev pub Escapes : Type 0
Escapes = String → String → Layout → Bool

-- `_tenant_root_dir`, with `tenant_jobs_dir`: whether the tenant has a root.
unfoldable pub tenant_root_dir : String → Outcome (Unit {0})
tenant_root_dir tenant_id =
    if tenant_id == default_tenant_id || is_safe_tenant_id tenant_id
    then ok tt
    else err (tenant_id_unsafe tenant_id)

module _ (escapes : Escapes) (tenant_id job_id : String) where
  unfoldable pub resolve_sharded_job_dir : Outcome Layout
  unfolding tenant_root_dir
  resolve_sharded_job_dir =
      if not (is_safe_path_segment job_id)
      then err (job_id_unsafe job_id)
      else if not (is_safe_path_segment (shard_for_job_id job_id))
      then err (job_id_unsafe job_id)
      else and_then (tenant_root_dir tenant_id)
          λ _. if escapes tenant_id job_id sharded then err (job_id_unsafe job_id) else ok sharded

  unfoldable pub resolve_legacy_job_dir : Outcome Layout
  unfolding tenant_root_dir
  resolve_legacy_job_dir =
      if not (is_safe_path_segment job_id)
      then err (job_id_unsafe job_id)
      else and_then (tenant_root_dir tenant_id)
          λ _. if escapes tenant_id job_id legacy then err (job_id_unsafe job_id) else ok legacy

-- src/infra/atomic_write.py, on the disk of the store.
module _ {R : Type 0} where
  abbrev pub drop_temp : List (FileText R) → List (FileText R)
  drop_temp [] = []
  drop_temp (t ∷ ts) = ts

  -- `tempfile.NamedTemporaryFile`: an empty file, which is no JSON.
  abbrev pub open_temp : Error → Exec (Disk R) (Unit {0})
  open_temp e = syscall e >> modify (λ d. record d { temps = broken ∷ d.temps })

  -- `f.write` and `f.flush`: one that fails leaves a part of the text.
  abbrev pub write_temp : Error → Payload R → Exec (Disk R) (Unit {0})
  write_temp e p =
      syscall e >> syscall e >> modify (λ d. record d { temps = object p ∷ drop_temp d.temps })

  abbrev moved : String → String → Layout → List (FileText R) → Files R → Files R
  moved tenant_id job_id l [] files = files
  moved tenant_id job_id l (t ∷ ts) files = write_file tenant_id job_id l t files

  -- `os.replace`: the file is now what the temporary file holds, which is gone.
  abbrev pub replace : Error → String → String → Layout → Exec (Disk R) (Unit {0})
  replace e tenant_id job_id l =
      syscall e
      >> modify (λ d. record d {
        files = moved tenant_id job_id l d.temps d.files;
        temps = drop_temp d.temps;
      })

  -- `tmp.unlink`, whose own `OSError` is caught: the temporary file is then left.
  abbrev pub unlink_temp : Error → Disk R → Disk R
  unlink_temp e d =
      let (r, d') = syscall e d in
      elim r [ ok _ ↦ record d' { temps = drop_temp d'.temps } | err _ ↦ d' ]

  -- `except OSError`: the temporary file is removed, and the error raised again.
  abbrev pub cleaned : Error → Outcome (Unit {0}) × Disk R → Outcome (Unit {0}) × Disk R
  cleaned e (ok u, d) = (ok u, d)
  cleaned e (err x, d) = (err x, unlink_temp e d)

  -- The directory is made, the text is written to a temporary file and synced, and the temporary file
  -- takes the place of the file.
  unfoldable pub atomic_write_json :
      Error → String → String → Layout → Payload R → Exec (Disk R) (Unit {0})
  atomic_write_json e tenant_id job_id l p = do
    syscall e
    open_temp e
    λ d. cleaned e ((write_temp e p >> syscall e >> replace e tenant_id job_id l) d)

module _ {R : Type 0} (codec : Codec R) (escapes : Escapes) where
  unfoldable pub resolve_job_dir_for_existing_job :
      String → String → Disk R → Outcome (Option Layout)
  resolve_job_dir_for_existing_job tenant_id job_id d =
      and_then (resolve_sharded_job_dir escapes tenant_id job_id) λ s.
        if exists tenant_id job_id s d
        then ok (some s)
        else and_then (resolve_legacy_job_dir escapes tenant_id job_id)
            λ l. if exists tenant_id job_id l d then ok (some l) else ok none

  abbrev parse : String → Option (FileText R) → Outcome (Payload R)
  parse job_id (some (object p)) = ok p
  parse job_id (some not_object) = err (job_data_corrupted job_id)
  parse job_id (some broken) = err (job_data_corrupted job_id)
  parse job_id none = err (job_store_io "read" job_id)

  -- A file that is not there is an `OSError` too.
  unfoldable pub read_job_payload : String → String → Layout → Exec (Disk R) (Payload R)
  read_job_payload tenant_id job_id l = do
    syscall (job_store_io "read" job_id)
    look (λ d. parse job_id (d.files tenant_id job_id l))

  -- A random token for a trace id, drawn whether or not the migration needs it.
  unfoldable pub migrate : String → Payload R → Exec (Disk R) (Payload R × Bool)
  migrate job_id payload d = (
    migrate_payload_to_current codec.empty_list (codec.token_hex d.draws) job_id payload,
    record d { draws = suc d.draws },
  )

  unfoldable pub create : String → Job → Exec (Disk R) (Unit {0})
  create tenant_id job = do
    s ← look (λ d. resolve_sharded_job_dir escapes tenant_id job.job_id)
    l ← look (λ d. resolve_legacy_job_dir escapes tenant_id job.job_id)
    present ← gets (λ d. exists tenant_id job.job_id s d || exists tenant_id job.job_id l d)
    if present
        then raise (job_already_exists job.job_id)
        else if not (nat_eq job.schema_version job_schema_version_current)
        then raise (job_data_corrupted job.job_id)
        else atomic_write_json (job_store_io "create" job.job_id) tenant_id job.job_id s
            (codec.model_dump job)

  abbrev validated : String → Option Job → Outcome Job
  validated job_id none = err (job_data_corrupted job_id)
  validated job_id (some job) = ok job

  -- The rest of `load` where the file of the job was found.
  unfoldable pub load_at : String → String → Layout → Exec (Disk R) Job
  load_at tenant_id job_id l = do
    payload ← read_job_payload tenant_id job_id l
    look (λ d. assert_supported_schema_version job_id payload)
    (migrated, fresh) ← migrate job_id payload
    job ← look (λ d. validated job_id (codec.model_validate migrated))
    if fresh
        then (do
          atomic_write_json (job_store_io "migrate_write" job_id) tenant_id job_id l migrated
          pure job)
        else pure job

  unfoldable pub load : String → String → Exec (Disk R) Job
  load tenant_id job_id = do
    found ← look (resolve_job_dir_for_existing_job tenant_id job_id)
    elim found [ none ↦ raise (job_not_found job_id) | some l ↦ load_at tenant_id job_id l ]

  -- `current.get("version", 1)`, which has to be an integer from 1.
  unfoldable pub disk_version : String → Payload R → Outcome ℕ
  disk_version job_id current = elim (get "version" current) [
    | none ↦ ok 1
    | some (int n) ↦ if leb 1 n then ok n else err (job_data_corrupted job_id)
    | some _ ↦ err (job_data_corrupted job_id)
  ]

  -- The body of `save` under the lock.
  unfoldable pub save_locked : String → Job → Layout → Exec (Disk R) Job
  save_locked tenant_id job l = do
    payload ← read_job_payload tenant_id job.job_id l
    look (λ d. assert_supported_schema_version job.job_id payload)
    (current, _) ← migrate job.job_id payload
    version ← look (λ d. disk_version job.job_id current)
    if not (nat_eq job.version version)
        then raise (job_version_conflict job.job_id job.version version)
        else (do
          let to_write = record job { version = version + 1 }
          atomic_write_json (job_store_io "write" job.job_id) tenant_id job.job_id l
              (codec.model_dump to_write)
          pure to_write)

  -- The rest of `save` where the file of the job was found.
  unfoldable pub save_at : String → Job → Layout → Exec (Disk R) Job
  save_at tenant_id job l =
      if not (nat_eq job.schema_version job_schema_version_current)
      then raise (job_data_corrupted job.job_id)
      else (do syscall (job_store_io "write" job.job_id); save_locked tenant_id job l)

  -- `save` sets `job.version` on the caller's object: the action returns the object.
  unfoldable pub save : String → Job → Exec (Disk R) Job
  save tenant_id job = do
    found ← look (resolve_job_dir_for_existing_job tenant_id job.job_id)
    elim found [ none ↦ raise (job_not_found job.job_id) | some l ↦ save_at tenant_id job l ]

  unfoldable pub write_draft : String → String → String → Exec (Disk R) Job
  write_draft tenant_id job_id draft = do
    job ← load tenant_id job_id
    save tenant_id (record job { draft = some draft })
