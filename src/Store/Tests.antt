-- ===== src/Store/Tests.antt =====
-- The store on a concrete disk, with a concrete codec.
use ss.Prelude.{ℕ, ◌≡◌, refl, Bool, true, false, List, [], ◌∷◌, Option, none, some, arith}
use ss.Prelude.Assoc.{get}
use ss.Prelude.Text.{is_blank}
use ss.Paths.{is_safe_path_segment, shard_for_job_id}
use ss.Job.Data.{Job, created}
use ss.Exec.{ok, err, job_version_conflict, job_store_io, job_already_exists}
use ss.Store.Payload.{Value, Payload, Codec, of_text, int, text, list, other}
use ss.Store.Migrate.{assert_supported_schema_version, migrate_payload_to_current}
use ss.Store.Disk.{broken, Disk, syscall, sharded, object, write_file}
use ss.Store.Ops.{
  Escapes, tenant_root_dir, resolve_sharded_job_dir, resolve_legacy_job_dir,
  resolve_job_dir_for_existing_job, read_job_payload, atomic_write_json, migrate, disk_version,
  save_locked, save_at, save, load, create,
}
use ss.Store.Writes.{Whole, save-Whole}
use ss.Store.Conflicts.{load-save, save-save-stale}

-- A job is dumped whole under one key, beside the keys that the store reads.
abbrev pub dump : Job → Payload (Option Job)
dump j =
    ("schema_version", int j.schema_version)
    ∷ ("version", int j.version)
    ∷ ("trace_id", of_text j.trace_id)
    ∷ ("rest", other (some j))
    ∷ []

abbrev with_version : Option (Value (Option Job)) → Job → Job
with_version (some (int n)) j = record j { version = n }
with_version _ j = j

abbrev whole : Option (Value (Option Job)) → Option Job
whole (some (other (some j))) = some j
whole _ = none

abbrev joined : Option Job → Option (Value (Option Job)) → Option Job
joined none v = none
joined (some j) v = some (with_version v j)

pub joined-version :
    (o : Option Job) (v : Option (Value (Option Job))) (j : Job) (n : ℕ)
    → joined o v ≡ some j
    → v ≡ some (int n)
    → j.version ≡ n
joined-version o v j n h e = ground arith

unfoldable pub read_back : Payload (Option Job) → Option Job
unfolding get
read_back p = joined (whole (get "rest" p)) (get "version" p)

unfoldable pub codec : Codec (Option Job)
unfolding get read_back
codec = record {
  empty_list = none;
  model_validate = read_back;
  model_dump = dump;
  token_hex = λ n. "token";
  dump_schema_version = λ j. refl;
  dump_version = λ j. refl;
  dump_trace_id = λ j. refl;
  validate_dump = λ j a b c. refl;
  validate_version = λ p. joined-version (whole (get "rest" p)) (get "version" p);
}

abbrev pub inside : Escapes
inside _ _ _ = false

abbrev pub new_job : Job
new_job = record {
  schema_version = 3;
  version = 1;
  tenant_id = "default";
  job_id = "job_ab12";
  trace_id = some "trace";
  status = created;
  requirement = some "ols";
  confirmation = none;
  created_at = 7;
  scheduled_at = none;
  inputs = none;
  draft = none;
  llm_plan = none;
  selected_template_id = none;
  output_formats = none;
  runs = [];
  artifacts_index = [];
  redeem_task_code = none;
  auth_token = none;
  auth_expires_at = none;
}

abbrev disk : List Bool → Disk (Option Job)
disk faults = record {
  files = write_file "default" "job_ab12" sharded (object (dump new_job)) (λ _ _ _. none);
  temps = [];
  faults = faults;
  draws = 0;
}

abbrev saved_job : Job
saved_job = record new_job { version = 2 }

saves : (save codec inside "default" new_job (disk [])).0 ≡ ok saved_job
unfolding save resolve_job_dir_for_existing_job resolve_sharded_job_dir tenant_root_dir
    is_safe_path_segment shard_for_job_id save_at save_locked syscall read_job_payload
    assert_supported_schema_version migrate migrate_payload_to_current disk_version
    atomic_write_json get is_blank
saves = refl

saves-quiet : (save codec inside "default" new_job (disk [])).1.faults ≡ []
unfolding save resolve_job_dir_for_existing_job resolve_sharded_job_dir tenant_root_dir
    is_safe_path_segment shard_for_job_id save_at save_locked syscall read_job_payload
    assert_supported_schema_version migrate migrate_payload_to_current disk_version
    atomic_write_json get is_blank
saves-quiet = refl

pub safe_tenant : is_safe_path_segment "default" ≡ true
unfolding is_safe_path_segment
safe_tenant = refl

pub trace_full : is_blank "trace" ≡ false
unfolding is_blank
trace_full = refl

load-save_example :
    let d = (save codec inside "default" new_job (disk [])).1 in
    ((load codec inside "default" "job_ab12" d).0 ≡ ok saved_job) × (saved_job ≡ saved_job)
load-save_example =
    load-save codec inside "default" new_job saved_job (disk []) "trace" saves saves-quiet
      safe_tenant refl trace_full

save-save-stale_example :
    let d = (save codec inside "default" new_job (disk [])).1 in
    ((save codec inside "default" new_job d).0 ≡ err (job_version_conflict "job_ab12" 1 2))
    × ((save codec inside "default" new_job d).1.files ≡ d.files)
save-save-stale_example =
    save-save-stale codec inside "default" new_job saved_job new_job (disk []) "trace" saves
      saves-quiet refl trace_full refl refl (omega arith)

-- The call that writes the text fails, and so does the removal of the temporary file.
abbrev torn : Disk (Option Job)
torn = disk (false ∷ false ∷ false ∷ false ∷ true ∷ true ∷ [])

write_fails :
    ((save codec inside "default" new_job torn).0 ≡ err (job_store_io "write" "job_ab12"))
    × ((save codec inside "default" new_job torn).1.temps ≡ broken ∷ [])
unfolding save resolve_job_dir_for_existing_job resolve_sharded_job_dir tenant_root_dir
    is_safe_path_segment shard_for_job_id save_at save_locked syscall read_job_payload
    assert_supported_schema_version migrate migrate_payload_to_current disk_version
    atomic_write_json get is_blank
write_fails = (refl, refl)

save-Whole_example :
    let (r, s) = save codec inside "default" new_job torn in
    Whole codec inside "default" new_job torn r s
save-Whole_example = save-Whole codec inside "default" new_job torn

creates_twice :
    (create codec inside "default" new_job (disk [])).0 ≡ err (job_already_exists "job_ab12")
unfolding create resolve_sharded_job_dir resolve_legacy_job_dir tenant_root_dir is_safe_path_segment
    shard_for_job_id
creates_twice = refl

-- A payload of the first schema.
abbrev old_payload : Payload (Option Job)
old_payload = ("schema_version", int 1) ∷ ("job_id", text "job_ab12") ∷ []

abbrev new_payload : Payload (Option Job)
new_payload =
    ("schema_version", int 3)
    ∷ ("job_id", text "job_ab12")
    ∷ ("runs", list none)
    ∷ ("artifacts_index", list none)
    ∷ ("version", int 1)
    ∷ ("trace_id", text "token")
    ∷ []
