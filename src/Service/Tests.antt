-- ===== src/Service/Tests.antt =====
-- The service on the concrete disk and codec of the store's tests.
mod Runs
use ss.Prelude.{ℕ, suc, String, ◌≡◌, refl, true, false, List, [], ◌∷◌, Option, none, some, arith}
use ss.Prelude.Text.{is_blank, strip, lstrip, rstrip, is_space, str_take}
use ss.Prelude.Assoc.{get}
use ss.Paths.{is_safe_path_segment, shard_for_job_id}
use ss.Job.Data.{draft_ready, queued, created, Job}
use ss.Job.Status.{ensure_transition}
use ss.Exec.{Outcome, ok, err, pure, raise, job_version_conflict, ◌>>=◌, ◌>>◌}
use ss.Store.Payload.{Codec}
use ss.Store.Disk.{Disk, sharded, object, write_file, syscall}
use ss.Store.Ops.{
  tenant_root_dir, resolve_sharded_job_dir, resolve_legacy_job_dir,
  resolve_job_dir_for_existing_job, read_job_payload, atomic_write_json, migrate, disk_version,
  save_locked, save_at, save, load_at, load, create,
}
use ss.Store.Migrate.{assert_supported_schema_version, migrate_payload_to_current}
use ss.Store.Tests.{codec, read_back, inside, new_job, dump, safe_tenant, trace_full}
use ss.Service.Blocking.{Draft, JsonValue, text}
use ss.Service.Formats.{normalize_output_formats}
use ss.Service.World.{RunRequest, Ports, World, scheduled, audited}
use ss.Service.Create
use ss.Service.Create.{JobIdempotency, CreateRequest, job_id_for, create_job}
use ss.Service.Ops.{queue_run, try_run, trigger_run, run_attempts, underway}
use ss.Service.Stored.{
  over_store, in_line, stored_run-underway, try_run-conflicts, create_job-twice, asked_again,
}

abbrev drafted_job : Job
drafted_job = record new_job { status = draft_ready; draft = some "{}" }

abbrev disk : Disk (Option Job)
disk = record {
  files = write_file "default" "job_ab12" sharded (object (dump drafted_job)) (λ _ _ _. none);
  temps = [];
  faults = [];
  draws = 0;
}

-- The freeze writes a plan into the job, unless it has one; nothing else fails.
abbrev others : Ports (Disk (Option Job))
others = record {
  load = load codec inside;
  save = save codec inside;
  create = create codec inside;
  schedule = λ job. pure tt;
  freeze_plan_for_run = λ tenant_id job_id request. do
    job ← load codec inside tenant_id job_id
    elim job.llm_plan [
      | none ↦ save codec inside tenant_id (record job { llm_plan = some "plan" }) >> pure tt
      | some _ ↦ pure tt
    ];
  clock = pure 9;
  new_trace_id = pure "trace";
}

abbrev request : RunRequest
request = record {
  notes = none;
  output_formats = none;
  variable_corrections = none;
  answers = none;
  default_overrides = none;
  expert_suggestions_feedback = none;
}

abbrev lower : String → String
lower s = s

abbrev run_job : Job
run_job = record drafted_job {
  version = 3;
  status = queued;
  llm_plan = some "plan";
  output_formats = some ("csv" ∷ "log" ∷ "do" ∷ []);
  scheduled_at = some 9;
}

runs :
    (trigger_run
      (over_store codec inside others)
      lower
      "default"
      "job_ab12"
      request
      (record { base = disk; log = [] })).0
    ≡ ok run_job
unfolding trigger_run run_attempts try_run queue_run normalize_output_formats ensure_transition load
    resolve_job_dir_for_existing_job resolve_sharded_job_dir tenant_root_dir is_safe_path_segment
    shard_for_job_id load_at save_at save save_locked syscall read_job_payload
    assert_supported_schema_version migrate migrate_payload_to_current disk_version
    atomic_write_json get is_blank codec read_back
runs = refl

stored_run-underway_example : underway queued ≡ true
stored_run-underway_example =
    stored_run-underway codec inside others lower "default" "job_ab12" request disk run_job runs

-- The disk after the load of the freeze, and the job that the freeze saves.
abbrev loaded_disk : Disk (Option Job)
loaded_disk = record disk { draws = 1 }

abbrev frozen : Job
frozen = record drafted_job { llm_plan = some "plan" }

abbrev start : World (Disk (Option Job))
start = record { base = disk; log = [] }

abbrev frozen_disk : Disk (Option Job)
frozen_disk = (save codec inside "default" frozen loaded_disk).1

freezes : others.freeze_plan_for_run "default" "job_ab12" request disk ≡ (ok tt, frozen_disk)
unfolding load resolve_job_dir_for_existing_job resolve_sharded_job_dir tenant_root_dir
    is_safe_path_segment shard_for_job_id load_at syscall read_job_payload
    assert_supported_schema_version migrate migrate_payload_to_current get is_blank codec read_back
    save save_at save_locked disk_version atomic_write_json
freezes = refl

freeze-saves :
    (save codec inside "default" frozen loaded_disk).0 ≡ ok (record frozen { version = 2 })
unfolding resolve_job_dir_for_existing_job resolve_sharded_job_dir tenant_root_dir
    is_safe_path_segment shard_for_job_id save_at save save_locked syscall read_job_payload
    assert_supported_schema_version migrate migrate_payload_to_current disk_version
    atomic_write_json get is_blank codec read_back
freeze-saves = refl

freeze-quiet : frozen_disk.faults ≡ []
unfolding resolve_job_dir_for_existing_job resolve_sharded_job_dir tenant_root_dir
    is_safe_path_segment shard_for_job_id save_at save save_locked syscall read_job_payload
    assert_supported_schema_version migrate migrate_payload_to_current disk_version
    atomic_write_json get is_blank codec read_back
freeze-quiet = refl

default_formats : normalize_output_formats lower none ≡ ok ("csv" ∷ "log" ∷ "do" ∷ [])
unfolding normalize_output_formats
default_formats = refl

try_run-conflicts_example :
    ((try_run
        (over_store codec inside others)
        lower
        "default"
        "job_ab12"
        request
        drafted_job
        start).0
      ≡ err (job_version_conflict "job_ab12" 1 2))
    × ((try_run
          (over_store codec inside others)
          lower
          "default"
          "job_ab12"
          request
          drafted_job
          start).1.log
        ≡ scheduled (in_line codec inside others ("csv" ∷ "log" ∷ "do" ∷ []) 9 drafted_job) ∷ [])
try_run-conflicts_example =
    try_run-conflicts codec inside others lower "default" request start drafted_job frozen
      (record frozen { version = 2 }) ("csv" ∷ "log" ∷ "do" ∷ []) 9 loaded_disk "trace"
      default_formats refl refl refl freezes freeze-saves freeze-quiet refl refl refl trace_full
      refl refl

-- A hash of sixteen digits, and requests whose requirements differ in white space.
abbrev collapse : String → String
collapse s = s

abbrev digits : String → String
digits s = "0123456789abcdef"

abbrev service : JobIdempotency
service = record { version = "v1" }

abbrev wanted : String → CreateRequest
wanted requirement = record {
  requirement = some requirement;
  inputs_fingerprint = none;
  plan_revision = none;
}

abbrev empty_disk : World (Disk (Option Job))
empty_disk = record {
  base = record { files = λ _ _ _. none; temps = []; faults = []; draws = 0 };
  log = [];
}

abbrev wanted_job : Job
wanted_job =
    Create.new_job "default" (job_id_for collapse digits service (wanted "ols")) (wanted "ols")
      "trace" 9

same_id :
    job_id_for collapse digits service (wanted "  ols")
    ≡ job_id_for collapse digits service (wanted "ols")
same_id = refl

creates : (create codec inside "default" wanted_job empty_disk.base).0 ≡ ok tt
unfolding create resolve_sharded_job_dir is_safe_path_segment str_take shard_for_job_id
    resolve_legacy_job_dir atomic_write_json syscall
creates = refl

creates-quiet : (create codec inside "default" wanted_job empty_disk.base).1.faults ≡ []
unfolding create resolve_sharded_job_dir is_safe_path_segment str_take shard_for_job_id
    resolve_legacy_job_dir atomic_write_json syscall
creates-quiet = refl

abbrev asks : CreateRequest → World (Disk (Option Job)) → Outcome Job × World (Disk (Option Job))
asks = asked_again codec inside others collapse digits service "default"

create_job-twice_example :
    ((asks (wanted "ols") empty_disk).0 ≡ ok wanted_job)
    × ((asks (wanted "  ols") (asks (wanted "ols") empty_disk).1).0 ≡ ok wanted_job)
    × ((asks (wanted "  ols") (asks (wanted "ols") empty_disk).1).1.log
        ≡ audited "job.create" "noop" created ∷ (asks (wanted "ols") empty_disk).1.log)
create_job-twice_example =
    create_job-twice codec inside others collapse digits service "default" (wanted "ols")
      (wanted "  ols") empty_disk (λ _. "trace") (λ _. 9) (λ e. refl) (λ e. refl) trace_full
      safe_tenant same_id creates creates-quiet
