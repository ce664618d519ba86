-- ===== src/Service/Create.antt =====
-- `JobService.create_job` in src/domain/job_service.py, with src/domain/idempotency.py. `collapse` is
-- `re.sub(r"\s+", " ", _)`, and `sha256` the hash of the UTF-8 text as hexadecimal digits. A revision of a
-- plan stands as its text.
use ss.Prelude.{if◌then◌else◌, ℕ, String, [], Option, none, some, str_append}
use ss.Prelude.Text.{strip, str_take}
use ss.Job.Data.{created, Job, job_schema_version_current}
use ss.Paths.{is_safe_path_segment}
use ss.Exec.{value_error, job_already_exists, Outcome, ok, err, Exec, pure, raise, ◌>>=◌, ◌>>◌}
use ss.Service.World.{Ports, stored, audited, World, quietly, logged, note}

pub record JobIdempotency : Type 0 where
  pub version : String

-- What identifies a job that is asked for.
pub record CreateRequest : Type 0 where
  pub requirement : Option String
  pub inputs_fingerprint : Option String
  pub plan_revision : Option String

abbrev or_empty : Option String → String
or_empty none = ""
or_empty (some s) = s

-- The arguments of the model's constructor. `created_at` stands as a number, and `version` is the
-- default of the model.
abbrev pub new_job : String → String → CreateRequest → String → ℕ → Job
new_job tenant_id job_id request trace_id now = record {
  schema_version = job_schema_version_current;
  version = 1;
  tenant_id = tenant_id;
  job_id = job_id;
  trace_id = some trace_id;
  status = created;
  requirement = request.requirement;
  confirmation = none;
  created_at = now;
  scheduled_at = none;
  inputs = elim request.inputs_fingerprint [
    | none ↦ none
    | some f ↦ some (record { manifest_rel_path = none; fingerprint = some f })
  ];
  draft = none;
  llm_plan = none;
  selected_template_id = none;
  output_formats = none;
  runs = [];
  artifacts_index = [];
  redeem_task_code = none;
  auth_token = none;
  auth_expires_at = none;
}

module _ (collapse sha256 : String → String) (idempotency : JobIdempotency) where
  abbrev pub normalize_whitespace : String → String
  normalize_whitespace value = collapse (strip value)

  abbrev pub canonical : CreateRequest → String
  canonical request = str_append idempotency.version (
      str_append "|fingerprint=" (
        str_append (or_empty request.inputs_fingerprint) (
          str_append "|requirement=" (
            str_append (normalize_whitespace (or_empty request.requirement))
              (str_append "|plan_revision=" (or_empty request.plan_revision))))))

  abbrev pub compute_key : CreateRequest → String
  compute_key request = sha256 (canonical request)

  abbrev pub derive_job_id : String → String
  derive_job_id idempotency_key = str_append "job_" (str_take 16 idempotency_key)

  abbrev pub job_id_for : CreateRequest → String
  job_id_for request = derive_job_id (compute_key request)

  module _ {B : Type 0} (ports : Ports B) where
    -- The validator of the model's tenant id raises a ValidationError, which is a ValueError.
    abbrev pub build_job : String → String → CreateRequest → Exec (World B) Job
    build_job tenant_id job_id request = do
      trace_id ← quietly ports.new_trace_id
      now ← quietly ports.clock
      if is_safe_path_segment tenant_id
          then pure (new_job tenant_id job_id request trace_id now)
          else raise (value_error "tenant_id must be a safe path segment")

    abbrev pub load_existing_for_create : String → String → Exec (World B) Job
    load_existing_for_create tenant_id job_id = do
      existing ← quietly (ports.load tenant_id job_id)
      note (audited "job.create" "noop" existing.status)
      pure existing

    -- What follows `self._store.create`, by its outcome.
    abbrev pub after_create : String → String → Job → Outcome (Unit {0}) → Exec (World B) Job
    after_create tenant_id job_id job (ok _) = do
      note (audited "job.create" "success" job.status)
      pure job
    after_create tenant_id job_id job (err (job_already_exists _)) =
        load_existing_for_create tenant_id job_id
    after_create tenant_id job_id job (err e) = raise e

    unfoldable pub create_job : String → CreateRequest → Exec (World B) Job
    create_job tenant_id request = do
      let job_id = job_id_for request
      job ← build_job tenant_id job_id request
      λ w.
          let (r, w') = logged (stored job) (ports.create tenant_id job) w in
          after_create tenant_id job_id job r w'
