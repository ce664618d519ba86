-- ===== src/TaskCode/Redeem.antt =====
-- src/domain/task_code_redeem_service.py, on ports for the job store and the store of the codes. The
-- hash of a code is the parameter `sha256`, as hexadecimal digits. An instant is a number of seconds.
use ss.Prelude.{
  ℕ, ◌+◌, String, Bool, true, false, [], Option, none, some, str_append, ◌==◌, if◌then◌else◌,
}
use ss.Prelude.Text.{strip, str_take, is_blank}
use ss.Job.Data.{created, Job, job_schema_version_current}
use ss.Exec.{
  job_not_found, job_already_exists, task_code_invalid, task_code_expired, task_code_revoked,
  task_code_redeem_conflict, Outcome, ok, err, Exec, pure, raise, look, ◌>>=◌, ◌>>◌,
}
use ss.TaskCode.Record.{TaskCodeRecord, expired, revoked, status}

-- `find_by_code` finds nothing where the service has no store of codes.
pub record Ports (B : Type 0) : Type 0 where
  pub load : String → String → Exec B Job
  pub save : String → Job → Exec B Job
  pub create : String → Job → Exec B (Unit {0})
  pub find_by_code : String → String → Exec B (Option TaskCodeRecord)
  pub mark_used : String → String → ℕ → Exec B TaskCodeRecord
  pub now : Exec B ℕ
  pub token_hex : Exec B String

pub record TaskCodeRedeemResult : Type 0 where
  pub job_id : String
  pub token : String
  pub expires_at : ℕ
  pub is_idempotent : Bool

-- Seven days.
abbrev pub token_ttl : ℕ
token_ttl = 604800

abbrev pub expires_at : ℕ → ℕ
expires_at now = now + token_ttl

abbrev pub new_job : String → String → String → String → ℕ → Job
new_job tenant_id job_id requirement trace_id now = record {
  schema_version = job_schema_version_current;
  version = 1;
  tenant_id = tenant_id;
  job_id = job_id;
  trace_id = some trace_id;
  status = created;
  requirement = if is_blank requirement then none else some requirement;
  confirmation = none;
  created_at = now;
  scheduled_at = none;
  inputs = none;
  draft = none;
  llm_plan = none;
  selected_template_id = none;
  output_formats = none;
  runs = [];
  artifacts_index = [];
  redeem_task_code = none;
  auth_token = none;
  auth_expires_at = none;
}

abbrev pub assert_token_present : Option String → Outcome (Unit {0})
assert_token_present none = err task_code_redeem_conflict
assert_token_present (some token) = if is_blank token then err task_code_redeem_conflict else ok tt

abbrev pub assert_task_code_matches : Option String → String → Outcome (Unit {0})
assert_task_code_matches none task_code = err task_code_redeem_conflict
assert_task_code_matches (some stored) task_code =
    if stored == task_code then ok tt else err task_code_redeem_conflict

-- `_validate_task_code_record_or_raise`
abbrev pub validate_record : (String → Option ℕ) → Option TaskCodeRecord → ℕ → Outcome (Unit {0})
validate_record instant none now = ok tt
validate_record instant (some code) now = elim (status instant code now) [
  | revoked ↦ err task_code_revoked
  | expired ↦ err task_code_expired
  | _ ↦ ok tt
]

-- `str(job.auth_token)`
abbrev pub token_text : Option String → String
token_text none = "None"
token_text (some token) = token

module _ (sha256 : String → String) where
  abbrev pub derive_job_id : String → String
  derive_job_id task_code = str_append "job_tc_" (str_take 16 (sha256 task_code))

  abbrev pub new_token : String → String → String
  new_token job_id secret = str_append "ssv1." (str_append job_id (str_append "." secret))

  -- The new job, with the fields that are set on it.
  abbrev pub code_job : String → String → String → String → String → ℕ → Job
  code_job tenant_id task_code requirement trace_id secret now =
      record (new_job tenant_id (derive_job_id task_code) requirement trace_id now) {
        redeem_task_code = some task_code;
        auth_token = some (new_token (derive_job_id task_code) secret);
        auth_expires_at = some (expires_at now);
      }

  module _ {B : Type 0} (ports : Ports B) (instant : String → Option ℕ) (tenant_id : String) where
    -- A job that is there, for the code and with a token.
    abbrev pub redeemed : String → Job → Exec B (Job × Bool)
    redeemed task_code job = do
      look (λ _. assert_task_code_matches job.redeem_task_code task_code)
      look (λ _. assert_token_present job.auth_token)
      pure (job, true)

    -- The inner `try`.
    abbrev pub after_create : String → Job → Outcome (Unit {0}) → Exec B (Job × Bool)
    after_create task_code job (ok _) = pure (job, false)
    after_create task_code job (err (job_already_exists _)) = do
      existing ← ports.load tenant_id (derive_job_id task_code)
      redeemed task_code existing
    after_create task_code job (err e) = raise e

    abbrev pub after_load : String → String → ℕ → Outcome Job → Exec B (Job × Bool)
    after_load task_code requirement now (ok job) = redeemed task_code job
    after_load task_code requirement now (err (job_not_found _)) = do
      trace_id ← ports.token_hex
      secret ← ports.token_hex
      let job = code_job tenant_id task_code requirement trace_id secret now
      λ b. let (r, b') = ports.create tenant_id job b in after_create task_code job r b'
    after_load task_code requirement now (err e) = raise e

    unfoldable pub load_or_create_job : String → String → ℕ → Exec B (Job × Bool)
    load_or_create_job task_code requirement now b =
        let (r, b') = ports.load tenant_id (derive_job_id task_code) b in
        after_load task_code requirement now r b'

    abbrev pub marked : Option TaskCodeRecord → String → ℕ → Exec B (Unit {0})
    marked none job_id now = pure tt
    marked (some code) job_id now = ports.mark_used code.code_id job_id now >> pure tt

    abbrev pub extended : Job → Bool → ℕ → Exec B Job
    extended job false now = pure job
    extended job true now =
        ports.save tenant_id (record job { auth_expires_at = some (expires_at now) })

    -- The rest of `redeem`, on the stripped code.
    unfoldable pub redeem_code : String → String → Exec B TaskCodeRedeemResult
    redeem_code task_code requirement = do
      now ← ports.now
      issued ← ports.find_by_code tenant_id task_code
      look (λ _. validate_record instant issued now)
      found ← load_or_create_job task_code requirement now
      marked issued (derive_job_id task_code) now
      job ← extended found.0 found.1 now
      pure (record {
        job_id = derive_job_id task_code;
        token = token_text job.auth_token;
        expires_at = expires_at now;
        is_idempotent = found.1;
      })

    unfoldable pub redeem : String → String → Exec B TaskCodeRedeemResult
    redeem task_code requirement =
        if is_blank task_code
        then raise task_code_invalid
        else redeem_code (strip task_code) requirement
