-- ===== src/TaskCode/Tests.antt =====
-- A first redemption of an issued code.
use ss.Prelude.{ℕ, ◌<◌, String, ◌≡◌, refl, true, false, Option, none, some, ◌⊎◌, arith}
use ss.Prelude.Text.{strip, is_blank, is_space, str_take}
use ss.Job.Data.{Job}
use ss.Exec.{job_not_found, ok, pure, raise}
use ss.TaskCode.Record.{TaskCodeRecord, filled, status}
use ss.TaskCode.Redeem.{Ports, TaskCodeRedeemResult, load_or_create_job, redeem_code, redeem}
use ss.TaskCode.Grants.{Stored, redeem-Carries, redeem-valid}

abbrev issued : TaskCodeRecord
issued = record {
  code_id = "c1";
  task_code = "CODE";
  tenant_id = "default";
  created_at = "100";
  expires_at = "200";
  used_at = none;
  job_id = none;
  revoked_at = none;
}

-- No job is there yet, and every create succeeds.
abbrev ports : Ports ℕ
ports = record {
  load = λ tenant_id job_id. raise (job_not_found job_id);
  save = λ tenant_id job. pure job;
  create = λ tenant_id job. pure tt;
  find_by_code = λ tenant_id task_code. pure (some issued);
  mark_used = λ code_id job_id used_at. pure issued;
  now = pure 150;
  token_hex = pure "ab";
}

abbrev digits : String → String
digits s = "0123456789abcdef"

abbrev instant : String → Option ℕ
instant s = some 200

abbrev granted_result : TaskCodeRedeemResult
granted_result = record {
  job_id = "job_tc_0123456789abcdef";
  token = "ssv1.job_tc_0123456789abcdef.ab";
  expires_at = 604950;
  is_idempotent = false;
}

redeems : (redeem digits ports instant "default" " CODE" "ols" 0).0 ≡ ok granted_result
unfolding redeem redeem_code load_or_create_job status is_blank is_space str_take
redeems = refl

kept :
    (b : ℕ) (job held : Job)
    → (ports.save "default" job b).0 ≡ ok held
    → held.auth_token ≡ job.auth_token
kept b job held h = ground arith

redeem-Carries_example :
    (job : Job) × Stored digits ports instant "default" (strip " CODE") job
    × (job.redeem_task_code ≡ some (strip " CODE"))
    × (job.auth_token ≡ some "ssv1.job_tc_0123456789abcdef.ab")
    × (is_blank "ssv1.job_tc_0123456789abcdef.ab" ≡ false)
redeem-Carries_example =
    redeem-Carries digits ports instant "default" " CODE" "ols" 0 granted_result kept redeems

redeem-valid_example :
    (filled none ≡ false)
    × ((filled none ≡ true) ⊎ ((t : ℕ) × (instant "200" ≡ some t) × (150 < t)))
redeem-valid_example =
    redeem-valid digits ports instant "default" " CODE" "ols" 0 0 0 granted_result 150 issued refl
      refl redeems
