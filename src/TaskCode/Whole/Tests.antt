-- ===== src/TaskCode/Whole/Tests.antt =====
-- A redemption of a code of the file store.
use ss.Prelude.{ℕ, String, ◌≡◌, refl, false, Option, some}
use ss.Prelude.Decimal.{decimal_from}
use ss.Prelude.Text.{strip, str_take}
use ss.Exec.{job_not_found, ok, pure, raise}
use ss.TaskCode.Redeem.{TaskCodeRedeemResult, redeem, redeem_code, load_or_create_job}
use ss.TaskCode.Record.{status}
use ss.TaskCode.Codes.{find_by_code, mark_used, issue_one}
use ss.TaskCode.Codes.Ideal.{registry}
use ss.TaskCode.Codes.Uses.{UsedFor}
use ss.TaskCode.Codes.Tests.{py, store, store-Sound, new_code}
use ss.TaskCode.Whole.{Backend, Jobs, backend_ports, redeem-UsedFor}

-- No job is there yet, and every create succeeds.
abbrev jobs : Jobs ℕ
jobs = record {
  load = λ tenant_id job_id. raise (job_not_found job_id);
  save = λ tenant_id job. pure job;
  create = λ tenant_id job. pure tt;
  now = pure 150;
  token_hex = pure "ab";
}

abbrev backend : Backend ℕ (Unit {0})
backend = record { jobs = 0; codes = store }

abbrev digits : String → String
digits s = "0123456789abcdef"

abbrev instant : String → Option ℕ
instant s = some 200

abbrev result : TaskCodeRedeemResult
result = record {
  job_id = "job_tc_0123456789abcdef";
  token = "ssv1.job_tc_0123456789abcdef.ab";
  expires_at = 604950;
  is_idempotent = false;
}

found : (find_by_code py "t" (strip "tc_1 ") store).0 ≡ ok (some new_code)
unfolding find_by_code issue_one decimal_from
found = refl

redeemed_once :
    (redeem digits (backend_ports py jobs) instant "t" "tc_1 " "ols" backend).0 ≡ ok result
unfolding redeem find_by_code issue_one redeem_code decimal_from status load_or_create_job mark_used
    str_take
redeemed_once = refl

redeem-UsedFor_example :
    UsedFor "u" "job_tc_0123456789abcdef"
      (registry (redeem digits (backend_ports py jobs) instant "t" "tc_1 " "ols" backend).1.codes)
redeem-UsedFor_example =
    redeem-UsedFor py jobs digits instant "t" "tc_1 " "ols" backend result new_code store-Sound
      found redeemed_once
