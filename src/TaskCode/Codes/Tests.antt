-- ===== src/TaskCode/Codes/Tests.antt =====
-- Codes that are issued, used and revoked, with a concrete Python.
use ss.Prelude.{
  ℕ, zero, suc, ap, ◌∙◌, ◌⊎◌, String, ◌≡◌, refl, Bool, true, false, List, [], ◌∷◌, none, some,
}
use ss.Prelude.Assoc.{get}
use ss.Prelude.Decimal.{decimal, decimal_from}
use ss.Prelude.Text.{is_blank, is_space, rstrip, lstrip, strip}
use ss.Exec.{task_code_store_io, task_code_redeem_conflict, ok, err}
use ss.TaskCode.Record.{TaskCodeRecord}
use ss.TaskCode.Codes.{
  Python, Files, mark_used, issue_one, revoke, resolved_tenant_id, find_by_code,
}
use ss.TaskCode.Codes.Ideal.{Op, issue, look_up, mark, cancel, remove, registry, Sound}
use ss.TaskCode.Codes.Runs.{
  perform_all, Behaves, empty, perform_all-Behaves, perform_all-Behaves_from,
}
use ss.TaskCode.Codes.Found.{issue_one-find_by_code}
use ss.TaskCode.Codes.Once.{mark_used_once}
use ss.TaskCode.Codes.Uses.{Spares}

-- A UUID is "u" or longer, an instant like "i5".
abbrev pub uuid : ℕ → String
uuid zero = "u"
uuid (suc n) = String.◌∷◌ "u" (uuid n)

rstrip-uuid : (n : ℕ) → rstrip (uuid n) ≡ uuid n
unfolding rstrip is_blank is_space
rstrip-uuid zero = refl
rstrip-uuid (suc n) = ap (String.◌∷◌ "u") (rstrip-uuid n)

lstrip-uuid : (n : ℕ) → lstrip (uuid n) ≡ uuid n
unfolding lstrip is_space
lstrip-uuid zero = refl
lstrip-uuid (suc n) = refl

pub strip-uuid : (n : ℕ) → strip (uuid n) ≡ uuid n
unfolding strip
strip-uuid n = ap lstrip (rstrip-uuid n) ∙ lstrip-uuid n

pub uuid_filled : (n : ℕ) → is_blank (uuid n) ≡ false
unfolding is_blank is_space
uuid_filled zero = refl
uuid_filled (suc n) = refl

pub instant_filled : (t : ℕ) → is_blank (String.◌∷◌ "i" (decimal t)) ≡ false
unfolding is_blank is_space
instant_filled t = refl

abbrev pub py : Python (Unit {0})
py = record {
  isoformat = λ t. String.◌∷◌ "i" (decimal t);
  uuid_hex = uuid;
  token_hex = decimal;
  sha256 = λ s. s;
  str_of = λ v. "?";
  isoformat-filled = instant_filled;
  uuid_hex-filled = uuid_filled;
  strip-uuid_hex = strip-uuid;
}

abbrev ops : List Op
ops =
    issue "t" 90 1
    ∷ mark "u" "job_1" 5
    ∷ look_up "u"
    ∷ mark "u" "job_2" 6
    ∷ cancel "u" 7
    ∷ remove "u"
    ∷ look_up "u"
    ∷ []

-- The removal of the index fails.
abbrev faults : List Bool
faults =
    false ∷ false ∷ false ∷ false ∷ false ∷ false ∷ false ∷ false ∷ false ∷ false ∷ false ∷ false
    ∷ false ∷ false ∷ false ∷ false ∷ false ∷ false ∷ true ∷ []

perform_all-Behaves_example :
    Behaves py 0 ops
      (λ _. none)
      (perform_all py ops (empty py faults)).0
      (registry (perform_all py ops (empty py faults)).1)
perform_all-Behaves_example = perform_all-Behaves py ops faults

-- One code.
abbrev pub store : Files (Unit {0})
store = (perform_all py (issue "t" 90 1 ∷ []) (empty py [])).1

abbrev used : TaskCodeRecord
used = record {
  code_id = "u";
  task_code = "tc_1";
  tenant_id = "t";
  created_at = "i1";
  expires_at = "i90";
  used_at = some "i5";
  job_id = some "job_1";
  revoked_at = none;
}

abbrev again : TaskCodeRecord
again = record used { revoked_at = some "i7" }

abbrev job_1 : String
job_1 = "job_1"

abbrev between : List Op
between = cancel "u" 7 ∷ issue "" 95 8 ∷ []

pub store-Sound : Sound store
unfolding get
store-Sound = (perform_all-Behaves_from py (issue "t" 90 1 ∷ []) (empty py []) (λ c t h. cc h)).1

first_use : (mark_used py "u" job_1 5 store).0 ≡ ok used
unfolding mark_used issue_one revoke is_blank decimal_from
first_use = refl

second_use :
    (mark_used py "u" job_1 8 (perform_all py between (mark_used py "u" job_1 5 store).1).1).0
    ≡ ok again
unfolding mark_used issue_one revoke is_blank decimal_from
second_use = refl

other_job :
    (mark_used py "u" "job_2" 8 (perform_all py between (mark_used py "u" job_1 5 store).1).1).0
    ≡ err task_code_redeem_conflict
unfolding mark_used issue_one revoke is_blank decimal_from
other_job = refl

spares : Spares py "u" store.draws between
unfolding issue_one decimal_from is_blank
spares = (refl, tt)

mark_used_once_example : job_1 ≡ job_1
mark_used_once_example =
    mark_used_once py "u" store job_1 job_1 5 8 between used again store-Sound spares first_use
      second_use

abbrev pub new_code : TaskCodeRecord
new_code = record used { used_at = none; job_id = none }

issued_code : (issue_one py (resolved_tenant_id "t") 90 1 (empty py [])).0 ≡ ok new_code
unfolding issue_one is_blank decimal_from
issued_code = refl

issue_one-find_by_code_example :
    (let d' = (issue_one py (resolved_tenant_id "t") 90 1 (empty py [])).1 in
      ((find_by_code py "t" "tc_1" d').0 ≡ ok (some new_code))
      ⊎ ((operation : String) × ((find_by_code py "t" "tc_1" d').0
            ≡ err (task_code_store_io operation))))
issue_one-find_by_code_example =
    issue_one-find_by_code py "t" 90 1 (empty py []) new_code issued_code
