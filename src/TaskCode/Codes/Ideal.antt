-- ===== src/TaskCode/Codes/Ideal.antt =====
-- What a store of codes promises: a map from ids to records, and what each operation does to it. It
-- knows nothing of files. `draws` is how many random texts were drawn before.
use ss.Prelude.{ℕ, suc, String, ◌≡◌, Option, none, some, ◌⊎◌, ◌==◌, if◌then◌else◌}
use ss.Prelude.Assoc.{get}
use ss.Exec.{
  task_code_not_found, task_code_store_io, task_code_redeem_conflict, Outcome, ok, err, Exec, pure,
  ◌>>=◌, ◌>>◌,
}
use ss.Store.Disk.{FileText, object}
use ss.TaskCode.Record.{TaskCodeRecord, filled}
use ss.TaskCode.Codes.{
  Python, Files, record_from_payload, get_code, same_job, mark_used, revoke, delete, issue_one,
  resolved_tenant_id, new_task_code,
}

abbrev pub Registry : Type 0
Registry = String → Option TaskCodeRecord

abbrev pub set : String → Option TaskCodeRecord → Registry → Registry
set code_id r m c = if code_id == c then r else m c

pub data Op : Type 0 where
  issue : String → ℕ → ℕ → Op
  look_up : String → Op
  mark : String → String → ℕ → Op
  cancel : String → ℕ → Op
  remove : String → Op

pub data Answer : Type 0 where
  nothing removed : Answer
  record_of : TaskCodeRecord → Answer

abbrev pub answer_of : Option TaskCodeRecord → Answer
answer_of none = nothing
answer_of (some code) = record_of code

abbrev pub ideal_remove : String → Option TaskCodeRecord → Registry → Outcome Answer × Registry
ideal_remove code_id none m = (err (task_code_not_found code_id), m)
ideal_remove code_id (some code) m = (ok removed, set code_id none m)

module _ {R : Type 0} (py : Python R) where
  abbrev pub used_record : String → ℕ → TaskCodeRecord → TaskCodeRecord
  used_record job_id at code = record code {
    used_at = some (py.isoformat at);
    job_id = some job_id;
  }

  abbrev pub revoked_record : ℕ → TaskCodeRecord → TaskCodeRecord
  revoked_record at code = record code { revoked_at = some (py.isoformat at) }

  abbrev pub new_record : ℕ → String → ℕ → ℕ → TaskCodeRecord
  new_record draws tenant_id expires_at now = record {
    code_id = py.uuid_hex draws;
    task_code = new_task_code py (suc draws);
    tenant_id = tenant_id;
    created_at = py.isoformat now;
    expires_at = py.isoformat expires_at;
    used_at = none;
    job_id = none;
    revoked_at = none;
  }

  abbrev pub ideal_mark :
      String → String → ℕ → Option TaskCodeRecord → Registry → Outcome Answer × Registry
  ideal_mark code_id job_id at none m = (err (task_code_not_found code_id), m)
  ideal_mark code_id job_id at (some code) m =
      if filled code.used_at
      then (if same_job code.job_id job_id
          then (ok (record_of code), m)
          else (err task_code_redeem_conflict, m))
      else (
        ok (record_of (used_record job_id at code)),
        set code_id (some (used_record job_id at code)) m,
      )

  abbrev pub ideal_cancel :
      String → ℕ → Option TaskCodeRecord → Registry → Outcome Answer × Registry
  ideal_cancel code_id at none m = (err (task_code_not_found code_id), m)
  ideal_cancel code_id at (some code) m =
      (ok (record_of (revoked_record at code)), set code_id (some (revoked_record at code)) m)

  abbrev pub ideal : ℕ → Op → Registry → Outcome Answer × Registry
  ideal draws (issue tenant_id expires_at now) m =
      let code = new_record draws (resolved_tenant_id tenant_id) expires_at now in
      (ok (record_of code), set (py.uuid_hex draws) (some code) m)
  ideal draws (look_up code_id) m = (ok (answer_of (m code_id)), m)
  ideal draws (mark code_id job_id at) m = ideal_mark code_id job_id at (m code_id) m
  ideal draws (cancel code_id at) m = ideal_cancel code_id at (m code_id) m
  ideal draws (remove code_id) m = ideal_remove code_id (m code_id) m

  -- The operation of the file store.
  abbrev pub perform : Op → Exec (Files R) Answer
  perform (issue tenant_id expires_at now) =
      issue_one py (resolved_tenant_id tenant_id) expires_at now >>= λ code. pure (record_of code)
  perform (look_up code_id) = get_code code_id >>= λ found. pure (answer_of found)
  perform (mark code_id job_id at) =
      mark_used py code_id job_id at >>= λ code. pure (record_of code)
  perform (cancel code_id at) = revoke py code_id at >>= λ code. pure (record_of code)
  perform (remove code_id) = delete py code_id >> pure removed

-- How many random texts were drawn after it.
abbrev pub next_draws : ℕ → Op → ℕ
next_draws n (issue _ _ _) = suc (suc n)
next_draws n _ = n

abbrev pub valid_record : Outcome TaskCodeRecord → Option TaskCodeRecord
valid_record (ok code) = some code
valid_record (err _) = none

module _ {R : Type 0} where
  abbrev pub record_in : Option (FileText R) → Option TaskCodeRecord
  record_in (some (object p)) = valid_record (record_from_payload p)
  record_in _ = none

  -- The map that the files stand for.
  abbrev pub registry : Files R → Registry
  registry d code_id = record_in (get code_id d.records)

  -- Each record file holds a record.
  abbrev pub Sound : Files R → Type 0
  Sound d =
      (code_id : String) (t : FileText R)
      → get code_id d.records ≡ some t
      → (p : _) × (code : TaskCodeRecord) × (t ≡ object p) × (record_from_payload p ≡ ok code)

abbrev pub Same : Registry → Registry → Type 0
Same m m' = (c : String) → m c ≡ m' c

-- The operation did what the ideal one does; or it raised an input/output error, and the map is
-- as it was or as the ideal operation leaves it.
abbrev pub Meets : Outcome Answer × Registry → Registry → Outcome Answer × Registry → Type 0
Meets intended before (r, after) =
    ((r ≡ intended.0) × Same after intended.1)
    ⊎ ((operation : String) × (r ≡ err (task_code_store_io operation))
        × (Same after before ⊎ Same after intended.1))
