-- ===== src/TaskCode/Record.antt =====
-- src/domain/task_code_store.py: the record of an issued code and its status.
use ss.Prelude.{ℕ, String, Bool, not, Option, none, some, leb, if◌then◌else◌}
use ss.Prelude.Text.{is_blank}

pub record TaskCodeRecord : Type 0 where
  pub code_id : String
  pub task_code : String
  pub tenant_id : String
  pub created_at : String
  pub expires_at : String
  pub used_at : Option String
  pub job_id : Option String
  pub revoked_at : Option String

pub data TaskCodeStatus : Type 0 where
  unused used expired revoked : TaskCodeStatus

-- `isinstance(value, str) and value.strip() != ""`
abbrev pub filled : Option String → Bool
filled none = Bool.false
filled (some s) = not (is_blank s)

-- `instant` reads a text as an instant that can be compared with the clock: it gives `none` where
-- `datetime.fromisoformat` or the comparison raises.
unfoldable pub status : (String → Option ℕ) → TaskCodeRecord → ℕ → TaskCodeStatus
status instant code now =
    if filled code.revoked_at
    then revoked
    else if filled code.used_at
    then used
    else elim (instant code.expires_at) [
      | none ↦ expired
      | some expires_at ↦ if leb expires_at now then expired else unused
    ]
