-- ===== src/TaskCode/Codes.antt =====
-- src/infra/file_task_code_store.py: `FileTaskCodeStore`, which keeps a JSON file for each code and
-- one for its hash. A directory is a dictionary by the names of its files, less ".json"; a `code_id`
-- is such a name. A system call takes its outcome from a list of faults. `atomic_write_json`
-- counts as three such calls here, and its temporary file is left out: Store.Ops has its steps.
pub mod Reading
pub mod Ideal
pub mod Writes
mod Refines
pub mod Runs
pub mod Uses
pub mod Once
mod Found
pub mod Search
pub mod Tests
use ss.Prelude.{
  ℕ, zero, suc, ◌+◌, String, str_append, ◌≡◌, Bool, true, false, List, [], ◌∷◌, Option, none, some,
  ◌==◌, if◌then◌else◌,
}
use ss.Prelude.Assoc.{Dict, get, put, erase}
use ss.Prelude.Text.{is_blank, strip}
use ss.Paths.{default_tenant_id}
use ss.Exec.{
  Error, task_code_not_found, task_code_store_io, task_code_data_corrupted,
  task_code_redeem_conflict, Outcome, ok, err, and_then, Exec, pure, raise, gets, look, modify,
  ◌>>=◌, ◌>>◌,
}
use ss.Store.Payload.{Value, Payload}
use ss.Store.Disk.{FileText, object, not_object, broken}
use ss.TaskCode.Record.{TaskCodeRecord, filled}

-- What the store takes from Python, a random text by the number of its draw: ISO texts of instants,
-- `uuid.uuid4().hex`, `secrets.token_hex`, the hash, and `str` of a value that is no text.
pub record Python (R : Type 0) : Type 0 where
  pub isoformat : ℕ → String
  pub uuid_hex : ℕ → String
  pub token_hex : ℕ → String
  pub sha256 : String → String
  pub str_of : Value R → String
  pub isoformat-filled : (t : ℕ) → is_blank (isoformat t) ≡ false
  pub uuid_hex-filled : (n : ℕ) → is_blank (uuid_hex n) ≡ false
  pub strip-uuid_hex : (n : ℕ) → strip (uuid_hex n) ≡ uuid_hex n

pub record Files (R : Type 0) : Type 0 where
  pub records : Dict (FileText R)
  pub by_hash : Dict (FileText R)
  pub faults : List Bool
  pub draws : ℕ

module _ {R : Type 0} where
  -- `isinstance(value, str) and value.strip() != ""`, else the record is corrupted.
  abbrev pub required : Option (Value R) → Outcome String
  required (some (Value.text s)) = if is_blank s then err task_code_data_corrupted else ok s
  required _ = err task_code_data_corrupted

  abbrev pub optional : Option (Value R) → Option String
  optional (some (Value.text s)) = some s
  optional _ = none

  -- `_record_from_payload`
  unfoldable pub record_from_payload : Payload R → Outcome TaskCodeRecord
  unfolding get
  record_from_payload p = and_then (required (get "code_id" p)) λ code_id.
      and_then (required (get "task_code" p)) λ task_code.
        and_then (required (get "tenant_id" p)) λ tenant_id.
          and_then (required (get "created_at" p)) λ created_at.
            and_then (required (get "expires_at" p)) λ expires_at. ok (record {
              code_id = code_id;
              task_code = task_code;
              tenant_id = tenant_id;
              created_at = created_at;
              expires_at = expires_at;
              used_at = optional (get "used_at" p);
              job_id = optional (get "job_id" p);
              revoked_at = optional (get "revoked_at" p);
            })

  unfoldable pub syscall : Error → Exec (Files R) (Unit {0})
  syscall e d = elim d.faults [
    | [] ↦ (ok tt, d)
    | fails ∷ rest ↦
        if fails then (err e, record d { faults = rest }) else (ok tt, record d { faults = rest })
  ]

  -- The rest of `_load_json_object`, on the file's text.
  abbrev pub json_object : String → FileText R → Outcome (Payload R)
  json_object operation (object p) = ok p
  json_object operation broken = err (task_code_store_io operation)
  json_object operation not_object = err task_code_data_corrupted

  -- `_load_json_object`, of a file with this stem.
  abbrev pub load_json_object : String → String → Option (FileText R) → Exec (Files R) (Payload R)
  load_json_object stem operation none = raise (task_code_not_found stem)
  load_json_object stem operation (some t) =
      syscall (task_code_store_io operation) >> look (λ _. json_object operation t)

  -- `atomic_write_json`: the directory is made, a temporary file is written and renamed.
  unfoldable pub atomic_write_json : String → (Files R → Files R) → Exec (Files R) (Unit {0})
  unfolding syscall
  atomic_write_json operation write = do
    syscall (task_code_store_io operation)
    syscall (task_code_store_io operation)
    syscall (task_code_store_io operation)
    modify write

  abbrev pub write_record : String → Payload R → Files R → Files R
  write_record code_id p d = record d { records = put code_id (object p) d.records }

  abbrev pub write_index : String → Payload R → Files R → Files R
  write_index code_hash p d = record d { by_hash = put code_hash (object p) d.by_hash }

  abbrev pub load_record : String → FileText R → Exec (Files R) TaskCodeRecord
  load_record code_id t = do
    p ← load_json_object code_id "read_record" (some t)
    look (λ _. record_from_payload p)

  abbrev pub get_file : String → Option (FileText R) → Exec (Files R) (Option TaskCodeRecord)
  get_file code_id none = pure none
  get_file code_id (some t) = do found ← load_record code_id t; pure (some found)

  -- `get`
  unfoldable pub get_code : String → Exec (Files R) (Option TaskCodeRecord)
  unfolding get syscall record_from_payload
  get_code code_id d = get_file code_id (get code_id d.records) d

abbrev pub of_tenant : String → Option TaskCodeRecord → Option TaskCodeRecord
of_tenant tenant_id none = none
of_tenant tenant_id (some code) = if code.tenant_id == tenant_id then some code else none

abbrev pub resolved_tenant_id : String → String
resolved_tenant_id tenant_id = if is_blank tenant_id then default_tenant_id else tenant_id

abbrev pub same_job : Option String → String → Bool
same_job none job_id = false
same_job (some j) job_id = j == job_id

module _ {R : Type 0} (py : Python R) where
  abbrev pub used_payload : String → ℕ → Payload R → Payload R
  used_payload job_id used_at p =
      put "job_id" (Value.text job_id) (put "used_at" (Value.text (py.isoformat used_at)) p)

  abbrev pub mark_record :
      String → String → ℕ → Payload R → TaskCodeRecord → Exec (Files R) TaskCodeRecord
  mark_record code_id job_id used_at p code =
      if filled code.used_at
      then if same_job code.job_id job_id then pure code else raise task_code_redeem_conflict
      else atomic_write_json "mark_used" (write_record code_id (used_payload job_id used_at p))
        >> look (λ _. record_from_payload (used_payload job_id used_at p))

  unfoldable pub mark_used : String → String → ℕ → Exec (Files R) TaskCodeRecord
  unfolding get put syscall record_from_payload atomic_write_json
  mark_used code_id job_id used_at = do
    file ← gets (λ d. get code_id d.records)
    p ← load_json_object code_id "read_record" file
    code ← look (λ _. record_from_payload p)
    mark_record code_id job_id used_at p code

  abbrev pub revoked_payload : ℕ → Payload R → Payload R
  revoked_payload revoked_at p = put "revoked_at" (Value.text (py.isoformat revoked_at)) p

  unfoldable pub revoke : String → ℕ → Exec (Files R) TaskCodeRecord
  unfolding get put syscall record_from_payload atomic_write_json
  revoke code_id revoked_at = do
    file ← gets (λ d. get code_id d.records)
    p ← load_json_object code_id "read_record" file
    atomic_write_json "revoke" (write_record code_id (revoked_payload revoked_at p))
    look (λ _. record_from_payload (revoked_payload revoked_at p))

  abbrev pub code_hash : String → String → String
  code_hash tenant_id task_code = py.sha256 (str_append tenant_id (str_append ":" task_code))

  abbrev pub delete_found : String → Option TaskCodeRecord → Exec (Files R) (Unit {0})
  delete_found code_id none = raise (task_code_not_found code_id)
  delete_found code_id (some code) = do
    syscall (task_code_store_io "delete")
    modify (λ d. record d { records = erase code_id d.records })
    syscall (task_code_store_io "delete")
    modify (λ d. record d { by_hash = erase (code_hash code.tenant_id code.task_code) d.by_hash })

  unfoldable pub delete : String → Exec (Files R) (Unit {0})
  unfolding get_code erase
  delete code_id = do found ← get_code code_id; delete_found code_id found

  abbrev pub fresh : Exec (Files R) ℕ
  fresh d = (ok d.draws, record d { draws = suc d.draws })

  abbrev pub new_task_code : ℕ → String
  new_task_code n = str_append "tc_" (py.token_hex n)

  abbrev pub new_payload : String → String → String → ℕ → ℕ → Payload R
  new_payload code_id task_code tenant_id expires_at now =
      ("code_id", Value.text code_id)
      ∷ ("task_code", Value.text task_code)
      ∷ ("tenant_id", Value.text tenant_id)
      ∷ ("created_at", Value.text (py.isoformat now))
      ∷ ("expires_at", Value.text (py.isoformat expires_at))
      ∷ ("used_at", Value.null)
      ∷ ("job_id", Value.null)
      ∷ ("revoked_at", Value.null)
      ∷ []

  -- `_issue_one`
  unfoldable pub issue_one : String → ℕ → ℕ → Exec (Files R) TaskCodeRecord
  unfolding get put syscall record_from_payload atomic_write_json
  issue_one tenant_id expires_at now = do
    n ← fresh
    m ← fresh
    let code_id = py.uuid_hex n
    let task_code = new_task_code m
    let p = new_payload code_id task_code tenant_id expires_at now
    atomic_write_json "issue" (write_record code_id p)
    atomic_write_json "issue"
        (write_index (code_hash tenant_id task_code) (("code_id", Value.text code_id) ∷ []))
    look (λ _. record_from_payload p)

  unfoldable pub issue_many : ℕ → String → ℕ → ℕ → Exec (Files R) (List TaskCodeRecord)
  unfolding issue_one
  issue_many zero tenant_id expires_at now = pure []
  issue_many (suc count) tenant_id expires_at now = do
    code ← issue_one tenant_id expires_at now
    codes ← issue_many count tenant_id expires_at now
    pure (code ∷ codes)

  -- No code for a count below one.
  abbrev pub issue_codes : String → ℕ → ℕ → ℕ → Exec (Files R) (List TaskCodeRecord)
  issue_codes tenant_id count expires_at now =
      issue_many count (resolved_tenant_id tenant_id) expires_at now

  -- `str(index_payload.get("code_id", "")).strip()`
  abbrev pub index_code_id : Option (Value R) → String
  index_code_id none = ""
  index_code_id (some (Value.text s)) = strip s
  index_code_id (some v) = strip (py.str_of v)

  abbrev pub find_indexed :
      String → Option (FileText R) → String → Exec (Files R) (Option TaskCodeRecord)
  find_indexed tenant_id none code_hash = pure none
  find_indexed tenant_id (some t) code_hash = do
    p ← load_json_object code_hash "read_index" (some t)
    let code_id = index_code_id (get "code_id" p)
    if code_id == ""
        then raise task_code_data_corrupted
        else (do found ← get_code code_id; pure (of_tenant tenant_id found))

  unfoldable pub find_by_code : String → String → Exec (Files R) (Option TaskCodeRecord)
  unfolding get_code strip
  find_by_code tenant_id task_code d =
      let tenant = resolved_tenant_id tenant_id in
      let hash = code_hash tenant task_code in find_indexed tenant (get hash d.by_hash) hash d
