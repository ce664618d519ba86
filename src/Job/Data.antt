-- ===== src/Job/Data.antt =====
-- src/domain/models.py and src/domain/stata_runner.py: the records that the life cycle reads and
-- writes. The draft, the confirmation and the plan of a job stand as the JSON text that they are
-- stored as: the code modelled here only carries them.
use ss.Prelude.{ℕ, String, Bool, List, Option, nat_eq}

pub data JobStatus : Type 0 where
  created draft_ready confirmed queued running succeeded failed : JobStatus

-- The value of the enumeration's member.
unfoldable pub value : JobStatus → String
value created = "created"
value draft_ready = "draft_ready"
value confirmed = "confirmed"
value queued = "queued"
value running = "running"
value succeeded = "succeeded"
value failed = "failed"

-- The place of the member in the enumeration, by which members are compared.
abbrev pub ordinal : JobStatus → ℕ
ordinal created = 0
ordinal draft_ready = 1
ordinal confirmed = 2
ordinal queued = 3
ordinal running = 4
ordinal succeeded = 5
ordinal failed = 6

abbrev pub status_eq : JobStatus → JobStatus → Bool
status_eq a b = nat_eq (ordinal a) (ordinal b)

-- A reference to a file of the job; `kind` is the value of the `ArtifactKind`.
pub record ArtifactRef : Type 0 where
  pub kind : String
  pub rel_path : String

pub record JobInputs : Type 0 where
  pub manifest_rel_path : Option String
  pub fingerprint : Option String

-- Instants stand as numbers; the program stores their ISO text.
pub record RunAttempt : Type 0 where
  pub run_id : String
  pub attempt : ℕ
  pub status : String
  pub started_at : Option ℕ
  pub ended_at : Option ℕ
  pub artifacts : List ArtifactRef

pub record Job : Type 0 where
  pub schema_version : ℕ
  pub version : ℕ
  pub tenant_id : String
  pub job_id : String
  pub trace_id : Option String
  pub status : JobStatus
  pub requirement : Option String
  pub confirmation : Option String
  pub created_at : ℕ
  pub scheduled_at : Option ℕ
  pub inputs : Option JobInputs
  pub draft : Option String
  pub llm_plan : Option String
  pub selected_template_id : Option String
  pub output_formats : Option (List String)
  pub runs : List RunAttempt
  pub artifacts_index : List ArtifactRef
  pub redeem_task_code : Option String
  pub auth_token : Option String
  pub auth_expires_at : Option ℕ

abbrev pub job_schema_version_current : ℕ
job_schema_version_current = 3

pub record RunError : Type 0 where
  pub error_code : String
  pub message : String

pub record RunResult : Type 0 where
  pub job_id : String
  pub run_id : String
  pub success : Bool
  pub exit_code : Option ℕ
  pub timed_out : Bool
  pub artifacts : List ArtifactRef
  pub error : Option RunError
