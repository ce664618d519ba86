-- ===== src/Store/Payload.antt =====
-- The JSON of a job: a `dict` whose values are told apart as far as the migrations look. `R` is the
-- type of the values that they only carry.
use ss.Prelude.{ℕ, String, ◌≡◌, ◌≤◌, true, Option, none, some}
use ss.Prelude.Assoc.{Dict, get}
use ss.Job.Data.{Job, job_schema_version_current}
use ss.Paths.{is_safe_path_segment}

module _ (R : Type 0) where
  -- `int` is a number that is not negative, `negative n` is -(n + 1). A Boolean is an `int`, as in
  -- Python.
  pub data Value : Type 0 where
    null : Value
    int negative : ℕ → Value
    text : String → Value
    list : R → Value
    other : R → Value

abbrev pub Payload : Type 0 → Type 0
Payload R = Dict (Value R)

module _ {R : Type 0} where
  abbrev pub of_text : Option String → Value R
  of_text none = Value.null
  of_text (some s) = Value.text s

-- Pydantic's validation and dump of a `Job` and the standard library's random tokens, which the
-- repository does not implement, with the documented behaviour that the store relies on.
pub record Codec (R : Type 0) : Type 0 where
  pub empty_list : R
  pub model_validate : Payload R → Option Job
  pub model_dump : Job → Payload R
  -- The n-th token that `secrets.token_hex` draws.
  pub token_hex : ℕ → String
  pub dump_schema_version :
      (j : Job) → get "schema_version" (model_dump j) ≡ some (Value.int j.schema_version)
  pub dump_version : (j : Job) → get "version" (model_dump j) ≡ some (Value.int j.version)
  pub dump_trace_id : (j : Job) → get "trace_id" (model_dump j) ≡ some (of_text j.trace_id)
  pub validate_dump :
      (j : Job)
      → j.schema_version ≡ job_schema_version_current
      → 1 ≤ j.version
      → is_safe_path_segment j.tenant_id ≡ true
      → model_validate (model_dump j) ≡ some j
  pub validate_version :
      (p : Payload R) (j : Job) (n : ℕ)
      → model_validate p ≡ some j
      → get "version" p ≡ some (Value.int n)
      → j.version ≡ n
