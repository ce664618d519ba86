-- ===== src/Worker/Retry.antt =====
-- src/domain/worker_retry.py, and `WorkerService._should_retry` of src/domain/worker_service.py.
-- Seconds are floating-point numbers in the source and whole numbers of a small unit here; a negative
-- number, which the code treats like zero, is zero. From attempt 1025 on the power of two is too large
-- for a float, and the source raises OverflowError: `backoff_seconds` stands for it up to attempt 1024.
pub mod Bounds
use Prim.Native.Nat.{min}
use ss.Prelude.{
  ℕ, ◌-◌, ◌*◌, ◌^◌, String, Bool, true, false, not, List, [], ◌∷◌, Option, none, some, nat_eq,
  contains, if◌then◌else◌,
}
use ss.Job.Data.{RunError, RunResult}

unfoldable pub normalized_max_attempts : ℕ → ℕ
normalized_max_attempts value = if nat_eq value 0 then 1 else value

unfoldable pub backoff_seconds : ℕ → ℕ → ℕ → ℕ
backoff_seconds attempt base max_seconds =
    let cap = if nat_eq max_seconds 0 then base else max_seconds in
    if nat_eq base 0 then 0 else min (base * 2 ^ (attempt - 1)) cap

-- `_NON_RETRIABLE_ERROR_CODES`
abbrev pub non_retriable_error_codes : List String
non_retriable_error_codes =
    "PLAN_MISSING" ∷ "PLAN_INVALID" ∷ "INPUTS_MANIFEST_MISSING" ∷ "INPUTS_MANIFEST_UNSAFE"
    ∷ "INPUTS_MANIFEST_INVALID" ∷ "INPUTS_MANIFEST_READ_FAILED" ∷ "DOFILE_PLAN_INVALID"
    ∷ "DOFILE_TEMPLATE_UNSUPPORTED" ∷ "DOFILE_INPUTS_MANIFEST_INVALID" ∷ "DO_TEMPLATE_PARAM_MISSING"
    ∷ "DO_TEMPLATE_PARAM_INVALID" ∷ "DO_TEMPLATE_CONTRACT_INVALID" ∷ "DO_TEMPLATE_META_INVALID"
    ∷ "DO_TEMPLATE_ARTIFACTS_WRITE_FAILED" ∷ "DO_TEMPLATE_OUTPUT_ARCHIVE_FAILED"
    ∷ "STATA_WORKSPACE_INVALID" ∷ "PLAN_COMPOSITION_INVALID" ∷ "STATA_INPUTS_UNSAFE"
    ∷ "STATA_DEPENDENCY_MISSING" ∷ "OUTPUT_FORMATS_INVALID" ∷ "OUTPUT_FORMATTER_FAILED" ∷ []

unfoldable pub should_retry : RunResult → Bool
should_retry result = elim result.error [
  | none ↦ true
  | some e ↦ not (contains e.error_code non_retriable_error_codes)
]
