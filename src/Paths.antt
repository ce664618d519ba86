-- ===== src/Paths.antt =====
-- src/utils/tenancy.py, `is_safe_path_segment` and `shard_for_job_id` of src/utils/job_workspace.py,
-- and `assert_safe_segment` of src/infra/file_queue_records.py: which texts may become a component
-- of a path.
use ss.Prelude.{ℕ, String, Bool, false, not, ◌&&◌, ◌||◌, ◌==◌, if◌then◌else◌, leb, ltb, str_append}
use ss.Prelude.Text.{has_char, starts_with_char, str_length, str_take, str_drop}
use ss.Exec.{Outcome, ok, err, value_error}

abbrev pub default_tenant_id : String
default_tenant_id = "default"

-- `"/" in value or "\\" in value`
unfoldable pub has_separator : String → Bool
unfolding has_char
has_separator value = has_char b'/' value || has_char 92 value

unfoldable pub is_safe_tenant_id : String → Bool
unfolding has_separator starts_with_char
is_safe_tenant_id tenant_id =
    if tenant_id == ""
    then false
    else if starts_with_char b'~' tenant_id
    then false
    else if has_separator tenant_id
    then false
    else not (tenant_id == "." || tenant_id == "..")

unfoldable pub is_safe_path_segment : String → Bool
unfolding has_separator starts_with_char
is_safe_path_segment value =
    if value == ""
    then false
    else if starts_with_char b'~' value
    then false
    else if has_separator value
    then false
    else not (value == "." || value == "..")

unfoldable pub assert_safe_segment : String → Outcome (Unit {0})
unfolding has_separator
assert_safe_segment value =
    if value == ""
    then err (value_error "path segment must not be empty")
    else if has_separator value
    then err (value_error "path segment must not contain path separators")
    else if value == "." || value == ".."
    then err (value_error "path segment must not traverse")
    else ok tt

abbrev pub shard_prefix_len : ℕ
shard_prefix_len = 2

-- `core`, the part of the job id that the shard is taken from.
shard_core : String → String
unfolding str_length str_take str_drop
shard_core job_id =
    if str_take 4 job_id == "job_" && ltb 4 (str_length job_id) then str_drop 4 job_id else job_id

unfoldable pub shard_for_job_id : String → String
unfolding shard_core str_length str_take
shard_for_job_id job_id =
    let core = shard_core job_id in
    if leb shard_prefix_len (str_length core)
    then str_take shard_prefix_len core
    else str_take shard_prefix_len (str_append core "00")
