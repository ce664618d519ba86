-- ===== src/Compose/Refs.antt =====
-- References to datasets: `_parse_dataset_ref` of src/domain/composition_plan.py, and
-- `parse_dataset_ref` of src/domain/composition_exec/refs.py, which the execution calls.
pub mod Agree
use ss.Prelude.{String, ◌||◌, List, [], ◌∷◌, none, some, ◌==◌, if◌then◌else◌}
use ss.Prelude.Text.{is_blank, strip, split}
use ss.Exec.{Outcome, ok, err, value_error, plan_composition_invalid}

-- `("input", key, None)` and `("prod", step_id, product_id)`.
pub data DatasetRef : Type 0 where
  input : String → DatasetRef
  prod : String → String → DatasetRef

abbrev input_ref : String → Outcome DatasetRef
input_ref key =
    if key == "" then err (value_error "dataset_key must be non-empty") else ok (input key)

abbrev prod_ref : String → String → Outcome DatasetRef
prod_ref step_id product_id =
    if step_id == "" || product_id == ""
    then err (value_error "prod refs must include step_id and product_id")
    else ok (prod step_id product_id)

abbrev malformed : Outcome DatasetRef
malformed =
    err (value_error "dataset_ref must match input:<dataset_key> or prod:<step_id>:<product_id>")

-- The tests on `parts`.
unfoldable pub ref_of_parts : List String → Outcome DatasetRef
unfolding strip
ref_of_parts (kind ∷ a ∷ []) = if kind == "input" then input_ref (strip a) else malformed
ref_of_parts (kind ∷ a ∷ b ∷ []) =
    if kind == "prod" then prod_ref (strip a) (strip b) else malformed
ref_of_parts _ = malformed

-- `_parse_dataset_ref`
unfoldable pub parse_dataset_ref : String → Outcome DatasetRef
unfolding split ref_of_parts
parse_dataset_ref value = ref_of_parts (split b':' value)

abbrev pub or_invalid : String → String → Outcome DatasetRef → Outcome DatasetRef
or_invalid step_id dataset_ref (ok r) = ok r
or_invalid step_id dataset_ref (err _) =
    err (plan_composition_invalid "dataset_ref_invalid" (some step_id) (some dataset_ref) none)

unfoldable pub parse_dataset_ref_or_error : String → String → Outcome DatasetRef
parse_dataset_ref_or_error step_id dataset_ref =
    or_invalid step_id dataset_ref (parse_dataset_ref dataset_ref)

-- The tests of `parse_dataset_ref` in refs.py.
abbrev invalid_ref : String → String → Outcome DatasetRef
invalid_ref step_id dataset_ref =
    err (plan_composition_invalid "dataset_ref_invalid" (some step_id) (some dataset_ref) none)

unfoldable pub exec_ref_of_parts : String → String → List String → Outcome DatasetRef
unfolding strip
exec_ref_of_parts step_id dataset_ref (kind ∷ a ∷ []) =
    if kind == "input"
    then (if strip a == "" then invalid_ref step_id dataset_ref else ok (input (strip a)))
    else invalid_ref step_id dataset_ref
exec_ref_of_parts step_id dataset_ref (kind ∷ a ∷ b ∷ []) =
    if kind == "prod"
    then (if strip a == "" || strip b == ""
        then invalid_ref step_id dataset_ref
        else ok (prod (strip a) (strip b)))
    else invalid_ref step_id dataset_ref
exec_ref_of_parts step_id dataset_ref _ = invalid_ref step_id dataset_ref

-- `parse_dataset_ref` of refs.py.
unfoldable pub exec_parse_dataset_ref : String → String → Outcome DatasetRef
unfolding split exec_ref_of_parts
exec_parse_dataset_ref step_id dataset_ref =
    if is_blank dataset_ref
    then err (plan_composition_invalid "dataset_ref_empty" (some step_id) none none)
    else exec_ref_of_parts step_id dataset_ref (split b':' dataset_ref)
