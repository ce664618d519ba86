-- ===== src/Compose/Refs/Agree.antt =====
-- The two readings of a reference to a dataset.
use ss.Prelude.{String, ◌≡◌, false, List, [], ◌∷◌, arith}
use ss.Prelude.Text.{is_blank, split}
use ss.Compose.Refs.{
  ref_of_parts, parse_dataset_ref, parse_dataset_ref_or_error, exec_ref_of_parts,
  exec_parse_dataset_ref, or_invalid,
}

parts-agree :
    (step_id dataset_ref : String) (parts : List String)
    → exec_ref_of_parts step_id dataset_ref parts
      ≡ or_invalid step_id dataset_ref (ref_of_parts parts)
unfolding exec_ref_of_parts ref_of_parts
parts-agree step_id dataset_ref [] = ground arith
parts-agree step_id dataset_ref (kind ∷ []) = ground arith
parts-agree step_id dataset_ref (kind ∷ a ∷ []) = ground arith
parts-agree step_id dataset_ref (kind ∷ a ∷ b ∷ []) = ground arith
parts-agree step_id dataset_ref (kind ∷ a ∷ b ∷ c ∷ parts) = ground arith

-- The execution reads a reference to a dataset that is not blank as the validation of the plan
-- does: the same kind and the same texts, or the same error.
pub exec_parse_dataset_ref-agrees :
    (step_id dataset_ref : String)
    → is_blank dataset_ref ≡ false
    → exec_parse_dataset_ref step_id dataset_ref ≡ parse_dataset_ref_or_error step_id dataset_ref
unfolding exec_parse_dataset_ref parse_dataset_ref_or_error parse_dataset_ref
exec_parse_dataset_ref-agrees step_id dataset_ref full =
    rw full (parts-agree step_id dataset_ref (split b':' dataset_ref))
