-- ===== src/Compose/Plan.antt =====
-- The plan models of src/domain/models.py, with the validator of a plan's steps. `R` is the type of
-- the JSON that stands as the parameters of a step.
pub mod Valid
use ss.Prelude.{
  str_append, ℕ, String, Bool, true, false, not, List, [], ◌∷◌, Option, none, some, length,
  contains, nat_eq, if◌then◌else◌,
}
use ss.Prelude.Sets.{to_set}
use ss.Exec.{Outcome, ok, err, and_then, value_error}

pub data PlanStepType : Type 0 where
  generate_stata_do run_stata descriptive_stats robustness_check : PlanStepType
  heterogeneity_analysis data_validation : PlanStepType

-- All types but the run itself generate a do-file.
unfoldable pub is_do_generation_step_type : PlanStepType → Bool
is_do_generation_step_type run_stata = false
is_do_generation_step_type generate_stata_do = true
is_do_generation_step_type descriptive_stats = true
is_do_generation_step_type robustness_check = true
is_do_generation_step_type heterogeneity_analysis = true
is_do_generation_step_type data_validation = true

-- `produces` holds the values of the artifact kinds.
pub record PlanStep (R : Type 0) : Type 0 where
  pub step_id : String
  pub type : PlanStepType
  pub purpose : String
  pub fallback_step_id : Option String
  pub params : R
  pub depends_on : List String
  pub produces : List String

pub data PlanSource : Type 0 where
  llm rule rule_fallback : PlanSource

pub record LlmPlan (R : Type 0) : Type 0 where
  pub plan_version : ℕ
  pub plan_id : String
  pub rel_path : String
  pub plan_source : PlanSource
  pub fallback_reason : Option String
  pub steps : List (PlanStep R)

-- The inner loop, over the dependencies of one step.
unfoldable pub known_deps : List String → List String → Outcome (Unit {0})
known_deps known [] = ok tt
known_deps known (dep ∷ deps) =
    if contains dep known
    then known_deps known deps
    else err (value_error (str_append "unknown dependency: " dep))

abbrev known_fallback : List String → Option String → Outcome (Unit {0})
known_fallback known none = ok tt
known_fallback known (some f) =
    if contains f known
    then ok tt
    else err (value_error (str_append "unknown fallback_step_id: " f))

module _ {R : Type 0} where
  unfoldable pub step_ids : List (PlanStep R) → List String
  step_ids [] = []
  step_ids (s ∷ ss) = s.step_id ∷ step_ids ss

  unfoldable pub known_steps : List String → List (PlanStep R) → Outcome (Unit {0})
  known_steps known [] = ok tt
  known_steps known (s ∷ ss) =
      and_then (known_deps known s.depends_on)
        λ _. and_then (known_fallback known s.fallback_step_id) λ _. known_steps known ss

  unfoldable pub steps_must_have_unique_ids_and_valid_deps : List (PlanStep R) → Outcome (Unit {0})
  steps_must_have_unique_ids_and_valid_deps steps =
      let ids = step_ids steps in
      if not (nat_eq (length ids) (length (to_set ids)))
      then err (value_error "steps contain duplicate step_id")
      else known_steps (to_set ids) steps
