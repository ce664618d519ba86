-- ===== src/Compose/Validate.antt =====
-- `validate_composition_plan` of src/domain/composition_plan.py. Pydantic's reading of a step's
-- parameters is the parameter `model_validate`; it includes the check that a product's id is not
-- blank. A dictionary or a set that Python would raise a `KeyError` for is told by `raised`.
mod Gather
pub mod Accepts
pub mod Flow
use ss.Prelude.{
  ℕ, String, Bool, true, false, not, ◌&&◌, List, [], ◌∷◌, Option, none, some, contains, nat_eq,
  if◌then◌else◌,
}
use ss.Prelude.Text.{is_blank}
use ss.Prelude.Assoc.{Dict, get, put}
use ss.Exec.{Outcome, ok, err, and_then, plan_composition_invalid, raised}
use ss.Compose.Plan.{PlanStep, is_do_generation_step_type}
use ss.Compose.Ordering.{deps_by_step_id}
use ss.Compose.Refs.{DatasetRef, input, prod, parse_dataset_ref_or_error}
use ss.Compose.Depends.{depends_transitively}

pub data CompositionMode : Type 0 where
  sequential merge_then_sequential parallel_then_aggregate conditional : CompositionMode

abbrev pub mode_ordinal : CompositionMode → ℕ
mode_ordinal sequential = 0
mode_ordinal merge_then_sequential = 1
mode_ordinal parallel_then_aggregate = 2
mode_ordinal conditional = 3

abbrev pub mode_eq : CompositionMode → CompositionMode → Bool
mode_eq a b = nat_eq (mode_ordinal a) (mode_ordinal b)

pub data ProductKind : Type 0 where
  dataset table figure report : ProductKind

pub record PlanProduct : Type 0 where
  pub product_id : String
  pub kind : ProductKind
  pub role : Option String

-- `_CompositionParams`
pub record CompositionParams : Type 0 where
  pub composition_mode : CompositionMode
  pub template_id : Option String
  pub input_bindings : Option (Dict String)
  pub products : Option (List PlanProduct)

abbrev pub invalid {ℓ} : {A : Type ℓ} → String → String → Outcome A
invalid reason step_id = err (plan_composition_invalid reason (some step_id) none none)

abbrev pub invalid_ref {ℓ} : {A : Type ℓ} → String → String → String → Outcome A
invalid_ref reason step_id dataset_ref =
    err (plan_composition_invalid reason (some step_id) (some dataset_ref) none)

-- The loop of `_product_ids`.
unfoldable pub seen_product_ids : String → List String → List PlanProduct → Outcome (List String)
seen_product_ids step_id seen [] = ok seen
seen_product_ids step_id seen (product ∷ products) =
    if contains product.product_id seen
    then err (
        plan_composition_invalid "duplicate_product_id" (some step_id) none
          (some product.product_id))
    else seen_product_ids step_id (product.product_id ∷ seen) products

unfoldable pub product_ids : String → CompositionParams → Outcome (List String)
unfolding seen_product_ids
product_ids step_id params =
    seen_product_ids step_id [] (elim params.products [ none ↦ [] | some ps ↦ ps ])

module _ {R : Type 0} where
  unfoldable pub validate_step_requirements : PlanStep R → CompositionParams → Outcome (Unit {0})
  validate_step_requirements step params =
      if not (is_do_generation_step_type step.type) then ok tt else elim params.template_id [
        | none ↦ invalid "missing_template_id" step.step_id
        | some template_id ↦
            if is_blank template_id
            then invalid "missing_template_id" step.step_id
            else elim params.input_bindings [
              | none ↦ invalid "missing_input_bindings" step.step_id
              | some [] ↦ invalid "missing_input_bindings" step.step_id
              | some (_ ∷ _) ↦ elim params.products [
                | none ↦ invalid "missing_products" step.step_id
                | some _ ↦ ok tt
              ]
            ]
      ]

-- The rest of `_validate_input_binding`, once the reference has been read.
module _ (known_input_keys : List String) (products : Dict (List String))
    (deps : Dict (List String)) (step_id dataset_ref : String) where
  abbrev pub dependency_found : Option Bool → Outcome (Unit {0})
  dependency_found none = err (raised "out of fuel")
  dependency_found (some true) = ok tt
  dependency_found (some false) = invalid_ref "missing_dependency_for_product" step_id dataset_ref

  unfoldable pub validate_ref : DatasetRef → Outcome (Unit {0})
  validate_ref (input key) =
      if contains key known_input_keys
      then ok tt
      else invalid_ref "unknown_input_dataset" step_id dataset_ref
  validate_ref (prod producer product_id) = elim (get producer products) [
    | none ↦ invalid_ref "unknown_product_step" step_id dataset_ref
    | some known_products ↦
        if contains product_id known_products
        then dependency_found (depends_transitively deps step_id producer)
        else invalid_ref "unknown_product_id" step_id dataset_ref
  ]

module _ (known_input_keys : List String) (products : Dict (List String))
    (deps : Dict (List String)) (step_id : String) where
  unfoldable pub validate_input_binding : String → String → Outcome (Unit {0})
  unfolding validate_ref
  validate_input_binding role dataset_ref =
      if is_blank role
      then invalid "input_binding_role_empty" step_id
      else if is_blank dataset_ref
      then invalid "dataset_ref_empty" step_id
      else and_then (parse_dataset_ref_or_error step_id dataset_ref)
          (validate_ref known_input_keys products deps step_id dataset_ref)

  unfoldable pub validate_input_bindings : Dict String → Outcome (Unit {0})
  unfolding validate_input_binding
  validate_input_bindings [] = ok tt
  validate_input_bindings ((role, dataset_ref) ∷ bindings) =
      and_then (validate_input_binding role dataset_ref) λ _. validate_input_bindings bindings

-- What `_collect_step_params` gathers.
pub record Collected : Type 0 where
  pub mode : Option CompositionMode
  pub params_by_step_id : Dict CompositionParams
  pub products_by_step_id : Dict (List String)

-- `elif params.composition_mode != mode`
abbrev pub same_mode : Option CompositionMode → CompositionMode → Bool
same_mode none m = true
same_mode (some mode) m = mode_eq m mode

abbrev pub add_step :
    {R : Type 0} → PlanStep R → CompositionParams → List String → Collected → Collected
add_step step params ids c = record {
  mode = some (elim c.mode [ none ↦ params.composition_mode | some m ↦ m ]);
  params_by_step_id = put step.step_id params c.params_by_step_id;
  products_by_step_id = put step.step_id ids c.products_by_step_id;
}

abbrev pub nothing_collected : Collected
nothing_collected = record { mode = none; params_by_step_id = []; products_by_step_id = [] }

module _ {R : Type 0} (model_validate : R → Option CompositionParams) where
  unfoldable pub parse_step_params : PlanStep R → Outcome CompositionParams
  parse_step_params step = elim (model_validate step.params) [
    | none ↦ invalid "composition_params_schema_invalid" step.step_id
    | some params ↦ ok params
  ]

  -- The body of the loop over the steps.
  unfoldable pub collect_step : PlanStep R → Collected → Outcome Collected
  unfolding parse_step_params product_ids
  collect_step step c = and_then (parse_step_params step) λ params.
      if same_mode c.mode params.composition_mode
      then and_then (product_ids step.step_id params) (λ ids. ok (add_step step params ids c))
      else invalid "composition_mode_mismatch" step.step_id

  unfoldable pub collect_steps : List (PlanStep R) → Collected → Outcome Collected
  collect_steps [] c = ok c
  collect_steps (step ∷ steps) c = and_then (collect_step step c) (collect_steps steps)

  unfoldable pub collect_step_params : List (PlanStep R) → Outcome (CompositionMode × Collected)
  unfolding collect_step collect_steps
  collect_step_params steps = and_then (collect_steps steps nothing_collected) λ c. elim c.mode [
    | none ↦ err (plan_composition_invalid "missing_steps" none none none)
    | some mode ↦ ok (mode, c)
  ]

  -- The loop of `validate_composition_plan`.
  unfoldable pub validate_steps :
      List String → Dict (List String) → Collected → List (PlanStep R) → Outcome (Unit {0})
  validate_steps known deps c [] = ok tt
  validate_steps known deps c (step ∷ steps) = elim (get step.step_id c.params_by_step_id) [
    | none ↦ err (raised "KeyError")
    | some params ↦ and_then (validate_step_requirements step params) λ _.
        and_then
          (validate_input_bindings known c.products_by_step_id deps step.step_id
            (elim params.input_bindings [ none ↦ [] | some bs ↦ bs ]))
          λ _. validate_steps known deps c steps
  ]

  unfoldable pub validate_composition_plan :
      List (PlanStep R) → List String → Outcome CompositionMode
  unfolding collect_step_params validate_steps
  validate_composition_plan steps known_input_keys =
      let deps = deps_by_step_id steps in
      and_then (collect_step_params steps)
        λ (mode, c). and_then (validate_steps known_input_keys deps c steps) λ _. ok mode
