-- ===== src/Compose/Tests.antt =====
-- The plan that `build_plan_steps` makes, and what the composition says of it.
use ss.Prelude.{
  ℕ, String, ◌≡◌, refl, Bool, true, false, List, [], ◌∷◌, none, some, ◌⊎◌, inl, inr, ◌↔◌,
}
use ss.Prelude.Assoc.{get, put, dict_from}
use ss.Prelude.Text.{is_blank}
use ss.Prelude.Sets.{to_set, remove}
use ss.Exec.{ok}
use ss.Compose.Plan.{
  PlanStepType, generate_stata_do, run_stata, PlanStep, is_do_generation_step_type, step_ids,
  known_deps, known_steps, steps_must_have_unique_ids_and_valid_deps,
}
use ss.Compose.Ordering.{deps_by_step_id, deps_of, made_ready, toposort}
use ss.Compose.Ordering.Correct.{IsOrder, Ranked, cycle, toposort_decides}
use ss.Compose.Refs.{prod, parse_dataset_ref, parse_dataset_ref_or_error, exec_parse_dataset_ref}
use ss.Compose.Refs.Agree.{exec_parse_dataset_ref-agrees}
use ss.Compose.Depends.{search, total, depends_transitively}
use ss.Compose.Depends.Decides.{Depends, depends_transitively_decides}
use ss.Compose.Validate.{
  sequential, table, dataset, CompositionParams, validate_step_requirements,
  validate_input_bindings, validate_composition_plan,
}
use ss.Compose.Validate.Accepts.{Checked, validate_composition_plan-Checked}
use ss.Compose.Validate.Flow.{Flows, bindings-Flows}

abbrev step : String → PlanStepType → List String → CompositionParams → PlanStep CompositionParams
step id type deps params = record {
  step_id = id;
  type = type;
  purpose = "";
  fallback_step_id = none;
  params = params;
  depends_on = deps;
  produces = [];
}

abbrev generate_do : PlanStep CompositionParams
generate_do = step "generate_do" generate_stata_do [] (record {
  composition_mode = sequential;
  template_id = some "T01";
  input_bindings = some (("primary_dataset", "input:primary") ∷ []);
  products = some (record { product_id = "clean"; kind = dataset; role = none } ∷ []);
})

abbrev run_params : CompositionParams
run_params = record {
  composition_mode = sequential;
  template_id = none;
  input_bindings = some (("base", "prod:generate_do:clean") ∷ []);
  products = some (record { product_id = "summary_table"; kind = table; role = none } ∷ []);
}

abbrev run_step : PlanStep CompositionParams
run_step = step "run_stata" run_stata ("generate_do" ∷ []) run_params

-- Listed against their order.
abbrev plan : List (PlanStep CompositionParams)
plan = run_step ∷ generate_do ∷ []

abbrev order : List String
order = "generate_do" ∷ "run_stata" ∷ []

valid : steps_must_have_unique_ids_and_valid_deps plan ≡ ok tt
unfolding steps_must_have_unique_ids_and_valid_deps known_steps known_deps step_ids to_set
    ss.Prelude.contains
valid = refl

sorts : toposort plan ≡ some (ok order)
unfolding toposort deps_by_step_id step_ids get put dict_from to_set remove made_ready
    ss.Prelude.contains
sorts = refl

checks : validate_composition_plan some plan ("primary" ∷ []) ≡ ok sequential
unfolding validate_composition_plan validate_step_requirements is_do_generation_step_type
    validate_input_bindings is_blank parse_dataset_ref_or_error parse_dataset_ref
    depends_transitively search total deps_of deps_by_step_id get put dict_from ss.Prelude.contains
checks = refl

refers : parse_dataset_ref "prod:generate_do:clean" ≡ ok (prod "generate_do" "clean")
unfolding parse_dataset_ref
refers = refl

toposort_decides_example :
    ((order' : List String) × (toposort plan ≡ some (ok order')) × IsOrder plan order')
    ⊎ ((toposort plan ≡ some cycle) × ((rank : String → ℕ) → ¬ (Ranked rank plan)))
toposort_decides_example = toposort_decides plan valid

depends_transitively_decides_example :
    (b : Bool) × (depends_transitively (deps_by_step_id plan) "run_stata" "generate_do" ≡ some b)
    × ((b ≡ true) ↔ Depends (deps_by_step_id plan) "run_stata" "generate_do")
depends_transitively_decides_example =
    depends_transitively_decides (deps_by_step_id plan) "run_stata" "generate_do"

validate_composition_plan-Checked_example : Checked some plan ("primary" ∷ []) sequential run_step
validate_composition_plan-Checked_example =
    validate_composition_plan-Checked some plan ("primary" ∷ []) sequential valid checks run_step
      (inl refl)

bindings-Flows_example : Flows some plan order "run_stata" "generate_do" "clean"
bindings-Flows_example =
    bindings-Flows some plan ("primary" ∷ []) sequential order valid checks sorts run_step
      run_params "base" "prod:generate_do:clean" "generate_do" "clean" (inl refl) refl (inl refl)
      refers

reference_written : is_blank " prod:s1: p1" ≡ false
unfolding is_blank
reference_written = refl

exec_parse_dataset_ref-agrees_example :
    exec_parse_dataset_ref "s2" " prod:s1: p1" ≡ parse_dataset_ref_or_error "s2" " prod:s1: p1"
exec_parse_dataset_ref-agrees_example =
    exec_parse_dataset_ref-agrees "s2" " prod:s1: p1" reference_written
