-- ===== src/Compose/Ordering.antt =====
-- src/domain/composition_exec/ordering.py: the order in which the steps of a plan run.
mod Relax
pub mod Loop
mod Start
pub mod Correct
use ss.Prelude.{
  reverse_onto, ℕ, zero, suc, String, Bool, true, false, not, ◌&&◌, List, [], ◌∷◌, ◌++◌, map,
  Option, none, some, length, contains, nat_eq, if◌then◌else◌,
}
use ss.Prelude.Assoc.{Dict, get, dict_of}
use ss.Prelude.Sets.{to_set, remove}
use ss.Paths.{is_safe_path_segment}
use ss.Exec.{Outcome, ok, err, plan_composition_invalid}
use ss.Compose.Plan.{PlanStep, step_ids}

module _ {R : Type 0} where
  unfoldable pub validate_step_ids : List (PlanStep R) → Outcome (Unit {0})
  validate_step_ids [] = ok tt
  validate_step_ids (s ∷ steps) =
      if is_safe_path_segment s.step_id
      then validate_step_ids steps
      else err (plan_composition_invalid "unsafe_step_id" (some s.step_id) none none)

  -- `{step.step_id: list(step.depends_on) for step in plan.steps}`
  unfoldable pub deps_by_step_id : List (PlanStep R) → Dict (List String)
  deps_by_step_id steps = dict_of (map (λ s. (s.step_id, s.depends_on)) steps)

-- `deps_by_step_id.get(sid, [])`
unfoldable pub deps_of : Dict (List String) → String → List String
deps_of deps sid = elim (get sid deps) [ none ↦ [] | some ds ↦ ds ]

abbrev pub is_empty : List String → Bool
is_empty [] = true
is_empty _ = false

-- The ids whose set of dependencies is empty.
unfoldable pub ready_of : Dict (List String) → List String → List String
ready_of pending [] = []
ready_of pending (sid ∷ sids) =
    let rest = ready_of pending sids in if is_empty (deps_of pending sid) then sid ∷ rest else rest

-- `ready.append(sid)`, for a step that the removal has left without dependencies. `ready` stands
-- with its end first, so that `pop` and `append` work at the head.
unfoldable pub made_ready : String → List String → String × List String → List String → List String
made_ready current order (sid, deps) ready =
    if contains current deps
      && (is_empty (remove current deps) && (not (contains sid order) && not (contains sid ready)))
    then sid ∷ ready
    else ready

-- The `for` loop over `pending.items()`.
unfoldable pub relax :
    String → List String → Dict (List String) → List String → Dict (List String) × List String
unfolding made_ready
relax current order [] ready = ([], ready)
relax current order ((sid, deps) ∷ pending) ready =
    let (pending', ready') =
      relax current order pending (made_ready current order (sid, deps) ready) in
    ((sid, remove current deps) ∷ pending', ready')

-- The `while` loop; `none` says that the fuel ran out. It gives the order at the loop's end.
unfoldable pub sort_loop : ℕ → Dict (List String) → List String → List String → Option (List String)
sort_loop fuel pending order [] = some order
sort_loop zero pending order (current ∷ ready) = none
sort_loop (suc fuel) pending order (current ∷ ready) =
    let order' = order ++ current ∷ [] in
    let (pending', ready') = relax current order' pending ready in
    sort_loop fuel pending' order' ready'

unfoldable pub pending_of : Dict (List String) → List String → Dict (List String)
pending_of deps sids = dict_of (map (λ sid. (sid, to_set (deps_of deps sid))) sids)

-- What follows the loop.
abbrev pub sorted_or_cycle : List String → Option (List String) → Option (Outcome (List String))
sorted_or_cycle sids none = none
sorted_or_cycle sids (some order) = some (
    if not (nat_eq (length order) (length sids))
    then err (plan_composition_invalid "dependency_cycle" none none none)
    else ok order)

-- `_toposort`; one round for each id is enough.
unfoldable pub toposort_ids : Dict (List String) → List String → Option (Outcome (List String))
unfolding deps_of pending_of ready_of relax sort_loop
toposort_ids deps sids =
    let pending = pending_of deps sids in
    sorted_or_cycle sids
      (sort_loop (length sids) pending [] (reverse_onto [] (ready_of pending sids)))

unfoldable pub toposort : {R : Type 0} → List (PlanStep R) → Option (Outcome (List String))
unfolding toposort_ids
toposort steps = toposort_ids (deps_by_step_id steps) (step_ids steps)
