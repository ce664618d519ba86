-- ===== src/Compose/Validate/Flow.antt =====
-- A plan that is accepted runs each producer before its consumers.
use ss.Prelude.{
  String, ◌≡◌, refl, sym, ◌∙◌, List, [], ◌∷◌, Option, some, ◌⊎◌, inl, inr, In, Distinct, subst,
}
use ss.Exec.{ok}
use ss.Compose.Plan.{PlanStep, step_ids, steps_must_have_unique_ids_and_valid_deps}
use ss.Compose.Plan.Valid.{In-step_ids, step_of, IsValid, steps-IsValid}
use ss.Compose.Ordering.{deps_by_step_id, deps_of, toposort}
use ss.Compose.Ordering.Loop.{Before}
use ss.Compose.Ordering.Correct.{IsOrder, deps-step, toposort-IsOrder}
use ss.Compose.Refs.{prod, parse_dataset_ref}
use ss.Compose.Depends.Decides.{Depends, here, via}
use ss.Compose.Validate.{CompositionMode, CompositionParams, validate_composition_plan}
use ss.Compose.Validate.Gather.{declared}
use ss.Compose.Validate.Accepts.{
  bindings_of, Comes, from_input, from_step, validate_composition_plan-Checked,
}

Before-In : (a b : String) (xs : List String) → Before a b xs → In b xs
Before-In a b [] h = absurd h
Before-In a b (x ∷ xs) h = elim h [ inl (e, m) ↦ inr m | inr later ↦ inr (Before-In a b xs later) ]

-- In a list without repeats, standing before is transitive.
Before-trans :
    (a b c : String) (xs : List String)
    → Distinct xs
    → Before a b xs
    → Before b c xs
    → Before a c xs
Before-trans a b c [] d h k = absurd h
Before-trans a b c (x ∷ xs) d h k = elim h [
  | inl (e, m) ↦ elim k [ inl (e', m') ↦ inl (e, m') | inr later ↦ inl (e, Before-In b c xs later) ]
  | inr far ↦ elim k [
    | inl (e', m') ↦ absurd (d.0 (subst (λ y. In y xs) (sym e') (Before-In a b xs far)))
    | inr later ↦ inr (Before-trans a b c xs d.1 far later)
  ]
]

module _ {R : Type 0} (steps : List (PlanStep R)) (valid : IsValid steps) (order : List String)
    (sorted : IsOrder steps order) where
  Depends-Before :
      {consumer producer : String}
      → Depends (deps_by_step_id steps) consumer producer
      → In consumer (step_ids steps)
      → (consumer ≡ producer) ⊎ Before producer consumer order
  Depends-Before here m = inl refl
  Depends-Before (via {a = a} {b = d} {c = c} k p) m =
      let (s, is_step, named) = step_of a steps m in
      let dep : In d s.depends_on =
        rw (deps-step steps valid s is_step) at
          (subst (λ x. In d (deps_of (deps_by_step_id steps) x)) (sym named) k) in
      let first : Before d a order =
        subst (λ x. Before d x order) named (sorted.behind s is_step d dep) in
      elim (Depends-Before p (valid.known s is_step d dep)) [
        | inl same ↦ inr (subst (λ x. Before x a order) same first)
        | inr earlier ↦ inr (Before-trans c d a order sorted.once earlier first)
      ]

-- What a consumer takes from a step: the step declares the product, and is the consumer itself or
-- stands before it in the order.
pub record Flows {R : Type 0} (model_validate : R → Option CompositionParams)
    (steps : List (PlanStep R)) (order : List String) (consumer producer product_id : String)
    : Type 0 where
  pub step : PlanStep R
  pub planned : In step steps
  pub named : step.step_id ≡ producer
  pub params : CompositionParams
  pub parsed : model_validate step.params ≡ some params
  pub declares : In product_id (declared params)
  pub before : (producer ≡ consumer) ⊎ Before producer consumer order

Comes-Flows :
    {R : Type 0} (model_validate : R → Option CompositionParams) (steps : List (PlanStep R))
    (known : List String) (valid : IsValid steps) (order : List String)
    → IsOrder steps order
    → (s : PlanStep R) (ref producer product_id : String) → In s steps
    → parse_dataset_ref ref ≡ ok (prod producer product_id)
    → Comes model_validate steps known s.step_id ref
    → Flows model_validate steps order s.step_id producer product_id
Comes-Flows model_validate steps known valid order sorted s ref producer product_id is_step refers
      (from_input key e k) =
    absurd (cc (e, refers))
Comes-Flows model_validate steps known valid order sorted s ref producer product_id is_step refers
      (from_step t params id e planned parsed declares depends) =
    let named : t.step_id ≡ producer = cc (e, refers) in
    let same : id ≡ product_id = cc (e, refers) in
    record {
      step = t;
      planned = planned;
      named = named;
      params = params;
      parsed = parsed;
      declares = rw (← same) declares;
      before =
          elim (Depends-Before steps valid order sorted depends (In-step_ids s steps is_step)) [
            | inl e' ↦ inl (sym named ∙ sym e')
            | inr earlier ↦ inr (subst (λ x. Before x s.step_id order) named earlier)
          ];
    }

-- Where the plan's validator accepts the steps, `validate_composition_plan` returns a mode and the
-- sort returns an order, every product that a binding of a step refers to is declared by a step of
-- the plan, which is the consumer itself or comes before it in the order.
pub bindings-Flows :
    {R : Type 0} (model_validate : R → Option CompositionParams) (steps : List (PlanStep R))
    (known : List String) (mode : CompositionMode) (order : List String)
    → steps_must_have_unique_ids_and_valid_deps steps ≡ ok tt
    → validate_composition_plan model_validate steps known ≡ ok mode
    → toposort steps ≡ some (ok order)
    → (s : PlanStep R) (params : CompositionParams) (role ref producer product_id : String)
    → In s steps
    → model_validate s.params ≡ some params
    → In (role, ref) (bindings_of params)
    → parse_dataset_ref ref ≡ ok (prod producer product_id)
    → Flows model_validate steps order s.step_id producer product_id
bindings-Flows model_validate steps known mode order valid checked sorts s params role ref producer
      product_id is_step parsed bound refers =
    let v = steps-IsValid steps valid in
    let sorted = toposort-IsOrder steps order v sorts in
    let c =
      validate_composition_plan-Checked model_validate steps known mode valid checked s is_step in
    let same : c.params ≡ params = cc (c.parsed, parsed) in
    Comes-Flows model_validate steps known v order sorted s ref producer product_id is_step refers
      (c.bound role ref (rw same bound)).1
