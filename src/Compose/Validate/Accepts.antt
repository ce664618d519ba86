-- ===== src/Compose/Validate/Accepts.antt =====
-- What `validate_composition_plan` has made sure of when it returns.
use ss.Prelude.{
  String, ◌≡◌, refl, subst, true, false, List, [], ◌∷◌, Option, none, some, inl, inr, ◌≢◌, arith,
  In, Distinct, contains, contains_iff, Option-cases,
}
use ss.Prelude.Text.{is_blank}
use ss.Prelude.Assoc.{Dict, get}
use ss.Exec.{Outcome, ok, err, and_then-eq-ok, plan_composition_invalid}
use ss.Compose.Plan.{
  PlanStep, is_do_generation_step_type, step_ids, steps_must_have_unique_ids_and_valid_deps,
}
use ss.Compose.Plan.Valid.{step_of, steps-IsValid}
use ss.Compose.Ordering.{deps_by_step_id}
use ss.Compose.Refs.{DatasetRef, input, prod, parse_dataset_ref, parse_dataset_ref_or_error}
use ss.Compose.Depends.{depends_transitively}
use ss.Compose.Depends.Decides.{Depends, depends_transitively_decides}
use ss.Compose.Validate.{
  CompositionMode, PlanProduct, CompositionParams, Collected, nothing_collected,
  validate_step_requirements, validate_ref, validate_input_binding, validate_input_bindings,
  collect_steps, collect_step_params, validate_steps, validate_composition_plan,
}
use ss.Compose.Validate.Gather.{declared, collect_steps-Gathered, collect_steps-producer}

-- The bindings that a step declares.
abbrev pub bindings_of : CompositionParams → Dict String
bindings_of params = elim params.input_bindings [ none ↦ [] | some bs ↦ bs ]

ref_read :
    (step_id ref : String) (r : DatasetRef)
    → parse_dataset_ref_or_error step_id ref ≡ ok r
    → parse_dataset_ref ref ≡ ok r
unfolding parse_dataset_ref_or_error
ref_read step_id ref r h = ground arith

-- What a step that generates a do-file has to declare.
pub record Declares (params : CompositionParams) : Type 0 where
  pub template_id : String
  pub template : params.template_id ≡ some template_id
  pub template_filled : is_blank template_id ≡ false
  pub bindings : bindings_of params ≢ []
  pub products : (ps : List PlanProduct) × (params.products ≡ some ps)

requirements-Declares :
    {R : Type 0} (step : PlanStep R) (params : CompositionParams)
    → validate_step_requirements step params ≡ ok tt
    → is_do_generation_step_type step.type ≡ true
    → Declares params
unfolding validate_step_requirements
requirements-Declares step params h does = elim (Option-cases params.template_id) [
  | inl gone ↦ absurd (ground arith)
  | inr (template_id, there) ↦ elim (Option-cases params.products) [
    | inl gone ↦ absurd (ground arith)
    | inr (ps, listed) ↦ record {
      template_id = template_id;
      template = there;
      template_filled = ground arith;
      bindings = ground arith;
      products = (ps, listed);
    }
  ]
]

module _ (known : List String) (products deps : Dict (List String)) (consumer ref : String) where
  known-input :
      (key : String)
      → validate_ref known products deps consumer ref (input key) ≡ ok tt
      → In key known
  unfolding validate_ref
  known-input key h = (contains_iff key known).0 (ground arith)

  known-product :
      (producer product_id : String)
      → validate_ref known products deps consumer ref (prod producer product_id) ≡ ok tt
      → (ids : List String) × (get producer products ≡ some ids)
        × (contains product_id ids ≡ true)
        × (depends_transitively deps consumer producer ≡ some true)
  unfolding validate_ref
  known-product producer product_id h = elim (Option-cases (get producer products)) [
    | inl gone ↦ absurd (ground arith)
    | inr (ids, there) ↦ (ids, there, ground arith, ground arith)
  ]

  binding-parts :
      (role : String)
      → validate_input_binding known products deps consumer role ref ≡ ok tt
      → (is_blank role ≡ false)
        × ((r : DatasetRef) × (parse_dataset_ref ref ≡ ok r)
            × (validate_ref known products deps consumer ref r ≡ ok tt))
  unfolding validate_input_binding
  binding-parts role h =
      let filled : is_blank role ≡ false = ground arith in
      let there : is_blank ref ≡ false = ground arith in
      let (r, read, checked) =
        and_then-eq-ok (parse_dataset_ref_or_error consumer ref) _ (rw (filled, there) at h) in
      (filled, (r, ref_read consumer ref r read, checked))

module _ {R : Type 0} (model_validate : R → Option CompositionParams) (steps : List (PlanStep R))
    (known : List String) where
  abbrev deps : Dict (List String)
  deps = deps_by_step_id steps

  -- Where the dataset of a reference comes from: an input of the job, or a declared product of a
  -- step that the consumer is or depends on.
  pub data Comes (consumer ref : String) : Type 0 where
    from_input :
        (key : String) → parse_dataset_ref ref ≡ ok (input key) → In key known → Comes consumer ref
    from_step :
        (producer : PlanStep R) (params : CompositionParams) (product_id : String)
        → parse_dataset_ref ref ≡ ok (prod producer.step_id product_id)
        → In producer steps
        → model_validate producer.params ≡ some params
        → In product_id (declared params)
        → Depends deps consumer producer.step_id
        → Comes consumer ref

  pub record Checked (mode : CompositionMode) (s : PlanStep R) : Type 0 where
    pub params : CompositionParams
    pub parsed : model_validate s.params ≡ some params
    pub moded : params.composition_mode ≡ mode
    pub required : is_do_generation_step_type s.type ≡ true → Declares params
    pub bound :
        (role ref : String)
        → In (role, ref) (bindings_of params)
        → (is_blank role ≡ false) × Comes s.step_id ref

  module _ (c : Collected) (d : Distinct (step_ids steps))
      (gathered : collect_steps model_validate steps nothing_collected ≡ ok c) where
    validate_ref-Comes :
        (consumer ref : String) (r : DatasetRef)
        → parse_dataset_ref ref ≡ ok r
        → validate_ref known c.products_by_step_id deps consumer ref r ≡ ok tt
        → Comes consumer ref
    unfolding validate_ref
    validate_ref-Comes consumer ref (input key) e h =
        from_input key e (known-input known c.products_by_step_id deps consumer ref key h)
    validate_ref-Comes consumer ref (prod producer product_id) e h =
        let (ids, there, listed, depends) =
          known-product known c.products_by_step_id deps consumer ref producer product_id h in
        let (s, m, named) =
          step_of producer steps
            (collect_steps-producer model_validate steps c producer ids gathered there) in
        let g = collect_steps-Gathered model_validate steps nothing_collected c d gathered s m in
        let (b, answer, decides) = depends_transitively_decides deps consumer producer in
        let same : g.ids ≡ ids = cc (g.ids_at, named, there) in
        from_step s g.params product_id (rw named e) m g.parsed
          (g.declares product_id (rw same ((contains_iff product_id ids).0 listed)))
          (rw named (decides.0 (cc (answer, depends))))

    validate_input_binding-Comes :
        (consumer role ref : String)
        → validate_input_binding known c.products_by_step_id deps consumer role ref ≡ ok tt
        → (is_blank role ≡ false) × Comes consumer ref
    unfolding validate_input_binding
    validate_input_binding-Comes consumer role ref h =
        let (filled, (r, e, k)) =
          binding-parts known c.products_by_step_id deps consumer ref role h in
        (filled, validate_ref-Comes consumer ref r e k)

    validate_input_bindings-Comes :
        (consumer : String) (bindings : Dict String)
        → validate_input_bindings known c.products_by_step_id deps consumer bindings ≡ ok tt
        → (role ref : String) → In (role, ref) bindings
        → (is_blank role ≡ false) × Comes consumer ref
    unfolding validate_input_bindings
    validate_input_bindings-Comes consumer [] h role ref m = absurd m
    validate_input_bindings-Comes consumer ((k, v) ∷ bindings) h role ref m =
        let (_, first, rest) =
          and_then-eq-ok (validate_input_binding known c.products_by_step_id deps consumer k v) _
            h in
        elim m [
          | inl e ↦
              let here = validate_input_binding-Comes consumer k v first in
              subst (λ p. (is_blank p.0 ≡ false) × Comes consumer p.1) e here
          | inr later ↦ validate_input_bindings-Comes consumer bindings rest role ref later
        ]

  validate_steps-Checked :
      (mode : CompositionMode) (c : Collected)
      → Distinct (step_ids steps)
      → collect_steps model_validate steps nothing_collected ≡ ok c
      → c.mode ≡ some mode
      → (todo : List (PlanStep R)) → ((s : PlanStep R) → In s todo → In s steps)
      → validate_steps model_validate known deps c todo ≡ ok tt
      → (s : PlanStep R) → In s todo
      → Checked mode s
  unfolding validate_steps
  validate_steps-Checked mode c d gathered moded [] sub h s m = absurd m
  validate_steps-Checked mode c d gathered moded (t ∷ todo) sub h s m =
      let g =
        collect_steps-Gathered model_validate steps nothing_collected c d gathered t
          (sub t (inl refl)) in
      let (_, required, more) =
        and_then-eq-ok (validate_step_requirements t g.params) _
          (rw (g.params_at, validate_steps) at h) in
      let (_, bound, rest) =
        and_then-eq-ok
          (validate_input_bindings known c.products_by_step_id deps t.step_id
            (bindings_of g.params))
          _ more in
      elim m [
        | inl e ↦ subst (Checked mode) e (record {
          params = g.params;
          parsed = g.parsed;
          moded = cc (g.moded, moded);
          required = requirements-Declares t g.params required;
          bound = validate_input_bindings-Comes c d gathered t.step_id (bindings_of g.params) bound;
        })
        | inr later ↦
            validate_steps-Checked mode c d gathered moded todo (λ x n. sub x (inr n)) rest s later
      ]

collected_mode :
    {R : Type 0} (model_validate : R → Option CompositionParams) (steps : List (PlanStep R))
    (mode : CompositionMode) (c : Collected)
    → collect_step_params model_validate steps ≡ ok (mode, c)
    → (collect_steps model_validate steps nothing_collected ≡ ok c) × (c.mode ≡ some mode)
unfolding collect_step_params
collected_mode model_validate steps mode c h =
    let (c', gathered, rest) =
      and_then-eq-ok (collect_steps model_validate steps nothing_collected) _ h in
    elim (Option-cases c'.mode) [
      | inl empty ↦
          let bad : ◌≡◌ {A = Outcome (CompositionMode × Collected)}
              (err (plan_composition_invalid "missing_steps" none none none)) (ok (mode, c)) =
            rw empty at rest in
          absurd (cc)
      | inr (m, there) ↦
          let same : ◌≡◌ {A = Outcome (CompositionMode × Collected)} (ok (m, c')) (ok (mode, c)) =
            rw there at rest in
          let e : c' ≡ c = cc in (cc (gathered, e), cc (there, e))
    ]

-- Once the plan's validator has accepted the steps and `validate_composition_plan` has returned a
-- mode, each step's parameters are readable and of that mode and meet the requirements of the step's
-- type, and each of its bindings has a role and a dataset that comes from an input of the job or from a
-- declared product of a step of the plan that the consumer is or depends on.
pub validate_composition_plan-Checked :
    {R : Type 0} (model_validate : R → Option CompositionParams) (steps : List (PlanStep R))
    (known : List String) (mode : CompositionMode)
    → steps_must_have_unique_ids_and_valid_deps steps ≡ ok tt
    → validate_composition_plan model_validate steps known ≡ ok mode
    → (s : PlanStep R) → In s steps
    → Checked model_validate steps known mode s
unfolding validate_composition_plan
validate_composition_plan-Checked model_validate steps known mode valid h s m =
    let d = (steps-IsValid steps valid).unique in
    let (collected, gathered, rest) =
      and_then-eq-ok (collect_step_params model_validate steps) _ h in
    let (mode', c) = collected in
    let (steps_gathered, moded) = collected_mode model_validate steps mode' c gathered in
    let (_, checked, last) =
      and_then-eq-ok (validate_steps model_validate known (deps_by_step_id steps) c steps) _ rest in
    let same : mode' ≡ mode = cc in
    subst (λ x. Checked model_validate steps known x s) same
      (validate_steps-Checked model_validate steps known mode' c d steps_gathered moded steps
        (λ x n. n) checked s m)
