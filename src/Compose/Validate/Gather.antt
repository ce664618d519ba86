-- ===== src/Compose/Validate/Gather.antt =====
-- What the loop of `_collect_step_params` has gathered when it returns.
use ss.Prelude.{
  String, ◌≡◌, refl, sym, ap, subst, ◌∙◌, true, List, [], ◌∷◌, Option, none, some, ◌⊎◌, inl, inr,
  arith, In, Distinct, contains, contains_iff, Bool-cases,
}
use ss.Prelude.Assoc.{get, get-put_self, get-put_other}
use ss.Exec.{ok, err, and_then-eq-ok, plan_composition_invalid}
use ss.Compose.Plan.{PlanStep, step_ids}
use ss.Compose.Validate.{
  CompositionMode, mode_eq, PlanProduct, CompositionParams, seen_product_ids, product_ids,
  Collected, same_mode, add_step, parse_step_params, nothing_collected, collect_step, collect_steps,
}

abbrev pub ids_of : List PlanProduct → List String
ids_of [] = []
ids_of (p ∷ ps) = p.product_id ∷ ids_of ps

-- The ids of the products that a step declares.
abbrev pub declared : CompositionParams → List String
declared params = ids_of (elim params.products [ none ↦ [] | some ps ↦ ps ])

ok-injective : {A : Type 0} {a b : A} → ok a ≡ ok b → a ≡ b
ok-injective h = cc

seen_product_ids-In :
    (step_id : String) (seen : List String) (ps : List PlanProduct) (out : List String)
    → seen_product_ids step_id seen ps ≡ ok out
    → (x : String) → In x out
    → In x (ids_of ps) ⊎ In x seen
unfolding seen_product_ids
seen_product_ids-In step_id seen [] out h x m = inr (rw (← ok-injective h) at m)
seen_product_ids-In step_id seen (p ∷ ps) out h x m =
    elim (Bool-cases (contains p.product_id seen)) [
      | inl again ↦
          let bad : err (
                plan_composition_invalid "duplicate_product_id" (some step_id) none
                  (some p.product_id))
              ≡ ok out =
            rw again at h in
          absurd (cc)
      | inr new ↦
          elim (seen_product_ids-In step_id (p.product_id ∷ seen) ps out (rw new at h) x m) [
            | inl later ↦ inl (inr later)
            | inr old ↦ elim old [ inl e ↦ inl (inl e) | inr o ↦ inr o ]
          ]
    ]

mode_eq-eq : (a b : CompositionMode) → mode_eq a b ≡ true → a ≡ b
mode_eq-eq a b h = ground arith

product_ids-In :
    (step_id : String) (params : CompositionParams) (ids : List String)
    → product_ids step_id params ≡ ok ids
    → (x : String) → In x ids
    → In x (declared params)
unfolding product_ids
product_ids-In step_id params ids h x m =
    elim (seen_product_ids-In step_id [] (elim params.products [ none ↦ [] | some ps ↦ ps ]) ids h x
      m) [ inl there ↦ there | inr n ↦ absurd n ]

mode_after :
    (mode : Option CompositionMode) (m : CompositionMode)
    → same_mode mode m ≡ true
    → some (elim mode [ none ↦ m | some old ↦ old ]) ≡ some m
mode_after none m h = refl
mode_after (some old) m h = ap some (sym (mode_eq-eq m old h))

module _ {R : Type 0} (model_validate : R → Option CompositionParams) where
  -- A step that has been gathered: its parameters, and the ids of its products.
  pub record Gathered (c : Collected) (step : PlanStep R) : Type 0 where
    pub params : CompositionParams
    pub ids : List String
    pub parsed : model_validate step.params ≡ some params
    pub moded : c.mode ≡ some params.composition_mode
    pub declares : (x : String) → In x ids → In x (declared params)
    pub params_at : get step.step_id c.params_by_step_id ≡ some params
    pub ids_at : get step.step_id c.products_by_step_id ≡ some ids

  parse_step_params-ok :
      (step : PlanStep R) (params : CompositionParams)
      → parse_step_params model_validate step ≡ ok params
      → model_validate step.params ≡ some params
  unfolding parse_step_params
  parse_step_params-ok step params h = ground arith

  -- The parameters of a step that was gathered, and the ids of its products.
  abbrev Parts : PlanStep R → Collected → Collected → Type 0
  Parts step c c' =
      (params : CompositionParams) × (ids : List String) × (model_validate step.params
        ≡ some params)
      × (product_ids step.step_id params ≡ ok ids)
      × (same_mode c.mode params.composition_mode ≡ true)
      × (add_step step params ids c ≡ c')

  collect_step-Parts :
      (step : PlanStep R) (c c' : Collected)
      → collect_step model_validate step c ≡ ok c'
      → Parts step c c'
  unfolding collect_step
  collect_step-Parts step c c' h =
      let (params, parsed, rest) = and_then-eq-ok (parse_step_params model_validate step) _ h in
      elim (Bool-cases (same_mode c.mode params.composition_mode)) [
        | inl same ↦
            let (ids, declares, last) =
              and_then-eq-ok (product_ids step.step_id params)
                (λ ids. ok (add_step step params ids c)) (rw same at rest) in
            (
              params,
              ids,
              parse_step_params-ok step params parsed,
              declares,
              same,
              ok-injective last,
            )
        | inr other ↦
            let bad : err (
                  plan_composition_invalid "composition_mode_mismatch" (some step.step_id) none
                    none)
                ≡ ok c' =
              rw other at rest in
            absurd (cc)
      ]

  collect_step-Gathered :
      (step : PlanStep R) (c c' : Collected)
      → collect_step model_validate step c ≡ ok c'
      → Gathered c' step
  unfolding collect_step
  collect_step-Gathered step c c' h =
      let (params, ids, parsed, declares, same, e) = collect_step-Parts step c c' h in
      rw (← e) (record {
        params = params;
        ids = ids;
        parsed = parsed;
        moded = mode_after c.mode params.composition_mode same;
        declares = product_ids-In step.step_id params ids declares;
        params_at = get-put_self step.step_id params c.params_by_step_id;
        ids_at = get-put_self step.step_id ids c.products_by_step_id;
      })

  -- Another step, and the mode, stay as they were.
  record Keeps (c c' : Collected) (ids : List String) : Type 0 where
    params_kept :
        (k : String) → ¬ (In k ids) → get k c'.params_by_step_id ≡ get k c.params_by_step_id
    products_kept :
        (k : String) → ¬ (In k ids) → get k c'.products_by_step_id ≡ get k c.products_by_step_id
    mode_kept : (m : CompositionMode) → c.mode ≡ some m → c'.mode ≡ some m

  Gathered-Keeps :
      (step : PlanStep R) (c c' : Collected) (ids : List String)
      → ¬ (In step.step_id ids)
      → Gathered c step
      → Keeps c c' ids
      → Gathered c' step
  Gathered-Keeps step c c' ids out g k = record {
    params = g.params;
    ids = g.ids;
    parsed = g.parsed;
    moded = k.mode_kept _ g.moded;
    declares = g.declares;
    params_at = k.params_kept step.step_id out ∙ g.params_at;
    ids_at = k.products_kept step.step_id out ∙ g.ids_at;
  }

  collect_step-Keeps :
      (step : PlanStep R) (c c' : Collected)
      → collect_step model_validate step c ≡ ok c'
      → Keeps c c' (step.step_id ∷ [])
  unfolding collect_step
  collect_step-Keeps step c c' h =
      let (params, ids, parsed, declares, same, e) = collect_step-Parts step c c' h in
      rw (← e) (record {
        params_kept =
            λ k out. get-put_other step.step_id k params c.params_by_step_id (λ e. out (inl e));
        products_kept =
            λ k out. get-put_other step.step_id k ids c.products_by_step_id (λ e. out (inl e));
        mode_kept = λ m now. rw now;
      })

  collect_steps-Keeps :
      (steps : List (PlanStep R)) (c c' : Collected)
      → collect_steps model_validate steps c ≡ ok c'
      → Keeps c c' (step_ids steps)
  unfolding collect_steps step_ids
  collect_steps-Keeps [] c c' h = rw (← ok-injective h) (record {
    params_kept = λ k out. refl;
    products_kept = λ k out. refl;
    mode_kept = λ m now. now;
  })
  collect_steps-Keeps (s ∷ steps) c c' h =
      let (c'', first, rest) = and_then-eq-ok (collect_step model_validate s c) _ h in
      let now = collect_step-Keeps s c c'' first in
      let later = collect_steps-Keeps steps c'' c' rest in
      let not_now : (k : String)
          → ¬ (In k (s.step_id ∷ step_ids steps))
          → ¬ (In k (s.step_id ∷ [])) =
        λ k out m. elim m [ inl e ↦ out (inl e) | inr n ↦ n ] in
      record {
        params_kept =
            λ k out. later.params_kept k (λ m. out (inr m)) ∙ now.params_kept k (not_now k out);
        products_kept =
            λ k out. later.products_kept k (λ m. out (inr m)) ∙ now.products_kept k (not_now k out);
        mode_kept = λ m e. later.mode_kept m (now.mode_kept m e);
      }

  -- Each step has been gathered, and nothing else has products.
  pub collect_steps-Gathered :
      (steps : List (PlanStep R)) (c c' : Collected)
      → Distinct (step_ids steps)
      → collect_steps model_validate steps c ≡ ok c'
      → (s : PlanStep R) → In s steps
      → Gathered c' s
  unfolding collect_steps step_ids
  collect_steps-Gathered [] c c' d h s m = absurd m
  collect_steps-Gathered (t ∷ steps) c c' d h s m =
      let (c'', first, rest) = and_then-eq-ok (collect_step model_validate t c) _ h in
      elim m [
        | inl e ↦ subst (Gathered c') e (
            Gathered-Keeps t c'' c' (step_ids steps) d.0 (collect_step-Gathered t c c'' first)
              (collect_steps-Keeps steps c'' c' rest))
        | inr later ↦ collect_steps-Gathered steps c'' c' d.1 rest s later
      ]

  -- Only a step of the plan has products.
  pub collect_steps-producer :
      (steps : List (PlanStep R)) (c : Collected) (k : String) (ids : List String)
      → collect_steps model_validate steps nothing_collected ≡ ok c
      → get k c.products_by_step_id ≡ some ids
      → In k (step_ids steps)
  unfolding get
  collect_steps-producer steps c k ids h e = elim (Bool-cases (contains k (step_ids steps))) [
    | inl there ↦ (contains_iff k (step_ids steps)).0 there
    | inr out ↦
        let kept =
          (collect_steps-Keeps steps nothing_collected c h).products_kept k
            (λ m. cc ((contains_iff k (step_ids steps)).1 m)) in
        absurd (cc)
  ]
