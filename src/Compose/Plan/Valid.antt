-- ===== src/Compose/Plan/Valid.antt =====
-- What the validator of a plan's steps has checked.
use ss.Prelude.{
  str_append, String, ◌≡◌, refl, ap, List, [], ◌∷◌, inl, inr, In, Distinct, length, contains,
  contains_iff, Bool-cases, nat_eq, nat_eq_iff,
}
use ss.Prelude.Sets.{to_set, In-to_set, Distinct-of_length-to_set}
use ss.Exec.{ok, err, value_error, and_then-eq-ok}
use ss.Compose.Plan.{
  PlanStep, step_ids, known_deps, known_fallback, known_steps,
  steps_must_have_unique_ids_and_valid_deps,
}

-- A step with that id stands in the plan.
pub In-step_ids :
    {R : Type 0} (s : PlanStep R) (steps : List (PlanStep R))
    → In s steps
    → In s.step_id (step_ids steps)
unfolding step_ids
In-step_ids s [] m = absurd m
In-step_ids s (t ∷ ts) m = elim m [
  | inl e ↦ inl (ap (λ x. x.step_id) e)
  | inr rest ↦ inr (In-step_ids s ts rest)
]

-- The step of an id.
pub step_of :
    {R : Type 0} (sid : String) (steps : List (PlanStep R))
    → In sid (step_ids steps)
    → (s : PlanStep R) × In s steps × (s.step_id ≡ sid)
unfolding step_ids
step_of sid [] m = absurd m
step_of sid (t ∷ ts) m = elim m [
  | inl e ↦ (t, inl refl, e)
  | inr rest ↦ let (s, n, e) = step_of sid ts rest in (s, inr n, e)
]

known_deps-In :
    (known deps : List String)
    → known_deps known deps ≡ ok tt
    → (d : String) → In d deps
    → In d known
unfolding known_deps
known_deps-In known [] h d m = absurd m
known_deps-In known (dep ∷ deps) h d m = elim (Bool-cases (contains dep known)) [
  | inl there ↦ elim m [
    | inl e ↦ rw (← e) ((contains_iff dep known).0 there)
    | inr rest ↦ known_deps-In known deps (rw there at h) d rest
  ]
  | inr out ↦
      let bad : err (value_error (str_append "unknown dependency: " dep)) ≡ ok tt = rw out at h in
      cc
]

module _ {R : Type 0} where
  known_steps-In :
      (known : List String) (steps : List (PlanStep R))
      → known_steps known steps ≡ ok tt
      → (s : PlanStep R) → In s steps
      → (d : String) → In d s.depends_on
      → In d known
  unfolding known_steps
  known_steps-In known [] h s m d k = absurd m
  known_steps-In known (t ∷ ts) h s m d k =
      let (_, here, rest) = and_then-eq-ok (known_deps known t.depends_on) _ h in
      let (_, _, later) = and_then-eq-ok (known_fallback known t.fallback_step_id) _ rest in
      elim m [
        | inl e ↦ known_deps-In known t.depends_on here d (rw (← e) at k)
        | inr n ↦ known_steps-In known ts later s n d k
      ]

  pub record IsValid (steps : List (PlanStep R)) : Type 0 where
    pub unique : Distinct (step_ids steps)
    pub known :
        (s : PlanStep R) → In s steps → (d : String) → In d s.depends_on → In d (step_ids steps)

  pub steps-IsValid :
      (steps : List (PlanStep R))
      → steps_must_have_unique_ids_and_valid_deps steps ≡ ok tt
      → IsValid steps
  unfolding steps_must_have_unique_ids_and_valid_deps
  steps-IsValid steps h =
      let ids = step_ids steps in
      elim (Bool-cases (nat_eq (length ids) (length (to_set ids)))) [
        | inl same ↦
            let rest : known_steps (to_set ids) steps ≡ ok tt = rw same at h in
            record {
              unique = Distinct-of_length-to_set ids ((nat_eq_iff _ _).0 same);
              known =
                  λ s m d k. (In-to_set d ids).0 (known_steps-In (to_set ids) steps rest s m d k);
            }
        | inr other ↦
            let bad : err (value_error "steps contain duplicate step_id") ≡ ok tt = rw other at h in
            absurd (cc)
      ]
