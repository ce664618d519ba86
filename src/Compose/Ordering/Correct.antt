-- ===== src/Compose/Ordering/Correct.antt =====
-- The order that `toposort` gives, and when it finds a cycle.
use ss.Prelude.{
  reverse_onto, ℕ, zero, suc, ◌<◌, String, ◌≡◌, refl, sym, ap, subst, List, [], ◌∷◌, map, none,
  some, ◌⊎◌, inl, inr, ◌↔◌, arith, In, Distinct, length, Bool-cases, nat_eq, nat_eq_iff,
}
use ss.Prelude.Assoc.{Dict, keys, get-dict_from}
use ss.Prelude.Sets.{length-le_of_Subset, Subset_of_length}
use ss.Exec.{Outcome, ok, err, plan_composition_invalid}
use ss.Compose.Plan.{PlanStep, step_ids, steps_must_have_unique_ids_and_valid_deps}
use ss.Compose.Plan.Valid.{In-step_ids, step_of, IsValid, steps-IsValid}
use ss.Compose.Ordering.{deps_by_step_id, deps_of, ready_of, pending_of, toposort_ids, toposort}
use ss.Compose.Ordering.Loop.{Before, Inv, loop_ends, nil_of_not-In}
use ss.Compose.Ordering.Start.{Inv-start, deps_of-get}

-- The order has each step of the plan once, behind all of the steps that it depends on.
pub record IsOrder {R : Type 0} (steps : List (PlanStep R)) (order : List String) : Type 0 where
  pub once : Distinct order
  pub all : (sid : String) → In sid order ↔ In sid (step_ids steps)
  pub behind :
      (s : PlanStep R) → In s steps → (d : String) → In d s.depends_on → Before d s.step_id order

-- A number for each step that falls along its dependencies: the plan has no cycle.
abbrev pub Ranked : {R : Type 0} → (String → ℕ) → List (PlanStep R) → Type 0
Ranked {R} rank steps =
    (s : PlanStep R) → In s steps → (d : String) → In d s.depends_on → rank d < rank s.step_id

abbrev pub cycle : Outcome (List String)
cycle = err (plan_composition_invalid "dependency_cycle" none none none)

abbrev entry : {R : Type 0} → PlanStep R → String × List String
entry s = (s.step_id, s.depends_on)

keys-entries : {R : Type 0} (steps : List (PlanStep R)) → keys (map entry steps) ≡ step_ids steps
unfolding keys step_ids
keys-entries [] = refl
keys-entries (s ∷ steps) = ap (λ l. s.step_id ∷ l) (keys-entries steps)

In-entries :
    {R : Type 0} (s : PlanStep R) (steps : List (PlanStep R))
    → In s steps
    → In (s.step_id, s.depends_on) (map entry steps)
In-entries s [] m = absurd m
In-entries s (t ∷ steps) m = elim m [
  | inl e ↦ inl (ap entry e)
  | inr rest ↦ inr (In-entries s steps rest)
]

module _ {R : Type 0} (steps : List (PlanStep R)) (valid : IsValid steps) where
  open valid use {unique, known}

  abbrev ids : List String
  ids = step_ids steps

  abbrev deps : String → List String
  deps = deps_of (deps_by_step_id steps)

  pub deps-step : (s : PlanStep R) → In s steps → deps s.step_id ≡ s.depends_on
  unfolding deps_by_step_id
  deps-step s m = deps_of-get s.step_id (deps_by_step_id steps) (
      get-dict_from s.step_id s.depends_on [] (map entry steps) (rw keys-entries unique)
        (In-entries s steps m))

  module _ (pending : Dict (List String)) (order : List String)
      (inv : Inv deps ids pending order []) where
    full-IsOrder : length order ≡ length ids → IsOrder steps order
    full-IsOrder e = record {
      once = inv.order_once;
      all = λ sid. (
        λ m. inv.listed sid (inl m),
        Subset_of_length order ids inv.order_once (λ x m. inv.listed x (inl m)) (omega arith) sid,
      );
      behind = λ s m d k.
          inv.sorted s.step_id d
            (Subset_of_length order ids inv.order_once (λ x n. inv.listed x (inl n)) (omega arith)
              s.step_id (In-step_ids s steps m))
            (rw (deps-step s m) k);
    }

    Ranked-placed :
        (rank : String → ℕ)
        → Ranked rank steps
        → (n : ℕ) (sid : String) → rank sid < n
        → In sid ids
        → In sid order
    Ranked-placed rank ranked zero sid h m = absurd (omega arith)
    Ranked-placed rank ranked (suc n) sid h m =
        let (left, here) = inv.entries sid m in
        let (s, is_step, e) = step_of sid steps m in
        let free = nil_of_not-In left λ d k.
          let (needed, out) = (inv.waits sid left here d).0 k in
          let dep : In d s.depends_on =
            rw (deps-step s is_step) at (subst (λ x. In d (deps x)) (sym e) needed) in
          let below : rank d < rank sid = subst (λ x. rank d < rank x) e (ranked s is_step d dep) in
          out (Ranked-placed rank ranked n d (omega arith) (known s is_step d dep)) in
        elim ((inv.idle sid left here).0 free) [ inl placed ↦ placed | inr n ↦ absurd n ]

    Ranked-full : (rank : String → ℕ) → Ranked rank steps → length order ≡ length ids
    Ranked-full rank ranked = omega (
      arith,
      length-le_of_Subset ids order unique
          (λ x m. Ranked-placed rank ranked (suc (rank x)) x (omega arith) m),
      length-le_of_Subset order ids inv.order_once (λ x m. inv.listed x (inl m)),
    )

  decided :
      ((order : List String) × (toposort steps ≡ some (ok order)) × IsOrder steps order)
      ⊎ ((toposort steps ≡ some cycle) × ((rank : String → ℕ) → ¬ (Ranked rank steps)))
  unfolding toposort toposort_ids
  decided =
      let deps' = deps_by_step_id steps in
      let (pending, order, ends, inv) =
        loop_ends deps ids (length ids) (pending_of deps' ids) []
          (reverse_onto [] (ready_of (pending_of deps' ids) ids)) (Inv-start deps' ids unique)
          (omega arith) in
      elim (Bool-cases (nat_eq (length order) (length ids))) [
        | inl full ↦
            inl (order, rw (ends, full), full-IsOrder pending order inv ((nat_eq_iff _ _).0 full))
        | inr short ↦ inr (
          rw (ends, short),
          λ rank ranked. cc ((nat_eq_iff _ _).1 (Ranked-full pending order inv rank ranked)),
        )
      ]

-- Once the plan's validator has accepted the steps, the sort ends within the fuel. Either it returns
-- an order that has each step exactly once and behind all the steps that it depends on, or it raises
-- `dependency_cycle`, and then no numbering of the steps falls along all dependencies.
pub toposort_decides :
    {R : Type 0} (steps : List (PlanStep R))
    → steps_must_have_unique_ids_and_valid_deps steps ≡ ok tt
    → ((order : List String) × (toposort steps ≡ some (ok order)) × IsOrder steps order)
      ⊎ ((toposort steps ≡ some cycle) × ((rank : String → ℕ) → ¬ (Ranked rank steps)))
toposort_decides steps h = decided steps (steps-IsValid steps h)

-- An order that is returned is one.
pub toposort-IsOrder :
    {R : Type 0} (steps : List (PlanStep R)) (order : List String)
    → IsValid steps
    → toposort steps ≡ some (ok order)
    → IsOrder steps order
toposort-IsOrder steps order valid h = elim (decided steps valid) [
  | inl (order', e, sorted) ↦
      let same : order' ≡ order = cc (e, h) in subst (IsOrder steps) same sorted
  | inr (raises, _) ↦ absurd (cc (raises, h))
]
