-- ===== src/Compose/Ordering/Relax.antt =====
-- What one pass over the pending steps does to their dependencies and to the ready steps.
use ss.Prelude.{
  String, ◌≡◌, sym, ap, subst, true, List, [], ◌∷◌, ◌⊎◌, inl, inr, ◌↔◌, arith, In, Distinct,
  contains_iff,
}
use ss.Prelude.Assoc.{Dict}
use ss.Prelude.Sets.{remove}
use ss.Compose.Ordering.{is_empty, made_ready, relax}

pub is_empty_iff : (xs : List String) → (is_empty xs ≡ true) ↔ (xs ≡ [])
is_empty_iff [] = ground arith
is_empty_iff (x ∷ xs) = ground arith

module _ (current : String) (order : List String) where
  -- The step has just lost its last dependency.
  pub record Freed (sid : String) (deps : List String) : Type 0 where
    pub waited : In current deps
    pub emptied : remove current deps ≡ []
    pub unplaced : ¬ (In sid order)

  In-made_ready :
      (x sid : String) (deps ready : List String)
      → In x (made_ready current order (sid, deps) ready)
      → In x ready ⊎ ((x ≡ sid) × Freed sid deps)
  unfolding made_ready
  In-made_ready x sid deps ready m = ground (
    arith,
    contains_iff current deps,
    is_empty_iff (remove current deps),
    contains_iff sid order,
    contains_iff sid ready,
  )

  made_ready-In :
      (x sid : String) (deps ready : List String)
      → In x ready
      → In x (made_ready current order (sid, deps) ready)
  unfolding made_ready
  made_ready-In x sid deps ready m = ground (
    arith,
    contains_iff current deps,
    is_empty_iff (remove current deps),
    contains_iff sid order,
    contains_iff sid ready,
  )

  made_ready-Freed :
      (sid : String) (deps ready : List String)
      → Freed sid deps
      → In sid (made_ready current order (sid, deps) ready)
  unfolding made_ready
  made_ready-Freed sid deps ready f = ground (
    arith,
    contains_iff current deps,
    is_empty_iff (remove current deps),
    contains_iff sid order,
    contains_iff sid ready,
  )

  made_ready-Distinct :
      (sid : String) (deps ready : List String)
      → Distinct ready
      → Distinct (made_ready current order (sid, deps) ready)
  unfolding made_ready
  made_ready-Distinct sid deps ready d = ground (
    arith,
    contains_iff current deps,
    is_empty_iff (remove current deps),
    contains_iff sid order,
    contains_iff sid ready,
  )

  -- The entries after the pass are those before it, less the step that has been placed.
  pub relax-entry :
      (sid : String) (left : List String) (pending : Dict (List String)) (ready : List String)
      → In (sid, left) (relax current order pending ready).0
      → (deps : List String) × In (sid, deps) pending × (left ≡ remove current deps)
  unfolding relax
  relax-entry sid left [] ready m = absurd m
  relax-entry sid left ((k, ds) ∷ pending) ready m = elim m [
    | inl e ↦ (ds, inl (λ i. ((e i).0, ds)), sym (ap (λ p. p.1) e))
    | inr rest ↦
        let (deps, n, h) =
          relax-entry sid left pending (made_ready current order (k, ds) ready) rest in
        (deps, inr n, h)
  ]

  pub entry-relax :
      (sid : String) (deps : List String) (pending : Dict (List String)) (ready : List String)
      → In (sid, deps) pending
      → In (sid, remove current deps) (relax current order pending ready).0
  unfolding relax
  entry-relax sid deps [] ready m = absurd m
  entry-relax sid deps ((k, ds) ∷ pending) ready m = elim m [
    | inl e ↦ inl (ap (λ p. (p.0, remove current p.1)) e)
    | inr rest ↦ inr (entry-relax sid deps pending (made_ready current order (k, ds) ready) rest)
  ]

  pub relax-ready :
      (x : String) (pending : Dict (List String)) (ready : List String)
      → In x (relax current order pending ready).1
      → In x ready ⊎ ((deps : List String) × In (x, deps) pending × Freed x deps)
  unfolding relax
  relax-ready x [] ready m = inl m
  relax-ready x ((k, ds) ∷ pending) ready m =
      elim (relax-ready x pending (made_ready current order (k, ds) ready) m) [
        | inl here ↦ elim (In-made_ready x k ds ready here) [
          | inl old ↦ inl old
          | inr (e, f) ↦ inr (ds, inl (ap (λ y. (y, ds)) (sym e)), rw e f)
        ]
        | inr (deps, n, f) ↦ inr (deps, inr n, f)
      ]

  pub ready-relax :
      (x : String) (pending : Dict (List String)) (ready : List String)
      → In x ready
      → In x (relax current order pending ready).1
  unfolding relax
  ready-relax x [] ready m = m
  ready-relax x ((k, ds) ∷ pending) ready m = ready-relax x pending _ (made_ready-In x k ds ready m)

  pub Freed-relax :
      (x : String) (deps : List String) (pending : Dict (List String)) (ready : List String)
      → In (x, deps) pending
      → Freed x deps
      → In x (relax current order pending ready).1
  unfolding relax
  Freed-relax x deps [] ready m f = absurd m
  Freed-relax x deps ((k, ds) ∷ pending) ready m f = elim m [
    | inl e ↦ ready-relax x pending _ (
        subst (λ y. In y (made_ready current order (k, ds) ready)) (ap (λ p. p.0) e)
          (made_ready-Freed k ds ready (subst (λ p. Freed p.0 p.1) (sym e) f)))
    | inr rest ↦ Freed-relax x deps pending (made_ready current order (k, ds) ready) rest f
  ]

  pub relax-Distinct :
      (pending : Dict (List String)) (ready : List String)
      → Distinct ready
      → Distinct (relax current order pending ready).1
  unfolding relax
  relax-Distinct [] ready d = d
  relax-Distinct ((k, ds) ∷ pending) ready d =
      relax-Distinct pending _ (made_ready-Distinct k ds ready d)
