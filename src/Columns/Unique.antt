-- ===== src/Columns/Unique.antt =====
-- The run of the loop that names columns: how its set of used names and its result go together.
use ss.Prelude.{
  ℕ, suc, ◌+◌, ◌≡◌, refl, ◌∙◌, ap, inl, inr, ◌↔◌, String, List, [], ◌∷◌, some, arith, length,
  length-append, In, In-append, Distinct, Option-cases,
}
use ss.Prelude.Sets.{In-add, Distinct-snoc}
use Prim.Native.Char.{Char}
use ss.Columns.{
  chosen, named, and_then, first_count, first_candidate, Naming, name_one, names_from,
  stata_safe_unique_names,
}
use ss.Columns.Candidates.{next_free-total, next_free-free}

-- The names that were given are distinct, and the set of used names is theirs.
abbrev pub Apart : Naming → Type 0
Apart state = Distinct state.out × ((a : String) → In a state.out ↔ In a state.used)

module _ (lower : Char → String) (idx : ℕ) (original : String) (state : Naming) where
  pub name_one-found :
      (c : String × ℕ) × (chosen lower idx original state ≡ some c)
      × (name_one lower idx original state ≡ some (named lower idx original state c))
  unfolding name_one
  name_one-found = elim (Option-cases (chosen lower idx original state)) [
    | inl failed ↦ absurd (
        next_free-total _ state.used (first_candidate lower idx original state)
          (first_count lower idx original state) failed)
    | inr (c, e) ↦ (c, e, ap (λ o. and_then o (λ c. some (named lower idx original state c))) e)
  ]

  pub named-Apart :
      (c : String × ℕ)
      → chosen lower idx original state ≡ some c
      → Apart state
      → Apart (named lower idx original state c)
  named-Apart (name, last) e (distinct, same) =
      let new : ¬ (In name state.used) =
        next_free-free _ _ state.used (first_candidate lower idx original state)
          (first_count lower idx original state) name last e in
      (
        Distinct-snoc name state.out distinct (λ m. new ((same name).0 m)),
        λ a. ground (arith, same a, In-append a state.out (name ∷ []), In-add a name state.used),
      )

pub names_from-Apart :
    (lower : Char → String) (originals : List String) (idx : ℕ) (state : Naming)
    → Apart state
    → (state' : Naming) × (names_from lower idx originals state ≡ some state')
      × Apart state'
      × (length state'.out ≡ length state.out + length originals)
unfolding names_from
names_from-Apart lower [] idx state g = (state, refl, g, omega arith)
names_from-Apart lower (original ∷ originals) idx state g =
    let (c, found, e) = name_one-found lower idx original state in
    let (state', e', g', n) =
      names_from-Apart lower originals (suc idx) (named lower idx original state c)
        (named-Apart lower idx original state c found g) in
    (
      state',
      ap (λ o. and_then o (names_from lower (suc idx) originals)) e ∙ e',
      g',
      omega (arith, n, length-append state.out (c.0 ∷ [])),
    )

pub stata_safe_unique_names-Distinct :
    (lower : Char → String) (originals : List String)
    → (names : List String) × (stata_safe_unique_names lower originals ≡ some names)
      × Distinct names
      × (length names ≡ length originals)
unfolding stata_safe_unique_names
stata_safe_unique_names-Distinct lower originals =
    let (state, e, g, n) =
      names_from-Apart lower originals 1 (record { out = []; used = []; counts = [] })
        (tt, λ a. (λ m. m, λ m. m)) in
    (state.out, ap (λ o. and_then o (λ state. some state.out)) e, g.0, omega (arith, n))
