-- ===== src/Compose/Depends/Search.antt =====
-- The loop of the search ends, and what it has seen.
use ss.Prelude.{
  length-reverse_onto, ℕ, zero, suc, ◌+◌, ◌≤◌, String, ◌≡◌, refl, Bool, true, false, List, [], ◌∷◌,
  some, ◌==◌, inl, inr, eq_iff, arith, length, contains, Bool-cases, if◌then◌else◌,
}
use ss.Prelude.Assoc.{Dict, get}
use ss.Compose.Ordering.{deps_of}
use ss.Compose.Depends.{extend, search, total}

-- The lengths of the lists of the keys that have not been seen.
pub unseen : List String → Dict (List String) → ℕ
unseen seen [] = 0
unseen seen ((k, ds) ∷ deps) =
    let rest = unseen seen deps in if contains k seen then rest else length ds + rest

pub unseen_nil : (deps : Dict (List String)) → unseen [] deps ≡ total deps
unfolding unseen total contains
unseen_nil [] = refl
unseen_nil ((k, ds) ∷ deps) = omega (arith, unseen_nil deps)

unseen_mono :
    (x : String) (seen : List String) (deps : Dict (List String))
    → unseen (x ∷ seen) deps ≤ unseen seen deps
unfolding unseen contains
unseen_mono x seen [] = omega arith
unseen_mono x seen ((k, ds) ∷ deps) = ground (arith, unseen_mono x seen deps)

-- Seeing a step takes its list away.
unseen-see :
    (x : String) (seen : List String) (deps : Dict (List String))
    → contains x seen ≡ false
    → length (deps_of deps x) + unseen (x ∷ seen) deps ≤ unseen seen deps
unfolding unseen contains deps_of get
unseen-see x seen [] h = omega arith
unseen-see x seen ((k, ds) ∷ deps) h =
    ground (arith, eq_iff k x, eq_iff x k, unseen_mono x seen deps, unseen-see x seen deps)

module _ (deps : Dict (List String)) (producer : String) where
  -- With enough fuel the loop ends.
  pub search_ends :
      (fuel : ℕ) (seen stack : List String)
      → length stack + unseen seen deps ≤ fuel
      → (b : Bool) × (search deps producer fuel seen stack ≡ some b)
  unfolding search
  search_ends fuel seen [] h = (false, refl)
  search_ends zero seen (dep ∷ stack) h = absurd (omega arith)
  search_ends (suc fuel) seen (dep ∷ stack) h =
      let again = search_ends fuel seen stack in
      let further = search_ends fuel (dep ∷ seen) (extend stack (deps_of deps dep)) in
      elim (Bool-cases (dep == producer)) [
        | inl found ↦ (true, rw found)
        | inr other ↦ elim (Bool-cases (contains dep seen)) [
          | inl old ↦ let (b, e) = again (omega arith) in (b, rw (other, old) e)
          | inr new ↦
              let (b, e) = further (
                omega (
                  arith,
                  unseen-see dep seen deps new,
                  length-reverse_onto stack (deps_of deps dep),
                )) in
              (b, rw (other, new) e)
        ]
      ]
