-- ===== src/Compose/Depends.antt =====
-- `_depends_transitively` of src/domain/composition_plan.py, a search through the dependencies.
mod Search
pub mod Decides
use ss.Prelude.{
  reverse_onto, ℕ, zero, suc, ◌+◌, String, Bool, true, false, List, [], ◌∷◌, Option, none, some,
  ◌==◌, length, contains, if◌then◌else◌,
}
use ss.Prelude.Assoc.{Dict}
use ss.Compose.Ordering.{deps_of}

-- `stack.extend(xs)`; the stack stands with its end first.
abbrev pub extend : List String → List String → List String
extend stack xs = reverse_onto stack xs

-- The `while` loop; `none` says that the fuel ran out.
unfoldable pub search : Dict (List String) → String → ℕ → List String → List String → Option Bool
search deps producer fuel seen [] = some false
search deps producer zero seen (dep ∷ stack) = none
search deps producer (suc fuel) seen (dep ∷ stack) =
    let again = search deps producer fuel seen stack in
    let further = search deps producer fuel (dep ∷ seen) (extend stack (deps_of deps dep)) in
    if dep == producer then some true else if contains dep seen then again else further

-- The lengths of all the lists of dependencies together.
unfoldable pub total : Dict (List String) → ℕ
total [] = 0
total ((k, ds) ∷ deps) = length ds + total deps

-- Each list is pushed once at most, and the consumer's once more at the start.
unfoldable pub depends_transitively : Dict (List String) → String → String → Option Bool
depends_transitively deps consumer producer =
    if consumer == producer
    then some true
    else search deps producer (length (deps_of deps consumer) + total deps) []
        (extend [] (deps_of deps consumer))
