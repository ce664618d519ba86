-- ===== src/Prelude/Sets.antt =====
-- A `set` of texts as a list without repeats, and how many elements a list can have.
use Prim.Native.Nat.{suc, ◌≤◌, ◌<◌}
use Prim.Native.String.{String}
use mathlib.Core.Path.{◌≡◌, refl, sym}
use mathlib.Core.Logic.{◌≢◌, ◌↔◌, inl, inr}
use mathlib.Core.List.{List, [], ◌∷◌, ◌++◌}
use native.Mathlib.Omega.{arith}
use text.Mathlib.Text.{◌==◌}
use text.Mathlib.TextEquality.{eq_iff}
use ss.Prelude.Tests.{if◌then◌else◌, Bool-cases}
use ss.Prelude.Lists.{length, In, Distinct, contains, contains→In, In→contains, In-append}

-- s.add(x)
unfoldable pub add : String → List String → List String
add x s = if contains x s then s else x ∷ s

-- set(xs)
unfoldable pub to_set : List String → List String
unfolding add
to_set [] = []
to_set (x ∷ xs) = add x (to_set xs)

-- s.remove(x), and s where x is not in it.
unfoldable pub remove : String → List String → List String
remove x [] = []
remove x (y ∷ s) = let rest = remove x s in if y == x then rest else y ∷ rest

abbrev pub Subset : List String → List String → Type 0
Subset xs ys = (a : String) → In a xs → In a ys

pub In-add : (a x : String) (s : List String) → In a (add x s) ↔ In a (x ∷ s)
unfolding add
In-add a x s = elim (Bool-cases (contains x s)) [
  | inl old ↦ rw old (inr, λ m. elim m [ inl e ↦ rw e at (contains→In x s old) | inr n ↦ n ])
  | inr new ↦ rw new (λ m. m, λ m. m)
]

pub In-to_set : (a : String) (xs : List String) → In a (to_set xs) ↔ In a xs
unfolding to_set
In-to_set a [] = (λ m. m, λ m. m)
In-to_set a (x ∷ xs) = ground (arith, In-add a x (to_set xs), In-to_set a xs)

pub In-remove : (a x : String) (s : List String) → In a (remove x s) ↔ (In a s × (a ≢ x))
unfolding remove
In-remove a x [] = (λ m. absurd m, λ m. m.0)
In-remove a x (y ∷ s) = ground (arith, eq_iff y x, In-remove a x s)

length-remove : (x : String) (s : List String) → length (remove x s) ≤ length s
unfolding remove
length-remove x [] = omega arith
length-remove x (y ∷ s) = ground (arith, length-remove x s)

length-remove_In : (x : String) (s : List String) → In x s → length (remove x s) < length s
unfolding remove
length-remove_In x [] m = absurd m
length-remove_In x (y ∷ s) m = ground (arith, eq_iff y x, length-remove x s, length-remove_In x s)

Subset-remove :
    (x : String) (xs ys : List String) → ¬ (In x xs) → Subset (x ∷ xs) ys → Subset xs (remove x ys)
Subset-remove x xs ys new h a m = (In-remove a x ys).1 (h a (inr m), λ e. new (rw e at m))

-- A list without repeats is no longer than a list that has its elements.
pub length-le_of_Subset : (xs ys : List String) → Distinct xs → Subset xs ys → length xs ≤ length ys
length-le_of_Subset [] ys d h = omega arith
length-le_of_Subset (x ∷ xs) ys d h = omega (
  arith,
  length-remove_In x ys (h x (inl refl)),
  length-le_of_Subset xs (remove x ys) d.1 (Subset-remove x xs ys d.0 h),
)

-- If it is as long, it has all of them.
pub Subset_of_length :
    (xs ys : List String) → Distinct xs → Subset xs ys → length ys ≤ length xs → Subset ys xs
Subset_of_length xs ys d h short a m = elim (Bool-cases (contains a xs)) [
  | inl there ↦ contains→In a xs there
  | inr missing ↦
      let new : ¬ (In a xs) = λ k. cc (In→contains a xs k) in
      let grown : Subset (a ∷ xs) ys = λ b k. elim k [ inl e ↦ rw e at m | inr old ↦ h b old ] in
      absurd (omega (arith, length-le_of_Subset (a ∷ xs) ys (new, d) grown))
]

length-to_set : (xs : List String) → length (to_set xs) ≤ length xs
unfolding to_set add
length-to_set [] = omega arith
length-to_set (x ∷ xs) = ground (arith, length-to_set xs)

-- len(xs) == len(set(xs))
pub Distinct-of_length-to_set : (xs : List String) → length xs ≡ length (to_set xs) → Distinct xs
unfolding to_set add
Distinct-of_length-to_set [] h = tt
Distinct-of_length-to_set (x ∷ xs) h = elim (Bool-cases (contains x (to_set xs))) [
  | inl old ↦
      let e : suc (length xs) ≡ length (to_set xs) = rw old at h in
      absurd (omega (arith, length-to_set xs))
  | inr new ↦
      let e : suc (length xs) ≡ suc (length (to_set xs)) = rw new at h in
      (
        λ m. cc (In→contains x (to_set xs) ((In-to_set x xs).1 m)),
        Distinct-of_length-to_set xs (omega arith),
      )
]

pub Distinct-snoc :
    (x : String) (xs : List String) → Distinct xs → ¬ (In x xs) → Distinct (xs ++ x ∷ [])
Distinct-snoc x [] d new = (λ m. m, tt)
Distinct-snoc x (y ∷ xs) d new = (
  λ m. elim ((In-append y xs (x ∷ [])).0 m) [
    | inl old ↦ d.0 old
    | inr last ↦ elim last [ inl e ↦ new (inl (sym e)) | inr n ↦ n ]
  ],
  Distinct-snoc x xs d.1 (λ m. new (inr m)),
)
