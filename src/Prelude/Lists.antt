-- ===== src/Prelude/Lists.antt =====
-- Lists measured by native numbers, and membership as a predicate by recursion.
use Prim.Native.Nat.{ℕ, zero, suc, ◌+◌}
use Prim.Native.String.{String}
use mathlib.Core.Path.{◌≡◌, refl}
use mathlib.Core.Logic.{◌⊎◌, ◌↔◌, inl, inr}
use mathlib.Core.Bool.{Bool, true, false, ◌||◌}
use mathlib.Core.List.{List, [], ◌∷◌, ◌++◌}
use native.Mathlib.Omega.{arith}
use text.Mathlib.Text.{◌==◌}
use text.Mathlib.TextEquality.{eq_iff}

module _ {ℓ} {A : Type ℓ} where
  abbrev pub length : List A → ℕ
  length [] = 0
  length (x ∷ xs) = suc (length xs)

  abbrev pub take : ℕ → List A → List A
  take zero xs = []
  take (suc n) [] = []
  take (suc n) (x ∷ xs) = x ∷ take n xs

  pub length-append : (xs ys : List A) → length (xs ++ ys) ≡ length xs + length ys
  length-append [] ys = omega arith
  length-append (x ∷ xs) ys = omega (arith, length-append xs ys)

  abbrev pub All {κ} : (A → Type κ) → List A → Type κ
  All P [] = Unit
  All P (x ∷ xs) = P x × All P xs

  pub All-append {κ} : (P : A → Type κ) (xs ys : List A) → All P xs → All P ys → All P (xs ++ ys)
  All-append P [] ys a b = b
  All-append P (x ∷ xs) ys (h, a) b = (h, All-append P xs ys a b)

module _ {A : Type 0} where
  -- `a` stands in the list, with the place kept.
  abbrev pub In : A → List A → Type 0
  In a [] = ⊥
  In a (x ∷ xs) = (x ≡ a) ⊎ In a xs

  abbrev pub Distinct : List A → Type 0
  Distinct [] = Unit
  Distinct (x ∷ xs) = (In x xs → ⊥) × Distinct xs

  pub In-append : (a : A) (xs ys : List A) → In a (xs ++ ys) ↔ (In a xs ⊎ In a ys)
  In-append a [] ys = (inr, λ m. elim m [ inl n ↦ absurd n | inr k ↦ k ])
  In-append a (x ∷ xs) ys = ground (arith, In-append a xs ys)

  -- `xs` pushed on `ys` one by one, each before the last.
  abbrev pub reverse_onto : List A → List A → List A
  reverse_onto ys [] = ys
  reverse_onto ys (x ∷ xs) = reverse_onto (x ∷ ys) xs

  pub length-reverse_onto : (ys xs : List A) → length (reverse_onto ys xs) ≡ length xs + length ys
  length-reverse_onto ys [] = omega arith
  length-reverse_onto ys (x ∷ xs) = omega (arith, length-reverse_onto (x ∷ ys) xs)

  pub In-reverse_onto : (x : A) (ys xs : List A) → In x (reverse_onto ys xs) ↔ (In x xs ⊎ In x ys)
  In-reverse_onto x ys [] = (inr, λ m. elim m [ inl n ↦ absurd n | inr k ↦ k ])
  In-reverse_onto x ys (y ∷ xs) = ground (arith, In-reverse_onto x (y ∷ ys) xs)

  pub Distinct-reverse_onto :
      (ys xs : List A)
      → Distinct xs
      → Distinct ys
      → ((x : A) → In x xs → ¬ (In x ys))
      → Distinct (reverse_onto ys xs)
  Distinct-reverse_onto ys [] d e apart = e
  Distinct-reverse_onto ys (x ∷ xs) d e apart =
      Distinct-reverse_onto (x ∷ ys) xs d.1 (apart x (inl refl), e)
        λ y m k. elim k [ inl same ↦ d.0 (rw (← same) at m) | inr old ↦ apart y (inr m) old ]

-- `a in xs`, on texts.
unfoldable pub contains : String → List String → Bool
contains a [] = false
contains a (x ∷ xs) = x == a || contains a xs

pub contains→In : (a : String) (xs : List String) → contains a xs ≡ true → In a xs
unfolding contains
contains→In a [] h = cc
contains→In a (x ∷ xs) h = ground (arith, eq_iff x a, contains→In a xs)

pub In→contains : (a : String) (xs : List String) → In a xs → contains a xs ≡ true
unfolding contains
In→contains a [] h = elim h [ ]
In→contains a (x ∷ xs) h = ground (arith, eq_iff x a, In→contains a xs)

pub contains_iff : (a : String) (xs : List String) → (contains a xs ≡ true) ↔ In a xs
contains_iff a xs = (contains→In a xs, In→contains a xs)
