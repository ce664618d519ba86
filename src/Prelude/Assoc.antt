-- ===== src/Prelude/Assoc.antt =====
-- A `dict` with text keys as an association list: reading, writing and removing one key.
use Prim.Native.String.{String}
use mathlib.Core.Path.{◌≡◌, refl, sym, ap, ◌∙◌}
use mathlib.Core.Logic.{◌⊎◌, inl, inr}
use mathlib.Core.Option.{Option, none, some}
use mathlib.Core.List.{List, [], ◌∷◌}
use native.Mathlib.Omega.{arith}
use text.Mathlib.Text.{◌==◌}
use text.Mathlib.TextEquality.{eq_iff}
use ss.Prelude.Tests.{if◌then◌else◌, Bool-cases}
use ss.Prelude.Lists.{In, Distinct}

abbrev pub Dict {ℓ} : Type ℓ → Type ℓ
Dict V = List (String × V)

module _ {ℓ} {V : Type ℓ} where
  -- d.get(k)
  unfoldable pub get : String → Dict V → Option V
  get k [] = none
  get k ((j, v) ∷ d) = if j == k then some v else get k d

  -- d[k] = v
  unfoldable pub put : String → V → Dict V → Dict V
  put k v [] = (k, v) ∷ []
  put k v ((j, w) ∷ d) = if j == k then (j, v) ∷ d else (j, w) ∷ put k v d

  pub get-put :
      (k j : String) (v : V) (d : Dict V) → get j (put k v d) ≡ (if k == j then some v else get j d)
  unfolding get put
  get-put k j v [] = refl
  get-put k j v ((i, w) ∷ d) = ground (arith, eq_iff k j, eq_iff i k, eq_iff i j, get-put k j v d)

  pub get-put_self : (k : String) (v : V) (d : Dict V) → get k (put k v d) ≡ some v
  get-put_self k v d = ground (arith, get-put k k v d, eq_iff k k)

  pub get-put_other : (k j : String) (v : V) (d : Dict V) → ¬ (k ≡ j) → get j (put k v d) ≡ get j d
  get-put_other k j v d h = ground (arith, get-put k j v d, eq_iff k j)

  -- d.pop(k, None)
  unfoldable pub erase : String → Dict V → Dict V
  erase k [] = []
  erase k ((j, v) ∷ d) = let rest = erase k d in if j == k then rest else (j, v) ∷ rest

  pub get-erase :
      (k j : String) (d : Dict V) → get j (erase k d) ≡ (if k == j then none else get j d)
  unfolding get erase
  get-erase k j [] = ground (arith, eq_iff k j)
  get-erase k j ((i, w) ∷ d) = ground (arith, eq_iff k j, eq_iff i k, eq_iff i j, get-erase k j d)

  -- The keys, in their order.
  unfoldable pub keys : Dict V → List String
  keys [] = []
  keys ((k, v) ∷ d) = k ∷ keys d

  -- A dictionary that is filled from its pairs, a later one over an earlier.
  unfoldable pub dict_from : Dict V → List (String × V) → Dict V
  dict_from d [] = d
  dict_from d ((k, v) ∷ kvs) = dict_from (put k v d) kvs

  abbrev pub dict_of : List (String × V) → Dict V
  dict_of = dict_from []

  pub In-get : (k : String) (v : V) (d : Dict V) → get k d ≡ some v → In k (keys d)
  unfolding get keys
  In-get k v [] h = cc
  In-get k v ((j, w) ∷ d) h = ground (arith, eq_iff j k, In-get k v d)

  pub get-In : (k : String) (d : Dict V) → In k (keys d) → (v : V) × (get k d ≡ some v)
  unfolding get keys
  get-In k [] m = absurd m
  get-In k ((j, w) ∷ d) m = elim (Bool-cases (j == k)) [
    | inl e ↦ (w, rw e)
    | inr e ↦ elim m [
      | inl same ↦ cc ((eq_iff j k).1 same)
      | inr rest ↦ let (v, h) = get-In k d rest in (v, rw e h)
    ]
  ]

  -- The dictionary keeps what it had, and has a value for each key of the pairs, from the pairs.
  pub get-dict_from_other :
      (k : String) (d : Dict V) (kvs : List (String × V))
      → ¬ (In k (keys kvs))
      → get k (dict_from d kvs) ≡ get k d
  unfolding dict_from keys
  get-dict_from_other k d [] h = refl
  get-dict_from_other k d ((j, w) ∷ kvs) h =
      get-dict_from_other k (put j w d) kvs (λ m. h (inr m))
      ∙ ground (arith, get-put j k w d, eq_iff j k)

module _ {V : Type 0} where
  pub get-dict_from :
      (k : String) (v : V) (d : Dict V) (kvs : List (String × V))
      → Distinct (keys kvs)
      → In (k, v) kvs
      → get k (dict_from d kvs) ≡ some v
  unfolding dict_from keys
  get-dict_from k v d [] u m = absurd m
  get-dict_from k v d ((j, w) ∷ kvs) u m = elim m [
    | inl here ↦
        get-dict_from_other k (put j w d) kvs (λ n. u.0 (rw (← ap (λ p. p.0) here) at n))
        ∙ ground (arith, get-put j k w d, eq_iff j k)
    | inr later ↦ get-dict_from k v (put j w d) kvs u.1 later
  ]

  In-put :
      (p : String × V) (k : String) (v : V) (d : Dict V) → In p (put k v d) → (p ≡ (k, v)) ⊎ In p d
  unfolding put
  In-put p k v [] m = elim m [ inl e ↦ inl (sym e) | inr n ↦ absurd n ]
  In-put p k v ((j, w) ∷ d) m = elim (Bool-cases (j == k)) [
    | inl e ↦
        let m' : In p ((j, v) ∷ d) = rw e at m in
        elim m' [
          | inl h ↦ inl (sym h ∙ ap (λ x. (x, v)) ((eq_iff j k).0 e))
          | inr old ↦ inr (inr old)
        ]
    | inr e ↦
        let m' : In p ((j, w) ∷ put k v d) = rw e at m in
        elim m' [
          | inl h ↦ inr (inl h)
          | inr rest ↦ elim (In-put p k v d rest) [ inl n ↦ inl n | inr o ↦ inr (inr o) ]
        ]
  ]

  -- Each pair of the dictionary was put there.
  pub In-dict_from :
      (p : String × V) (d : Dict V) (kvs : List (String × V))
      → In p (dict_from d kvs)
      → In p d ⊎ In p kvs
  unfolding dict_from
  In-dict_from p d [] m = inl m
  In-dict_from p d ((k, v) ∷ kvs) m = elim (In-dict_from p (put k v d) kvs m) [
    | inl old ↦ elim (In-put p k v d old) [ inl e ↦ inr (inl (sym e)) | inr o ↦ inl o ]
    | inr new ↦ inr (inr new)
  ]

  pub In-pair : (k : String) (v : V) (d : Dict V) → get k d ≡ some v → In (k, v) d
  unfolding get
  In-pair k v [] h = cc
  In-pair k v ((j, w) ∷ d) h = ground (arith, eq_iff j k, In-pair k v d)
