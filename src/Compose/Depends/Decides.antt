-- ===== src/Compose/Depends/Decides.antt =====
-- The search against the relation that it is meant to decide.
use ss.Prelude.{
  ℕ, zero, suc, ◌+◌, Option, String, ◌≡◌, refl, Bool, true, false, List, [], ◌∷◌, some, ◌==◌, ◌⊎◌,
  inl, inr, ◌↔◌, eq_iff, arith, In, In-reverse_onto, length-reverse_onto, length, contains,
  contains→In, Bool-cases,
}
use ss.Prelude.Assoc.{Dict}
use ss.Compose.Ordering.{deps_of}
use ss.Compose.Depends.{extend, search, depends_transitively, total}
use ss.Compose.Depends.Search.{search_ends, unseen_nil}

-- `b` is reached from `a` along dependencies, in no step or in some.
pub data Depends (deps : Dict (List String)) : String → String → Type 0 where
  here : {a : String} → Depends deps a a
  via : {a b c : String} → In b (deps_of deps a) → Depends deps b c → Depends deps a c

Depends-first :
    {deps : Dict (List String)} {a c : String}
    → Depends deps a c
    → (a ≡ c) ⊎ ((b : String) × In b (deps_of deps a) × Depends deps b c)
Depends-first here = inl refl
Depends-first (via {b = b} k p) = inr (b, k, p)

Depends-closed :
    (deps : Dict (List String)) (final : List String)
    → ((x : String) → In x final → (d : String) → In d (deps_of deps x) → In d final)
    → {a b : String} → Depends deps a b
    → In a final
    → In b final
Depends-closed deps final closed here m = m
Depends-closed deps final closed (via {a = a} {b = b} k p) m =
    Depends-closed deps final closed p (closed a m b k)

module _ (deps : Dict (List String)) (producer : String) where
  search_sound :
      (fuel : ℕ) (seen stack : List String)
      → search deps producer fuel seen stack ≡ some true
      → (x : String) × In x stack × Depends deps x producer
  unfolding search
  search_sound fuel seen [] h = absurd (cc)
  search_sound zero seen (dep ∷ stack) h = absurd (cc)
  search_sound (suc fuel) seen (dep ∷ stack) h =
      let again = search_sound fuel seen stack in
      let further = search_sound fuel (dep ∷ seen) (extend stack (deps_of deps dep)) in
      elim (Bool-cases (dep == producer)) [
        | inl found ↦ (dep, inl refl, rw ((eq_iff dep producer).0 found) here)
        | inr other ↦ elim (Bool-cases (contains dep seen)) [
          | inl old ↦ let (x, m, p) = again (rw (other, old) at h) in (x, inr m, p)
          | inr new ↦
              let (x, m, p) = further (rw (other, new) at h) in
              elim ((In-reverse_onto x stack (deps_of deps dep)).0 m) [
                | inl next ↦ (dep, inl refl, via next p)
                | inr waiting ↦ (x, inr waiting, p)
              ]
        ]
      ]

  -- A set that has `xs` and what its elements depend on, and not the producer.
  record Avoids (xs ys : List String) : Type 0 where
    final : List String
    has : (x : String) → (In x xs ⊎ In x ys) → In x final
    closed : (x : String) → In x final → (d : String) → In d (deps_of deps x) → In d final
    without : ¬ (In producer final)

  Avoids-weaken :
      {xs ys : List String} (zs ws : List String)
      → ((x : String) → (In x zs ⊎ In x ws) → (In x xs ⊎ In x ys))
      → Avoids xs ys
      → Avoids zs ws
  Avoids-weaken zs ws h a = record {
    final = a.final;
    has = λ x m. a.has x (h x m);
    closed = a.closed;
    without = a.without;
  }

  -- Each dependency of a step that was seen has been seen or waits.
  abbrev Closed : List String → List String → Type 0
  Closed seen stack =
      (x : String) → In x seen → (d : String) → In d (deps_of deps x) → In d seen ⊎ In d stack

  module _ (seen stack : List String) (dep : String) where
    abbrev pushed : List String
    pushed = extend stack (deps_of deps dep)

    skip : In dep seen → (x : String) → (In x seen ⊎ In x (dep ∷ stack)) → (In x seen ⊎ In x stack)
    skip old x m = elim m [
      | inl n ↦ inl n
      | inr n ↦ elim n [ inl e ↦ inl (rw (← e) old) | inr w ↦ inr w ]
    ]

    take_up : (x : String) → (In x seen ⊎ In x (dep ∷ stack)) → (In x (dep ∷ seen) ⊎ In x pushed)
    take_up x m = elim m [
      | inl n ↦ inl (inr n)
      | inr n ↦ elim n [
        | inl e ↦ inl (inl e)
        | inr w ↦ inr ((In-reverse_onto x stack (deps_of deps dep)).1 (inr w))
      ]
    ]

    Closed-take_up : Closed seen (dep ∷ stack) → Closed (dep ∷ seen) pushed
    Closed-take_up closed x m d k = elim m [
      | inl e ↦ inr ((In-reverse_onto d stack (deps_of deps dep)).1 (inl (rw (← e) at k)))
      | inr n ↦ take_up d (closed x n d k)
    ]

  search_complete :
      (fuel : ℕ) (seen stack : List String)
      → Closed seen stack
      → ¬ (In producer seen)
      → search deps producer fuel seen stack ≡ some false
      → Avoids seen stack
  unfolding search
  search_complete fuel seen [] closed without h = record {
    final = seen;
    has = λ x m. elim m [ inl n ↦ n | inr n ↦ absurd n ];
    closed = λ x m d k. elim (closed x m d k) [ inl n ↦ n | inr n ↦ absurd n ];
    without = without;
  }
  search_complete zero seen (dep ∷ stack) closed without h = absurd (cc)
  search_complete (suc fuel) seen (dep ∷ stack) closed without h =
      let again = search_complete fuel seen stack in
      let further = search_complete fuel (dep ∷ seen) (pushed seen stack dep) in
      elim (Bool-cases (dep == producer)) [
        | inl found ↦ let bad : some true ≡ some false = rw found at h in absurd (cc)
        | inr other ↦ elim (Bool-cases (contains dep seen)) [
          | inl old ↦
              let to_seen = skip seen stack dep (contains→In dep seen old) in
              Avoids-weaken seen (dep ∷ stack) to_seen
                (again (λ x m d k. to_seen d (closed x m d k)) without (rw (other, old) at h))
          | inr new ↦ Avoids-weaken seen (dep ∷ stack) (take_up seen stack dep) (
              further (Closed-take_up seen stack dep closed)
                (λ m. elim m [ inl e ↦ cc ((eq_iff dep producer).1 e) | inr n ↦ without n ])
                (rw (other, new) at h))
        ]
      ]

module _ (deps : Dict (List String)) (consumer producer : String) (b : Bool) where
  abbrev stack : List String
  stack = extend [] (deps_of deps consumer)

  abbrev answer : Option Bool
  answer = search deps producer (length (deps_of deps consumer) + total deps) [] stack

  found : answer ≡ some b → b ≡ true → Depends deps consumer producer
  found e h =
      let (x, m, p) = search_sound deps producer _ [] stack (rw h at e) in
      elim ((In-reverse_onto x [] (deps_of deps consumer)).0 m) [
        | inl k ↦ via k p
        | inr n ↦ absurd n
      ]

  missed :
      consumer == producer ≡ false → answer ≡ some b → Depends deps consumer producer → b ≡ true
  missed other e p = elim (Bool-cases b) [
    | inl h ↦ h
    | inr h ↦
        let a = search_complete deps producer _ [] stack (λ x n. absurd n) (λ n. n) (rw h at e) in
        elim (Depends-first p) [
          | inl same ↦ cc ((eq_iff consumer producer).1 same)
          | inr (x, k, q) ↦
              let m = (In-reverse_onto x [] (deps_of deps consumer)).1 (inl k) in
              absurd (a.without (Depends-closed deps a.final a.closed q (a.has x (inr m))))
        ]
  ]

-- The search ends within its fuel, and answers true exactly where the producer is the consumer or
-- is reached from it along dependencies.
pub depends_transitively_decides :
    (deps : Dict (List String)) (consumer producer : String)
    → (b : Bool) × (depends_transitively deps consumer producer ≡ some b)
      × ((b ≡ true) ↔ Depends deps consumer producer)
unfolding depends_transitively
depends_transitively_decides deps consumer producer = elim (Bool-cases (consumer == producer)) [
  | inl same ↦ (true, rw same, (λ _. rw ((eq_iff consumer producer).0 same) here, λ _. refl))
  | inr other ↦
      let ds = deps_of deps consumer in
      let stack = extend [] ds in
      let fuel = length ds + total deps in
      let (b, e) =
        search_ends deps producer fuel [] stack
          (omega (arith, length-reverse_onto [] ds, unseen_nil deps)) in
      (b, rw other e, (found deps consumer producer b e, missed deps consumer producer b other e))
]
