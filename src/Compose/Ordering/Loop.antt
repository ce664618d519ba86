-- ===== src/Compose/Ordering/Loop.antt =====
-- The `while` loop of `_toposort`: what holds of its lists, and that it ends.
use ss.Prelude.{
  ℕ, zero, suc, ◌+◌, ◌≤◌, String, ◌≡◌, refl, sym, ◌∙◌, List, [], ◌∷◌, ◌++◌, ◌⊎◌, inl, inr, ◌↔◌,
  arith, some, Bool-cases, In, Distinct, contains, contains→In, In→contains, length, length-append,
  In-append,
}
use ss.Prelude.Assoc.{Dict}
use ss.Prelude.Sets.{remove, In-remove, length-le_of_Subset, Distinct-snoc}
use ss.Compose.Ordering.{relax, sort_loop}
use ss.Compose.Ordering.Relax.{
  Freed, relax-entry, entry-relax, relax-ready, ready-relax, Freed-relax, relax-Distinct,
}

-- `a` stands before `b`.
abbrev pub Before : String → String → List String → Type 0
Before a b [] = ⊥
Before a b (x ∷ xs) = ((x ≡ a) × In b xs) ⊎ Before a b xs

Before-append : (a b : String) (xs ys : List String) → Before a b xs → Before a b (xs ++ ys)
Before-append a b [] ys h = absurd h
Before-append a b (x ∷ xs) ys h = elim h [
  | inl (e, m) ↦ inl (e, (In-append b xs ys).1 (inl m))
  | inr later ↦ inr (Before-append a b xs ys later)
]

Before-last : (a b : String) (xs : List String) → In a xs → Before a b (xs ++ b ∷ [])
Before-last a b [] m = absurd m
Before-last a b (x ∷ xs) m = elim m [
  | inl e ↦ inl (e, (In-append b xs (b ∷ [])).1 (inr (inl refl)))
  | inr later ↦ inr (Before-last a b xs later)
]

pub In_of_not-not : (a : String) (xs : List String) → ¬ ¬ (In a xs) → In a xs
In_of_not-not a xs h = elim (Bool-cases (contains a xs)) [
  | inl there ↦ contains→In a xs there
  | inr out ↦ absurd (h (λ m. cc (In→contains a xs m)))
]

pub nil_of_not-In : (xs : List String) → ((d : String) → ¬ (In d xs)) → xs ≡ []
nil_of_not-In [] h = refl
nil_of_not-In (x ∷ xs) h = absurd (h x (inl refl))

remove_nil : (x : String) (xs : List String) → xs ≡ [] → remove x xs ≡ []
unfolding remove
remove_nil x [] h = refl
remove_nil x (y ∷ ys) h = cc

-- `deps` gives the dependencies that each step has in the plan.
module _ (deps : String → List String) (ids : List String) where
  pub record Inv (pending : Dict (List String)) (order ready : List String) : Type 0 where
    -- What a pending step still waits for are its dependencies that are not yet placed.
    pub waits :
        (sid : String) (left : List String)
        → In (sid, left) pending
        → (d : String) → In d left ↔ (In d (deps sid) × ¬ (In d order))
    -- It is placed or ready as soon as it waits for nothing.
    pub idle :
        (sid : String) (left : List String)
        → In (sid, left) pending
        → (left ≡ []) ↔ (In sid order ⊎ In sid ready)
    pub entries : (sid : String) → In sid ids → (left : List String) × In (sid, left) pending
    pub keyed : (sid : String) (left : List String) → In (sid, left) pending → In sid ids
    pub listed : (sid : String) → (In sid order ⊎ In sid ready) → In sid ids
    pub order_once : Distinct order
    pub ready_once : Distinct ready
    pub apart : (sid : String) → In sid order → ¬ (In sid ready)
    pub sorted : (sid d : String) → In sid order → In d (deps sid) → Before d sid order

  module _ (pending : Dict (List String)) (order : List String) (current : String)
      (ready : List String) (inv : Inv pending order (current ∷ ready)) where
    open inv use {waits, idle, entries, keyed, listed, order_once, ready_once, apart, sorted}

    abbrev order' : List String
    order' = order ++ current ∷ []

    abbrev next : Dict (List String) × List String
    next = relax current order' pending ready

    In-order' : (x : String) → In x order' ↔ (In x order ⊎ (current ≡ x))
    In-order' x = ground (arith, In-append x order (current ∷ []))

    waits_next :
        (sid : String) (left : List String)
        → In (sid, left) next.0
        → (d : String) → In d left ↔ (In d (deps sid) × ¬ (In d order'))
    waits_next sid left m d =
        let (ds, n, e) = relax-entry current order' sid left pending ready m in
        rw e (ground (arith, In-remove d current ds, waits sid ds n d, In-order' d))

    listed_next : (sid : String) → (In sid order' ⊎ In sid next.1) → In sid ids
    listed_next sid m = elim m [
      | inl placed ↦ elim ((In-order' sid).0 placed) [
        | inl old ↦ listed sid (inl old)
        | inr e ↦ listed sid (inr (inl e))
      ]
      | inr waiting ↦ elim (relax-ready current order' sid pending ready waiting) [
        | inl old ↦ listed sid (inr (inr old))
        | inr (ds, n, f) ↦ keyed sid ds n
      ]
    ]

    was_idle :
        (sid : String) → (In sid order ⊎ In sid (current ∷ ready)) → (In sid order' ⊎ In sid next.1)
    was_idle sid m = elim m [
      | inl old ↦ inl ((In-order' sid).1 (inl old))
      | inr now ↦ elim now [
        | inl e ↦ inl ((In-order' sid).1 (inr e))
        | inr rest ↦ inr (ready-relax current order' sid pending ready rest)
      ]
    ]

    idle_after :
        (sid : String) (ds : List String)
        → In (sid, ds) pending
        → remove current ds ≡ []
        → In sid order' ⊎ In sid next.1
    idle_after sid ds n h = elim (Bool-cases (contains current ds)) [
      | inl waited ↦ elim (Bool-cases (contains sid order')) [
        | inl placed ↦ inl (contains→In sid order' placed)
        | inr out ↦
            let freed : Freed current order' sid ds = record {
              waited = contains→In current ds waited;
              emptied = h;
              unplaced = λ k. cc (In→contains sid order' k);
            } in
            inr (Freed-relax current order' sid ds pending ready n freed)
      ]
      | inr never ↦ was_idle sid (
          (idle sid ds n).0 (
            nil_of_not-In ds λ d k.
              let kept = (In-remove d current ds).1 (k, λ e. cc (In→contains d ds k)) in
              rw h at kept))
    ]

    after_idle :
        (sid : String) (left : List String)
        → In (sid, left) next.0
        → In sid order' ⊎ In sid next.1
        → left ≡ []
    after_idle sid left m k =
        let (ds, n, e) = relax-entry current order' sid left pending ready m in
        let still = λ (h : In sid order ⊎ In sid (current ∷ ready)).
          e ∙ remove_nil current ds ((idle sid ds n).1 h) in
        elim k [
          | inl placed ↦ elim ((In-order' sid).0 placed) [
            | inl old ↦ still (inl old)
            | inr now ↦ still (inr (inl now))
          ]
          | inr waiting ↦ elim (relax-ready current order' sid pending ready waiting) [
            | inl old ↦ still (inr (inr old))
            | inr (ds', n', f) ↦ nil_of_not-In left λ d b.
                let (needed, out) = (waits_next sid left m d).0 b in
                let same = waits sid ds' n' d in
                rw f.emptied at (
                  (In-remove d current ds').1 (
                    same.1 (needed, λ o. out ((In-order' d).1 (inl o))),
                    λ now. out ((In-order' d).1 (inr (sym now))),
                  ))
          ]
        ]

    idle_next :
        (sid : String) (left : List String)
        → In (sid, left) next.0
        → (left ≡ []) ↔ (In sid order' ⊎ In sid next.1)
    idle_next sid left m =
        let (ds, n, e) = relax-entry current order' sid left pending ready m in
        (λ h. idle_after sid ds n (sym e ∙ h), λ k. after_idle sid left m k)

    apart_next : (sid : String) → In sid order' → ¬ (In sid next.1)
    apart_next sid m k = elim (relax-ready current order' sid pending ready k) [
      | inl old ↦ elim ((In-order' sid).0 m) [
        | inl placed ↦ apart sid placed (inr old)
        | inr e ↦ ready_once.0 (rw (← e) at old)
      ]
      | inr (ds, n, f) ↦ f.unplaced m
    ]

    -- A ready step has all of its dependencies placed.
    placed_before : (d : String) → In d (deps current) → In d order
    placed_before d k =
        let (left, n) = entries current (listed current (inr (inl refl))) in
        let none_left = (idle current left n).1 (inr (inl refl)) in
        In_of_not-not d order (λ out. rw none_left at ((waits current left n d).1 (k, out)))

    sorted_next : (sid d : String) → In sid order' → In d (deps sid) → Before d sid order'
    sorted_next sid d m k = elim ((In-order' sid).0 m) [
      | inl old ↦ Before-append d sid order (current ∷ []) (sorted sid d old k)
      | inr e ↦
          let k' : In d (deps current) = rw (← e) at k in
          rw (← e) (Before-last d current order (placed_before d k'))
    ]

    Inv-next : Inv next.0 order' next.1
    Inv-next = record {
      waits = waits_next;
      idle = idle_next;
      entries = λ sid m.
          let (left, n) = entries sid m in
          (remove current left, entry-relax current order' sid left pending ready n);
      keyed = λ sid left m.
          let (ds, n, e) = relax-entry current order' sid left pending ready m in keyed sid ds n;
      listed = listed_next;
      order_once = Distinct-snoc current order order_once (λ m. apart current m (inl refl));
      ready_once = relax-Distinct current order' pending ready ready_once.1;
      apart = apart_next;
      sorted = sorted_next;
    }

  -- Where the loop ends, no step is ready.
  pub loop_ends :
      (fuel : ℕ) (pending : Dict (List String)) (order ready : List String)
      → Inv pending order ready
      → length ids ≤ length order + fuel
      → (pending' : Dict (List String)) × (order' : List String) × (sort_loop fuel pending order
            ready
          ≡ some order')
        × Inv pending' order' []
  unfolding sort_loop
  loop_ends fuel pending order [] inv h = (pending, order, refl, inv)
  loop_ends zero pending order (current ∷ ready) inv h =
      let order' = order ++ current ∷ [] in
      let next = Inv-next pending order current ready inv in
      absurd (
        omega (
          arith,
          length-append order (current ∷ []),
          length-le_of_Subset order' ids next.order_once (λ x m. next.listed x (inl m)),
        ))
  loop_ends (suc fuel) pending order (current ∷ ready) inv h =
      let order' = order ++ current ∷ [] in
      let next = relax current order' pending ready in
      loop_ends fuel next.0 order' next.1 (Inv-next pending order current ready inv)
        (omega (arith, length-append order (current ∷ [])))
