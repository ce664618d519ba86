-- ===== src/Compose/Ordering/Start.antt =====
-- The invariant of `_toposort` holds before its loop.
use ss.Prelude.{
  reverse_onto, In-reverse_onto, Distinct-reverse_onto, String, ◌≡◌, refl, sym, ◌∙◌, ap, List, [],
  ◌∷◌, map, some, inl, inr, ◌↔◌, arith, In, Distinct,
}
use ss.Prelude.Assoc.{Dict, get, keys, get-dict_from, In-dict_from, In-pair}
use ss.Prelude.Sets.{to_set, In-to_set}
use ss.Compose.Ordering.{deps_of, ready_of, pending_of}
use ss.Compose.Ordering.Relax.{is_empty_iff}
use ss.Compose.Ordering.Loop.{Inv}

In-ready_of :
    (pending : Dict (List String)) (x : String) (sids : List String)
    → In x (ready_of pending sids) ↔ (In x sids × (deps_of pending x ≡ []))
unfolding ready_of
In-ready_of pending x [] = (λ m. absurd m, λ m. m.0)
In-ready_of pending x (sid ∷ sids) =
    ground (arith, is_empty_iff (deps_of pending sid), In-ready_of pending x sids)

ready_of-Distinct :
    (pending : Dict (List String)) (sids : List String)
    → Distinct sids
    → Distinct (ready_of pending sids)
unfolding ready_of
ready_of-Distinct pending [] d = tt
ready_of-Distinct pending (sid ∷ sids) d =
    ground (arith, In-ready_of pending sid sids, ready_of-Distinct pending sids)

pub deps_of-get :
    (sid : String) (deps : Dict (List String)) {ds : List String}
    → get sid deps ≡ some ds
    → deps_of deps sid ≡ ds
unfolding deps_of
deps_of-get sid deps h = rw (h, deps_of)

module _ (deps : Dict (List String)) where
  abbrev pairs : List String → Dict (List String)
  pairs = map (λ sid. (sid, to_set (deps_of deps sid)))

  keys-pairs : (sids : List String) → keys (pairs sids) ≡ sids
  unfolding keys
  keys-pairs [] = refl
  keys-pairs (sid ∷ sids) = ap (λ l. sid ∷ l) (keys-pairs sids)

  In-pairs :
      (sid : String) (sids : List String)
      → In sid sids
      → In (sid, to_set (deps_of deps sid)) (pairs sids)
  In-pairs sid [] m = absurd m
  In-pairs sid (s ∷ sids) m = elim m [
    | inl e ↦ inl (ap (λ x. (x, to_set (deps_of deps x))) e)
    | inr rest ↦ inr (In-pairs sid sids rest)
  ]

  pairs-In :
      (sid : String) (left : List String) (sids : List String)
      → In (sid, left) (pairs sids)
      → In sid sids × (left ≡ to_set (deps_of deps sid))
  pairs-In sid left [] m = absurd m
  pairs-In sid left (s ∷ sids) m = elim m [
    | inl e ↦ (
      inl (ap (λ p. p.0) e),
      sym (ap (λ p. p.1) e) ∙ ap (λ x. to_set (deps_of deps x)) (ap (λ p. p.0) e),
    )
    | inr rest ↦ let (n, h) = pairs-In sid left sids rest in (inr n, h)
  ]

  module _ (sids : List String) (unique : Distinct sids) where
    get-pending :
        (sid : String)
        → In sid sids
        → get sid (pending_of deps sids) ≡ some (to_set (deps_of deps sid))
    unfolding pending_of
    get-pending sid m =
        get-dict_from sid _ [] (pairs sids) (rw keys-pairs unique) (In-pairs sid sids m)

    pending-entry :
        (sid : String) (left : List String)
        → In (sid, left) (pending_of deps sids)
        → In sid sids × (left ≡ to_set (deps_of deps sid))
    unfolding pending_of
    pending-entry sid left m = elim (In-dict_from (sid, left) [] (pairs sids) m) [
      | inl n ↦ absurd n
      | inr n ↦ pairs-In sid left sids n
    ]

    abbrev ready : List String
    ready = reverse_onto [] (ready_of (pending_of deps sids) sids)

    deps_of-pending :
        (sid : String)
        → In sid sids
        → deps_of (pending_of deps sids) sid ≡ to_set (deps_of deps sid)
    deps_of-pending sid m = deps_of-get sid (pending_of deps sids) (get-pending sid m)

    In-ready : (sid : String) → In sid sids → (In sid ready ↔ (to_set (deps_of deps sid) ≡ []))
    In-ready sid m =
        let waits = deps_of-pending sid m in
        ground (
          arith,
          In-reverse_onto sid [] (ready_of (pending_of deps sids) sids),
          In-ready_of (pending_of deps sids) sid sids,
        )

    pub Inv-start : Inv (deps_of deps) sids (pending_of deps sids) [] ready
    Inv-start = record {
      waits = λ sid left m d.
          let (n, h) = pending-entry sid left m in
          rw h (ground (arith, In-to_set d (deps_of deps sid)));
      idle = λ sid left m.
          let (n, h) = pending-entry sid left m in rw h (ground (arith, In-ready sid n));
      entries = λ sid m.
          (to_set (deps_of deps sid), In-pair sid _ (pending_of deps sids) (get-pending sid m));
      keyed = λ sid left m. (pending-entry sid left m).0;
      listed = λ sid m. elim m [
        | inl n ↦ absurd n
        | inr k ↦ elim ((In-reverse_onto sid [] _).0 k) [
          | inl r ↦ ((In-ready_of (pending_of deps sids) sid sids).0 r).0
          | inr n ↦ absurd n
        ]
      ];
      order_once = tt;
      ready_once =
          Distinct-reverse_onto [] _ (ready_of-Distinct (pending_of deps sids) sids unique) tt
            (λ x m n. n);
      apart = λ sid n. absurd n;
      sorted = λ sid d n. absurd n;
    }
