-- ===== src/Service/Formats/Normal.antt =====
-- Which formats are accepted, and what is left of them after the normalization.
use ss.Prelude.{
  String, ◌≡◌, ◌↔◌, ap, refl, ◌≢◌, ◌∙◌, false, List, [], ◌∷◌, ◌++◌, some, ◌⊎◌, inl, inr, arith, In,
  Distinct, contains, contains_iff, In-append, Bool-cases, ◌==◌, if◌then◌else◌,
}
use ss.Prelude.Text.{strip}
use ss.Prelude.Sets.{Subset, Distinct-snoc}
use ss.Exec.{ok, and_then-eq-ok}
use ss.Service.Formats.{
  supported_output_formats, add_format, add_formats, some_formats, normalize_output_formats,
}

abbrev with_format : String → List String → List String
with_format fmt normalized = if contains fmt normalized then normalized else normalized ++ fmt ∷ []

with_format-Distinct :
    (fmt : String) (normalized : List String)
    → Distinct normalized
    → Distinct (with_format fmt normalized)
with_format-Distinct fmt normalized d = elim (Bool-cases (contains fmt normalized)) [
  | inl old ↦ rw old d
  | inr new ↦ rw new (Distinct-snoc fmt normalized d λ m. cc ((contains_iff fmt normalized).1 m))
]

In-with_format :
    (a fmt : String) (normalized : List String)
    → In a (with_format fmt normalized) ↔ ((fmt ≡ a) ⊎ In a normalized)
In-with_format a fmt normalized = elim (Bool-cases (contains fmt normalized)) [
  | inl old ↦
      rw old
        (inr, λ m. elim m [ inl e ↦ rw e at ((contains_iff fmt normalized).0 old) | inr n ↦ n ])
  | inr new ↦ rw new ground (arith, In-append a normalized (fmt ∷ []))
]

some_formats-eq_ok : (all out : List String) → some_formats all ≡ ok out → (all ≡ out) × (out ≢ [])
some_formats-eq_ok [] out h = absurd (cc)
some_formats-eq_ok (f ∷ fs) out h = (cc, λ e. cc)

some_formats-some : (all : List String) (f : String) → In f all → some_formats all ≡ ok all
some_formats-some [] f m = absurd m
some_formats-some (g ∷ gs) f m = refl

supported-named : (f : String) → In f supported_output_formats → f == "" ≡ false
unfolding supported_output_formats
supported-named f (inl e) = rw (← e) refl
supported-named f (inr (inl e)) = rw (← e) refl
supported-named f (inr (inr (inl e))) = rw (← e) refl
supported-named f (inr (inr (inr (inl e)))) = rw (← e) refl
supported-named f (inr (inr (inr (inr (inl e))))) = rw (← e) refl
supported-named f (inr (inr (inr (inr (inr (inl e)))))) = rw (← e) refl
supported-named f (inr (inr (inr (inr (inr (inr (inl e))))))) = rw (← e) refl
supported-named f (inr (inr (inr (inr (inr (inr (inr e))))))) = absurd e

module _ (lower : String → String) where
  add_format-parts :
      (normalized : List String) (raw : String) (out : List String)
      → add_format lower normalized raw ≡ ok out
      → In (lower (strip raw)) supported_output_formats
        × (out ≡ with_format (lower (strip raw)) normalized)
  unfolding add_format
  add_format-parts normalized raw out h =
      ground (arith, contains_iff (lower (strip raw)) supported_output_formats)

  add_formats-parts :
      (normalized raws out : List String)
      → add_formats lower normalized raws ≡ ok out
      → Distinct normalized
      → Subset normalized supported_output_formats
      → Distinct out
        × ((a : String)
            → In a out
              ↔ (In a normalized ⊎ ((raw : String) × In raw raws × (lower (strip raw) ≡ a))))
        × Subset out supported_output_formats
  unfolding add_formats
  add_formats-parts normalized [] out h d s =
      let e : normalized ≡ out = cc in
      (
        rw (← e) d,
        λ a. rw (← e) (inl, λ m. elim m [ inl k ↦ k | inr (x, k, _) ↦ absurd k ]),
        rw (← e) s,
      )
  add_formats-parts normalized (raw ∷ raws) out h d s =
      let (more, first, rest) = and_then-eq-ok (add_format lower normalized raw) _ h in
      let (known, e) = add_format-parts normalized raw more first in
      let fmt = lower (strip raw) in
      let (out_once, from, sup) =
        add_formats-parts (with_format fmt normalized) raws out (rw e at rest)
          (with_format-Distinct fmt normalized d)
          (λ a m. elim ((In-with_format a fmt normalized).0 m) [
            | inl k ↦ rw k at known
            | inr old ↦ s a old
          ]) in
      (out_once, λ a. joined a (from a), sup)
    where
      joined :
          (a : String)
          → In a out ↔ (
              In a (with_format (lower (strip raw)) normalized)
              ⊎ ((x : String) × In x raws × (lower (strip x) ≡ a)))
          → In a out
            ↔ (In a normalized ⊎ ((x : String) × In x (raw ∷ raws) × (lower (strip x) ≡ a)))
      joined a from =
          let added = In-with_format a (lower (strip raw)) normalized in
          (
            λ m. elim (from.0 m) [
              | inl k ↦ elim (added.0 k) [ inl e ↦ inr (raw, inl refl, e) | inr old ↦ inl old ]
              | inr (x, k, e) ↦ inr (x, inr k, e)
            ],
            λ m. from.1 (elim m [
              | inl old ↦ inl (added.1 (inr old))
              | inr (x, inl same, e) ↦ inl (added.1 (inl (ap (λ r. lower (strip r)) same ∙ e)))
              | inr (x, inr k, e) ↦ inr (x, k, e)
            ]),
          )

  add_format-accepts :
      (normalized : List String) (raw : String)
      → In (lower (strip raw)) supported_output_formats
      → (out : List String) × (add_format lower normalized raw ≡ ok out)
  unfolding add_format
  add_format-accepts normalized raw m = (
    with_format (lower (strip raw)) normalized,
    rw (supported-named (lower (strip raw)) m)
        (rw ((contains_iff (lower (strip raw)) supported_output_formats).1 m) refl),
  )

  add_formats-accepts :
      (normalized raws : List String)
      → ((raw : String) → In raw raws → In (lower (strip raw)) supported_output_formats)
      → (out : List String) × (add_formats lower normalized raws ≡ ok out)
  unfolding add_formats
  add_formats-accepts normalized [] h = (normalized, refl)
  add_formats-accepts normalized (raw ∷ raws) h =
      let (more, e) = add_format-accepts normalized raw (h raw (inl refl)) in
      let (out, k) = add_formats-accepts more raws (λ r m. h r (inr m)) in (out, rw e k)

  -- Where the formats that are asked for are accepted, the result has none twice and holds exactly
  -- these formats, stripped and in lower case, all of them supported.
  pub normalize_output_formats_exact :
      (value out : List String)
      → normalize_output_formats lower (some value) ≡ ok out
      → Distinct out
        × ((a : String) → In a out ↔ ((raw : String) × In raw value × (lower (strip raw) ≡ a)))
        × Subset out supported_output_formats
  unfolding normalize_output_formats
  normalize_output_formats_exact value out h =
      let (all, e, k) = and_then-eq-ok (add_formats lower [] value) some_formats h in
      let (same, _) = some_formats-eq_ok all out k in
      let (once, from, sup) =
        add_formats-parts [] value out (e ∙ ap ok same) tt (λ a m. absurd m) in
      (
        once,
        λ a. (λ m. elim ((from a).0 m) [ inl n ↦ absurd n | inr r ↦ r ], λ r. (from a).1 (inr r)),
        sup,
      )

  -- The formats that are asked for are accepted exactly if there are some and each of them,
  -- stripped and in lower case, is supported.
  pub normalize_output_formats-accepts :
      (value : List String)
      → ((out : List String) × (normalize_output_formats lower (some value) ≡ ok out)) ↔ (
          (value ≢ [])
          × ((raw : String) → In raw value → In (lower (strip raw)) supported_output_formats))
  unfolding normalize_output_formats
  normalize_output_formats-accepts value = (
    λ (out, h). (
      asked value out h,
      λ raw m.
          let (_, from, sup) = normalize_output_formats_exact value out h in
          sup (lower (strip raw)) ((from (lower (strip raw))).1 (raw, m, refl)),
    ),
    λ (asks, all). accepted value asks all,
  )
    where
      asked :
          (value out : List String)
          → normalize_output_formats lower (some value) ≡ ok out
          → value ≢ []
      asked [] out h e = cc
      asked (raw ∷ raws) out h e = cc

      accepted :
          (value : List String)
          → value ≢ []
          → ((raw : String) → In raw value → In (lower (strip raw)) supported_output_formats)
          → (out : List String) × (normalize_output_formats lower (some value) ≡ ok out)
      accepted [] asks all = absurd (asks refl)
      accepted (raw ∷ raws) asks all =
          let (out, e) = add_formats-accepts [] (raw ∷ raws) all in
          let (_, from, _) = add_formats-parts [] (raw ∷ raws) out e tt (λ a m. absurd m) in
          (
            out,
            rw e (
                some_formats-some out (lower (strip raw)) ((from _).1 (inr (raw, inl refl, refl)))),
          )
