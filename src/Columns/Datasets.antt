-- ===== src/Columns/Datasets.antt =====
-- The grouping of the columns by dataset, and the entries that each dataset gets.
use Prim.Native.Char.{Char}
use ss.Prelude.{
  suc, ◌⊎◌, Option-cases, ◌≡◌, refl, sym, ◌∙◌, ap, subst, inl, inr, String, false, List, [], ◌∷◌,
  ◌++◌, map, some, arith, length, In, Distinct, All, Bool-cases, if◌then◌else◌, ◌==◌, eq_iff,
}
use ss.Prelude.Assoc.{Dict, get, put, keys, get-put, In-get}
use ss.Columns.{
  and_then, Candidate, Normalization, items_of, members, group, normalizations, of_dataset,
  of_datasets, build_draft_column_name_normalizations,
}
use ss.Columns.Unique.{stata_safe_unique_names-Distinct}

-- The entries of a dataset, and the candidates of a dataset.
unfoldable pub entries_of : String → List Normalization → List Normalization
entries_of key [] = []
entries_of key (n ∷ ns) =
    let rest = entries_of key ns in if n.dataset_key == key then n ∷ rest else rest

unfoldable pub candidates_of : String → List Candidate → List Candidate
candidates_of key [] = []
candidates_of key (c ∷ cs) =
    let rest = candidates_of key cs in if c.dataset_key == key then c ∷ rest else rest

abbrev pub normalized_names : List Normalization → List String
normalized_names = map (λ n. n.normalized_name)

abbrev pub original_names : List Normalization → List String
original_names = map (λ n. n.original_name)

abbrev pub names_of : List Candidate → List String
names_of = map (λ c. c.name)

append-nil {ℓ} : {A : Type ℓ} (xs : List A) → xs ++ [] ≡ xs
append-nil [] = refl
append-nil (x ∷ xs) = ap (λ r. x ∷ r) (append-nil xs)

append-snoc {ℓ} :
    {A : Type ℓ} (xs : List A) (y : A) (ys : List A) → (xs ++ y ∷ []) ++ ys ≡ xs ++ y ∷ ys
append-snoc [] y ys = refl
append-snoc (x ∷ xs) y ys = ap (λ r. x ∷ r) (append-snoc xs y ys)

length-names_of : (items : List Candidate) → length (names_of items) ≡ length items
length-names_of [] = refl
length-names_of (c ∷ cs) = ap suc (length-names_of cs)

entries_of-append :
    (key : String) (ms ns : List Normalization)
    → entries_of key (ms ++ ns) ≡ entries_of key ms ++ entries_of key ns
unfolding entries_of
entries_of-append key [] ns = refl
entries_of-append key (m ∷ ms) ns = elim (Bool-cases (m.dataset_key == key)) [
  | inl e ↦ rw e (ap (λ r. m ∷ r) (entries_of-append key ms ns))
  | inr e ↦ rw e (entries_of-append key ms ns)
]

abbrev Keyed : String → List Normalization → Type 0
Keyed key = All (λ n. n.dataset_key ≡ key)

entries_of-same : (key : String) (ns : List Normalization) → Keyed key ns → entries_of key ns ≡ ns
unfolding entries_of
entries_of-same key [] k = refl
entries_of-same key (n ∷ ns) (e, k) =
    rw ((eq_iff n.dataset_key key).1 e) (ap (λ r. n ∷ r) (entries_of-same key ns k))

entries_of-other :
    (key other : String) (ns : List Normalization)
    → (other == key) ≡ false
    → Keyed other ns
    → entries_of key ns ≡ []
unfolding entries_of
entries_of-other key other [] d k = refl
entries_of-other key other (n ∷ ns) d (e, k) = rw (e, d) (entries_of-other key other ns d k)

normalizations-total :
    (key : String) (items : List Candidate) (names : List String)
    → length names ≡ length items
    → (ns : List Normalization) × (normalizations key items names ≡ some ns)
      × (normalized_names ns ≡ names)
      × (original_names ns ≡ names_of items)
      × Keyed key ns
unfolding normalizations
normalizations-total key [] [] e = ([], refl, refl, refl, tt)
normalizations-total key [] (n ∷ names) e = absurd (omega arith)
normalizations-total key (c ∷ items) [] e = absurd (omega arith)
normalizations-total key (c ∷ items) (n ∷ names) e =
    let (ns, h, norm, orig, k) = normalizations-total key items names (omega arith) in
    let entry = λ (rest : List Normalization). some (
      record { dataset_key = key; role = c.role; original_name = c.name; normalized_name = n }
      ∷ rest) in
    (
      record { dataset_key = key; role = c.role; original_name = c.name; normalized_name = n } ∷ ns,
      ap (λ o. and_then o entry) h,
      ap (λ r. n ∷ r) norm,
      ap (λ r. c.name ∷ r) orig,
      (refl, k),
    )

-- What a dataset's candidates come to.
abbrev pub Named : List Normalization → List Candidate → Type 0
Named ns items = Distinct (normalized_names ns) × (original_names ns ≡ names_of items)

module _ (lower : Char → String) where
  of_dataset-Named :
      (key : String) (items : List Candidate)
      → (ns : List Normalization) × (of_dataset lower key items ≡ some ns)
        × Named ns items
        × Keyed key ns
  unfolding of_dataset
  of_dataset-Named key items =
      let (names, e, distinct, n) = stata_safe_unique_names-Distinct lower (names_of items) in
      let (ns, h, norm, orig, k) =
        normalizations-total key items names (n ∙ length-names_of items) in
      (
        ns,
        ap (λ o. and_then o (normalizations key items)) e ∙ h,
        (subst Distinct (sym norm) distinct, orig),
        k,
      )

  original_names-nil : (ns : List Normalization) → original_names ns ≡ [] → ns ≡ []
  original_names-nil [] e = refl
  original_names-nil (n ∷ ns) e = cc e

  members-missing :
      (key : String) (groups : Dict (List Candidate))
      → ¬ (In key (keys groups))
      → members key groups ≡ []
  members-missing key groups out = elim (Option-cases (get key groups)) [
    | inl e ↦ ap items_of e
    | inr (items, e) ↦ absurd (out (In-get key items groups e))
  ]

  -- The first dataset's entries stand before those of the others.
  Named-append :
      (j key : String) (items : List Candidate) (groups : Dict (List Candidate))
      (ms ns : List Normalization)
      → ¬ (In j (keys groups))
      → Named ms items
      → Keyed j ms
      → Named (entries_of key ns) (members key groups)
      → Named (entries_of key ms ++ entries_of key ns) (members key ((j, items) ∷ groups))
  unfolding get
  Named-append j key items groups ms ns new here k rest = elim (Bool-cases (j == key)) [
    | inl e ↦
        let same = (eq_iff j key).0 e in
        let none_left = original_names-nil (entries_of key ns) (
          rest.1
          ∙ ap names_of
              (members-missing key groups (subst (λ x. ¬ (In x (keys groups))) same new))) in
        let mine = entries_of-same key ms (subst (λ x. Keyed x ms) same k) in
        rw (e, mine, none_left, append-nil ms) here
    | inr e ↦ rw (e, entries_of-other key j ms e k) rest
  ]

  of_datasets-Named :
      (groups : Dict (List Candidate))
      → Distinct (keys groups)
      → (ns : List Normalization) × (of_datasets lower groups ≡ some ns)
        × ((key : String) → Named (entries_of key ns) (members key groups))
  unfolding of_datasets get keys entries_of
  of_datasets-Named [] d = ([], refl, λ key. (tt, refl))
  of_datasets-Named ((j, items) ∷ groups) (new, d) =
      let (ms, e, here, k) = of_dataset-Named j items in
      let (ns, h, rest) = of_datasets-Named groups d in
      (
        ms ++ ns,
        ap (λ o. and_then o (λ xs. and_then (of_datasets lower groups) (λ ys. some (xs ++ ys)))) e
            ∙ ap (λ o. and_then o (λ ys. some (ms ++ ys))) h,
        λ key.
            subst (λ xs. Named xs (members key ((j, items) ∷ groups)))
              (sym (entries_of-append key ms ns))
              (Named-append j key items groups ms ns new here k (rest key)),
      )

group-members :
    (items : List Candidate) (groups : Dict (List Candidate)) (key : String)
    → members key (group groups items) ≡ members key groups ++ candidates_of key items
unfolding group candidates_of
group-members [] groups key = sym (append-nil (members key groups))
group-members (c ∷ cs) groups key =
    let j = c.dataset_key in
    let added = members j groups ++ c ∷ [] in
    group-members cs (put j added groups) key
    ∙ ap (λ o. items_of o ++ candidates_of key cs) (get-put j key added groups)
    ∙ elim (Bool-cases (j == key)) [
      | inl e ↦ rw e (
          append-snoc (members j groups) c (candidates_of key cs)
          ∙ ap (λ x. members x groups ++ c ∷ candidates_of key cs) ((eq_iff j key).0 e))
      | inr e ↦ rw e refl
    ]

In-keys-put :
    (x j : String) (items : List Candidate) (groups : Dict (List Candidate))
    → In x (keys (put j items groups))
    → (x ≡ j) ⊎ In x (keys groups)
unfolding keys put
In-keys-put x j items [] m = ground arith
In-keys-put x j items ((i, old) ∷ groups) m =
    ground (arith, eq_iff i j, In-keys-put x j items groups)

Distinct-keys-put :
    (j : String) (items : List Candidate) (groups : Dict (List Candidate))
    → Distinct (keys groups)
    → Distinct (keys (put j items groups))
unfolding keys put
Distinct-keys-put j items [] d = (λ m. m, tt)
Distinct-keys-put j items ((i, old) ∷ groups) (new, d) = elim (Bool-cases (i == j)) [
  | inl e ↦ rw e (new, d)
  | inr e ↦ rw e (
    λ m. elim (In-keys-put i j items groups m) [
      | inl same ↦ cc (e, (eq_iff i j).1 same)
      | inr old ↦ new old
    ],
    Distinct-keys-put j items groups d,
  )
]

Distinct-group :
    (items : List Candidate) (groups : Dict (List Candidate))
    → Distinct (keys groups)
    → Distinct (keys (group groups items))
unfolding group
Distinct-group [] groups d = d
Distinct-group (c ∷ cs) groups d =
    Distinct-group cs (put c.dataset_key (members c.dataset_key groups ++ c ∷ []) groups)
      (Distinct-keys-put c.dataset_key (members c.dataset_key groups ++ c ∷ []) groups d)

-- The loops that name the columns end within their fuel, and each dataset gets one name for each
-- of its candidates, in their order, and no name twice.
pub normalizations-Named :
    (lower : Char → String) (candidates : List Candidate)
    → (ns : List Normalization) × (build_draft_column_name_normalizations lower candidates
        ≡ some ns)
      × ((key : String) → Named (entries_of key ns) (candidates_of key candidates))
unfolding build_draft_column_name_normalizations get keys
normalizations-Named lower candidates =
    let (ns, e, named) =
      of_datasets-Named lower (group [] candidates) (Distinct-group candidates [] tt) in
    (ns, e, λ key. subst (Named (entries_of key ns)) (group-members candidates [] key) (named key))
