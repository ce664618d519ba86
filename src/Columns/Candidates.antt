-- ===== src/Columns/Candidates.antt =====
-- The names that the loop tries, of which one is free.
use ss.Prelude.{
  ℕ, zero, suc, ◌+◌, ◌-◌, leb, str_append, ◌<◌, ◌≡◌, ◌≢◌, refl, ◌∙◌, ap, inl, inr, String, List, [],
  ◌∷◌, none, some, arith, length, In, Distinct, contains, contains→In, In→contains, Bool-cases,
}
use ss.Prelude.Decimal.{decimal, read_number, read_number-decimal}
use ss.Prelude.Sets.{Subset, length-le_of_Subset}
use ss.Prelude.Text.{str_length, str_take}
use ss.Columns.{apply_suffix, with_count, next_free}

pub apply_suffix-ends :
    (base suffix : String) → (head : String) × (apply_suffix base suffix ≡ str_append head suffix)
unfolding apply_suffix
apply_suffix-ends base suffix = elim (Bool-cases (leb (str_length base + str_length suffix) 32)) [
  | inl short ↦ (base, rw short refl)
  | inr long ↦ elim (Bool-cases (leb (str_length suffix) 32)) [
    | inl fits ↦ (str_take (32 - str_length suffix) base, rw (long, fits) refl)
    | inr over ↦ (str_take (str_length base - (str_length suffix - 32)) base, rw (long, over) refl)
  ]
]

pub read_number-with_count :
    (base : String) (count : ℕ) → read_number 0 (with_count base count) ≡ count
read_number-with_count base count =
    let (head, e) = apply_suffix-ends base (String.◌∷◌ "_" (decimal count)) in
    ap (read_number 0) e ∙ read_number-decimal 0 count head

-- The names tried after a count, `fuel` of them.
abbrev pub probes : ℕ → String → ℕ → List String
probes zero base count = []
probes (suc fuel) base count = with_count base (suc count) ∷ probes fuel base (suc count)

length-probes : (fuel : ℕ) (base : String) (count : ℕ) → length (probes fuel base count) ≡ fuel
length-probes zero base count = refl
length-probes (suc fuel) base count = ap suc (length-probes fuel base (suc count))

read_number-probes :
    (fuel : ℕ) (base : String) (count : ℕ) (x : String)
    → In x (probes fuel base count)
    → count < read_number 0 x
read_number-probes zero base count x m = absurd m
read_number-probes (suc fuel) base count x (inl e) =
    rw (← e, read_number-with_count base (suc count)) (omega arith)
read_number-probes (suc fuel) base count x (inr m) =
    omega (arith, read_number-probes fuel base (suc count) x m)

Distinct-probes : (fuel : ℕ) (base : String) (count : ℕ) → Distinct (probes fuel base count)
Distinct-probes zero base count = tt
Distinct-probes (suc fuel) base count = (
  λ m. omega (
    arith,
    read_number-probes fuel base (suc count) (with_count base (suc count)) m,
    read_number-with_count base (suc count),
  ),
  Distinct-probes fuel base (suc count),
)

next_free-taken :
    (fuel : ℕ) (base : String) (used : List String) (candidate : String) (count : ℕ)
    → next_free (suc fuel) base used candidate count ≡ none
    → In candidate used
      × (next_free fuel base used (with_count base (suc count)) (suc count) ≡ none)
unfolding next_free
next_free-taken fuel base used candidate count h = elim (Bool-cases (contains candidate used)) [
  | inr free ↦ let e : some (candidate, count) ≡ none = rw free at h in absurd (cc e)
  | inl taken ↦ (contains→In candidate used taken, rw taken at h)
]

next_free-none :
    (fuel : ℕ) (base : String) (used : List String) (candidate : String) (count : ℕ)
    → next_free (suc fuel) base used candidate count ≡ none
    → Subset (probes fuel base count) used
next_free-none zero base used candidate count h = λ a m. absurd m
next_free-none (suc fuel) base used candidate count h =
    let next = with_count base (suc count) in
    let failed = (next_free-taken (suc fuel) base used candidate count h).1 in
    let rest = next_free-none fuel base used next (suc count) failed in
    λ a m. elim m [
      | inl same ↦ rw (← same) (next_free-taken fuel base used next (suc count) failed).0
      | inr later ↦ rest a later
    ]

pub next_free-total :
    (base : String) (used : List String) (candidate : String) (count : ℕ)
    → next_free (suc (suc (length used))) base used candidate count ≢ none
next_free-total base used candidate count h =
    let fuel = suc (length used) in
    let short =
      length-le_of_Subset (probes fuel base count) used (Distinct-probes fuel base count)
        (next_free-none fuel base used candidate count h) in
    omega (arith, length-probes fuel base count)

pub next_free-free :
    (fuel : ℕ) (base : String) (used : List String) (candidate : String) (count : ℕ) (name : String)
    (last : ℕ)
    → next_free fuel base used candidate count ≡ some (name, last)
    → ¬ (In name used)
unfolding next_free
next_free-free zero base used candidate count name last h m = absurd (cc)
next_free-free (suc fuel) base used candidate count name last h m =
    elim (Bool-cases (contains candidate used)) [
      | inl taken ↦
          next_free-free fuel base used (with_count base (suc count)) (suc count) name last
            (rw taken at h) m
      | inr free ↦
          let e : some (candidate, count) ≡ some (name, last) = rw free at h in
          cc (e, In→contains name used m)
    ]
