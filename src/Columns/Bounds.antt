-- ===== src/Columns/Bounds.antt =====
-- The length and the shape of the names through the loop, and the size of its counts.
use Prim.Native.Char.{Char}
use native.Mathlib.Nat.{mul-le-mul}
use ss.Prelude.{
  ℕ, zero, suc, ◌+◌, ◌-◌, ◌*◌, ◌^◌, ◌≤◌, ◌<◌, ◌≡◌, refl, sym, ◌∙◌, ap, subst, inl, inr, String,
  str_append, true, List, [], ◌∷◌, some, arith, length, All, All-append, Bool-cases, nat_eq, leb,
  contains,
}
use text.Mathlib.TextLemmas.{cons-append, nil-append}
use ss.Prelude.Assoc.{get-put}
use ss.Prelude.Decimal.{decimal, str_length-append, str_length-decimal_from}
use ss.Prelude.Sets.{add}
use ss.Prelude.Text.{has_char, str_length, str_take}
use ss.Columns.{
  starts_with_letter, is_valid_stata_name, normalize_base, apply_suffix, with_count, next_free,
  Naming, count_of, base_name, named, chosen, first_count, first_candidate, names_from, and_then,
  stata_safe_unique_names,
}
use ss.Columns.Shape.{
  name_chars, name_chars-append, name_chars-str_take, name_chars-decimal, str_take_all,
  str_length-str_take, Fits, Fits-is_valid_stata_name,
}
use ss.Columns.Plain.{Fits-normalize_base}
use ss.Columns.Unique.{name_one-found, names_from-Apart}

-- The suffix takes the place of the end of the base name, of which something is left.
apply_suffix-cut :
    (base suffix : String)
    → 1 ≤ str_length base
    → str_length suffix ≤ 31
    → (k : ℕ) × (1 ≤ k)
      × (apply_suffix base suffix ≡ str_append (str_take k base) suffix)
      × (str_length (str_take k base) + str_length suffix ≤ 32)
unfolding apply_suffix
apply_suffix-cut base suffix l u =
    elim (Bool-cases (leb (str_length base + str_length suffix) 32)) [
      | inl short ↦ (
        str_length base,
        l,
        rw (short, str_take_all base) refl,
        rw (str_take_all base) (ground arith),
      )
      | inr long ↦
          let fits : leb (str_length suffix) 32 ≡ true = ground arith in
          (
            32 - str_length suffix,
            omega arith,
            rw (long, fits) refl,
            omega (arith, str_length-str_take (32 - str_length suffix) base),
          )
    ]

starts_with_letter-cut :
    (k : ℕ) (base suffix : String)
    → 1 ≤ k
    → starts_with_letter base ≡ true
    → starts_with_letter (str_append (str_take k base) suffix) ≡ true
unfolding str_take
starts_with_letter-cut zero base suffix l h = absurd (omega arith)
starts_with_letter-cut (suc k) String.[] suffix l h = cc
starts_with_letter-cut (suc k) (String.◌∷◌ x s) suffix l h =
    rw (cons-append x (str_take k s) suffix) h

starts-nonempty : (base : String) → starts_with_letter base ≡ true → 1 ≤ str_length base
unfolding str_length
starts-nonempty String.[] h = cc
starts-nonempty (String.◌∷◌ x s) h = omega arith

Fits-with_count :
    (base : String) (count : ℕ) → Fits base → count < 10 ^ 30 → Fits (with_count base count)
unfolding str_length
Fits-with_count base count (l, b, a) small =
    let suffix = String.◌∷◌ "_" (decimal count) in
    let (k, one, e, n) =
      apply_suffix-cut base suffix (starts-nonempty base b) (suffix_short count small) in
    subst Fits (sym e) (
      rw (str_length-append (str_take k base) suffix) n,
      starts_with_letter-cut k base suffix one b,
      name_chars-append (str_take k base) suffix (name_chars-str_take k base a)
          (name_chars-decimal count),
    )
  where
    suffix_short : (m : ℕ) → m < 10 ^ 30 → str_length (String.◌∷◌ "_" (decimal m)) ≤ 31
    suffix_short m lt = omega (arith, str_length-decimal_from 29 m m lt)

next_free-Fits :
    (fuel : ℕ) (base : String) (used : List String) (candidate : String) (count : ℕ)
    (c : String × ℕ)
    → Fits base
    → Fits candidate
    → count + fuel < 10 ^ 30
    → next_free fuel base used candidate count ≡ some c
    → Fits c.0 × (c.1 < count + fuel)
unfolding next_free
next_free-Fits zero base used candidate count c fb fc u h = absurd (cc h)
next_free-Fits (suc fuel) base used candidate count c fb fc u h =
    elim (Bool-cases (contains candidate used)) [
      | inl taken ↦
          let (f, lt) =
            next_free-Fits fuel base used (with_count base (suc count)) (suc count) c fb
              (Fits-with_count base (suc count) fb (omega arith)) (omega arith) (rw taken at h) in
          (f, omega arith)
      | inr free ↦
          let e : some (candidate, count) ≡ some c = rw free at h in
          let same : (candidate, count) ≡ c = cc e in
          (subst (λ p. Fits p.0) same fc, rw (← same) (omega arith))
    ]

Fits-numbered : (idx : ℕ) → idx < 10 ^ 12 → Fits (str_append "v_" (decimal idx))
unfolding str_length name_chars
Fits-numbered idx small =
    rw
      (
        cons-append "v" "_" (decimal idx),
        cons-append "_" "" (decimal idx),
        nil-append (decimal idx),
      )
      (omega (arith, str_length-decimal_from 11 idx idx small), refl, name_chars-decimal idx)

length-add : (x : String) (s : List String) → length (add x s) ≤ suc (length s)
unfolding add
length-add x s = ground arith

square_step : (i : ℕ) → i * (i + 3) + i + 3 ≤ suc i * (suc i + 3)
square_step i = grind arith

square_small : (i : ℕ) → i < 10 ^ 12 → i * (i + 3) + i + 3 < 10 ^ 30
square_small i h =
    let a : i ≤ 10 ^ 12 = omega arith in
    let b : i + 3 ≤ 10 ^ 12 + 3 = omega arith in omega (arith, mul-le-mul a b)

module _ (lower : Char → String)
    (lower-newline : (c : Char) → has_char 10 (lower c) ≡ true → lower c ≡ "\n") where
  Fits-base_name :
      (idx : ℕ) (original : String) → idx < 10 ^ 12 → Fits (base_name lower idx original)
  unfolding str_length
  Fits-base_name idx original small =
      elim (Bool-cases (is_valid_stata_name (normalize_base lower original))) [
        | inl valid ↦ rw valid (Fits-normalize_base lower lower-newline original valid)
        | inr bad ↦ rw bad (Fits-numbered idx small)
      ]

  -- After `i` names: they fit, and the counts are small.
  pub record Sized (i : ℕ) (state : Naming) : Type 0 where
    pub names : All Fits state.out
    pub many : length state.used ≤ i
    pub counted : (base : String) → count_of base state.counts ≤ i * (i + 3)

  Fits-first_candidate :
      (idx : ℕ) (original : String) (state : Naming)
      → Fits (base_name lower idx original)
      → first_count lower idx original state < 10 ^ 30
      → Fits (first_candidate lower idx original state)
  Fits-first_candidate idx original state fits small =
      elim (Bool-cases (nat_eq (first_count lower idx original state) 1)) [
        | inl one ↦ rw one fits
        | inr more ↦ rw more (
            Fits-with_count (base_name lower idx original) (first_count lower idx original state)
              fits small)
      ]

  named-Sized :
      (idx : ℕ) (original : String) (state : Naming) (i : ℕ) (c : String × ℕ)
      → idx < 10 ^ 12
      → i < 10 ^ 12
      → Sized i state
      → chosen lower idx original state ≡ some c
      → Sized (suc i) (named lower idx original state c)
  named-Sized idx original state i c small few g h =
      let base = base_name lower idx original in
      let fits = Fits-base_name idx original small in
      let room : suc (count_of base state.counts) + suc (suc (length state.used)) < 10 ^ 30 =
        omega (arith, g.counted base, g.many, square_small i few) in
      let (f, lt) =
        next_free-Fits _ base state.used (first_candidate lower idx original state) _ c fits
          (Fits-first_candidate idx original state fits (omega (arith, room))) room h in
      record {
        names = All-append Fits state.out (c.0 ∷ []) g.names (f, tt);
        many = omega (arith, g.many, length-add c.0 state.used);
        counted = λ b.
            ground
              (arith, get-put base b c.1 state.counts, g.counted b, g.counted base, square_step i);
      }

  names_from-Sized :
      (originals : List String) (idx i : ℕ) (state : Naming) (state' : Naming)
      → i + length originals < 10 ^ 12
      → idx ≡ suc i
      → Sized i state
      → names_from lower idx originals state ≡ some state'
      → All Fits state'.out
  unfolding names_from
  names_from-Sized [] idx i state state' few same g e =
      let h : state ≡ state' = cc e in subst (λ s. All Fits s.out) h g.names
  names_from-Sized (original ∷ originals) idx i state state' few same g e =
      let (c, found, h) = name_one-found lower idx original state in
      names_from-Sized originals (suc idx) (suc i) (named lower idx original state c) state'
        (omega arith) (ap suc same)
        (named-Sized idx original state i c (omega arith) (omega arith) g found)
        (sym (ap (λ o. and_then o (names_from lower (suc idx) originals)) h) ∙ e)

  -- If lower-casing makes a newline of no other character and there are fewer than 10 ^ 12
  -- columns, each name that is given has at most 32 characters and is one that the pattern for
  -- Stata's names accepts.
  pub stata_safe_unique_names-Fits :
      (originals names : List String)
      → length originals < 10 ^ 12
      → stata_safe_unique_names lower originals ≡ some names
      → All (λ name. (str_length name ≤ 32) × (is_valid_stata_name name ≡ true)) names
  unfolding stata_safe_unique_names
  stata_safe_unique_names-Fits originals names few e =
      let (state, run, g, n) =
        names_from-Apart lower originals 1 (record { out = []; used = []; counts = [] })
          (tt, λ a. (λ m. m, λ m. m)) in
      let start : Sized 0 (record { out = []; used = []; counts = [] }) = record {
        names = tt;
        many = omega arith;
        counted = λ b. omega arith;
      } in
      let same : some state.out ≡ some names =
        sym (ap (λ o. and_then o (λ state. some state.out)) run) ∙ e in
      let fits = names_from-Sized originals 1 0 _ state (omega arith) refl start run in
      accepted names (subst (All Fits) (cc same) fits)
    where
      accepted :
          (xs : List String)
          → All Fits xs
          → All (λ name. (str_length name ≤ 32) × (is_valid_stata_name name ≡ true)) xs
      accepted [] a = tt
      accepted (x ∷ xs) (f, a) = ((f.0, Fits-is_valid_stata_name x f), accepted xs a)
