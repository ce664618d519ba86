-- ===== src/Prelude/Decimal.antt =====
-- Numbers as decimal texts, `str(n)`, and reading the number at the end of a text back.
use Prim.Native.Char.{Char, code}
use Prim.Native.Nat.{ℕ, zero, suc, ◌+◌, ◌-◌, ◌*◌, ◌/◌, ◌%◌, ◌^◌, ◌≤◌, ◌<◌}
use Prim.Native.String.{String, ◌++◌}
use mathlib.Core.Path.{◌≡◌, refl, ap, ◌∙◌}
use mathlib.Core.Logic.{inl, inr}
use mathlib.Core.Bool.{true, false}
use native.Mathlib.Nat.{mod-lt, div-add-mod', pow-succ'}
use native.Mathlib.Omega.{arith}
use text.Mathlib.TextLemmas.{cons-append, nil-append}
use ss.Prelude.Tests.{nat_eq, ltb, if◌then◌else◌, Bool-cases, ltb→lt}
use ss.Prelude.Text.{str_length}

abbrev pub digit : ℕ → Char
digit zero = "0"
digit (suc zero) = "1"
digit (suc (suc zero)) = "2"
digit (suc (suc (suc zero))) = "3"
digit (suc (suc (suc (suc zero)))) = "4"
digit (suc (suc (suc (suc (suc zero))))) = "5"
digit (suc (suc (suc (suc (suc (suc zero)))))) = "6"
digit (suc (suc (suc (suc (suc (suc (suc zero))))))) = "7"
digit (suc (suc (suc (suc (suc (suc (suc (suc zero)))))))) = "8"
digit _ = "9"

-- With `fuel` at least the number of digits less one; the number itself is enough.
unfoldable pub decimal_from : ℕ → ℕ → String
decimal_from zero n = String.◌∷◌ (digit n) String.[]
decimal_from (suc fuel) n =
    let rest = decimal_from fuel (n / 10) in
    if ltb n 10
    then String.◌∷◌ (digit n) String.[]
    else rest ++ String.◌∷◌ (digit (n % 10)) String.[]

abbrev pub decimal : ℕ → String
decimal n = decimal_from n n

-- The number that follows the last "_".
unfoldable pub read_number : ℕ → String → ℕ
read_number acc String.[] = acc
read_number acc (String.◌∷◌ x s) =
    read_number (if nat_eq (code x) 95 then 0 else acc * 10 + (code x - 48)) s

pub code-digit : (n : ℕ) → n < 10 → code (digit n) ≡ 48 + n
code-digit zero h = refl
code-digit (suc zero) h = refl
code-digit (suc (suc zero)) h = refl
code-digit (suc (suc (suc zero))) h = refl
code-digit (suc (suc (suc (suc zero)))) h = refl
code-digit (suc (suc (suc (suc (suc zero))))) h = refl
code-digit (suc (suc (suc (suc (suc (suc zero)))))) h = refl
code-digit (suc (suc (suc (suc (suc (suc (suc zero))))))) h = refl
code-digit (suc (suc (suc (suc (suc (suc (suc (suc zero)))))))) h = refl
code-digit (suc (suc (suc (suc (suc (suc (suc (suc (suc zero))))))))) h = refl
code-digit (suc (suc (suc (suc (suc (suc (suc (suc (suc (suc n)))))))))) h = absurd (omega arith)

pub read_number-append :
    (acc : ℕ) (s t : String) → read_number acc (s ++ t) ≡ read_number (read_number acc s) t
unfolding read_number
read_number-append acc String.[] t = rw (nil-append t) refl
read_number-append acc (String.◌∷◌ x s) t =
    rw (cons-append x s t)
      (read_number-append (if nat_eq (code x) 95 then 0 else acc * 10 + (code x - 48)) s t)

read_number-digit :
    (acc n : ℕ) → n < 10 → read_number acc (String.◌∷◌ (digit n) String.[]) ≡ acc * 10 + n
unfolding read_number
read_number-digit acc n h = ground (arith, code-digit n h)

pub tenth : (fuel n : ℕ) → n ≤ suc fuel → ltb n 10 ≡ false → n / 10 ≤ fuel
tenth fuel n h large = ground (arith, div-add-mod' n 10)

div-lt : (n m : ℕ) → n < 10 * m → n / 10 < m
div-lt n m h = omega (arith, div-add-mod' n 10)

read_number-decimal_from : (fuel n : ℕ) → n ≤ fuel → read_number 0 (decimal_from fuel n) ≡ n
unfolding decimal_from
read_number-decimal_from zero n h = read_number-digit 0 n (omega arith) ∙ omega arith
read_number-decimal_from (suc fuel) n h = elim (Bool-cases (ltb n 10)) [
  | inl small ↦ rw small (read_number-digit 0 n (ltb→lt n 10 small) ∙ omega arith)
  | inr large ↦ rw large (
      read_number-append 0 (decimal_from fuel (n / 10)) (String.◌∷◌ (digit (n % 10)) String.[])
      ∙ ap (λ a. read_number a (String.◌∷◌ (digit (n % 10)) String.[]))
          (read_number-decimal_from fuel (n / 10) (tenth fuel n h large))
      ∙ read_number-digit (n / 10) (n % 10) (mod-lt n (omega arith))
      ∙ div-add-mod' n 10)
]

-- A number is read back, whatever stands before the "_".
pub read_number-decimal :
    (acc n : ℕ) (s : String) → read_number acc (s ++ String.◌∷◌ "_" (decimal n)) ≡ n
unfolding read_number
read_number-decimal acc n s =
    read_number-append acc s (String.◌∷◌ "_" (decimal n))
    ∙ read_number-decimal_from n n (omega arith)

pub str_length-append : (s t : String) → str_length (s ++ t) ≡ str_length s + str_length t
unfolding str_length
str_length-append String.[] t = rw (nil-append t) (omega arith)
str_length-append (String.◌∷◌ x s) t = rw (cons-append x s t) (omega (arith, str_length-append s t))

-- A number below `10 ^ suc k` has at most `suc k` digits.
pub str_length-decimal_from :
    (k fuel n : ℕ) → n < 10 ^ suc k → str_length (decimal_from fuel n) ≤ suc k
unfolding decimal_from str_length
str_length-decimal_from k zero n h = omega arith
str_length-decimal_from zero (suc fuel) n h =
    let small : ltb n 10 ≡ true = ground arith in rw small (omega arith)
str_length-decimal_from (suc j) (suc fuel) n h = elim (Bool-cases (ltb n 10)) [
  | inl small ↦ rw small (omega arith)
  | inr large ↦
      let rest =
        str_length-decimal_from j fuel (n / 10) (div-lt n (10 ^ suc j) (rw pow-succ' at h)) in
      rw large (
        omega (
          arith,
          str_length-append (decimal_from fuel (n / 10)) (String.◌∷◌ (digit (n % 10)) String.[]),
          rest,
        ))
]
