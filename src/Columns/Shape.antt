-- ===== src/Columns/Shape.antt =====
-- The letters, digits and underscores of a name, through the operations on texts.
use Prim.Native.Char.{code}
use ss.Prelude.{
  ℕ, zero, suc, ◌/◌, ◌%◌, ◌≤◌, ◌<◌, ◌≡◌, refl, ap, inl, inr, String, str_append, Bool, true, ◌&&◌,
  ◌||◌, arith, Bool-cases, nat_eq, leb, ltb,
}
use native.Mathlib.Nat.{mod-lt}
use text.Mathlib.TextLemmas.{cons-append, nil-append}
use ss.Prelude.Decimal.{digit, decimal, decimal_from, tenth, code-digit}
use ss.Prelude.Text.{str_length, str_take}
use ss.Columns.{is_letter, starts_with_letter, valid_rest, is_valid_stata_name}

-- A lower-case letter, a digit or "_".
abbrev pub is_name_char : ℕ → Bool
is_name_char c = is_letter c || leb 48 c && leb c 57 || nat_eq c 95

unfoldable pub name_chars : String → Bool
name_chars String.[] = true
name_chars (String.◌∷◌ x s) = is_name_char (code x) && name_chars s

pub name_chars-append :
    (s t : String) → name_chars s ≡ true → name_chars t ≡ true → name_chars (str_append s t) ≡ true
unfolding name_chars
name_chars-append String.[] t a b = rw (nil-append t) b
name_chars-append (String.◌∷◌ x s) t a b =
    rw (cons-append x s t) (ground (arith, name_chars-append s t))

pub name_chars-str_take :
    (n : ℕ) (s : String) → name_chars s ≡ true → name_chars (str_take n s) ≡ true
unfolding name_chars str_take
name_chars-str_take zero s a = refl
name_chars-str_take (suc n) String.[] a = refl
name_chars-str_take (suc n) (String.◌∷◌ x s) a = ground (arith, name_chars-str_take n s)

name_chars-digit : (n : ℕ) → n < 10 → name_chars (String.◌∷◌ (digit n) String.[]) ≡ true
unfolding name_chars
name_chars-digit n h = ground (arith, code-digit n h)

name_chars-decimal_from : (fuel n : ℕ) → n ≤ fuel → name_chars (decimal_from fuel n) ≡ true
unfolding decimal_from
name_chars-decimal_from zero n h = name_chars-digit n (omega arith)
name_chars-decimal_from (suc fuel) n h = elim (Bool-cases (ltb n 10)) [
  | inl small ↦ rw small (name_chars-digit n (ground arith))
  | inr large ↦ rw large (
      name_chars-append (decimal_from fuel (n / 10)) (String.◌∷◌ (digit (n % 10)) String.[])
        (name_chars-decimal_from fuel (n / 10) (tenth fuel n h large))
        (name_chars-digit (n % 10) (mod-lt n (omega arith))))
]

-- The text "_" with a number.
pub name_chars-decimal : (n : ℕ) → name_chars (String.◌∷◌ "_" (decimal n)) ≡ true
unfolding name_chars
name_chars-decimal n = name_chars-decimal_from n n (omega arith)

pub str_length-str_take : (n : ℕ) (s : String) → str_length (str_take n s) ≤ n
unfolding str_length str_take
str_length-str_take zero s = omega arith
str_length-str_take (suc n) String.[] = omega arith
str_length-str_take (suc n) (String.◌∷◌ x s) = omega (arith, str_length-str_take n s)

pub str_take_all : (s : String) → str_take (str_length s) s ≡ s
unfolding str_length str_take
str_take_all String.[] = refl
str_take_all (String.◌∷◌ x s) = ap (String.◌∷◌ x) (str_take_all s)

-- A name of at most 32 characters that begins with a letter.
abbrev pub Fits : String → Type 0
Fits s = (str_length s ≤ 32) × (starts_with_letter s ≡ true) × (name_chars s ≡ true)

pub valid_rest-name_chars : (s : String) → name_chars s ≡ true → valid_rest s ≡ true
unfolding name_chars valid_rest
valid_rest-name_chars String.[] a = refl
valid_rest-name_chars (String.◌∷◌ x s) a = ground (arith, valid_rest-name_chars s)

pub Fits-is_valid_stata_name : (s : String) → Fits s → is_valid_stata_name s ≡ true
unfolding is_valid_stata_name name_chars
Fits-is_valid_stata_name String.[] (l, b, a) = cc
Fits-is_valid_stata_name (String.◌∷◌ x s) (l, b, a) = ground (arith, valid_rest-name_chars s)
