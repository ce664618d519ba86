-- ===== src/Columns/Plain.antt =====
-- Texts without a newline, at which the pattern's "$" could stand too, through the base name.
use Prim.Native.Char.{Char, code}
use ss.Prelude.{
  ℕ, zero, suc, ◌-◌, ◌/◌, ◌%◌, ◌≤◌, ◌≡◌, refl, inl, inr, String, str_append, Bool, true, false,
  ◌&&◌, ◌||◌, arith, Bool-cases, nat_eq, leb, ltb, if◌then◌else◌, ◌==◌,
}
use text.Mathlib.TextLemmas.{cons-append, nil-append}
use ss.Prelude.Decimal.{code-digit}
use ss.Prelude.Text.{str_length, has_char, str_take, is_space, strip, starts_with_char}
use ss.Columns.{
  str_leb, hex_letter, hex_digit, hex, hex_code, collapse, lstrip_underscores, rstrip_underscores,
  valid_rest, char_token, tokens, normalize_base, starts_with_letter, is_valid_stata_name,
}
use ss.Columns.Shape.{name_chars, Fits, str_length-str_take}

abbrev pub Plain : String → Type 0
Plain s = has_char 10 s ≡ false

Plain-if : (b : Bool) (s t : String) → (b ≡ true → Plain s) → Plain t → Plain (if b then s else t)
Plain-if true s t left right = left refl
Plain-if false s t left right = right

Plain-append : (s t : String) → Plain s → Plain t → Plain (str_append s t)
unfolding has_char
Plain-append String.[] t a b = rw (nil-append t) b
Plain-append (String.◌∷◌ x s) t a b = rw (cons-append x s t) (ground (arith, Plain-append s t))

Plain-str_take : (n : ℕ) (s : String) → Plain s → Plain (str_take n s)
unfolding has_char str_take
Plain-str_take zero s a = refl
Plain-str_take (suc n) String.[] a = refl
Plain-str_take (suc n) (String.◌∷◌ x s) a = ground (arith, Plain-str_take n s)

Plain-collapse : (s : String) → Plain s → Plain (collapse s)
unfolding has_char collapse starts_with_char
Plain-collapse String.[] a = refl
Plain-collapse (String.◌∷◌ x s) a = ground (arith, Plain-collapse s)

Plain-lstrip_underscores : (s : String) → Plain s → Plain (lstrip_underscores s)
unfolding has_char lstrip_underscores
Plain-lstrip_underscores String.[] a = refl
Plain-lstrip_underscores (String.◌∷◌ x s) a = ground (arith, Plain-lstrip_underscores s)

Plain-rstrip_underscores : (s : String) → Plain s → Plain (rstrip_underscores s)
unfolding has_char rstrip_underscores
Plain-rstrip_underscores String.[] a = refl
Plain-rstrip_underscores (String.◌∷◌ x s) a =
    Plain-if (rstrip_underscores s == "" && nat_eq (code x) 95) String.[]
      (String.◌∷◌ x (rstrip_underscores s)) (λ e. refl) (ground (arith, Plain-rstrip_underscores s))

hex_letter_lem : (n : ℕ) → 48 ≤ code (hex_letter n)
hex_letter_lem zero = omega arith
hex_letter_lem (suc zero) = omega arith
hex_letter_lem (suc (suc zero)) = omega arith
hex_letter_lem (suc (suc (suc zero))) = omega arith
hex_letter_lem (suc (suc (suc (suc zero)))) = omega arith
hex_letter_lem (suc (suc (suc (suc (suc n))))) = omega arith

code-hex_digit : (n : ℕ) → 48 ≤ code (hex_digit n)
code-hex_digit n = ground (arith, code-digit n, hex_letter_lem (n - 10))

Plain-hex : (width n : ℕ) → Plain (hex width n)
unfolding has_char
Plain-hex zero n = refl
Plain-hex (suc width) n =
    Plain-append (hex width (n / 16)) (String.◌∷◌ (hex_digit (n % 16)) String.[])
      (Plain-hex width (n / 16)) (ground (arith, code-hex_digit (n % 16)))

name_chars-valid_rest : (s : String) → Plain s → valid_rest s ≡ true → name_chars s ≡ true
unfolding has_char valid_rest name_chars
name_chars-valid_rest String.[] a v = refl
name_chars-valid_rest (String.◌∷◌ x s) a v = ground (arith, name_chars-valid_rest s)

valid_name_chars :
    (s : String)
    → Plain s
    → is_valid_stata_name s ≡ true
    → (starts_with_letter s ≡ true) × (name_chars s ≡ true)
unfolding has_char is_valid_stata_name name_chars
valid_name_chars String.[] a v = cc
valid_name_chars (String.◌∷◌ x s) a v = ground (arith, name_chars-valid_rest s)

module _ (lower : Char → String)
    (lower-newline : (c : Char) → has_char 10 (lower c) ≡ true → lower c ≡ "\n") where
  -- Lower-casing gives a letter, a digit or "_" at the start, or the test fails.
  Plain-lower :
      (c : Char)
      → (str_leb "a" (lower c) && str_leb (lower c) "z"
          || str_leb "0" (lower c) && str_leb (lower c) "9"
          || lower c == "_")
        ≡ true
      → Plain (lower c)
  Plain-lower c h = elim (Bool-cases (has_char 10 (lower c))) [
    | inr plain ↦ plain
    | inl holds ↦ let e : false ≡ true = rw (lower-newline c holds) at h in absurd (cc e)
  ]

  Plain-char_token : (c : Char) → Plain (char_token lower c)
  unfolding char_token has_char
  Plain-char_token c = Plain-if _ (lower c) _ (Plain-lower c) (
      Plain-if (is_space (code c)) "_" (str_append "_u" (hex_code (code c))) (λ e. refl)
        (Plain-append "_u" (hex_code (code c)) refl (
          Plain-if (leb (code c) 65535) (hex 4 (code c)) _ (λ e. Plain-hex 4 (code c))
            (Plain-if (ltb (code c) 1048576) (hex 5 (code c)) (hex 6 (code c))
              (λ e. Plain-hex 5 (code c)) (Plain-hex 6 (code c))))))

  Plain-tokens : (s : String) → Plain (tokens lower s)
  unfolding tokens has_char
  Plain-tokens String.[] = refl
  Plain-tokens (String.◌∷◌ x s) =
      Plain-append (char_token lower x) (tokens lower s) (Plain-char_token x) (Plain-tokens s)

  Plain-normalize_base : (name : String) → Plain (normalize_base lower name)
  unfolding normalize_base has_char
  Plain-normalize_base name =
      let text = tokens lower (strip name) in
      let kept = lstrip_underscores (rstrip_underscores (collapse text)) in
      let candidate = if kept == "" then "v" else kept in
      let named = if starts_with_letter candidate then candidate else str_append "v_" candidate in
      let kept-Plain = Plain-lstrip_underscores (rstrip_underscores (collapse text)) (
        Plain-rstrip_underscores (collapse text)
          (Plain-collapse text (Plain-tokens (strip name)))) in
      let candidate-Plain = Plain-if (kept == "") "v" kept (λ e. refl) kept-Plain in
      let named-Plain =
        Plain-if (starts_with_letter candidate) candidate (str_append "v_" candidate)
          (λ e. candidate-Plain) (Plain-append "v_" candidate refl candidate-Plain) in
      Plain-if (strip name == "") "v" (str_take 32 named) (λ e. refl)
        (Plain-str_take 32 named named-Plain)

  length-normalize_base : (name : String) → str_length (normalize_base lower name) ≤ 32
  unfolding normalize_base str_length
  length-normalize_base name =
      let kept = lstrip_underscores (rstrip_underscores (collapse (tokens lower (strip name)))) in
      let candidate = if kept == "" then "v" else kept in
      let named = if starts_with_letter candidate then candidate else str_append "v_" candidate in
      short (strip name == "") named
    where
      short : (b : Bool) (s : String) → str_length (if b then "v" else str_take 32 s) ≤ 32
      short true s = omega arith
      short false s = str_length-str_take 32 s

  -- The base name fits, where the pattern accepts it.
  pub Fits-normalize_base :
      (name : String)
      → is_valid_stata_name (normalize_base lower name) ≡ true
      → Fits (normalize_base lower name)
  Fits-normalize_base name h =
      let shape = valid_name_chars (normalize_base lower name) (Plain-normalize_base name) h in
      (length-normalize_base name, shape.0, shape.1)
