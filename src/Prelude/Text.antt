-- ===== src/Prelude/Text.antt =====
-- Text as the source walks it: the characters that it holds, its ends, slices and white space.
use Prim.Native.Char.{Char, code}
use Prim.Native.Nat.{ℕ, zero, suc}
use Prim.Native.String.{String}
use mathlib.Core.Bool.{Bool, true, false, ◌||◌, ◌&&◌}
use mathlib.Core.List.{List, [], ◌∷◌}
use ss.Prelude.Tests.{nat_eq, leb, if◌then◌else◌}

-- `c in text`, for one character given by its code point.
unfoldable pub has_char : ℕ → String → Bool
has_char c String.[] = false
has_char c (String.◌∷◌ x s) = nat_eq (code x) c || has_char c s

-- `text.startswith(c)`, for one character.
unfoldable pub starts_with_char : ℕ → String → Bool
starts_with_char c String.[] = false
starts_with_char c (String.◌∷◌ x s) = nat_eq (code x) c

-- `len(text)`, `text[:n]` and `text[n:]`.
unfoldable pub str_length : String → ℕ
str_length String.[] = 0
str_length (String.◌∷◌ x s) = suc (str_length s)

unfoldable pub str_take : ℕ → String → String
str_take zero s = String.[]
str_take (suc n) String.[] = String.[]
str_take (suc n) (String.◌∷◌ x s) = String.◌∷◌ x (str_take n s)

unfoldable pub str_drop : ℕ → String → String
str_drop zero s = s
str_drop (suc n) String.[] = String.[]
str_drop (suc n) (String.◌∷◌ x s) = str_drop n s

-- `str.isspace` of one character.
unfoldable pub is_space : ℕ → Bool
is_space c =
    leb 9 c && leb c 13
    || leb 28 c && leb c 32
    || nat_eq c 133
    || nat_eq c 160
    || nat_eq c 5760
    || leb 8192 c && leb c 8202
    || nat_eq c 8232
    || nat_eq c 8233
    || nat_eq c 8239
    || nat_eq c 8287
    || nat_eq c 12288

-- `text.strip() == ""`
unfoldable pub is_blank : String → Bool
unfolding is_space
is_blank String.[] = true
is_blank (String.◌∷◌ x s) = is_space (code x) && is_blank s

-- `text.lstrip()`, `text.rstrip()` and `text.strip()`.
unfoldable pub lstrip : String → String
unfolding is_space
lstrip String.[] = String.[]
lstrip (String.◌∷◌ x s) = let rest = lstrip s in if is_space (code x) then rest else String.◌∷◌ x s

unfoldable pub rstrip : String → String
unfolding is_space is_blank
rstrip String.[] = String.[]
rstrip (String.◌∷◌ x s) =
    let rest = rstrip s in if is_blank (String.◌∷◌ x s) then String.[] else String.◌∷◌ x rest

unfoldable pub strip : String → String
unfolding lstrip rstrip
strip s = lstrip (rstrip s)

abbrev pub add_to_first : Char → List String → List String
add_to_first x [] = String.◌∷◌ x String.[] ∷ []
add_to_first x (p ∷ ps) = String.◌∷◌ x p ∷ ps

-- `text.split(c)`, for one character.
unfoldable pub split : ℕ → String → List String
split c String.[] = String.[] ∷ []
split c (String.◌∷◌ x s) =
    let rest = split c s in if nat_eq (code x) c then String.[] ∷ rest else add_to_first x rest
