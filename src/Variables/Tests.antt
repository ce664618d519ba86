-- ===== src/Variables/Tests.antt =====
-- Corrections of a do-file's words.
use ss.Prelude.{false, Option, none, some, if◌then◌else◌, ◌≡◌, refl, String, [], ◌∷◌}
use ss.Prelude.Assoc.{keys}
use ss.Prelude.Text.{has_char}
use ss.Variables.{
  sub_from, clean_from, correct_keys, clean_variable_corrections, replace_token_boundary,
  apply_variable_corrections_text,
}
use ss.Variables.Words.{replace_words, all_token}
use ss.Variables.Exact.{replace_token_boundary-words}

-- A replacement with a backslash is left out.
abbrev expand : String → Option String
expand s = if has_char 92 s then none else some s

expand-plain : (s : String) → has_char 92 s ≡ false → expand s ≡ some s
expand-plain s h = rw h refl

abbrev line : String
line = "regress y x1, cluster(x) if x>0"

only_words :
    replace_token_boundary expand line "x" "x_2" ≡ some "regress y x1, cluster(x_2) if x_2>0"
unfolding sub_from has_char
only_words = refl

replace_token_boundary-words_example :
    replace_token_boundary expand line "x" "x_2" ≡ some (replace_words "x" "x_2" "" line)
unfolding all_token has_char
replace_token_boundary-words_example =
    replace_token_boundary-words "x" "x_2" refl refl expand line expand-plain refl

cleaned : clean_variable_corrections ((" a ", "b") ∷ ("c", "c ") ∷ ("", "d") ∷ []) ≡ ("a", "b") ∷ []
unfolding clean_from
cleaned = refl

-- Two names that are to change places become one.
swapped : apply_variable_corrections_text expand "a b" (("a", "b") ∷ ("b", "a") ∷ []) ≡ some "a a"
unfolding correct_keys keys has_char
swapped = refl
