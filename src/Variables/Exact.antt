-- ===== src/Variables/Exact.antt =====
-- The substitution of the source next to the replacement of words.
use Prim.Native.Char.{code}
use text.Mathlib.TextLemmas.{cons-append, nil-append}
use ss.Prelude.{
  Option, some, ℕ, zero, suc, ◌-◌, ◌≤◌, ◌≡◌, refl, sym, ◌∙◌, ap, inl, inr, String, str_append, true,
  false, arith, if◌then◌else◌, ◌==◌, eq_iff, Bool-cases,
}
use ss.Prelude.Text.{str_length, has_char}
use ss.Columns.{and_then}
use ss.Variables.{is_token_char, matches_at, sub_from, replace_token_boundary}
use ss.Variables.Words.{
  word, after_word, all_token, correct_word, replace_words, replace_rest, replace_words-word,
  matches_at-word,
}

from_start :
    (old new s : String)
    → replace_words old new "" s
      ≡ str_append (correct_word old new (word s)) (replace_rest old new (after_word s))
from_start old new s =
    replace_words-word old new "" s
    ∙ ap (λ w. str_append (correct_word old new w) (replace_rest old new (after_word s)))
        (nil-append (word s))

module _ (old new : String) (named : (old == "") ≡ false) (token : all_token old ≡ true) where
  unfoldable sub_rest : String → String
  unfolding sub_from
  sub_rest String.[] = ""
  sub_rest (String.◌∷◌ x s) = String.◌∷◌ x (sub_from old new false 0 s)

  -- Within a word nothing matches.
  sub_from-inside :
      (s : String) → sub_from old new true 0 s ≡ str_append (word s) (sub_rest (after_word s))
  unfolding sub_from sub_rest word after_word
  sub_from-inside String.[] = rw (named, nil-append "") refl
  sub_from-inside (String.◌∷◌ x s) = elim (Bool-cases (is_token_char (code x))) [
    | inl inside ↦
        rw (inside, cons-append x (word s) (sub_rest (after_word s)))
          (ap (String.◌∷◌ x) (sub_from-inside s))
    | inr outside ↦ rw (outside, nil-append (String.◌∷◌ x (sub_from old new false 0 s))) refl
  ]

  -- A word that matched is passed.
  sub_from-passed :
      (k : ℕ) (s : String)
      → str_length (word s) ≡ k
      → sub_from old new true k s ≡ sub_rest (after_word s)
  unfolding sub_from sub_rest word after_word str_length
  sub_from-passed zero String.[] e = rw named refl
  sub_from-passed zero (String.◌∷◌ x s) e = elim (Bool-cases (is_token_char (code x))) [
    | inl inside ↦ let n : suc (str_length (word s)) ≡ 0 = rw inside at e in absurd (omega arith)
    | inr outside ↦ rw outside refl
  ]
  sub_from-passed (suc k) String.[] e = refl
  sub_from-passed (suc k) (String.◌∷◌ x s) e = elim (Bool-cases (is_token_char (code x))) [
    | inl inside ↦
        let n : suc (str_length (word s)) ≡ suc k = rw inside at e in
        ap (λ b. sub_from old new b k s) inside
        ∙ sub_from-passed k s (omega arith)
        ∙ sym (ap (λ b. sub_rest (if b then after_word s else String.◌∷◌ x s)) inside)
    | inr outside ↦ let n : 0 ≡ suc k = rw outside at e in absurd (omega arith)
  ]

  not_empty : ("" == old) ≡ false
  not_empty = elim (Bool-cases ("" == old)) [
    | inl same ↦ let k = (eq_iff old "").1 (sym ((eq_iff "" old).0 same)) in cc (k, named)
    | inr other ↦ other
  ]

  sub_from-word :
      (s : String)
      → sub_from old new false 0 s
        ≡ str_append (correct_word old new (word s)) (sub_rest (after_word s))
  unfolding sub_from sub_rest word after_word str_length
  sub_from-word String.[] = rw (named, not_empty, nil-append "") refl
  sub_from-word (String.◌∷◌ x s) = elim (Bool-cases (is_token_char (code x))) [
    | inl inside ↦ elim (Bool-cases (String.◌∷◌ x (word s) == old)) [
      | inl same ↦
          let here : matches_at old (String.◌∷◌ x s) ≡ true =
            matches_at-word old (String.◌∷◌ x s) token
            ∙ ap (λ b. (if b then String.◌∷◌ x (word s) else "") == old) inside
            ∙ same in
          let long : suc (str_length (word s)) ≡ str_length old =
            ap str_length ((eq_iff (String.◌∷◌ x (word s)) old).0 same) in
          rw (here, named, inside, same)
            (ap (str_append new) (sub_from-passed (str_length old - 1) s (omega arith)))
      | inr other ↦
          let not_here : matches_at old (String.◌∷◌ x s) ≡ false =
            matches_at-word old (String.◌∷◌ x s) token
            ∙ ap (λ b. (if b then String.◌∷◌ x (word s) else "") == old) inside
            ∙ other in
          rw (not_here, inside, other, cons-append x (word s) (sub_rest (after_word s)))
            (ap (String.◌∷◌ x) (sub_from-inside s))
    ]
    | inr outside ↦
        let not_here : matches_at old (String.◌∷◌ x s) ≡ false =
          matches_at-word old (String.◌∷◌ x s) token
          ∙ ap (λ b. (if b then String.◌∷◌ x (word s) else "") == old) outside
          ∙ not_empty in
        rw (not_here, outside, not_empty, nil-append (String.◌∷◌ x (sub_from old new false 0 s)))
          refl
  ]

  length-after_word : (s : String) → str_length (after_word s) ≤ str_length s
  unfolding after_word str_length
  length-after_word String.[] = omega arith
  length-after_word (String.◌∷◌ x s) = ground (arith, length-after_word s)

  -- Both go on in the same way after a word.
  same_rest : (n : ℕ) (t : String) → str_length t ≤ n → sub_rest t ≡ replace_rest old new t
  unfolding sub_rest replace_rest str_length
  same_rest n String.[] le = refl
  same_rest zero (String.◌∷◌ x t) le = absurd (omega arith)
  same_rest (suc n) (String.◌∷◌ x t) le = ap (String.◌∷◌ x) (
      sub_from-word t
      ∙ ap (str_append (correct_word old new (word t)))
          (same_rest n (after_word t) (omega (arith, length-after_word t)))
      ∙ sym (from_start old new t))

  sub_from-replace_words :
      (value : String) → sub_from old new false 0 value ≡ replace_words old new "" value
  sub_from-replace_words value =
      sub_from-word value
      ∙ ap (str_append (correct_word old new (word value)))
          (same_rest (str_length (after_word value)) (after_word value) (omega arith))
      ∙ sym (from_start old new value)

  -- Where the name that is replaced is not empty and is made of token characters, and a
  -- replacement without a backslash stands for itself and this one has none, the substitution
  -- replaces exactly the words, the longest runs of token characters, that are this name, and
  -- leaves the rest of the text.
  pub replace_token_boundary-words :
      (expand : String → Option String) (value : String)
      → ((s : String) → has_char 92 s ≡ false → expand s ≡ some s)
      → has_char 92 new ≡ false
      → replace_token_boundary expand value old new ≡ some (replace_words old new "" value)
  replace_token_boundary-words expand value expand-plain plain =
      ap (λ o. and_then o λ t. some (sub_from old t false 0 value)) (expand-plain new plain)
      ∙ ap some (sub_from-replace_words value)
