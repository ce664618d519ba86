-- ===== src/Variables/Words.antt =====
-- The words of a text, which are its longest runs of token characters, and their replacement one by
-- one: an independent description of the substitution.
use Prim.Native.Char.{Char, code}
use text.Mathlib.TextLemmas.{cons-append, nil-append, append-nil, append_assoc}
use text.Mathlib.TextEquality.{Char-path}
use ss.Prelude.{
  ◌≡◌, refl, sym, subst, ◌∙◌, ap, inl, inr, String, str_append, Bool, true, false, ◌&&◌, arith,
  nat_eq, if◌then◌else◌, ◌==◌, eq_iff, Bool-cases,
}
use ss.Prelude.Text.{str_length, str_drop}
use ss.Variables.{is_token_char, starts_with, matches_at}

-- The word at the start of a text, and what follows it.
unfoldable pub word : String → String
word String.[] = ""
word (String.◌∷◌ x s) = let w = word s in if is_token_char (code x) then String.◌∷◌ x w else ""

unfoldable pub after_word : String → String
after_word String.[] = ""
after_word (String.◌∷◌ x s) =
    let r = after_word s in if is_token_char (code x) then r else String.◌∷◌ x s

unfoldable pub all_token : String → Bool
all_token String.[] = true
all_token (String.◌∷◌ x s) = is_token_char (code x) && all_token s

one_more :
    (run : String) (x : Char) (w : String)
    → str_append (str_append run (String.◌∷◌ x "")) w ≡ str_append run (String.◌∷◌ x w)
one_more run x w =
    append_assoc run (String.◌∷◌ x "") w
    ∙ ap (str_append run) (cons-append x "" w ∙ ap (String.◌∷◌ x) (nil-append w))

module _ (old new : String) where
  abbrev pub correct_word : String → String
  correct_word w = if w == old then new else w

  -- The text with each of its words corrected; `run` is the part of a word that was read.
  unfoldable pub replace_words : String → String → String
  replace_words run String.[] = correct_word run
  replace_words run (String.◌∷◌ x s) =
      let inside = replace_words (str_append run (String.◌∷◌ x "")) s in
      let outside = str_append (correct_word run) (String.◌∷◌ x (replace_words "" s)) in
      if is_token_char (code x) then inside else outside

  unfoldable pub replace_rest : String → String
  unfolding replace_words
  replace_rest String.[] = ""
  replace_rest (String.◌∷◌ x s) = String.◌∷◌ x (replace_words "" s)

  -- The replacement corrects the word that it stands in, and goes on after it.
  pub replace_words-word :
      (run s : String)
      → replace_words run s
        ≡ str_append (correct_word (str_append run (word s))) (replace_rest (after_word s))
  unfolding replace_words replace_rest word after_word
  replace_words-word run String.[] = rw (append-nil run, append-nil (correct_word run)) refl
  replace_words-word run (String.◌∷◌ x s) = elim (Bool-cases (is_token_char (code x))) [
    | inl inside ↦ rw inside (
        replace_words-word (str_append run (String.◌∷◌ x "")) s
        ∙ ap (λ r. str_append (correct_word r) (replace_rest (after_word s)))
            (one_more run x (word s)))
    | inr outside ↦ rw (outside, append-nil run) refl
  ]

-- The pattern matches at a word that is the variable's name, and only there.
word-old : (old s : String) → all_token old ≡ true → matches_at old s ≡ true → word s ≡ old
unfolding all_token starts_with str_length str_drop word
word-old String.[] String.[] a h = refl
word-old String.[] (String.◌∷◌ x s) a h =
    let out : is_token_char (code x) ≡ false = ground arith in rw out refl
word-old (String.◌∷◌ y old) String.[] a h = cc
word-old (String.◌∷◌ y old) (String.◌∷◌ x s) a h =
    let same : code y ≡ code x = ground arith in
    let c : y ≡ x = Char-path y x same in
    let inside : is_token_char (code x) ≡ true = rw (← same) (ground arith) in
    let rest = word-old old s (ground arith) (ground arith) in
    rw inside (ap (λ z. String.◌∷◌ z (word s)) (sym c) ∙ ap (String.◌∷◌ y) rest)

old-word : (s : String) → matches_at (word s) s ≡ true
unfolding starts_with str_length str_drop word
old-word String.[] = refl
old-word (String.◌∷◌ x s) = elim (Bool-cases (is_token_char (code x))) [
  | inl inside ↦
      let same : nat_eq (code x) (code x) ≡ true = ground arith in rw (inside, same) (old-word s)
  | inr outside ↦ rw (outside, outside) refl
]

-- The test is the test for the name.
pub matches_at-word : (old s : String) → all_token old ≡ true → matches_at old s ≡ (word s == old)
matches_at-word old s a = elim (Bool-cases (word s == old)) [
  | inl same ↦
      subst (λ o. matches_at o s ≡ true) ((eq_iff (word s) old).0 same) (old-word s) ∙ sym same
  | inr other ↦ elim (Bool-cases (matches_at old s)) [
    | inl yes_here ↦ let k = (eq_iff (word s) old).1 (word-old old s a yes_here) in cc k
    | inr no_match ↦ no_match ∙ sym other
  ]
]
