-- ===== src/Columns/Tests.antt =====
-- Columns whose names collide, in two datasets.
use Prim.Native.Char.{Char, code}
use ss.Prelude.{
  ◌≤◌, ◌≡◌, refl, contains, String, true, false, List, [], ◌∷◌, some, arith, All, nat_eq,
  Bool-cases, inl, inr, if◌then◌else◌,
}
use ss.Prelude.Text.{has_char, str_length}
use text.Mathlib.TextEquality.{Char-path}
use ss.Prelude.Decimal.{decimal_from}
use ss.Columns.{
  normalize_base, apply_suffix, stata_safe_unique_names, is_valid_stata_name, Candidate,
  Normalization, build_draft_column_name_normalizations,
}
use ss.Columns.Bounds.{stata_safe_unique_names-Fits}
use ss.Columns.Datasets.{entries_of, candidates_of, Named, normalizations-Named}

-- "A" and "B" have small letters; other characters stay.
abbrev lower : Char → String
lower c =
    if nat_eq (code c) 65 then "a" else if nat_eq (code c) 66 then "b" else String.◌∷◌ c String.[]

lower-newline : (c : Char) → has_char 10 (lower c) ≡ true → lower c ≡ "\n"
unfolding has_char
lower-newline c h = elim (Bool-cases (nat_eq (code c) 65)) [
  | inl e ↦ let k : false ≡ true = rw e at h in cc k
  | inr e ↦ elim (Bool-cases (nat_eq (code c) 66)) [
    | inl f ↦ let k : false ≡ true = rw (e, f) at h in cc k
    | inr f ↦
        let k : has_char 10 (String.◌∷◌ c String.[]) ≡ true = rw (e, f) at h in
        let same : c ≡ "\n" = Char-path c "\n" (ground arith) in rw same refl
  ]
]

abbrev header : List String
header = "A b" ∷ "a_b" ∷ "2x" ∷ "a  b" ∷ "" ∷ []

abbrev items : List Candidate
items =
    record { dataset_key = "main"; role = "primary"; name = "A b" }
    ∷ record { dataset_key = "other"; role = "secondary"; name = "a_b" }
    ∷ record { dataset_key = "main"; role = "primary"; name = "a_b" }
    ∷ []

header_names :
    stata_safe_unique_names lower header ≡ some ("a_b" ∷ "a_b_2" ∷ "v_2x" ∷ "a_b_3" ∷ "v" ∷ [])
unfolding stata_safe_unique_names contains is_valid_stata_name normalize_base apply_suffix
    decimal_from
header_names = refl

stata_safe_unique_names-Fits_example :
    All
      (λ name. (str_length name ≤ 32) × (is_valid_stata_name name ≡ true))
      ("a_b" ∷ "a_b_2" ∷ "v_2x" ∷ "a_b_3" ∷ "v" ∷ [])
stata_safe_unique_names-Fits_example =
    stata_safe_unique_names-Fits lower lower-newline header
      ("a_b" ∷ "a_b_2" ∷ "v_2x" ∷ "a_b_3" ∷ "v" ∷ []) (omega arith) header_names

normalizations-Named_example :
    (ns : List Normalization) × (build_draft_column_name_normalizations lower items ≡ some ns)
    × ((key : String) → Named (entries_of key ns) (candidates_of key items))
normalizations-Named_example = normalizations-Named lower items
