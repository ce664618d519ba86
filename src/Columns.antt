-- ===== src/Columns.antt =====
-- src/domain/column_normalizer.py: names for the columns of a dataset that Stata accepts. `lower` is
-- `str.lower` of one character.
mod Candidates
mod Unique
mod Shape
mod Plain
mod Bounds
mod Datasets
mod Tests
use Prim.Native.Char.{Char, code}
use Prim.Native.Nat.{min, Ordering}
use Prim.Native.String.{compare}
use ss.Prelude.{
  ℕ, zero, suc, ◌+◌, ◌-◌, ◌*◌, ◌/◌, ◌%◌, String, str_append, Bool, true, false, ◌&&◌, ◌||◌, List,
  [], ◌∷◌, ◌++◌, map, Option, none, some, nat_eq, leb, ltb, length, contains, if◌then◌else◌, ◌==◌,
}
use ss.Prelude.Assoc.{Dict, get, put}
use ss.Prelude.Decimal.{digit, decimal}
use ss.Prelude.Sets.{add}
use ss.Prelude.Text.{str_length, str_take, is_space, strip, starts_with_char}

-- a <= b
abbrev pub str_leb : String → String → Bool
str_leb a b = elim (compare a b) [ Ordering.gt ↦ false | _ ↦ true ]

abbrev pub hex_letter : ℕ → Char
hex_letter zero = "a"
hex_letter (suc zero) = "b"
hex_letter (suc (suc zero)) = "c"
hex_letter (suc (suc (suc zero))) = "d"
hex_letter (suc (suc (suc (suc zero)))) = "e"
hex_letter _ = "f"

abbrev pub hex_digit : ℕ → Char
hex_digit n = if ltb n 10 then digit n else hex_letter (n - 10)

-- The last `width` digits of `f"{n:x}"`, with zeros in front.
abbrev pub hex : ℕ → ℕ → String
hex zero n = String.[]
hex (suc width) n = str_append (hex width (n / 16)) (String.◌∷◌ (hex_digit (n % 16)) String.[])

-- A code point above 0xFFFF has five digits, or six from 0x100000 on.
abbrev pub hex_code : ℕ → String
hex_code c = if leb c 65535 then hex 4 c else if ltb c 1048576 then hex 5 c else hex 6 c

-- re.sub(r"_+", "_", text)
unfoldable pub collapse : String → String
unfolding starts_with_char
collapse String.[] = String.[]
collapse (String.◌∷◌ x s) =
    let rest = collapse s in
    if nat_eq (code x) 95 && starts_with_char 95 s then rest else String.◌∷◌ x rest

-- text.lstrip("_") and text.rstrip("_")
unfoldable pub lstrip_underscores : String → String
lstrip_underscores String.[] = String.[]
lstrip_underscores (String.◌∷◌ x s) =
    let rest = lstrip_underscores s in if nat_eq (code x) 95 then rest else String.◌∷◌ x s

unfoldable pub rstrip_underscores : String → String
rstrip_underscores String.[] = String.[]
rstrip_underscores (String.◌∷◌ x s) =
    let rest = rstrip_underscores s in
    if rest == "" && nat_eq (code x) 95 then String.[] else String.◌∷◌ x rest

abbrev pub is_letter : ℕ → Bool
is_letter c = leb 97 c && leb c 122

-- `candidate[0]` lies between "a" and "z".
abbrev pub starts_with_letter : String → Bool
starts_with_letter String.[] = false
starts_with_letter (String.◌∷◌ x s) = is_letter (code x)

-- `^[a-z][a-z0-9_]*$`: the "$" also stands before a last newline.
unfoldable pub valid_rest : String → Bool
valid_rest String.[] = true
valid_rest (String.◌∷◌ x s) =
    let c = code x in
    (is_letter c || leb 48 c && leb c 57 || nat_eq c 95) && valid_rest s || nat_eq c 10 && s == ""

unfoldable pub is_valid_stata_name : String → Bool
unfolding valid_rest
is_valid_stata_name String.[] = false
is_valid_stata_name (String.◌∷◌ x s) = is_letter (code x) && valid_rest s

-- `_STATA_NAME_MAX_LEN`
abbrev pub stata_name_max_len : ℕ
stata_name_max_len = 32

module _ (lower : Char → String) where
  unfoldable pub char_token : Char → String
  unfolding is_space
  char_token ch =
      let low = lower ch in
      if str_leb "a" low && str_leb low "z" || str_leb "0" low && str_leb low "9" || low == "_"
      then low
      else if is_space (code ch)
      then "_"
      else str_append "_u" (hex_code (code ch))

  unfoldable pub tokens : String → String
  unfolding char_token
  tokens String.[] = String.[]
  tokens (String.◌∷◌ x s) = str_append (char_token x) (tokens s)

  unfoldable pub normalize_base : String → String
  unfolding strip tokens collapse lstrip_underscores rstrip_underscores str_take
  normalize_base name =
      let raw = strip name in
      if raw == ""
      then "v"
      else let kept = lstrip_underscores (rstrip_underscores (collapse (tokens raw))) in
        let candidate = if kept == "" then "v" else kept in
        let candidate =
          if starts_with_letter candidate then candidate else str_append "v_" candidate in
        str_take stata_name_max_len candidate

-- The slice's bound is negative for a suffix longer than the limit: it then counts from the end.
unfoldable pub apply_suffix : String → String → String
unfolding str_length str_take
apply_suffix base suffix =
    if leb (str_length base + str_length suffix) stata_name_max_len
    then str_append base suffix
    else if leb (str_length suffix) stata_name_max_len
    then str_append (str_take (stata_name_max_len - str_length suffix) base) suffix
    else str_append (str_take (str_length base - (str_length suffix - stata_name_max_len)) base)
        suffix

abbrev pub with_count : String → ℕ → String
with_count base count = apply_suffix base (String.◌∷◌ "_" (decimal count))

-- The loop `while candidate in used`, on fuel: the candidate and the count it ends with.
unfoldable pub next_free : ℕ → String → List String → String → ℕ → Option (String × ℕ)
next_free zero base used candidate count = none
next_free (suc fuel) base used candidate count =
    let rest = next_free fuel base used (with_count base (suc count)) (suc count) in
    if contains candidate used then rest else some (candidate, count)

pub record Naming : Type 0 where
  pub out : List String
  pub used : List String
  pub counts : Dict ℕ

-- A step and what follows it, which is not reached when the fuel of a loop is spent.
abbrev pub and_then {ℓ κ} : {A : Type ℓ} {B : Type κ} → Option A → (A → Option B) → Option B
and_then none f = none
and_then (some a) f = f a

-- `counts.get(base, 0)`
abbrev pub count_of : String → Dict ℕ → ℕ
count_of base counts = elim (get base counts) [ none ↦ 0 | some n ↦ n ]

module _ (lower : Char → String) where
  abbrev pub base_name : ℕ → String → String
  base_name idx original =
      let base = normalize_base lower original in
      if is_valid_stata_name base then base else str_append "v_" (decimal idx)

  module _ (idx : ℕ) (original : String) (state : Naming) where
    abbrev pub first_count : ℕ
    first_count = suc (count_of (base_name idx original) state.counts)

    abbrev pub first_candidate : String
    first_candidate =
        if nat_eq first_count 1
        then base_name idx original
        else with_count (base_name idx original) first_count

    abbrev pub named : String × ℕ → Naming
    named (name, last) = record {
      out = state.out ++ name ∷ [];
      used = add name state.used;
      counts = put (base_name idx original) last state.counts;
    }

    abbrev pub chosen : Option (String × ℕ)
    chosen =
        next_free (suc (suc (length state.used))) (base_name idx original) state.used
          first_candidate first_count

    -- The body of the loop over the names.
    unfoldable pub name_one : Option Naming
    unfolding next_free get put add
    name_one = and_then chosen (λ c. some (named c))

  unfoldable pub names_from : ℕ → List String → Naming → Option Naming
  unfolding name_one
  names_from idx [] state = some state
  names_from idx (original ∷ originals) state =
      and_then (name_one idx original state) (names_from (suc idx) originals)

  unfoldable pub stata_safe_unique_names : List String → Option (List String)
  unfolding names_from
  stata_safe_unique_names originals =
      and_then (names_from 1 originals (record { out = []; used = []; counts = [] }))
        (λ state. some state.out)

-- `DraftColumnCandidateV2`
pub record Candidate : Type 0 where
  pub dataset_key : String
  pub role : String
  pub name : String

pub record Normalization : Type 0 where
  pub dataset_key : String
  pub role : String
  pub original_name : String
  pub normalized_name : String

abbrev pub items_of : Option (List Candidate) → List Candidate
items_of none = []
items_of (some items) = items

abbrev pub members : String → Dict (List Candidate) → List Candidate
members key groups = items_of (get key groups)

-- per_dataset.setdefault(item.dataset_key, []).append(item)
unfoldable pub group : Dict (List Candidate) → List Candidate → Dict (List Candidate)
unfolding get put
group groups [] = groups
group groups (item ∷ items) =
    let key = item.dataset_key in group (put key (members key groups ++ item ∷ []) groups) items

-- The body of the loop over `zip(items, normalized, strict=True)`, which raises on unequal lengths.
unfoldable pub normalizations : String → List Candidate → List String → Option (List Normalization)
normalizations dataset_key [] [] = some []
normalizations dataset_key [] (n ∷ names) = none
normalizations dataset_key (item ∷ items) [] = none
normalizations dataset_key (item ∷ items) (n ∷ names) =
    and_then (normalizations dataset_key items names) (λ rest. some (
      record {
        dataset_key = dataset_key;
        role = item.role;
        original_name = item.name;
        normalized_name = n;
      }
      ∷ rest))

module _ (lower : Char → String) where
  unfoldable pub of_dataset : String → List Candidate → Option (List Normalization)
  unfolding stata_safe_unique_names normalizations
  of_dataset dataset_key items =
      and_then (stata_safe_unique_names lower (map (λ item. item.name) items))
        (normalizations dataset_key items)

  unfoldable pub of_datasets : Dict (List Candidate) → Option (List Normalization)
  unfolding of_dataset
  of_datasets [] = some []
  of_datasets ((dataset_key, items) ∷ groups) =
      and_then (of_dataset dataset_key items)
        (λ ns. and_then (of_datasets groups) (λ rest. some (ns ++ rest)))

  unfoldable pub build_draft_column_name_normalizations :
      List Candidate → Option (List Normalization)
  unfolding of_datasets group
  build_draft_column_name_normalizations candidates_v2 = of_datasets (group [] candidates_v2)
