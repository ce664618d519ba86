-- ===== src/Variables.antt =====
-- src/domain/variable_corrections.py: names of variables that are replaced in the texts of a job.
mod Words
mod Exact
mod Tests
use Prim.Native.Char.{code}
use ss.Prelude.{
  ℕ, zero, suc, ◌-◌, String, str_append, Bool, true, false, not, ◌&&◌, ◌||◌, List, [], ◌∷◌, Option,
  none, some, nat_eq, leb, if◌then◌else◌, ◌==◌,
}
use ss.Prelude.Assoc.{Dict, get, put, keys}
use ss.Prelude.Text.{str_length, str_drop, strip}
use ss.Columns.{str_leb, and_then}

-- for old, new in raw.items()
unfoldable pub clean_from : Dict String → Dict String → Dict String
unfolding strip put
clean_from cleaned [] = cleaned
clean_from cleaned ((old, new) ∷ raw) =
    let o = strip old in
    let n = strip new in
    let skipped = clean_from cleaned raw in
    let stored = clean_from (put o n cleaned) raw in
    if o == "" || n == "" then skipped else if o == n then skipped else stored

abbrev pub clean_variable_corrections : Dict String → Dict String
clean_variable_corrections = clean_from []

-- `[A-Za-z0-9_]`
abbrev pub is_token_char : ℕ → Bool
is_token_char c =
    leb 65 c && leb c 90 || leb 97 c && leb c 122 || leb 48 c && leb c 57 || nat_eq c 95

-- text.startswith(old)
unfoldable pub starts_with : String → String → Bool
starts_with String.[] s = true
starts_with (String.◌∷◌ y old) String.[] = false
starts_with (String.◌∷◌ y old) (String.◌∷◌ x s) = nat_eq (code y) (code x) && starts_with old s

-- `(?=[A-Za-z0-9_])`
abbrev pub next_is_token : String → Bool
next_is_token String.[] = false
next_is_token (String.◌∷◌ x s) = is_token_char (code x)

-- The pattern matches here, if the character before is no token character.
abbrev pub matches_at : String → String → Bool
matches_at old s = starts_with old s && not (next_is_token (str_drop (str_length old) s))

module _ (old new : String) where
  -- `pattern.sub(new, text)` from a place on: whether a token character stands before it, and how
  -- many characters of a match are left to pass. An empty pattern matches between two characters.
  unfoldable pub sub_from : Bool → ℕ → String → String
  unfolding starts_with str_length str_drop
  sub_from before zero String.[] = if old == "" && not before then new else ""
  sub_from before (suc left) String.[] = ""
  sub_from before (suc left) (String.◌∷◌ x s) = sub_from (is_token_char (code x)) left s
  sub_from before zero (String.◌∷◌ x s) =
      let kept = String.◌∷◌ x (sub_from (is_token_char (code x)) zero s) in
      let passed = sub_from (is_token_char (code x)) (str_length old - 1) s in
      if not before && matches_at old (String.◌∷◌ x s)
      then if old == "" then str_append new kept else str_append new passed
      else kept

-- sorted(keys)
abbrev pub insert : String → List String → List String
insert k [] = k ∷ []
insert k (j ∷ js) = let rest = insert k js in if str_leb k j then k ∷ j ∷ js else j ∷ rest

abbrev pub sorted : List String → List String
sorted [] = []
sorted (k ∷ ks) = insert k (sorted ks)

-- `expand` is what `re` makes of a replacement, in which a backslash begins an escape: `none` where
-- it refuses it, which raises.
module _ (expand : String → Option String) where
  abbrev pub replace_token_boundary : String → String → String → Option String
  replace_token_boundary value old new =
      and_then (expand new) λ replacement. some (sub_from old replacement false 0 value)

  -- `out = _replace_token_boundary(out, old=old, new=corrections[old])`
  abbrev pub correct_one : Option String → String → String → Option String
  correct_one none old out = some out
  correct_one (some new) old out = replace_token_boundary out old new

  unfoldable pub correct_keys : Dict String → List String → String → Option String
  unfolding sub_from get
  correct_keys corrections [] out = some out
  correct_keys corrections (old ∷ olds) out =
      and_then (correct_one (get old corrections) old out) (correct_keys corrections olds)

  abbrev pub apply_variable_corrections_text : String → Dict String → Option String
  apply_variable_corrections_text value corrections =
      correct_keys corrections (sorted (keys corrections)) value

mutual
  -- A JSON value; `other` is a number, a Boolean or null.
  pub data Json (R : Type 0) : Type 0 where
    text : String → Json R
    array : Items R → Json R
    dict : Pairs R → Json R
    other : R → Json R

  pub data Items (R : Type 0) : Type 0 where
    no_item : Items R
    item : Json R → Items R → Items R

  pub data Pairs (R : Type 0) : Type 0 where
    no_pair : Pairs R
    pair : String → Json R → Pairs R → Pairs R

module _ {R : Type 0} (expand : String → Option String) (corrections : Dict String) where
  unfoldable mutual
    unfolding correct_keys keys

    pub apply_variable_corrections_json_value : Json R → Option (Json R)
    apply_variable_corrections_json_value (text s) =
        and_then (apply_variable_corrections_text expand s corrections) λ t. some (text t)
    apply_variable_corrections_json_value (array xs) =
        and_then (correct_items xs) λ ys. some (array ys)
    apply_variable_corrections_json_value (dict ps) =
        and_then (correct_pairs ps) λ qs. some (dict qs)
    apply_variable_corrections_json_value (other r) = some (other r)

    pub correct_items : Items R → Option (Items R)
    correct_items no_item = some no_item
    correct_items (item x xs) =
        and_then (apply_variable_corrections_json_value x)
          λ y. and_then (correct_items xs) λ ys. some (item y ys)

    pub correct_pairs : Pairs R → Option (Pairs R)
    correct_pairs no_pair = some no_pair
    correct_pairs (pair k x ps) =
        and_then (apply_variable_corrections_json_value x)
          λ y. and_then (correct_pairs ps) λ qs. some (pair k y qs)
