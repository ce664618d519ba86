-- ===== src/Service/Blocking.antt =====
-- src/domain/draft_confirm_blocking.py: what is still open in a draft when its job is confirmed. Of a
-- draft the model has the questions and the unknowns, with the fields that are read here.
pub mod Exact
pub mod Open
use ss.Prelude.{
  String, Bool, true, false, not, ◌||◌, List, [], ◌∷◌, Option, none, some, ◌==◌, if◌then◌else◌,
}
use ss.Prelude.Assoc.{get}
use ss.Prelude.Text.{is_blank}

-- The values of JSON. A number stands as its text: only that it is no text is read.
mutual
  pub data JsonValue : Type 0 where
    null : JsonValue
    boolean : Bool → JsonValue
    number text : String → JsonValue
    array : JsonValues → JsonValue
    object : JsonFields → JsonValue

  pub data JsonValues : Type 0 where
    no_more : JsonValues
    one_more : JsonValue → JsonValues → JsonValues

  pub data JsonFields : Type 0 where
    no_field : JsonFields
    member : String → JsonValue → JsonFields → JsonFields

pub record DraftStage1Question : Type 0 where
  pub question_id : String

pub record DraftOpenUnknown : Type 0 where
  pub field : String
  pub impact : String
  pub blocking : Option Bool

pub record Draft : Type 0 where
  pub stage1_questions : List DraftStage1Question
  pub open_unknowns : List DraftOpenUnknown

unfoldable mutual
  pub has_selected_answer : JsonValue → Bool
  has_selected_answer null = false
  has_selected_answer (text s) = not (is_blank s)
  has_selected_answer (array vs) = any_selected_answer vs
  has_selected_answer _ = true

  pub any_selected_answer : JsonValues → Bool
  any_selected_answer no_more = false
  any_selected_answer (one_more v vs) = has_selected_answer v || any_selected_answer vs

-- `_has_selected_answer(answers.get(question_id))`
abbrev pub answered : Option JsonValue → Bool
answered none = false
answered (some v) = has_selected_answer v

-- The loop of `_missing_stage1_answers`.
unfoldable pub missing_answers : List (String × JsonValue) → List DraftStage1Question → List String
missing_answers answers [] = []
missing_answers answers (question ∷ questions) =
    let rest = missing_answers answers questions in
    if is_blank question.question_id
    then rest
    else if answered (get question.question_id answers)
    then rest
    else question.question_id ∷ rest

abbrev pub is_blocking : DraftOpenUnknown → Bool
is_blocking item = elim item.blocking [
  | some true ↦ true
  | _ ↦ item.impact == "high" || item.impact == "critical"
]

-- The loop of `_blocking_unknown_fields`.
unfoldable pub blocking_fields : List DraftOpenUnknown → List String
blocking_fields [] = []
blocking_fields (item ∷ items) =
    let rest = blocking_fields items in
    if is_blank item.field then rest else if is_blocking item then item.field ∷ rest else rest

unfoldable pub confirm_blockers :
    Option Draft → List (String × JsonValue) → List String × List String
unfolding missing_answers blocking_fields
confirm_blockers none answers = ([], [])
confirm_blockers (some draft) answers =
    (missing_answers answers draft.stage1_questions, blocking_fields draft.open_unknowns)
