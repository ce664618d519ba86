-- ===== src/Service/Blocking/Open.antt =====
-- What src/domain/draft_confirm_blocking.py calls an answer and a blocking unknown, said without its
-- code, and what it then finds open in a draft.
use ss.Prelude.{
  String, Bool, ◌≡◌, ◌↔◌, refl, true, false, List, Option, none, some, In, inl, inr, Bool-cases,
  arith, ◌==◌, eq_iff,
}
use ss.Prelude.Assoc.{get}
use ss.Prelude.Text.{is_blank}
use ss.Service.Blocking.{
  JsonValue, null, boolean, number, text, array, object, JsonValues, no_more, one_more, JsonFields,
  DraftStage1Question, DraftOpenUnknown, Draft, has_selected_answer, any_selected_answer,
  is_blocking, confirm_blockers,
}
use ss.Service.Blocking.Exact.{skip_question, skip_unknown, confirm_blockers-skips}

pub data Within : JsonValue → JsonValues → Type 0 where
  first : (v : JsonValue) (vs : JsonValues) → Within v (one_more v vs)
  later : (v w : JsonValue) (vs : JsonValues) → Within v vs → Within v (one_more w vs)

-- A text that is not blank, any boolean, number or object, and an array that holds an answer.
pub data Answer : JsonValue → Type 0 where
  said : (s : String) → is_blank s ≡ false → Answer (text s)
  ticked : (b : Bool) → Answer (boolean b)
  counted : (n : String) → Answer (number n)
  with_fields : (fs : JsonFields) → Answer (object fs)
  holds : (v : JsonValue) (vs : JsonValues) → Within v vs → Answer v → Answer (array vs)

-- The answers hold one for the question.
abbrev pub Given : List (String × JsonValue) → String → Type 0
Given answers id = (v : JsonValue) × (get id answers ≡ some v) × Answer v

pub data Blocks (u : DraftOpenUnknown) : Type 0 where
  flagged : u.blocking ≡ some true → Blocks u
  high : u.impact ≡ "high" → Blocks u
  critical : u.impact ≡ "critical" → Blocks u

within_any :
    (v : JsonValue) (vs : JsonValues)
    → Within v vs
    → has_selected_answer v ≡ true
    → any_selected_answer vs ≡ true
unfolding any_selected_answer
within_any v no_more m h = elim m [ ]
within_any v (one_more _ vs) (first _ _) h = ground arith
within_any v (one_more w vs) (later _ _ _ m) h = let ih = within_any v vs m h in ground (arith, ih)

answer_selects : (v : JsonValue) → Answer v → has_selected_answer v ≡ true
unfolding has_selected_answer
answer_selects null a = elim a [ ]
answer_selects (text s) (said _ full) = ground arith
answer_selects (boolean b) (ticked _) = refl
answer_selects (number n) (counted _) = refl
answer_selects (object fs) (with_fields _) = refl
answer_selects (array vs) (holds v _ m a) = within_any v vs m (answer_selects v a)

mutual
  unfolding has_selected_answer any_selected_answer

  select_answers : (v : JsonValue) → has_selected_answer v ≡ true → Answer v
  select_answers null h = absurd (ground arith)
  select_answers (boolean b) h = ticked b
  select_answers (number n) h = counted n
  select_answers (text s) h = said s (ground arith)
  select_answers (array vs) h = let (v, m, a) = select_within vs h in holds v vs m a
  select_answers (object fs) h = with_fields fs

  select_within :
      (vs : JsonValues) → any_selected_answer vs ≡ true → (v : JsonValue) × Within v vs × Answer v
  select_within no_more h = absurd (ground arith)
  select_within (one_more v vs) h = elim (Bool-cases (has_selected_answer v)) [
    | inl selected ↦ (v, first v vs, select_answers v selected)
    | inr open_still ↦ let (w, m, a) = select_within vs (ground arith) in (w, later w v vs m, a)
  ]

skips_answered :
    (answers : List (String × JsonValue)) (q : DraftStage1Question)
    → (skip_question answers q ≡ false)
      ↔ ((is_blank q.question_id ≡ false) × ¬ (Given answers q.question_id))
skips_answered answers q = go (get q.question_id answers) refl
  where
    go :
        (o : Option JsonValue)
        → get q.question_id answers ≡ o
        → (skip_question answers q ≡ false)
          ↔ ((is_blank q.question_id ≡ false) × ¬ (Given answers q.question_id))
    go none e = (λ h. (ground arith, λ (v, f, a). ground arith), λ (full, _). ground arith)
    go (some v) e = (
      λ h. (ground arith, λ (w, f, a). let selected = answer_selects w a in ground arith),
      λ (full, missing). elim (Bool-cases (has_selected_answer v)) [
        | inl selected ↦ absurd (missing (v, e, select_answers v selected))
        | inr open_still ↦ ground arith
      ],
    )

blocks : (u : DraftOpenUnknown) → is_blocking u ≡ true → Blocks u
blocks u h = elim (Bool-cases (u.impact == "high")) [
  | inl a ↦ high ((eq_iff u.impact "high").0 a)
  | inr a ↦ elim (Bool-cases (u.impact == "critical")) [
    | inl b ↦ critical ((eq_iff u.impact "critical").0 b)
    | inr b ↦ flagged (ground arith)
  ]
]

Blocks-is_blocking : (u : DraftOpenUnknown) → Blocks u → is_blocking u ≡ true
Blocks-is_blocking u (flagged h) = ground arith
Blocks-is_blocking u (high h) = let same = (eq_iff u.impact "high").1 h in ground arith
Blocks-is_blocking u (critical h) = let same = (eq_iff u.impact "critical").1 h in ground arith

skips_blocking :
    (u : DraftOpenUnknown) → (skip_unknown u ≡ false) ↔ ((is_blank u.field ≡ false) × Blocks u)
skips_blocking u = (
  λ h. (ground arith, blocks u (ground arith)),
  λ (full, b). let blocked = Blocks-is_blocking u b in ground arith,
)

-- Confirm_blockers names a text among the questions exactly if it is not blank, is the id of a
-- question of the draft, and the answers hold no answer for it: no text that is not blank, no
-- boolean, number or object, and no array that holds such a value at any depth of arrays; and
-- among the fields exactly if it is not blank and is the field of an unknown of the draft that is
-- marked as blocking or has the impact high or critical.
pub confirm_blockers_exact :
    (draft : Draft) (answers : List (String × JsonValue)) (x : String)
    → (In x (confirm_blockers (some draft) answers).0 ↔ (
        (q : DraftStage1Question) × In q draft.stage1_questions
        × (q.question_id ≡ x)
        × (is_blank x ≡ false)
        × ¬ (Given answers x)))
      × (In x (confirm_blockers (some draft) answers).1 ↔ (
          (u : DraftOpenUnknown) × In u draft.open_unknowns
          × (u.field ≡ x)
          × (is_blank x ≡ false)
          × Blocks u))
confirm_blockers_exact draft answers x =
    let (asked, open_) = confirm_blockers-skips draft answers x in
    (
      (
        λ m.
            let (q, k, s, e) = asked.0 m in
            let (full, missing) = (skips_answered answers q).0 s in
            (q, k, e, rw e at full, rw e at missing),
        λ (q, k, e, full, missing).
            asked.1 (q, k, (skips_answered answers q).1 (rw e full, rw e missing), e),
      ),
      (
        λ m.
            let (u, k, s, e) = open_.0 m in
            let (full, b) = (skips_blocking u).0 s in (u, k, e, rw e at full, b),
        λ (u, k, e, full, b). open_.1 (u, k, (skips_blocking u).1 (rw e full, b), e),
      ),
    )
