-- ===== src/Service/Blocking/Exact.antt =====
-- The loops of src/domain/draft_confirm_blocking.py as filters of the draft's questions and unknowns.
use ss.Prelude.{
  String, ◌≡◌, ◌↔◌, refl, ap, ◌∙◌, Bool, true, false, not, ◌||◌, List, [], ◌∷◌, some, ◌⊎◌, inl, inr,
  arith, In, if◌then◌else◌,
}
use ss.Prelude.Assoc.{get}
use ss.Prelude.Text.{is_blank}
use ss.Service.Blocking.{
  JsonValue, DraftStage1Question, DraftOpenUnknown, Draft, answered, missing_answers, is_blocking,
  blocking_fields, confirm_blockers,
}

if_In :
    {A : Type 0} (b : Bool) (a : A) (xs : List A) (x : A)
    → In x (if b then xs else a ∷ xs) ↔ (((b ≡ false) × (a ≡ x)) ⊎ In x xs)
if_In true a xs x = ground arith
if_In false a xs x = ground arith

module _ {A : Type 0} (skip : A → Bool) (name : A → String) where
  -- The names of the elements that are not skipped.
  unfoldable names : List A → List String
  names [] = []
  names (a ∷ all) = let rest = names all in if skip a then rest else name a ∷ rest

  names_exact :
      (all : List A) (x : String)
      → In x (names all) ↔ ((a : A) × In a all × (skip a ≡ false) × (name a ≡ x))
  unfolding names
  names_exact [] x = (λ m. absurd m, λ (a, m, _, _). m)
  names_exact (a ∷ all) x =
      let ih = names_exact all x in
      let here = if_In (skip a) (name a) (names all) x in
      (
        λ m. elim (here.0 m) [
          | inl (s, e) ↦ (a, inl refl, s, e)
          | inr old ↦ let (b, k, s, e) = ih.0 old in (b, inr k, s, e)
        ],
        λ (b, k, s, e). here.1 (elim k [
          | inl same ↦ inl (ap skip same ∙ s, ap name same ∙ e)
          | inr old ↦ inr (ih.1 (b, old, s, e))
        ]),
      )

abbrev pub skip_question : List (String × JsonValue) → DraftStage1Question → Bool
skip_question answers q = is_blank q.question_id || answered (get q.question_id answers)

abbrev pub skip_unknown : DraftOpenUnknown → Bool
skip_unknown u = is_blank u.field || not (is_blocking u)

missing_answers-names :
    (answers : List (String × JsonValue)) (qs : List DraftStage1Question)
    → missing_answers answers qs ≡ names (skip_question answers) (λ q. q.question_id) qs
unfolding missing_answers names
missing_answers-names answers [] = refl
missing_answers-names answers (q ∷ qs) = grind (arith, missing_answers-names answers qs)

blocking_fields-names :
    (us : List DraftOpenUnknown) → blocking_fields us ≡ names skip_unknown (λ u. u.field) us
unfolding blocking_fields names
blocking_fields-names [] = refl
blocking_fields-names (u ∷ us) =
    elim (is_blocking u)
      as (λ b.
        (if is_blank u.field
          then blocking_fields us
          else if b
          then u.field ∷ blocking_fields us
          else blocking_fields us)
        ≡ (if is_blank u.field || not b
            then names skip_unknown (λ v. v.field) us
            else u.field ∷ names skip_unknown (λ v. v.field) us)) [
              | true ↦ ground (arith, blocking_fields-names us)
              | false ↦ ground (arith, blocking_fields-names us)
            ]

-- The names are those of the elements that the loops do not skip.
pub confirm_blockers-skips :
    (draft : Draft) (answers : List (String × JsonValue)) (x : String)
    → (In x (confirm_blockers (some draft) answers).0 ↔ (
        (q : DraftStage1Question) × In q draft.stage1_questions
        × (skip_question answers q ≡ false)
        × (q.question_id ≡ x)))
      × (In x (confirm_blockers (some draft) answers).1 ↔ (
          (u : DraftOpenUnknown) × In u draft.open_unknowns
          × (skip_unknown u ≡ false)
          × (u.field ≡ x)))
unfolding confirm_blockers
confirm_blockers-skips draft answers x = (
  rw (missing_answers-names answers draft.stage1_questions)
      (names_exact (skip_question answers) (λ q. q.question_id) draft.stage1_questions x),
  rw (blocking_fields-names draft.open_unknowns)
      (names_exact skip_unknown (λ u. u.field) draft.open_unknowns x),
)
