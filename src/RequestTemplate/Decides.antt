-- ===== src/RequestTemplate/Decides.antt =====
-- The validator reports no error exactly for the valid submissions.
use patrice.Prelude.{
  ℕ, ◌≡◌, ◌≢◌, sym, ◌∙◌, ◌↔◌, refl, inl, inr, Bool, true, false, Option, none, some, List, [], ◌∷◌,
  arith, All, Bool-cases,
}
use patrice.RequestTemplate.Data.{
  QuestionType, Question, Answer, AttachmentMeta, attachment, required_missing,
}
use patrice.RequestTemplate.{
  value_empty, by_question, known, report, answer_errors, attachment_errors, unknown_errors,
  question_codes, attachment_codes, each_question, validate_submission,
}
use patrice.RequestTemplate.Valid.{Fits, Met, IsValid}
use patrice.RequestTemplate.Parts.{
  append-eq-nil, report_iff, text_errors_iff, choice_errors_iff, unknown_errors_iff,
  each_question_iff, attachment_errors_iff, number_errors_iff,
}

module _ {Number : Type 0} (is_finite is_integer : Number → Bool) (less : Number → Number → Bool)
    (lookup : ℕ → Option AttachmentMeta) where
  attachment_codes-other :
      (q : Question Number) (a : Answer Number)
      → q.type ≢ attachment
      → attachment_codes lookup q (some a) ≡ []
  unfolding attachment_codes
  attachment_codes-other q a other = ground arith

  attachment_codes-files :
      (q : Question Number) (a : Answer Number)
      → q.type ≡ attachment
      → value_empty q.type a ≡ false
      → attachment_codes lookup q (some a) ≡ attachment_errors lookup q.constraints a
  unfolding attachment_codes
  attachment_codes-files q a file full = ground arith

  answer_codes_iff :
      (ty : QuestionType) (q : Question Number) (a : Answer Number)
      → q.type ≡ ty
      → value_empty q.type a ≡ false
      → ((answer_errors is_finite is_integer less ty q.constraints a ≡ [])
          × (attachment_codes lookup q (some a) ≡ []))
        ↔ Fits is_finite is_integer less lookup ty q.constraints a
  unfolding answer_errors
  answer_codes_iff QuestionType.numeric q a e full = (
    λ (x, y). (number_errors_iff is_finite is_integer less q.constraints a.number).0 x,
    λ x. (
      (number_errors_iff is_finite is_integer less q.constraints a.number).1 x,
      attachment_codes-other q a (ground arith),
    ),
  )
  answer_codes_iff QuestionType.dropdown q a e full = (
    λ (x, y). (choice_errors_iff q.constraints a.selected).0 x,
    λ x. (
      (choice_errors_iff q.constraints a.selected).1 x,
      attachment_codes-other q a (ground arith),
    ),
  )
  answer_codes_iff QuestionType.radio q a e full = (
    λ (x, y). (choice_errors_iff q.constraints a.selected).0 x,
    λ x. (
      (choice_errors_iff q.constraints a.selected).1 x,
      attachment_codes-other q a (ground arith),
    ),
  )
  answer_codes_iff QuestionType.attachment q a e full = (
    λ (x, y).
        (attachment_errors_iff lookup q.constraints a).0
          (sym (attachment_codes-files q a e full) ∙ y),
    λ x. (
      refl,
      attachment_codes-files q a e full ∙ (attachment_errors_iff lookup q.constraints a).1 x,
    ),
  )
  answer_codes_iff QuestionType.detail_text q a e full = (
    λ (x, y). (text_errors_iff q.constraints a.text).0 x,
    λ x. ((text_errors_iff q.constraints a.text).1 x, attachment_codes-other q a (ground arith)),
  )
  answer_codes_iff QuestionType.multiline q a e full = (
    λ (x, y). (text_errors_iff q.constraints a.text).0 x,
    λ x. ((text_errors_iff q.constraints a.text).1 x, attachment_codes-other q a (ground arith)),
  )
  answer_codes_iff QuestionType.text q a e full = (
    λ (x, y). (text_errors_iff q.constraints a.text).0 x,
    λ x. ((text_errors_iff q.constraints a.text).1 x, attachment_codes-other q a (ground arith)),
  )

  empty_codes :
      (q : Question Number) (a : Answer Number)
      → value_empty q.type a ≡ true
      → (attachment_codes lookup q (some a) ≡ [])
        × (question_codes is_finite is_integer less q (some a) ≡ report q.required required_missing)
  unfolding attachment_codes question_codes
  empty_codes q a empty = ground arith

  full_codes :
      (q : Question Number) (a : Answer Number)
      → value_empty q.type a ≡ false
      → question_codes is_finite is_integer less q (some a)
        ≡ answer_errors is_finite is_integer less q.type q.constraints a
  unfolding question_codes
  full_codes q a full = ground arith

  codes_iff :
      (q : Question Number) (o : Option (Answer Number))
      → ((question_codes is_finite is_integer less q o ≡ []) × (attachment_codes lookup q o ≡ []))
        ↔ Met is_finite is_integer less lookup q o
  unfolding question_codes attachment_codes
  codes_iff q none = ground arith
  codes_iff q (some a) = elim (Bool-cases (value_empty q.type a)) [
    | inl empty ↦
        let (x, y) = empty_codes q a empty in
        ground (arith, x, y, report_iff q.required required_missing)
    | inr full ↦ (
      λ (x, y). (
        λ e. ground arith,
        λ _. (answer_codes_iff q.type q a refl full).0 (sym (full_codes q a full) ∙ x, y),
      ),
      λ (_, fits).
          let (x, y) = (answer_codes_iff q.type q a refl full).1 (fits full) in
          (full_codes q a full ∙ x, y),
    )
  ]

  both_iff :
      (rest : List (Question Number)) (answers : List (Answer Number))
      → (All (λ q. question_codes is_finite is_integer less q (by_question q.id answers) ≡ []) rest
          × All (λ q. attachment_codes lookup q (by_question q.id answers) ≡ []) rest)
        ↔ All (λ q. Met is_finite is_integer less lookup q (by_question q.id answers)) rest
  both_iff [] answers = (λ _. tt, λ _. (tt, tt))
  both_iff (q ∷ rest) answers = (
    λ ((x, xs), (y, ys)).
        ((codes_iff q (by_question q.id answers)).0 (x, y), (both_iff rest answers).0 (xs, ys)),
    λ (m, ms).
        let (x, y) = (codes_iff q (by_question q.id answers)).1 m in
        let (xs, ys) = (both_iff rest answers).1 ms in ((x, xs), (y, ys)),
  )

  -- The validator reports no error exactly when every answer names a question of the template and
  -- the last answer to each question, if any, meets it: a required question has an answer that is
  -- not empty, and an answer that is not empty has the type of its question and is within its limits.
  pub validate_submission-IsValid :
      (questions : List (Question Number)) (answers : List (Answer Number))
      → (validate_submission is_finite is_integer less lookup questions answers ≡ [])
        ↔ IsValid is_finite is_integer less lookup questions answers
  unfolding validate_submission
  validate_submission-IsValid questions answers = (
    λ h.
        let (u, rest) = (append-eq-nil (unknown_errors (known questions) answers) _).0 h in
        let (x, y) =
          (append-eq-nil
              (each_question (question_codes is_finite is_integer less) questions answers) _).0
            rest in
        (
          (unknown_errors_iff (known questions) answers).0 u,
          (both_iff questions answers).0 (
            (each_question_iff _ questions answers).0 x,
            (each_question_iff _ questions answers).0 y,
          ),
        ),
    λ (u, met).
        let (x, y) = (both_iff questions answers).1 met in
        (append-eq-nil (unknown_errors (known questions) answers) _).1 (
          (unknown_errors_iff (known questions) answers).1 u,
          (append-eq-nil
                (each_question (question_codes is_finite is_integer less) questions answers) _).1
              (
                (each_question_iff _ questions answers).1 x,
                (each_question_iff _ questions answers).1 y,
              ),
        ),
  )
