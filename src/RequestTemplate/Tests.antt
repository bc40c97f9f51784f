-- ===== src/RequestTemplate/Tests.antt =====
-- Tests of the check of a submission, and a run of its theorem.
use patrice.Prelude.{
  ℕ, ◌≡◌, refl, Bool, true, false, Option, none, some, List, [], ◌∷◌, ltb, ◌==◌, if◌then◌else◌,
}
use patrice.RequestTemplate.Data.{
  QuestionType, Constraints, Question, Answer, AttachmentMeta, ErrorEntry, unknown_question,
  required_missing, attachment_not_found, not_integer,
}
use patrice.RequestTemplate.{
  is_space, is_blank, text_eq, includes, value_empty, text_errors, by_question, unknown_errors,
  each_question, file_errors, attachment_errors, attachment_codes, number_errors, answer_errors,
  question_codes, validate_submission,
}
use patrice.RequestTemplate.Valid.{IsValid}
use patrice.RequestTemplate.Decides.{validate_submission-IsValid}

abbrev no_limits : Constraints ℕ
no_limits = record {
  min_chars = none;
  max_chars = none;
  kind_is_integer = false;
  min = none;
  max = none;
  multi = false;
  options = [];
  min_select = none;
  max_select = none;
  allowed_types = [];
  max_files = none;
}

-- A short required text, a whole number, and files.
abbrev questions : List (Question ℕ)
questions =
    record {
      id = 1;
      type = QuestionType.text;
      required = true;
      constraints = record no_limits { max_chars = some 2 };
    }
    ∷ record {
      id = 2;
      type = QuestionType.numeric;
      required = false;
      constraints = record no_limits { kind_is_integer = true };
    }
    ∷ record { id = 3; type = QuestionType.attachment; required = false; constraints = no_limits }
    ∷ []

abbrev no_answer : ℕ → Answer ℕ
no_answer id = record {
  question_id = id;
  text = none;
  number = none;
  selected = none;
  attachment_ids = none;
}

abbrev lookup : ℕ → Option AttachmentMeta
lookup id = if id == 7 then some (record { content_type = 112 ∷ []; kind = 105 ∷ [] }) else none

abbrev good : List (Answer ℕ)
good =
    record (no_answer 1) { text = some (104 ∷ 105 ∷ []) }
    ∷ record (no_answer 2) { number = some 4 }
    ∷ record (no_answer 3) { attachment_ids = some (7 ∷ []) }
    ∷ []

-- White space only, a number that counts as not whole, a missing file, and a stray id.
abbrev bad : List (Answer ℕ)
bad =
    record (no_answer 1) { text = some (32 ∷ 9 ∷ []) }
    ∷ record (no_answer 2) { number = some 5 }
    ∷ record (no_answer 3) { attachment_ids = some (8 ∷ []) }
    ∷ no_answer 4
    ∷ []

abbrev is_whole : ℕ → Bool
is_whole n = n == 4

abbrev check : List (Answer ℕ) → List ErrorEntry
check = validate_submission (λ n. true) is_whole ltb lookup questions

runs :
    (check good ≡ [])
    × (check bad
        ≡ record { question_id = 4; code = unknown_question }
          ∷ record { question_id = 1; code = required_missing }
          ∷ record { question_id = 2; code = not_integer }
          ∷ record { question_id = 3; code = attachment_not_found }
          ∷ [])
unfolding validate_submission unknown_errors each_question by_question question_codes answer_errors
    value_empty is_blank is_space text_errors number_errors attachment_codes attachment_errors
    file_errors text_eq includes
runs = (refl, refl)

validate_submission-IsValid_example : IsValid (λ n. true) is_whole ltb lookup questions good
validate_submission-IsValid_example =
    (validate_submission-IsValid (λ n. true) is_whole ltb lookup questions good).0 runs.0
