-- ===== src/RequestTemplate.antt =====
-- api/src/request-templates/request-template.types.ts and validate-submission.ts: the check of a
-- submission's answers against the questions of a request template. Text is a list of UTF-16 code
-- units, and ids are numbers. A JavaScript number is a parameter, with the tests that are made of it.
-- The `constraints` of a question are untyped json that each branch casts: here one record of what
-- the branches read, absent fields as `none`, `false` or `[]`. A question's ordinal and prompt and an
-- error's message, which nothing reads, are left out.
pub mod Data
pub mod Valid
pub mod Parts
pub mod Decides
mod Tests
use patrice.Prelude.{
  ℕ, suc, ltb, leb, Bool, true, false, not, ◌&&◌, ◌||◌, Option, none, some, List, [], ◌∷◌, ◌++◌,
  map, has, any, length, ◌==◌, if◌then◌else◌, get_or,
}
use patrice.RequestTemplate.Data.{
  Answer, AttachmentMeta, Constraints, ErrorCode, ErrorEntry, Question, QuestionType, Text,
  attachment, attachment_not_found, detail_text, dropdown, invalid_option, multi_not_allowed,
  multiline, not_integer, numeric, out_of_range, radio, required_missing, text, too_few_selected,
  too_long, too_many_files, too_many_selected, too_short, unknown_question, wrong_attachment_type,
  wrong_type,
}

-- The white space and the line ends that `trim` takes off.
unfoldable pub is_space : ℕ → Bool
is_space c =
    leb 9 c && leb c 13
    || c == 32
    || c == 160
    || c == 5760
    || leb 8192 c && leb c 8202
    || c == 8232
    || c == 8233
    || c == 8239
    || c == 8287
    || c == 12288
    || c == 65279

-- `s.trim().length === 0`
unfoldable pub is_blank : Text → Bool
is_blank [] = true
is_blank (c ∷ s) = is_space c && is_blank s

unfoldable pub text_eq : Text → Text → Bool
text_eq [] [] = true
text_eq (a ∷ s) (b ∷ t) = a == b && text_eq s t
text_eq _ _ = false

unfoldable pub includes : List Text → Text → Bool
includes [] s = false
includes (t ∷ ts) s = text_eq t s || includes ts s

abbrev pub is_nil {ℓ} : {A : Type ℓ} → List A → Bool
is_nil [] = true
is_nil (_ ∷ _) = false

-- `if (limit != null && value < limit) err(…)`, and the same for a greater value.
abbrev pub below : Option ℕ → ℕ → Bool
below none n = false
below (some limit) n = ltb n limit

abbrev pub above : Option ℕ → ℕ → Bool
above none n = false
above (some limit) n = ltb limit n

abbrev pub report : Bool → ErrorCode → List ErrorCode
report true code = code ∷ []
report false code = []

-- The loop over the selected values.
unfoldable pub option_errors : (allowed : List Text) → List Text → List ErrorCode
option_errors allowed [] = []
option_errors allowed (v ∷ rest) =
    report (not (includes allowed v)) invalid_option ++ option_errors allowed rest

abbrev pub entries : ℕ → List ErrorCode → List ErrorEntry
entries id = map (λ code. record { question_id = id; code = code })

module _ {Number : Type 0} where
  -- The value field of the question's type is absent or empty.
  unfoldable pub value_empty : QuestionType → Answer Number → Bool
  value_empty numeric a = elim a.number [ none ↦ true | some _ ↦ false ]
  value_empty dropdown a = is_nil (get_or [] a.selected)
  value_empty radio a = is_nil (get_or [] a.selected)
  value_empty attachment a = is_nil (get_or [] a.attachment_ids)
  value_empty _ a = elim a.text [ none ↦ true | some s ↦ is_blank s ]

  unfoldable pub text_errors : Constraints Number → Option Text → List ErrorCode
  text_errors c none = wrong_type ∷ []
  text_errors c (some s) =
      report (below c.min_chars (length s)) too_short
      ++ report (above c.max_chars (length s)) too_long

  unfoldable pub choice_errors : Constraints Number → Option (List Text) → List ErrorCode
  choice_errors c none = wrong_type ∷ []
  choice_errors c (some selected) =
      option_errors c.options selected
      ++ (report (not c.multi && ltb 1 (length selected)) multi_not_allowed
          ++ (report (below c.min_select (length selected)) too_few_selected
              ++ report (above c.max_select (length selected)) too_many_selected))

  -- `byQuestion.get(id)`: `set` keeps the last answer of a question.
  unfoldable pub by_question : ℕ → List (Answer Number) → Option (Answer Number)
  by_question id [] = none
  by_question id (a ∷ rest) = elim (by_question id rest) [
    | some later ↦ some later
    | none ↦ if a.question_id == id then some a else none
  ]

  abbrev pub known : List (Question Number) → List ℕ
  known = map (λ q. q.id)

  unfoldable pub unknown_errors : (ids : List ℕ) → List (Answer Number) → List ErrorEntry
  unknown_errors ids [] = []
  unknown_errors ids (a ∷ rest) =
      entries a.question_id (report (not (has a.question_id ids)) unknown_question)
      ++ unknown_errors ids rest

  unfoldable pub each_question :
      (Question Number → Option (Answer Number) → List ErrorCode)
      → List (Question Number)
      → List (Answer Number)
      → List ErrorEntry
  each_question codes [] answers = []
  each_question codes (q ∷ rest) answers =
      entries q.id (codes q (by_question q.id answers)) ++ each_question codes rest answers

  abbrev pub wrong_attachment : Constraints Number → AttachmentMeta → Bool
  wrong_attachment c meta =
      not (is_nil c.allowed_types)
      && (not (includes c.allowed_types meta.content_type)
          && not (includes c.allowed_types meta.kind))

module _ {Number : Type 0} (lookup : ℕ → Option AttachmentMeta) where
  unfoldable pub file_errors : Constraints Number → List ℕ → List ErrorCode
  file_errors c [] = []
  file_errors c (id ∷ rest) =
      elim (lookup id) [
        | none ↦ attachment_not_found ∷ []
        | some meta ↦ report (wrong_attachment c meta) wrong_attachment_type
      ]
      ++ file_errors c rest

  -- `validateAttachment`
  unfoldable pub attachment_errors : Constraints Number → Answer Number → List ErrorCode
  attachment_errors c a =
      let ids = get_or [] a.attachment_ids in
      report (above c.max_files (length ids)) too_many_files ++ file_errors c ids

  -- The body of the second loop.
  unfoldable pub attachment_codes : Question Number → Option (Answer Number) → List ErrorCode
  attachment_codes q none = []
  attachment_codes q (some a) = elim q.type [
    | attachment ↦ if value_empty attachment a then [] else attachment_errors q.constraints a
    | _ ↦ []
  ]

module _ {Number : Type 0} (is_finite is_integer : Number → Bool)
    (less : Number → Number → Bool) where
  abbrev pub number_below : Option Number → Number → Bool
  number_below none n = false
  number_below (some limit) n = less n limit

  abbrev pub number_above : Option Number → Number → Bool
  number_above none n = false
  number_above (some limit) n = less limit n

  unfoldable pub number_errors : Constraints Number → Option Number → List ErrorCode
  number_errors c none = wrong_type ∷ []
  number_errors c (some n) =
      if not (is_finite n)
      then wrong_type ∷ []
      else report (c.kind_is_integer && not (is_integer n)) not_integer
        ++ (report (number_below c.min n) out_of_range
            ++ report (number_above c.max n) out_of_range)

  -- `validateAnswer`
  unfoldable pub answer_errors : QuestionType → Constraints Number → Answer Number → List ErrorCode
  answer_errors numeric c a = number_errors c a.number
  answer_errors dropdown c a = choice_errors c a.selected
  answer_errors radio c a = choice_errors c a.selected
  answer_errors attachment c a = []
  answer_errors _ c a = text_errors c a.text

  -- The body of the first loop over the questions.
  unfoldable pub question_codes : Question Number → Option (Answer Number) → List ErrorCode
  question_codes q none = report q.required required_missing
  question_codes q (some a) =
      if value_empty q.type a
      then report q.required required_missing
      else answer_errors q.type q.constraints a

  -- The errors of `validateSubmission`, which answers `ok` when there are none.
  unfoldable pub validate_submission :
      (lookup : ℕ → Option AttachmentMeta)
      → List (Question Number)
      → List (Answer Number)
      → List ErrorEntry
  validate_submission lookup questions answers =
      unknown_errors (known questions) answers
      ++ (each_question question_codes questions answers
          ++ each_question (attachment_codes lookup) questions answers)
