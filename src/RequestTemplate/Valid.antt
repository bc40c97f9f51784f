-- ===== src/RequestTemplate/Valid.antt =====
-- What a valid submission is, stated for each kind of question with no error list.
use patrice.Prelude.{
  ℕ, ◌≤◌, ◌≡◌, ◌⊎◌, Bool, true, false, Option, none, some, List, [], ◌∷◌, All, get_or, has, length,
}
use patrice.RequestTemplate.Data.{Text, QuestionType, Constraints, Question, Answer, AttachmentMeta}
use patrice.RequestTemplate.{value_empty, by_question, known}

abbrev pub AtLeast : Option ℕ → ℕ → Type 0
AtLeast none n = Unit
AtLeast (some limit) n = limit ≤ n

abbrev pub AtMost : Option ℕ → ℕ → Type 0
AtMost none n = Unit
AtMost (some limit) n = n ≤ limit

-- The text stands in the list.
abbrev pub Listed : Text → List Text → Type 0
Listed s [] = ⊥
Listed s (t ∷ ts) = (t ≡ s) ⊎ Listed s ts

module _ {Number : Type 0} where
  abbrev pub TextFits : Constraints Number → Text → Type 0
  TextFits c s = AtLeast c.min_chars (length s) × AtMost c.max_chars (length s)

  abbrev pub ChoiceFits : Constraints Number → List Text → Type 0
  ChoiceFits c selected =
      All (λ v. Listed v c.options) selected
      × ((c.multi ≡ true) ⊎ (length selected ≤ 1))
      × AtLeast c.min_select (length selected)
      × AtMost c.max_select (length selected)

  module _ (lookup : ℕ → Option AttachmentMeta) where
    -- The attachment is there, and its type is allowed, by mime type or by coarse kind.
    abbrev pub FileFits : Constraints Number → ℕ → Type 0
    FileFits c id =
        (file : AttachmentMeta) × (lookup id ≡ some file)
        × ((c.allowed_types ≡ [])
            ⊎ (Listed file.content_type c.allowed_types ⊎ Listed file.kind c.allowed_types))

    abbrev pub FilesFit : Constraints Number → List ℕ → Type 0
    FilesFit c ids = AtMost c.max_files (length ids) × All (FileFits c) ids

  module _ (is_finite is_integer : Number → Bool) (less : Number → Number → Bool) where
    abbrev pub NotLess : Option Number → Number → Type 0
    NotLess none n = Unit
    NotLess (some limit) n = less n limit ≡ false

    abbrev pub NotMore : Option Number → Number → Type 0
    NotMore none n = Unit
    NotMore (some limit) n = less limit n ≡ false

    abbrev pub NumberFits : Constraints Number → Number → Type 0
    NumberFits c n =
        (is_finite n ≡ true)
        × (c.kind_is_integer ≡ true → is_integer n ≡ true)
        × NotLess c.min n
        × NotMore c.max n

    module _ (lookup : ℕ → Option AttachmentMeta) where
      -- An answer that is not empty fits its question.
      abbrev pub Fits : QuestionType → Constraints Number → Answer Number → Type 0
      Fits QuestionType.numeric c a = (n : Number) × (a.number ≡ some n) × NumberFits c n
      Fits QuestionType.dropdown c a = (l : List Text) × (a.selected ≡ some l) × ChoiceFits c l
      Fits QuestionType.radio c a = (l : List Text) × (a.selected ≡ some l) × ChoiceFits c l
      Fits QuestionType.attachment c a = FilesFit lookup c (get_or [] a.attachment_ids)
      Fits _ c a = (s : Text) × (a.text ≡ some s) × TextFits c s

      -- An empty answer, or none, is enough where the question is not required.
      abbrev pub Met : Question Number → Option (Answer Number) → Type 0
      Met q none = q.required ≡ false
      Met q (some a) =
          (value_empty q.type a ≡ true → q.required ≡ false)
          × (value_empty q.type a ≡ false → Fits q.type q.constraints a)

      -- Every answer names a question of the template, and the last answer to each question
      -- meets it.
      abbrev pub IsValid : List (Question Number) → List (Answer Number) → Type 0
      IsValid questions answers =
          All (λ a. has a.question_id (known questions) ≡ true) answers
          × All (λ q. Met q (by_question q.id answers)) questions
