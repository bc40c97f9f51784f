-- ===== src/RequestTemplate/Data.antt =====
-- api/src/request-templates/request-template.types.ts: questions, answers and errors.
use patrice.Prelude.{ℕ, Bool, Option, List}

abbrev pub Text : Type 0
Text = List ℕ

pub data QuestionType : Type 0 where
  detail_text multiline text numeric dropdown radio attachment : QuestionType

pub record Constraints (Number : Type 0) : Type 0 where
  pub min_chars : Option ℕ
  pub max_chars : Option ℕ
  pub kind_is_integer : Bool
  pub min : Option Number
  pub max : Option Number
  pub multi : Bool
  pub options : List Text
  pub min_select : Option ℕ
  pub max_select : Option ℕ
  pub allowed_types : List Text
  pub max_files : Option ℕ

pub record Question (Number : Type 0) : Type 0 where
  pub id : ℕ
  pub type : QuestionType
  pub required : Bool
  pub constraints : Constraints Number

pub record Answer (Number : Type 0) : Type 0 where
  pub question_id : ℕ
  pub text : Option Text
  pub number : Option Number
  pub selected : Option (List Text)
  pub attachment_ids : Option (List ℕ)

pub record AttachmentMeta : Type 0 where
  pub content_type : Text
  pub kind : Text

pub data ErrorCode : Type 0 where
  unknown_question required_missing wrong_type too_short too_long not_integer out_of_range
        invalid_option multi_not_allowed too_few_selected too_many_selected too_many_files
        attachment_not_found wrong_attachment_type :
      ErrorCode

pub record ErrorEntry : Type 0 where
  pub question_id : ℕ
  pub code : ErrorCode
