-- ===== src/RequestTemplate/Parts.antt =====
-- What each check of the validator reports nothing for.
use patrice.Prelude.{
  ℕ, ltb, ◌≤◌, ◌≡◌, ◌⊎◌, ◌↔◌, refl, inl, inr, Bool, true, false, not, ◌&&◌, Option, none, some,
  List, [], ◌∷◌, ◌++◌, arith, All, get_or, has, length, Option-cases,
}
use patrice.RequestTemplate.Data.{
  Text, Constraints, Question, Answer, AttachmentMeta, ErrorCode, too_few_selected,
  too_many_selected, multi_not_allowed, attachment_not_found, wrong_attachment_type, too_many_files,
}
use patrice.RequestTemplate.{
  by_question, text_eq, includes, report, entries, text_errors, number_errors, option_errors,
  choice_errors, wrong_attachment, file_errors, attachment_errors, unknown_errors, each_question,
  below, above,
}
use patrice.RequestTemplate.Valid.{
  AtLeast, AtMost, Listed, TextFits, ChoiceFits, FileFits, FilesFit, NumberFits,
}

text_eq_iff : (s t : Text) → (text_eq s t ≡ true) ↔ (s ≡ t)
unfolding text_eq
text_eq_iff [] [] = ground arith
text_eq_iff [] (b ∷ t) = ground arith
text_eq_iff (a ∷ s) [] = ground arith
text_eq_iff (a ∷ s) (b ∷ t) = ground (arith, text_eq_iff s t)

includes_iff : (ts : List Text) (s : Text) → (includes ts s ≡ true) ↔ Listed s ts
unfolding includes
includes_iff [] s = ground arith
includes_iff (t ∷ ts) s = ground (arith, text_eq_iff t s, includes_iff ts s)

pub append-eq-nil {ℓ} : {A : Type ℓ} (l m : List A) → (l ++ m ≡ []) ↔ ((l ≡ []) × (m ≡ []))
append-eq-nil [] m = ground arith
append-eq-nil (x ∷ l) m = ground arith

option_errors_iff :
    (allowed selected : List Text)
    → (option_errors allowed selected ≡ []) ↔ All (λ v. Listed v allowed) selected
unfolding option_errors
option_errors_iff allowed [] = ground arith
option_errors_iff allowed (v ∷ rest) =
    ground (arith, includes_iff allowed v, option_errors_iff allowed rest)

below_iff : (o : Option ℕ) (n : ℕ) → (below o n ≡ false) ↔ AtLeast o n
below_iff none n = ground arith
below_iff (some k) n = ground arith

above_iff : (o : Option ℕ) (n : ℕ) → (above o n ≡ false) ↔ AtMost o n
above_iff none n = ground arith
above_iff (some k) n = ground arith

pub report_iff : (b : Bool) (e : ErrorCode) → (report b e ≡ []) ↔ (b ≡ false)
report_iff true e = ground arith
report_iff false e = ground arith

append4-eq-nil {ℓ} :
    {A : Type ℓ} (a b c d : List A)
    → (a ++ (b ++ (c ++ d)) ≡ []) ↔ ((a ≡ []) × (b ≡ []) × (c ≡ []) × (d ≡ []))
append4-eq-nil a b c d =
    ground (arith, append-eq-nil a (b ++ (c ++ d)), append-eq-nil b (c ++ d), append-eq-nil c d)

single_iff :
    (multi : Bool) (l : List Text)
    → (report (not multi && ltb 1 (length l)) multi_not_allowed ≡ [])
      ↔ ((multi ≡ true) ⊎ (length l ≤ 1))
single_iff multi l = ground arith

entries_iff : (id : ℕ) (codes : List ErrorCode) → (entries id codes ≡ []) ↔ (codes ≡ [])
entries_iff id [] = ground arith
entries_iff id (x ∷ codes) = ground arith

module _ {Number : Type 0} where
  pub text_errors_iff :
      (c : Constraints Number) (o : Option Text)
      → (text_errors c o ≡ []) ↔ ((s : Text) × (o ≡ some s) × TextFits c s)
  unfolding text_errors
  text_errors_iff c none = ground arith
  text_errors_iff c (some s) = (
    λ h. (
      s,
      refl,
      ground (arith, below_iff c.min_chars (length s), above_iff c.max_chars (length s)),
    ),
    λ h. ground (arith, below_iff c.min_chars (length s), above_iff c.max_chars (length s)),
  )

  pub choice_errors_iff :
      (c : Constraints Number) (o : Option (List Text))
      → (choice_errors c o ≡ []) ↔ ((l : List Text) × (o ≡ some l) × ChoiceFits c l)
  unfolding choice_errors
  choice_errors_iff c none = ground arith
  choice_errors_iff c (some l) = (
    λ h.
        let (a, b, lo, hi) = (append4-eq-nil (option_errors c.options l) _ _ _).0 h in
        (
          l,
          refl,
          (
            (option_errors_iff c.options l).0 a,
            (single_iff c.multi l).0 b,
            (below_iff c.min_select (length l)).0 ((report_iff _ too_few_selected).0 lo),
            (above_iff c.max_select (length l)).0 ((report_iff _ too_many_selected).0 hi),
          ),
        ),
    λ (l', same, (listed, single, lo, hi)).
        let e : l ≡ l' = ground arith in
        (append4-eq-nil (option_errors c.options l) _ _ _).1 (
          (option_errors_iff c.options l).1 (rw e listed),
          (single_iff c.multi l).1 (rw e single),
          (report_iff _ too_few_selected).1 ((below_iff c.min_select (length l)).1 (rw e lo)),
          (report_iff _ too_many_selected).1 ((above_iff c.max_select (length l)).1 (rw e hi)),
        ),
  )

  pub unknown_errors_iff :
      (ids : List ℕ) (answers : List (Answer Number))
      → (unknown_errors ids answers ≡ []) ↔ All (λ a. has a.question_id ids ≡ true) answers
  unfolding unknown_errors
  unknown_errors_iff ids [] = ground arith
  unknown_errors_iff ids (a ∷ rest) = ground (arith, unknown_errors_iff ids rest)

  pub each_question_iff :
      (codes : Question Number → Option (Answer Number) → List ErrorCode)
      (questions : List (Question Number)) (answers : List (Answer Number))
      → (each_question codes questions answers ≡ [])
        ↔ All (λ q. codes q (by_question q.id answers) ≡ []) questions
  unfolding each_question
  each_question_iff codes [] answers = ground arith
  each_question_iff codes (q ∷ rest) answers = ground (
    arith,
    entries_iff q.id (codes q (by_question q.id answers)),
    append-eq-nil (entries q.id (codes q (by_question q.id answers)))
        (each_question codes rest answers),
    each_question_iff codes rest answers,
  )

module _ {Number : Type 0} (lookup : ℕ → Option AttachmentMeta) where
  file_iff :
      (c : Constraints Number) (id : ℕ)
      → (elim (lookup id) as (λ _. List ErrorCode) [
        | none ↦ attachment_not_found ∷ []
        | some meta ↦ report (wrong_attachment c meta) wrong_attachment_type
      ]
          ≡ [])
        ↔ FileFits lookup c id
  file_iff c id = elim (Option-cases (lookup id)) [
    | inl gone ↦ ground (arith, gone)
    | inr (meta, there) ↦ (
      λ h. (
        meta,
        there,
        ground (
          arith,
          includes_iff c.allowed_types meta.content_type,
          includes_iff c.allowed_types meta.kind,
        ),
      ),
      λ h. ground (
        arith,
        includes_iff c.allowed_types meta.content_type,
        includes_iff c.allowed_types meta.kind,
      ),
    )
  ]

  file_errors_iff :
      (c : Constraints Number) (ids : List ℕ)
      → (file_errors lookup c ids ≡ []) ↔ All (FileFits lookup c) ids
  unfolding file_errors
  file_errors_iff c [] = ground arith
  file_errors_iff c (id ∷ ids) = (
    λ h.
        let (a, b) = (append-eq-nil _ (file_errors lookup c ids)).0 h in
        ((file_iff c id).0 a, (file_errors_iff c ids).0 b),
    λ (a, b).
        (append-eq-nil _ (file_errors lookup c ids)).1
          ((file_iff c id).1 a, (file_errors_iff c ids).1 b),
  )

  pub attachment_errors_iff :
      (c : Constraints Number) (a : Answer Number)
      → (attachment_errors lookup c a ≡ []) ↔ FilesFit lookup c (get_or [] a.attachment_ids)
  unfolding attachment_errors
  attachment_errors_iff c a =
      let ids = get_or [] a.attachment_ids in
      (
        λ h.
            let (x, y) = (append-eq-nil _ (file_errors lookup c ids)).0 h in
            (
              (above_iff c.max_files (length ids)).0 ((report_iff _ too_many_files).0 x),
              (file_errors_iff c ids).0 y,
            ),
        λ (x, y). (append-eq-nil _ (file_errors lookup c ids)).1 (
          (report_iff _ too_many_files).1 ((above_iff c.max_files (length ids)).1 x),
          (file_errors_iff c ids).1 y,
        ),
      )

module _ {Number : Type 0} (is_finite is_integer : Number → Bool)
    (less : Number → Number → Bool) where
  pub number_errors_iff :
      (c : Constraints Number) (o : Option Number)
      → (number_errors is_finite is_integer less c o ≡ [])
        ↔ ((n : Number) × (o ≡ some n) × NumberFits is_finite is_integer less c n)
  unfolding number_errors
  number_errors_iff c none = ground arith
  number_errors_iff c (some n) = (λ h. (n, refl, ground arith), λ h. ground arith)
