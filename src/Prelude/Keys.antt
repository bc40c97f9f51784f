-- ===== src/Prelude/Keys.antt =====
-- Tables: lists of rows with a key, their updates and counts.
use Prim.Native.Nat.{ℕ, ◌+◌}
use mathlib.Core.Path.{◌≡◌, ◌∙◌, refl, sym, subst}
use mathlib.Core.Logic.{◌≢◌, inl, inr}
use mathlib.Core.Bool.{Bool, true}
use mathlib.Core.Option
use mathlib.Core.Option.{Option, none, some}
use mathlib.Core.List.{List, [], ◌∷◌, ◌++◌}
use native.Mathlib.Omega.{arith}
use patrice.Prelude.Tests.{◌==◌, if◌then◌else◌, Bool-cases}
use patrice.Prelude.Lists.{All, All-append, find, count, update_where}

abbrev pub bit : Bool → ℕ
bit b = if b then 1 else 0

module _ {ℓ κ} {A : Type ℓ} (P : A → Type κ) where
  pub All-find : (p : A → Bool) (xs : List A) {r : A} → All P xs → find p xs ≡ some r → P r
  All-find p [] h e = absurd (cc)
  All-find p (x ∷ xs) {r} h e = elim (Bool-cases (p x)) [
    | inl here ↦ let same : x ≡ r = ground arith in subst P same h.0
    | inr later ↦ All-find p xs h.1 (ground arith)
  ]

  pub All-update_where :
      (t : A → Bool) (f : A → A) (xs : List A)
      → ((a : A) → P a → P (f a))
      → All P xs
      → All P (update_where t f xs)
  All-update_where t f [] k h = tt
  All-update_where t f (x ∷ xs) k h = elim (Bool-cases (t x)) [
    | inl here ↦ (rw here (k x h.0), All-update_where t f xs k h.1)
    | inr other ↦ (rw other h.0, All-update_where t f xs k h.1)
  ]

module _ {A : Type 0} (key : A → ℕ) where
  -- No two rows have the same key.
  abbrev pub Distinct : List A → Type 0
  Distinct [] = Unit
  Distinct (x ∷ xs) = All (λ y. key y ≢ key x) xs × Distinct xs

  pub update_where-absent :
      (k : ℕ) (f : A → A) (xs : List A)
      → All (λ y. key y ≢ k) xs
      → update_where (λ x. key x == k) f xs ≡ xs
  update_where-absent k f [] h = refl
  update_where-absent k f (x ∷ xs) h = ground (arith, update_where-absent k f xs h.1)

  -- An update of the one row that is found moves a count by that row.
  pub count-update_where :
      (p q : A → Bool) (f : A → A) (xs : List A) (r : A)
      → Distinct xs
      → find p xs ≡ some r
      → count q (update_where (λ x. key x == key r) f xs) + bit (q r) ≡ count q xs + bit (q (f r))
  count-update_where p q f [] r d e = absurd (cc)
  count-update_where p q f (x ∷ xs) r d e = elim (Bool-cases (p x)) [
    | inl here ↦ ground (arith, update_where-absent (key x) f xs d.0)
    | inr later ↦
        let e' : find p xs ≡ some r = ground arith in
        ground
          (arith, All-find (λ y. key y ≢ key x) p xs d.0 e', count-update_where p q f xs r d.1 e')
  ]

  pub Distinct-update_where :
      (t : A → Bool) (f : A → A) (xs : List A)
      → ((x : A) → key (f x) ≡ key x)
      → Distinct xs
      → Distinct (update_where t f xs)
  Distinct-update_where t f [] k d = tt
  Distinct-update_where t f (x ∷ xs) k d =
      let rest = All-update_where (λ y. key y ≢ key x) t f xs (λ a h e. h (sym (k a) ∙ e)) d.0 in
      let same : key (if t x then f x else x) ≡ key x = ground (arith, k x) in
      (rw same rest, Distinct-update_where t f xs k d.1)

  pub find-update_where :
      (k : ℕ) (f : A → A) (xs : List A)
      → ((x : A) → key (f x) ≡ key x)
      → find (λ x. key x == k) (update_where (λ x. key x == k) f xs)
        ≡ Option.map f (find (λ x. key x == k) xs)
  find-update_where k f [] h = refl
  find-update_where k f (x ∷ xs) h = ground (arith, h x, find-update_where k f xs h)

pub find_passes {ℓ} :
    {A : Type ℓ} (p : A → Bool) (xs : List A) {r : A} → find p xs ≡ some r → p r ≡ true
find_passes p [] e = absurd (cc)
find_passes p (x ∷ xs) {r} e = elim (Bool-cases (p x)) [
  | inl here ↦ let same : x ≡ r = ground arith in subst (λ a. p a ≡ true) same here
  | inr later ↦ find_passes p xs (ground arith)
]

-- A row is found exactly where the count is not zero.
pub count_of_find {ℓ} :
    {A : Type ℓ} (p : A → Bool) (xs : List A) → find p xs ≡ none → count p xs ≡ 0
count_of_find p [] e = refl
count_of_find p (x ∷ xs) e = ground (arith, count_of_find p xs)

pub Distinct-snoc :
    {A : Type 0} (key : A → ℕ) (xs : List A) (x : A)
    → Distinct key xs
    → All (λ y. key y ≢ key x) xs
    → Distinct key (xs ++ x ∷ [])
Distinct-snoc key [] x d h = (tt, tt)
Distinct-snoc key (y ∷ ys) x d h = (
  All-append (λ z. key z ≢ key y) ys (x ∷ []) d.0 ((λ e. h.0 (sym e)), tt),
  Distinct-snoc key ys x d.1 h.1,
)
