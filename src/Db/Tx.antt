-- ===== src/Db/Tx.antt =====
-- `prisma.$transaction`: a body that writes and may throw. What it wrote is kept only if it returns,
-- so an error carries no tables.
use patrice.Prelude.{◌⊎◌, inl, inr, ◌≡◌, refl, Bool, true, false, Option, none, some, arith}
use patrice.Db.Rows.{Db, Error}

pub data Result {ℓ} (A : Type ℓ) : Type ℓ where
  ok : A → Result A
  err : Error → Result A

abbrev pub Tx : Type 0 → Type 0
Tx A = Db → Result (A × Db)

abbrev pub pure : {A : Type 0} → A → Tx A
pure a db = ok (a, db)

infixl 5 ◌>>=◌ ◌>>◌
abbrev pub ◌>>=◌ : {A B : Type 0} → Tx A → (A → Tx B) → Tx B
◌>>=◌ m f db = elim (m db) [ ok (a, db') ↦ f a db' | err e ↦ err e ]

abbrev pub ◌>>◌ : {A B : Type 0} → Tx A → Tx B → Tx B
m >> k = m >>= λ _. k

abbrev pub gets : {A : Type 0} → (Db → A) → Tx A
gets f db = ok (f db, db)

abbrev pub modify : (Db → Db) → Tx (Unit {0})
modify f db = ok (tt, f db)

abbrev pub lift : {A : Type 0} → Result A → Tx A
lift (ok a) db = ok (a, db)
lift (err e) db = err e

-- `if (bad) throw e`
abbrev pub refuse_if : Bool → Error → Tx (Unit {0})
refuse_if true e db = err e
refuse_if false e db = ok (tt, db)

-- A row that must be there.
abbrev pub or_throw : {A : Type 0} → Error → Option A → Tx A
or_throw e none db = err e
or_throw e (some a) db = ok (a, db)

pub >>=-eq-ok :
    {A B : Type 0} (m : Tx A) (f : A → Tx B) (db : Db) {out : B × Db}
    → (m >>= f) db ≡ ok out
    → (a : A) × (db' : Db) × (m db ≡ ok (a, db')) × (f a db' ≡ ok out)
>>=-eq-ok {A} {B} m f db {out} h = go (m db) refl h
  where
    go :
        (r : Result (A × Db))
        → m db ≡ r
        → ◌≡◌ {A = Result (B × Db)} (elim r [ ok (a, db') ↦ f a db' | err e ↦ err e ]) (ok out)
        → (a : A) × (db' : Db) × (m db ≡ ok (a, db')) × (f a db' ≡ ok out)
    go (ok (a, db')) e k = (a, db', e, k)
    go (err x) e k = cc

pub or_throw-eq-ok :
    {A : Type 0} (e : Error) (o : Option A) (db : Db) {a : A} {db' : Db}
    → or_throw e o db ≡ ok (a, db')
    → (o ≡ some a) × (db' ≡ db)
or_throw-eq-ok e o db h = ground arith

pub refuse_if-eq-ok :
    (b : Bool) (e : Error) (db : Db) {u : Unit {0}} {db' : Db}
    → refuse_if b e db ≡ ok (u, db')
    → (b ≡ false) × (db' ≡ db)
refuse_if-eq-ok b e db h = ground arith

pub lift-eq-ok :
    {A : Type 0} (r : Result A) (db : Db) {a : A} {db' : Db}
    → lift r db ≡ ok (a, db')
    → (r ≡ ok a) × (db' ≡ db)
lift-eq-ok r db h = ground arith

pub Result-cases {ℓ} :
    {A : Type ℓ} (r : Result A) → ((a : A) × (r ≡ ok a)) ⊎ ((e : Error) × (r ≡ err e))
Result-cases (ok a) = inl (a, refl)
Result-cases (err e) = inr (e, refl)
