-- ===== src/Db/Frame.antt =====
-- A relation between the tables before and after a transaction that returns, step by step.
use patrice.Prelude.{◌≡◌, Bool, Option, arith}
use patrice.Db.Rows.{Db, Error}
use patrice.Db.Tx.{Result, ok, Tx, pure, lift, refuse_if, or_throw, modify, ◌>>=◌, >>=-eq-ok}

module _ (R : Db → Db → Type 0) where
  unfoldable pub Moves : {A : Type 0} → Tx A → Type 0
  Moves {A} m = (db : Db) (out : A × Db) → m db ≡ ok out → R db out.1

  pub Moves-bind :
      {A B : Type 0}
      → ((a b c : Db) → R a b → R b c → R a c)
      → (m : Tx A) (f : A → Tx B) → Moves m
      → ((a : A) → Moves (f a))
      → Moves (m >>= f)
  unfolding Moves
  Moves-bind trans m f g h db out e =
      let (a, mid, first, next) = >>=-eq-ok m f db e in
      trans db mid out.1 (g db (a, mid) first) (h a mid out next)

  -- A body whose tables are known.
  pub Moves-known :
      {A : Type 0} (m : Tx A) (next : Db → Db)
      → ((db : Db) (out : A × Db) → m db ≡ ok out → out.1 ≡ next db)
      → ((db : Db) → R db (next db))
      → Moves m
  unfolding Moves
  Moves-known m next known g db out e = rw (known db out e) (g db)

  pub Moves-modify : (next : Db → Db) → ((db : Db) → R db (next db)) → Moves (modify next)
  unfolding Moves
  Moves-modify next g db out e = let same : out.1 ≡ next db = ground arith in rw same (g db)

  module _ (self : (db : Db) → R db db) where
    pub Moves-pure : {A : Type 0} (a : A) → Moves (pure a)
    unfolding Moves
    Moves-pure a db out e = let same : out.1 ≡ db = ground arith in rw same (self db)

    pub Moves-lift : {A : Type 0} (r : Result A) → Moves (lift r)
    unfolding Moves
    Moves-lift r db out e = let same : out.1 ≡ db = ground arith in rw same (self db)

    pub Moves-refuse_if : (b : Bool) (x : Error) → Moves (refuse_if b x)
    unfolding Moves
    Moves-refuse_if b x db out e = let same : out.1 ≡ db = ground arith in rw same (self db)

    pub Moves-read :
        {A : Type 0} (x : Error) (f : Db → Option A) → Moves (λ db. or_throw x (f db) db)
    unfolding Moves
    Moves-read x f db out e = let same : out.1 ≡ db = ground arith in rw same (self db)
