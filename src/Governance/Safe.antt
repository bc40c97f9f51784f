-- ===== src/Governance/Safe.antt =====
-- Operations that keep the administrators of an organization, whether they return or throw.
use patrice.Prelude.{ℕ, ◌≡◌, refl, Bool, true, false, inl, inr}
use patrice.Db.Directory.{GuardedPath}
use patrice.Db.Rows.{Db, Error}
use patrice.Db.Tx.{Result, ok, err, Tx, Result-cases}
use patrice.Access.Op.{Op, after, return_if, unless, transact}
use patrice.Access.Floor.{with_admin_floor, HasAdmin, with_admin_floor-HasAdmin}
use patrice.Access.Growth.{Grows-HasAdmin}
use patrice.Access.Adds.{Adds}
use patrice.Db.Frame.{Moves}

unfoldable pub Safe : {A : Type 0} → (organization : ℕ) → Op A → Type 0
Safe organization op = (db : Db) → HasAdmin organization db → HasAdmin organization (op db).1

pub Safe-transact :
    {A : Type 0} (organization : ℕ) (m : Tx A) → Adds m → Safe organization (transact m)
unfolding Safe Moves transact
Safe-transact organization m adds db h = elim (Result-cases (m db)) [
  | inl ((a, db'), done) ↦
      rw (done, transact) (Grows-HasAdmin (adds db (a, db') done) organization h)
  | inr (e, raised) ↦ rw (raised, transact) h
]

pub Safe-floor :
    {A : Type 0} (organization o actor subject : ℕ) (path : GuardedPath) (body : Tx A)
    → o ≡ organization
    → Safe organization (with_admin_floor o actor subject path body)
unfolding Safe
Safe-floor organization o actor subject path body same db h =
    rw same (with_admin_floor-HasAdmin organization actor subject path body db h)

pub settle-Safe :
    {A : Type 0} (organization : ℕ) (op : Op A)
    → Safe organization op
    → (db : Db) → HasAdmin organization db
    → HasAdmin organization (op db).1
unfolding Safe
settle-Safe organization op s db h = s db h

pub Safe-unless :
    {A : Type 0} (organization : ℕ) (bad : Bool) (e : Error) (op : Op A)
    → Safe organization op
    → Safe organization (unless bad e op)
unfolding Safe unless
Safe-unless organization true e op s db h = h
Safe-unless organization false e op s db h = s db h

pub Safe-return_if :
    {A : Type 0} (organization : ℕ) (early : Bool) (a : A) (op : Op A)
    → Safe organization op
    → Safe organization (return_if early a op)
unfolding Safe return_if
Safe-return_if organization true a op s db h = h
Safe-return_if organization false a op s db h = s db h

pub Safe-after :
    {A B : Type 0} (organization : ℕ) (r : Result A) (k : A → Op B)
    → ((a : A) → r ≡ ok a → Safe organization (k a))
    → Safe organization (after r k)
unfolding Safe after
Safe-after organization (ok a) k s db h = s a refl db h
Safe-after organization (err e) k s db h = h
