-- ===== src/Access/Floor.antt =====
-- api/src/access/administrability.service.ts: an operation that would leave no effective administrator
-- is rolled back, and the attempt is recorded.
use patrice.Prelude.{
  ℕ, ◌<◌, ◌≡◌, inl, inr, true, false, [], ◌∷◌, ◌++◌, some, arith, ◌==◌, Bool-cases,
}
use patrice.Db.Directory.{GuardedPath, last_admin_refused}
use patrice.Db.Rows.{Db, Error, last_admin, conflict, directory_verb}
use patrice.Db.Tx.{Result, ok, err, Tx, Result-cases}
use patrice.Access.Op.{Op}
use patrice.Access.Admins.{
  effective_admin_count, is_effective_admin, holds_admin_role, role_governs,
}

-- An error of the guarded body, or the sentinel `LastAdminError`.
pub data Guarded (A : Type 0) : Type 0 where
  kept : A → Db → Guarded A
  thrown : Error → Guarded A
  emptied : Guarded A

-- `assertFloorWithinTx`, after the body
unfoldable pub guarded : {A : Type 0} → (organization : ℕ) → Tx A → Db → Guarded A
guarded organization body db = elim (body db) [
  | err e ↦ thrown e
  | ok (a, db') ↦ elim (effective_admin_count organization db' == 0) [
    | true ↦ emptied
    | false ↦ kept a db'
  ]
]

-- The row that `withAdminFloor` commits on its own after the rollback.
unfoldable pub refused_row : (organization actor subject : ℕ) → GuardedPath → Db → Db
refused_row organization actor subject path db = record db {
  activities =
      db.activities
      ++ record {
        organization_id = organization;
        actor_user_id = some actor;
        subject_id = subject;
        verb = directory_verb (last_admin_refused path subject);
      }
        ∷ [];
}

unfoldable pub with_admin_floor :
    {A : Type 0} → (organization actor subject : ℕ) → GuardedPath → Tx A → Op A
with_admin_floor organization actor subject path body db = elim (guarded organization body db) [
  | kept a db' ↦ (ok a, db')
  | thrown e ↦ (err e, db)
  | emptied ↦ (err (conflict last_admin), refused_row organization actor subject path db)
]

-- The organization can be administered.
unfoldable pub HasAdmin : (organization : ℕ) → Db → Type 0
HasAdmin organization db = 0 < effective_admin_count organization db

-- The three outcomes of a guarded operation.
pub data FloorOutcome {A : Type 0} (organization actor subject : ℕ) (path : GuardedPath)
    (body : Tx A) (db : Db) (out : Result A × Db) : Type 0 where
  committed :
      (a : A) (db' : Db)
      → body db ≡ ok (a, db')
      → HasAdmin organization db'
      → out ≡ (ok a, db')
      → FloorOutcome organization actor subject path body db out
  rolled_back :
      (e : Error)
      → body db ≡ err e
      → out ≡ (err e, db)
      → FloorOutcome organization actor subject path body db out
  refused :
      (a : A) (db' : Db)
      → body db ≡ ok (a, db')
      → effective_admin_count organization db' ≡ 0
      → out ≡ (err (conflict last_admin), refused_row organization actor subject path db)
      → FloorOutcome organization actor subject path body db out

-- A guarded operation commits what its body did if an effective administrator is left. If the body
-- throws, its error stands and the tables are as they were. If no administrator would be left, the
-- answer is 409 LAST_ADMIN, and the tables are as they were but for one audit row of the refusal.
pub floor_decides :
    {A : Type 0} (organization actor subject : ℕ) (path : GuardedPath) (body : Tx A) (db : Db)
    → FloorOutcome organization actor subject path body db
        (with_admin_floor organization actor subject path body db)
unfolding with_admin_floor guarded HasAdmin
floor_decides organization actor subject path body db = elim (Result-cases (body db)) [
  | inr (e, raised) ↦ rolled_back e raised (cc)
  | inl ((a, db'), done) ↦ elim (Bool-cases (effective_admin_count organization db' == 0)) [
    | inl empty ↦ refused a db' done (ground arith) (cc)
    | inr left ↦ committed a db' done (ground arith) (cc)
  ]
]

pub refused_row-HasAdmin :
    (organization actor subject : ℕ) (path : GuardedPath) (o : ℕ) (db : Db)
    → HasAdmin o db
    → HasAdmin o (refused_row organization actor subject path db)
unfolding HasAdmin refused_row effective_admin_count is_effective_admin holds_admin_role
    role_governs
refused_row-HasAdmin organization actor subject path o db h = h

-- Whatever the body, the organization keeps an administrator.
pub with_admin_floor-HasAdmin :
    {A : Type 0} (organization actor subject : ℕ) (path : GuardedPath) (body : Tx A) (db : Db)
    → HasAdmin organization db
    → HasAdmin organization (with_admin_floor organization actor subject path body db).1
with_admin_floor-HasAdmin organization actor subject path body db h =
    elim (floor_decides organization actor subject path body db) [
      | committed a db' done left same ↦ rw same left
      | rolled_back e raised same ↦ rw same h
      | refused a db' done none_left same ↦
          rw same (refused_row-HasAdmin organization actor subject path organization db h)
    ]
