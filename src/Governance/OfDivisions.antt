-- ===== src/Governance/OfDivisions.antt =====
-- The operations of divisions that have no floor check, but for retire, only add authority.
use patrice.Prelude.{not, ℕ, Option, none, some, String, arith, ◌++◌, ◌∷◌, [], ◌+◌}
use patrice.Db.Directory.{Role}
use patrice.Db.Rows.{Db, Division, fault, conflict, not_revivable}
use patrice.Db.Tables.{find_division}
use patrice.Lifecycle.{is_revivable}
use patrice.Access.Op.{grace_window}
use patrice.Access.Adds.{
  Adds, Adds-bind, Adds-known, Adds-pure, Adds-lift, Adds-refuse_if, Adds-read, Adds-modify,
  Adds-log_directory,
}
use patrice.Divisions
use patrice.Divisions.{
  DivisionDto, WithRole, update_division, insert_division, put_divisions, find_with_role,
  new_division, edited, revived_division, rename,
}
use patrice.Governance.Adding.{
  Adds-create_role, Adds-rename_role, Adds-revive_role, Adds-recorded, Adds-logged,
}

Adds-update_division : (id : ℕ) (f : Division → Division) → Adds (update_division id f)
unfolding update_division put_divisions
Adds-update_division id f = Adds-bind _ _ (Adds-read fault (find_division id)) (λ a.
    Adds-bind _ _
      (Adds-modify _ (λ db. record {
        roles_stay = λ k h. h;
        grants_stay = λ role h. h;
        links_stay = λ p h. h;
        users_stay = λ o holds h. h;
      }))
      (λ b. Adds-read fault (find_with_role id)))

Adds-insert_division :
    (o : ℕ) (name : String) (dto : DivisionDto) → Adds (insert_division o name dto)
unfolding insert_division
Adds-insert_division o name dto =
    Adds-known _
      (λ db. record db {
        divisions = db.divisions ++ new_division db.next_id o name dto ∷ [];
        next_id = db.next_id + 1;
      })
      (λ db out e. ground arith)
      (λ db. record {
        roles_stay = λ k h. h;
        grants_stay = λ role h. h;
        links_stay = λ p h. h;
        users_stay = λ o' holds h. h;
      })

pub Adds-divisions_create :
    (o actor : ℕ) (name : String) (dto : DivisionDto) → Adds (Divisions.create o actor name dto)
unfolding Divisions.create
Adds-divisions_create o actor name dto = Adds-bind _ _ (Adds-insert_division o name dto) (λ id.
    Adds-bind _ _ (Adds-create_role o name _ (some id) none) (λ (role : Role).
      Adds-bind _ _ (Adds-log_directory o actor id _) (λ a.
        Adds-bind _ _ (Adds-log_directory o actor role.id _)
          (λ b. Adds-bind _ _ (Adds-read fault (find_with_role id)) (λ row. Adds-pure _)))))

Adds-rename : (name : Option String) (role : ℕ) → Adds (rename name role)
Adds-rename none role = Adds-pure tt
Adds-rename (some name) role = Adds-bind _ _ (Adds-rename_role role name) (λ r. Adds-pure tt)

pub Adds-divisions_update :
    (seen : Db) (id actor : ℕ) (dto : DivisionDto) → Adds (Divisions.update seen id actor dto)
unfolding Divisions.update
Adds-divisions_update seen id actor dto =
    Adds-bind _ _ (Adds-lift (Divisions.load seen id)) (λ (x : WithRole).
      Adds-bind _ _ (Adds-update_division x.0.id (edited dto))
        (λ row. Adds-bind _ _ (Adds-rename dto.name x.1.id) (λ u. Adds-logged _ actor _ _ _)))

pub Adds-divisions_revive :
    (seen : Db) (id now actor : ℕ) → Adds (Divisions.revive seen id now actor)
unfolding Divisions.revive
Adds-divisions_revive seen id now actor =
    Adds-bind _ _ (Adds-lift (Divisions.load seen id)) (λ (x : WithRole).
      Adds-bind _ _
        (Adds-refuse_if
          (not (
            is_revivable now x.0.lifecycle_state x.0.retired_at
              (grace_window x.0.organization_id seen)))
          (conflict not_revivable))
        (λ u. Adds-bind _ _ (Adds-update_division x.0.id revived_division) (λ row.
          Adds-bind _ _ (Adds-revive_role x.1.id) (λ v.
            Adds-bind _ _ (Adds-log_directory _ actor _ _) (λ w. Adds-recorded _ actor _ _ _)))))
