-- ===== src/Grants/Tests.antt =====
-- The shape check at an action that a division can scope.
use patrice.Prelude.{◌≡◌, refl, ◌↔◌, some, none}
use patrice.Db.Directory.{specific_division, global}
use patrice.Db.Rows.{invalid_grant, unprocessable}
use patrice.Db.Tx.{ok, err}
use patrice.Access.Actions.{resource_type}
use patrice.Grants.{Scope, assert_shape, scope_errors}
use patrice.Grants.Shape.{IsWellFormed, assert_shape-IsWellFormed}

abbrev in_division : Scope
in_division = record {
  scope_kind = specific_division;
  scope_division_id = some 3;
  scope_team_id = none;
  scope_role_id = none;
}

assert_shape_runs :
    (assert_shape "task:review" in_division ≡ ok tt)
    × (assert_shape "role:create" in_division ≡ err (unprocessable invalid_grant))
    × (assert_shape "role:destroy" (record in_division { scope_kind = global })
        ≡ err (unprocessable invalid_grant))
unfolding assert_shape scope_errors resource_type
assert_shape_runs = (refl, refl, refl)

assert_shape-IsWellFormed_example :
    (assert_shape "task:review" in_division ≡ ok tt) ↔ IsWellFormed "task:review" in_division
assert_shape-IsWellFormed_example = assert_shape-IsWellFormed "task:review" in_division
