-- ===== src/Grants/Shape.antt =====
-- What a well-formed grant is, apart from the order of the checks.
use patrice.Prelude.{◌≡◌, ◌↔◌, true, none, some, arith, String, Option-cases, inl, inr, is_some}
use patrice.Db.Directory.{ScopeKind, specific_division, specific_team, role_scope, global, own}
use patrice.Db.Tx.{ok}
use patrice.Access.Actions.{CedarEntityType, resource_type}
use patrice.Grants.{Scope, is_group_scopable, is_role_scopable, scope_errors, assert_shape}

-- The ids that a scope kind takes: exactly the one that it names.
pub IdsFit : Scope → Type 0
IdsFit s = elim s.scope_kind [
  | specific_division ↦
      is_some s.scope_division_id ≡ true × (s.scope_team_id ≡ none) × (s.scope_role_id ≡ none)
  | specific_team ↦
      is_some s.scope_team_id ≡ true × (s.scope_division_id ≡ none) × (s.scope_role_id ≡ none)
  | role_scope ↦
      is_some s.scope_role_id ≡ true × (s.scope_division_id ≡ none) × (s.scope_team_id ≡ none)
  | _ ↦ (s.scope_division_id ≡ none) × (s.scope_team_id ≡ none) × (s.scope_role_id ≡ none)
]

-- The resources that a scope kind can tell apart.
pub TypeFits : ScopeKind → CedarEntityType → Type 0
TypeFits global type = Unit
TypeFits own type = Unit
TypeFits role_scope type = is_role_scopable type ≡ true
TypeFits _ type = is_group_scopable type ≡ true

scope_errors_fit :
    (s : Scope) (type : CedarEntityType)
    → scope_errors s type ≡ ok tt
    → IdsFit s × TypeFits s.scope_kind type
unfolding scope_errors IdsFit TypeFits
scope_errors_fit s type h = ground arith

fit_scope_errors :
    (s : Scope) (type : CedarEntityType)
    → IdsFit s
    → TypeFits s.scope_kind type
    → scope_errors s type ≡ ok tt
unfolding scope_errors IdsFit TypeFits
fit_scope_errors s type h k = ground arith

-- A grant is well formed: a known action, the ids of its scope kind and no others, and a scope kind
-- that its resource has.
pub IsWellFormed : (action : String) → Scope → Type 0
IsWellFormed action s =
    (type : CedarEntityType) × (resource_type action ≡ some type)
    × IdsFit s
    × TypeFits s.scope_kind type

-- The shape check accepts an action with a scope exactly if the action is of the vocabulary, the scope
-- has the id that its kind takes and no other id, and the kind applies to the action's resource.
pub assert_shape-IsWellFormed :
    (action : String) (s : Scope) → (assert_shape action s ≡ ok tt) ↔ IsWellFormed action s
unfolding assert_shape IsWellFormed
assert_shape-IsWellFormed action s = elim (Option-cases (resource_type action)) [
  | inl unknown ↦ ((λ h. absurd (ground arith)), (λ (type, found, ids, fits). absurd (cc)))
  | inr (type, found) ↦ (
    (λ h. let (ids, kind) = scope_errors_fit s type (ground arith) in (type, found, ids, kind)),
    (λ (other, found', ids, fits).
        let same : type ≡ other = ground arith in
        ground (arith, fit_scope_errors s type ids (rw same fits))),
  )
]
