-- ===== src/Access/Actions.antt =====
-- api/src/access/actions.ts: the closed vocabulary of actions, with the type of the resource that each
-- applies to.
use text.Mathlib.Text.{◌==◌}
use patrice.Prelude.{Bool, false, ◌||◌, Option, none, some, List, [], ◌∷◌, String, if◌then◌else◌}

pub data CedarEntityType : Type 0 where
  organization invitation user session task message attachment division integration :
      CedarEntityType

abbrev pub actions : List (String × CedarEntityType)
actions =
    ("task:create", CedarEntityType.task)
    ∷ ("task:update", CedarEntityType.task)
    ∷ ("task:retire", CedarEntityType.task)
    ∷ ("task:revive", CedarEntityType.task)
    ∷ ("task:assign", CedarEntityType.task)
    ∷ ("task:submit", CedarEntityType.task)
    ∷ ("task:review", CedarEntityType.task)
    ∷ ("task:retire_submission", CedarEntityType.task)
    ∷ ("task:complete", CedarEntityType.task)
    ∷ ("task:configure_request_template", CedarEntityType.task)
    ∷ ("task:manage_claims", CedarEntityType.task)
    ∷ ("task:change_requester", CedarEntityType.task)
    ∷ ("message:create", CedarEntityType.message)
    ∷ ("message:update", CedarEntityType.message)
    ∷ ("message:retire", CedarEntityType.message)
    ∷ ("message:revive", CedarEntityType.message)
    ∷ ("attachment:create", CedarEntityType.attachment)
    ∷ ("attachment:retire", CedarEntityType.attachment)
    ∷ ("attachment:revive", CedarEntityType.attachment)
    ∷ ("user:update", CedarEntityType.user)
    ∷ ("user:retire", CedarEntityType.user)
    ∷ ("user:revive", CedarEntityType.user)
    ∷ ("user:deactivate", CedarEntityType.user)
    ∷ ("user:reactivate", CedarEntityType.user)
    ∷ ("user:grant_role", CedarEntityType.user)
    ∷ ("user:revoke_role", CedarEntityType.user)
    ∷ ("session:revoke", CedarEntityType.session)
    ∷ ("invite:create", CedarEntityType.organization)
    ∷ ("invite:retire", CedarEntityType.invitation)
    ∷ ("grant:create", CedarEntityType.organization)
    ∷ ("grant:update", CedarEntityType.organization)
    ∷ ("grant:retire", CedarEntityType.organization)
    ∷ ("grant:revive", CedarEntityType.organization)
    ∷ ("role:create", CedarEntityType.organization)
    ∷ ("role:update", CedarEntityType.organization)
    ∷ ("role:retire", CedarEntityType.organization)
    ∷ ("role:revive", CedarEntityType.organization)
    ∷ ("division:create", CedarEntityType.organization)
    ∷ ("division:update", CedarEntityType.division)
    ∷ ("division:retire", CedarEntityType.organization)
    ∷ ("division:revive", CedarEntityType.organization)
    ∷ ("team:create", CedarEntityType.organization)
    ∷ ("team:update", CedarEntityType.organization)
    ∷ ("team:retire", CedarEntityType.organization)
    ∷ ("team:revive", CedarEntityType.organization)
    ∷ ("config:update", CedarEntityType.organization)
    ∷ ("integration:create", CedarEntityType.organization)
    ∷ ("integration:update", CedarEntityType.organization)
    ∷ ("integration:retire", CedarEntityType.organization)
    ∷ ("integration:revive", CedarEntityType.organization)
    ∷ []

abbrev pub one_of : String → List String → Bool
one_of a [] = false
one_of a (b ∷ rest) = b == a || one_of a rest

-- `EFFECTIVE_ADMIN_ACTIONS`
abbrev pub effective_admin_actions : List String
effective_admin_actions =
    "grant:create" ∷ "grant:update" ∷ "grant:retire" ∷ "role:create" ∷ "role:update" ∷ "role:retire"
    ∷ []

unfoldable pub is_admin_action : String → Bool
is_admin_action a = one_of a effective_admin_actions

abbrev pub type_in : String → List (String × CedarEntityType) → Option CedarEntityType
type_in a [] = none
type_in a ((b, t) ∷ rest) = if b == a then some t else type_in a rest

-- `RESOURCE_TYPE_BY_ACTION`: `none` where the action is not of the vocabulary.
unfoldable pub resource_type : String → Option CedarEntityType
resource_type a = type_in a actions
