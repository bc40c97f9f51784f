-- ===== src/Access/Policies.antt =====
-- api/src/access/cedar/policies.ts. A policy is data: its text has a fixed shape for each constructor.
use text.Mathlib.Text.{◌==◌}
use patrice.Prelude.{
  ℕ, Bool, true, false, Option, none, some, List, [], ◌∷◌, ◌++◌, String, if◌then◌else◌,
}
use patrice.Db.Directory.{
  GrantEffect, global, own, own_division, own_team, specific_division, specific_team, role_scope,
  Grant,
}

-- The `when` clause of a policy.
pub data Condition : Type 0 where
  always eligible_to_claim in_own_division in_own_team : Condition
  in_division in_team targets_role : Option ℕ → Condition
  owned_as : (attribute : String) → Condition

pub data Policy : Type 0 where
  grant_policy : (grant : ℕ) → GrantEffect → (role : ℕ) → (action : String) → Condition → Policy
  retired_hard_deny baseline_self_access self_review_forbid : Policy

abbrev pub own_attributes : List (String × String)
own_attributes =
    ("task:update", "requester")
    ∷ ("task:retire", "requester")
    ∷ ("task:revive", "requester")
    ∷ ("task:configure_request_template", "requester")
    ∷ ("task:manage_claims", "requester")
    ∷ ("task:change_requester", "requester")
    ∷ ("message:create", "sender")
    ∷ ("message:update", "sender")
    ∷ ("message:retire", "sender")
    ∷ ("attachment:create", "uploader")
    ∷ ("attachment:retire", "uploader")
    ∷ ("attachment:revive", "uploader")
    ∷ ("task:submit", "claimant")
    ∷ ("task:review", "requester")
    ∷ ("task:retire_submission", "requester")
    ∷ ("task:complete", "requester")
    ∷ []

abbrev pub attribute_in : String → List (String × String) → Option String
attribute_in a [] = none
attribute_in a ((b, attribute) ∷ rest) = if b == a then some attribute else attribute_in a rest

abbrev pub owned_by : Option String → Option Condition
owned_by none = none
owned_by (some attribute) = some (owned_as attribute)

-- `scopeCondition`; `none` where it throws.
unfoldable pub scope_condition : Grant → Option Condition
scope_condition g = elim g.scope_kind [
  | global ↦ some always
  | specific_division ↦ some (in_division g.scope_division_id)
  | specific_team ↦ some (in_team g.scope_team_id)
  | own_division ↦ some in_own_division
  | own_team ↦ some in_own_team
  | role_scope ↦ some (targets_role g.scope_role_id)
  | own ↦
      if g.action == "task:assign"
      then some eligible_to_claim
      else owned_by (attribute_in g.action own_attributes)
]

abbrev pub policy_of : Grant → Option Condition → Option Policy
policy_of g none = none
policy_of g (some condition) = some (grant_policy g.id g.effect g.role_id g.action condition)

unfoldable pub grant_to_policy : Grant → Option Policy
grant_to_policy g = policy_of g (scope_condition g)

abbrev pub cons_if : Option Policy → Option (List Policy) → Option (List Policy)
cons_if none rest = none
cons_if (some p) none = none
cons_if (some p) (some rest) = some (p ∷ rest)

-- `grants.map(grantToPolicy)`: `none` as soon as one throws.
unfoldable pub grant_policies : List Grant → Option (List Policy)
grant_policies [] = some []
grant_policies (g ∷ rest) = cons_if (grant_to_policy g) (grant_policies rest)

-- `staticPolicies`, for the whole vocabulary, which has `task:review`.
unfoldable pub static_policies : (self_review_allowed : Bool) → List Policy
static_policies true = retired_hard_deny ∷ baseline_self_access ∷ []
static_policies false = retired_hard_deny ∷ baseline_self_access ∷ self_review_forbid ∷ []

-- The static policies and those of the grants.
unfoldable pub projected : (self_review_allowed : Bool) → List Grant → Option (List Policy)
projected allowed grants = elim (grant_policies grants) [
  | none ↦ none
  | some policies ↦ some (static_policies allowed ++ policies)
]
