-- ===== src/Governance/History.antt =====
-- Sequences of the operations, each with what it had read.
use patrice.Prelude.{ℕ, Bool, List, [], ◌∷◌, String, All}
use patrice.Db.Rows.{Db}
use patrice.Access.Policies.{Policy}
use patrice.Access.Floor.{HasAdmin}
use patrice.Governance.Run.{Command, IsSingleton, perform}
use patrice.Governance.Kept.{perform-HasAdmin}

-- What an operation read before its transaction, its time, its actor and the call.
pub record Call : Type 0 where
  pub seen : Db
  pub now : ℕ
  pub actor : ℕ
  pub command : Command

module _ (rejects : List Policy → Bool) (decides : Db → (actor target role : ℕ) → Bool)
    (may_grant : Db → (actor role : ℕ) → Bool) (token_hash : ℕ → ℕ) (passcode_hash : String → ℕ)
    (lower : String → String) (same_email : String → String → Bool) (organization : ℕ) where
  unfoldable pub history : List Call → Db → Db
  history [] db = db
  history (c ∷ rest) db = history rest (
      perform rejects decides may_grant token_hash passcode_hash lower same_email organization
        c.seen c.now c.actor c.command db)

  -- Over any sequence of operations of roles, grants, users, divisions, teams and invitations, whatever
  -- each had read and whether it returned or threw, an organization that had an effective administrator
  -- has one. The retiring of divisions and teams is not among the operations; there is one organization.
  pub history-HasAdmin :
      (calls : List Call) (db : Db)
      → All (λ c. IsSingleton organization c.seen) calls
      → HasAdmin organization db
      → HasAdmin organization (history calls db)
  unfolding history
  history-HasAdmin [] db single h = h
  history-HasAdmin (c ∷ rest) db single h = history-HasAdmin rest _ single.1 (
      perform-HasAdmin rejects decides may_grant token_hash passcode_hash lower same_email
        organization c.seen c.now c.actor c.command db single.0 h)
