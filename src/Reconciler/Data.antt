-- ===== src/Reconciler/Data.antt =====
-- api/src/integrations/sync/reconciler.ts: what the reconciler reads, and what it answers.
use patrice.Prelude.{ℕ, Bool, Option, List, [], ◌++◌}

pub data SyncDirection : Type 0 where
  inbound outbound bidirectional : SyncDirection

pub data ConflictWinner : Type 0 where
  patrice_wins external_wins : ConflictWinner

-- `UserRole.source`
pub data Source : Type 0 where
  native integration : Source

pub record Mapping : Type 0 where
  pub id : ℕ
  pub role_id : ℕ
  pub external_group_id : ℕ
  pub sync_direction : SyncDirection
  pub conflict_winner : Option ConflictWinner
  pub is_broken : Bool

pub record LinkedUser : Type 0 where
  pub user_id : ℕ
  pub external_user_id : ℕ

pub data PaKind : Type 0 where
  grant revoke : PaKind

pub record PaRoleOp : Type 0 where
  pub kind : PaKind
  pub user_id : ℕ
  pub role_id : ℕ
  pub external_group_id : ℕ

pub data ExternalAction : Type 0 where
  add remove : ExternalAction

pub record ExternalRoleOp : Type 0 where
  pub external_user_id : ℕ
  pub external_group_id : ℕ
  pub action : ExternalAction

pub record BaselineEdge : Type 0 where
  pub external_user_id : ℕ
  pub external_group_id : ℕ
  pub mapping_id : ℕ

pub record ReconcileInput : Type 0 where
  pub mappings : List Mapping
  pub linked_users : List LinkedUser
  pub external_membership : List (ℕ × List ℕ)
  pub known_group_ids : List ℕ
  pub existing_roles : List (ℕ × ℕ × Source)
  -- Each mapped role, and whether it is retired.
  pub role_rows : List (ℕ × Bool)
  pub baseline : Option (List (ℕ × ℕ))

pub record ReconcileOutput : Type 0 where
  pub pa_ops : List PaRoleOp
  pub external_ops : List ExternalRoleOp
  pub broken_mapping_ids : List ℕ
  pub baseline_upserts : List BaselineEdge
  pub baseline_deletes : List BaselineEdge

abbrev pub no_output : ReconcileOutput
no_output = record {
  pa_ops = [];
  external_ops = [];
  broken_mapping_ids = [];
  baseline_upserts = [];
  baseline_deletes = [];
}

abbrev pub join : ReconcileOutput → ReconcileOutput → ReconcileOutput
join a b = record {
  pa_ops = a.pa_ops ++ b.pa_ops;
  external_ops = a.external_ops ++ b.external_ops;
  broken_mapping_ids = a.broken_mapping_ids ++ b.broken_mapping_ids;
  baseline_upserts = a.baseline_upserts ++ b.baseline_upserts;
  baseline_deletes = a.baseline_deletes ++ b.baseline_deletes;
}
