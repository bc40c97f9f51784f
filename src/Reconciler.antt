-- ===== src/Reconciler.antt =====
-- api/src/integrations/sync/reconciler.ts: the pure desired-state reconciler of role membership.
-- Ids are numbers, and a key `${a}:${b}` is the pair of its ids (neither kind of id has a colon).
-- A `Set` is a list read by membership, and a `Map` an association list; the arrays that the loops
-- push on are returned by each round and joined in order.
pub mod Data
pub mod Edge
pub mod Index
pub mod Rule
pub mod Once
mod Shared
pub mod Safety
pub mod Baseline
mod Tests
use patrice.Prelude.{
  ℕ, ltb, Bool, true, false, not, ◌&&◌, ◌||◌, Option, none, some, List, [], ◌∷◌, ◌++◌, has, ◌==◌,
  is_some, length, if◌then◌else◌,
}
use patrice.Reconciler.Data.{
  BaselineEdge, ConflictWinner, ExternalAction, ExternalRoleOp, LinkedUser, Mapping, PaKind,
  PaRoleOp, ReconcileInput, ReconcileOutput, Source, SyncDirection, add, bidirectional,
  external_wins, grant, inbound, integration, join, native, no_output, outbound, patrice_wins,
  remove, revoke,
}

-- `membersOf`: the reverse index from a group to the set of its members.
abbrev pub Index : Type 0
Index = List (ℕ × List ℕ)

unfoldable pub add_member : (group user : ℕ) → Index → Index
add_member group user [] = (group, user ∷ []) ∷ []
add_member group user ((g, users) ∷ rest) =
    if g == group
    then (g, if has user users then users else user ∷ users) ∷ rest
    else (g, users) ∷ add_member group user rest

unfoldable pub add_groups : (user : ℕ) → List ℕ → Index → Index
add_groups user [] index = index
add_groups user (g ∷ gs) index = add_groups user gs (add_member g user index)

unfoldable pub build_index : List (ℕ × List ℕ) → Index → Index
build_index [] index = index
build_index ((user, groups) ∷ rest) index = build_index rest (add_groups user groups index)

-- `membersOf.get(group) ?? new Set()`
unfoldable pub members_of : ℕ → Index → List ℕ
members_of group [] = []
members_of group ((g, users) ∷ rest) = if g == group then users else members_of group rest

-- `existingRoles.get(…)`
unfoldable pub role_source : (user role : ℕ) → List (ℕ × ℕ × Source) → Option Source
role_source user role [] = none
role_source user role ((u, r, s) ∷ rest) =
    if u == user && r == role then some s else role_source user role rest

-- `!role || role.lifecycleState === 'retired'`
unfoldable pub role_unusable : ℕ → List (ℕ × Bool) → Bool
role_unusable role [] = true
role_unusable role ((r, retired) ∷ rest) = if r == role then retired else role_unusable role rest

unfoldable pub in_baseline : (user group : ℕ) → List (ℕ × ℕ) → Bool
in_baseline user group [] = false
in_baseline user group ((u, g) ∷ rest) = u == user && g == group || in_baseline user group rest

abbrev pub is_integration : Option Source → Bool
is_integration (some Source.integration) = true
is_integration _ = false

abbrev pub differ : Bool → Bool → Bool
differ true b = not b
differ false b = b

-- What one edge asks for.
pub data EdgeOp : Type 0 where
  nothing : EdgeOp
  pa : PaKind → EdgeOp
  ext : ExternalAction → EdgeOp

abbrev push_patrice : Bool → EdgeOp
push_patrice has_patrice_role = ext (if has_patrice_role then add else remove)

-- The last part of `reconcileBidirectional`: the winner decides.
unfoldable pub cold_edge : Option ConflictWinner → (has_external : Bool) → Option Source → EdgeOp
cold_edge (some external_wins) has_external existing =
    if has_external && not (is_some existing)
    then pa grant
    else if not has_external && is_integration existing
    then pa revoke
    else nothing
cold_edge _ has_external existing = push_patrice (is_some existing)

-- The part under `baseline !== undefined`; its last line falls through to the cold part.
unfoldable pub warm_edge :
    (was_in_baseline : Bool)
    → Option ConflictWinner
    → (has_external : Bool) → Option Source
    → EdgeOp
warm_edge was winner has_external existing =
    let external_diverged = differ has_external was in
    let patrice_diverged = differ (is_some existing) was in
    if external_diverged && not patrice_diverged
    then (if has_external then pa grant else if is_integration existing then pa revoke else ext add)
    else if patrice_diverged && not external_diverged
    then push_patrice (is_some existing)
    else if not external_diverged || not patrice_diverged
    then nothing
    else cold_edge winner has_external existing

-- `reconcileBidirectional`; the first argument is `baseline?.has(bKey)`.
unfoldable pub bidirectional_edge :
    Option Bool → Option ConflictWinner → (has_external : Bool) → Option Source → EdgeOp
bidirectional_edge baseline winner has_external existing =
    if not (differ has_external (is_some existing)) then nothing else elim baseline [
      | some was ↦ warm_edge was winner has_external existing
      | none ↦ cold_edge winner has_external existing
    ]

unfoldable pub edge :
    SyncDirection
    → Option Bool
    → Option ConflictWinner
    → (has_external : Bool) → Option Source
    → EdgeOp
edge inbound baseline winner has_external existing =
    if has_external && not (is_some existing)
    then pa grant
    else if not has_external && is_integration existing
    then pa revoke
    else nothing
edge outbound baseline winner has_external existing =
    if is_some existing && not has_external
    then ext add
    else if not (is_some existing) && has_external
    then ext remove
    else nothing
edge bidirectional baseline winner has_external existing =
    bidirectional_edge baseline winner has_external existing

-- The pushes of one edge, the last ones for the baseline.
unfoldable pub edge_output : Mapping → LinkedUser → (has_external : Bool) → EdgeOp → ReconcileOutput
edge_output m link has_external op =
    let b : BaselineEdge = record {
      external_user_id = link.external_user_id;
      external_group_id = m.external_group_id;
      mapping_id = m.id;
    } in
    record {
      pa_ops = elim op [
        | pa k ↦
            record {
              kind = k;
              user_id = link.user_id;
              role_id = m.role_id;
              external_group_id = m.external_group_id;
            }
            ∷ []
        | _ ↦ []
      ];
      external_ops = elim op [
        | ext a ↦
            record {
              external_user_id = link.external_user_id;
              external_group_id = m.external_group_id;
              action = a;
            }
            ∷ []
        | _ ↦ []
      ];
      broken_mapping_ids = [];
      baseline_upserts = if has_external then b ∷ [] else [];
      baseline_deletes = if has_external then [] else b ∷ [];
    }

abbrev pub edge_baseline : Option (List (ℕ × ℕ)) → (user group : ℕ) → Option Bool
edge_baseline none user group = none
edge_baseline (some edges) user group = some (in_baseline user group edges)

module _ (input : ReconcileInput) where
  -- The body of the inner loop.
  unfoldable pub link_output : (members : List ℕ) → Mapping → LinkedUser → ReconcileOutput
  link_output members m link =
      let has_external = has link.external_user_id members in
      let existing = role_source link.user_id m.role_id input.existing_roles in
      let baseline = edge_baseline input.baseline link.external_user_id m.external_group_id in
      edge_output m link has_external
        (edge m.sync_direction baseline m.conflict_winner has_external existing)

  unfoldable pub links_output : (members : List ℕ) → Mapping → List LinkedUser → ReconcileOutput
  links_output members m [] = no_output
  links_output members m (link ∷ rest) =
      join (link_output members m link) (links_output members m rest)

  -- The body of the outer loop, its three `continue`s first.
  unfoldable pub mapping_output : Index → Mapping → ReconcileOutput
  mapping_output index m =
      if m.is_broken
      then no_output
      else if ltb 0 (length input.external_membership)
          && not (has m.external_group_id input.known_group_ids)
      then record no_output { broken_mapping_ids = m.id ∷ [] }
      else if role_unusable m.role_id input.role_rows
      then no_output
      else links_output (members_of m.external_group_id index) m input.linked_users

  unfoldable pub mappings_output : Index → List Mapping → ReconcileOutput
  mappings_output index [] = no_output
  mappings_output index (m ∷ rest) = join (mapping_output index m) (mappings_output index rest)

  unfoldable pub reconcile : ReconcileOutput
  reconcile = mappings_output (build_index input.external_membership []) input.mappings
