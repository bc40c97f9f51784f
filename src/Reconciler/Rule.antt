-- ===== src/Reconciler/Rule.antt =====
-- From each live edge to the whole reconcile: a rule for properties of its operations.
use patrice.Prelude.{
  ℕ, ltb, ◌≡◌, ◌⊎◌, Bool, true, not, ◌&&◌, ◌||◌, List, [], ◌∷◌, arith, All, All-append, subst, sym,
  any, has, length, inl, inr, ◌==◌,
}
use patrice.Reconciler.Data.{
  Mapping, LinkedUser, PaRoleOp, ExternalRoleOp, ReconcileInput, ReconcileOutput,
}
use patrice.Reconciler.{
  Index, members_of, role_source, role_unusable, EdgeOp, edge, edge_output, edge_baseline,
  link_output, links_output, mapping_output, mappings_output, reconcile, build_index,
}
use patrice.Reconciler.Index.{members_of-build_index}

-- A predicate on the operations of both kinds.
module _ (P : PaRoleOp → Type 0) (Q : ExternalRoleOp → Type 0) where
  abbrev pub OpsHold : ReconcileOutput → Type 0
  OpsHold out = All P out.pa_ops × All Q out.external_ops

module _ (input : ReconcileInput) where
  -- `input.membersOf`, read off the memberships.
  abbrev pub is_member : (external_user group : ℕ) → Bool
  is_member external_user group =
      any (λ e. e.0 == external_user && has group e.1) input.external_membership

  -- The mapping passes the three tests that skip it.
  abbrev pub is_live : Mapping → Bool
  is_live m =
      not m.is_broken
      && (not (ltb 0 (length input.external_membership))
          || has m.external_group_id input.known_group_ids)
      && not (role_unusable m.role_id input.role_rows)

  abbrev pub index : Index
  index = build_index input.external_membership []

  -- The operation of one edge, with no index.
  abbrev pub edge_of : Mapping → LinkedUser → EdgeOp
  edge_of m link =
      edge m.sync_direction (edge_baseline input.baseline link.external_user_id m.external_group_id)
        m.conflict_winner (is_member link.external_user_id m.external_group_id)
        (role_source link.user_id m.role_id input.existing_roles)

  link_output-edge_of :
      (m : Mapping) (link : LinkedUser)
      → link_output input (members_of m.external_group_id index) m link
        ≡ edge_output m link (is_member link.external_user_id m.external_group_id) (edge_of m link)
  unfolding link_output members_of
  link_output-edge_of m link = rw (
      members_of-build_index input.external_membership [] m.external_group_id link.external_user_id)

  -- The output of one edge, with no index.
  abbrev pub edge_result : Mapping → LinkedUser → ReconcileOutput
  edge_result m link =
      edge_output m link (is_member link.external_user_id m.external_group_id) (edge_of m link)

  mapping_cases :
      (m : Mapping)
      → ((is_live m ≡ true)
          × (mapping_output input index m
              ≡ links_output input (members_of m.external_group_id index) m input.linked_users))
        ⊎ (((mapping_output input index m).pa_ops ≡ [])
            × ((mapping_output input index m).external_ops ≡ []))
  unfolding mapping_output
  mapping_cases m = ground arith

  module _ (P : PaRoleOp → Type 0) (Q : ExternalRoleOp → Type 0) where
    links_rule :
        (m : Mapping) (links : List LinkedUser)
        → All (λ link. OpsHold P Q (edge_result m link)) links
        → OpsHold P Q (links_output input (members_of m.external_group_id index) m links)
    unfolding links_output
    links_rule m [] h = (tt, tt)
    links_rule m (link ∷ rest) h =
        let here = subst (OpsHold P Q) (sym (link_output-edge_of m link)) h.0 in
        let later = links_rule m rest h.1 in
        (All-append P _ _ here.0 later.0, All-append Q _ _ here.1 later.1)

    abbrev pub EdgesHold : Mapping → Type 0
    EdgesHold m =
        is_live m ≡ true → All (λ link. OpsHold P Q (edge_result m link)) input.linked_users

    mapping_rule : (m : Mapping) → EdgesHold m → OpsHold P Q (mapping_output input index m)
    mapping_rule m h = elim (mapping_cases m) [
      | inl (live, same) ↦ rw same (links_rule m input.linked_users (h live))
      | inr (no_pa, no_ext) ↦ (rw no_pa tt, rw no_ext tt)
    ]

    mappings_rule :
        (ms : List Mapping) → All EdgesHold ms → OpsHold P Q (mappings_output input index ms)
    unfolding mappings_output
    mappings_rule [] h = (tt, tt)
    mappings_rule (m ∷ rest) h =
        let here = mapping_rule m h.0 in
        let later = mappings_rule rest h.1 in
        (All-append P _ _ here.0 later.0, All-append Q _ _ here.1 later.1)

    -- What holds of the operation of each live edge holds of all that the reconcile asks for.
    pub reconcile_rule : All EdgesHold input.mappings → OpsHold P Q (reconcile input)
    unfolding reconcile
    reconcile_rule = mappings_rule input.mappings
