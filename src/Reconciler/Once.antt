-- ===== src/Reconciler/Once.antt =====
-- How many operations of a reconcile fall on one role of a user, or on one place in a group.
use patrice.Prelude.{
  ℕ, ◌≤◌, List, [], ◌∷◌, ◌&&◌, Bool, arith, count, count-append, ◌==◌, if◌then◌else◌,
}
use patrice.Reconciler.Data.{Mapping, LinkedUser, PaRoleOp, ExternalRoleOp, ReconcileInput}
use patrice.Reconciler.{
  Index, members_of, EdgeOp, edge_output, link_output, links_output, mapping_output,
  mappings_output, reconcile, build_index,
}

abbrev pub is_on : (user role : ℕ) → PaRoleOp → Bool
is_on user role op = op.user_id == user && op.role_id == role

abbrev pub is_write_to : (external_user group : ℕ) → ExternalRoleOp → Bool
is_write_to external_user group op =
    op.external_user_id == external_user && op.external_group_id == group

module _ (input : ReconcileInput) (user role external_user group : ℕ) where
  edge_once :
      (m : Mapping) (link : LinkedUser) (external : Bool) (op : EdgeOp)
      → let out = edge_output m link external op in
        (count (is_on user role) out.pa_ops
          ≤ (if m.role_id == role then if link.user_id == user then 1 else 0 else 0))
        × (count (is_write_to external_user group) out.external_ops ≤ (
            if m.external_group_id == group
            then if link.external_user_id == external_user then 1 else 0
            else 0))
  unfolding edge_output
  edge_once m link external op = ground arith

  link_once :
      (members : List ℕ) (m : Mapping) (link : LinkedUser)
      → let out = link_output input members m link in
        (count (is_on user role) out.pa_ops
          ≤ (if m.role_id == role then if link.user_id == user then 1 else 0 else 0))
        × (count (is_write_to external_user group) out.external_ops ≤ (
            if m.external_group_id == group
            then if link.external_user_id == external_user then 1 else 0
            else 0))
  unfolding link_output
  link_once members m link = edge_once m link _ _

  links_once :
      (members : List ℕ) (m : Mapping) (links : List LinkedUser)
      → let out = links_output input members m links in
        (count (is_on user role) out.pa_ops
          ≤ (if m.role_id == role then count (λ l. l.user_id == user) links else 0))
        × (count (is_write_to external_user group) out.external_ops ≤ (
            if m.external_group_id == group
            then count (λ l. l.external_user_id == external_user) links
            else 0))
  unfolding links_output
  links_once members m [] = ground arith
  links_once members m (link ∷ rest) =
      let here = link_output input members m link in
      let later = links_output input members m rest in
      ground (
        arith,
        count-append (is_on user role) here.pa_ops later.pa_ops,
        count-append (is_write_to external_user group) here.external_ops later.external_ops,
        link_once members m link,
        links_once members m rest,
      )

  mapping_once :
      (index : Index) (m : Mapping)
      → let out = mapping_output input index m in
        (count (is_on user role) out.pa_ops
          ≤ (if m.role_id == role then count (λ l. l.user_id == user) input.linked_users else 0))
        × (count (is_write_to external_user group) out.external_ops ≤ (
            if m.external_group_id == group
            then count (λ l. l.external_user_id == external_user) input.linked_users
            else 0))
  unfolding mapping_output
  mapping_once index m =
      ground (arith, links_once (members_of m.external_group_id index) m input.linked_users)

  mappings_once :
      (index : Index) (ms : List Mapping)
      → count (λ l. l.user_id == user) input.linked_users ≤ 1
      → count (λ l. l.external_user_id == external_user) input.linked_users ≤ 1
      → let out = mappings_output input index ms in
        (count (is_on user role) out.pa_ops ≤ count (λ m. m.role_id == role) ms)
        × (count (is_write_to external_user group) out.external_ops
            ≤ count (λ m. m.external_group_id == group) ms)
  unfolding mappings_output
  mappings_once index [] h k = ground arith
  mappings_once index (m ∷ rest) h k =
      let here = mapping_output input index m in
      let later = mappings_output input index rest in
      ground (
        arith,
        count-append (is_on user role) here.pa_ops later.pa_ops,
        count-append (is_write_to external_user group) here.external_ops later.external_ops,
        mapping_once index m,
        mappings_once index rest,
      )

  pub reconcile_once :
      count (λ l. l.user_id == user) input.linked_users ≤ 1
      → count (λ l. l.external_user_id == external_user) input.linked_users ≤ 1
      → (count (is_on user role) (reconcile input).pa_ops
          ≤ count (λ m. m.role_id == role) input.mappings)
        × (count (is_write_to external_user group) (reconcile input).external_ops
            ≤ count (λ m. m.external_group_id == group) input.mappings)
  unfolding reconcile
  reconcile_once = mappings_once (build_index input.external_membership []) input.mappings
