-- ===== src/Reconciler/Baseline.antt =====
-- What is recorded for the next run: the baseline of each edge, and the mappings marked broken.
use patrice.Prelude.{
  ℕ, ltb, ◌≡◌, ◌↔◌, refl, Bool, true, false, not, ◌&&◌, Option, List, [], ◌∷◌, arith, has, length,
  keep, map,
}
use patrice.Reconciler.Data.{Mapping, LinkedUser, ReconcileInput}
use patrice.Reconciler.{
  edge, edge_output, link_output, links_output, mapping_output, mappings_output, reconcile, Index,
  build_index, bidirectional_edge, warm_edge, cold_edge, members_of,
}
use patrice.Reconciler.Edge.{Sides, carry_out}

abbrev pub is_empty {ℓ} : {A : Type ℓ} → List A → Bool
is_empty [] = true
is_empty (_ ∷ _) = false

-- The baseline that an edge records, present or absent, is the external side as it was fetched. It
-- is the state after the operations exactly when the edge pushes nothing to the external side: an
-- edge that adds a member is recorded as absent, and one that removes a member as present.
pub baseline_recorded :
    (m : Mapping) (link : LinkedUser) (baseline : Option Bool) (s : Sides)
    → let op = edge m.sync_direction baseline m.conflict_winner s.external s.held in
      let out = edge_output m link s.external op in
      (is_empty out.baseline_upserts ≡ not s.external)
      × (is_empty out.baseline_deletes ≡ s.external)
      × ((not (is_empty out.baseline_upserts) ≡ (carry_out op s).external)
          ↔ (out.external_ops ≡ []))
unfolding edge_output edge bidirectional_edge warm_edge cold_edge
baseline_recorded m link baseline s = ground arith

module _ (input : ReconcileInput) where
  -- The group of a mapping, not yet marked, is gone from the provider.
  abbrev pub is_gone : Mapping → Bool
  is_gone m =
      not m.is_broken
      && ltb 0 (length input.external_membership)
      && not (has m.external_group_id input.known_group_ids)

  links_not_broken :
      (members : List ℕ) (m : Mapping) (links : List LinkedUser)
      → (links_output input members m links).broken_mapping_ids ≡ []
  unfolding links_output link_output edge_output
  links_not_broken members m [] = refl
  links_not_broken members m (link ∷ rest) = links_not_broken members m rest

  mappings_broken :
      (index : Index) (ms : List Mapping)
      → (mappings_output input index ms).broken_mapping_ids ≡ map (λ m. m.id) (keep is_gone ms)
  unfolding mappings_output mapping_output
  mappings_broken index [] = refl
  mappings_broken index (m ∷ rest) = ground (
    arith,
    mappings_broken index rest,
    links_not_broken (members_of m.external_group_id index) m input.linked_users,
  )

  -- The mappings marked broken are those whose group is gone, in their order: none when no member
  -- was fetched, and none that is marked already.
  reconcile_broken :
      (reconcile input).broken_mapping_ids ≡ map (λ m. m.id) (keep is_gone input.mappings)
  unfolding reconcile
  reconcile_broken = mappings_broken (build_index input.external_membership []) input.mappings
