-- ===== src/Reconciler/Index.antt =====
-- The reverse index of the memberships answers as the memberships do.
use patrice.Prelude.{ℕ, ◌≡◌, ◌&&◌, ◌||◌, List, [], ◌∷◌, arith, any, has, ◌==◌}
use patrice.Reconciler.{Index, add_member, add_groups, build_index, members_of}

members_of-add_member :
    (g u : ℕ) (index : Index) (h v : ℕ)
    → has v (members_of h (add_member g u index)) ≡ (has v (members_of h index) || h == g && v == u)
unfolding members_of add_member
members_of-add_member g u [] h v = ground arith
members_of-add_member g u ((k, users) ∷ rest) h v =
    ground (arith, members_of-add_member g u rest h v)

members_of-add_groups :
    (u : ℕ) (groups : List ℕ) (index : Index) (h v : ℕ)
    → has v (members_of h (add_groups u groups index))
      ≡ (has v (members_of h index) || u == v && has h groups)
unfolding add_groups
members_of-add_groups u [] index h v = ground arith
members_of-add_groups u (g ∷ gs) index h v = ground (
  arith,
  members_of-add_groups u gs (add_member g u index) h v,
  members_of-add_member g u index h v,
)

-- `membersOf` and the loops that fill it: a user is in a group's set exactly when some entry of
-- the memberships names the user and lists the group.
pub members_of-build_index :
    (membership : List (ℕ × List ℕ)) (index : Index) (h v : ℕ)
    → has v (members_of h (build_index membership index))
      ≡ (has v (members_of h index) || any (λ e. e.0 == v && has h e.1) membership)
unfolding build_index
members_of-build_index [] index h v = ground arith
members_of-build_index ((u, groups) ∷ rest) index h v = ground (
  arith,
  members_of-build_index rest (add_groups u groups index) h v,
  members_of-add_groups u groups index h v,
)
