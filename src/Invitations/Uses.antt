-- ===== src/Invitations/Uses.antt =====
-- Uses are counted: no invitation is used more often than it allows.
use patrice.Prelude.{
  if◌then◌else◌, ℕ, ◌≤◌, ◌<◌, ◌≡◌, ◌≢◌, refl, ◌∙◌, sym, Bool, true, some, List, [], ◌∷◌, ◌++◌,
  arith, find, count, update_where, ◌==◌, Bool-cases, inl, inr, All, All-append, All-map, All-find,
  All-update_where, Distinct, Distinct-update_where, count-append, find_passes,
}
use patrice.Db.Directory.{Invitation, InvitationUse}
use patrice.Db.Rows.{Db}
use patrice.Invitations.{is_open, count_use}
use patrice.Invitations.Steps.{Used}

abbrev pub is_use_of : (invitation : ℕ) → InvitationUse → Bool
is_use_of invitation u = u.invitation_id == invitation

-- The users that were made by the invitation.
unfoldable pub uses_of : (invitation : ℕ) → List InvitationUse → ℕ
uses_of invitation uses = count (is_use_of invitation) uses

abbrev pub Counted : List InvitationUse → Invitation → Type 0
Counted uses i = (i.use_count ≡ uses_of i.id uses) × (i.use_count ≤ i.max_uses)

-- The ids of invitations are distinct and old, and each counts its uses, of which it has no more than it
-- allows.
pub record IsCounted (db : Db) : Type 0 where
  pub distinct : Distinct (λ i. i.id) db.directory.invitations
  pub old : All (λ i. i.id < db.next_id) db.directory.invitations
  pub uses_old : All (λ u. u.invitation_id < db.next_id) db.directory.invitation_uses
  pub counted : All (Counted db.directory.invitation_uses) db.directory.invitations

-- The row that is found open is the only one of its id.
pub All-open :
    (now id : ℕ) (rows : List Invitation) {r : Invitation}
    → Distinct (λ i. i.id) rows
    → find (is_open now id) rows ≡ some r
    → All (λ i. i.id ≡ id → is_open now id i ≡ true) rows
All-open now id [] d e = tt
All-open now id (x ∷ rows) {r} d e = elim (Bool-cases (is_open now id x)) [
  | inl here ↦
      let of_id : x.id ≡ id = ground arith in
      ((λ h. here), All-map _ _ (λ i apart h. absurd (apart (h ∙ sym of_id))) rows d.0)
  | inr later ↦
      let found : find (is_open now id) rows ≡ some r = ground arith in
      let apart : r.id ≢ x.id = All-find (λ i. i.id ≢ x.id) _ rows d.0 found in
      let of_id : is_open now id r ≡ true = find_passes (is_open now id) rows found in
      ((λ h. absurd (ground arith)), All-open now id rows d.1 found)
]

Counted-use :
    (now id : ℕ) (u : InvitationUse) (uses : List InvitationUse) (i : Invitation)
    → u.invitation_id ≡ id
    → Counted uses i
    → (i.id ≡ id → is_open now id i ≡ true)
    → Counted (uses ++ u ∷ []) (if is_open now id i then count_use i else i)
unfolding uses_of
Counted-use now id u uses i of_id c k =
    ground (arith, k, count-append (is_use_of i.id) uses (u ∷ []))

Counted-after :
    (now id : ℕ) (u : InvitationUse) (uses : List InvitationUse) (rows : List Invitation)
    → u.invitation_id ≡ id
    → All (Counted uses) rows
    → All (λ i. i.id ≡ id → is_open now id i ≡ true) rows
    → All (Counted (uses ++ u ∷ [])) (update_where (is_open now id) count_use rows)
Counted-after now id u uses [] of_id c k = tt
Counted-after now id u uses (i ∷ rows) of_id c k =
    (Counted-use now id u uses i of_id c.0 k.0, Counted-after now id u uses rows of_id c.1 k.1)

pub Used-IsCounted : (now id : ℕ) (a b : Db) → Used now id a b → IsCounted a → IsCounted b
Used-IsCounted now id a b s c =
    let later = s.later_ids in
    let fresh : id < b.next_id =
      let row : s.taken.id < a.next_id =
        All-find (λ i. i.id < a.next_id) _ a.directory.invitations c.old s.was_open in
      let passes = find_passes (is_open now id) a.directory.invitations s.was_open in
      ground arith in
    record {
      distinct = rw s.counted_up (
          Distinct-update_where (λ i. i.id) (is_open now id) count_use a.directory.invitations
            (λ i. refl) c.distinct);
      old = rw s.counted_up (
          All-update_where (λ i. i.id < b.next_id) (is_open now id) count_use
            a.directory.invitations (λ i h. h)
            (All-map _ _ (λ i h. omega arith) a.directory.invitations c.old));
      uses_old = rw s.recorded (
          All-append _ a.directory.invitation_uses (s.new_use ∷ [])
            (All-map _ _ (λ u h. omega arith) a.directory.invitation_uses c.uses_old)
            (omega (arith, s.new_use_of), tt));
      counted =
          rw (s.counted_up, s.recorded)
            (Counted-after now id s.new_use a.directory.invitation_uses a.directory.invitations
              s.new_use_of c.counted
              (All-open now id a.directory.invitations c.distinct s.was_open));
    }
