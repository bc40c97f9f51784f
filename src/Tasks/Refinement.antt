-- ===== src/Tasks/Refinement.antt =====
-- The slots of a task as the set of its claimants, which is all that a caller sees of their rows.
use patrice.Prelude.{
  is_some, ℕ, ◌+◌, ◌≤◌, ◌≡◌, refl, Bool, true, false, not, ◌&&◌, ◌||◌, none, some, List, [], ◌∷◌,
  arith, count, count-append, find, Option-cases, Bool-cases, inl, inr, ◌==◌, bit,
  count-update_where, find_passes, ltb,
}
use patrice.Db.Rows.{Db, TaskClaimant}
use patrice.Db.Tx.{ok}
use patrice.Db.Tables.{find_slot, holds_slot, is_slot_of, update_slot}
use patrice.Tasks.Base.{Reply}
use patrice.Tasks.Claims.{take_slot, leave_slot}
use patrice.Tasks.Slots.{IsSound, slot_id, renew, give_up, claim_steps}
use patrice.Tasks.Status.{
  SlotOp, claims, leaves, removes, manages, run_slot_op, leave_vacates, remove_vacates,
  vacate_recomputes, manage_steps,
}
use patrice.Tasks.Capacity.{change_openings-room}
use patrice.Tasks.Soundness.{write_claims_later}

-- The set of the claimants of a task.
abbrev pub Members : Type 0
Members = ℕ → Bool

abbrev pub sits : (task user : ℕ) → TaskClaimant → Bool
sits task user c = is_slot_of task user c && not (is_some c.left_at)

unfoldable pub seats : (task user : ℕ) → Db → ℕ
seats task user db = count (sits task user) db.claimants

unfoldable pub members : (task : ℕ) → Db → Members
members task db user = ltb 0 (seats task user db)

-- What each operation promises of the set: a claim puts in who was out, leaving and removing take out
-- who was in, and managing changes nothing.
unfoldable pub SpecStep : SlotOp → Members → Members → Type 0
SpecStep (claims user) before after =
    (before user ≡ false) × ((x : ℕ) → after x ≡ (x == user || before x))
SpecStep (leaves user) before after =
    (before user ≡ true) × ((x : ℕ) → after x ≡ (not (x == user) && before x))
SpecStep (removes actor user) before after =
    (before user ≡ true) × ((x : ℕ) → after x ≡ (not (x == user) && before x))
SpecStep (manages delta closed actor) before after = (x : ℕ) → after x ≡ before x

-- The row that is found decides, where there is at most one.
seats_found :
    (task user : ℕ) (c : TaskClaimant) (rows : List TaskClaimant)
    → count (is_slot_of task user) rows ≤ 1
    → find (is_slot_of task user) rows ≡ some c
    → count (sits task user) rows ≡ bit (not (is_some c.left_at))
seats_found task user c [] one e = absurd (cc)
seats_found task user c (x ∷ rows) one e = elim (Bool-cases (is_slot_of task user x)) [
  | inl here ↦
      let same : x ≡ c = ground arith in
      let none_later : count (is_slot_of task user) rows ≡ 0 = ground arith in
      let free = fewer rows in rw (← same) (ground arith)
  | inr other ↦ ground (arith, seats_found task user c rows)
]
  where
    fewer : (l : List TaskClaimant) → count (sits task user) l ≤ count (is_slot_of task user) l
    fewer [] = omega arith
    fewer (y ∷ l) = ground (arith, fewer l)

seats_at :
    (task user : ℕ) (db : Db)
    → IsSound db
    → seats task user db ≡ bit (holds_slot (find_slot task user db))
unfolding seats find_slot
seats_at task user db s = elim (Option-cases (find (is_slot_of task user) db.claimants)) [
  | inl new ↦ rw new (none_found db.claimants new)
  | inr (c, old) ↦ rw old (seats_found task user c db.claimants (s.one_slot task user) old)
]
  where
    none_found :
        (l : List TaskClaimant)
        → find (is_slot_of task user) l ≡ none
        → count (sits task user) l ≡ 0
    none_found [] e = refl
    none_found (y ∷ l) e = ground (arith, none_found l)

module _ (now id user : ℕ) (db : Db) (sound : IsSound db) where
  take_slot-seats :
      (x : ℕ)
      → holds_slot (find_slot id user db) ≡ false
      → seats id x (take_slot now id user (find_slot id user db) db)
        ≡ seats id x db + bit (x == user)
  unfolding seats take_slot update_slot find_slot
  take_slot-seats x free = elim (Option-cases (find (is_slot_of id user) db.claimants)) [
    | inl new ↦ rw (new, count-append) (ground arith)
    | inr (c, old) ↦ rw old (
        ground (
          arith,
          count-update_where slot_id (is_slot_of id user) (sits id x) (renew now) db.claimants c
              sound.ids_distinct old,
          find_passes (is_slot_of id user) db.claimants old,
        ))
  ]

  leave_slot-seats :
      (x : ℕ) (c : TaskClaimant)
      → find_slot id user db ≡ some c
      → holds_slot (some c) ≡ true
      → seats id x (leave_slot now c db) + bit (x == user) ≡ seats id x db
  unfolding seats leave_slot update_slot find_slot
  leave_slot-seats x c found held = ground (
    arith,
    count-update_where slot_id (is_slot_of id user) (sits id x) (give_up now) db.claimants c
        sound.ids_distinct found,
    find_passes (is_slot_of id user) db.claimants found,
  )

seats-claimants :
    (id x : ℕ) (db db' : Db) → db'.claimants ≡ db.claimants → seats id x db' ≡ seats id x db
unfolding seats
seats-claimants id x db db' e = rw e refl

leaving :
    (now id user : ℕ) (db db' : Db) (c : TaskClaimant)
    → IsSound db
    → find_slot id user db ≡ some c
    → holds_slot (some c) ≡ true
    → db'.claimants ≡ (leave_slot now c db).claimants
    → (members id db user ≡ true)
      × ((x : ℕ) → members id db' x ≡ (not (x == user) && members id db x))
unfolding members
leaving now id user db db' c s found held same =
    let was : seats id user db ≡ bit (holds_slot (find_slot id user db)) = seats_at id user db s in
    let held_here : holds_slot (find_slot id user db) ≡ true = rw found held in
    (
      ground arith,
      λ x.
          let there = seats-claimants id x (leave_slot now c db) db' same in
          let moved = leave_slot-seats now id user db s x c found held in
          let was_x : seats id x db ≡ bit (holds_slot (find_slot id x db)) = seats_at id x db s in
          ground arith,
    )

-- Every operation on slots that succeeds does to the set of a task's claimants what it promises, though
-- it works on rows that stay when a claimant leaves and come back when the claimant returns: a claim
-- puts in a user who was out, leaving and removing take out a user who was in, and managing claims
-- leaves the set.
pub slot_op-SpecStep :
    (seen : Db) (now id : ℕ) (op : SlotOp) (db : Db) {r : Reply} {db' : Db}
    → IsSound db
    → run_slot_op seen now id op db ≡ ok (r, db')
    → SpecStep op (members id db) (members id db')
unfolding members SpecStep
slot_op-SpecStep seen now id (claims user) db {r} {db'} s h =
    let (t, found, open_to_all, live, free, room, same) = claim_steps seen now id user db h in
    let was : seats id user db ≡ bit (holds_slot (find_slot id user db)) = seats_at id user db s in
    (
      ground arith,
      λ x.
          let there =
            seats-claimants id x (take_slot now id user (find_slot id user db) db) db' same in
          let moved = take_slot-seats now id user db s x free in ground arith,
    )
slot_op-SpecStep seen now id (leaves user) db {r} {db'} s h =
    let (t, _, c, found, held, run) = leave_vacates seen now id db user h in
    let (_, _, _, same, _) = vacate_recomputes seen now id db t c user user _ run in
    leaving now id user db db' c s found held same
slot_op-SpecStep seen now id (removes actor user) db {r} {db'} s h =
    let (t, _, c, found, held, run) = remove_vacates seen now id db actor user h in
    let (_, _, _, same, _) = vacate_recomputes seen now id db t c actor user _ run in
    leaving now id user db db' c s found held same
slot_op-SpecStep seen now id (manages delta closed actor) db {r} {db'} s h =
    let (t, _, n, mid, decided, run) = manage_steps seen now id db delta closed actor h in
    let (same_db, _) = change_openings-room seen now id db t delta decided in
    let (same, later) = write_claims_later seen now id mid t n closed actor run in
    λ x.
      let there = seats-claimants id x mid db' same in
      let here : seats id x mid ≡ seats id x db = rw same_db refl in rw (there, here) refl
