-- ===== src/Tasks/Soundness.antt =====
-- Every operation on slots keeps the rows of slots well formed, whatever it had read.
use patrice.Prelude.{
  ℕ, ◌≤◌, ◌<◌, ◌≡◌, refl, subst, sym, Bool, true, Option, none, some, [], ◌∷◌, arith, All-append,
  All-map, count-append, Distinct-snoc, Distinct-update_where, All-update_where, count-update_where,
  count_of_find, Option-cases, inl, inr, ◌==◌,
}
use patrice.TaskStatus.{RolledStatus}
use patrice.Db.Rows.{Db, Task, TaskClaimant, Verb}
use patrice.Db.Tx.{ok}
use patrice.Db.Tables.{find_slot, is_slot_of, update_slot, write_status, recompute, task_view}
use patrice.Db.Emit.{log_activity, create_system_message, emit, requester_id, claimant_recipients}
use patrice.Tasks.Base.{Reply}
use patrice.Tasks.Claims.{claim, new_slot, take_slot, leave_slot, vacate}
use patrice.Tasks.Manage.{write_claims, notify_closed}
use patrice.Tasks.Slots.{IsSound, slot_id, renew, give_up}
use patrice.Tasks.Status.{
  claim_recomputes, vacate_recomputes, leave_vacates, remove_vacates, manage_steps, SlotOp, claims,
  leaves, removes, manages, run_slot_op,
}
use patrice.Tasks.Capacity.{Fits, slot_op-Fits, change_openings-room}

pub IsSound-kept :
    (mid db' : Db)
    → db'.claimants ≡ mid.claimants
    → mid.next_id ≤ db'.next_id
    → IsSound mid
    → IsSound db'
IsSound-kept mid db' same later s = record {
  ids_distinct = rw same s.ids_distinct;
  ids_old = rw same (All-map _ _ (λ c h. omega arith) mid.claimants s.ids_old);
  one_slot = λ task user. rw same (s.one_slot task user);
}

-- An update of one row that keeps its id, its task and its user.
IsSound-update_slot :
    (id user : ℕ) (f : TaskClaimant → TaskClaimant) (c : TaskClaimant) (db : Db)
    → ((x : TaskClaimant)
        → ((f x).id ≡ x.id) × ((f x).task_id ≡ x.task_id) × ((f x).user_id ≡ x.user_id))
    → find_slot id user db ≡ some c
    → IsSound db
    → IsSound (update_slot c.id f db)
unfolding update_slot find_slot
IsSound-update_slot id user f c db keeps found s = record {
  ids_distinct =
      Distinct-update_where slot_id (λ x. x.id == c.id) f db.claimants (λ x. (keeps x).0)
        s.ids_distinct;
  ids_old =
      All-update_where (λ x. x.id < db.next_id) (λ x. x.id == c.id) f db.claimants
        (λ x h. omega (arith, (keeps x).0)) s.ids_old;
  one_slot = λ t u. ground (
    arith,
    s.one_slot t u,
    keeps c,
    count-update_where slot_id (is_slot_of id user) (is_slot_of t u) f db.claimants c s.ids_distinct
        found,
  );
}

IsSound-new_slot :
    (now id user : ℕ) (db : Db)
    → IsSound db
    → find_slot id user db ≡ none
    → IsSound (take_slot now id user none db)
unfolding take_slot find_slot
IsSound-new_slot now id user db s new =
    let slot = new_slot now id user db.next_id in
    record {
      ids_distinct =
          Distinct-snoc slot_id db.claimants slot s.ids_distinct
            (All-map _ _ (λ c h. omega arith) db.claimants s.ids_old);
      ids_old =
          All-append _ db.claimants (slot ∷ [])
            (All-map _ _ (λ c h. omega arith) db.claimants s.ids_old) (omega arith, tt);
      one_slot = λ t u. ground (
        arith,
        s.one_slot t u,
        count-append (is_slot_of t u) db.claimants (slot ∷ []),
        count_of_find (is_slot_of id user) db.claimants new,
      );
    }

take_slot-IsSound :
    (now id user : ℕ) (db : Db)
    → IsSound db
    → IsSound (take_slot now id user (find_slot id user db) db)
unfolding take_slot find_slot
take_slot-IsSound now id user db s = elim (Option-cases (find_slot id user db)) [
  | inl new ↦ rw new (IsSound-new_slot now id user db s new)
  | inr (c, old) ↦
      rw old (IsSound-update_slot id user (renew now) c db (λ x. (refl, refl, refl)) old s)
]

leave_slot-IsSound :
    (now id user : ℕ) (c : TaskClaimant) (db : Db)
    → find_slot id user db ≡ some c
    → IsSound db
    → IsSound (leave_slot now c db)
unfolding leave_slot
leave_slot-IsSound now id user c db found s =
    IsSound-update_slot id user (give_up now) c db (λ x. (refl, refl, refl)) found s

module _ (seen : Db) (now id : ℕ) (db : Db) where
  claim_later :
      (user : ℕ) {r : Reply} {db' : Db}
      → claim seen now id user db ≡ ok (r, db')
      → (take_slot now id user (find_slot id user db) db).next_id ≤ db'.next_id
  unfolding claim recompute log_activity create_system_message emit requester_id task_view
      write_status
  claim_later user h = ground arith

  vacate_later :
      (t : Task) (c : TaskClaimant) (actor user : ℕ) (verb : RolledStatus → Verb) {r : Reply}
      {db' : Db}
      → vacate seen now id t c actor user verb db ≡ ok (r, db')
      → (leave_slot now c db).next_id ≤ db'.next_id
  unfolding vacate recompute log_activity create_system_message emit requester_id task_view
      write_status
  vacate_later t c actor user verb h = ground arith

  pub write_claims_later :
      (t : Task) (n : Option ℕ) (closed : Option Bool) (actor : ℕ) {r : Reply} {db' : Db}
      → write_claims seen now id t n closed actor db ≡ ok (r, db')
      → (db'.claimants ≡ db.claimants) × (db.next_id ≤ db'.next_id)
  unfolding write_claims recompute log_activity emit claimant_recipients write_status notify_closed
  write_claims_later t n (some true) actor h = ground arith
  write_claims_later t n closed actor h = ground arith

  vacate-IsSound :
      (t : Task) (c : TaskClaimant) (actor user : ℕ) (verb : RolledStatus → Verb) {r : Reply}
      {db' : Db}
      → find_slot id user db ≡ some c
      → vacate seen now id t c actor user verb db ≡ ok (r, db')
      → IsSound db
      → IsSound db'
  vacate-IsSound t c actor user verb {r} {db'} found h s =
      let (_, _, _, same, _) = vacate_recomputes seen now id db t c actor user verb h in
      IsSound-kept (leave_slot now c db) db' same (vacate_later t c actor user verb h)
        (leave_slot-IsSound now id user c db found s)

-- Whatever an operation on slots had read, it keeps the rows of slots well formed: distinct ids, and
-- at most one row for a user on a task, also when a user claims again after leaving.
pub slot_op-IsSound :
    (seen : Db) (now id : ℕ) (op : SlotOp) (db : Db) {r : Reply} {db' : Db}
    → IsSound db
    → run_slot_op seen now id op db ≡ ok (r, db')
    → IsSound db'
slot_op-IsSound seen now id (claims user) db {r} {db'} s h =
    let (_, _, _, same, _) = claim_recomputes seen now id db user h in
    IsSound-kept (take_slot now id user (find_slot id user db) db) db' same
      (claim_later seen now id db user h) (take_slot-IsSound now id user db s)
slot_op-IsSound seen now id (leaves user) db s h =
    let (t, _, c, found, _, run) = leave_vacates seen now id db user h in
    vacate-IsSound seen now id db t c user user _ found run s
slot_op-IsSound seen now id (removes actor user) db s h =
    let (t, _, c, found, _, run) = remove_vacates seen now id db actor user h in
    vacate-IsSound seen now id db t c actor user _ found run s
slot_op-IsSound seen now id (manages delta closed actor) db {r} {db'} s h =
    let (t, _, n, mid, decided, run) = manage_steps seen now id db delta closed actor h in
    let (same_db, _) = change_openings-room seen now id db t delta decided in
    let (same, later) = write_claims_later seen now id mid t n closed actor run in
    IsSound-kept mid db' same later (subst IsSound (sym same_db) s)

-- A serial history of a task: each operation reads the tables that it runs on. An operation that is
-- refused leaves the tables as they are, and is left out.
pub data Serial (id : ℕ) (start : Db) : Db → Type 0 where
  begin : Serial id start start
  then_op :
      {db db' : Db} {r : Reply}
      → Serial id start db
      → (now : ℕ) (op : SlotOp) → run_slot_op db now id op db ≡ ok (r, db')
      → Serial id start db'

-- Along every serial history, the slots of a task stay within its openings.
pub Serial-Fits :
    {id : ℕ} {start db : Db}
    → Serial id start db
    → IsSound start
    → Fits id start
    → IsSound db × Fits id db
Serial-Fits begin s f = (s, f)
Serial-Fits {id} (then_op {db} history now op h) s f =
    let (s', f') = Serial-Fits history s f in
    (slot_op-IsSound db now id op db s' h, slot_op-Fits db now id op db s' refl f' h)
