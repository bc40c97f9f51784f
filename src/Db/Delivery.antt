-- ===== src/Db/Delivery.antt =====
-- Who is notified of an event, and that every recipient gets exactly one row.
use patrice.Prelude.{
  All-zip, ℕ, ◌+◌, ◌<◌, ◌≡◌, ◌≢◌, refl, ◌∙◌, Bool, false, not, ◌&&◌, ◌||◌, Option, none, some, List,
  [], ◌∷◌, ◌++◌, arith, any, count, count-append, any-append, has, opt_eq, bit, Distinct,
  Bool-cases, inl, inr, All-of, ◌==◌, All,
}
use patrice.Db.Rows.{Db, Notification, NotificationEvent}
use patrice.Db.Tx.{ok}
use patrice.Db.Emit.{
  recipients_from, compute_recipients, max_seq, collides, insert_notification, insert_all, emit,
}

has-recipients_from :
    (x : ℕ) (seen : List ℕ) (sender : Option ℕ) (ids : List (Option ℕ))
    → has x (recipients_from seen sender ids)
      ≡ (any (opt_eq (some x)) ids && (not (has x seen) && not (opt_eq sender (some x))))
unfolding recipients_from
has-recipients_from x seen sender [] = ground arith
has-recipients_from x seen sender (none ∷ ids) =
    ground (arith, has-recipients_from x seen sender ids)
has-recipients_from x seen sender (some id ∷ ids) =
    ground
      (arith, has-recipients_from x seen sender ids, has-recipients_from x (id ∷ seen) sender ids)

count-recipients_from :
    (x : ℕ) (seen : List ℕ) (sender : Option ℕ) (ids : List (Option ℕ))
    → count (λ y. y == x) (recipients_from seen sender ids)
      ≡ bit (has x (recipients_from seen sender ids))
unfolding recipients_from
count-recipients_from x seen sender [] = ground arith
count-recipients_from x seen sender (none ∷ ids) =
    ground (arith, count-recipients_from x seen sender ids)
count-recipients_from x seen sender (some id ∷ ids) = ground (
  arith,
  count-recipients_from x seen sender ids,
  count-recipients_from x (id ∷ seen) sender ids,
  has-recipients_from x (id ∷ seen) sender ids,
)

absent-All : (x : ℕ) (l : List ℕ) → has x l ≡ false → All (λ y. y ≢ x) l
absent-All x [] e = tt
absent-All x (y ∷ l) e = (ground arith, absent-All x l (ground arith))

Distinct-recipients_from :
    (seen : List ℕ) (sender : Option ℕ) (ids : List (Option ℕ))
    → Distinct (λ x. x) (recipients_from seen sender ids)
unfolding recipients_from
Distinct-recipients_from seen sender [] = tt
Distinct-recipients_from seen sender (none ∷ ids) = Distinct-recipients_from seen sender ids
Distinct-recipients_from seen sender (some id ∷ ids) =
    elim (Bool-cases (opt_eq sender (some id) || has id seen)) [
      | inl skipped ↦ rw (skipped, Distinct) (Distinct-recipients_from seen sender ids)
      | inr new ↦
          rw (new, Distinct)
            (
              absent-All id _ (has-recipients_from id (id ∷ seen) sender ids ∙ ground arith),
              Distinct-recipients_from (id ∷ seen) sender ids,
            )
    ]

abbrev row_for : NotificationEvent → ℕ → ℕ → Notification
row_for event seq r = record {
  organization_id = event.organization_id;
  recipient_user_id = r;
  type = event.type;
  subject_id = event.subject_id;
  payload = event.payload;
  event_seq = seq;
}

fresh_seq :
    (event : NotificationEvent) (seq r : ℕ) (rows : List Notification)
    → max_seq event.type event.subject_id rows < seq
    → any (collides (row_for event seq r)) rows ≡ false
unfolding max_seq
fresh_seq event seq r [] e = refl
fresh_seq event seq r (n ∷ rows) e = ground (arith, fresh_seq event seq r rows)

-- The rows of a user.
abbrev pub is_for : ℕ → Notification → Bool
is_for user n = n.recipient_user_id == user

insert_all-count :
    (event : NotificationEvent) (seq user : ℕ) (rs : List ℕ) (rows : List Notification)
    → Distinct (λ x. x) rs
    → All (λ r. any (collides (row_for event seq r)) rows ≡ false) rs
    → count (is_for user) (insert_all event seq rs rows)
      ≡ count (is_for user) rows + count (λ y. y == user) rs
unfolding insert_all insert_notification
insert_all-count event seq user [] rows d free = ground arith
insert_all-count event seq user (r ∷ rs) rows (new, d) (here, free) =
    let more : All
        (λ y. any (collides (row_for event seq y)) (rows ++ row_for event seq r ∷ []) ≡ false) rs =
      All-zip rs new free (λ y (apart : y ≢ r) h.
        ground
          (arith, any-append (collides (row_for event seq y)) rows (row_for event seq r ∷ []))) in
    ground (
      arith,
      insert_all-count event seq user rs (rows ++ row_for event seq r ∷ []) d more,
      count-append (is_for user) rows (row_for event seq r ∷ []),
    )

emit_writes :
    (event : NotificationEvent) (db : Db) {ids : List ℕ} {db' : Db}
    → emit event db ≡ ok (ids, db')
    → (ids ≡ compute_recipients event.recipient_user_ids event.sender_user_id)
      × (db'.notifications
          ≡ insert_all event
              (max_seq event.type event.subject_id db.notifications + 1)
              ids
              db.notifications)
unfolding emit insert_all
emit_writes event db h = ground arith

-- An event gives a row to every recipient but its sender, and only to them: one row each, however
-- often the event names them, and no row is dropped as a duplicate of an earlier event's.
pub emit_delivers :
    (event : NotificationEvent) (db : Db) (user : ℕ) {ids : List ℕ} {db' : Db}
    → emit event db ≡ ok (ids, db')
    → (count (is_for user) db'.notifications
        ≡ count (is_for user) db.notifications
          + bit (
              any (opt_eq (some user)) event.recipient_user_ids
              && not (opt_eq event.sender_user_id (some user))))
      × (has user ids ≡ (
          any (opt_eq (some user)) event.recipient_user_ids
          && not (opt_eq event.sender_user_id (some user))))
unfolding compute_recipients
emit_delivers event db user {ids} {db'} h =
    let (same, written) = emit_writes event db h in
    let seq = max_seq event.type event.subject_id db.notifications + 1 in
    let named = has-recipients_from user [] event.sender_user_id event.recipient_user_ids in
    let once = count-recipients_from user [] event.sender_user_id event.recipient_user_ids in
    let sent =
      insert_all-count event seq user ids db.notifications
        (rw same (Distinct-recipients_from [] event.sender_user_id event.recipient_user_ids))
        (All-of _ (λ r. fresh_seq event seq r db.notifications (omega arith)) ids) in
    rw (written, sent, same) (ground (arith, named, once))
