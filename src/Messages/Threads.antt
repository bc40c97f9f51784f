-- ===== src/Messages/Threads.antt =====
-- Threads are one level deep.
use patrice.Prelude.{
  ℕ, ◌≡◌, sym, ap, ◌∙◌, Bool, Option, none, some, List, [], ◌∷◌, ◌++◌, arith, All, All-map,
  All-append, find, Bool-cases, Option-cases, inl, inr, ◌==◌, String,
}
use patrice.Db.Rows.{Db, Message}
use patrice.Db.Tx.{ok}
use patrice.Db.Emit.{add_message}
use patrice.Messages.{find_message, load_parent, create}
use patrice.Messages.Cascade.{create_steps, write_posts}

-- Every parent is there, and has no parent itself.
abbrev pub HasTop : List Message → Message → Type 0
HasTop l m =
    (p : ℕ)
    → m.parent_message_id ≡ some p
    → (top : Message) × (find (λ x. x.id == p) l ≡ some top) × (top.parent_message_id ≡ none)

abbrev pub IsFlat : Db → Type 0
IsFlat db = All (HasTop db.messages) db.messages

find-append :
    (p : Message → Bool) (l m : List Message) {x : Message}
    → find p l ≡ some x
    → find p (l ++ m) ≡ some x
find-append p [] m e = absurd cc
find-append p (y ∷ l) m {x} e = elim (Bool-cases (p y)) [
  | inl here ↦ ground (arith, here)
  | inr later ↦
      let there : find p l ≡ some x = ground arith in ground (arith, find-append p l m there)
]

load_parent-top :
    (seen : Db) (now task p : ℕ) {top : Option Message}
    → load_parent seen now task (some p) ≡ ok top
    → (m : Message) × (find_message p seen ≡ some m)
      × (m.task_id ≡ task)
      × (m.parent_message_id ≡ none)
unfolding load_parent
load_parent-top seen now task p h = elim (Option-cases (find_message p seen)) [
  | inl gone ↦ absurd (ground arith)
  | inr (m, there) ↦ (m, there, ground arith, ground arith)
]

-- A comment keeps the threads one level deep, as long as the row of its parent is the one that was
-- read; a reply that is posted has a top-level message of the same task as its parent.
pub create-IsFlat :
    (seen : Db) (now task actor : ℕ) (parent : Option ℕ) (body : String) (db : Db) {r : ℕ × List ℕ}
    {db' : Db}
    → IsFlat db
    → ((p : ℕ) → parent ≡ some p → find_message p seen ≡ find_message p db)
    → create seen now task actor parent body db ≡ ok (r, db')
    → IsFlat db'
      × ((p : ℕ)
          → parent ≡ some p
          → (m : Message) × (find_message p db' ≡ some m)
            × (m.task_id ≡ task)
            × (m.parent_message_id ≡ none))
unfolding find_message add_message
create-IsFlat seen now task actor parent body db {r} {db'} flat fresh h =
    let (t, top, _, there, write) = create_steps seen now task actor parent body db h in
    let (_, posted) = write_posts seen now t.organization_id task actor top parent body db write in
    let new : (p : ℕ)
        → parent ≡ some p
        → (m : Message) × (find (λ x. x.id == p) db'.messages ≡ some m)
          × (m.task_id ≡ task)
          × (m.parent_message_id ≡ none) =
      λ p e.
        let (m, found, same, first) = load_parent-top seen now task p (rw e at there) in
        (
          m,
          ap (find (λ x. x.id == p)) posted
              ∙ find-append (λ x. x.id == p) db.messages _ (sym (fresh p e) ∙ found),
          same,
          first,
        ) in
    (
      rw posted (
          All-append _ db.messages _
            (All-map _ _
              (λ m h p e.
                let (x, found, first) = h p e in
                (x, find-append (λ y. y.id == p) db.messages _ found, first))
              db.messages flat)
            ((λ p e. let (m, found, _, first) = new p e in (m, rw posted at found, first)), tt)),
      new,
    )
