-- ===== src/Notes/Refused.antt =====
-- Changes of a note that find no row: what they answer, and that nothing is left of them.
use marginalis.Prelude.{
  ℕ, ◌<◌, ◌-◌, ◌≡◌, refl, Bool, true, false, not, ◌&&◌, ◌==◌, Bool-cases, inl, inr, List, [], ◌∷◌,
  Option, none, some, arith, All, ok, err, refuse_if,
}
use marginalis.Text.{Text}
use marginalis.Tables.{
  find_where, exists_where, count_where, find_where-All, find_where-test, All-mono,
}
use marginalis.Tables.Keys.{update_where-none}
use marginalis.Domain.Identity.{ParsedUrl}
use marginalis.Domain.Words.{NoteAccess, edit, manage}
use marginalis.Domain.Notes.{soft_delete_retention_ms}
use marginalis.Principals.{database, not_found, conflict, corrupt_data}
use marginalis.Notes.Store.{NoteRow, NoteStore, is_note, row_allowed}
use marginalis.Notes.Mutations.{
  RestoreNoteError, store, retention_expired, reached, change_note, update_notes,
  classify_failed_mutation, require_active_note_access, conflict_if_found, with_content,
  with_deletion, with_review, with_new_acl, with_restoration,
}
use marginalis.Notes.Updates.{
  update_visible_note_with_kind, soft_delete_visible_note, mark_owned_note_reviewed,
  replace_note_acl,
}
use marginalis.Notes.Removal.{
  restorable, classify_failed_restore, restore_owned_deleted_note, deleted_owned, deleted_since,
}
use marginalis.Notes.Calls.{
  Call, creates, updates, reverts, deletes, reviews, shares, restores, purges, perform, run,
  target_of,
}
use marginalis.Notes.Advance.{HasNoteKeys}
use marginalis.Notes.Lost.{IsPast, makes, run-IsPast, change-IsPast}

count_none :
    {A : Type 0} (t : A → Bool) (xs : List A) → All (λ x. t x ≡ false) xs → count_where t xs ≡ 0
count_none t [] a = refl
count_none t (x ∷ xs) a = rw a.0 (count_none t xs a.1)

pub exists_none :
    {A : Type 0} (t u : A → Bool) (xs : List A)
    → All (λ x. t x ≡ false) xs
    → exists_where (λ x. t x && u x) xs ≡ false
exists_none t u [] a = refl
exists_none t u (x ∷ xs) a = rw a.0 (exists_none t u xs a.1)

pub update_notes-missed :
    (s : NoteStore) (test : NoteRow → Bool) (set : NoteRow → NoteRow)
    → All (λ r. test r ≡ false) s.notes
    → update_notes s test set ≡ ok (s, 0)
unfolding update_notes
update_notes-missed s test set a =
    rw
      (
        exists_none test (λ r. not (row_allowed s.principals (set r))) s.notes a,
        count_none test s.notes a,
        update_where-none {A = NoteRow} NoteRow.note_id test set s.notes a,
      )
      refl

change_note-missed :
    (s : NoteStore) (id : Text) (expected who : ℕ) (required : NoteAccess) (set : NoteRow → NoteRow)
    → All (λ r. reached s id expected who required r ≡ false) s.notes
    → change_note s id expected who required set ≡ err (classify_failed_mutation s who id required)
unfolding change_note
change_note-missed s id expected who required set a =
    rw (update_notes-missed s (reached s id expected who required) set a) refl

-- What each change answers then.
abbrev pub missed_answer : NoteStore → Call → RestoreNoteError
missed_answer s (updates who id expected draft links now) =
    store (classify_failed_mutation s who id edit)
missed_answer s (reverts who id expected draft links now) =
    store (classify_failed_mutation s who id edit)
missed_answer s (deletes who id expected now) = store (classify_failed_mutation s who id manage)
missed_answer s (reviews who id expected now) = store (classify_failed_mutation s who id manage)
missed_answer s (shares who id entries expected now) =
    store (classify_failed_mutation s who id manage)
missed_answer s (restores who id expected now) =
    classify_failed_restore expected (now - soft_delete_retention_ms)
      (find_where (deleted_owned id who) s.notes)
missed_answer s c = store not_found

-- The rows that a change would touch.
abbrev pub matches : NoteStore → Call → NoteRow → Bool
matches s (updates who id expected draft links now) = reached s id expected who edit
matches s (reverts who id expected draft links now) = reached s id expected who edit
matches s (deletes who id expected now) = reached s id expected who manage
matches s (reviews who id expected now) = reached s id expected who manage
matches s (shares who id entries expected now) = reached s id expected who manage
matches s (restores who id expected now) =
    restorable id expected (now - soft_delete_retention_ms) who
matches s c = λ r. false

pub perform-missed :
    (parse_url : Text → Option ParsedUrl) (s : NoteStore) (c : Call) (id : Text) (n : ℕ)
    → target_of c ≡ some (id, n)
    → All (λ r. matches s c r ≡ false) s.notes
    → perform parse_url s c ≡ err (missed_answer s c)
unfolding perform update_visible_note_with_kind soft_delete_visible_note mark_owned_note_reviewed
    replace_note_acl restore_owned_deleted_note
perform-missed parse_url s (creates k owner draft now via links) id n t a = absurd cc
perform-missed parse_url s (purges cutoff) id n t a = absurd cc
perform-missed parse_url s (updates who k expected draft links now) id n t a =
    rw (change_note-missed s k expected who edit (with_content draft now) a) refl
perform-missed parse_url s (reverts who k expected draft links now) id n t a =
    rw (change_note-missed s k expected who edit (with_content draft now) a) refl
perform-missed parse_url s (deletes who k expected now) id n t a =
    rw (change_note-missed s k expected who manage (with_deletion now) a) refl
perform-missed parse_url s (reviews who k expected now) id n t a =
    rw (change_note-missed s k expected who manage (with_review who now) a) refl
perform-missed parse_url s (shares who k entries expected now) id n t a =
    rw (change_note-missed s k expected who manage (with_new_acl now) a) refl
perform-missed parse_url s (restores who k expected now) id n t a =
    rw (update_notes-missed s _ (with_restoration now) a) refl

-- The answers that tell the caller that the change came too late or is none of theirs.
abbrev pub is_refusal : RestoreNoteError → Bool
is_refusal (store conflict) = true
is_refusal (store not_found) = true
is_refusal (store corrupt_data) = false
is_refusal (store database) = false
is_refusal retention_expired = true

classified :
    (s : NoteStore) (who : ℕ) (id : Text) (required : NoteAccess)
    → is_refusal (store (classify_failed_mutation s who id required)) ≡ true
unfolding classify_failed_mutation require_active_note_access
classified s who id required = by_test _
  where
    by_test : (b : Bool) → is_refusal (store (conflict_if_found (refuse_if b not_found))) ≡ true
    by_test true = refl
    by_test false = refl

classified_restore :
    (expected cutoff : ℕ) (id : Text) (who : ℕ) (notes : List NoteRow) (n : ℕ)
    → All (λ r. is_note id r ≡ true → n < r.revision) notes
    → is_refusal (classify_failed_restore expected cutoff (find_where (deleted_owned id who) notes))
      ≡ true
unfolding classify_failed_restore
classified_restore expected cutoff id who notes n v =
    by_row (find_where (deleted_owned id who) notes) (λ r e.
      find_where-All (λ r. is_note id r ≡ true → n < r.revision) _ notes r v e
        (ground (arith, find_where-test (deleted_owned id who) notes r e)))
  where
    by_row :
        (o : Option NoteRow)
        → ((r : NoteRow) → o ≡ some r → n < r.revision)
        → is_refusal (classify_failed_restore expected cutoff o) ≡ true
    by_row none h = refl
    by_row (some r) h = elim (Bool-cases (r.revision == 0)) [
      | inl e ↦ absurd (ground (arith, h r refl))
      | inr e ↦ elim (Bool-cases (r.revision == expected)) [
        | inr f ↦ rw (e, f) refl
        | inl f ↦ elim (Bool-cases (deleted_since cutoff r.deleted_at)) [
          | inl g ↦ rw (e, f, g) refl
          | inr g ↦ rw (e, f, g) refl
        ]
      ]
    ]

past_missed :
    (s : NoteStore) (c : Call) (id : Text) (n : ℕ)
    → target_of c ≡ some (id, n)
    → IsPast id n s
    → All (λ r. matches s c r ≡ false) s.notes × (is_refusal (missed_answer s c) ≡ true)
unfolding reached restorable
past_missed s (creates k owner draft now via links) id n t v = absurd cc
past_missed s (purges cutoff) id n t v = absurd cc
past_missed s (updates who k expected draft links now) id n t v =
    (All-mono _ _ (λ r h. ground (arith, h)) s.notes v, classified s who k edit)
past_missed s (reverts who k expected draft links now) id n t v =
    (All-mono _ _ (λ r h. ground (arith, h)) s.notes v, classified s who k edit)
past_missed s (deletes who k expected now) id n t v =
    (All-mono _ _ (λ r h. ground (arith, h)) s.notes v, classified s who k manage)
past_missed s (reviews who k expected now) id n t v =
    (All-mono _ _ (λ r h. ground (arith, h)) s.notes v, classified s who k manage)
past_missed s (shares who k entries expected now) id n t v =
    (All-mono _ _ (λ r h. ground (arith, h)) s.notes v, classified s who k manage)
past_missed s (restores who k expected now) id n t v = (
  All-mono _ _ (λ r h. ground (arith, h)) s.notes v,
  classified_restore expected (now - soft_delete_retention_ms) k who s.notes n
      (All-mono _ _ (λ r h q. ground (arith, h)) s.notes v),
)

-- In a store in which no two notes have the same id, as the primary key ensures: once a change of a note
-- that expected a revision has committed, every later change of the note that expects the same
-- revision is refused as a conflict, as not found or as expired, whatever transactions of the model
-- ran in between, as long as none of them makes a new note with the id.
pub change_refused_later :
    (parse_url : Text → Option ParsedUrl) (s s1 : NoteStore) (c : Call) (cs : List Call) (d : Call)
    (id : Text) (n : ℕ)
    → HasNoteKeys s
    → perform parse_url s c ≡ ok s1
    → target_of c ≡ some (id, n)
    → exists_where (makes id) cs ≡ false
    → target_of d ≡ some (id, n)
    → (x : RestoreNoteError) × (perform parse_url (run parse_url s1 cs) d ≡ err x)
      × (is_refusal x ≡ true)
change_refused_later parse_url s s1 c cs d id n v e t other u =
    let (_, past) =
      run-IsPast parse_url s1 cs id n other (change-IsPast parse_url s s1 c id n v e t) in
    let (missed, told) = past_missed (run parse_url s1 cs) d id n u past in
    (_, perform-missed parse_url (run parse_url s1 cs) d id n u missed, told)
