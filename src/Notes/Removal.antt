-- ===== src/Notes/Removal.antt =====
-- crates/marginalis-sqlite/src/notes.rs: the restoration of a deleted note, and the removal of notes whose
-- time has passed.
use marginalis.Prelude.{
  ℕ, ◌-◌, Bool, false, not, ◌&&◌, List, Option, none, some, leb, ◌==◌, Result, ok, err, ◌>>=◌,
  refuse_if, if◌then◌else◌, ◌≡◌, arith, >>=-eq-ok,
}
use marginalis.Text.{Text, ◌=t=◌}
use marginalis.Tables.{find_where, delete_where, exists_where, count_where, select_where}
use marginalis.Principals.{StoreError, not_found, conflict, corrupt_data, database}
use marginalis.Domain.Identity.{ParsedUrl}
use marginalis.Domain.Words.{restored}
use marginalis.Domain.Notes.{Note, soft_delete_retention_ms}
use marginalis.Notes.Store.{
  NoteRow, NoteStore, AttachmentRow, RevisionAttachmentRow, is_note, is_deleted,
}
use marginalis.Notes.Mutations.{
  RestoreNoteError, retention_expired, store, update_notes, with_restoration,
}
use marginalis.Notes.Updates.{record_change}

-- `deleted_at_ms >= ?`, false where the column is null.
abbrev pub deleted_since : ℕ → Option ℕ → Bool
deleted_since cutoff none = false
deleted_since cutoff (some t) = leb cutoff t

abbrev pub deleted_owned : Text → ℕ → NoteRow → Bool
deleted_owned id principal r = is_note id r && is_deleted r.deleted_at && r.creator == principal

-- `classify_failed_restore`, from the row that its query finds.
unfoldable pub classify_failed_restore : ℕ → ℕ → Option NoteRow → RestoreNoteError
classify_failed_restore expected cutoff none = store not_found
classify_failed_restore expected cutoff (some r) =
    if r.revision == 0
    then store corrupt_data
    else if not (r.revision == expected)
    then store conflict
    else if not (deleted_since cutoff r.deleted_at)
    then retention_expired
    else store conflict

abbrev pub stored {ℓ} : {A : Type ℓ} → Result StoreError A → Result RestoreNoteError A
stored (err x) = err (store x)
stored (ok v) = ok v

-- The `WHERE` of the restoration.
unfoldable pub restorable : Text → ℕ → ℕ → ℕ → NoteRow → Bool
restorable id expected cutoff principal r =
    is_note id r
    && r.revision == expected
    && deleted_since cutoff r.deleted_at
    && r.creator == principal

-- `restore_owned_deleted_note`. The cutoff lies before the epoch where the subtraction would.
unfoldable pub restore_owned_deleted_note :
    (Text → Option ParsedUrl)
    → NoteStore
    → ℕ
    → Text
    → ℕ
    → ℕ
    → Result RestoreNoteError (NoteStore × Note)
restore_owned_deleted_note parse_url s principal id expected now =
    let cutoff = now - soft_delete_retention_ms in
    do
      (updated, rows) ←
          stored (update_notes s (restorable id expected cutoff principal) (with_restoration now))
      _ ← refuse_if (not (rows == 1)) (
          classify_failed_restore expected cutoff
            (find_where (deleted_owned id principal) updated.notes))
      stored (record_change parse_url updated principal id restored)

-- The note is gone, with the rows that its deletion takes along.
abbrev pub purged : ℕ → NoteRow → Bool
purged cutoff r = is_deleted r.deleted_at && not (deleted_since cutoff r.deleted_at)

abbrev pub keeps_note : (NoteRow → Bool) → List NoteRow → Text → Bool
keeps_note gone notes id = not (exists_where (λ r. is_note id r && gone r) notes)

-- The tables without the notes, after `ON DELETE CASCADE`.
unfoldable pub without_purged : NoteStore → ℕ → NoteStore
without_purged s cutoff =
    let keeps = keeps_note (purged cutoff) s.notes in
    record s {
      notes = delete_where (purged cutoff) s.notes;
      acl = select_where (λ a. keeps a.note_id) s.acl;
      revisions = select_where (λ h. keeps h.note_id) s.revisions;
      references = select_where (λ l. keeps l.source_note_id) s.references;
      citations = select_where (λ l. keeps l.source_note_id) s.citations;
      attachments = select_where (λ a. keeps a.note_id) s.attachments;
      revision_attachments = select_where (λ a. keeps a.note_id) s.revision_attachments;
    }

-- A revision shows the attachment: `ON DELETE RESTRICT` keeps its row, and with it the note's.
abbrev is_shown : List RevisionAttachmentRow → AttachmentRow → Bool
is_shown shown x =
    exists_where (λ a. a.note_id =t= x.note_id && a.attachment_id =t= x.attachment_id) shown

-- An attachment that a revision shows goes with a note that is to be removed.
abbrev restricted : NoteStore → ℕ → Bool
restricted s cutoff =
    exists_where
      (λ x. not (keeps_note (purged cutoff) s.notes x.note_id) && is_shown s.revision_attachments x)
      s.attachments

-- `purge_deleted_before`, with `rows_affected`. The statement fails as a whole.
unfoldable pub purge_deleted_before : NoteStore → ℕ → Result StoreError (NoteStore × ℕ)
purge_deleted_before s cutoff = do
  _ ← refuse_if (restricted s cutoff) database
  ok (without_purged s cutoff, count_where (purged cutoff) s.notes)

pub purge_deleted_before-ok :
    (s : NoteStore) (cutoff : ℕ) (s' : NoteStore) (n : ℕ)
    → purge_deleted_before s cutoff ≡ ok (s', n)
    → without_purged s cutoff ≡ s'
unfolding purge_deleted_before
purge_deleted_before-ok s cutoff s' n e =
    let (_, _, e1) = >>=-eq-ok (refuse_if (restricted s cutoff) database) _ e in ground arith
