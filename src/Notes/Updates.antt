-- ===== src/Notes/Updates.antt =====
-- crates/marginalis-sqlite/src/notes.rs, note_acl.rs and note_reviews.rs: the transactions that change a note
-- that is not deleted.
use marginalis.Prelude.{ℕ, not, ◌&&◌, List, [], ◌∷◌, Option, ◌==◌, Result, ok, ◌>>=◌, refuse_if}
use marginalis.Text.{Text, ◌=t=◌}
use marginalis.Tables.{delete_where, exists_where, insert_row}
use marginalis.Principals.{StoreError, database}
use marginalis.Domain.Identity.{ParsedUrl}
use marginalis.Domain.Words.{
  NoteRevisionKind, content_updated, acl_updated, reviewed, deleted, history_restored, edit, manage,
}
use marginalis.Domain.Notes.{Note, NoteDraft, NoteAclEntry}
use marginalis.Notes.Store.{AclRow, NoteStore, is_principal, owns}
use marginalis.Notes.Rows.{note_row, note_from_row}
use marginalis.Notes.History.{insert_note_revision, replace_note_revision_attachments}
use marginalis.Notes.Mutations.{
  NoteLinks, change_note, replace_link_rows, with_content, with_deletion, with_new_acl, with_review,
}

-- `update_visible_note_with_kind`.
unfoldable pub update_visible_note_with_kind :
    (Text → Option ParsedUrl)
    → NoteStore
    → ℕ
    → Text
    → ℕ
    → NoteDraft
    → NoteLinks
    → ℕ
    → NoteRevisionKind
    → Result StoreError (NoteStore × Note)
update_visible_note_with_kind parse_url s principal id expected draft links now kind = do
  updated ← change_note s id expected principal edit (with_content draft now)
  row ← note_row updated id
  note ← note_from_row parse_url row
  recorded ← insert_note_revision (replace_link_rows updated id links) id principal kind
  attached ← replace_note_revision_attachments recorded id links.attachment_ids
  ok (attached, note)

-- `update_visible_note` and `restore_visible_note_revision`.
abbrev pub update_visible_note :
    (Text → Option ParsedUrl)
    → NoteStore
    → ℕ
    → Text
    → ℕ
    → NoteDraft
    → NoteLinks
    → ℕ
    → Result StoreError (NoteStore × Note)
update_visible_note parse_url s principal id expected draft links now =
    update_visible_note_with_kind parse_url s principal id expected draft links now content_updated

abbrev pub restore_visible_note_revision :
    (Text → Option ParsedUrl)
    → NoteStore
    → ℕ
    → Text
    → ℕ
    → NoteDraft
    → NoteLinks
    → ℕ
    → Result StoreError (NoteStore × Note)
restore_visible_note_revision parse_url s principal id expected draft links now =
    update_visible_note_with_kind parse_url s principal id expected draft links now history_restored

-- The end of the other changes: the note is read back and its revision recorded.
unfoldable pub record_change :
    (Text → Option ParsedUrl)
    → NoteStore
    → ℕ
    → Text
    → NoteRevisionKind
    → Result StoreError (NoteStore × Note)
record_change parse_url updated principal id kind = do
  row ← note_row updated id
  note ← note_from_row parse_url row
  recorded ← insert_note_revision updated id principal kind
  ok (recorded, note)

-- `soft_delete_visible_note`.
unfoldable pub soft_delete_visible_note :
    (Text → Option ParsedUrl) → NoteStore → ℕ → Text → ℕ → ℕ → Result StoreError (NoteStore × Note)
soft_delete_visible_note parse_url s principal id expected now = do
  updated ← change_note s id expected principal manage (with_deletion now)
  record_change parse_url updated principal id deleted

-- `mark_owned_note_reviewed`.
unfoldable pub mark_owned_note_reviewed :
    (Text → Option ParsedUrl) → NoteStore → ℕ → Text → ℕ → ℕ → Result StoreError (NoteStore × Note)
mark_owned_note_reviewed parse_url s principal id expected now = do
  updated ← change_note s id expected principal manage (with_review principal now)
  record_change parse_url updated principal id reviewed

-- One `INSERT INTO note_acl`: the trigger refuses the owner, and the key a principal named twice.
unfoldable pub insert_acl :
    NoteStore → Text → NoteAclEntry → List AclRow → Result StoreError (List AclRow)
insert_acl s id e table = do
  _ ← refuse_if (exists_where (owns id e.principal.id) s.notes) database
  _ ← refuse_if (not (is_principal s.principals e.principal.id)) database
  insert_row database (λ a. a.note_id =t= id && a.principal_id == e.principal.id)
      (record { note_id = id; principal_id = e.principal.id; permission = e.permission }) table

abbrev pub insert_entries :
    NoteStore → Text → List NoteAclEntry → List AclRow → Result StoreError (List AclRow)
insert_entries s id [] table = ok table
insert_entries s id (e ∷ entries) table = insert_acl s id e table >>= insert_entries s id entries

-- `replace_note_acl`.
unfoldable pub replace_note_acl :
    (Text → Option ParsedUrl)
    → NoteStore
    → ℕ
    → Text
    → List NoteAclEntry
    → ℕ
    → ℕ
    → Result StoreError (NoteStore × Note)
replace_note_acl parse_url s principal id entries expected now = do
  updated ← change_note s id expected principal manage (with_new_acl now)
  acl ← insert_entries updated id entries (delete_where (λ a. a.note_id =t= id) updated.acl)
  record_change parse_url (record updated { acl = acl }) principal id acl_updated
