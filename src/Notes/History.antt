-- ===== src/Notes/History.antt =====
-- crates/marginalis-sqlite/src/note_history.rs: the revision that every change of a note appends, with
-- the attachments that it refers to.
use marginalis.Prelude.{
  ℕ, suc, Bool, true, false, not, ◌&&◌, List, [], ◌∷◌, Option, none, some, leb, ◌==◌, map, Result,
  ok, ◌>>=◌, ok_or, refuse_if,
}
use marginalis.Text.{Text, ◌=t=◌}
use marginalis.Tables.{find_where, select_where, delete_where, exists_where, insert_row}
use marginalis.Principals.{StoreError, corrupt_data, database}
use marginalis.Domain.Words.{NoteRevisionKind}
use marginalis.Notes.Store.{
  NoteRow, RevisionRow, AttachmentRow, RevisionAttachmentRow, NoteStore, is_note, is_revision,
  is_principal,
}

-- The row that `INSERT … SELECT … FROM notes` copies.
abbrev pub snapshot_of : NoteRow → ℕ → NoteRevisionKind → RevisionRow
snapshot_of r changed_by kind = record {
  note_id = r.note_id;
  revision = r.revision;
  changed_at = r.updated_at;
  changed_by = changed_by;
  change_kind = kind;
  title = r.title;
  source = r.source;
  tags = r.tags;
  deleted_at = r.deleted_at;
  review_tracking_known = r.review_tracking_known;
  reviewed_revision = r.reviewed_revision;
  reviewed_at = r.reviewed_at;
  reviewer = r.reviewer;
}

abbrev snapshot_review : RevisionRow → Option ℕ → Option ℕ → Option ℕ → Bool
snapshot_review h none none none = true
snapshot_review h (some revision) (some at) (some by) =
    h.review_tracking_known == 1 && leb 1 revision && leb revision h.revision && leb at h.changed_at
snapshot_review h _ _ _ = false

-- The checks of `note_revisions`, and its references to principals.
unfoldable pub snapshot_allowed : List ℕ → RevisionRow → Bool
snapshot_allowed ids h =
    leb 1 h.revision
    && leb h.review_tracking_known 1
    && snapshot_review h h.reviewed_revision h.reviewed_at h.reviewer
    && is_principal ids h.changed_by

abbrev same_attachment : RevisionAttachmentRow → RevisionAttachmentRow → Bool
same_attachment a b =
    b.note_id =t= a.note_id && b.revision == a.revision && b.attachment_id =t= a.attachment_id

-- Rows inserted one after the other under the primary key.
abbrev pub insert_attachments :
    List RevisionAttachmentRow
    → List RevisionAttachmentRow
    → Result StoreError (List RevisionAttachmentRow)
insert_attachments [] table = ok table
insert_attachments (a ∷ rows) table =
    insert_row database (same_attachment a) a table >>= insert_attachments rows

-- The attachments of the revision before, for the current one.
abbrev pub carried_over : Text → ℕ → List RevisionAttachmentRow → List RevisionAttachmentRow
carried_over id revision table =
    map {A = RevisionAttachmentRow} (λ a. record a { revision = revision })
      (select_where (λ a. a.note_id =t= id && suc a.revision == revision) table)

-- `insert_note_revision`.
unfoldable pub insert_note_revision :
    NoteStore → Text → ℕ → NoteRevisionKind → Result StoreError NoteStore
insert_note_revision s id changed_by kind = do
  r ← ok_or (find_where (is_note id) s.notes) corrupt_data
  _ ← refuse_if (not (snapshot_allowed s.principals (snapshot_of r changed_by kind))) database
  history ←
      insert_row database (is_revision r.note_id r.revision) (snapshot_of r changed_by kind)
        s.revisions
  attached ←
      insert_attachments (carried_over id r.revision s.revision_attachments) s.revision_attachments
  ok (record s { revisions = history; revision_attachments = attached })

-- The loop of `replace_note_revision_attachments`: each id has to be an attachment of the note.
abbrev pub attach_each :
    List AttachmentRow
    → Text
    → ℕ
    → List Text
    → List RevisionAttachmentRow
    → Result StoreError (List RevisionAttachmentRow)
attach_each attachments id revision [] table = ok table
attach_each attachments id revision (a ∷ ids) table = do
  _ ←
      refuse_if (not (exists_where (λ x. x.note_id =t= id && x.attachment_id =t= a) attachments))
        corrupt_data
  rest ←
      let row : RevisionAttachmentRow = record {
        note_id = id;
        revision = revision;
        attachment_id = a;
      } in
      insert_row database (same_attachment row) row table
  attach_each attachments id revision ids rest

-- `replace_note_revision_attachments`.
unfoldable pub replace_note_revision_attachments :
    NoteStore → Text → List Text → Result StoreError NoteStore
replace_note_revision_attachments s id attachment_ids = do
  r ← ok_or (find_where (is_note id) s.notes) corrupt_data
  attached ←
      attach_each s.attachments id r.revision attachment_ids
        (delete_where (λ a. a.note_id =t= id && a.revision == r.revision) s.revision_attachments)
  ok (record s { revision_attachments = attached })
