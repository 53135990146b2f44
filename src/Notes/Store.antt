-- ===== src/Notes/Store.antt =====
-- crates/marginalis-sqlite/src/schema.sql: the tables that hold notes, with the checks on a row, the view
-- `note_access`, and the conversions of a level of notes.rs. A column that a check
-- restricts to the words of an enumeration holds the enumeration.
use marginalis.Prelude.{
  ℕ, Bool, true, false, ◌&&◌, ◌||◌, List, Option, none, some, ltb, leb, ◌==◌, ◌^◌, Result, ok, err,
  if◌then◌else◌,
}
use marginalis.Text.{Text, ◌=t=◌}
use marginalis.Tables.{find_where, exists_where}
use marginalis.Principals.{StoreError, corrupt_data, IdentityRow}
use marginalis.Domain.Words.{
  NoteCreationSource, NoteRevisionKind, NotePermission, may_read, may_edit, NoteAccess, read, edit,
  manage,
}

pub record NoteRow : Type 0 where
  pub note_id : Text
  pub creator : ℕ
  pub title : Text
  pub source : Text
  pub tags : List Text
  pub created_at : ℕ
  pub updated_at : ℕ
  pub revision : ℕ
  pub deleted_at : Option ℕ
  pub created_via : NoteCreationSource
  pub review_tracking_known : ℕ
  pub reviewed_revision : Option ℕ
  pub reviewed_at : Option ℕ
  pub reviewer : Option ℕ

pub record AclRow : Type 0 where
  pub note_id : Text
  pub principal_id : ℕ
  pub permission : NotePermission

pub record RevisionRow : Type 0 where
  pub note_id : Text
  pub revision : ℕ
  pub changed_at : ℕ
  pub changed_by : ℕ
  pub change_kind : NoteRevisionKind
  pub title : Text
  pub source : Text
  pub tags : List Text
  pub deleted_at : Option ℕ
  pub review_tracking_known : ℕ
  pub reviewed_revision : Option ℕ
  pub reviewed_at : Option ℕ
  pub reviewer : Option ℕ

pub record LinkRow : Type 0 where
  pub source_note_id : Text
  pub target : Text

pub record AttachmentRow : Type 0 where
  pub attachment_id : Text
  pub note_id : Text

pub record RevisionAttachmentRow : Type 0 where
  pub note_id : Text
  pub revision : ℕ
  pub attachment_id : Text

-- `references` is `note_references` and `citations` is `note_citations`.
pub record NoteStore : Type 0 where
  pub principals : List ℕ
  pub identities : List IdentityRow
  pub notes : List NoteRow
  pub acl : List AclRow
  pub revisions : List RevisionRow
  pub references : List LinkRow
  pub citations : List LinkRow
  pub attachments : List AttachmentRow
  pub revision_attachments : List RevisionAttachmentRow

abbrev pub is_note : Text → NoteRow → Bool
is_note id r = r.note_id =t= id

abbrev pub is_revision : Text → ℕ → RevisionRow → Bool
is_revision id revision h = h.note_id =t= id && h.revision == revision

abbrev pub is_deleted : Option ℕ → Bool
is_deleted none = false
is_deleted (some t) = true

-- The check on the review of a note: all three columns are null, or a review by the owner is recorded
-- that lies within the note's revisions and times.
abbrev pub review_columns : NoteRow → Option ℕ → Option ℕ → Option ℕ → Bool
review_columns r none none none = true
review_columns r (some revision) (some at) (some by) =
    r.review_tracking_known == 1
    && leb 1 revision
    && leb revision r.revision
    && leb r.created_at at
    && leb at r.updated_at
    && by == r.creator
review_columns r _ _ _ = false

-- `REFERENCES principals (principal_id)`.
abbrev pub is_principal : List ℕ → ℕ → Bool
is_principal ids id = exists_where (λ p. p == id) ids

abbrev reviewer_known : List ℕ → Option ℕ → Bool
reviewer_known ids none = true
reviewer_known ids (some id) = is_principal ids id

-- The checks of `notes` on a row. A revision beyond the range of `INTEGER` is refused as well.
unfoldable pub row_allowed : List ℕ → NoteRow → Bool
row_allowed ids r =
    leb 1 r.revision
    && ltb r.revision (2 ^ 63)
    && leb r.review_tracking_known 1
    && review_columns r r.reviewed_revision r.reviewed_at r.reviewer
    && is_principal ids r.creator
    && reviewer_known ids r.reviewer

abbrev pub permission_level : NotePermission → ℕ
permission_level may_read = 1
permission_level may_edit = 2

-- `access_level`.
abbrev pub access_level : NoteAccess → ℕ
access_level read = 1
access_level edit = 2
access_level manage = 3

-- `access_from_level`.
unfoldable pub access_from_level : ℕ → Result StoreError NoteAccess
access_from_level n =
    if n == 1
    then ok read
    else if n == 2
    then ok edit
    else if n == 3
    then ok manage
    else err corrupt_data

abbrev pub owns : Text → ℕ → NoteRow → Bool
owns id principal r = r.note_id =t= id && r.creator == principal

abbrev pub shared_with : Text → ℕ → AclRow → Bool
shared_with id principal a = a.note_id =t= id && a.principal_id == principal

-- `EXISTS (SELECT 1 FROM note_access … WHERE access_level >= ?)`.
unfoldable pub has_access : NoteStore → Text → ℕ → ℕ → Bool
has_access s id principal level =
    exists_where (λ r. owns id principal r && leb level 3) s.notes
    || exists_where (λ a. shared_with id principal a && leb level (permission_level a.permission))
        s.acl

abbrev shared_level : Option AclRow → Option ℕ
shared_level none = none
shared_level (some a) = some (permission_level a.permission)

-- The first row of `note_access` for the note and the principal.
unfoldable pub level_of : NoteStore → Text → ℕ → Option ℕ
level_of s id principal =
    if exists_where (owns id principal) s.notes
    then some 3
    else shared_level (find_where (shared_with id principal) s.acl)
