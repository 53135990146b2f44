-- ===== src/Domain/Notes.antt =====
-- crates/marginalis-domain/src/model/note.rs and model.rs: a note, the record of its review, and the
-- checks under which a stored note is restored. Instants are milliseconds from the epoch on.
use marginalis.Prelude.{
  ℕ, Bool, false, ◌||◌, not, List, Option, none, some, ltb, leb, ◌==◌, Result, ok, err,
  if◌then◌else◌, ◌*◌,
}
use marginalis.Text.{Text}
use marginalis.Domain.Identity.{PrincipalRef}
use marginalis.Domain.Words.{
  NoteCreationSource, NotePermission, NoteReviewStatus, unknown_status, pending_status,
  reviewed_status,
}

pub data InvalidRevision : Type 0 where
  invalid_revision : InvalidRevision

-- `Revision::new`.
unfoldable pub new_revision : ℕ → Result InvalidRevision ℕ
new_revision value = if leb 1 value then ok value else err invalid_revision

abbrev pub initial_revision : ℕ
initial_revision = 1

abbrev pub soft_delete_retention_ms : ℕ
soft_delete_retention_ms = 30 * 24 * 60 * 60 * 1000

pub record NoteReviewRecord : Type 0 where
  pub revision : ℕ
  pub reviewed_at : ℕ
  pub reviewer : PrincipalRef

pub data NoteReviewTracking : Type 0 where
  untracked : NoteReviewTracking
  tracked : Option NoteReviewRecord → NoteReviewTracking

-- `NoteReviewTracking::status`.
unfoldable pub status : NoteReviewTracking → ℕ → NoteReviewStatus
status untracked current_revision = unknown_status
status (tracked none) current_revision = pending_status
status (tracked (some review)) current_revision =
    if review.revision == current_revision then reviewed_status else pending_status

abbrev pub last_review : NoteReviewTracking → Option NoteReviewRecord
last_review untracked = none
last_review (tracked review) = review

pub record NoteDraft : Type 0 where
  pub source : Text
  pub title : Text
  pub tags : List Text

-- `Note`, and `NoteRestore`, whose draft stands for the title, the source and the tags.
pub record Note : Type 0 where
  pub note_id : Text
  pub owner : PrincipalRef
  pub draft : NoteDraft
  pub created_at : ℕ
  pub updated_at : ℕ
  pub revision : ℕ
  pub deleted_at : Option ℕ
  pub created_via : NoteCreationSource
  pub review : NoteReviewTracking

pub data InvalidNote : Type 0 where
  invalid_note : InvalidNote

-- `Note::create`.
unfoldable pub create : Text → PrincipalRef → NoteDraft → ℕ → NoteCreationSource → Note
create note_id owner draft created_at created_via = record {
  note_id = note_id;
  owner = owner;
  draft = draft;
  created_at = created_at;
  updated_at = created_at;
  revision = initial_revision;
  deleted_at = none;
  created_via = created_via;
  review = tracked none;
}

abbrev pub deleted_outside : Note → Option ℕ → Bool
deleted_outside n none = false
deleted_outside n (some t) = ltb t n.created_at || ltb n.updated_at t

abbrev pub review_outside : Note → Option NoteReviewRecord → Bool
review_outside n none = false
review_outside n (some r) =
    ltb n.revision r.revision
    || ltb r.reviewed_at n.created_at
    || ltb n.updated_at r.reviewed_at
    || not (r.reviewer.id == n.owner.id)

-- `Note::restore`.
unfoldable pub restore : Note → Result InvalidNote Note
restore n =
    if ltb n.updated_at n.created_at
      || deleted_outside n n.deleted_at
      || review_outside n (last_review n.review)
    then err invalid_note
    else ok n

-- `Note::review_status`.
unfoldable pub review_status : Note → NoteReviewStatus
review_status n = status n.review n.revision

pub record NoteAclEntry : Type 0 where
  pub principal : PrincipalRef
  pub permission : NotePermission
