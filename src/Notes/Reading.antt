-- ===== src/Notes/Reading.antt =====
-- crates/marginalis-sqlite/src/notes.rs: the queries for a note that a principal reaches and for the lists
-- of notes.
use marginalis.Prelude.{
  ℕ, Bool, true, false, not, ◌&&◌, ◌||◌, List, [], ◌∷◌, Option, none, some, ltb, ◌==◌, Result, ok,
  ◌>>=◌, if◌then◌else◌,
}
use marginalis.Text.{Text, ◌=t=◌}
use marginalis.Text.Order.{text_before}
use marginalis.Tables.{find_where, select_where}
use marginalis.Principals.{StoreError, corrupt}
use marginalis.Domain.Identity.{ParsedUrl}
use marginalis.Domain.Words.{
  NoteAccess, NoteCreationSource, NoteReviewStatus, unknown_status, pending_status, reviewed_status,
  creation_source_text,
}
use marginalis.Domain.Notes.{Note, new_revision}
use marginalis.Notes.Store.{NoteRow, NoteStore, is_note, is_deleted, access_from_level, level_of}
use marginalis.Notes.Rows.{DetailsRow, details, note_from_row, listed_status, optional_revision}

pub record AccessibleNote : Type 0 where
  pub note : Note
  pub access : NoteAccess

abbrev pub accessible_row :
    (Text → Option ParsedUrl)
    → Option DetailsRow
    → Option ℕ
    → Result StoreError (Option AccessibleNote)
accessible_row parse_url none level = ok none
accessible_row parse_url (some d) none = ok none
accessible_row parse_url (some d) (some level) = do
  access ← access_from_level level
  note ← note_from_row parse_url d
  ok (some (record { note = note; access = access }))

abbrev pub accessible_details :
    (Text → Option ParsedUrl)
    → NoteStore
    → ℕ
    → Option NoteRow
    → Result StoreError (Option AccessibleNote)
accessible_details parse_url s principal none = ok none
accessible_details parse_url s principal (some r) =
    accessible_row parse_url (details s r) (level_of s r.note_id principal)

-- `accessible_note`.
unfoldable pub accessible_note :
    (Text → Option ParsedUrl) → NoteStore → ℕ → Text → Result StoreError (Option AccessibleNote)
accessible_note parse_url s principal id =
    accessible_details parse_url s principal
      (find_where (λ r. is_note id r && not (is_deleted r.deleted_at)) s.notes)

pub record NoteListQuery : Type 0 where
  pub created_via : Option NoteCreationSource
  pub review_status : Option NoteReviewStatus

pub record NoteSummary : Type 0 where
  pub note_id : Text
  pub title : Text
  pub tags : List Text
  pub updated_at : ℕ
  pub revision : ℕ
  pub created_via : NoteCreationSource
  pub review_status : NoteReviewStatus
  pub reviewed_revision : Option ℕ
  pub reviewed_at : Option ℕ

pub record NoteListEntry : Type 0 where
  pub summary : NoteSummary
  pub access : NoteAccess

abbrev wanted_source : Option NoteCreationSource → NoteCreationSource → Bool
wanted_source none via = true
wanted_source (some wanted) via = creation_source_text via =t= creation_source_text wanted

abbrev reviewed_at_all : Option ℕ → ℕ → Bool
reviewed_at_all none revision = false
reviewed_at_all (some reviewed) revision = reviewed == revision

-- The condition on the status of the review, on the columns.
unfoldable pub wanted_status : Option NoteReviewStatus → NoteRow → Bool
wanted_status none r = true
wanted_status (some unknown_status) r = r.review_tracking_known == 0
wanted_status (some pending_status) r =
    r.review_tracking_known == 1 && not (reviewed_at_all r.reviewed_revision r.revision)
wanted_status (some reviewed_status) r =
    r.review_tracking_known == 1 && reviewed_at_all r.reviewed_revision r.revision

-- `note_summary_from_row`.
unfoldable pub note_summary_from_row : NoteRow → Result StoreError NoteSummary
note_summary_from_row r = do
  revision ← corrupt (new_revision r.revision)
  reviewed ← optional_revision r.reviewed_revision
  status ← listed_status r.review_tracking_known reviewed revision
  ok (record {
    note_id = r.note_id;
    title = r.title;
    tags = r.tags;
    updated_at = r.updated_at;
    revision = revision;
    created_via = r.created_via;
    review_status = status;
    reviewed_revision = reviewed;
    reviewed_at = r.reviewed_at;
  })

-- Newest first, and by id among notes of one instant.
abbrev insert_recent : NoteRow → List NoteRow → List NoteRow
insert_recent r [] = r ∷ []
insert_recent r (x ∷ xs) =
    let rest = insert_recent r xs in
    if ltb x.updated_at r.updated_at
      || (x.updated_at == r.updated_at && text_before r.note_id x.note_id)
    then r ∷ x ∷ xs
    else x ∷ rest

unfoldable pub sort_recent : List NoteRow → List NoteRow
sort_recent [] = []
sort_recent (r ∷ rs) = insert_recent r (sort_recent rs)

-- The rows of a list with the levels that the join finds, one after the other.
abbrev listed : NoteStore → ℕ → List NoteRow → Result StoreError (List NoteListEntry)
listed s principal [] = ok []
listed s principal (r ∷ rs) = elim (level_of s r.note_id principal) [
  | none ↦ listed s principal rs
  | some level ↦ do
    access ← access_from_level level
    summary ← note_summary_from_row r
    rest ← listed s principal rs
    ok (record { summary = summary; access = access } ∷ rest)
]

-- `list_visible_notes`.
unfoldable pub list_visible_notes :
    NoteStore → ℕ → NoteListQuery → Result StoreError (List NoteListEntry)
list_visible_notes s principal query = listed s principal (
    sort_recent (
      select_where
        (λ r.
          not (is_deleted r.deleted_at)
          && wanted_source query.created_via r.created_via
          && wanted_status query.review_status r)
        s.notes))
