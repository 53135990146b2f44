-- ===== src/Notes/Rows.antt =====
-- crates/marginalis-sqlite/src/notes.rs: a note restored from its row in the view `note_details`, and the
-- status of a review as a list shows it.
use marginalis.Prelude.{
  ℕ, zero, suc, Bool, ◌&&◌, Option, none, some, ltb, ◌==◌, Result, ok, err, ◌>>=◌, ok_or,
  if◌then◌else◌,
}
use marginalis.Text.{Text}
use marginalis.Tables.{find_where}
use marginalis.Principals.{StoreError, corrupt_data, database, IdentityRow, corrupt}
use marginalis.Domain.Identity.{ParsedUrl, Identity, new_identity, new_principal_id}
use marginalis.Domain.Words.{NoteReviewStatus, unknown_status, pending_status, reviewed_status}
use marginalis.Domain.Notes.{Note, NoteReviewTracking, untracked, tracked, new_revision, restore}
use marginalis.Notes.Store.{NoteRow, NoteStore, is_note}

-- The columns that `note_details` joins from the primary identities of the owner and the reviewer.
pub record DetailsRow : Type 0 where
  pub note : NoteRow
  pub creator_identity : Identity
  pub reviewer_identity : Option Identity

abbrev pub primary_of : ℕ → IdentityRow → Bool
primary_of principal i = i.principal_id == principal && i.is_primary

abbrev identity_of : Option IdentityRow → Option Identity
identity_of none = none
identity_of (some i) = some i.identity

abbrev joined_identity : NoteStore → Option ℕ → Option Identity
joined_identity s none = none
joined_identity s (some principal) = identity_of (find_where (primary_of principal) s.identities)

-- The view, at a row of `notes`.
unfoldable pub details : NoteStore → NoteRow → Option DetailsRow
details s r = elim (find_where (primary_of r.creator) s.identities) [
  | none ↦ none
  | some owner ↦ some (record {
    note = r;
    creator_identity = owner.identity;
    reviewer_identity = joined_identity s r.reviewer;
  })
]

-- `note_row`: `fetch_one` on the view.
unfoldable pub note_row : NoteStore → Text → Result StoreError DetailsRow
note_row s id = do
  r ← ok_or (find_where (is_note id) s.notes) database
  ok_or (details s r) database

abbrev pub optional_revision : Option ℕ → Result StoreError (Option ℕ)
optional_revision none = ok none
optional_revision (some v) = corrupt (new_revision v) >>= λ r. ok (some r)

abbrev pub optional_principal : Option ℕ → Result StoreError (Option ℕ)
optional_principal none = ok none
optional_principal (some v) = corrupt (new_principal_id v) >>= λ p. ok (some p)

-- The columns of a review, taken together.
unfoldable pub review_of_columns :
    (Text → Option ParsedUrl)
    → ℕ
    → Option ℕ
    → Option ℕ
    → Option Identity
    → Option ℕ
    → Result StoreError NoteReviewTracking
review_of_columns parse_url zero none none none none = ok untracked
review_of_columns parse_url (suc zero) none none none none = ok (tracked none)
review_of_columns parse_url (suc zero) (some revision) (some at) (some identity) (some id) = do
  reviewer ← corrupt (new_identity parse_url identity.issuer identity.subject)
  ok (
      tracked (
        some (record {
          revision = revision;
          reviewed_at = at;
          reviewer = record { id = id; primary_identity = reviewer };
        })))
review_of_columns parse_url _ _ _ _ _ = err corrupt_data

-- `note_from_row`.
unfoldable pub note_from_row : (Text → Option ParsedUrl) → DetailsRow → Result StoreError Note
note_from_row parse_url d = do
  identity ← corrupt (new_identity parse_url d.creator_identity.issuer d.creator_identity.subject)
  owner ← corrupt (new_principal_id d.note.creator)
  reviewed ← optional_revision d.note.reviewed_revision
  reviewer ← optional_principal d.note.reviewer
  review ←
      review_of_columns parse_url d.note.review_tracking_known reviewed d.note.reviewed_at
        d.reviewer_identity reviewer
  revision ← corrupt (new_revision d.note.revision)
  corrupt (
      restore (record {
        note_id = d.note.note_id;
        owner = record { id = owner; primary_identity = identity };
        draft = record { source = d.note.source; title = d.note.title; tags = d.note.tags };
        created_at = d.note.created_at;
        updated_at = d.note.updated_at;
        revision = revision;
        deleted_at = d.note.deleted_at;
        created_via = d.note.created_via;
        review = review;
      }))

-- `review_status`.
unfoldable pub listed_status : ℕ → Option ℕ → ℕ → Result StoreError NoteReviewStatus
listed_status zero none current = ok unknown_status
listed_status (suc zero) none current = ok pending_status
listed_status (suc zero) (some reviewed) current =
    if reviewed == current
    then ok reviewed_status
    else if ltb reviewed current
    then ok pending_status
    else err corrupt_data
listed_status _ _ _ = err corrupt_data
