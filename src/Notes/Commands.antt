-- ===== src/Notes/Commands.antt =====
-- crates/marginalis-application/src/notes/api.rs and content.rs: the data of the use cases that write notes,
-- and their ports: the validation of AsciiDoc, the resolution of citations and the list of a note's
-- attachments stand for the trait objects that the application is given.
use marginalis.Prelude.{ℕ, List, Option, Result, ok, err}
use marginalis.Text.{Text}
use marginalis.Principals.{StoreError, corrupt_data, database, not_found, conflict}
use marginalis.Domain.Identity.{ParsedUrl, PrincipalRef}
use marginalis.Domain.Notes.{NoteDraft}
use marginalis.Patch.Hunk.{NotePatchError}
use marginalis.Notes.Store.{NoteStore}
use marginalis.Notes.Mutations.{RestoreNoteError, store, retention_expired}

pub data NoteAdvisorySeverity : Type 0 where
  warning information hint : NoteAdvisorySeverity

-- `NoteValidationDiagnostic`, without the target, which is the source throughout this file.
pub record NoteValidationDiagnostic : Type 0 where
  pub code : Text
  pub span : Option (ℕ × ℕ)
  pub position : Option (ℕ × ℕ)
  pub message : Text

pub record NoteAdvisoryDiagnostic : Type 0 where
  pub code : Text
  pub severity : NoteAdvisorySeverity
  pub span : Option (ℕ × ℕ)
  pub position : Option (ℕ × ℕ)
  pub message : Text

pub data NoteWritePolicy : Type 0 where
  allow_advisories reject_warnings_policy : NoteWritePolicy

pub record NoteReferenceQuery : Type 0 where
  pub reference_index : ℕ
  pub target_note_id : Text
  pub anchor : Option Text

pub record NoteAttachmentQuery : Type 0 where
  pub attachment_index : ℕ
  pub attachment_id : Text
  pub span : ℕ × ℕ
  pub position : ℕ × ℕ

pub record NoteCitationQuery : Type 0 where
  pub citation_index : ℕ
  pub keys : List Text
  pub locator : Option Text
  pub span : ℕ × ℕ
  pub position : ℕ × ℕ

pub data CitationStyle : Type 0 where
  author_year numeric : CitationStyle

pub record ValidatedNoteDraft : Type 0 where
  pub draft : NoteDraft
  pub diagnostics : List NoteAdvisoryDiagnostic
  pub reference_queries : List NoteReferenceQuery
  pub citation_queries : List NoteCitationQuery
  pub attachment_queries : List NoteAttachmentQuery
  pub citation_style : CitationStyle

pub data NoteUseCaseError : Type 0 where
  note_not_found revision_conflict retention_over note_unavailable note_corrupt : NoteUseCaseError
  patch_rejected : NotePatchError → NoteUseCaseError
  validation : List NoteValidationDiagnostic → NoteUseCaseError
  advisories_rejected : List NoteAdvisoryDiagnostic → NoteUseCaseError

-- `From<SqliteStoreError> for StorageError` and `From<StorageError> for NoteUseCaseError`.
unfoldable pub use_case_error : StoreError → NoteUseCaseError
use_case_error not_found = note_not_found
use_case_error conflict = revision_conflict
use_case_error corrupt_data = note_corrupt
use_case_error database = note_unavailable

abbrev pub from_store {ℓ} : {A : Type ℓ} → Result StoreError A → Result NoteUseCaseError A
from_store (err x) = err (use_case_error x)
from_store (ok v) = ok v

abbrev restore_error : RestoreNoteError → NoteUseCaseError
restore_error (store x) = use_case_error x
restore_error retention_expired = retention_over

abbrev pub from_restore {ℓ} : {A : Type ℓ} → Result RestoreNoteError A → Result NoteUseCaseError A
from_restore (err x) = err (restore_error x)
from_restore (ok v) = ok v

abbrev pub or_invalid :
    Result (List NoteValidationDiagnostic) ValidatedNoteDraft
    → Result NoteUseCaseError ValidatedNoteDraft
or_invalid (err ds) = err (validation ds)
or_invalid (ok v) = ok v

-- The ports of the application: the parser of URLs, `NoteContent::validate_draft`, the diagnostics of
-- `citation_resolutions`, and the ids of `list_note_attachments`.
pub record Ports : Type 0 where
  pub parse_url : Text → Option ParsedUrl
  pub validate_draft : NoteDraft → Result (List NoteValidationDiagnostic) ValidatedNoteDraft
  pub citation_diagnostics :
      PrincipalRef
      → List NoteCitationQuery
      → CitationStyle
      → Result NoteUseCaseError (List NoteAdvisoryDiagnostic)
  pub note_attachments : NoteStore → ℕ → Text → Result StoreError (Option (List Text))
