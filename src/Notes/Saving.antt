-- ===== src/Notes/Saving.antt =====
-- crates/marginalis-application/src/notes/commands.rs: the use cases that write notes. Other transactions may
-- run between two calls of the repository, so each call is given the store that it finds.
use marginalis.Prelude.{
  ℕ, Bool, true, false, ◌||◌, List, [], ◌∷◌, ◌++◌, Option, none, some, map, Result, ok, err, ◌>>=◌,
  ok_or, refuse_if, if◌then◌else◌,
}
use marginalis.Text.{Text, codes, ◌=t=◌}
use marginalis.Text.Order.{sort_texts, dedup}
use marginalis.Principals.{StoreError}
use marginalis.Domain.Identity.{PrincipalRef, Actor}
use marginalis.Domain.Words.{NoteCreationSource}
use marginalis.Domain.Notes.{Note, NoteDraft, create}
use marginalis.Patch.Hunk.{NotePatchError, NotePatchOutcome}
use marginalis.Notes.Store.{NoteStore}
use marginalis.Notes.Mutations.{NoteLinks, create_note}
use marginalis.Notes.Updates.{update_visible_note, soft_delete_visible_note}
use marginalis.Notes.Removal.{restore_owned_deleted_note}
use marginalis.Notes.Reading.{AccessibleNote, accessible_note}
use marginalis.Notes.Commands.{
  CitationStyle, NoteAdvisoryDiagnostic, NoteAdvisorySeverity, NoteAttachmentQuery,
  NoteCitationQuery, NoteReferenceQuery, NoteUseCaseError, NoteValidationDiagnostic,
  NoteWritePolicy, Ports, ValidatedNoteDraft, advisories_rejected, allow_advisories, from_restore,
  from_store, hint, information, note_not_found, or_invalid, patch_rejected, reject_warnings_policy,
  validation, warning,
}

abbrev is_warning : NoteAdvisorySeverity → Bool
is_warning warning = true
is_warning information = false
is_warning hint = false

abbrev any_warning : List NoteAdvisoryDiagnostic → Bool
any_warning [] = false
any_warning (d ∷ ds) = is_warning d.severity || any_warning ds

-- `reject_warnings`.
unfoldable pub reject_warnings :
    NoteWritePolicy → List NoteAdvisoryDiagnostic → Result NoteUseCaseError (Unit {0})
reject_warnings allow_advisories ds = ok tt
reject_warnings reject_warnings_policy ds = refuse_if (any_warning ds) (advisories_rejected ds)

abbrev any_text : Text → List Text → Bool
any_text s [] = false
any_text s (t ∷ ts) = t =t= s || any_text s ts

-- A `HashSet` of ids, in the order of their last appearance; the order does not reach the tables' content.
unfoldable pub reference_targets : List NoteReferenceQuery → List Text
reference_targets [] = []
reference_targets (q ∷ qs) =
    let rest = reference_targets qs in
    if any_text q.target_note_id rest then rest else q.target_note_id ∷ rest

abbrev all_keys : List NoteCitationQuery → List Text
all_keys [] = []
all_keys (q ∷ qs) = q.keys ++ all_keys qs

-- `cited_keys`.
unfoldable pub cited_keys : List NoteCitationQuery → List Text
cited_keys queries = dedup (sort_texts (all_keys queries))

-- `attachment_ids`.
unfoldable pub attachment_ids : List NoteAttachmentQuery → List Text
attachment_ids queries = dedup (sort_texts (map (λ q. q.attachment_id) queries))

abbrev pub links_of : ValidatedNoteDraft → NoteLinks
links_of v = record {
  reference_targets = reference_targets v.reference_queries;
  cited_keys = cited_keys v.citation_queries;
  attachment_ids = attachment_ids v.attachment_queries;
}

abbrev attachment_diagnostic : Text → NoteAttachmentQuery → NoteValidationDiagnostic
attachment_diagnostic message q = record {
  code = codes "invalid_attachment_reference";
  span = some q.span;
  position = some q.position;
  message = message;
}

abbrev missing_attachments : List Text → List NoteAttachmentQuery → List NoteValidationDiagnostic
missing_attachments stored [] = []
missing_attachments stored (q ∷ qs) =
    let rest = missing_attachments stored qs in
    if any_text q.attachment_id stored
    then rest
    else attachment_diagnostic (codes "attachment reference must name an image stored by this note")
        q
      ∷ rest

abbrev refuse_missing : List NoteValidationDiagnostic → Result NoteUseCaseError (Unit {0})
refuse_missing [] = ok tt
refuse_missing (d ∷ ds) = err (validation (d ∷ ds))

-- `validate_note_attachment_references`.
unfoldable pub validate_attachments :
    Ports → NoteStore → ℕ → Text → List NoteAttachmentQuery → Result NoteUseCaseError (Unit {0})
validate_attachments ports s principal id [] = ok tt
validate_attachments ports s principal id (q ∷ qs) = do
  listed ← from_store (ports.note_attachments s principal id)
  stored ← ok_or listed note_not_found
  refuse_missing (missing_attachments stored (q ∷ qs))

-- `read_visible_note`.
unfoldable pub read_visible_note :
    Ports → NoteStore → ℕ → Text → Result NoteUseCaseError AccessibleNote
read_visible_note ports s principal id = do
  found ← from_store (accessible_note ports.parse_url s principal id)
  ok_or found note_not_found

abbrev refuse_attachments : List NoteAttachmentQuery → Result NoteUseCaseError (Unit {0})
refuse_attachments [] = ok tt
refuse_attachments (q ∷ qs) = err (
    validation (
      map (attachment_diagnostic (codes "attachments can be added after the note is created"))
        (q ∷ qs)))

-- `NoteApplication::create_note`; the id is the random UUID.
unfoldable pub create_note_command :
    Ports
    → NoteStore
    → Actor
    → NoteDraft
    → NoteWritePolicy
    → NoteCreationSource
    → Text
    → ℕ
    → Result NoteUseCaseError (NoteStore × Note)
create_note_command ports s actor draft policy via id now = do
  v ← or_invalid (ports.validate_draft draft)
  _ ← refuse_attachments v.attachment_queries
  cited ← ports.citation_diagnostics actor.principal v.citation_queries v.citation_style
  _ ← reject_warnings policy (v.diagnostics ++ cited)
  saved ← from_store (create_note s (create id actor.principal v.draft now via) (links_of v))
  ok (saved, create id actor.principal v.draft now via)

-- The diagnostics of the citations, resolved for the note's owner, if there are any.
abbrev pub owner_diagnostics :
    Ports
    → Result NoteUseCaseError PrincipalRef
    → List NoteCitationQuery
    → CitationStyle
    → Result NoteUseCaseError (List NoteAdvisoryDiagnostic)
owner_diagnostics ports owner [] style = ok []
owner_diagnostics ports owner (q ∷ qs) style = do
  o ← owner
  ports.citation_diagnostics o (q ∷ qs) style

abbrev owner_of : Result NoteUseCaseError AccessibleNote → Result NoteUseCaseError PrincipalRef
owner_of (err x) = err x
owner_of (ok a) = ok a.note.owner

-- What `update_note` checks of a draft before it is saved.
unfoldable pub check_draft :
    Ports
    → NoteStore
    → NoteStore
    → ℕ
    → Text
    → ValidatedNoteDraft
    → NoteWritePolicy
    → Result NoteUseCaseError (Unit {0})
check_draft ports at_attachments at_owner principal id v policy = do
  _ ← validate_attachments ports at_attachments principal id v.attachment_queries
  cited ←
      owner_diagnostics ports (owner_of (read_visible_note ports at_owner principal id))
        v.citation_queries v.citation_style
  reject_warnings policy (v.diagnostics ++ cited)

-- `update_note`, with the stores that its three calls of the repository find.
unfoldable pub update_note :
    Ports
    → NoteStore
    → NoteStore
    → NoteStore
    → ℕ
    → Text
    → NoteDraft
    → ℕ
    → NoteWritePolicy
    → ℕ
    → Result NoteUseCaseError (NoteStore × Note)
update_note ports at_attachments at_owner at_write principal id draft expected policy now = do
  v ← or_invalid (ports.validate_draft draft)
  _ ← check_draft ports at_attachments at_owner principal id v policy
  from_store
      (update_visible_note ports.parse_url at_write principal id expected v.draft (links_of v) now)

-- `NotePatchApplication`.
pub record NotePatchApplication : Type 0 where
  pub note : Option Note
  pub hunks_applied : ℕ
  pub lines_added : ℕ
  pub lines_removed : ℕ
  pub advisories : List NoteAdvisoryDiagnostic

abbrev pub application_of :
    Option Note → NotePatchOutcome → List NoteAdvisoryDiagnostic → NotePatchApplication
application_of note outcome advisories = record {
  note = note;
  hunks_applied = outcome.hunks_applied;
  lines_added = outcome.lines_added;
  lines_removed = outcome.lines_removed;
  advisories = advisories;
}

abbrev pub or_rejected :
    Result NotePatchError NotePatchOutcome → Result NoteUseCaseError NotePatchOutcome
or_rejected (err x) = err (patch_rejected x)
or_rejected (ok outcome) = ok outcome

abbrev pub source_draft : Text → NoteDraft
source_draft source = record { source = source; title = []; tags = [] }

-- The write at the end, unless the run is dry.
abbrev pub save_patch :
    Bool
    → NoteStore
    → NotePatchOutcome
    → List NoteAdvisoryDiagnostic
    → Result StoreError (NoteStore × Note)
    → Result NoteUseCaseError (NoteStore × NotePatchApplication)
save_patch true s outcome advisories written = ok (s, application_of none outcome advisories)
save_patch false s outcome advisories written = do
  (saved, note) ← from_store written
  ok (saved, application_of (some note) outcome advisories)

-- `NoteApplication::soft_delete_note` and `restore_note`.
unfoldable pub soft_delete_note :
    Ports → NoteStore → ℕ → Text → ℕ → ℕ → Result NoteUseCaseError (NoteStore × Note)
soft_delete_note ports s principal id expected now =
    from_store (soft_delete_visible_note ports.parse_url s principal id expected now)

unfoldable pub restore_note :
    Ports → NoteStore → ℕ → Text → ℕ → ℕ → Result NoteUseCaseError (NoteStore × Note)
restore_note ports s principal id expected now =
    from_restore (restore_owned_deleted_note ports.parse_url s principal id expected now)
