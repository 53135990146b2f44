-- ===== src/Notes/Examples.antt =====
-- Tests of the transactions on notes, and the theorems at a history of two people and one note.
use marginalis.Prelude.{ℕ, ◌≡◌, refl, true, false, List, [], ◌∷◌, Option, none, some, ok, err}
use marginalis.Text.{Text, codes}
use marginalis.Tables.{find_where}
use marginalis.Principals.{IdentityRow, not_found}
use marginalis.Domain.Identity.{
  ParsedUrl, PrincipalRef, issuer_valid, subject_valid, validate_identity, new_identity,
  new_principal_id,
}
use marginalis.Domain.Words.{web, may_edit}
use marginalis.Domain.Notes.{NoteDraft, create, restore, new_revision, review_status, status}
use marginalis.Notes.Store.{NoteStore, row_allowed, has_access, is_note}
use marginalis.Notes.Rows.{details, note_row, review_of_columns, note_from_row, listed_status}
use marginalis.Notes.History.{
  insert_note_revision, snapshot_allowed, replace_note_revision_attachments,
}
use marginalis.Notes.Mutations.{
  NoteLinks, RestoreNoteError, store, insert_note, create_note, replace_link_rows, update_notes,
  require_active_note_access, classify_failed_mutation, reached, change_note,
}
use marginalis.Notes.Updates.{
  update_visible_note_with_kind, record_change, soft_delete_visible_note, mark_owned_note_reviewed,
  insert_acl, replace_note_acl,
}
use marginalis.Notes.Removal.{
  restorable, restore_owned_deleted_note, classify_failed_restore, purge_deleted_before,
  without_purged,
}
use marginalis.Notes.Advance.{HasNoteKeys}
use marginalis.Notes.Calls.{
  Call, creates, updates, deletes, reviews, shares, restores, purges, perform, run,
}
use marginalis.Notes.Refused.{is_refusal, change_refused_later}
use marginalis.Notes.Strangers.{stranger_refused}

-- What a history of transactions computes with.
unfoldable pub running : ℕ
unfolding perform run create_note insert_note create replace_link_rows insert_note_revision
    snapshot_allowed replace_note_revision_attachments row_allowed has_access update_notes
    require_active_note_access classify_failed_mutation reached change_note
    update_visible_note_with_kind record_change soft_delete_visible_note mark_owned_note_reviewed
    insert_acl replace_note_acl restorable restore_owned_deleted_note classify_failed_restore
    purge_deleted_before without_purged details note_row review_of_columns note_from_row
    listed_status restore new_revision new_principal_id new_identity validate_identity issuer_valid
    subject_valid review_status status
running = 0

abbrev pub url : ParsedUrl
url = record {
  scheme = codes "https";
  cannot_be_a_base = false;
  username = [];
  password = none;
  query = none;
  fragment = none;
  host = some (codes "idp");
  port = none;
}

abbrev pub parse : Text → Option ParsedUrl
parse t = some url

abbrev pub alice : PrincipalRef
alice = record {
  id = 1;
  primary_identity = record { issuer = codes "https://idp"; subject = codes "alice" };
}

abbrev pub bob : PrincipalRef
bob = record {
  id = 2;
  primary_identity = record { issuer = codes "https://idp"; subject = codes "bob" };
}

abbrev primary_row : ℕ → PrincipalRef → IdentityRow
primary_row id p = record {
  identity_id = id;
  principal_id = p.id;
  identity = p.primary_identity;
  is_primary = true;
}

abbrev pub empty : NoteStore
empty = record {
  principals = 1 ∷ 2 ∷ [];
  identities = primary_row 10 alice ∷ primary_row 20 bob ∷ [];
  notes = [];
  acl = [];
  revisions = [];
  references = [];
  citations = [];
  attachments = [];
  revision_attachments = [];
}

abbrev pub key : Text
key = codes "n1"

abbrev pub no_links : NoteLinks
no_links = record { reference_targets = []; cited_keys = []; attachment_ids = [] }

abbrev pub first_draft : NoteDraft
first_draft = record { source = codes "= A\n\nb\n"; title = codes "A"; tags = [] }

abbrev pub second_draft : NoteDraft
second_draft = record { source = codes "= A\n\nc\n"; title = codes "A"; tags = [] }

abbrev pub making : Call
making = creates key alice first_draft 100 web no_links

abbrev pub sharing : Call
sharing = shares 1 key (record { principal = bob; permission = may_edit } ∷ []) 1 110

abbrev pub editing : Call
editing = updates 2 key 2 second_draft no_links 120

-- The note made, shared and edited, reviewed, deleted and restored: five more revisions.
abbrev pub long_history : List Call
long_history =
    making
    ∷ sharing
    ∷ editing
    ∷ reviews 1 key 3 130
    ∷ deletes 1 key 4 140
    ∷ restores 1 key 5 150
    ∷ purges 160
    ∷ []

-- Every one of them commits.
long_history_row :
    find_where (is_note key) (run parse empty long_history).notes
    ≡ some (record {
      note_id = key;
      creator = 1;
      title = codes "A";
      source = codes "= A\n\nc\n";
      tags = [];
      created_at = 100;
      updated_at = 150;
      revision = 6;
      deleted_at = none;
      created_via = web;
      review_tracking_known = 1;
      reviewed_revision = some 4;
      reviewed_at = some 130;
      reviewer = some 1;
    })
unfolding running
long_history_row = refl

-- Bob's change and Alice's, from the same revision: the second is refused.
abbrev pub shared : NoteStore
shared = run parse empty (making ∷ sharing ∷ [])

abbrev pub edited : NoteStore
edited = run parse shared (editing ∷ [])

pub shared-HasNoteKeys : HasNoteKeys shared
unfolding running
shared-HasNoteKeys = (refl, tt)

pub edited_ok : perform parse shared editing ≡ ok edited
unfolding running
edited_ok = refl

change_refused_later_example :
    (x : RestoreNoteError) × (perform parse
        (run parse edited (reviews 1 key 3 130 ∷ purges 140 ∷ []))
        (deletes 1 key 2 150)
      ≡ err x)
    × (is_refusal x ≡ true)
change_refused_later_example =
    change_refused_later parse shared edited editing (reviews 1 key 3 130 ∷ purges 140 ∷ [])
      (deletes 1 key 2 150) key 2 shared-HasNoteKeys edited_ok refl refl refl

-- Bob may edit the note, but not delete it.
stranger_refused_example : perform parse shared (deletes 2 key 2 130) ≡ err (store not_found)
unfolding running
stranger_refused_example =
    stranger_refused parse shared (deletes 2 key 2 130) key 2 2 refl refl refl refl
