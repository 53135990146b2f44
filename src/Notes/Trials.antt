-- ===== src/Notes/Trials.antt =====
-- The theorems on sharing, reviews, deletions and patches at a history of two people and one note.
use marginalis.Prelude.{
  ◌≡◌, refl, ◌+◌, ◌&&◌, ◌||◌, leb, List, [], ◌∷◌, none, some, arith, Result, ok, err, ◌>>=◌,
  if◌then◌else◌,
}
use marginalis.Text.{codes, ◌=t=◌}
use marginalis.Tables.{find_where, exists_where}
use marginalis.Domain.Words.{
  NoteCreationSource, mcp, reviewed_status, may_edit, words_round_trip, creation_source_text,
  parse_creation_source, review_status_text, parse_review_status, revision_kind_text,
  parse_revision_kind, acl_updated,
}
use marginalis.Domain.Notes.{
  Note, NoteAclEntry, NoteReviewTracking, review_status, soft_delete_retention_ms,
}
use marginalis.Principals.{StoreError}
use marginalis.Notes.Store.{NoteRow, NoteStore, has_access, is_note, owns}
use marginalis.Notes.Rows.{DetailsRow, note_from_row, listed_status}
use marginalis.Notes.Mutations.{RestoreNoteError, retention_expired}
use marginalis.Notes.Updates.{replace_note_acl, soft_delete_visible_note}
use marginalis.Notes.Removal.{restore_owned_deleted_note}
use marginalis.Notes.Calls.{reviews, perform, run}
use marginalis.Notes.Sharing.{replaced_acl_lets_in, entry_lets, row_lets}
use marginalis.Notes.Shown.{listed_status_agrees}
use marginalis.Notes.Outcomes.{change_review}
use marginalis.Notes.Undo.{delete_then_restore, restore_expired, draft_of}
use marginalis.Notes.Examples.{
  running, parse, alice, bob, empty, shared-HasNoteKeys, key, first_draft, making, shared,
}

words_round_trip_example :
    (parse_creation_source (creation_source_text mcp) ≡ ok mcp)
    × (parse_review_status (review_status_text reviewed_status) ≡ ok reviewed_status)
    × (parse_revision_kind (revision_kind_text acl_updated) ≡ ok acl_updated)
words_round_trip_example = words_round_trip mcp reviewed_status acl_updated

-- The note that a commit returned, and the store that it left.
abbrev made : NoteStore
made = run parse empty (making ∷ [])

abbrev blank : Note
blank = record {
  note_id = [];
  owner = alice;
  draft = first_draft;
  created_at = 0;
  updated_at = 0;
  revision = 1;
  deleted_at = none;
  created_via = mcp;
  review = NoteReviewTracking.untracked;
}

abbrev note_of {ℓ} : {E : Type 0} {A : Type ℓ} → Result E (A × Note) → Note
note_of (err x) = blank
note_of (ok (s, n)) = n

abbrev store_left : {E : Type 0} → Result E (NoteStore × Note) → NoteStore
store_left (err x) = empty
store_left (ok (s, n)) = s

abbrev sharing_with_bob : List NoteAclEntry
sharing_with_bob = record { principal = bob; permission = may_edit } ∷ []

replaced :
    replace_note_acl parse made 1 key sharing_with_bob 1 110
    ≡ ok (
      store_left (replace_note_acl parse made 1 key sharing_with_bob 1 110),
      note_of (replace_note_acl parse made 1 key sharing_with_bob 1 110),
    )
unfolding running
replaced = refl

replaced_acl_lets_in_example :
    has_access (store_left (replace_note_acl parse made 1 key sharing_with_bob 1 110)) key 2 2 ≡ (
      exists_where (λ r. owns key 2 r && leb 2 3) made.notes
      || (if key =t= key
          then exists_where (entry_lets 2 2) sharing_with_bob
          else exists_where (row_lets key 2 2) made.acl))
replaced_acl_lets_in_example =
    replaced_acl_lets_in parse made 1 key sharing_with_bob 1 110
      (store_left (replace_note_acl parse made 1 key sharing_with_bob 1 110))
      (note_of (replace_note_acl parse made 1 key sharing_with_bob 1 110)) key 2 2 replaced

abbrev reviewed : NoteStore
reviewed = run parse shared (reviews 1 key 2 130 ∷ [])

reviewed_ok : perform parse shared (reviews 1 key 2 130) ≡ ok reviewed
unfolding running
reviewed_ok = refl

change_review_example :
    (r : NoteRow) × (find_where (is_note key) reviewed.notes ≡ some r)
    × (r.revision ≡ 3)
    × (listed_status r.review_tracking_known r.reviewed_revision r.revision ≡ ok reviewed_status)
unfolding running
change_review_example =
    change_review parse shared reviewed (reviews 1 key 2 130) key 2 shared-HasNoteKeys (refl, tt)
      reviewed_ok refl

-- Alice deletes the note, and takes the deletion back, or comes too late.
abbrev gone : Result StoreError (NoteStore × Note)
gone = soft_delete_visible_note parse shared 1 key 2 200

abbrev back : Result RestoreNoteError (NoteStore × Note)
back = restore_owned_deleted_note parse (store_left gone) 1 key 3 300

gone_ok : soft_delete_visible_note parse shared 1 key 2 200 ≡ ok (store_left gone, note_of gone)
unfolding running
gone_ok = refl

back_ok :
    restore_owned_deleted_note parse (store_left gone) 1 key 3 300
    ≡ ok (store_left back, note_of back)
unfolding running
back_ok = refl

abbrev shared_row : NoteRow
shared_row = record {
  note_id = key;
  creator = 1;
  title = codes "A";
  source = codes "= A\n\nb\n";
  tags = [];
  created_at = 100;
  updated_at = 110;
  revision = 2;
  deleted_at = none;
  created_via = NoteCreationSource.web;
  review_tracking_known = 1;
  reviewed_revision = none;
  reviewed_at = none;
  reviewer = none;
}

shared_found : find_where (is_note key) shared.notes ≡ some shared_row
unfolding running
shared_found = refl

delete_then_restore_example :
    ((note_of back).draft ≡ draft_of shared_row)
    × ((note_of back).created_at ≡ 100)
    × ((note_of back).deleted_at ≡ none)
    × ((note_of back).revision ≡ 4)
delete_then_restore_example =
    delete_then_restore parse shared (store_left gone) (store_left back) 1 key 2 200 300
      (note_of gone) (note_of back) shared_row shared-HasNoteKeys shared_found gone_ok back_ok

restore_expired_example :
    restore_owned_deleted_note parse (store_left gone) 1 key 3 (201 + soft_delete_retention_ms)
    ≡ err retention_expired
restore_expired_example =
    restore_expired parse shared (store_left gone) 1 key 2 200 (201 + soft_delete_retention_ms)
      (note_of gone) shared-HasNoteKeys gone_ok (omega arith)

-- A note that was reviewed at its second revision, and changed since.
abbrev changed_details : DetailsRow
changed_details = record {
  note = record shared_row {
    updated_at = 150;
    revision = 3;
    reviewed_revision = some 2;
    reviewed_at = some 120;
    reviewer = some 1;
  };
  creator_identity = alice.primary_identity;
  reviewer_identity = some alice.primary_identity;
}

changed_reads :
    note_from_row parse changed_details
    ≡ ok (
        note_of {E = StoreError} {A = NoteStore}
          (note_from_row parse changed_details >>= λ n. ok (empty, n)))
unfolding running
changed_reads = refl

listed_status_agrees_example :
    listed_status 1 (some 2) 3
    ≡ ok (
        review_status (
          note_of {E = StoreError} {A = NoteStore}
            (note_from_row parse changed_details >>= λ n. ok (empty, n))))
listed_status_agrees_example =
    listed_status_agrees parse changed_details
      (note_of {E = StoreError} {A = NoteStore}
        (note_from_row parse changed_details >>= λ n. ok (empty, n)))
      changed_reads
