-- ===== src/Notes/HistoryTrials.antt =====
-- Tests of the history of a note that came in without its first revisions, and of the removal of notes.
use mathlib.Core.Path.{subst}
use marginalis.Prelude.{
  ℕ, ◌≤◌, arith, map, if◌then◌else◌, ◌≡◌, refl, true, [], ◌∷◌, none, some, ok, err,
}
use marginalis.Text.{Text, codes, ◌=t=◌}
use marginalis.Tables.{exists_where}
use marginalis.Principals.{database}
use marginalis.Domain.Words.{web, imported}
use marginalis.Notes.Store.{NoteRow, RevisionRow, NoteStore, is_revision}
use marginalis.Notes.History.{snapshot_of}
use marginalis.Notes.Removal.{purge_deleted_before}
use marginalis.Notes.Calls.{reviews, run}
use marginalis.Notes.Recorded.{HasHistory}
use marginalis.Notes.Complete.{run-HasHistory}
use marginalis.Notes.Examples.{running, parse, empty, long_history}

-- A note that came in at revision 3, without the revisions before.
abbrev imported_key : Text
imported_key = codes "m1"

abbrev imported_row : NoteRow
imported_row = record {
  note_id = imported_key;
  creator = 1;
  title = codes "B";
  source = codes "= B\n";
  tags = [];
  created_at = 50;
  updated_at = 60;
  revision = 3;
  deleted_at = none;
  created_via = web;
  review_tracking_known = 0;
  reviewed_revision = none;
  reviewed_at = none;
  reviewer = none;
}

abbrev migrated : NoteStore
migrated = record empty {
  notes = imported_row ∷ [];
  revisions = snapshot_of imported_row 1 imported ∷ [];
}

abbrev begins : Text → ℕ
begins id = if id =t= imported_key then 3 else 1

migrated-HasHistory : HasHistory begins migrated
migrated-HasHistory = record {
  keys = (refl, tt);
  told = (
    record {
      who = 1;
      kind = imported;
      current = refl;
      complete = λ k low begun high.
          subst (λ n. exists_where (is_revision imported_key n) migrated.revisions ≡ true)
            (at_three k begun high) refl;
      bounded = (λ e. omega arith, tt);
    },
    tt,
  );
  owned = (refl, tt);
}
  where
    at_three : (k : ℕ) → 3 ≤ k → k ≤ 3 → 3 ≡ k
    at_three k low high = omega (arith, low, high)

run-HasHistory_example :
    HasHistory begins (run parse migrated (reviews 1 imported_key 3 90 ∷ long_history))
run-HasHistory_example =
    run-HasHistory parse begins migrated (reviews 1 imported_key 3 90 ∷ long_history)
      migrated-HasHistory

-- The review of the note that came in commits, and is recorded as its revision 4.
migrated_row :
    map {A = RevisionRow}
      (λ h. h.revision)
      (run parse migrated (reviews 1 imported_key 3 90 ∷ [])).revisions
    ≡ 3 ∷ 4 ∷ []
unfolding running
migrated_row = refl

-- A deleted note whose revision shows an attachment is not removed, and fails the removal of all.
abbrev illustrated : NoteStore
illustrated = record empty {
  notes = record imported_row { deleted_at = some 70 } ∷ [];
  attachments = record { attachment_id = codes "a1"; note_id = imported_key } ∷ [];
  revision_attachments =
      record { note_id = imported_key; revision = 3; attachment_id = codes "a1" } ∷ [];
}

illustrated_purge : purge_deleted_before illustrated 80 ≡ err database
unfolding running
illustrated_purge = refl

plain_purge :
    purge_deleted_before (record illustrated { revision_attachments = [] }) 80
    ≡ ok (record empty { attachments = [] }, 1)
unfolding running
plain_purge = refl
