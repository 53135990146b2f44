-- ===== src/Notes/Mutations.antt =====
-- crates/marginalis-sqlite/src/notes.rs: the creation of a note, and the conditional `UPDATE` of a row with
-- the error that a missing row is answered with, which the other changes begin with. Each transaction
-- is the store after its commit, or the error after which it is rolled back.
use marginalis.Prelude.{
  ℕ, suc, Bool, not, ◌&&◌, List, [], ◌∷◌, ◌++◌, Option, none, some, ◌==◌, Result, ok, err, ◌>>=◌,
  refuse_if, if◌then◌else◌,
}
use marginalis.Text.{Text, ◌=t=◌}
use marginalis.Tables.{update_where, delete_where, exists_where, count_where, insert_row}
use marginalis.Principals.{StoreError, database, not_found, conflict}
use marginalis.Domain.Words.{created, NoteAccess}
use marginalis.Domain.Notes.{
  Note, NoteDraft, NoteReviewRecord, NoteReviewTracking, untracked, tracked, last_review,
}
use marginalis.Notes.Store.{
  NoteRow, LinkRow, NoteStore, is_note, is_deleted, row_allowed, access_level, has_access,
}
use marginalis.Notes.History.{insert_note_revision, replace_note_revision_attachments}

-- `NoteLinks`.
pub record NoteLinks : Type 0 where
  pub reference_targets : List Text
  pub cited_keys : List Text
  pub attachment_ids : List Text

-- `RestoreNoteError`.
pub data RestoreNoteError : Type 0 where
  store : StoreError → RestoreNoteError
  retention_expired : RestoreNoteError

abbrev tracking_known : NoteReviewTracking → ℕ
tracking_known untracked = 0
tracking_known (tracked review) = 1

abbrev of_review {ℓ} : {A : Type ℓ} → (NoteReviewRecord → A) → Option NoteReviewRecord → Option A
of_review f none = none
of_review f (some r) = some (f r)

-- The values that `create_note` binds.
abbrev pub row_of : Note → NoteRow
row_of n = record {
  note_id = n.note_id;
  creator = n.owner.id;
  title = n.draft.title;
  source = n.draft.source;
  tags = n.draft.tags;
  created_at = n.created_at;
  updated_at = n.updated_at;
  revision = n.revision;
  deleted_at = n.deleted_at;
  created_via = n.created_via;
  review_tracking_known = tracking_known n.review;
  reviewed_revision = of_review (λ r. r.revision) (last_review n.review);
  reviewed_at = of_review (λ r. r.reviewed_at) (last_review n.review);
  reviewer = of_review (λ r. r.reviewer.id) (last_review n.review);
}

-- `INSERT OR IGNORE` of one link after the other.
abbrev link_each : Text → List Text → List LinkRow → List LinkRow
link_each id [] table = table
link_each id (t ∷ targets) table = link_each id targets (
    if exists_where (λ l. l.source_note_id =t= id && l.target =t= t) table
    then table
    else table ++ record { source_note_id = id; target = t } ∷ [])

abbrev relink : Text → List Text → List LinkRow → List LinkRow
relink id targets table = link_each id targets (delete_where (λ l. l.source_note_id =t= id) table)

-- `replace_link_rows`, with `replace_reference_rows`.
unfoldable pub replace_link_rows : NoteStore → Text → NoteLinks → NoteStore
replace_link_rows s id links = record s {
  references = relink id links.reference_targets s.references;
  citations = relink id links.cited_keys s.citations;
}

-- `INSERT INTO notes`.
unfoldable pub insert_note : NoteStore → NoteRow → Result StoreError NoteStore
insert_note s r = do
  _ ← refuse_if (not (row_allowed s.principals r)) database
  notes ← insert_row database (is_note r.note_id) r s.notes
  ok (record s { notes = notes })

-- `create_note`.
unfoldable pub create_note : NoteStore → Note → NoteLinks → Result StoreError NoteStore
create_note s n links = do
  inserted ← insert_note s (row_of n)
  recorded ←
      insert_note_revision (replace_link_rows inserted n.note_id links) n.note_id n.owner.id created
  replace_note_revision_attachments recorded n.note_id links.attachment_ids

-- `UPDATE notes SET … WHERE …`, which fails as a whole where a row breaks a check, and
-- `rows_affected`.
unfoldable pub update_notes :
    NoteStore → (NoteRow → Bool) → (NoteRow → NoteRow) → Result StoreError (NoteStore × ℕ)
update_notes s matches set = do
  _ ←
      refuse_if (exists_where (λ r. matches r && not (row_allowed s.principals (set r))) s.notes)
        database
  ok (record s { notes = update_where matches set s.notes }, count_where matches s.notes)

-- What each `UPDATE` sets.
abbrev pub with_content : NoteDraft → ℕ → NoteRow → NoteRow
with_content draft now r = record r {
  title = draft.title;
  source = draft.source;
  tags = draft.tags;
  updated_at = now;
  review_tracking_known = 1;
  revision = suc r.revision;
}

abbrev pub with_deletion : ℕ → NoteRow → NoteRow
with_deletion now r = record r {
  deleted_at = some now;
  updated_at = now;
  review_tracking_known = 1;
  revision = suc r.revision;
}

abbrev pub with_review : ℕ → ℕ → NoteRow → NoteRow
with_review principal now r = record r {
  review_tracking_known = 1;
  reviewed_revision = some (suc r.revision);
  reviewed_at = some now;
  reviewer = some principal;
  updated_at = now;
  revision = suc r.revision;
}

abbrev pub with_new_acl : ℕ → NoteRow → NoteRow
with_new_acl now r = record r {
  revision = suc r.revision;
  updated_at = now;
  review_tracking_known = 1;
}

abbrev pub with_restoration : ℕ → NoteRow → NoteRow
with_restoration now r = record r {
  deleted_at = none;
  updated_at = now;
  review_tracking_known = 1;
  revision = suc r.revision;
}

-- `require_active_note_access`.
unfoldable pub require_active_note_access :
    NoteStore → ℕ → Text → NoteAccess → Result StoreError (Unit {0})
require_active_note_access s principal id required =
    refuse_if
      (not (
        exists_where
          (λ r.
            is_note id r
            && not (is_deleted r.deleted_at)
            && has_access s r.note_id principal (access_level required))
          s.notes))
      not_found

abbrev pub conflict_if_found : Result StoreError (Unit {0}) → StoreError
conflict_if_found (ok u) = conflict
conflict_if_found (err x) = x

-- `classify_failed_mutation`.
unfoldable pub classify_failed_mutation : NoteStore → ℕ → Text → NoteAccess → StoreError
classify_failed_mutation s principal id required =
    conflict_if_found (require_active_note_access s principal id required)

-- The `WHERE` of the changes of a note that is not deleted.
unfoldable pub reached : NoteStore → Text → ℕ → ℕ → NoteAccess → NoteRow → Bool
reached s id expected principal required r =
    is_note id r
    && r.revision == expected
    && not (is_deleted r.deleted_at)
    && has_access s r.note_id principal (access_level required)

-- The `UPDATE` with the test of `rows_affected` that follows it.
unfoldable pub change_note :
    NoteStore → Text → ℕ → ℕ → NoteAccess → (NoteRow → NoteRow) → Result StoreError NoteStore
change_note s id expected principal required set = do
  (updated, rows) ← update_notes s (reached s id expected principal required) set
  _ ← refuse_if (not (rows == 1)) (classify_failed_mutation updated principal id required)
  ok updated
