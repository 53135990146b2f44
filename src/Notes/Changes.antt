-- ===== src/Notes/Changes.antt =====
-- Each transaction that changes a note, when it commits: the row that it found, the row that it left,
-- and the note that it returns.
use marginalis.Prelude.{
  ℕ, ◌-◌, ◌≡◌, refl, sym, ap, ◌∙◌, Bool, true, false, not, List, Option, some, arith, ok, err,
  >>=-eq-ok, refuse_if, ok_or, ◌==◌, Result, Option-cases, inl, inr,
}
use marginalis.Text.{Text, ◌=t=◌}
use marginalis.Tables.{find_where, delete_where}
use marginalis.Principals.{StoreError, database}
use marginalis.Domain.Identity.{ParsedUrl}
use marginalis.Domain.Words.{
  NoteRevisionKind, acl_updated, reviewed, deleted, restored, edit, manage,
}
use marginalis.Domain.Notes.{Note, NoteDraft, NoteAclEntry, soft_delete_retention_ms}
use marginalis.Notes.Store.{NoteRow, NoteStore, is_note}
use marginalis.Notes.Rows.{DetailsRow, details, note_row, note_from_row, primary_of}
use marginalis.Notes.History.{insert_note_revision, replace_note_revision_attachments}
use marginalis.Notes.Mutations.{
  NoteLinks, RestoreNoteError, reached, change_note, update_notes, replace_link_rows, with_content,
  with_deletion, with_review, with_new_acl, with_restoration,
}
use marginalis.Notes.Updates.{
  record_change, update_visible_note_with_kind, soft_delete_visible_note, mark_owned_note_reviewed,
  replace_note_acl, insert_entries,
}
use marginalis.Notes.Removal.{
  restorable, restore_owned_deleted_note, classify_failed_restore, stored, deleted_owned,
}
use marginalis.Notes.Advance.{
  HasNoteKeys, Records, Replaced, Advances, MovesOn, insert_note_revision-Records,
  replace_attachments-same, change_note-Replaced, update_notes-Replaced, recorded-Advances,
  found_ok, found_after,
}

pub record Made (parse_url : Text → Option ParsedUrl) (s s' : NoteStore) (id : Text)
    (test : NoteRow → Bool) (set : NoteRow → NoteRow) (who : ℕ) (kind : NoteRevisionKind)
    (note : Note) : Type 0 where
  pub old : NoteRow
  pub hit : test old ≡ true
  pub advances : Advances s s' id old (set old) who kind
  pub row : DetailsRow
  pub shows : row.note ≡ set old
  pub reads : note_from_row parse_url row ≡ ok note

pub details-note :
    (s : NoteStore) (r : NoteRow) (d : DetailsRow) → details s r ≡ some d → d.note ≡ r
unfolding details
details-note s r d e = elim (Option-cases (find_where (primary_of r.creator) s.identities)) [
  | inl n ↦ absurd (ground arith)
  | inr (i, f) ↦ ap (λ x. x.note) (sym (some_inj _ d (rw (f, details) at e)))
]
  where
    some_inj : (a b : DetailsRow) → some a ≡ some b → a ≡ b
    some_inj a b p = cc

note_row-note :
    (s : NoteStore) (id : Text) (d : DetailsRow)
    → note_row s id ≡ ok d
    → find_where (is_note id) s.notes ≡ some d.note
unfolding note_row
note_row-note s id d e =
    let (r, f, e1) = >>=-eq-ok (ok_or (find_where (is_note id) s.notes) database) _ e in
    found_ok _ _ r f ∙ ap some (sym (details-note s r d (found_ok _ _ d e1)))

pub some_row : (a b : NoteRow) → some a ≡ some b → a ≡ b
some_row a b p = cc

pub pair_ok :
    (a b : NoteStore) (m n : Note)
    → ◌≡◌ {A = Result StoreError (NoteStore × Note)} (ok (a, m)) (ok (b, n))
    → (a ≡ b) × (m ≡ n)
pair_ok a b m n e = (ground arith, ground arith)

-- The note that is read back is the row that the change left.
made :
    (parse_url : Text → Option ParsedUrl) (s u x w s' : NoteStore) (id : Text)
    (test : NoteRow → Bool) (set : NoteRow → NoteRow) (who : ℕ) (kind : NoteRevisionKind)
    (d : DetailsRow) (note : Note)
    → MovesOn set
    → Replaced s id test set u
    → u.notes ≡ x.notes
    → note_row x id ≡ ok d
    → note_from_row parse_url d ≡ ok note
    → (u.notes ≡ w.notes) × (s.revisions ≡ w.revisions)
    → Records w s' id who kind
    → Made parse_url s s' id test set who kind note
made parse_url s u x w s' id test set who kind d note moves c read_from e reads same r = record {
  old = c.old;
  hit = c.hit;
  advances = recorded-Advances s u w s' id test set who kind moves c same.0 same.1 r;
  row = d;
  shows = some_row _ _ (
      sym (note_row-note x id d e)
      ∙ ap (find_where (is_note id)) (sym read_from)
      ∙ found_after s u id test set c moves);
  reads = reads;
}

record_change-Made :
    (parse_url : Text → Option ParsedUrl) (s u w s' : NoteStore) (id : Text) (test : NoteRow → Bool)
    (set : NoteRow → NoteRow) (who : ℕ) (kind : NoteRevisionKind) (note : Note)
    → MovesOn set
    → Replaced s id test set u
    → (u.notes ≡ w.notes) × (s.revisions ≡ w.revisions)
    → record_change parse_url w who id kind ≡ ok (s', note)
    → Made parse_url s s' id test set who kind note
unfolding record_change
record_change-Made parse_url s u w s' id test set who kind note moves c same e =
    let (d, e0, e1) = >>=-eq-ok (note_row w id) _ e in
    let (n, reads, e2) = >>=-eq-ok (note_from_row parse_url d) _ e1 in
    let (v, i, e3) = >>=-eq-ok (insert_note_revision w id who kind) _ e2 in
    made parse_url s u w w s' id test set who kind d note moves c same.0 e0
      (reads ∙ ap ok (pair_ok v s' n note e3).1) same
      (insert_note_revision-Records w id who kind s' (i ∙ ap ok (pair_ok v s' n note e3).0))

-- A replacement touches no other table.
Replaced-same :
    (s u : NoteStore) (id : Text) (test : NoteRow → Bool) (set : NoteRow → NoteRow)
    → Replaced s id test set u
    → (s.revisions ≡ u.revisions) × (s.acl ≡ u.acl)
Replaced-same s u id test set c = (ap (λ x. x.revisions) c.others, ap (λ x. x.acl) c.others)

pub update_visible_note_with_kind-Made :
    (parse_url : Text → Option ParsedUrl) (s : NoteStore) (who : ℕ) (id : Text) (expected : ℕ)
    (draft : NoteDraft) (links : NoteLinks) (now : ℕ) (kind : NoteRevisionKind) (s' : NoteStore)
    (note : Note)
    → HasNoteKeys s
    → update_visible_note_with_kind parse_url s who id expected draft links now kind ≡ ok (s', note)
    → Made parse_url s s' id (reached s id expected who edit) (with_content draft now) who kind note
unfolding update_visible_note_with_kind replace_link_rows
update_visible_note_with_kind-Made parse_url s who id expected draft links now kind s' note v e =
    let (u, e0, e1) = >>=-eq-ok (change_note s id expected who edit (with_content draft now)) _ e in
    let (d, e2, e3) = >>=-eq-ok (note_row u id) _ e1 in
    let (n, reads, e4) = >>=-eq-ok (note_from_row parse_url d) _ e3 in
    let (w, i, e5) =
      >>=-eq-ok (insert_note_revision (replace_link_rows u id links) id who kind) _ e4 in
    let (x, a, e6) = >>=-eq-ok (replace_note_revision_attachments w id links.attachment_ids) _ e5 in
    let same = pair_ok x s' n note e6 in
    let c = change_note-Replaced s id expected who edit (with_content draft now) u v e0 in
    let r = insert_note_revision-Records (replace_link_rows u id links) id who kind w i in
    let (kept_notes, kept_revisions, kept_acl) =
      replace_attachments-same w id links.attachment_ids x a in
    made parse_url s u u (replace_link_rows u id links) s' id _ (with_content draft now) who kind d
      note (λ row. (refl, refl)) c refl e2 (reads ∙ ap ok same.1)
      (refl, (Replaced-same s u id _ _ c).0)
      (record {
        row = r.row;
        found = r.found;
        notes = r.notes ∙ kept_notes ∙ ap (λ y. y.notes) same.0;
        acl = r.acl ∙ kept_acl ∙ ap (λ y. y.acl) same.0;
        fresh = r.fresh;
        history = r.history ∙ kept_revisions ∙ ap (λ y. y.revisions) same.0;
      })

pub soft_delete_visible_note-Made :
    (parse_url : Text → Option ParsedUrl) (s : NoteStore) (who : ℕ) (id : Text) (expected now : ℕ)
    (s' : NoteStore) (note : Note)
    → HasNoteKeys s
    → soft_delete_visible_note parse_url s who id expected now ≡ ok (s', note)
    → Made parse_url s s' id (reached s id expected who manage) (with_deletion now) who deleted note
unfolding soft_delete_visible_note
soft_delete_visible_note-Made parse_url s who id expected now s' note v e =
    let (u, e0, e1) = >>=-eq-ok (change_note s id expected who manage (with_deletion now)) _ e in
    let c = change_note-Replaced s id expected who manage (with_deletion now) u v e0 in
    record_change-Made parse_url s u u s' id _ _ who deleted note (λ row. (refl, refl)) c
      (refl, (Replaced-same s u id _ _ c).0) e1

pub mark_owned_note_reviewed-Made :
    (parse_url : Text → Option ParsedUrl) (s : NoteStore) (who : ℕ) (id : Text) (expected now : ℕ)
    (s' : NoteStore) (note : Note)
    → HasNoteKeys s
    → mark_owned_note_reviewed parse_url s who id expected now ≡ ok (s', note)
    → Made parse_url s s' id
        (reached s id expected who manage)
        (with_review who now)
        who
        reviewed
        note
unfolding mark_owned_note_reviewed
mark_owned_note_reviewed-Made parse_url s who id expected now s' note v e =
    let (u, e0, e1) = >>=-eq-ok (change_note s id expected who manage (with_review who now)) _ e in
    let c = change_note-Replaced s id expected who manage (with_review who now) u v e0 in
    record_change-Made parse_url s u u s' id _ _ who reviewed note (λ row. (refl, refl)) c
      (refl, (Replaced-same s u id _ _ c).0) e1

pub replace_note_acl-Made :
    (parse_url : Text → Option ParsedUrl) (s : NoteStore) (who : ℕ) (id : Text)
    (entries : List NoteAclEntry) (expected now : ℕ) (s' : NoteStore) (note : Note)
    → HasNoteKeys s
    → replace_note_acl parse_url s who id entries expected now ≡ ok (s', note)
    → Made parse_url s s' id
        (reached s id expected who manage)
        (with_new_acl now)
        who
        acl_updated
        note
unfolding replace_note_acl
replace_note_acl-Made parse_url s who id entries expected now s' note v e =
    let (u, e0, e1) = >>=-eq-ok (change_note s id expected who manage (with_new_acl now)) _ e in
    let (acl, e2, e3) =
      >>=-eq-ok (insert_entries u id entries (delete_where (λ a. a.note_id =t= id) u.acl)) _ e1 in
    let c = change_note-Replaced s id expected who manage (with_new_acl now) u v e0 in
    record_change-Made parse_url s u (record u { acl = acl }) s' id _ _ who acl_updated note
      (λ row. (refl, refl)) c (refl, (Replaced-same s u id _ _ c).0) e3

pub stored_ok : {A : Type 0} (r : Result StoreError A) (v : A) → stored r ≡ ok v → r ≡ ok v
stored_ok (err x) v e = absurd cc
stored_ok (ok w) v e = cc

restored_refused :
    (b : Bool) (x : RestoreNoteError) {u : Unit {0}} → refuse_if (not b) x ≡ ok u → b ≡ true
restored_refused true x e = refl
restored_refused false x e = absurd cc

pub restore_owned_deleted_note-Made :
    (parse_url : Text → Option ParsedUrl) (s : NoteStore) (who : ℕ) (id : Text) (expected now : ℕ)
    (s' : NoteStore) (note : Note)
    → HasNoteKeys s
    → restore_owned_deleted_note parse_url s who id expected now ≡ ok (s', note)
    → Made parse_url s s' id
        (restorable id expected (now - soft_delete_retention_ms) who)
        (with_restoration now)
        who
        restored
        note
unfolding restore_owned_deleted_note restorable
restore_owned_deleted_note-Made parse_url s who id expected now s' note v e =
    let cutoff = now - soft_delete_retention_ms in
    let ((u, n), e0, e1) =
      >>=-eq-ok (stored (update_notes s (restorable id expected cutoff who) (with_restoration now)))
        _ e in
    let (_, a, e2) =
      >>=-eq-ok
        (refuse_if (not (n == 1))
          (classify_failed_restore expected cutoff (find_where (deleted_owned id who) u.notes)))
        _ e1 in
    let c =
      update_notes-Replaced s id (restorable id expected cutoff who) (with_restoration now) u n
        (λ r t. ground arith) v (stored_ok _ (u, n) e0) (restored_refused _ _ a) in
    record_change-Made parse_url s u u s' id _ _ who restored note (λ row. (refl, refl)) c
      (refl, (Replaced-same s u id _ _ c).0) (stored_ok _ (s', note) e2)
