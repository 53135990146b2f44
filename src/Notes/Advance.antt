-- ===== src/Notes/Advance.antt =====
-- What a successful change of a note does to the tables of notes and of revisions.
use mathlib.Core.Path.{subst}
use marginalis.Prelude.{
  ℕ, suc, ◌≡◌, refl, sym, ap, ◌∙◌, Bool, true, false, not, List, [], ◌∷◌, ◌++◌, Option, some, arith,
  ok, >>=-eq-ok, refuse_if, refuse_if-eq-ok, ok_or, ◌==◌, ◌&&◌,
}
use marginalis.Text.{Text, ◌=t=◌}
use marginalis.Tables.{
  find_where, update_where, delete_where, exists_where, insert_row, insert_row-ok,
  exists_where-count, exists_where-false_All, find_where-All, find_where-test,
}
use marginalis.Text.Equality.{=t=-eq, =t=-refl}
use marginalis.Tables.Keys.{HasKeys, find_where-key, find_where-replaced}
use marginalis.Principals.{database}
use marginalis.Domain.Words.{NoteRevisionKind, NoteAccess}
use marginalis.Notes.Store.{NoteRow, NoteStore, is_note, is_revision, row_allowed}
use marginalis.Notes.History.{
  snapshot_of, snapshot_allowed, carried_over, insert_attachments, attach_each,
  insert_note_revision, replace_note_revision_attachments,
}
use marginalis.Notes.Mutations.{update_notes, reached, change_note, classify_failed_mutation}

-- A revision of the note's row is appended to the history.
pub record Records (s s' : NoteStore) (id : Text) (who : ℕ) (kind : NoteRevisionKind) : Type 0 where
  pub row : NoteRow
  pub found : find_where (is_note id) s.notes ≡ some row
  pub notes : s.notes ≡ s'.notes
  pub acl : s.acl ≡ s'.acl
  pub fresh : exists_where (is_revision row.note_id row.revision) s.revisions ≡ false
  pub history : s.revisions ++ snapshot_of row who kind ∷ [] ≡ s'.revisions

pub found_ok :
    {E : Type 0} {A : Type 0} (o : Option A) (x : E) (v : A) → ok_or o x ≡ ok v → o ≡ some v
found_ok Option.none x v e = absurd cc
found_ok (some w) x v e = cc

pub insert_note_revision-Records :
    (s : NoteStore) (id : Text) (who : ℕ) (kind : NoteRevisionKind) (s' : NoteStore)
    → insert_note_revision s id who kind ≡ ok s'
    → Records s s' id who kind
unfolding insert_note_revision
insert_note_revision-Records s id who kind s' e =
    let (row, f, e1) = >>=-eq-ok (ok_or (find_where (is_note id) s.notes) _) _ e in
    let (_, _, e2) =
      >>=-eq-ok
        (refuse_if (not (snapshot_allowed s.principals (snapshot_of row who kind))) database) _
        e1 in
    let (history, i, e3) =
      >>=-eq-ok
        (insert_row database (is_revision row.note_id row.revision) (snapshot_of row who kind)
          s.revisions)
        _ e2 in
    let (attached, _, e4) =
      >>=-eq-ok
        (insert_attachments (carried_over id row.revision s.revision_attachments)
          s.revision_attachments)
        _ e3 in
    let (h, n) = insert_row-ok database _ _ s.revisions i in
    record {
      row = row;
      found = found_ok _ _ row f;
      notes = ground arith;
      acl = ground arith;
      fresh = n;
      history = ground arith;
    }

pub replace_attachments-same :
    (s : NoteStore) (id : Text) (ids : List Text) (s' : NoteStore)
    → replace_note_revision_attachments s id ids ≡ ok s'
    → (s.notes ≡ s'.notes) × (s.revisions ≡ s'.revisions) × (s.acl ≡ s'.acl)
unfolding replace_note_revision_attachments
replace_attachments-same s id ids s' e =
    let (row, _, e1) = >>=-eq-ok (ok_or (find_where (is_note id) s.notes) _) _ e in
    let (attached, _, e2) =
      >>=-eq-ok
        (attach_each s.attachments id row.revision ids (
          delete_where (λ a. a.note_id =t= id && a.revision == row.revision)
            s.revision_attachments))
        _ e1 in
    (ground arith, ground arith, ground arith)

abbrev pub HasNoteKeys : NoteStore → Type 0
HasNoteKeys s = HasKeys NoteRow.note_id s.notes

-- One row, which passed the test, was replaced, and only the table of notes was touched.
pub record Replaced (s : NoteStore) (id : Text) (test : NoteRow → Bool) (set : NoteRow → NoteRow)
    (s' : NoteStore) : Type 0 where
  pub old : NoteRow
  pub found : find_where (is_note id) s.notes ≡ some old
  pub hit : test old ≡ true
  pub notes : update_where (is_note id) (λ _. set old) s.notes ≡ s'.notes
  pub allowed : row_allowed s.principals (set old) ≡ true
  pub others : record s { notes = s'.notes } ≡ s'

refused_none : (b : Bool) {u : Unit {0}} → refuse_if (not b) database ≡ ok u → b ≡ true
refused_none true e = refl
refused_none false e = absurd cc

pub update_notes-Replaced :
    (s : NoteStore) (id : Text) (test : NoteRow → Bool) (set : NoteRow → NoteRow) (s' : NoteStore)
    (n : ℕ)
    → ((r : NoteRow) → test r ≡ true → is_note id r ≡ true)
    → HasNoteKeys s
    → update_notes s test set ≡ ok (s', n)
    → (n == 1) ≡ true
    → Replaced s id test set s'
unfolding update_notes
update_notes-Replaced s id test set s' n h v e one =
    let breaks : NoteRow → Bool = λ r. test r && not (row_allowed s.principals (set r)) in
    let (_, a, e1) = >>=-eq-ok (refuse_if (exists_where breaks s.notes) database) _ e in
    let there : exists_where test s.notes ≡ true =
      exists_where-count test s.notes (subst (λ m. (m == 1) ≡ true) (sym (ground arith)) one) in
    let (old, f, t, u) = find_where-key NoteRow.note_id id test h s.notes v there in
    let sound = exists_where-false_All breaks s.notes (refuse_if-eq-ok _ _ a) in
    let kept : breaks old ≡ false =
      find_where-All (λ r. breaks r ≡ false) (is_note id) s.notes old sound f in
    record {
      old = old;
      found = f;
      hit = t;
      notes = sym (u set) ∙ ground arith;
      allowed = ground arith;
      others = ground arith;
    }

pub change_note-Replaced :
    (s : NoteStore) (id : Text) (expected who : ℕ) (required : NoteAccess) (set : NoteRow → NoteRow)
    (s' : NoteStore)
    → HasNoteKeys s
    → change_note s id expected who required set ≡ ok s'
    → Replaced s id (reached s id expected who required) set s'
unfolding change_note reached
change_note-Replaced s id expected who required set s' v e =
    let ((u, n), e0, e1) =
      >>=-eq-ok (update_notes s (reached s id expected who required) set) _ e in
    let (_, a, e2) =
      >>=-eq-ok (refuse_if (not (n == 1)) (classify_failed_mutation u who id required)) _ e1 in
    let same : u ≡ s' = ground arith in
    subst (Replaced s id (reached s id expected who required) set) same (
      update_notes-Replaced s id _ set u n (λ r t. ground arith) v e0
        (not_false _ (refuse_if-eq-ok _ _ a)))
  where
    not_false : (b : Bool) → not b ≡ false → b ≡ true
    not_false true h = refl
    not_false false h = absurd cc

-- The note's row goes from `old` to `new`, one revision later, and `new` is recorded.
pub record Advances (s s' : NoteStore) (id : Text) (old new : NoteRow) (who : ℕ)
    (kind : NoteRevisionKind) : Type 0 where
  pub found : find_where (is_note id) s.notes ≡ some old
  pub notes : update_where (is_note id) (λ _. new) s.notes ≡ s'.notes
  pub named : new.note_id ≡ id
  pub next : new.revision ≡ suc old.revision
  pub fresh : exists_where (is_revision new.note_id new.revision) s.revisions ≡ false
  pub history : s.revisions ++ snapshot_of new who kind ∷ [] ≡ s'.revisions

abbrev pub MovesOn : (NoteRow → NoteRow) → Type 0
MovesOn set = (r : NoteRow) → ((set r).note_id ≡ r.note_id) × ((set r).revision ≡ suc r.revision)

pub recorded-Advances :
    (s u v s' : NoteStore) (id : Text) (test : NoteRow → Bool) (set : NoteRow → NoteRow) (who : ℕ)
    (kind : NoteRevisionKind)
    → MovesOn set
    → (c : Replaced s id test set u) → u.notes ≡ v.notes
    → s.revisions ≡ v.revisions
    → Records v s' id who kind
    → Advances s s' id c.old (set c.old) who kind
recorded-Advances s u v s' id test set who kind moves c same_notes same_revisions r = record {
  found = c.found;
  notes = c.notes ∙ same_notes ∙ r.notes;
  named = named;
  next = (moves c.old).1;
  fresh = ground (arith, row, r.fresh);
  history = ground (arith, row, r.history);
}
  where
    named : (set c.old).note_id ≡ id
    named =
        (moves c.old).0
        ∙ =t=-eq c.old.note_id id (find_where-test (is_note id) s.notes c.old c.found)

    row : set c.old ≡ r.row
    row = cc (
      r.found,
      subst (λ ns. find_where (is_note id) ns ≡ some (set c.old)) (c.notes ∙ same_notes)
          (find_where-replaced NoteRow.note_id id (set c.old)
            (subst (λ k. (k =t= id) ≡ true) (sym named) (=t=-refl id)) s.notes c.old c.found),
    )

-- The row that a replacement left is found under the note's id.
pub found_after :
    (s u : NoteStore) (id : Text) (test : NoteRow → Bool) (set : NoteRow → NoteRow)
    (c : Replaced s id test set u)
    → MovesOn set
    → find_where (is_note id) u.notes ≡ some (set c.old)
found_after s u id test set c moves =
    subst (λ ns. find_where (is_note id) ns ≡ some (set c.old)) c.notes
      (find_where-replaced NoteRow.note_id id (set c.old)
        (ap (λ k. k =t= id) (moves c.old).0 ∙ find_where-test (is_note id) s.notes c.old c.found)
        s.notes c.old c.found)
