-- ===== src/Notes/Calls.antt =====
-- Histories of transactions on the tables of notes. One that fails is rolled back.
use marginalis.Prelude.{
  ℕ, ◌≡◌, refl, sym, ap, ◌∙◌, Bool, true, false, List, [], ◌∷◌, ◌++◌, Option, none, some, arith,
  Result, ok, err, >>=-eq-ok, refuse_if, not, ◌-◌,
}
use marginalis.Text.{Text}
use marginalis.Tables.{
  find_where, exists_where, insert_row, insert_row-ok, find_where-snoc, exists_where-false_All,
}
use marginalis.Text.Equality.{=t=-refl}
use marginalis.Principals.{StoreError, database}
use marginalis.Domain.Identity.{ParsedUrl, PrincipalRef}
use marginalis.Domain.Words.{
  NoteCreationSource, NoteRevisionKind, created, content_updated, history_restored, NoteAccess,
  edit, manage,
}
use marginalis.Domain.Notes.{Note, NoteDraft, NoteAclEntry, create, soft_delete_retention_ms}
use marginalis.Notes.Store.{NoteRow, NoteStore, is_note, is_revision, row_allowed}
use marginalis.Notes.History.{insert_note_revision, snapshot_of}
use marginalis.Notes.Mutations.{
  NoteLinks, reached, RestoreNoteError, store, row_of, insert_note, create_note, replace_link_rows,
}
use marginalis.Notes.Updates.{
  update_visible_note, restore_visible_note_revision, soft_delete_visible_note,
  mark_owned_note_reviewed, replace_note_acl,
}
use marginalis.Notes.Removal.{
  restorable, stored, restore_owned_deleted_note, without_purged, purge_deleted_before,
  purge_deleted_before-ok,
}
use marginalis.Notes.Advance.{
  HasNoteKeys, Advances, insert_note_revision-Records, replace_attachments-same,
}
use marginalis.Notes.Changes.{
  Made, stored_ok, update_visible_note_with_kind-Made, soft_delete_visible_note-Made,
  mark_owned_note_reviewed-Made, replace_note_acl-Made, restore_owned_deleted_note-Made,
}

-- A transaction with its arguments: who acts, the note, the revision that is expected, and the time.
pub data Call : Type 0 where
  creates : Text → PrincipalRef → NoteDraft → ℕ → NoteCreationSource → NoteLinks → Call
  updates : ℕ → Text → ℕ → NoteDraft → NoteLinks → ℕ → Call
  reverts : ℕ → Text → ℕ → NoteDraft → NoteLinks → ℕ → Call
  deletes : ℕ → Text → ℕ → ℕ → Call
  reviews : ℕ → Text → ℕ → ℕ → Call
  shares : ℕ → Text → List NoteAclEntry → ℕ → ℕ → Call
  restores : ℕ → Text → ℕ → ℕ → Call
  purges : ℕ → Call

abbrev store_of : Result StoreError (NoteStore × Note) → Result RestoreNoteError NoteStore
store_of (err x) = err (store x)
store_of (ok (s, note)) = ok s

abbrev restored_store :
    Result RestoreNoteError (NoteStore × Note) → Result RestoreNoteError NoteStore
restored_store (err x) = err x
restored_store (ok (s, note)) = ok s

abbrev purged_store : Result StoreError (NoteStore × ℕ) → Result RestoreNoteError NoteStore
purged_store (err x) = err (store x)
purged_store (ok (s, rows)) = ok s

-- A new note is made by `Note::create`.
unfoldable pub perform :
    (Text → Option ParsedUrl) → NoteStore → Call → Result RestoreNoteError NoteStore
perform parse_url s (creates id owner draft now via links) =
    stored (create_note s (create id owner draft now via) links)
perform parse_url s (updates who id expected draft links now) =
    store_of (update_visible_note parse_url s who id expected draft links now)
perform parse_url s (reverts who id expected draft links now) =
    store_of (restore_visible_note_revision parse_url s who id expected draft links now)
perform parse_url s (deletes who id expected now) =
    store_of (soft_delete_visible_note parse_url s who id expected now)
perform parse_url s (reviews who id expected now) =
    store_of (mark_owned_note_reviewed parse_url s who id expected now)
perform parse_url s (shares who id entries expected now) =
    store_of (replace_note_acl parse_url s who id entries expected now)
perform parse_url s (restores who id expected now) =
    restored_store (restore_owned_deleted_note parse_url s who id expected now)
perform parse_url s (purges cutoff) = purged_store (purge_deleted_before s cutoff)

abbrev pub after : NoteStore → Result RestoreNoteError NoteStore → NoteStore
after s (err x) = s
after s (ok s') = s'

unfoldable pub run : (Text → Option ParsedUrl) → NoteStore → List Call → NoteStore
run parse_url s [] = s
run parse_url s (c ∷ cs) = run parse_url (after s (perform parse_url s c)) cs

-- The note that a change is about, and the revision that it expects.
abbrev pub target_of : Call → Option (Text × ℕ)
target_of (creates id owner draft now via links) = none
target_of (updates who id expected draft links now) = some (id, expected)
target_of (reverts who id expected draft links now) = some (id, expected)
target_of (deletes who id expected now) = some (id, expected)
target_of (reviews who id expected now) = some (id, expected)
target_of (shares who id entries expected now) = some (id, expected)
target_of (restores who id expected now) = some (id, expected)
target_of (purges cutoff) = none

-- The id that a call gives to a new note.
abbrev pub created_id : Call → Option Text
created_id (creates id owner draft now via links) = some id
created_id c = none

-- A note was added, at its first revision.
pub record Creates (s s' : NoteStore) (new : NoteRow) (who : ℕ) : Type 0 where
  pub notes : s.notes ++ new ∷ [] ≡ s'.notes
  pub unused : exists_where (is_note new.note_id) s.notes ≡ false
  pub first : new.revision ≡ 1
  pub fresh : exists_where (is_revision new.note_id new.revision) s.revisions ≡ false
  pub history : s.revisions ++ snapshot_of new who created ∷ [] ≡ s'.revisions

-- What a call that commits did.
pub data Moves (s s' : NoteStore) (c : Call) : Type 0 where
  adds :
      (new : NoteRow) (who : ℕ)
      → Creates s s' new who
      → created_id c ≡ some new.note_id
      → target_of c ≡ none
      → Moves s s' c
  advances :
      (id : Text) (old new : NoteRow) (who : ℕ) (kind : NoteRevisionKind)
      → Advances s s' id old new who kind
      → target_of c ≡ some (id, old.revision)
      → Moves s s' c
  removes : (cutoff : ℕ) → without_purged s cutoff ≡ s' → c ≡ purges cutoff → Moves s s' c

same_row : (a b : NoteRow) → some a ≡ some b → a ≡ b
same_row a b p = cc

pub create_note-Creates :
    (s : NoteStore) (id : Text) (owner : PrincipalRef) (draft : NoteDraft) (now : ℕ)
    (via : NoteCreationSource) (links : NoteLinks) (s' : NoteStore)
    → create_note s (create id owner draft now via) links ≡ ok s'
    → Creates s s' (row_of (create id owner draft now via)) owner.id
unfolding create_note insert_note replace_link_rows create
create_note-Creates s id owner draft now via links s' e =
    let note = create id owner draft now via in
    let (u, e0, e1) = >>=-eq-ok (insert_note s (row_of note)) _ e in
    let (_, _, e2) =
      >>=-eq-ok (refuse_if (not (row_allowed s.principals (row_of note))) database) _ e0 in
    let (notes, i, e3) = >>=-eq-ok (insert_row database (is_note id) (row_of note) s.notes) _ e2 in
    let (n, unused) = insert_row-ok database (is_note id) (row_of note) s.notes i in
    let (w, j, e4) =
      >>=-eq-ok (insert_note_revision (replace_link_rows u id links) id owner.id created) _ e1 in
    let r = insert_note_revision-Records (replace_link_rows u id links) id owner.id created w j in
    let (kept_notes, kept_revisions, _) =
      replace_attachments-same w id links.attachment_ids s' e4 in
    let inserted : u.notes ≡ s.notes ++ row_of note ∷ [] = ground arith in
    let untouched : s.revisions ≡ u.revisions = ground arith in
    let row : row_of note ≡ r.row = same_row _ _ (
      sym (
        find_where-snoc (is_note id) s.notes (row_of note) (exists_where-false_All _ s.notes unused)
          (=t=-refl id))
      ∙ ap (find_where (is_note id)) (sym inserted)
      ∙ r.found) in
    record {
      notes = sym inserted ∙ r.notes ∙ kept_notes;
      unused = unused;
      first = refl;
      fresh = ground (arith, row, r.fresh, untouched);
      history = ground (arith, row, r.history, untouched, kept_revisions);
    }

pub store_of-ok :
    (r : Result StoreError (NoteStore × Note)) (s' : NoteStore)
    → store_of r ≡ ok s'
    → (note : Note) × (r ≡ ok (s', note))
store_of-ok (err x) s' e = absurd cc
store_of-ok (ok (s, note)) s' e = (note, cc)

pub restored_store-ok :
    (r : Result RestoreNoteError (NoteStore × Note)) (s' : NoteStore)
    → restored_store r ≡ ok s'
    → (note : Note) × (r ≡ ok (s', note))
restored_store-ok (err x) s' e = absurd cc
restored_store-ok (ok (s, note)) s' e = (note, cc)

purged_store-ok :
    (r : Result StoreError (NoteStore × ℕ)) (s' : NoteStore)
    → purged_store r ≡ ok s'
    → (rows : ℕ) × (r ≡ ok (s', rows))
purged_store-ok (err x) s' e = absurd cc
purged_store-ok (ok (s, rows)) s' e = (rows, cc)

pub reached_revision :
    (s : NoteStore) (id : Text) (expected who : ℕ) (required : NoteAccess) (r : NoteRow)
    → reached s id expected who required r ≡ true
    → expected ≡ r.revision
unfolding reached
reached_revision s id expected who required r e = ground arith

pub restorable_revision :
    (id : Text) (expected cutoff who : ℕ) (r : NoteRow)
    → restorable id expected cutoff who r ≡ true
    → expected ≡ r.revision
unfolding restorable
restorable_revision id expected cutoff who r e = ground arith

made-Moves :
    (parse_url : Text → Option ParsedUrl) (s s' : NoteStore) (id : Text) (expected : ℕ)
    (test : NoteRow → Bool) (set : NoteRow → NoteRow) (who : ℕ) (kind : NoteRevisionKind)
    (note : Note) (c : Call)
    → target_of c ≡ some (id, expected)
    → ((r : NoteRow) → test r ≡ true → expected ≡ r.revision)
    → Made parse_url s s' id test set who kind note
    → Moves s s' c
made-Moves parse_url s s' id expected test set who kind note c t h m =
    advances id m.old (set m.old) who kind m.advances (t ∙ ap (λ n. some (id, n)) (h m.old m.hit))

named :
    (id : Text) (owner : PrincipalRef) (draft : NoteDraft) (now : ℕ) (via : NoteCreationSource)
    → id ≡ (row_of (create id owner draft now via)).note_id
unfolding create
named id owner draft now via = refl

pub perform-Moves :
    (parse_url : Text → Option ParsedUrl) (s : NoteStore) (c : Call) (s' : NoteStore)
    → HasNoteKeys s
    → perform parse_url s c ≡ ok s'
    → Moves s s' c
unfolding perform
perform-Moves parse_url s (creates id owner draft now via links) s' v e =
    adds _ owner.id (create_note-Creates s id owner draft now via links s' (stored_ok _ s' e))
      (ap some (named id owner draft now via)) refl
perform-Moves parse_url s (updates who id expected draft links now) s' v e =
    let (note, r) = store_of-ok _ s' e in
    made-Moves parse_url s s' id expected _ _ who _ note _ refl
      (reached_revision s id expected who edit)
      (update_visible_note_with_kind-Made parse_url s who id expected draft links now
        content_updated s' note v r)
perform-Moves parse_url s (reverts who id expected draft links now) s' v e =
    let (note, r) = store_of-ok _ s' e in
    made-Moves parse_url s s' id expected _ _ who _ note _ refl
      (reached_revision s id expected who edit)
      (update_visible_note_with_kind-Made parse_url s who id expected draft links now
        history_restored s' note v r)
perform-Moves parse_url s (deletes who id expected now) s' v e =
    let (note, r) = store_of-ok _ s' e in
    made-Moves parse_url s s' id expected _ _ who _ note _ refl
      (reached_revision s id expected who manage)
      (soft_delete_visible_note-Made parse_url s who id expected now s' note v r)
perform-Moves parse_url s (reviews who id expected now) s' v e =
    let (note, r) = store_of-ok _ s' e in
    made-Moves parse_url s s' id expected _ _ who _ note _ refl
      (reached_revision s id expected who manage)
      (mark_owned_note_reviewed-Made parse_url s who id expected now s' note v r)
perform-Moves parse_url s (shares who id entries expected now) s' v e =
    let (note, r) = store_of-ok _ s' e in
    made-Moves parse_url s s' id expected _ _ who _ note _ refl
      (reached_revision s id expected who manage)
      (replace_note_acl-Made parse_url s who id entries expected now s' note v r)
perform-Moves parse_url s (restores who id expected now) s' v e =
    let (note, r) = restored_store-ok _ s' e in
    made-Moves parse_url s s' id expected _ _ who _ note _ refl
      (restorable_revision id expected (now - soft_delete_retention_ms) who)
      (restore_owned_deleted_note-Made parse_url s who id expected now s' note v r)
perform-Moves parse_url s (purges cutoff) s' v e =
    let (rows, r) = purged_store-ok _ s' e in
    removes cutoff (purge_deleted_before-ok s cutoff s' rows r) refl
