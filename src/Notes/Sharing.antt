-- ===== src/Notes/Sharing.antt =====
-- crates/marginalis-sqlite/src/note_acl.rs: whom a replaced list of permissions lets in.
use marginalis.Prelude.{
  ℕ, ◌≡◌, refl, sym, ap, ◌∙◌, Bool, true, false, not, ◌&&◌, ◌||◌, ◌==◌, leb, Bool-cases, inl, inr,
  List, [], ◌∷◌, ◌++◌, Option, arith, ok, refuse_if, >>=-eq-ok, if◌then◌else◌,
}
use marginalis.Text.{Text, ◌=t=◌}
use marginalis.Text.Equality.{=t=-eq, =t=-sym}
use marginalis.Tables.{update_where, delete_where, exists_where, insert_row-ok, exists_where-update}
use marginalis.Principals.{database}
use marginalis.Domain.Identity.{ParsedUrl}
use marginalis.Domain.Words.{NoteAccess, manage, acl_updated}
use marginalis.Domain.Notes.{Note, NoteAclEntry}
use marginalis.Notes.Store.{
  NoteRow, AclRow, NoteStore, is_principal, owns, shared_with, has_access, permission_level,
  row_allowed,
}
use marginalis.Notes.Rows.{note_row, note_from_row}
use marginalis.Notes.History.{insert_note_revision}
use marginalis.Notes.Mutations.{
  reached, change_note, update_notes, classify_failed_mutation, with_new_acl,
}
use marginalis.Notes.Updates.{insert_acl, insert_entries, record_change, replace_note_acl}
use marginalis.Notes.Advance.{insert_note_revision-Records}
use marginalis.Notes.Changes.{pair_ok}

-- What `change_note` leaves, as one statement.
change_note-raw :
    (s : NoteStore) (id : Text) (expected who : ℕ) (required : NoteAccess) (set : NoteRow → NoteRow)
    (u : NoteStore)
    → change_note s id expected who required set ≡ ok u
    → record s { notes = update_where (reached s id expected who required) set s.notes } ≡ u
unfolding change_note update_notes
change_note-raw s id expected who required set u e =
    let ((w, n), e0, e1) =
      >>=-eq-ok (update_notes s (reached s id expected who required) set) _ e in
    let (_, _, e2) =
      >>=-eq-ok (refuse_if (not (n == 1)) (classify_failed_mutation w who id required)) _ e1 in
    let (_, _, e3) =
      >>=-eq-ok
        (refuse_if
          (exists_where
            (λ r. reached s id expected who required r && not (row_allowed s.principals (set r)))
            s.notes)
          database)
        _ e0 in
    ground arith

record_change-acl :
    (parse_url : Text → Option ParsedUrl) (w : NoteStore) (who : ℕ) (id : Text) (s' : NoteStore)
    (note : Note)
    → record_change parse_url w who id acl_updated ≡ ok (s', note)
    → (w.acl ≡ s'.acl) × (w.notes ≡ s'.notes)
unfolding record_change
record_change-acl parse_url w who id s' note e =
    let (d, _, e1) = >>=-eq-ok (note_row w id) _ e in
    let (n, _, e2) = >>=-eq-ok (note_from_row parse_url d) _ e1 in
    let (v, i, e3) = >>=-eq-ok (insert_note_revision w id who acl_updated) _ e2 in
    let r =
      insert_note_revision-Records w id who acl_updated s' (i ∙ ap ok (pair_ok v s' n note e3).0) in
    (r.acl, r.notes)

exists_where-added :
    {A : Type 0} (t : A → Bool) (xs : List A) (x : A)
    → exists_where t (xs ++ x ∷ []) ≡ (exists_where t xs || t x)
exists_where-added t [] x = ground arith
exists_where-added t (y ∷ xs) x = ground (arith, exists_where-added t xs x)

-- The rows of a note that let a principal in at a level.
abbrev pub row_lets : Text → ℕ → ℕ → AclRow → Bool
row_lets key p level a = shared_with key p a && leb level (permission_level a.permission)

-- The entries that do.
abbrev pub entry_lets : ℕ → ℕ → NoteAclEntry → Bool
entry_lets p level e = e.principal.id == p && leb level (permission_level e.permission)

insert_acl-row :
    (s : NoteStore) (id : Text) (e : NoteAclEntry) (table acl : List AclRow)
    → insert_acl s id e table ≡ ok acl
    → table
        ++ record { note_id = id; principal_id = e.principal.id; permission = e.permission } ∷ []
      ≡ acl
unfolding insert_acl
insert_acl-row s id e table acl h =
    let (_, _, h1) =
      >>=-eq-ok (refuse_if (exists_where (owns id e.principal.id) s.notes) database) _ h in
    let (_, _, h2) =
      >>=-eq-ok (refuse_if (not (is_principal s.principals e.principal.id)) database) _ h1 in
    (insert_row-ok database _ _ table h2).0

insert_entries-lets :
    (s : NoteStore) (id key : Text) (p level : ℕ) (entries : List NoteAclEntry)
    (table acl : List AclRow)
    → insert_entries s id entries table ≡ ok acl
    → exists_where (row_lets key p level) acl ≡ (
        exists_where (row_lets key p level) table
        || (id =t= key && exists_where (entry_lets p level) entries))
insert_entries-lets s id key p level [] table acl h = ground arith
insert_entries-lets s id key p level (e ∷ entries) table acl h =
    let (grown, h0, h1) = >>=-eq-ok (insert_acl s id e table) _ h in
    let row : AclRow = record {
      note_id = id;
      principal_id = e.principal.id;
      permission = e.permission;
    } in
    let added : exists_where (row_lets key p level) grown
        ≡ (exists_where (row_lets key p level) table || row_lets key p level row) =
      ap (exists_where (row_lets key p level)) (sym (insert_acl-row s id e table grown h0))
      ∙ exists_where-added (row_lets key p level) table row in
    insert_entries-lets s id key p level entries grown acl h1
    ∙ ap (λ b. b || (id =t= key && exists_where (entry_lets p level) entries)) added
    ∙ ground arith

-- The rows that are left when those of the note are deleted.
left_lets :
    (id key : Text) (p level : ℕ) (rows : List AclRow)
    → exists_where (row_lets key p level) (delete_where (λ a. a.note_id =t= id) rows)
      ≡ (if key =t= id then false else exists_where (row_lets key p level) rows)
left_lets id key p level [] = elim (Bool-cases (key =t= id)) [
  | inl e ↦ rw e refl
  | inr e ↦ rw e refl
]
left_lets id key p level (a ∷ rows) = elim (Bool-cases (a.note_id =t= id)) [
  | inl e ↦
      let same = =t=-eq a.note_id id e in
      rw e (left_lets id key p level rows ∙ by_key (apart a same))
  | inr e ↦
      rw e (
        ap (λ b. row_lets key p level a || b) (left_lets id key p level rows)
        ∙ by_other (other a e))
]
  where
    apart : (a : AclRow) → a.note_id ≡ id → (a.note_id =t= key) ≡ (key =t= id)
    apart a same = ap (λ k. k =t= key) same ∙ =t=-sym id key

    other :
        (a : AclRow)
        → (a.note_id =t= id) ≡ false
        → (key =t= id) ≡ true
        → (a.note_id =t= key) ≡ false
    other a e q = ap (λ k. a.note_id =t= k) (=t=-eq key id q) ∙ e

    by_key :
        (a.note_id =t= key) ≡ (key =t= id)
        → (if key =t= id then false else exists_where (row_lets key p level) rows) ≡ (
            if key =t= id
            then false
            else row_lets key p level a || exists_where (row_lets key p level) rows)
    by_key h = ground arith

    by_other :
        ((key =t= id) ≡ true → (a.note_id =t= key) ≡ false)
        → (row_lets key p level a
            || (if key =t= id then false else exists_where (row_lets key p level) rows))
          ≡ (if key =t= id
              then false
              else row_lets key p level a || exists_where (row_lets key p level) rows)
    by_other h = ground arith

-- After the permissions of a note were replaced, a principal has access to a note at a level exactly
-- if it owns the note and the level is at most the owner's, or if an entry of the new list grants it
-- the level; the access to every other note is what it was.
pub replaced_acl_lets_in :
    (parse_url : Text → Option ParsedUrl) (s : NoteStore) (who : ℕ) (id : Text)
    (entries : List NoteAclEntry) (expected now : ℕ) (s' : NoteStore) (note : Note) (key : Text)
    (p level : ℕ)
    → replace_note_acl parse_url s who id entries expected now ≡ ok (s', note)
    → has_access s' key p level ≡ (
        exists_where (λ r. owns key p r && leb level 3) s.notes
        || (if key =t= id
            then exists_where (entry_lets p level) entries
            else exists_where (row_lets key p level) s.acl))
unfolding replace_note_acl has_access
replaced_acl_lets_in parse_url s who id entries expected now s' note key p level e =
    let (u, e0, e1) = >>=-eq-ok (change_note s id expected who manage (with_new_acl now)) _ e in
    let (acl, e2, e3) =
      >>=-eq-ok (insert_entries u id entries (delete_where (λ a. a.note_id =t= id) u.acl)) _ e1 in
    let raw = change_note-raw s id expected who manage (with_new_acl now) u e0 in
    let (same_acl, same_notes) =
      record_change-acl parse_url (record u { acl = acl }) who id s' note e3 in
    let owners : exists_where (λ r. owns key p r && leb level 3) s'.notes
        ≡ exists_where (λ r. owns key p r && leb level 3) s.notes =
      ap (exists_where (λ r. owns key p r && leb level 3))
        (sym same_notes ∙ ap (λ x. x.notes) (sym raw))
      ∙ exists_where-update (reached s id expected who manage) (λ r. owns key p r && leb level 3)
          (with_new_acl now) (λ r. refl) s.notes in
    let shares : exists_where (row_lets key p level) s'.acl ≡ (
        (if key =t= id then false else exists_where (row_lets key p level) s.acl)
        || (id =t= key && exists_where (entry_lets p level) entries)) =
      ap (exists_where (row_lets key p level)) (sym same_acl)
      ∙ insert_entries-lets u id key p level entries _ acl e2
      ∙ ap (λ b. b || (id =t= key && exists_where (entry_lets p level) entries))
          (ap
              (λ rows.
                exists_where (row_lets key p level) (delete_where (λ a. a.note_id =t= id) rows))
              (ap (λ x. x.acl) (sym raw))
            ∙ left_lets id key p level s.acl) in
    rw (owners, shares)
      (merged (exists_where (λ r. owns key p r && leb level 3) s.notes) (=t=-sym id key))
  where
    merged :
        (o : Bool)
        → (id =t= key) ≡ (key =t= id)
        → (o
            || ((if key =t= id then false else exists_where (row_lets key p level) s.acl)
                || (id =t= key && exists_where (entry_lets p level) entries)))
          ≡ (o
              || (if key =t= id
                  then exists_where (entry_lets p level) entries
                  else exists_where (row_lets key p level) s.acl))
    merged o h = ground arith
