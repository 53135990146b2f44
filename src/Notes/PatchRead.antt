-- ===== src/Notes/PatchRead.antt =====
-- The note that a read by the application finds, next to its row.
use marginalis.Prelude.{
  ℕ, ◌≡◌, refl, sym, ap, ◌∙◌, Bool, true, not, ◌&&◌, inl, inr, Option, none, some, arith, Result,
  ok, err, >>=-eq-ok, ok_or, Option-cases,
}
use marginalis.Text.{Text}
use marginalis.Tables.{find_where}
use marginalis.Tables.Keys.{find_where-key}
use marginalis.Tables.Kept.{find_where-narrow, found_exists}
use marginalis.Domain.Identity.{ParsedUrl}
use marginalis.Principals.{StoreError}
use marginalis.Notes.Store.{NoteRow, NoteStore, is_note, is_deleted, level_of, access_from_level}
use marginalis.Notes.Rows.{DetailsRow, details, note_from_row}
use marginalis.Notes.Shown.{note_from_row-Shows}
use marginalis.Notes.Commands.{Ports, note_not_found, from_store}
use marginalis.Notes.Saving.{read_visible_note}
use marginalis.Notes.Reading.{AccessibleNote, accessible_note, accessible_row, accessible_details}
use marginalis.Notes.Changes.{details-note, some_row}
use marginalis.Notes.Advance.{HasNoteKeys}

-- A note that is reached shows the row of its id.
pub record Reached (s : NoteStore) (id : Text) (a : AccessibleNote) : Type 0 where
  pub row : NoteRow
  pub found : find_where (is_note id) s.notes ≡ some row
  pub source : a.note.draft.source ≡ row.source
  pub revision : a.note.revision ≡ row.revision

accessible_row-note :
    (parse_url : Text → Option ParsedUrl) (d : Option DetailsRow) (level : Option ℕ)
    (a : AccessibleNote)
    → accessible_row parse_url d level ≡ ok (some a)
    → (x : DetailsRow) × (d ≡ some x) × (note_from_row parse_url x ≡ ok a.note)
accessible_row-note parse_url none level a e = absurd cc
accessible_row-note parse_url (some d) none a e = absurd cc
accessible_row-note parse_url (some d) (some level) a e =
    let (access, _, e1) = >>=-eq-ok (access_from_level level) _ e in
    let (note, n, e2) = >>=-eq-ok (note_from_row parse_url d) _ e1 in
    (d, refl, n ∙ ap ok (ground arith))

accessible_note-Reached :
    (parse_url : Text → Option ParsedUrl) (s : NoteStore) (principal : ℕ) (id : Text)
    (a : AccessibleNote)
    → HasNoteKeys s
    → accessible_note parse_url s principal id ≡ ok (some a)
    → Reached s id a
unfolding accessible_note
accessible_note-Reached parse_url s principal id a v e =
    elim (Option-cases (find_where live s.notes)) [
      | inl f ↦ absurd cc
      | inr (r, f) ↦
          let (d, joined, n) =
            accessible_row-note parse_url (details s r) (level_of s r.note_id principal) a
              (sym (ap (accessible_details parse_url s principal) f) ∙ e) in
          let h = note_from_row-Shows parse_url d a.note n in
          let shown : d.note ≡ r = details-note s r d joined in
          record {
            row = r;
            found = whole r f;
            source = ap (λ x. x.source) h.draft ∙ ap (λ x. x.source) shown;
            revision = h.revision ∙ ap (λ x. x.revision) shown;
          }
    ]
  where
    live : NoteRow → Bool
    live r = is_note id r && not (is_deleted r.deleted_at)

    named : (r : NoteRow) → live r ≡ true → is_note id r ≡ true
    named r h = ground arith

    whole :
        (r : NoteRow) → find_where live s.notes ≡ some r → find_where (is_note id) s.notes ≡ some r
    whole r f =
        let (x, found, passes, _) =
          find_where-key NoteRow.note_id id live named s.notes v (found_exists live s.notes r f) in
        let same : x ≡ r =
          some_row x r
            (sym (find_where-narrow (is_note id) live named s.notes x found passes) ∙ f) in
        found ∙ ap some same

pub read_visible_note-Reached :
    (ports : Ports) (s : NoteStore) (principal : ℕ) (id : Text) (a : AccessibleNote)
    → HasNoteKeys s
    → read_visible_note ports s principal id ≡ ok a
    → Reached s id a
unfolding read_visible_note
read_visible_note-Reached ports s principal id a v e =
    let (found, f, e1) =
      >>=-eq-ok (from_store (accessible_note ports.parse_url s principal id)) _ e in
    accessible_note-Reached ports.parse_url s principal id a v
      (kept_ok _ found f ∙ ap ok (is_some found a e1))
  where
    is_some :
        (o : Option AccessibleNote) (a : AccessibleNote)
        → ok_or o note_not_found ≡ ok a
        → o ≡ some a
    is_some none a e = absurd cc
    is_some (some b) a e = cc

    kept_ok :
        (r : Result StoreError (Option AccessibleNote)) (o : Option AccessibleNote)
        → from_store r ≡ ok o
        → r ≡ ok o
    kept_ok (err x) o e = absurd cc
    kept_ok (ok w) o e = cc
