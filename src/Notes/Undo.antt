-- ===== src/Notes/Undo.antt =====
-- The restoration of a deleted note, within the time for which it is kept and after it.
use mathlib.Core.Path.{subst}
use marginalis.Prelude.{
  ℕ, suc, ◌<◌, ◌-◌, ◌≡◌, refl, ap, ◌∙◌, true, false, ◌==◌, leb, Bool-cases, inl, inr, List, Option,
  none, some, arith, All, ok, err,
}
use marginalis.Text.{Text, ◌=t=◌}
use marginalis.Text.Equality.{=t=-eq, =t=-refl}
use marginalis.Tables.{
  find_where, update_where, exists_where, find_where-test, update_where-All, All-trivial,
}
use marginalis.Tables.Keys.{find_where-key}
use marginalis.Tables.Kept.{find_where-narrow}
use marginalis.Domain.Identity.{ParsedUrl}
use marginalis.Domain.Words.{manage, deleted}
use marginalis.Domain.Notes.{Note, NoteDraft, soft_delete_retention_ms}
use marginalis.Notes.Store.{NoteRow, NoteStore, is_note, owns, has_access}
use marginalis.Notes.Shown.{note_from_row-Shows}
use marginalis.Notes.Mutations.{retention_expired, reached, with_deletion, with_restoration}
use marginalis.Notes.Updates.{soft_delete_visible_note}
use marginalis.Notes.Removal.{
  restorable, classify_failed_restore, deleted_owned, deleted_since, restore_owned_deleted_note,
}
use marginalis.Notes.Changes.{soft_delete_visible_note-Made, restore_owned_deleted_note-Made}
use marginalis.Notes.Calls.{reached_revision}
use marginalis.Notes.Advance.{HasNoteKeys}
use marginalis.Notes.Unique.{advance-HasNoteKeys}
use marginalis.Notes.Outcomes.{left_row}
use marginalis.Notes.Strangers.{Lacks-manage}
use marginalis.Notes.Refused.{update_notes-missed}

same_found : (o : Option NoteRow) (a b : NoteRow) → o ≡ some a → o ≡ some b → a ≡ b
same_found o a b p q = cc

abbrev pub draft_of : NoteRow → NoteDraft
draft_of r = record { source = r.source; title = r.title; tags = r.tags }

-- In a store in which no two notes have the same id, as the primary key ensures: when a note was deleted
-- and then restored with the revision that the deletion gave it, the restored
-- note has the content and the time of creation that it had before the deletion, is not deleted, and
-- is two revisions further.
pub delete_then_restore :
    (parse_url : Text → Option ParsedUrl) (s s1 s2 : NoteStore) (who : ℕ) (id : Text)
    (n deleted_at restored_at : ℕ) (gone back : Note) (r : NoteRow)
    → HasNoteKeys s
    → find_where (is_note id) s.notes ≡ some r
    → soft_delete_visible_note parse_url s who id n deleted_at ≡ ok (s1, gone)
    → restore_owned_deleted_note parse_url s1 who id (suc n) restored_at ≡ ok (s2, back)
    → (back.draft ≡ draft_of r)
      × (back.created_at ≡ r.created_at)
      × (back.deleted_at ≡ none)
      × (back.revision ≡ suc (suc r.revision))
delete_then_restore parse_url s s1 s2 who id n deleted_at restored_at gone back r v f e1 e2 =
    let m1 = soft_delete_visible_note-Made parse_url s who id n deleted_at s1 gone v e1 in
    let v1 =
      advance-HasNoteKeys s s1 id m1.old (with_deletion deleted_at m1.old) who deleted m1.advances
        v in
    let m2 =
      restore_owned_deleted_note-Made parse_url s1 who id (suc n) restored_at s2 back v1 e2 in
    let before : m1.old ≡ r = same_found _ _ _ m1.advances.found f in
    let between : m2.old ≡ with_deletion deleted_at r =
      same_found _ _ _ m2.advances.found
        (left_row s s1 id m1.old (with_deletion deleted_at m1.old) who deleted m1.advances)
      ∙ ap (with_deletion deleted_at) before in
    let row : m2.row.note ≡ with_restoration restored_at (with_deletion deleted_at r) =
      m2.shows ∙ ap (with_restoration restored_at) between in
    let h = note_from_row-Shows parse_url m2.row back m2.reads in
    (
      h.draft ∙ ap draft_of row,
      h.created_at ∙ ap (λ x. x.created_at) row,
      h.deleted_at ∙ ap (λ x. x.deleted_at) row,
      h.revision ∙ ap (λ x. x.revision) row,
    )

-- Who reaches a note at the owner's level owns it.
reached-owner :
    (s : NoteStore) (id : Text) (n who : ℕ) (r : NoteRow)
    → HasNoteKeys s
    → find_where (is_note id) s.notes ≡ some r
    → reached s id n who manage r ≡ true
    → (r.creator == who) ≡ true
unfolding reached
reached-owner s id n who r v f h = elim (Bool-cases (exists_where (owns id who) s.notes)) [
  | inl e ↦
      let (x, found, own, _) =
        find_where-key NoteRow.note_id id (owns id who) (λ y p. ground arith) s.notes v e in
      let same : x ≡ r = same_found _ _ _ found f in
      subst (λ y. (y.creator == who) ≡ true) same (ground arith)
  | inr e ↦
      let key = =t=-eq r.note_id id (find_where-test (is_note id) s.notes r f) in
      let access : has_access s r.note_id who 3 ≡ true = ground arith in
      absurd (cc (access, ap (λ k. has_access s k who 3) key, Lacks-manage s id who e))
]

all_missed :
    (notes : List NoteRow) (new : NoteRow) (id : Text) (who k cutoff : ℕ)
    → deleted_since cutoff new.deleted_at ≡ false
    → All (λ r. restorable id k cutoff who r ≡ false) (update_where (is_note id) (λ _. new) notes)
unfolding restorable
all_missed notes new id who k cutoff h =
    update_where-All (λ _. Unit {0}) _ (is_note id) (λ _. new) (λ r p e. ground (arith, h))
      (λ r p e. ground (arith, e)) notes (All-trivial _ (λ _. tt) notes)

expired_answer :
    (r : NoteRow) (n cutoff : ℕ)
    → n ≡ r.revision
    → deleted_since cutoff r.deleted_at ≡ false
    → classify_failed_restore (suc n) cutoff (some (record r { revision = suc r.revision }))
      ≡ retention_expired
unfolding classify_failed_restore
expired_answer r n cutoff e h =
    let same : (suc r.revision == suc n) ≡ true = ground arith in
    let positive : (suc r.revision == 0) ≡ false = ground arith in rw positive (rw same (rw h refl))

-- In a store in which no two notes have the same id, as the primary key ensures: once the time for which
-- a deleted note is kept has passed, its restoration by the principal that
-- deleted it, with the revision that the deletion gave it, is answered that the time has expired.
pub restore_expired :
    (parse_url : Text → Option ParsedUrl) (s s1 : NoteStore) (who : ℕ) (id : Text)
    (n deleted_at now : ℕ) (gone : Note)
    → HasNoteKeys s
    → soft_delete_visible_note parse_url s who id n deleted_at ≡ ok (s1, gone)
    → deleted_at < now - soft_delete_retention_ms
    → restore_owned_deleted_note parse_url s1 who id (suc n) now ≡ err retention_expired
unfolding restore_owned_deleted_note
restore_expired parse_url s s1 who id n deleted_at now gone v e late =
    let m = soft_delete_visible_note-Made parse_url s who id n deleted_at s1 gone v e in
    let new = with_deletion deleted_at m.old in
    let cutoff = now - soft_delete_retention_ms in
    let past : leb cutoff deleted_at ≡ false = ground (arith, late) in
    let own : (m.old.creator == who) ≡ true =
      reached-owner s id n who m.old v m.advances.found m.hit in
    let found : find_where (deleted_owned id who) s1.notes ≡ some new =
      find_where-narrow (is_note id) (deleted_owned id who) (λ y p. ground arith) s1.notes new
        (left_row s s1 id m.old new who deleted m.advances)
        (rw (ap (λ k. k =t= id) m.advances.named ∙ =t=-refl id) own) in
    rw
      (
        update_notes-missed s1 (restorable id (suc n) cutoff who) (with_restoration now) (
            subst (All (λ r. restorable id (suc n) cutoff who r ≡ false)) m.advances.notes
              (all_missed s.notes new id who (suc n) cutoff past)),
        found,
      )
      (ap err (
        expired_answer (record new { revision = m.old.revision }) n cutoff
          (reached_revision s id n who manage m.old m.hit) past))
