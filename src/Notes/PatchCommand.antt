-- ===== src/Notes/PatchCommand.antt =====
-- `NoteApplication::apply_note_patch` of crates/marginalis-application/src/notes/commands.rs, and the note
-- that its patch meets when other transactions run between its reads and its write.
use mathlib.Core.Path.{subst}
use marginalis.Prelude.{
  ℕ, ◌<◌, ltb, ◌≡◌, refl, sym, ap, ◌∙◌, ◌⊎◌, Bool, true, false, not, ◌==◌, inl, inr, List, [], ◌∷◌,
  ◌++◌, arith, All, Result, ok, err, ◌>>=◌, refuse_if,
}
use marginalis.Text.{Text, ◌=t=◌}
use marginalis.Text.Equality.{=t=-eq}
use marginalis.Tables.{
  exists_where, find_where-All, find_where-test, update_where-All, delete_where-All, All-snoc,
}
use marginalis.Domain.Words.{rank, edit}
use marginalis.Patch.Apply.{apply_note_patch}
use marginalis.Notes.Store.{NoteRow, NoteStore, is_note}
use marginalis.Notes.Mutations.{RestoreNoteError}
use marginalis.Notes.Updates.{update_visible_note}
use marginalis.Notes.Removal.{without_purged, purged}
use marginalis.Notes.Commands.{
  Ports, NoteUseCaseError, note_not_found, revision_conflict, NoteWritePolicy, or_invalid,
}
use marginalis.Notes.Saving.{
  NotePatchApplication, or_rejected, source_draft, save_patch, read_visible_note,
  validate_attachments, owner_diagnostics, reject_warnings, links_of,
}
use marginalis.Notes.Calls.{
  Call, Moves, adds, advances, removes, perform, after, run, perform-Moves,
}
use marginalis.Notes.Advance.{HasNoteKeys}
use marginalis.Notes.Unique.{Moves-HasNoteKeys}
use marginalis.Notes.Lost.{gives_id, makes}

-- The stores are those that the read of the note, the list of its attachments and the write find.
unfoldable pub apply_patch_command :
    Ports
    → NoteStore
    → NoteStore
    → NoteStore
    → ℕ
    → Text
    → Text
    → ℕ
    → NoteWritePolicy
    → Bool
    → ℕ
    → Result NoteUseCaseError (NoteStore × NotePatchApplication)
apply_patch_command ports at_read at_attachments at_write principal id patch expected policy dry_run
      now =
    do
      accessible ← read_visible_note ports at_read principal id
      _ ← refuse_if (ltb (rank accessible.access) (rank edit)) note_not_found
      _ ← refuse_if (not (accessible.note.revision == expected)) revision_conflict
      outcome ← or_rejected (apply_note_patch accessible.note.draft.source patch)
      v ← or_invalid (ports.validate_draft (source_draft outcome.source))
      _ ← validate_attachments ports at_attachments principal id v.attachment_queries
      cited ← owner_diagnostics ports (ok accessible.note.owner) v.citation_queries v.citation_style
      _ ← reject_warnings policy (v.diagnostics ++ cited)
      save_patch dry_run at_write outcome (v.diagnostics ++ cited) (
          update_visible_note ports.parse_url at_write principal id expected v.draft (links_of v)
            now)

-- The note is still as it was, or past its revision.
abbrev pub IsSameOrPast : NoteRow → NoteStore → Type 0
IsSameOrPast r s =
    All (λ x. is_note r.note_id x ≡ true → (x ≡ r) ⊎ (r.revision < x.revision)) s.notes

Moves-IsSameOrPast :
    (s s' : NoteStore) (c : Call) (r : NoteRow)
    → Moves s s' c
    → makes r.note_id c ≡ false
    → IsSameOrPast r s
    → IsSameOrPast r s'
unfolding without_purged
Moves-IsSameOrPast s s' c r (adds new who m e t) other v =
    subst (All (λ x. is_note r.note_id x ≡ true → (x ≡ r) ⊎ (r.revision < x.revision))) m.notes
      (All-snoc _ s.notes new v (λ q. absurd (cc (other, ap (gives_id r.note_id) e, q))))
Moves-IsSameOrPast s s' c r (advances key old new who kind m t) other v =
    subst (All (λ x. is_note r.note_id x ≡ true → (x ≡ r) ⊎ (r.revision < x.revision))) m.notes (
      update_where-All (λ x. is_note r.note_id x ≡ true → (x ≡ r) ⊎ (r.revision < x.revision)) _
        (is_note key) (λ _. new) (λ x p e q. inr (later q)) (λ x p e. p) s.notes v)
  where
    later : is_note r.note_id new ≡ true → r.revision < new.revision
    later q =
        let same : old.note_id ≡ new.note_id =
          =t=-eq old.note_id key (find_where-test (is_note key) s.notes old m.found)
          ∙ sym m.named in
        elim (find_where-All (λ x. is_note r.note_id x ≡ true → (x ≡ r) ⊎ (r.revision < x.revision))
          (is_note key) s.notes old v m.found (ap (λ i. i =t= r.note_id) same ∙ q)) [
            | inl e ↦ omega (arith, ap (λ x. x.revision) e, m.next)
            | inr e ↦ omega (arith, e, m.next)
          ]
Moves-IsSameOrPast s s' c r (removes cutoff e p) other v =
    subst (IsSameOrPast r) e (delete_where-All _ (purged cutoff) s.notes v)

step-IsSameOrPast :
    (ports : Ports) (s : NoteStore) (c : Call) (res : Result RestoreNoteError NoteStore)
    (r : NoteRow)
    → perform ports.parse_url s c ≡ res
    → makes r.note_id c ≡ false
    → HasNoteKeys s × IsSameOrPast r s
    → HasNoteKeys (after s res) × IsSameOrPast r (after s res)
step-IsSameOrPast ports s c (err x) r e other v = v
step-IsSameOrPast ports s c (ok s') r e other v =
    let m = perform-Moves ports.parse_url s c s' v.0 e in
    (Moves-HasNoteKeys s s' c m v.0, Moves-IsSameOrPast s s' c r m other v.1)

pub run-IsSameOrPast :
    (ports : Ports) (s : NoteStore) (cs : List Call) (r : NoteRow)
    → exists_where (makes r.note_id) cs ≡ false
    → HasNoteKeys s × IsSameOrPast r s
    → HasNoteKeys (run ports.parse_url s cs) × IsSameOrPast r (run ports.parse_url s cs)
unfolding run
run-IsSameOrPast ports s [] r other v = v
run-IsSameOrPast ports s (c ∷ cs) r other v =
    run-IsSameOrPast ports (after s (perform ports.parse_url s c)) cs r (ground arith)
      (step-IsSameOrPast ports s c (perform ports.parse_url s c) r refl (ground arith) v)
