-- ===== src/Notes/PatchSaved.antt =====
-- What `apply_note_patch` of the application saves, and what its dry run foretells.
use mathlib.Core.Path.{subst}
use marginalis.Prelude.{
  ℕ, ◌<◌, ltb, ◌≡◌, refl, sym, ap, ◌∙◌, ◌⊎◌, Bool, true, false, not, ◌==◌, inl, inr, List, ◌++◌,
  none, some, arith, Result, ok, err, >>=-eq-ok, refuse_if,
}
use marginalis.Text.{Text, ◌=t=◌}
use marginalis.Text.Equality.{=t=-eq}
use marginalis.Tables.{find_where, exists_where, find_where-All, find_where-test}
use marginalis.Tables.Keys.{find_where-HasKeys}
use marginalis.Domain.Words.{rank, edit, content_updated}
use marginalis.Domain.Notes.{Note}
use marginalis.Patch.Hunk.{NotePatchError, NotePatchOutcome}
use marginalis.Patch.Apply.{apply_note_patch}
use marginalis.Principals.{StoreError}
use marginalis.Notes.Store.{NoteRow, NoteStore, is_note}
use marginalis.Notes.Mutations.{with_content}
use marginalis.Notes.Updates.{update_visible_note}
use marginalis.Notes.Commands.{
  Ports, note_not_found, revision_conflict, NoteWritePolicy, ValidatedNoteDraft,
  NoteAdvisoryDiagnostic, NoteValidationDiagnostic, or_invalid,
}
use marginalis.Notes.Saving.{
  NotePatchApplication, application_of, or_rejected, source_draft, save_patch, read_visible_note,
  validate_attachments, owner_diagnostics, reject_warnings, links_of,
}
use marginalis.Notes.Reading.{AccessibleNote}
use marginalis.Notes.Calls.{Call, run, reached_revision}
use marginalis.Notes.Changes.{update_visible_note_with_kind-Made}
use marginalis.Notes.Outcomes.{left_row}
use marginalis.Notes.Advance.{HasNoteKeys}
use marginalis.Notes.Lost.{makes}
use marginalis.Notes.PatchCommand.{apply_patch_command, run-IsSameOrPast}
use marginalis.Notes.PatchRead.{read_visible_note-Reached}

-- The steps of a command that went through, up to the write.
record WentThrough (ports : Ports) (at_read at_attachments at_write : NoteStore) (principal : ℕ)
    (id patch : Text) (expected : ℕ) (now : ℕ) (s' : NoteStore) (app : NotePatchApplication)
    : Type 0 where
  accessible : AccessibleNote
  read : read_visible_note ports at_read principal id ≡ ok accessible
  at_revision : (accessible.note.revision == expected) ≡ true
  outcome : NotePatchOutcome
  applied : apply_note_patch accessible.note.draft.source patch ≡ ok outcome
  valid : ValidatedNoteDraft
  validated : ports.validate_draft (source_draft outcome.source) ≡ ok valid
  note : Note
  written :
      update_visible_note ports.parse_url at_write principal id expected valid.draft
        (links_of valid)
        now
      ≡ ok (s', note)

not_refused : {E : Type 0} (b : Bool) (x : E) {u : Unit {0}} → refuse_if (not b) x ≡ ok u → b ≡ true
not_refused true x e = refl
not_refused false x e = absurd cc

applied_ok :
    (r : Result NotePatchError NotePatchOutcome) (o : NotePatchOutcome)
    → or_rejected r ≡ ok o
    → r ≡ ok o
applied_ok (err x) o e = absurd cc
applied_ok (ok w) o e = cc

valid_ok :
    (r : Result (List NoteValidationDiagnostic) ValidatedNoteDraft) (v : ValidatedNoteDraft)
    → or_invalid r ≡ ok v
    → r ≡ ok v
valid_ok (err x) v e = absurd cc
valid_ok (ok w) v e = cc

saved_ok :
    (s : NoteStore) (outcome : NotePatchOutcome) (ds : List NoteAdvisoryDiagnostic)
    (written : Result StoreError (NoteStore × Note)) (s' : NoteStore) (app : NotePatchApplication)
    → save_patch false s outcome ds written ≡ ok (s', app)
    → (note : Note) × (written ≡ ok (s', note)) × (app ≡ application_of (some note) outcome ds)
saved_ok s outcome ds (err x) s' app e = absurd cc
saved_ok s outcome ds (ok (w, note)) s' app e = (note, ground arith, ground arith)

foretold :
    (s : NoteStore) (outcome : NotePatchOutcome) (ds : List NoteAdvisoryDiagnostic)
    (written : Result StoreError (NoteStore × Note)) (app : NotePatchApplication) (note : Note)
    → app ≡ application_of (some note) outcome ds
    → save_patch true s outcome ds written ≡ ok (s, record app { note = none })
foretold s outcome ds written app note e = ap (λ x. ok (s, record x { note = none })) (sym e)

command-WentThrough :
    (ports : Ports) (at_read at_attachments at_write : NoteStore) (principal : ℕ) (id patch : Text)
    (expected : ℕ) (policy : NoteWritePolicy) (now : ℕ) (s' : NoteStore)
    (app : NotePatchApplication)
    → apply_patch_command ports at_read at_attachments at_write principal id patch expected policy
        false now
      ≡ ok (s', app)
    → WentThrough ports at_read at_attachments at_write principal id patch expected now s' app
      × (apply_patch_command ports at_read at_attachments at_write principal id patch expected
            policy true now
          ≡ ok (at_write, record app { note = none }))
unfolding apply_patch_command
command-WentThrough ports at_read at_attachments at_write principal id patch expected policy now s'
      app e =
    let (a, read, e1) = >>=-eq-ok (read_visible_note ports at_read principal id) _ e in
    let (u1, editor, e2) =
      >>=-eq-ok (refuse_if (ltb (rank a.access) (rank edit)) note_not_found) _ e1 in
    let (u2, same, e3) =
      >>=-eq-ok (refuse_if (not (a.note.revision == expected)) revision_conflict) _ e2 in
    let (outcome, applied, e4) =
      >>=-eq-ok (or_rejected (apply_note_patch a.note.draft.source patch)) _ e3 in
    let (v, valid, e5) =
      >>=-eq-ok (or_invalid (ports.validate_draft (source_draft outcome.source))) _ e4 in
    let (u3, attached, e6) =
      >>=-eq-ok (validate_attachments ports at_attachments principal id v.attachment_queries) _
        e5 in
    let (cited, resolved, e7) =
      >>=-eq-ok (owner_diagnostics ports (ok a.note.owner) v.citation_queries v.citation_style) _
        e6 in
    let (u4, allowed, e8) = >>=-eq-ok (reject_warnings policy (v.diagnostics ++ cited)) _ e7 in
    let (note, written, shown) = saved_ok at_write outcome (v.diagnostics ++ cited) _ s' app e8 in
    (
      record {
        accessible = a;
        read = read;
        at_revision = not_refused _ _ same;
        outcome = outcome;
        applied = applied_ok _ outcome applied;
        valid = v;
        validated = valid_ok _ v valid;
        note = note;
        written = written;
      },
      rw (read, editor, same, applied)
          (rw (valid, attached)
            (rw (resolved, allowed)
              (foretold at_write outcome (v.diagnostics ++ cited)
                (update_visible_note ports.parse_url at_write principal id expected v.draft
                  (links_of v) now)
                app note shown))),
    )

-- A patch that is saved was applied to the source that it replaces: where the store that was read has no
-- two notes with the same id, as the primary key ensures, and whatever transactions of the model ran
-- between the read and the write, as long as none of them made a new note with the id, the row that
-- the write changes is at the expected revision, the patch applies to its source, and the new row
-- holds what the validation makes of the result.
pub patch_saves_on_its_source :
    (ports : Ports) (s at_attachments : NoteStore) (cs : List Call) (principal : ℕ)
    (id patch : Text) (expected : ℕ) (policy : NoteWritePolicy) (now : ℕ) (s' : NoteStore)
    (app : NotePatchApplication)
    → HasNoteKeys s
    → exists_where (makes id) cs ≡ false
    → apply_patch_command ports s at_attachments
        (run ports.parse_url s cs)
        principal
        id
        patch
        expected
        policy
        false
        now
      ≡ ok (s', app)
    → (r : NoteRow) × (outcome : NotePatchOutcome) × (v : ValidatedNoteDraft) × (find_where
          (is_note id)
          (run ports.parse_url s cs).notes
        ≡ some r)
      × (r.revision ≡ expected)
      × (apply_note_patch r.source patch ≡ ok outcome)
      × (ports.validate_draft (source_draft outcome.source) ≡ ok v)
      × (find_where (is_note id) s'.notes ≡ some (with_content v.draft now r))
patch_saves_on_its_source ports s at_attachments cs principal id patch expected policy now s' app v
      other e =
    let (w, _) =
      command-WentThrough ports s at_attachments (run ports.parse_url s cs) principal id patch
        expected policy now s' app e in
    let a = read_visible_note-Reached ports s principal id w.accessible v w.read in
    let key : a.row.note_id ≡ id =
      =t=-eq a.row.note_id id (find_where-test (is_note id) s.notes a.row a.found) in
    let (v', kept) =
      run-IsSameOrPast ports s cs a.row
        (subst (λ i. exists_where (makes i) cs ≡ false) (sym key) other)
        (
          v,
          find_where-HasKeys NoteRow.note_id (λ x. (x ≡ a.row) ⊎ (a.row.revision < x.revision))
              (is_note id) s.notes a.row v a.found (inl refl),
        ) in
    let m =
      update_visible_note_with_kind-Made ports.parse_url (run ports.parse_url s cs) principal id
        expected w.valid.draft (links_of w.valid) now content_updated s' w.note v' w.written in
    let at_write : expected ≡ m.old.revision =
      reached_revision (run ports.parse_url s cs) id expected principal edit m.old m.hit in
    let at_read : a.row.revision ≡ expected = sym a.revision ∙ ground (arith, w.at_revision) in
    let same : m.old ≡ a.row =
      elim (find_where-All
        (λ x. is_note a.row.note_id x ≡ true → (x ≡ a.row) ⊎ (a.row.revision < x.revision))
        (is_note id) (run ports.parse_url s cs).notes m.old kept m.advances.found
        (ap (λ i. m.old.note_id =t= i) key
          ∙ find_where-test (is_note id) (run ports.parse_url s cs).notes m.old m.advances.found)) [
            | inl q ↦ q
            | inr q ↦ absurd (omega (arith, q, at_write, at_read))
          ] in
    (
      m.old,
      w.outcome,
      w.valid,
      m.advances.found,
      sym at_write,
      ap (λ t. apply_note_patch t patch) (ap (λ x. x.source) same ∙ sym a.source) ∙ w.applied,
      w.validated,
      left_row (run ports.parse_url s cs) s' id m.old (with_content w.valid.draft now m.old)
          principal content_updated m.advances,
    )

-- Where a patch is saved, a dry run of it in the same stores reports the same counts and advisories,
-- returns no note and leaves the store as it is.
pub dry_run_foretells :
    (ports : Ports) (at_read at_attachments at_write : NoteStore) (principal : ℕ) (id patch : Text)
    (expected : ℕ) (policy : NoteWritePolicy) (now : ℕ) (s' : NoteStore)
    (app : NotePatchApplication)
    → apply_patch_command ports at_read at_attachments at_write principal id patch expected policy
        false now
      ≡ ok (s', app)
    → apply_patch_command ports at_read at_attachments at_write principal id patch expected policy
        true now
      ≡ ok (at_write, record app { note = none })
dry_run_foretells ports at_read at_attachments at_write principal id patch expected policy now s'
      app e =
    (command-WentThrough ports at_read at_attachments at_write principal id patch expected policy
      now s' app e).1
