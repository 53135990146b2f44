-- ===== src/Notes/PatchTrials.antt =====
-- The theorems on the use case that applies a patch, at a note that another person reviews meanwhile.
use marginalis.Prelude.{ℕ, ◌≡◌, refl, Bool, true, false, List, [], ◌∷◌, none, some, Result, ok, err}
use marginalis.Text.{Text, codes, trim_end, split_once}
use marginalis.Text.Split.{split_lines, join_lines, strip_newline}
use marginalis.Text.Numbers.{parse_usize, parse_digits, push_digits, push_digit}
use marginalis.Text.Order.{sort_texts, dedup}
use marginalis.Tables.{find_where}
use marginalis.Domain.Words.{NoteCreationSource}
use marginalis.Domain.Notes.{NoteDraft}
use marginalis.Patch.Hunk.{NotePatchOutcome}
use marginalis.Patch.Parse.{
  parse_patch, parse_lines, parse_hunks, parse_hunk, parse_body, parse_hunk_header, parse_range,
  classify, wants_more, take_line, take_mark, is_file_header,
}
use marginalis.Patch.Apply.{
  apply_note_patch, apply_to_source, apply_hunks, apply_hunk, check_hunk, apply_body, apply_line,
  first_line, source_lines, assemble,
}
use marginalis.Notes.Store.{NoteRow, NoteStore, is_note, level_of, access_from_level}
use marginalis.Notes.Mutations.{with_content}
use marginalis.Notes.Calls.{Call, creates, run}
use marginalis.Notes.Reading.{accessible_note}
use marginalis.Notes.Commands.{
  Ports, NoteUseCaseError, reject_warnings_policy, ValidatedNoteDraft, author_year,
}
use marginalis.Notes.Saving.{
  NotePatchApplication, source_draft, read_visible_note, validate_attachments, reject_warnings,
  reference_targets, cited_keys, attachment_ids,
}
use marginalis.Notes.PatchCommand.{apply_patch_command}
use marginalis.Notes.PatchSaved.{patch_saves_on_its_source, dry_run_foretells}
use marginalis.Notes.Examples.{
  running, parse, alice, empty, shared-HasNoteKeys, key, no_links, first_draft, shared,
}

patching : ℕ
unfolding running apply_patch_command accessible_note level_of access_from_level read_visible_note
    validate_attachments reject_warnings reference_targets cited_keys attachment_ids sort_texts
    dedup apply_note_patch apply_to_source apply_hunks apply_hunk check_hunk apply_body apply_line
    first_line source_lines assemble parse_patch parse_lines parse_hunks parse_hunk parse_body
    parse_hunk_header parse_range classify wants_more take_line take_mark is_file_header parse_usize
    parse_digits push_digits push_digit split_lines join_lines strip_newline trim_end split_once
patching = 0

-- Every draft is valid, has the title "A" and refers to nothing.
abbrev valid : NoteDraft → ValidatedNoteDraft
valid d = record {
  draft = record d { title = codes "A" };
  diagnostics = [];
  reference_queries = [];
  citation_queries = [];
  attachment_queries = [];
  citation_style = author_year;
}

abbrev ports : Ports
ports = record {
  parse_url = parse;
  validate_draft = λ d. ok (valid d);
  citation_diagnostics = λ o qs style. ok [];
  note_attachments = λ s principal id. ok none;
}

abbrev patch : Text
patch = codes "--- a/note.adoc\n+++ b/note.adoc\n@@ -3,1 +3,1 @@\n-b\n+c\n"

-- Between the read and the write, Alice makes another note.
abbrev meanwhile : List Call
meanwhile = creates (codes "n2") alice first_draft 125 NoteCreationSource.web no_links ∷ []

abbrev at_write : NoteStore
at_write = run parse shared meanwhile

abbrev saved : Bool → Result NoteUseCaseError (NoteStore × NotePatchApplication)
saved dry =
    apply_patch_command ports shared shared at_write 2 key patch 2 reject_warnings_policy dry 130

abbrev nothing_applied : NotePatchApplication
nothing_applied = record {
  note = none;
  hunks_applied = 0;
  lines_added = 0;
  lines_removed = 0;
  advisories = [];
}

abbrev store_left : Result NoteUseCaseError (NoteStore × NotePatchApplication) → NoteStore
store_left (err x) = empty
store_left (ok (s, app)) = s

abbrev app_of : Result NoteUseCaseError (NoteStore × NotePatchApplication) → NotePatchApplication
app_of (err x) = nothing_applied
app_of (ok (s, app)) = app

saved_ok :
    apply_patch_command ports shared shared at_write 2 key patch 2 reject_warnings_policy false 130
    ≡ ok (store_left (saved false), app_of (saved false))
unfolding patching
saved_ok = refl

-- The run stores the patched source.
saved_lines : (app_of (saved false)).lines_added ≡ 1
unfolding patching
saved_lines = refl

patch_saves_on_its_source_example :
    (r : NoteRow) × (outcome : NotePatchOutcome) × (v : ValidatedNoteDraft) × (find_where
        (is_note key)
        at_write.notes
      ≡ some r)
    × (r.revision ≡ 2)
    × (apply_note_patch r.source patch ≡ ok outcome)
    × (ports.validate_draft (source_draft outcome.source) ≡ ok v)
    × (find_where (is_note key) (store_left (saved false)).notes
        ≡ some (with_content v.draft 130 r))
patch_saves_on_its_source_example =
    patch_saves_on_its_source ports shared shared meanwhile 2 key patch 2 reject_warnings_policy 130
      (store_left (saved false)) (app_of (saved false)) shared-HasNoteKeys refl saved_ok

dry_run_foretells_example :
    apply_patch_command ports shared shared at_write 2 key patch 2 reject_warnings_policy true 130
    ≡ ok (at_write, record (app_of (saved false)) { note = none })
dry_run_foretells_example =
    dry_run_foretells ports shared shared at_write 2 key patch 2 reject_warnings_policy 130
      (store_left (saved false)) (app_of (saved false)) saved_ok
