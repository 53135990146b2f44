-- ===== src/Patch/Examples.antt =====
-- Tests of the patch reader and of the application, after those of patch.rs, and the theorems at
-- concrete patches.
use marginalis.Prelude.{
  ℕ, ◌≤◌, ◌≡◌, refl, ok, ◌∷◌, [], true, false, List, length, ◌==◌, All, arith, if◌then◌else◌,
}
use marginalis.Text.{Text, codes, newline, trim_end, split_once, byte_len, ends_with_char}
use marginalis.Text.Split.{split_lines, join_lines, strip_newline}
use marginalis.Text.Numbers.{parse_usize, parse_digits, push_digits, push_digit}
use marginalis.Domain.Policy.{note_policy}
use marginalis.Patch.Hunk.{NotePatchOutcome, hunk_mismatch, Hunk, context, remove, add}
use marginalis.Patch.Parse.{
  parse_patch, parse_lines, parse_hunks, parse_hunk, parse_body, parse_hunk_header, parse_range,
  classify, wants_more, take_line, take_mark, is_file_header,
}
use marginalis.Patch.Apply.{
  Applying, start, apply_note_patch, apply_to_source, apply_hunks, apply_hunk, check_hunk,
  apply_body, apply_line, first_line, source_lines, assemble,
}
use marginalis.Patch.Counts.{HasCounts, parse_patch-HasCounts}
use marginalis.Patch.Fuel.{parse_hunks_enough}
use marginalis.Patch.Body.{FirstMismatch, apply_body-FirstMismatch}
use marginalis.Patch.Total.{IsExact}
use marginalis.Patch.Endings.{assemble-source_lines}
use marginalis.Patch.Application.{
  IsOutcome, apply_note_patch-IsOutcome, apply_to_source-total, blank_line_lost, last_mark,
  apply_hunks-ending,
}

-- What a run of the whole operation computes with.
running : ℕ
unfolding apply_note_patch apply_to_source apply_hunks apply_hunk check_hunk apply_body apply_line
    first_line source_lines assemble parse_patch parse_lines parse_hunks parse_hunk parse_body
    parse_hunk_header parse_range classify wants_more take_line take_mark is_file_header parse_usize
    parse_digits push_digits push_digit split_lines join_lines strip_newline trim_end split_once
running = 0

abbrev source : Text
source = codes "a\nb\nc\n"

abbrev patch : Text
patch = codes "--- a/note.adoc\n+++ b/note.adoc\n@@ -1,2 +1,2 @@\n a\n-b\n+B\n"

abbrev hunk : Hunk
hunk = record {
  old_start = 1;
  old_len = 2;
  new_len = 2;
  lines = context (codes "a") ∷ remove (codes "b") ∷ add (codes "B") ∷ [];
  old_ends_without_newline = false;
  new_ends_without_newline = false;
}

abbrev outcome : NotePatchOutcome
outcome = record {
  source = codes "a\nB\nc\n";
  hunks_applied = 1;
  lines_added = 1;
  lines_removed = 1;
}

patch_run : apply_note_patch source patch ≡ ok outcome
unfolding running
patch_run = refl

patch_read : parse_patch patch ≡ ok (hunk ∷ [])
unfolding running
patch_read = refl

apply_note_patch-IsOutcome_example :
    (hunks : List Hunk) × (out : List Text) × (parse_patch patch ≡ ok hunks)
    × IsOutcome source hunks out outcome
    × (byte_len patch ≤ note_policy.max_patch_bytes)
    × (length hunks ≤ note_policy.max_patch_hunks)
apply_note_patch-IsOutcome_example = apply_note_patch-IsOutcome source patch outcome patch_run

hunk-IsExact : All (IsExact (source_lines source) (ends_with_char newline source)) (hunk ∷ [])
unfolding running
hunk-IsExact = (record { counted = omega arith; numbered = λ _. omega arith; marked = refl }, tt)

apply_to_source-total_example :
    (o : NotePatchOutcome) × (apply_to_source source (hunk ∷ []) ≡ ok o)
    × IsOutcome source (hunk ∷ []) (codes "a" ∷ codes "B" ∷ codes "c" ∷ []) o
unfolding running
apply_to_source-total_example =
    apply_to_source-total source (hunk ∷ []) (codes "a" ∷ codes "B" ∷ codes "c" ∷ []) (omega arith)
      hunk-IsExact ([], codes "c" ∷ [], codes "c" ∷ [], refl, refl, refl, refl)

parse_patch-HasCounts_example : All HasCounts (hunk ∷ [])
parse_patch-HasCounts_example = parse_patch-HasCounts patch (hunk ∷ []) patch_read

-- The source has "b" where the patch expects "x".
apply_body-FirstMismatch_example :
    FirstMismatch (codes "a" ∷ codes "b" ∷ []) 1 0 (codes "a" ∷ codes "x" ∷ []) (hunk_mismatch 1 2)
unfolding running
apply_body-FirstMismatch_example =
    apply_body-FirstMismatch (codes "a" ∷ codes "b" ∷ []) 1 (start [] true)
      (context (codes "a") ∷ remove (codes "x") ∷ []) (hunk_mismatch 1 2) refl

parse_hunks_enough_example :
    parse_hunks 3 [] 3 (codes "@@ -1 +1 @@" ∷ codes "-a" ∷ codes "+b" ∷ [])
    ≡ parse_hunks 9 [] 3 (codes "@@ -1 +1 @@" ∷ codes "-a" ∷ codes "+b" ∷ [])
parse_hunks_enough_example =
    parse_hunks_enough 3 9 [] 3 (codes "@@ -1 +1 @@" ∷ codes "-a" ∷ codes "+b" ∷ []) (omega arith)
      (omega arith)

assemble-source_lines_example :
    assemble (source_lines source) (start (source_lines source) true).output_ends_without_newline
    ≡ source
assemble-source_lines_example = assemble-source_lines source (λ e. cc)

-- An insertion of one empty line into the empty source.
abbrev insertion : Hunk
insertion = record {
  old_start = 0;
  old_len = 0;
  new_len = 1;
  lines = add [] ∷ [];
  old_ends_without_newline = false;
  new_ends_without_newline = false;
}

abbrev lost : NotePatchOutcome
lost = record { source = []; hunks_applied = 1; lines_added = 1; lines_removed = 0 }

insertion_run : apply_to_source [] (insertion ∷ []) ≡ ok lost
unfolding running
insertion_run = refl

blank_line_lost_example : lost.source ≡ []
unfolding running
blank_line_lost_example =
    blank_line_lost [] (insertion ∷ []) lost insertion_run ([], [], [], refl, refl, refl, refl)

-- The last line of a source with no final newline is replaced by one that has it.
abbrev replacement : Hunk
replacement = record {
  old_start = 2;
  old_len = 1;
  new_len = 1;
  lines = remove (codes "b") ∷ add (codes "B") ∷ [];
  old_ends_without_newline = true;
  new_ends_without_newline = false;
}

abbrev two_lines : List Text
two_lines = codes "a" ∷ codes "b" ∷ []

abbrev replaced : Applying
replaced = record {
  output = codes "a" ∷ codes "B" ∷ [];
  output_ends_without_newline = false;
  cursor = 2;
  lines_added = 1;
  lines_removed = 1;
}

apply_hunks-ending_example :
    (0 ≤ 2)
    × (2 ≤ length two_lines)
    × (replaced.output_ends_without_newline
        ≡ (if replaced.cursor == length two_lines then last_mark false [] else true))
unfolding running
apply_hunks-ending_example =
    apply_hunks-ending two_lines false 1 (start two_lines false) replacement [] replaced refl

-- A body with more old lines than the header counts is read and applied: its mark is not asked for.
overlong_run :
    apply_note_patch
      (codes "a\nb")
      (codes "--- a/note.adoc\n+++ b/note.adoc\n@@ -1,1 +1,2 @@\n-a\n b\n+c\n")
    ≡ ok (record { source = codes "b\nc\n"; hunks_applied = 1; lines_added = 1; lines_removed = 1 })
unfolding running
overlong_run = refl
