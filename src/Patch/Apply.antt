-- ===== src/Patch/Apply.antt =====
-- Applying the hunks of a patch to the stored source: `apply_note_patch` of
-- crates/marginalis-application/src/notes/patch.rs. The local variables of its loop are a record.
use marginalis.Prelude.{
  ℕ, suc, ◌+◌, ◌-◌, Bool, true, false, not, ◌&&◌, ◌||◌, List, [], ◌∷◌, ◌++◌, Option, none, some,
  ltb, leb, ◌==◌, if◌then◌else◌, Result, ok, err, ◌>>=◌, ◌>>◌, refuse_if, length, get_elem?, take,
  drop,
}
use marginalis.Text.{Text, newline, ends_with_char, is_empty, byte_len, ◌=t=◌}
use marginalis.Text.Split.{split_lines, join_lines, drop_last}
use marginalis.Text.Numbers.{usize_limit}
use marginalis.Domain.Policy.{note_policy}
use marginalis.Patch.Hunk.{
  NotePatchError, patch_too_large, too_many_hunks, hunk_out_of_order, hunk_out_of_range,
  hunk_mismatch, HunkLine, context, remove, add, Hunk, NotePatchOutcome,
}
use marginalis.Patch.Parse.{parse_patch}

-- The source as lines, without the empty one behind a final newline.
unfoldable pub source_lines : Text → List Text
source_lines source =
    if is_empty source
    then []
    else if ends_with_char newline source
    then drop_last (split_lines source)
    else split_lines source

pub record Applying : Type 0 where
  pub output : List Text
  pub output_ends_without_newline : Bool
  -- The next line of the source to copy, from 0.
  pub cursor : ℕ
  pub lines_added : ℕ
  pub lines_removed : ℕ

abbrev pub matches_line : Text → Option Text → Bool
matches_line expected none = false
matches_line expected (some found) = found =t= expected

unfoldable pub apply_line : List Text → ℕ → Applying → HunkLine → Result NotePatchError Applying
apply_line lines hunk st (context expected) =
    if matches_line expected (get_elem? lines st.cursor)
    then ok (record st { output = st.output ++ expected ∷ []; cursor = suc st.cursor })
    else err (hunk_mismatch hunk (suc st.cursor))
apply_line lines hunk st (remove expected) =
    if matches_line expected (get_elem? lines st.cursor)
    then ok (record st { lines_removed = suc st.lines_removed; cursor = suc st.cursor })
    else err (hunk_mismatch hunk (suc st.cursor))
apply_line lines hunk st (add added) =
    ok (record st { lines_added = suc st.lines_added; output = st.output ++ added ∷ [] })

unfoldable pub apply_body :
    List Text → ℕ → Applying → List HunkLine → Result NotePatchError Applying
apply_body lines hunk st [] = ok st
apply_body lines hunk st (l ∷ ls) = do
  st' ← apply_line lines hunk st l
  apply_body lines hunk st' ls

-- An insertion (`old_len == 0`) goes behind the line `old_start`; other hunks begin at it.
unfoldable pub first_line : ℕ → Hunk → Result NotePatchError ℕ
first_line number hunk =
    if hunk.old_len == 0
    then ok hunk.old_start
    else if hunk.old_start == 0
    then err (hunk_out_of_range number)
    else ok (hunk.old_start - 1)

-- Copies the lines in front of the hunk.
abbrev pub copy_to : List Text → ℕ → Applying → Applying
copy_to lines first st = record st {
  output = st.output ++ take (first - st.cursor) (drop st.cursor lines);
  cursor = first;
}

-- The hunk's old side ends at the end of the source.
abbrev pub covers_source_end : List Text → Hunk → ℕ → Bool
covers_source_end lines hunk cursor = cursor + hunk.old_len == length lines && ltb 0 hunk.old_len

-- Only a hunk that reaches the end of the source decides on the final newline.
abbrev pub settle_newline : List Text → Hunk → Applying → Applying
settle_newline lines hunk st = record st {
  output_ends_without_newline =
      if st.cursor == length lines
      then hunk.new_ends_without_newline
      else st.output_ends_without_newline;
}

-- What is checked of a hunk before its body: its order, its range, and the marks on its old side.
unfoldable pub check_hunk :
    List Text → Bool → ℕ → Applying → Hunk → ℕ → Result NotePatchError (Unit {0})
check_hunk lines had_trailing_newline number st hunk first = do
  refuse_if (ltb first st.cursor) (hunk_out_of_order number)
  refuse_if (leb usize_limit (first + hunk.old_len) || ltb (length lines) (first + hunk.old_len))
      (hunk_out_of_range number)
  refuse_if
      (hunk.old_ends_without_newline
        && not (covers_source_end lines hunk first && not had_trailing_newline))
      (hunk_mismatch number (length lines))
  refuse_if
      (covers_source_end lines hunk first
        && not had_trailing_newline
        && not hunk.old_ends_without_newline)
      (hunk_mismatch number (length lines))

unfoldable pub apply_hunk : List Text → Bool → ℕ → Applying → Hunk → Result NotePatchError Applying
apply_hunk lines had_trailing_newline number st hunk = do
  first ← first_line number hunk
  check_hunk lines had_trailing_newline number st hunk first
  st' ← apply_body lines number (copy_to lines first st) hunk.lines
  ok (settle_newline lines hunk st')

unfoldable pub apply_hunks :
    List Text → Bool → ℕ → Applying → List Hunk → Result NotePatchError Applying
apply_hunks lines had_trailing_newline number st [] = ok st
apply_hunks lines had_trailing_newline number st (hunk ∷ hunks) = do
  st' ← apply_hunk lines had_trailing_newline number st hunk
  apply_hunks lines had_trailing_newline (suc number) st' hunks

abbrev pub start : List Text → Bool → Applying
start lines had_trailing_newline = record {
  output = [];
  output_ends_without_newline = lines_empty lines || not had_trailing_newline;
  cursor = 0;
  lines_added = 0;
  lines_removed = 0;
}
  where
    lines_empty : List Text → Bool
    lines_empty [] = true
    lines_empty (l ∷ ls) = false

-- `new_source`: the lines joined, with a final newline unless it was dropped.
unfoldable pub assemble : List Text → Bool → Text
assemble output ends_without_newline =
    let joined = join_lines output in
    if not (is_empty joined) && not ends_without_newline then joined ++ newline ∷ [] else joined

-- All lines of the result: those behind the last hunk are copied.
abbrev pub finish : List Text → Applying → List Text
finish lines st = st.output ++ drop st.cursor lines

unfoldable pub apply_to_source : Text → List Hunk → Result NotePatchError NotePatchOutcome
apply_to_source source hunks = do
  let lines = source_lines source
  let had_trailing_newline = ends_with_char newline source
  st ← apply_hunks lines had_trailing_newline 1 (start lines had_trailing_newline) hunks
  ok (record {
    source = assemble (finish lines st) st.output_ends_without_newline;
    hunks_applied = length hunks;
    lines_added = st.lines_added;
    lines_removed = st.lines_removed;
  })

unfoldable pub apply_note_patch : Text → Text → Result NotePatchError NotePatchOutcome
apply_note_patch source patch = do
  refuse_if (ltb note_policy.max_patch_bytes (byte_len patch)) patch_too_large
  hunks ← parse_patch patch
  refuse_if (ltb note_policy.max_patch_hunks (length hunks)) too_many_hunks
  apply_to_source source hunks
