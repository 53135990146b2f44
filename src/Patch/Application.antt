-- ===== src/Patch/Application.antt =====
-- What a successful application of a patch is, from the patch's text to the new source.
use mathlib.Core.Path.{subst}
use marginalis.Prelude.{
  ℕ, suc, ◌+◌, ◌≤◌, ◌<◌, ◌≡◌, refl, ap, ◌∙◌, Bool, false, List, [], ◌∷◌, arith, ok, length,
  >>=-eq-ok, refuse_if, refuse_if-eq-ok, ltb, if◌then◌else◌, ◌==◌, All,
}
use marginalis.Text.{Text, newline, byte_len, ends_with_char}
use marginalis.Text.Numbers.{usize_limit}
use marginalis.Domain.Policy.{note_policy}
use marginalis.Patch.Hunk.{
  patch_too_large, too_many_hunks, Hunk, NotePatchOutcome, added_lines, removed_lines,
}
use marginalis.Patch.Parse.{parse_patch}
use marginalis.Patch.Apply.{
  Applying, source_lines, start, assemble, finish, apply_hunk, apply_hunks, apply_to_source,
  apply_note_patch,
}
use marginalis.Patch.Splice.{Splice, count_lines, apply_hunks-HunksApplied, apply_hunk-ending}
use marginalis.Patch.Total.{IsExact, apply_hunks-total, Splice-unique}
use marginalis.Patch.Endings.{assemble-blank}

-- The outcome `o` is the splice `out` of the hunks into the source's lines, put together again, and
-- its counters are the numbers of the hunks, of the lines that they add and of those that they remove.
pub record IsOutcome (source : Text) (hunks : List Hunk) (out : List Text) (o : NotePatchOutcome)
    : Type 0 where
  pub spliced : Splice 0 (source_lines source) hunks out
  pub without_newline : Bool
  pub assembled : o.source ≡ assemble out without_newline
  pub hunks_counted : o.hunks_applied ≡ length hunks
  pub lines_counted : length out + o.lines_removed ≡ length (source_lines source) + o.lines_added
  pub added : o.lines_added ≡ count_lines added_lines hunks
  pub removed : o.lines_removed ≡ count_lines removed_lines hunks

apply_to_source-IsOutcome :
    (source : Text) (hunks : List Hunk) (o : NotePatchOutcome)
    → apply_to_source source hunks ≡ ok o
    → (out : List Text) × IsOutcome source hunks out o
unfolding apply_to_source
apply_to_source-IsOutcome source hunks o e =
    let nl = ends_with_char newline source in
    let lines = source_lines source in
    let (st, applied, e') = >>=-eq-ok (apply_hunks lines nl 1 (start lines nl) hunks) _ e in
    let v = apply_hunks-HunksApplied lines nl 1 (start lines nl) hunks st (omega arith) applied in
    (
      finish lines st,
      record {
        spliced = ground (arith, v.output, v.spliced);
        without_newline = st.output_ends_without_newline;
        assembled = ground arith;
        hunks_counted = ground arith;
        lines_counted = ground (arith, v.counted);
        added = ground (arith, v.added);
        removed = ground (arith, v.removed);
      },
    )

at_most : (n m : ℕ) → ltb n m ≡ false → m ≤ n
at_most n m e = ground arith

-- When `apply_note_patch` succeeds, the patch was read as some hunks, at most `max_patch_hunks`, from
-- a text of at most `max_patch_bytes` bytes. The new source is the splice of those hunks into the
-- lines of the source, and the outcome's counters are the number of the hunks, the number of the lines
-- that their bodies mark as added, and the number of those that they mark as removed.
pub apply_note_patch-IsOutcome :
    (source patch : Text) (o : NotePatchOutcome)
    → apply_note_patch source patch ≡ ok o
    → (hunks : List Hunk) × (out : List Text) × (parse_patch patch ≡ ok hunks)
      × IsOutcome source hunks out o
      × (byte_len patch ≤ note_policy.max_patch_bytes)
      × (length hunks ≤ note_policy.max_patch_hunks)
unfolding apply_note_patch
apply_note_patch-IsOutcome source patch o e =
    let (_, small, e1) =
      >>=-eq-ok (refuse_if (ltb note_policy.max_patch_bytes (byte_len patch)) patch_too_large) _
        e in
    let (hunks, read, e2) = >>=-eq-ok (parse_patch patch) _ e1 in
    let (_, few, e3) =
      >>=-eq-ok (refuse_if (ltb note_policy.max_patch_hunks (length hunks)) too_many_hunks) _ e2 in
    let (out, v) = apply_to_source-IsOutcome source hunks o e3 in
    (
      hunks,
      out,
      read,
      v,
      at_most _ _ (refuse_if-eq-ok _ patch_too_large small),
      at_most _ _ (refuse_if-eq-ok _ too_many_hunks few),
    )

-- Hunks with exact headers and marks are applied to a source of fewer than 2^64 lines whenever they
-- can be spliced into its lines, and the result is that splice, put together.
pub apply_to_source-total :
    (source : Text) (hunks : List Hunk) (out : List Text)
    → length (source_lines source) < usize_limit
    → All (IsExact (source_lines source) (ends_with_char newline source)) hunks
    → Splice 0 (source_lines source) hunks out
    → (o : NotePatchOutcome) × (apply_to_source source hunks ≡ ok o) × IsOutcome source hunks out o
unfolding apply_to_source
apply_to_source-total source hunks out small exact s =
    let nl = ends_with_char newline source in
    let lines = source_lines source in
    let (st, applied) =
      apply_hunks-total lines nl 1 (start lines nl) hunks out small (omega arith) exact s in
    let o : NotePatchOutcome = record {
      source = assemble (finish lines st) st.output_ends_without_newline;
      hunks_applied = length hunks;
      lines_added = st.lines_added;
      lines_removed = st.lines_removed;
    } in
    let done : apply_to_source source hunks ≡ ok o = rw applied refl in
    let (out', v) = apply_to_source-IsOutcome source hunks o done in
    (
      o,
      done,
      subst (λ x. IsOutcome source hunks x o) (Splice-unique 0 lines hunks out' out v.spliced s) v,
    )

-- A patch whose result would be one empty line leaves the empty text: the line's newline is lost.
pub blank_line_lost :
    (source : Text) (hunks : List Hunk) (o : NotePatchOutcome)
    → apply_to_source source hunks ≡ ok o
    → Splice 0 (source_lines source) hunks ([] ∷ [])
    → o.source ≡ []
blank_line_lost source hunks o e s =
    let (out, v) = apply_to_source-IsOutcome source hunks o e in
    let same = Splice-unique 0 (source_lines source) hunks out ([] ∷ []) v.spliced s in
    v.assembled ∙ ap (λ x. assemble x v.without_newline) same ∙ assemble-blank v.without_newline

-- The mark on the new side of the last hunk.
abbrev pub last_mark : Bool → List Hunk → Bool
last_mark mark [] = mark
last_mark mark (h ∷ hs) = last_mark h.new_ends_without_newline hs

-- Hunks that are applied move the cursor forward, within the source, and leave the choice of a final
-- newline as it was, unless the last of them ends at the end of the source: then its mark decides.
pub apply_hunks-ending :
    (lines : List Text) (nl : Bool) (k : ℕ) (st : Applying) (h : Hunk) (hs : List Hunk)
    (st' : Applying)
    → apply_hunks lines nl k st (h ∷ hs) ≡ ok st'
    → (st.cursor ≤ st'.cursor)
      × (st'.cursor ≤ length lines)
      × (st'.output_ends_without_newline ≡ (
          if st'.cursor == length lines
          then last_mark h.new_ends_without_newline hs
          else st.output_ends_without_newline))
unfolding apply_hunks
apply_hunks-ending lines nl k st h [] st' e =
    let (mid, first, e') = >>=-eq-ok (apply_hunk lines nl k st h) _ e in
    ground (arith, apply_hunk-ending lines nl k st h mid first)
apply_hunks-ending lines nl k st h (g ∷ gs) st' e =
    let (mid, first, e') = >>=-eq-ok (apply_hunk lines nl k st h) _ e in
    let (forward, within, flag) = apply_hunk-ending lines nl k st h mid first in
    let (further, inside, flag') = apply_hunks-ending lines nl (suc k) mid g gs st' e' in
    (omega arith, inside, ground arith)
