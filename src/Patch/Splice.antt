-- ===== src/Patch/Splice.antt =====
-- What a patch means: the source cut into the hunks' old lines, at the places that their headers
-- give, and the lines between them, which stay; and `apply_hunk`, `apply_hunks` against it.
use mathlib.Core.List.{append_assoc}
use mathlib.Core.Path.{subst}
use marginalis.Prelude.{
  ℕ, suc, ◌+◌, ◌-◌, ◌≤◌, ◌≡◌, refl, sym, ap, ◌∙◌, Bool, List, [], ◌∷◌, ◌++◌, arith, ok, length,
  take, drop, length-append, length-take, length-drop, take-append-drop, drop-drop, >>=-eq-ok, ◌==◌,
  if◌then◌else◌,
}
use marginalis.Text.{Text}
use marginalis.Patch.Hunk.{Hunk, HunkLine, old_lines, new_lines, added_lines, removed_lines}
use marginalis.Patch.Apply.{
  Applying, apply_body, apply_hunk, check_hunk, apply_hunks, first_line, copy_to, settle_newline,
  finish,
}
use marginalis.Patch.Body.{Replaces, apply_body-Replaces}

-- How many lines of the source stand in front of the hunk, by its header.
abbrev pub place : Hunk → ℕ
place h = if h.old_len == 0 then h.old_start else h.old_start - 1

-- `out` is `src` with the old lines of each hunk replaced by its new lines. The hunks stand in the
-- order of the list, apart from each other, at the lines that their headers name; `n` lines of the
-- source stand in front of `src`.
abbrev pub Splice : ℕ → List Text → List Hunk → List Text → Type 0
Splice n src [] out = out ≡ src
Splice n src (h ∷ hs) out =
    (gap : List Text) × (rest : List Text) × (tail : List Text) × (n + length gap ≡ place h)
    × (src ≡ gap ++ (old_lines h.lines ++ rest))
    × (out ≡ gap ++ (new_lines h.lines ++ tail))
    × Splice (n + length gap + length (old_lines h.lines)) rest hs tail

-- What one applied hunk does to the state of the loop.
record Spliced (lines : List Text) (st : Applying) (h : Hunk) (st' : Applying) : Type 0 where
  gap : List Text
  placed : st.cursor + length gap ≡ place h
  source : drop st.cursor lines ≡ gap ++ (old_lines h.lines ++ drop st'.cursor lines)
  output : st'.output ≡ st.output ++ (gap ++ new_lines h.lines)
  cursor : st'.cursor ≡ st.cursor + length gap + length (old_lines h.lines)
  within : st'.cursor ≤ length lines
  counted :
      st'.lines_added + st.lines_removed + length (old_lines h.lines)
      ≡ st.lines_added + st'.lines_removed + length (new_lines h.lines)
  added : st'.lines_added ≡ st.lines_added + length (added_lines h.lines)
  removed : st'.lines_removed ≡ st.lines_removed + length (removed_lines h.lines)

first_line-place : (k : ℕ) (h : Hunk) (first : ℕ) → first_line k h ≡ ok first → first ≡ place h
unfolding first_line
first_line-place k h first e = ground arith

copied :
    (lines : List Text) (st : Applying) (h : Hunk) (first : ℕ) (st' : Applying)
    → first ≡ place h
    → st.cursor ≤ first
    → first ≤ length lines
    → Replaces lines (copy_to lines first st) h.lines st'
    → Spliced lines st h st'
copied lines st h first st' f order range v = record {
  gap = gap;
  placed = omega (arith, size, f);
  source =
      sym (take-append-drop m (drop st.cursor lines))
      ∙ ap (◌++◌ gap) (drop-drop m st.cursor lines ∙ ap (λ c. drop c lines) reached ∙ v.passed);
  output = v.output ∙ append_assoc st.output gap (new_lines h.lines);
  cursor = omega (arith, size, v.cursor);
  within = v.within range;
  counted = v.counted;
  added = v.added;
  removed = v.removed;
}
  where
    m : ℕ
    m = first - st.cursor

    gap : List Text
    gap = take m (drop st.cursor lines)

    reached : st.cursor + m ≡ first
    reached = omega arith

    size : length gap ≡ m
    size = length-take m (drop st.cursor lines) (omega (arith, length-drop st.cursor lines))

settled :
    (lines : List Text) (st : Applying) (h : Hunk) (st' : Applying)
    → Spliced lines st h st'
    → Spliced lines st h (settle_newline lines h st')
settled lines st h st' v = record {
  gap = v.gap;
  placed = v.placed;
  source = v.source;
  output = v.output;
  cursor = v.cursor;
  within = v.within;
  counted = v.counted;
  added = v.added;
  removed = v.removed;
}

check_hunk-bounds :
    (lines : List Text) (nl : Bool) (k : ℕ) (st : Applying) (h : Hunk) (first : ℕ) {u : Unit {0}}
    → check_hunk lines nl k st h first ≡ ok u
    → (st.cursor ≤ first) × (first + h.old_len ≤ length lines)
unfolding check_hunk
check_hunk-bounds lines nl k st h first e = ground arith

apply_hunk-Spliced :
    (lines : List Text) (nl : Bool) (k : ℕ) (st : Applying) (h : Hunk) (st' : Applying)
    → apply_hunk lines nl k st h ≡ ok st'
    → Spliced lines st h st'
unfolding apply_hunk
apply_hunk-Spliced lines nl k st h st' e =
    let (first, f, e1) = >>=-eq-ok (first_line k h) _ e in
    let (_, checked, e2) = >>=-eq-ok (check_hunk lines nl k st h first) _ e1 in
    let (mid, b, e3) = >>=-eq-ok (apply_body lines k (copy_to lines first st) h.lines) _ e2 in
    let (order, range) = check_hunk-bounds lines nl k st h first checked in
    subst (Spliced lines st h) {x = settle_newline lines h mid} (ground arith) (
      settled lines st h mid (
        copied lines st h first mid (first_line-place k h first f) order (omega arith)
          (apply_body-Replaces lines k (copy_to lines first st) h.lines mid b)))

-- A hunk moves the cursor forward, and decides on the final newline if it ends at the source's end.
pub apply_hunk-ending :
    (lines : List Text) (nl : Bool) (k : ℕ) (st : Applying) (h : Hunk) (st' : Applying)
    → apply_hunk lines nl k st h ≡ ok st'
    → (st.cursor ≤ st'.cursor)
      × (st'.cursor ≤ length lines)
      × (st'.output_ends_without_newline ≡ (
          if st'.cursor == length lines
          then h.new_ends_without_newline
          else st.output_ends_without_newline))
unfolding apply_hunk
apply_hunk-ending lines nl k st h st' e =
    let (first, f, e1) = >>=-eq-ok (first_line k h) _ e in
    let (_, checked, e2) = >>=-eq-ok (check_hunk lines nl k st h first) _ e1 in
    let (mid, b, e3) = >>=-eq-ok (apply_body lines k (copy_to lines first st) h.lines) _ e2 in
    let v = apply_hunk-Spliced lines nl k st h st' e in
    let r = apply_body-Replaces lines k (copy_to lines first st) h.lines mid b in
    (omega (arith, v.cursor), v.within, ground (arith, r.same_ending))

-- How many lines there are in the bodies of the hunks, of those that `lines_of` takes.
abbrev pub count_lines : (List HunkLine → List Text) → List Hunk → ℕ
count_lines lines_of [] = 0
count_lines lines_of (h ∷ hs) = length (lines_of h.lines) + count_lines lines_of hs

-- Hunks that are applied make a splice of the lines behind the cursor, and the counters count.
pub record HunksApplied (lines : List Text) (st : Applying) (hunks : List Hunk) (st' : Applying)
    : Type 0 where
  pub out : List Text
  pub spliced : Splice st.cursor (drop st.cursor lines) hunks out
  pub output : finish lines st' ≡ st.output ++ out
  pub counted :
      length (finish lines st') + st'.lines_removed + st.lines_added + st.cursor
      ≡ st.lines_removed + st'.lines_added + length st.output + length lines
  pub added : st'.lines_added ≡ st.lines_added + count_lines added_lines hunks
  pub removed : st'.lines_removed ≡ st.lines_removed + count_lines removed_lines hunks

one_more :
    (lines : List Text) (st : Applying) (h : Hunk) (mid : Applying) (hs : List Hunk)
    (st' : Applying)
    → Spliced lines st h mid
    → HunksApplied lines mid hs st'
    → HunksApplied lines st (h ∷ hs) st'
one_more lines st h mid hs st' v w = record {
  out = v.gap ++ (new_lines h.lines ++ w.out);
  spliced = (
    v.gap,
    drop mid.cursor lines,
    w.out,
    v.placed,
    v.source,
    refl,
    subst (λ c. Splice c (drop mid.cursor lines) hs w.out) v.cursor w.spliced,
  );
  output =
      w.output
      ∙ ap (λ o. o ++ w.out) v.output
      ∙ append_assoc st.output (v.gap ++ new_lines h.lines) w.out
      ∙ ap (◌++◌ st.output) (append_assoc v.gap (new_lines h.lines) w.out);
  counted = omega (
    arith,
    w.counted,
    v.counted,
    v.cursor,
    ap length v.output,
    length-append st.output (v.gap ++ new_lines h.lines),
    length-append v.gap (new_lines h.lines),
  );
  added = omega (arith, v.added, w.added);
  removed = omega (arith, v.removed, w.removed);
}

pub apply_hunks-HunksApplied :
    (lines : List Text) (nl : Bool) (k : ℕ) (st : Applying) (hunks : List Hunk) (st' : Applying)
    → st.cursor ≤ length lines
    → apply_hunks lines nl k st hunks ≡ ok st'
    → HunksApplied lines st hunks st'
unfolding apply_hunks
apply_hunks-HunksApplied lines nl k st [] st' b e =
    subst (HunksApplied lines st []) {x = st} (ground arith) (record {
      out = drop st.cursor lines;
      spliced = refl;
      output = refl;
      counted =
          omega
            (arith, length-append st.output (drop st.cursor lines), length-drop st.cursor lines);
      added = omega arith;
      removed = omega arith;
    })
apply_hunks-HunksApplied lines nl k st (h ∷ hs) st' b e =
    let (mid, first, e') = >>=-eq-ok (apply_hunk lines nl k st h) _ e in
    let v = apply_hunk-Spliced lines nl k st h mid first in
    one_more lines st h mid hs st' v
      (apply_hunks-HunksApplied lines nl (suc k) mid hs st' v.within e')
