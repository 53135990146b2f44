-- ===== src/Patch/Parse.antt =====
-- Reading a unified diff: `parse_patch`, `parse_hunk_header` and `parse_range` of
-- crates/marginalis-application/src/notes/patch.rs. The iterator over numbered lines is the list of
-- the lines that are left with the number of the first, from 1.
use marginalis.Prelude.{
  ℕ, zero, suc, ◌+◌, Bool, true, false, ◌||◌, List, [], ◌∷◌, ◌++◌, Option, none, some, ltb, ◌==◌,
  if◌then◌else◌, Result, ok, err, ◌>>=◌, ◌>>◌, ok_or, refuse_if, length, not,
}
use marginalis.Text.{Text, codes, starts_with, strip_prefix, split_once, trim_end, is_empty, ◌=t=◌}
use marginalis.Text.Split.{split_lines, strip_newline}
use marginalis.Text.Numbers.{parse_usize}
use marginalis.Patch.Hunk.{
  NotePatchError, invalid_format, unsupported_header, HunkLine, context, remove, add, Hunk,
}

abbrev parsed_pair : Option ℕ → Option ℕ → Option (ℕ × ℕ)
parsed_pair (some a) (some b) = some (a, b)
parsed_pair none b = none
parsed_pair (some a) none = none

abbrev range_parts : Text → Option (Text × Text) → Option (ℕ × ℕ)
range_parts range none = parsed_pair (parse_usize range) (some 1)
range_parts range (some (start, len)) = parsed_pair (parse_usize start) (parse_usize len)

-- `l[,s]` as (first line, number of lines), 1 line if the number is left out.
unfoldable pub parse_range : Text → Option (ℕ × ℕ)
parse_range range = range_parts range (split_once range (codes ","))

abbrev and_then {ℓ κ} : {A : Type ℓ} {B : Type κ} → Option A → (A → Option B) → Option B
and_then none f = none
and_then (some a) f = f a

-- `@@ -l[,s] +l[,s] @@`, as (old start, old length, new length).
unfoldable pub parse_hunk_header : Text → Option (ℕ × ℕ × ℕ)
parse_hunk_header header = and_then (strip_prefix header (codes "@@ -")) λ rest.
    and_then (split_once rest (codes " +")) λ old. and_then (split_once old.1 (codes " @@")) λ new.
      and_then (parse_range old.0) λ o. and_then (parse_range new.0) λ n. some (o.0, o.1, n.1)

-- What the body's first character says of a line; `none` is a line that belongs to no hunk.
unfoldable pub classify : Text → Option HunkLine
classify [] = some (context [])
classify (c ∷ t) =
    if c == b' '
    then some (context t)
    else if c == b'-'
    then some (remove t)
    else if c == b'+'
    then some (add t)
    else none

abbrev pub old_count : HunkLine → ℕ
old_count (context t) = 1
old_count (remove t) = 1
old_count (add t) = 0

abbrev pub new_count : HunkLine → ℕ
new_count (context t) = 1
new_count (remove t) = 0
new_count (add t) = 1

-- `hunk.lines.push`.
abbrev pub push_line : Hunk → HunkLine → Hunk
push_line h l = record h { lines = h.lines ++ l ∷ [] }

-- The mark "no newline at end of file" belongs to the side of the line above it.
abbrev pub mark : Hunk → HunkLine → Hunk
mark h (context t) = record h { old_ends_without_newline = true; new_ends_without_newline = true }
mark h (remove t) = record h { old_ends_without_newline = true }
mark h (add t) = record h { new_ends_without_newline = true }

-- The hunk so far, with the counters `seen_old` and `seen_new` of the loop.
pub record Reading : Type 0 where
  pub hunk : Hunk
  pub seen_old : ℕ
  pub seen_new : ℕ

-- `seen_old < old_len || seen_new < new_len`.
unfoldable pub wants_more : Reading → Bool
wants_more r = ltb r.seen_old r.hunk.old_len || ltb r.seen_new r.hunk.new_len

unfoldable pub take_line : Reading → HunkLine → Reading
take_line r l = record {
  hunk = push_line r.hunk l;
  seen_old = r.seen_old + old_count l;
  seen_new = r.seen_new + new_count l;
}

unfoldable pub take_mark : Reading → HunkLine → Reading
take_mark r l = record r { hunk = mark r.hunk l }

abbrev pub Rest : Type 0
Rest = ℕ × List Text

-- The inner loop of `parse_patch`. `header` is the number of the hunk's header line, and `n` that
-- of the next line.
unfoldable pub parse_body : ℕ → Reading → ℕ → List Text → Result NotePatchError (Hunk × Rest)
parse_body header r n [] =
    if wants_more r then err (invalid_format header) else ok (r.hunk, (n, []))
parse_body header r n (body ∷ []) =
    if wants_more r
    then (do
      l ← ok_or (classify body) (invalid_format n)
      parse_body header (take_line r l) (suc n) [])
    else ok (r.hunk, (n, body ∷ []))
parse_body header r n (body ∷ marker ∷ lines) =
    let marked =
      λ (l : HunkLine). parse_body header (take_mark (take_line r l) l) (suc (suc n)) lines in
    let plain = λ (l : HunkLine). parse_body header (take_line r l) (suc n) (marker ∷ lines) in
    if wants_more r
    then (do
      l ← ok_or (classify body) (invalid_format n)
      if starts_with marker (codes "\\") then marked l else plain l)
    else ok (r.hunk, (n, body ∷ marker ∷ lines))

unfoldable pub is_file_header : Text → Bool
is_file_header header =
    starts_with header (codes "--- ")
    || starts_with header (codes "+++ ")
    || starts_with header (codes "diff ")

abbrev pub new_reading : ℕ × ℕ × ℕ → Reading
new_reading (old_start, old_len, new_len) = record {
  hunk = record {
    old_start = old_start;
    old_len = old_len;
    new_len = new_len;
    lines = [];
    old_ends_without_newline = false;
    new_ends_without_newline = false;
  };
  seen_old = 0;
  seen_new = 0;
}

-- One hunk, its header line and its body.
unfoldable pub parse_hunk : Text → ℕ → List Text → Result NotePatchError (Hunk × Rest)
parse_hunk header n lines = do
  refuse_if (is_file_header header) unsupported_header
  ranges ← ok_or (parse_hunk_header header) (invalid_format n)
  parse_body n (new_reading ranges) (suc n) lines

-- The outer loop of `parse_patch`, on fuel: each round takes at least one line, so as much fuel as
-- there are lines is enough (`parse_hunks_enough`). `hunks` are those read so far.
unfoldable pub parse_hunks : ℕ → List Hunk → ℕ → List Text → Result NotePatchError (List Hunk)
parse_hunks fuel hunks n [] = ok hunks
parse_hunks zero hunks n (header ∷ lines) = ok hunks
parse_hunks (suc fuel) hunks n (header ∷ lines) = do
  r ← parse_hunk header n lines
  parse_hunks fuel (hunks ++ r.0 ∷ []) (r.1).0 (r.1).1

abbrev pub refuse_empty : List Hunk → Result NotePatchError (List Hunk)
refuse_empty [] = err (invalid_format 3)
refuse_empty (h ∷ hs) = ok (h ∷ hs)

-- The two header lines, and the hunks behind them.
unfoldable pub parse_lines : List Text → Result NotePatchError (List Hunk)
parse_lines [] = err (invalid_format 1)
parse_lines (old_header ∷ []) =
    if trim_end old_header =t= codes "--- a/note.adoc"
    then err (invalid_format 2)
    else err unsupported_header
parse_lines (old_header ∷ new_header ∷ lines) = do
  refuse_if (not (trim_end old_header =t= codes "--- a/note.adoc")) unsupported_header
  refuse_if (not (trim_end new_header =t= codes "+++ b/note.adoc")) unsupported_header
  hunks ← parse_hunks (length lines) [] 3 lines
  refuse_empty hunks

unfoldable pub parse_patch : Text → Result NotePatchError (List Hunk)
parse_patch patch =
    if is_empty patch
    then err (invalid_format 1)
    else parse_lines (split_lines (strip_newline patch))
