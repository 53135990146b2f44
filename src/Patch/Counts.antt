-- ===== src/Patch/Counts.antt =====
-- What the counts of a hunk's header say of the lines that the reader gave it.
use marginalis.Prelude.{
  ℕ, zero, suc, ◌+◌, ◌≤◌, ◌≡◌, refl, true, false, Bool-cases, ap, ◌⊎◌, inl, inr, List, [], ◌∷◌,
  ◌++◌, arith, ok, length, refuse_if, not, >>=-eq-ok, All,
}
use marginalis.Text.{Text, codes, trim_end, ◌=t=◌}
use marginalis.Text.Split.{split_lines, strip_newline}
use mathlib.Core.Path.{subst}
use marginalis.Patch.Hunk.{
  unsupported_header, HunkLine, context, remove, add, Hunk, old_lines, new_lines,
}
use marginalis.Patch.Parse.{
  Reading, Rest, new_reading, wants_more, take_line, take_mark, parse_body, parse_hunk, parse_hunks,
  refuse_empty, parse_lines, parse_patch, old_count, new_count,
}

-- The body has at least the lines that the header announces, and on one side at least exactly those.
pub record HasCounts (h : Hunk) : Type 0 where
  pub old_enough : h.old_len ≤ length (old_lines h.lines)
  pub new_enough : h.new_len ≤ length (new_lines h.lines)
  pub one_exact :
      (length (old_lines h.lines) ≤ h.old_len) ⊎ (length (new_lines h.lines) ≤ h.new_len)

-- The counters of the loop count the lines, and one of them has not passed its bound.
record IsReading (r : Reading) : Type 0 where
  old_seen : r.seen_old ≡ length (old_lines r.hunk.lines)
  new_seen : r.seen_new ≡ length (new_lines r.hunk.lines)
  one_within : (r.seen_old ≤ r.hunk.old_len) ⊎ (r.seen_new ≤ r.hunk.new_len)

pub old_lines-append : (ls ms : List HunkLine) → old_lines (ls ++ ms) ≡ old_lines ls ++ old_lines ms
old_lines-append [] ms = refl
old_lines-append (context t ∷ ls) ms = ap (◌∷◌ t) (old_lines-append ls ms)
old_lines-append (remove t ∷ ls) ms = ap (◌∷◌ t) (old_lines-append ls ms)
old_lines-append (add t ∷ ls) ms = old_lines-append ls ms

pub new_lines-append : (ls ms : List HunkLine) → new_lines (ls ++ ms) ≡ new_lines ls ++ new_lines ms
new_lines-append [] ms = refl
new_lines-append (context t ∷ ls) ms = ap (◌∷◌ t) (new_lines-append ls ms)
new_lines-append (remove t ∷ ls) ms = new_lines-append ls ms
new_lines-append (add t ∷ ls) ms = ap (◌∷◌ t) (new_lines-append ls ms)

old_push :
    (ls : List HunkLine) (l : HunkLine)
    → length (old_lines (ls ++ l ∷ [])) ≡ length (old_lines ls) + old_count l
old_push [] (context t) = omega arith
old_push [] (remove t) = omega arith
old_push [] (add t) = omega arith
old_push (context t ∷ ls) l = omega (arith, old_push ls l)
old_push (remove t ∷ ls) l = omega (arith, old_push ls l)
old_push (add t ∷ ls) l = old_push ls l

new_push :
    (ls : List HunkLine) (l : HunkLine)
    → length (new_lines (ls ++ l ∷ [])) ≡ length (new_lines ls) + new_count l
new_push [] (context t) = omega arith
new_push [] (remove t) = omega arith
new_push [] (add t) = omega arith
new_push (context t ∷ ls) l = omega (arith, new_push ls l)
new_push (remove t ∷ ls) l = new_push ls l
new_push (add t ∷ ls) l = omega (arith, new_push ls l)

count_le : (l : HunkLine) → (old_count l ≤ 1) × (new_count l ≤ 1)
count_le (context t) = omega arith
count_le (remove t) = omega arith
count_le (add t) = omega arith

take_line-IsReading :
    (r : Reading) (l : HunkLine) → wants_more r ≡ true → IsReading r → IsReading (take_line r l)
unfolding take_line wants_more
take_line-IsReading r l w v =
    ground (arith, count_le l, old_push r.hunk.lines l, new_push r.hunk.lines l)

take_mark-IsReading : (r : Reading) (l : HunkLine) → IsReading r → IsReading (take_mark r l)
unfolding take_mark
take_mark-IsReading r (context t) v = record {
  old_seen = v.old_seen;
  new_seen = v.new_seen;
  one_within = v.one_within;
}
take_mark-IsReading r (remove t) v = record {
  old_seen = v.old_seen;
  new_seen = v.new_seen;
  one_within = v.one_within;
}
take_mark-IsReading r (add t) v = record {
  old_seen = v.old_seen;
  new_seen = v.new_seen;
  one_within = v.one_within;
}

stop-HasCounts : (r : Reading) → wants_more r ≡ false → IsReading r → HasCounts r.hunk
unfolding wants_more
stop-HasCounts r w v = ground arith

-- What holds of the reader behind the loop holds of the loop, if its two steps keep the counters.
parse_body-HasCounts :
    (header : ℕ) (r : Reading) (n : ℕ) (lines : List Text) (h : Hunk) (rest : Rest)
    → IsReading r
    → parse_body header r n lines ≡ ok (h, rest)
    → HasCounts h
unfolding parse_body
parse_body-HasCounts header r n [] h rest v e = grind (arith, stop-HasCounts)
parse_body-HasCounts header r n (body ∷ []) h rest v e = elim (Bool-cases (wants_more r)) [
  | inl w ↦ grind (
    arith,
    λ (l : HunkLine). take_line-IsReading r l w v,
    λ (l : HunkLine). parse_body-HasCounts header (take_line r l) (suc n) [] h rest,
  )
  | inr w ↦ ground (arith, stop-HasCounts r w v)
]
parse_body-HasCounts header r n (body ∷ marker ∷ lines) h rest v e =
    elim (Bool-cases (wants_more r)) [
      | inl w ↦ grind (
        arith,
        λ (l : HunkLine). take_line-IsReading r l w v,
        λ (l : HunkLine). take_mark-IsReading (take_line r l) l,
        λ (l : HunkLine).
            parse_body-HasCounts header (take_line r l) (suc n) (marker ∷ lines) h rest,
        λ (l : HunkLine).
            parse_body-HasCounts header (take_mark (take_line r l) l) (suc (suc n)) lines h rest,
      )
      | inr w ↦ ground (arith, stop-HasCounts r w v)
    ]

new_reading-IsReading : (t : ℕ × ℕ × ℕ) → IsReading (new_reading t)
new_reading-IsReading (a, b, c) = omega arith

parse_hunk-HasCounts :
    (header : Text) (n : ℕ) (lines : List Text) (h : Hunk) (rest : Rest)
    → parse_hunk header n lines ≡ ok (h, rest)
    → HasCounts h
unfolding parse_hunk
parse_hunk-HasCounts header n lines h rest e = grind (
  arith,
  new_reading-IsReading,
  λ (t : ℕ × ℕ × ℕ). parse_body-HasCounts n (new_reading t) (suc n) lines h rest,
)

All-push :
    (hs : List Hunk) (h : Hunk) → All HasCounts hs → HasCounts h → All HasCounts (hs ++ h ∷ [])
All-push [] h a v = (v, tt)
All-push (x ∷ hs) h a v = (a.0, All-push hs h a.1 v)

parse_hunks-HasCounts :
    (fuel : ℕ) (hunks : List Hunk) (n : ℕ) (lines : List Text) (out : List Hunk)
    → All HasCounts hunks
    → parse_hunks fuel hunks n lines ≡ ok out
    → All HasCounts out
unfolding parse_hunks
parse_hunks-HasCounts zero hunks n [] out v e = ground arith
parse_hunks-HasCounts zero hunks n (header ∷ lines) out v e = ground arith
parse_hunks-HasCounts (suc fuel) hunks n [] out v e = ground arith
parse_hunks-HasCounts (suc fuel) hunks n (header ∷ lines) out v e =
    let ((h, (m, rest)), read, e') = >>=-eq-ok (parse_hunk header n lines) _ e in
    parse_hunks-HasCounts fuel (hunks ++ h ∷ []) m rest out
      (All-push hunks h v (parse_hunk-HasCounts header n lines h (m, rest) read)) e'

refuse_empty-ok :
    (hs out : List Hunk) → refuse_empty hs ≡ ok out → All HasCounts hs → All HasCounts out
refuse_empty-ok [] out e a = cc
refuse_empty-ok (h ∷ hs) out e a = subst (All HasCounts) {x = h ∷ hs} (ground arith) a

parse_lines-HasCounts :
    (lines : List Text) (out : List Hunk) → parse_lines lines ≡ ok out → All HasCounts out
unfolding parse_lines
parse_lines-HasCounts [] out e = cc
parse_lines-HasCounts (a ∷ []) out e = ground arith
parse_lines-HasCounts (a ∷ b ∷ lines) out e =
    let (_, _, e1) =
      >>=-eq-ok (refuse_if (not (trim_end a =t= codes "--- a/note.adoc")) unsupported_header) _ e in
    let (_, _, e2) =
      >>=-eq-ok (refuse_if (not (trim_end b =t= codes "+++ b/note.adoc")) unsupported_header) _
        e1 in
    let (hunks, read, e3) = >>=-eq-ok (parse_hunks (length lines) [] 3 lines) _ e2 in
    refuse_empty-ok hunks out e3 (parse_hunks-HasCounts (length lines) [] 3 lines hunks tt read)

-- Of every hunk that `parse_patch` reads, the body holds at least the old and the new lines that
-- the header announces, and on one of the two sides exactly as many.
pub parse_patch-HasCounts :
    (patch : Text) (hunks : List Hunk) → parse_patch patch ≡ ok hunks → All HasCounts hunks
unfolding parse_patch
parse_patch-HasCounts patch hunks e =
    ground (arith, parse_lines-HasCounts (split_lines (strip_newline patch)) hunks)
