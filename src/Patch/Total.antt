-- ===== src/Patch/Total.antt =====
-- Which splices the application makes: those whose hunks are numbered and marked as they should be.
use mathlib.Core.Path.{subst, subst₂, ap₂}
use marginalis.Prelude.{
  ℕ, suc, ◌+◌, ◌≤◌, ◌<◌, ◌≡◌, refl, sym, ap, ◌∙◌, Bool, List, [], ◌∷◌, ◌++◌, arith, ok, length,
  drop, length-append, length-drop, drop-drop, not, ◌&&◌, All,
}
use marginalis.Text.{Text}
use marginalis.Text.Numbers.{usize_limit}
use marginalis.Patch.Hunk.{Hunk, old_lines, new_lines}
use marginalis.Patch.Apply.{
  Applying, apply_hunk, check_hunk, apply_hunks, first_line, copy_to, covers_source_end,
  settle_newline,
}
use marginalis.Patch.Body.{apply_body-Replaces, apply_body-total}
use marginalis.Patch.Splice.{place, Splice}

-- The header counts the old lines that the body has, begins at line 1 or later unless it inserts,
-- and the mark of the old side says exactly that the hunk holds an unfinished last line.
pub record IsExact (lines : List Text) (nl : Bool) (h : Hunk) : Type 0 where
  pub counted : h.old_len ≡ length (old_lines h.lines)
  pub numbered : 0 < h.old_len → 0 < h.old_start
  pub marked : h.old_ends_without_newline ≡ (covers_source_end lines h (place h) && not nl)

first_line-ok :
    (lines : List Text) (nl : Bool) (k : ℕ) (h : Hunk)
    → IsExact lines nl h
    → first_line k h ≡ ok (place h)
unfolding first_line
first_line-ok lines nl k h v = ground (arith, v.numbered)

check_hunk-ok :
    (lines : List Text) (nl : Bool) (k : ℕ) (st : Applying) (h : Hunk)
    → IsExact lines nl h
    → st.cursor ≤ place h
    → place h + h.old_len ≤ length lines
    → length lines < usize_limit
    → check_hunk lines nl k st h (place h) ≡ ok tt
unfolding check_hunk
check_hunk-ok lines nl k st h v order range small = ground (arith, v.marked)

drop-append : (xs ys zs : List Text) → xs ≡ ys ++ zs → drop (length ys) xs ≡ zs
drop-append xs [] zs e = e
drop-append [] (y ∷ ys) zs e = cc
drop-append (x ∷ xs) (y ∷ ys) zs e = drop-append xs ys zs (ground arith)

-- The old lines of a hunk in place stand behind the gap.
behind_gap :
    (lines : List Text) (c : ℕ) (gap rest : List Text)
    → drop c lines ≡ gap ++ rest
    → drop (c + length gap) lines ≡ rest
behind_gap lines c gap rest e =
    sym (drop-drop (length gap) c lines) ∙ drop-append (drop c lines) gap rest e

-- How much of the source the gap and the old lines take.
room :
    (lines : List Text) (c : ℕ) (gap olds rest : List Text)
    → c ≤ length lines
    → drop c lines ≡ gap ++ (olds ++ rest)
    → c + length gap + length olds ≤ length lines
room lines c gap olds rest b e = omega (
  arith,
  ap length e,
  length-drop c lines,
  length-append gap (olds ++ rest),
  length-append olds rest,
)

apply_hunk-total :
    (lines : List Text) (nl : Bool) (k : ℕ) (st : Applying) (h : Hunk) (gap rest : List Text)
    → length lines < usize_limit
    → st.cursor ≤ length lines
    → IsExact lines nl h
    → st.cursor + length gap ≡ place h
    → drop st.cursor lines ≡ gap ++ (old_lines h.lines ++ rest)
    → (st' : Applying) × (apply_hunk lines nl k st h ≡ ok st')
      × (st'.cursor ≡ st.cursor + length gap + length (old_lines h.lines))
      × (st'.cursor ≤ length lines)
      × (drop st'.cursor lines ≡ rest)
unfolding apply_hunk
apply_hunk-total lines nl k st h gap rest small within v placed e =
    let fits = room lines st.cursor gap (old_lines h.lines) rest within e in
    let behind =
      subst (λ c. drop c lines ≡ old_lines h.lines ++ rest) placed
        (behind_gap lines st.cursor gap (old_lines h.lines ++ rest) e) in
    let (mid, applied) =
      apply_body-total lines k (copy_to lines (place h) st) h.lines rest behind in
    let r = apply_body-Replaces lines k (copy_to lines (place h) st) h.lines mid applied in
    (
      settle_newline lines h mid,
      rw
          (
            first_line-ok lines nl k h v,
            check_hunk-ok lines nl k st h v (omega arith) (omega (arith, v.counted)) small,
            applied,
          )
          refl,
      omega (arith, r.cursor),
      r.within (omega arith),
      subst (λ c. drop c lines ≡ rest) (sym r.cursor)
          (behind_gap lines (place h) (old_lines h.lines) rest behind),
    )

-- A splice by exact hunks is made by the loop.
pub apply_hunks-total :
    (lines : List Text) (nl : Bool) (k : ℕ) (st : Applying) (hunks : List Hunk) (out : List Text)
    → length lines < usize_limit
    → st.cursor ≤ length lines
    → All (IsExact lines nl) hunks
    → Splice st.cursor (drop st.cursor lines) hunks out
    → (st' : Applying) × (apply_hunks lines nl k st hunks ≡ ok st')
unfolding apply_hunks
apply_hunks-total lines nl k st [] out small within v s = (st, refl)
apply_hunks-total lines nl k st (h ∷ hs) out small within v (gap, rest, tail, placed, src, o, s) =
    let (mid, applied, c, w, d) =
      apply_hunk-total lines nl k st h gap rest small within v.0 placed src in
    rw applied (
      apply_hunks-total lines nl (suc k) mid hs tail small w v.1
        (subst₂ (λ n src. Splice n src hs tail) (sym c) (sym d) s))

append-split :
    (xs ys zs ws : List Text) → xs ++ ys ≡ zs ++ ws → length xs ≡ length zs → (xs ≡ zs) × (ys ≡ ws)
append-split [] ys [] ws e n = (refl, e)
append-split [] ys (z ∷ zs) ws e n = absurd (omega arith)
append-split (x ∷ xs) ys [] ws e n = absurd (omega arith)
append-split (x ∷ xs) ys (z ∷ zs) ws e n = ground (arith, append-split xs ys zs ws)

-- A list of hunks has at most one result on a source.
pub Splice-unique :
    (n : ℕ) (src : List Text) (hunks : List Hunk) (out out' : List Text)
    → Splice n src hunks out
    → Splice n src hunks out'
    → out ≡ out'
Splice-unique n src [] out out' s t = s ∙ sym t
Splice-unique n src (h ∷ hs) out out' (gap, rest, tail, p, e, o, s)
      (gap', rest', tail', p', e', o', s') =
    let (same_gap, behind) =
      append-split gap (old_lines h.lines ++ rest) gap' (old_lines h.lines ++ rest') (sym e ∙ e')
        (omega arith) in
    let (_, same_rest) =
      append-split (old_lines h.lines) rest (old_lines h.lines) rest' behind refl in
    let same_tail =
      Splice-unique (n + length gap + length (old_lines h.lines)) rest hs tail tail' s (
        subst₂
          (λ (g : List Text) (r : List Text).
            Splice (n + length g + length (old_lines h.lines)) r hs tail')
          (sym same_gap) (sym same_rest) s') in
    o ∙ ap₂ (λ g t. g ++ (new_lines h.lines ++ t)) same_gap same_tail ∙ sym o'
