-- ===== src/Patch/Body.antt =====
-- One hunk's body against the source: `apply_line` and `apply_body`.
use mathlib.Core.List.{append_assoc, append-nil}
use native.Mathlib.Nat.{add-zero, add-suc, suc-add}
use marginalis.Prelude.{
  ℕ, zero, suc, ◌+◌, ◌≤◌, ◌<◌, ◌≡◌, refl, ap, ◌∙◌, true, false, Bool-cases, inl, inr, List, [], ◌∷◌,
  ◌++◌, arith, ok, err, Option, none, some, length, get_elem?, drop, >>=-eq-ok,
}
use marginalis.Text.{Text}
use marginalis.Text.Equality.{=t=-eq, =t=-refl}
use marginalis.Patch.Hunk.{
  NotePatchError, hunk_mismatch, HunkLine, context, remove, add, old_lines, new_lines, added_lines,
  removed_lines,
}
use marginalis.Patch.Apply.{Applying, matches_line, apply_line, apply_body}

-- A line that is found is the first of those behind the cursor.
get_elem?-drop :
    (lines : List Text) (c : ℕ) (t : Text)
    → get_elem? lines c ≡ some t
    → (drop c lines ≡ t ∷ drop (suc c) lines) × (c < length lines)
get_elem?-drop [] c t e = cc
get_elem?-drop (l ∷ lines) zero t e = (ground arith, omega arith)
get_elem?-drop (l ∷ lines) (suc c) t e =
    let (d, b) = get_elem?-drop lines c t e in (d, omega (arith, b))

matches_line-eq : (t : Text) (o : Option Text) → matches_line t o ≡ true → o ≡ some t
matches_line-eq t none e = cc
matches_line-eq t (some u) e = ap some (=t=-eq u t e)

pub next_line :
    (lines : List Text) (c : ℕ) (t : Text)
    → matches_line t (get_elem? lines c) ≡ true
    → (drop c lines ≡ t ∷ drop (suc c) lines) × (c < length lines)
next_line lines c t m = get_elem?-drop lines c t (matches_line-eq t (get_elem? lines c) m)

-- What a body that fits leaves behind: the cursor has passed its old lines, its new lines are in the
-- output, and the counters have counted.
pub record Replaces (lines : List Text) (st : Applying) (ls : List HunkLine) (st' : Applying)
    : Type 0 where
  pub passed : drop st.cursor lines ≡ old_lines ls ++ drop st'.cursor lines
  pub cursor : st'.cursor ≡ st.cursor + length (old_lines ls)
  pub within : st.cursor ≤ length lines → st'.cursor ≤ length lines
  pub output : st'.output ≡ st.output ++ new_lines ls
  pub counted :
      st'.lines_added + st.lines_removed + length (old_lines ls)
      ≡ st.lines_added + st'.lines_removed + length (new_lines ls)
  pub added : st'.lines_added ≡ st.lines_added + length (added_lines ls)
  pub removed : st'.lines_removed ≡ st.lines_removed + length (removed_lines ls)
  pub same_ending : st'.output_ends_without_newline ≡ st.output_ends_without_newline

apply_line-Replaces :
    (lines : List Text) (k : ℕ) (st : Applying) (l : HunkLine) (st' : Applying)
    → apply_line lines k st l ≡ ok st'
    → Replaces lines st (l ∷ []) st'
unfolding apply_line
apply_line-Replaces lines k st (context t) st' e = ground (arith, next_line lines st.cursor t)
apply_line-Replaces lines k st (remove t) st' e =
    ground (arith, next_line lines st.cursor t, append-nil st.output)
apply_line-Replaces lines k st (add t) st' e = ground arith

Replaces-trans :
    (lines : List Text) (st : Applying) (l : HunkLine) (st' : Applying) (ls : List HunkLine)
    (st'' : Applying)
    → Replaces lines st (l ∷ []) st'
    → Replaces lines st' ls st''
    → Replaces lines st (l ∷ ls) st''
Replaces-trans lines st (context t) st' ls st'' v w = record {
  passed = v.passed ∙ ap (◌∷◌ t) w.passed;
  cursor = omega (arith, v.cursor, w.cursor);
  within = λ h. w.within (v.within h);
  output =
      w.output
      ∙ ap (λ o. o ++ new_lines ls) v.output
      ∙ append_assoc st.output (t ∷ []) (new_lines ls);
  counted = omega (arith, v.counted, w.counted);
  added = omega (arith, v.added, w.added);
  removed = omega (arith, v.removed, w.removed);
  same_ending = w.same_ending ∙ v.same_ending;
}
Replaces-trans lines st (remove t) st' ls st'' v w = record {
  passed = v.passed ∙ ap (◌∷◌ t) w.passed;
  cursor = omega (arith, v.cursor, w.cursor);
  within = λ h. w.within (v.within h);
  output =
      w.output ∙ ap (λ o. o ++ new_lines ls) v.output ∙ append_assoc st.output [] (new_lines ls);
  counted = omega (arith, v.counted, w.counted);
  added = omega (arith, v.added, w.added);
  removed = omega (arith, v.removed, w.removed);
  same_ending = w.same_ending ∙ v.same_ending;
}
Replaces-trans lines st (add t) st' ls st'' v w = record {
  passed = v.passed ∙ w.passed;
  cursor = omega (arith, v.cursor, w.cursor);
  within = λ h. w.within (v.within h);
  output =
      w.output
      ∙ ap (λ o. o ++ new_lines ls) v.output
      ∙ append_assoc st.output (t ∷ []) (new_lines ls);
  counted = omega (arith, v.counted, w.counted);
  added = omega (arith, v.added, w.added);
  removed = omega (arith, v.removed, w.removed);
  same_ending = w.same_ending ∙ v.same_ending;
}

-- A body that is applied replaces its old lines, which stand at the cursor, by its new lines.
pub apply_body-Replaces :
    (lines : List Text) (k : ℕ) (st : Applying) (ls : List HunkLine) (st' : Applying)
    → apply_body lines k st ls ≡ ok st'
    → Replaces lines st ls st'
unfolding apply_body
apply_body-Replaces lines k st [] st' e = ground (arith, append-nil st.output)
apply_body-Replaces lines k st (l ∷ ls) st' e =
    let (mid, first, e') = >>=-eq-ok (apply_line lines k st l) _ e in
    Replaces-trans lines st l mid ls st' (apply_line-Replaces lines k st l mid first)
      (apply_body-Replaces lines k mid ls st' e')

get_elem?-of_drop :
    (lines : List Text) (c : ℕ) (t : Text) (rest : List Text)
    → drop c lines ≡ t ∷ rest
    → (get_elem? lines c ≡ some t) × (drop (suc c) lines ≡ rest)
get_elem?-of_drop [] zero t rest e = cc
get_elem?-of_drop [] (suc c) t rest e = cc
get_elem?-of_drop (l ∷ lines) zero t rest e = ground arith
get_elem?-of_drop (l ∷ lines) (suc c) t rest e = get_elem?-of_drop lines c t rest e

matches_next :
    (lines : List Text) (c : ℕ) (t : Text) (rest : List Text)
    → drop c lines ≡ t ∷ rest
    → (matches_line t (get_elem? lines c) ≡ true) × (drop (suc c) lines ≡ rest)
matches_next lines c t rest e =
    let (found, behind) = get_elem?-of_drop lines c t rest e in
    (ap (matches_line t) found ∙ =t=-refl t, behind)

-- The other way round: a body whose old lines stand at the cursor is applied.
pub apply_body-total :
    (lines : List Text) (k : ℕ) (st : Applying) (ls : List HunkLine) (rest : List Text)
    → drop st.cursor lines ≡ old_lines ls ++ rest
    → (st' : Applying) × (apply_body lines k st ls ≡ ok st')
unfolding apply_body apply_line
apply_body-total lines k st [] rest d = (st, refl)
apply_body-total lines k st (context t ∷ ls) rest d =
    let (m, d') = matches_next lines st.cursor t (old_lines ls ++ rest) d in
    rw m (apply_body-total lines k _ ls rest d')
apply_body-total lines k st (remove t ∷ ls) rest d =
    let (m, d') = matches_next lines st.cursor t (old_lines ls ++ rest) d in
    rw m (apply_body-total lines k _ ls rest d')
apply_body-total lines k st (add t ∷ ls) rest d = apply_body-total lines k _ ls rest d

-- The lines stand in the source from `c` on.
abbrev pub Stands : List Text → ℕ → List Text → Type 0
Stands lines c [] = Unit
Stands lines c (t ∷ ts) = (matches_line t (get_elem? lines c) ≡ true) × Stands lines (suc c) ts

-- `x` names the first of the expected lines that does not stand in the source at its place.
pub record FirstMismatch (lines : List Text) (k c : ℕ) (expected : List Text) (x : NotePatchError)
    : Type 0 where
  pub before : List Text
  pub line : Text
  pub after : List Text
  pub split : expected ≡ before ++ line ∷ after
  pub fits : Stands lines c before
  pub named : x ≡ hunk_mismatch k (suc (c + length before))
  pub differs : matches_line line (get_elem? lines (c + length before)) ≡ false

FirstMismatch-here :
    (lines : List Text) (k c : ℕ) (t : Text) (expected : List Text) (x : NotePatchError)
    → x ≡ hunk_mismatch k (suc c)
    → matches_line t (get_elem? lines c) ≡ false
    → FirstMismatch lines k c (t ∷ expected) x
FirstMismatch-here lines k c t expected x e m = record {
  before = [];
  line = t;
  after = expected;
  split = refl;
  fits = tt;
  named = rw add-zero e;
  differs = rw add-zero m;
}

FirstMismatch-later :
    (lines : List Text) (k c : ℕ) (t : Text) (expected : List Text) (x : NotePatchError)
    → matches_line t (get_elem? lines c) ≡ true
    → FirstMismatch lines k (suc c) expected x
    → FirstMismatch lines k c (t ∷ expected) x
FirstMismatch-later lines k c t expected x m f = record {
  before = t ∷ f.before;
  line = f.line;
  after = f.after;
  split = ap (◌∷◌ t) f.split;
  fits = (m, f.fits);
  named = rw (add-suc, ← suc-add) f.named;
  differs = rw (add-suc, ← suc-add) f.differs;
}

-- A refused body names the first of its old lines that does not stand in the source at its place.
pub apply_body-FirstMismatch :
    (lines : List Text) (k : ℕ) (st : Applying) (ls : List HunkLine) (x : NotePatchError)
    → apply_body lines k st ls ≡ err x
    → FirstMismatch lines k st.cursor (old_lines ls) x
unfolding apply_body apply_line
apply_body-FirstMismatch lines k st [] x e = cc
apply_body-FirstMismatch lines k st (context t ∷ ls) x e =
    elim (Bool-cases (matches_line t (get_elem? lines st.cursor))) [
      | inl m ↦
          FirstMismatch-later lines k st.cursor t (old_lines ls) x m
            (apply_body-FirstMismatch lines k _ ls x (rw m at e))
      | inr m ↦ FirstMismatch-here lines k st.cursor t (old_lines ls) x (ground arith) m
    ]
apply_body-FirstMismatch lines k st (remove t ∷ ls) x e =
    elim (Bool-cases (matches_line t (get_elem? lines st.cursor))) [
      | inl m ↦
          FirstMismatch-later lines k st.cursor t (old_lines ls) x m
            (apply_body-FirstMismatch lines k _ ls x (rw m at e))
      | inr m ↦ FirstMismatch-here lines k st.cursor t (old_lines ls) x (ground arith) m
    ]
apply_body-FirstMismatch lines k st (add t ∷ ls) x e = apply_body-FirstMismatch lines k _ ls x e
