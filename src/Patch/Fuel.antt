-- ===== src/Patch/Fuel.antt =====
-- The outer loop of the patch reader and its fuel: `parse_hunks`.
use marginalis.Prelude.{
  ℕ, zero, suc, ◌≤◌, ◌≡◌, refl, List, [], ◌∷◌, ◌++◌, arith, ok, length, inl, inr, Result-cases,
}
use marginalis.Text.{Text}
use marginalis.Patch.Hunk.{HunkLine, Hunk}
use marginalis.Patch.Parse.{
  Reading, new_reading, take_line, take_mark, parse_body, parse_hunk, parse_hunks,
}

-- A body leaves no more lines than there were.
parse_body-length :
    (header : ℕ) (r : Reading) (n : ℕ) (lines : List Text) (h : Hunk) (m : ℕ) (rest : List Text)
    → parse_body header r n lines ≡ ok (h, (m, rest))
    → length rest ≤ length lines
unfolding parse_body
parse_body-length header r n [] h m rest e = ground arith
parse_body-length header r n (body ∷ []) h m rest e =
    grind (arith, λ (l : HunkLine). parse_body-length header (take_line r l) (suc n) [] h m rest)
parse_body-length header r n (body ∷ marker ∷ lines) h m rest e = grind (
  arith,
  λ (l : HunkLine). parse_body-length header (take_line r l) (suc n) (marker ∷ lines) h m rest,
  λ (l : HunkLine).
      parse_body-length header (take_mark (take_line r l) l) (suc (suc n)) lines h m rest,
)

parse_hunk-length :
    (header : Text) (n : ℕ) (lines : List Text) (h : Hunk) (m : ℕ) (rest : List Text)
    → parse_hunk header n lines ≡ ok (h, (m, rest))
    → length rest ≤ length lines
unfolding parse_hunk
parse_hunk-length header n lines h m rest e =
    grind (arith, λ (t : ℕ × ℕ × ℕ). parse_body-length n (new_reading t) (suc n) lines h m rest)

-- Any fuel that is at least the number of lines gives the same result.
pub parse_hunks_enough :
    (f g : ℕ) (hunks : List Hunk) (n : ℕ) (lines : List Text)
    → length lines ≤ f
    → length lines ≤ g
    → parse_hunks f hunks n lines ≡ parse_hunks g hunks n lines
unfolding parse_hunks
parse_hunks_enough zero zero hunks n lines p q = refl
parse_hunks_enough zero (suc g) hunks n [] p q = refl
parse_hunks_enough (suc f) zero hunks n [] p q = refl
parse_hunks_enough (suc f) (suc g) hunks n [] p q = refl
parse_hunks_enough zero (suc g) hunks n (header ∷ lines) p q = absurd (omega arith)
parse_hunks_enough (suc f) zero hunks n (header ∷ lines) p q = absurd (omega arith)
parse_hunks_enough (suc f) (suc g) hunks n (header ∷ lines) p q =
    elim (Result-cases (parse_hunk header n lines)) [
      | inl ((h, (m, rest)), e) ↦
          let shorter = parse_hunk-length header n lines h m rest e in
          rw e (parse_hunks_enough f g (hunks ++ h ∷ []) m rest (omega arith) (omega arith))
      | inr (x, e) ↦ rw e refl
    ]
