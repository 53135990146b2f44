-- ===== src/Text/Split.antt =====
-- Splitting a text at its newlines and joining lines again: `str::split('\n')`, `[_]::join("\n")`
-- and `str::strip_suffix('\n')`.
use marginalis.Prelude.{
  ℕ, ◌≡◌, refl, List, [], ◌∷◌, ◌++◌, arith, ◌==◌, if◌then◌else◌, Bool-cases, inl, inr,
}
use marginalis.Text.{Text, newline}

-- Puts a character in front of the first line.
abbrev pub grow_first : ℕ → List Text → List Text
grow_first c [] = (c ∷ []) ∷ []
grow_first c (l ∷ ls) = (c ∷ l) ∷ ls

-- `str::split('\n')`: always at least one line, and `n + 1` lines at `n` newlines.
unfoldable pub split_lines : Text → List Text
split_lines [] = [] ∷ []
split_lines (c ∷ s) =
    let rest = split_lines s in if c == newline then [] ∷ rest else grow_first c rest

-- `[_]::join("\n")`.
unfoldable pub join_lines : List Text → Text
join_lines [] = []
join_lines (l ∷ []) = l
join_lines (l ∷ m ∷ ls) = l ++ newline ∷ join_lines (m ∷ ls)

-- `strip_suffix('\n').unwrap_or`: one newline less at the end, if there is one.
unfoldable pub strip_newline : Text → Text
strip_newline [] = []
strip_newline (c ∷ []) = if c == newline then [] else c ∷ []
strip_newline (c ∷ d ∷ s) = c ∷ strip_newline (d ∷ s)

-- `Vec::pop`.
abbrev pub drop_last {ℓ} : {A : Type ℓ} → List A → List A
drop_last [] = []
drop_last (x ∷ []) = []
drop_last (x ∷ y ∷ xs) = x ∷ drop_last (y ∷ xs)

-- There is always a first line.
pub split_lines-cons : (s : Text) → (l : Text) × (ls : List Text) × (split_lines s ≡ l ∷ ls)
unfolding split_lines
split_lines-cons [] = ([], [], refl)
split_lines-cons (c ∷ s) = elim (Bool-cases (c == newline)) [
  | inl e ↦ ([], split_lines s, ground arith)
  | inr e ↦ let (l, ls, h) = split_lines-cons s in (c ∷ l, ls, ground (arith, h))
]

join_lines-grow_first : (c : ℕ) (ls : List Text) → join_lines (grow_first c ls) ≡ c ∷ join_lines ls
unfolding join_lines
join_lines-grow_first c [] = refl
join_lines-grow_first c (l ∷ []) = refl
join_lines-grow_first c (l ∷ m ∷ ls) = refl

join_lines-nil_cons :
    (l : Text) (ls : List Text) → join_lines ([] ∷ l ∷ ls) ≡ newline ∷ join_lines (l ∷ ls)
unfolding join_lines
join_lines-nil_cons l ls = refl

-- Joining the lines of a text gives the text.
pub join_lines-split_lines : (s : Text) → join_lines (split_lines s) ≡ s
unfolding split_lines
join_lines-split_lines [] = unfold join_lines in refl
join_lines-split_lines (c ∷ s) =
    let (l, ls, h) = split_lines-cons s in
    ground (
      arith,
      h,
      join_lines-nil_cons l ls,
      join_lines-grow_first c (split_lines s),
      join_lines-split_lines s,
    )
