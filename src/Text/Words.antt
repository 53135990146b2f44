-- ===== src/Text/Words.antt =====
-- Words of a text: `str::split_whitespace`, `str::split_ascii_whitespace` and `[_]::join(" ")`.
use marginalis.Prelude.{
  ℕ, ◌≡◌, ◌≢◌, refl, ap, ◌∙◌, Bool, true, false, not, ◌||◌, Bool-cases, inl, inr, List, [], ◌∷◌,
  ◌++◌, arith, ◌==◌, if◌then◌else◌, All,
}
use marginalis.Text.{Text, is_whitespace}
use marginalis.Text.Split.{grow_first}

-- `char::is_ascii_whitespace`.
abbrev pub is_ascii_whitespace : ℕ → Bool
is_ascii_whitespace c = c == 9 || c == 10 || c == 12 || c == 13 || c == 32

-- The text goes on with a word.
abbrev pub in_word : (ℕ → Bool) → Text → Bool
in_word sep [] = false
in_word sep (c ∷ s) = not (sep c)

-- The longest runs of characters that are no separators.
unfoldable pub words_by : (ℕ → Bool) → Text → List Text
words_by sep [] = []
words_by sep (c ∷ s) =
    let rest = words_by sep s in
    if sep c then rest else if in_word sep s then grow_first c rest else (c ∷ []) ∷ rest

unfoldable pub split_whitespace : Text → List Text
split_whitespace = words_by is_whitespace

unfoldable pub split_ascii_whitespace : Text → List Text
split_ascii_whitespace = words_by is_ascii_whitespace

unfoldable pub join_spaces : List Text → Text
join_spaces [] = []
join_spaces (w ∷ []) = w
join_spaces (w ∷ v ∷ ws) = w ++ 32 ∷ join_spaces (v ∷ ws)

-- A word has a character, and no separator.
abbrev pub IsWord : (ℕ → Bool) → Text → Type 0
IsWord sep w = (w ≢ []) × All (λ c. sep c ≡ false) w

grow_first-IsWord :
    (sep : ℕ → Bool) (c : ℕ) (ws : List Text)
    → sep c ≡ false
    → All (IsWord sep) ws
    → All (IsWord sep) (grow_first c ws)
grow_first-IsWord sep c [] h a = (((λ e. cc), (h, tt)), tt)
grow_first-IsWord sep c (w ∷ ws) h a = (((λ e. cc), (h, a.0.1)), a.1)

pub words_by-IsWord : (sep : ℕ → Bool) (s : Text) → All (IsWord sep) (words_by sep s)
unfolding words_by
words_by-IsWord sep [] = tt
words_by-IsWord sep (c ∷ s) = elim (Bool-cases (sep c)) [
  | inl h ↦ rw h (words_by-IsWord sep s)
  | inr h ↦ elim (Bool-cases (in_word sep s)) [
    | inl w ↦ rw (h, w) (grow_first-IsWord sep c (words_by sep s) h (words_by-IsWord sep s))
    | inr w ↦ rw (h, w) (((λ e. cc), (h, tt)), words_by-IsWord sep s)
  ]
]

-- A word in front of a separator is split off.
words_by-append :
    (sep : ℕ → Bool) (c d : ℕ) (w rest : Text)
    → sep c ≡ false
    → All (λ x. sep x ≡ false) w
    → sep d ≡ true
    → words_by sep ((c ∷ w) ++ d ∷ rest) ≡ (c ∷ w) ∷ words_by sep rest
unfolding words_by
words_by-append sep c d [] rest h a e = ground arith
words_by-append sep c d (b ∷ w) rest h a e =
    ground (arith, words_by-append sep b d w rest a.0 a.1 e)

words_by-word :
    (sep : ℕ → Bool) (c : ℕ) (w : Text)
    → sep c ≡ false
    → All (λ x. sep x ≡ false) w
    → words_by sep (c ∷ w) ≡ (c ∷ w) ∷ []
unfolding words_by
words_by-word sep c [] h a = ground arith
words_by-word sep c (b ∷ w) h a = ground (arith, words_by-word sep b w a.0 a.1)

-- Words that are joined by spaces are split into the same words.
pub words_by-join_spaces :
    (sep : ℕ → Bool) (ws : List Text)
    → sep 32 ≡ true
    → All (IsWord sep) ws
    → words_by sep (join_spaces ws) ≡ ws
unfolding join_spaces
words_by-join_spaces sep [] h a = unfold words_by in refl
words_by-join_spaces sep ([] ∷ ws) h a = absurd (a.0.0 refl)
words_by-join_spaces sep ((c ∷ w) ∷ []) h a = words_by-word sep c w a.0.1.0 a.0.1.1
words_by-join_spaces sep ((c ∷ w) ∷ v ∷ ws) h a =
    words_by-append sep c 32 w (join_spaces (v ∷ ws)) a.0.1.0 a.0.1.1 h
    ∙ ap (◌∷◌ (c ∷ w)) (words_by-join_spaces sep (v ∷ ws) h a.1)
