-- ===== src/Patch/Endings.antt =====
-- The final newline: a source is taken apart into lines and put together again.
use mathlib.Core.List.{append_assoc}
use marginalis.Prelude.{
  ℕ, ◌≡◌, ◌≢◌, refl, sym, ap, ◌∙◌, Bool, true, false, Bool-cases, inl, inr, List, [], ◌∷◌, ◌++◌,
  arith, ◌==◌,
}
use marginalis.Text.{Text, newline, ends_with_char}
use marginalis.Text.Split.{split_lines, join_lines, drop_last, join_lines-split_lines, grow_first}
use marginalis.Patch.Apply.{source_lines, assemble, start}

split_lines-newline :
    (c : ℕ) (s : Text) → (c == newline) ≡ true → split_lines (c ∷ s) ≡ [] ∷ split_lines s
unfolding split_lines
split_lines-newline c s e = ground arith

split_lines-other :
    (c : ℕ) (s : Text) → (c == newline) ≡ false → split_lines (c ∷ s) ≡ grow_first c (split_lines s)
unfolding split_lines
split_lines-other c s e = ground arith

split_lines-nil : split_lines [] ≡ [] ∷ []
unfolding split_lines
split_lines-nil = refl

-- A text that ends with a newline has an empty line behind it.
ends_with_newline :
    (s : Text)
    → ends_with_char newline s ≡ true
    → (l : Text) × (ls : List Text) × (split_lines s ≡ l ∷ (ls ++ [] ∷ []))
ends_with_newline [] e = cc
ends_with_newline (c ∷ []) e = ([], [], split_lines-newline c [] e ∙ ap (◌∷◌ []) split_lines-nil)
ends_with_newline (c ∷ d ∷ s) e =
    let (l, ls, h) = ends_with_newline (d ∷ s) e in
    elim (Bool-cases (c == newline)) [
      | inl n ↦ ([], l ∷ ls, split_lines-newline c (d ∷ s) n ∙ ap (◌∷◌ []) h)
      | inr n ↦ (c ∷ l, ls, split_lines-other c (d ∷ s) n ∙ ap (grow_first c) h)
    ]

drop_last-end : (l : Text) (ls : List Text) → drop_last (l ∷ (ls ++ [] ∷ [])) ≡ l ∷ ls
drop_last-end l [] = refl
drop_last-end l (m ∷ ls) = ap (◌∷◌ l) (drop_last-end m ls)

join_lines-end :
    (l : Text) (ls : List Text)
    → join_lines (l ∷ (ls ++ [] ∷ [])) ≡ join_lines (l ∷ ls) ++ newline ∷ []
unfolding join_lines
join_lines-end l [] = refl
join_lines-end l (m ∷ ls) =
    ap (λ t. l ++ newline ∷ t) (join_lines-end m ls)
    ∙ sym (append_assoc l (newline ∷ join_lines (m ∷ ls)) (newline ∷ []))

-- What `source_lines` and `assemble` do to a source that ends with a newline.
finished :
    (s : Text)
    → ends_with_char newline s ≡ true
    → join_lines (drop_last (split_lines s)) ++ newline ∷ [] ≡ s
finished s e =
    let (l, ls, h) = ends_with_newline s e in
    rw (h, drop_last-end l ls)
      (sym (join_lines-end l ls) ∙ ap join_lines (sym h) ∙ join_lines-split_lines s)

assemble-closed :
    (ls : List Text) (s : Text)
    → s ≢ newline ∷ []
    → join_lines ls ++ newline ∷ [] ≡ s
    → assemble ls false ≡ s
unfolding assemble
assemble-closed ls s h e = ground arith

-- `s` is not a single newline, so its lines are neither none nor one empty line.
closed :
    (s : Text)
    → s ≢ newline ∷ []
    → ends_with_char newline s ≡ true
    → assemble
        (drop_last (split_lines s))
        (start (drop_last (split_lines s)) true).output_ends_without_newline
      ≡ s
closed s h e =
    let (l, ls, lines) = ends_with_newline s e in
    let as_lines = ap drop_last lines ∙ drop_last-end l ls in
    rw as_lines (
      assemble-closed (l ∷ ls) s h
        (ap (λ x. join_lines x ++ newline ∷ []) (sym as_lines) ∙ finished s e))

open_end :
    (s : Text)
    → assemble (split_lines s) (start (split_lines s) false).output_ends_without_newline ≡ s
unfolding assemble
open_end s = ground (arith, join_lines-split_lines s)

-- A source that no hunk touched would be put together as it was, unless it is a single newline.
pub assemble-source_lines :
    (s : Text)
    → s ≢ newline ∷ []
    → (let nl = ends_with_char newline s in
        assemble (source_lines s) (start (source_lines s) nl).output_ends_without_newline ≡ s)
unfolding assemble source_lines
assemble-source_lines [] h = unfold join_lines in refl
assemble-source_lines (c ∷ s) h = elim (Bool-cases (ends_with_char newline (c ∷ s))) [
  | inl e ↦ rw e (closed (c ∷ s) h e)
  | inr e ↦ rw e (open_end (c ∷ s))
]

-- A result of one empty line is put together as the empty text, with no newline.
pub assemble-blank : (b : Bool) → assemble ([] ∷ []) b ≡ []
unfolding assemble join_lines
assemble-blank b = refl
