-- ===== src/Patch/Hunk.antt =====
-- The data of crates/marginalis-application/src/notes/patch.rs: errors, hunks and the outcome.
use marginalis.Prelude.{ℕ, Bool, List, [], ◌∷◌}
use marginalis.Text.{Text}

-- `NotePatchError`. Lines and hunks are counted from 1.
pub data NotePatchError : Type 0 where
  patch_too_large too_many_hunks : NotePatchError
  invalid_format : ℕ → NotePatchError
  unsupported_header : NotePatchError
  hunk_out_of_order hunk_out_of_range : ℕ → NotePatchError
  hunk_mismatch : ℕ → ℕ → NotePatchError

pub data HunkLine : Type 0 where
  context remove add : Text → HunkLine

pub record Hunk : Type 0 where
  pub old_start : ℕ
  pub old_len : ℕ
  pub new_len : ℕ
  pub lines : List HunkLine
  pub old_ends_without_newline : Bool
  pub new_ends_without_newline : Bool

pub record NotePatchOutcome : Type 0 where
  pub source : Text
  pub hunks_applied : ℕ
  pub lines_added : ℕ
  pub lines_removed : ℕ

-- The lines that a hunk's body expects in the source, and those that it puts in their place.
abbrev pub old_lines : List HunkLine → List Text
old_lines [] = []
old_lines (context t ∷ ls) = t ∷ old_lines ls
old_lines (remove t ∷ ls) = t ∷ old_lines ls
old_lines (add t ∷ ls) = old_lines ls

abbrev pub new_lines : List HunkLine → List Text
new_lines [] = []
new_lines (context t ∷ ls) = t ∷ new_lines ls
new_lines (remove t ∷ ls) = new_lines ls
new_lines (add t ∷ ls) = t ∷ new_lines ls

-- The lines of a body that stand on one side only.
abbrev pub added_lines : List HunkLine → List Text
added_lines [] = []
added_lines (context t ∷ ls) = added_lines ls
added_lines (remove t ∷ ls) = added_lines ls
added_lines (add t ∷ ls) = t ∷ added_lines ls

abbrev pub removed_lines : List HunkLine → List Text
removed_lines [] = []
removed_lines (context t ∷ ls) = removed_lines ls
removed_lines (remove t ∷ ls) = t ∷ removed_lines ls
removed_lines (add t ∷ ls) = removed_lines ls
