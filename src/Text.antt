-- ===== src/Text.antt =====
-- Rust's `str` as the list of its Unicode scalar values, with the methods of the standard library
-- that the program calls. Byte counts are those of the UTF-8 encoding.
use Prim.Native.Char.{code}
use Prim.Native.String.{String}
pub mod Split
pub mod Numbers
pub mod Equality
pub mod Words
pub mod Order
use marginalis.Prelude.{
  ℕ, ◌+◌, ◌-◌, Bool, true, false, ◌&&◌, ◌||◌, List, [], ◌∷◌, Option, none, some, ltb, leb, ◌==◌,
  if◌then◌else◌,
}

abbrev pub Text : Type 0
Text = List ℕ

-- The characters of a literal.
abbrev pub codes : String → Text
codes String.[] = []
codes (String.◌∷◌ c s) = code c ∷ codes s

infix 50 ◌=t=◌
abbrev pub ◌=t=◌ : Text → Text → Bool
[] =t= [] = true
[] =t= (y ∷ ys) = false
(x ∷ xs) =t= [] = false
(x ∷ xs) =t= (y ∷ ys) = x == y && xs =t= ys

abbrev pub is_empty : Text → Bool
is_empty [] = true
is_empty (c ∷ s) = false

-- `char::len_utf8` and `str::len`.
abbrev pub char_len : ℕ → ℕ
char_len c = if ltb c 0x80 then 1 else if ltb c 0x800 then 2 else if ltb c 0x10000 then 3 else 4

abbrev pub byte_len : Text → ℕ
byte_len [] = 0
byte_len (c ∷ s) = char_len c + byte_len s

abbrev pub newline : ℕ
newline = 10

abbrev pub starts_with : Text → Text → Bool
starts_with s [] = true
starts_with [] (p ∷ ps) = false
starts_with (c ∷ s) (p ∷ ps) = c == p && starts_with s ps

abbrev pub ends_with_char : ℕ → Text → Bool
ends_with_char d [] = false
ends_with_char d (c ∷ []) = c == d
ends_with_char d (c ∷ b ∷ s) = ends_with_char d (b ∷ s)

abbrev pub strip_prefix : Text → Text → Option Text
strip_prefix s [] = some s
strip_prefix [] (p ∷ ps) = none
strip_prefix (c ∷ s) (p ∷ ps) = if c == p then strip_prefix s ps else none

-- `char::is_whitespace`: the Unicode property White_Space.
abbrev pub is_whitespace : ℕ → Bool
is_whitespace c =
    (leb 9 c && leb c 13)
    || c == 32
    || c == 0x85
    || c == 0xa0
    || c == 0x1680
    || (leb 0x2000 c && leb c 0x200a)
    || c == 0x2028
    || c == 0x2029
    || c == 0x202f
    || c == 0x205f
    || c == 0x3000

-- A character goes in front unless it is white space with nothing behind it.
abbrev pub keep_unless_blank : ℕ → Text → Text
keep_unless_blank c [] = if is_whitespace c then [] else c ∷ []
keep_unless_blank c (d ∷ s) = c ∷ d ∷ s

-- `str::trim_end`.
unfoldable pub trim_end : Text → Text
trim_end [] = []
trim_end (c ∷ s) = keep_unless_blank c (trim_end s)

abbrev consed : ℕ → Option (Text × Text) → Option (Text × Text)
consed c none = none
consed c (some (before, after)) = some (c ∷ before, after)

abbrev split_at : ℕ → Text → Option (Text × Text) → Option Text → Option (Text × Text)
split_at c s later none = consed c later
split_at c s later (some after) = some ([], after)

-- `str::split_once` with a pattern that is not empty: the texts before and after its first place.
unfoldable pub split_once : Text → Text → Option (Text × Text)
split_once [] p = none
split_once (c ∷ s) p = split_at c s (split_once s p) (strip_prefix (c ∷ s) p)
