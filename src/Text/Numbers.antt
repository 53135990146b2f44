-- ===== src/Text/Numbers.antt =====
-- `str::parse::<usize>` on a 64-bit machine: an optional `+`, then at least one decimal digit, and
-- a value that fits.
use marginalis.Prelude.{
  ℕ, ◌+◌, ◌-◌, ◌*◌, ◌<◌, ◌≡◌, refl, ◌&&◌, [], ◌∷◌, Option, none, some, arith, ltb, leb, ◌==◌,
  if◌then◌else◌,
}
use marginalis.Text.{Text}

abbrev pub usize_limit : ℕ
usize_limit = 18446744073709551616

-- One digit more, with the overflow checks.
unfoldable pub push_digit : ℕ → Option ℕ → Option ℕ
push_digit c none = none
push_digit c (some n) =
    if leb b'0' c && leb c b'9' && ltb (10 * n + (c - b'0')) usize_limit
    then some (10 * n + (c - b'0'))
    else none

unfoldable pub push_digits : Option ℕ → Text → Option ℕ
push_digits acc [] = acc
push_digits acc (c ∷ s) = push_digits (push_digit c acc) s

unfoldable pub parse_digits : Text → Option ℕ
parse_digits [] = none
parse_digits (c ∷ s) = push_digits (some 0) (c ∷ s)

unfoldable pub parse_usize : Text → Option ℕ
parse_usize [] = none
parse_usize (c ∷ s) = if c == b'+' then parse_digits s else parse_digits (c ∷ s)

push_digits-none : (s : Text) → push_digits none s ≡ none
unfolding push_digits push_digit
push_digits-none [] = refl
push_digits-none (c ∷ s) = push_digits-none s

push_digits-lt :
    (s : Text) (m n : ℕ) → m < usize_limit → push_digits (some m) s ≡ some n → n < usize_limit
unfolding push_digits push_digit
push_digits-lt [] m n h e = ground arith
push_digits-lt (c ∷ s) m n h e =
    ground (arith, push_digits-none s, push_digits-lt s (10 * m + (c - b'0')) n)

parse_digits-lt : (s : Text) (n : ℕ) → parse_digits s ≡ some n → n < usize_limit
unfolding parse_digits
parse_digits-lt [] n e = cc
parse_digits-lt (c ∷ s) n e = push_digits-lt (c ∷ s) 0 n (omega arith) e

-- What `parse` accepts fits the machine word.
pub parse_usize-lt : (s : Text) (n : ℕ) → parse_usize s ≡ some n → n < usize_limit
unfolding parse_usize
parse_usize-lt [] n e = cc
parse_usize-lt (c ∷ s) n e = ground (arith, parse_digits-lt s n, parse_digits-lt (c ∷ s) n)
