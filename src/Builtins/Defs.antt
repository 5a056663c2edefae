-- ===== src/Builtins/Defs.antt =====
-- `int(text)`, `strip`, and the first part of a `split`.
use db_first_practice.Common.{
  ℕ, ◌+◌, ◌-◌, ◌*◌, Bool, true, false, ◌&&◌, ◌||◌, Option, none, some, [], ◌∷◌, ◌==◌, leb,
  if◌then◌else◌, Text, is_empty,
}
use db_first_practice.Common.Int.{ℤ, pos, neg}

-- the ASCII and Latin-1 characters for which `str.isspace` holds
abbrev pub is_space : ℕ → Bool
is_space c = ((leb 9 c && leb c 13) || (leb 28 c && leb c 32)) || (c == 0x85 || c == 0xA0)

unfoldable pub lstrip : Text → Text
lstrip [] = []
lstrip (c ∷ s) = let rest = lstrip s in if is_space c then rest else c ∷ s

unfoldable pub rstrip : Text → Text
rstrip [] = []
rstrip (c ∷ s) = let r = rstrip s in if is_space c && is_empty r then [] else c ∷ r

unfoldable pub strip : Text → Text
unfolding lstrip rstrip
strip s = rstrip (lstrip s)

-- one more character of a number: whether the last was a digit, and the value so far
unfoldable pub digit_move : Bool → ℕ → ℕ → Option (Bool × ℕ)
digit_move after_digit acc c =
    if leb 48 c && leb c 57
    then some (true, acc * 10 + (c - 48))
    else if after_digit && c == b'_'
    then some (false, acc)
    else none

-- digits, with single underscores between them
unfoldable pub read_digits : Bool → ℕ → Text → Option ℕ
read_digits true acc [] = some acc
read_digits false acc [] = none
read_digits after_digit acc (c ∷ s) = elim (digit_move after_digit acc c) [
  | none ↦ none
  | some (b, n) ↦ read_digits b n s
]

unfoldable pub to_pos : Option ℕ → Option ℤ
to_pos none = none
to_pos (some n) = some (pos n)

unfoldable pub to_neg : Option ℕ → Option ℤ
to_neg none = none
to_neg (some n) = some (neg n)

unfoldable pub signed_int : Text → Option ℤ
unfolding to_pos to_neg
signed_int [] = none
signed_int (c ∷ s) =
    if c == b'-'
    then to_neg (read_digits false 0 s)
    else if c == b'+'
    then to_pos (read_digits false 0 s)
    else to_pos (read_digits false 0 (c ∷ s))

-- `int(text)`; `none` is ValueError
unfoldable pub parse_int : Text → Option ℤ
unfolding strip signed_int read_digits digit_move
parse_int s = signed_int (strip s)

-- `text.split(sep, 1)[0]`
unfoldable pub before : ℕ → Text → Text
before sep [] = []
before sep (c ∷ s) = if c == sep then [] else c ∷ before sep s

-- `text.rstrip(char)`
unfoldable pub rstrip_char : ℕ → Text → Text
rstrip_char x [] = []
rstrip_char x (c ∷ s) = let r = rstrip_char x s in if c == x && is_empty r then [] else c ∷ r
