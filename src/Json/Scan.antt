-- ===== src/Json/Scan.antt =====
-- The string scanner of `json.loads`, from behind the opening quote, one character at a time; and
-- that it reads back what `json.dumps` escapes.
use db_first_practice.Common.{
  ℕ, zero, suc, ◌+◌, ◌-◌, ◌*◌, ◌/◌, ◌%◌, ◌<◌, ◌≡◌, refl, ap, ◌∙◌, ◌&&◌, ◌||◌, Option, none, some,
  [], ◌∷◌, ◌++◌, arith, ◌==◌, ltb, leb, if◌then◌else◌, Text, Bool-cases, inl, inr,
}
use db_first_practice.Json.Print.{quote, backslash, escape_char, escape, hex_digit}
use mathlib.Core.List.{append_assoc}

pub data Mode : Type 0 where
  plain : Mode
  escaped : Mode
  hex : ℕ → ℕ → Mode

pub data Move : Type 0 where
  stop fail : Move
  go : Mode → Move
  emit : ℕ → Move

unfoldable pub hex_value : ℕ → Option ℕ
hex_value c =
    if leb 48 c && leb c 57
    then some (c - 48)
    else if leb b'a' c && leb c b'f'
    then some (c - 87)
    else if leb b'A' c && leb c b'F'
    then some (c - 55)
    else none

-- the character behind a backslash
unfoldable pub unescape : ℕ → Move
unescape c =
    if (c == quote || c == backslash) || c == b'/'
    then emit c
    else if c == b'b'
    then emit 8
    else if c == b'f'
    then emit 12
    else if c == b'n'
    then emit 10
    else if c == b'r'
    then emit 13
    else if c == b't'
    then emit 9
    else if c == b'u'
    then go (hex 3 0)
    else fail

unfoldable pub hex_move : ℕ → ℕ → Option ℕ → Move
hex_move left acc none = fail
hex_move zero acc (some d) = emit (acc * 16 + d)
hex_move (suc n) acc (some d) = go (hex n (acc * 16 + d))

-- a raw control character is refused
unfoldable pub move : Mode → ℕ → Move
unfolding hex_move unescape
move plain c =
    if c == quote
    then stop
    else if c == backslash
    then go escaped
    else if ltb c 32
    then fail
    else emit c
move escaped c = unescape c
move (hex left acc) c = hex_move left acc (hex_value c)

abbrev pub push : ℕ → Option (Text × Text) → Option (Text × Text)
push c none = none
push c (some (s, r)) = some (c ∷ s, r)

-- the text up to the closing quote, and what follows it
unfoldable pub scan : Mode → Text → Option (Text × Text)
unfolding move
scan m [] = none
scan m (c ∷ r) = elim (move m c) [
  | stop ↦ some ([], r)
  | fail ↦ none
  | go m' ↦ scan m' r
  | emit d ↦ push d (scan plain r)
]

move_hex : (d : ℕ) → d < 16 → hex_value (hex_digit d) ≡ some d
unfolding hex_value hex_digit
move_hex d h = ground arith

zero_digit : hex_value 48 ≡ some 0
unfolding hex_value
zero_digit = refl

scan_control :
    (c : ℕ) (x : Text)
    → c < 32
    → scan plain (backslash ∷ b'u' ∷ 48 ∷ 48 ∷ hex_digit (c / 16) ∷ hex_digit (c % 16) ∷ x)
      ≡ push c (scan plain x)
unfolding scan
scan_control c x h =
    ground (arith, move_hex (c / 16) (omega arith), move_hex (c % 16) (omega arith), zero_digit)

-- an escaped character is read back
scan-escape_char : (c : ℕ) (x : Text) → scan plain (escape_char c ++ x) ≡ push c (scan plain x)
unfolding scan escape_char
scan-escape_char c x = elim (Bool-cases (ltb c 32)) [
  | inl low ↦ ground (arith, scan_control c x)
  | inr high ↦ ground (arith, high)
]

-- What is escaped is scanned back, whatever follows the closing quote.
pub scan-escape : (s x : Text) → scan plain (escape s ++ quote ∷ x) ≡ some (s, x)
unfolding escape
scan-escape [] x = unfold scan in refl
scan-escape (c ∷ s) x =
    rw append_assoc (scan-escape_char c (escape s ++ quote ∷ x) ∙ ap (push c) (scan-escape s x))
