-- ===== src/Week2/Compose.antt =====
-- task/week2/autocheck/public_check.py: what a candidate's Compose file declares, and texts that the
-- checker puts into commands.
pub mod Unsafe
mod Tests
pub mod Texts
use db_first_practice.Common.{
  ℕ, zero, suc, ◌+◌, Bool, true, false, not, ◌&&◌, ◌||◌, Option, none, some, List, [], ◌∷◌, ◌++◌,
  ◌==◌, leb, if◌then◌else◌, Text, txt, text_eq, is_empty, mem_text, all, take, length,
}
use db_first_practice.Common.Int.{ℤ, pos}
use db_first_practice.Common.Results.{Result, ok, err, ◌>>=◌}
use db_first_practice.Json.{
  special, positive_infinity, negative_infinity, Value, null, bool, int, float, str, arr, obj,
  get_or_null, truthy,
}
use db_first_practice.Builtins.{is_space}
use db_first_practice.Builtins.Find.{after_prefix, starts_with, rsplit, after_last, split_all}
use db_first_practice.Findings.{Fault, overflow_error, str_of, iterate}
use db_first_practice.Week4.Compose.Ports.{int_of}

abbrev pub is_letter : ℕ → Bool
is_letter c = (leb 65 c && leb c 90) || (leb 97 c && leb c 122)

abbrev pub is_digit : ℕ → Bool
is_digit c = leb 48 c && leb c 57

-- `[A-Za-z0-9_.:-]`
abbrev pub is_plain : ℕ → Bool
is_plain c = (is_letter c || is_digit c) || ((c == b'_' || c == b'.') || (c == b':' || c == b'-'))

-- `none` is ContractError
unfoldable pub sql_literal : Text → Option Text
sql_literal value =
    if (leb 1 (length value) && leb (length value) 180) && all is_plain value
    then some (39 ∷ (value ++ 39 ∷ []))
    else none

abbrev pub is_hex_digit : ℕ → Bool
is_hex_digit c = is_digit c || (leb 97 c && leb c 102)

-- the first `n` characters, if they pass the test, and the rest
unfoldable pub exactly : (ℕ → Bool) → ℕ → Text → Option (Text × Text)
exactly p zero s = some ([], s)
exactly p (suc n) [] = none
exactly p (suc n) (c ∷ s) = elim (exactly p n s) [
  | none ↦ none
  | some (t, rest) ↦ if p c then some (c ∷ t, rest) else none
]

-- `sha256:([a-f0-9]{64})\s*`; `none` is ContractError
unfoldable pub normalize_image_id : Text → Option Text
normalize_image_id value = elim (after_prefix (txt "sha256:") value) [
  | none ↦ none
  | some s ↦ elim (exactly is_hex_digit 64 s) [
    | none ↦ none
    | some (digits, rest) ↦ if all is_space rest then some (txt "sha256:" ++ digits) else none
  ]
]

-- `parts[-2] if len(parts) >= 2 else None`, where `parts` is `text.rsplit(":", 2)`
unfoldable pub port_part : Text → Value
port_part s = elim (rsplit 58 s) [ none ↦ null | some (a, b) ↦ str (after_last 58 a) ]

-- the value that stands for an entry's published port
unfoldable pub published_value : (Value → Text) → Value → Value
published_value repr (obj entry) = get_or_null (txt "published") entry
published_value repr (str s) = port_part s
published_value repr (int n) = port_part (str_of repr (int n))
published_value repr (bool b) = port_part (str_of repr (bool b))
published_value repr v = null

-- `int(value)`, and 0 for what is no number; OverflowError of an infinity is not caught
abbrev pub port_number : Value → Result Fault ℤ
port_number (special positive_infinity) = err overflow_error
port_number (special negative_infinity) = err overflow_error
port_number v = ok (elim (int_of v) [ none ↦ pos 0 | some n ↦ n ])

unfoldable pub port_numbers : (Value → Text) → List Value → Result Fault (List ℤ)
port_numbers repr [] = ok []
port_numbers repr (entry ∷ entries) = do
  n ← port_number (published_value repr entry)
  rest ← port_numbers repr entries
  ok (n ∷ rest)

-- a set is the list of its elements in the order they are added
unfoldable pub published_ports : (Value → Text) → Value → Result Fault (List ℤ)
published_ports repr (obj service) = do
  entries ← iterate (get_or_null (txt "ports") service)
  port_numbers repr entries
published_ports repr v = ok []

abbrev pub is_true : Value → Bool
is_true (bool true) = true
is_true v = false

abbrev options_of : List Text → List Text
options_of (options ∷ rest) = split_all b',' options
options_of [] = []

abbrev bind_or_volume : Text → Value
bind_or_volume source = str (
    if (starts_with (txt "/") source || starts_with (txt ".") source)
      || starts_with (txt "~") source
    then txt "bind"
    else txt "volume")

-- the kind, the source, and whether the volume is read-only
unfoldable pub volume_source : Value → Value × Value × Bool
volume_source (obj volume) = (
  get_or_null (txt "type") volume,
  get_or_null (txt "source") volume,
  is_true (get_or_null (txt "read_only") volume),
)
volume_source (str s) = elim (split_all b':' s) [
  | [] ↦ (str (txt "volume"), str s, false)
  | source ∷ [] ↦ (str (txt "volume"), str s, false)
  | source ∷ target ∷ rest ↦
      (bind_or_volume source, str source, mem_text (txt "ro") (options_of rest))
]
volume_source v = (null, null, false)
