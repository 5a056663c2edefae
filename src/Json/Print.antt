-- ===== src/Json/Print.antt =====
-- `json.dumps` with `separators=(",", ":")` and `ensure_ascii=False`.
use db_first_practice.Common.{
  ℕ, zero, suc, ◌+◌, ◌/◌, ◌%◌, ◌^◌, Bool, true, false, ◌&&◌, ◌||◌, List, [], ◌∷◌, ◌++◌, ◌==◌, ltb,
  if◌then◌else◌, Text, txt,
}
use db_first_practice.Common.Int.{ℤ, pos, negsuc}
use db_first_practice.Json.Defs.{
  Special, not_a_number, positive_infinity, negative_infinity, Value, null, bool, int, float,
  special, str, arr, obj, Items, nil, cons, Fields, end, field,
}

-- one hexadecimal digit, lower case
unfoldable pub hex_digit : ℕ → ℕ
hex_digit d = if ltb d 10 then 48 + d else 87 + d

abbrev pub quote : ℕ
quote = 34

abbrev pub backslash : ℕ
backslash = 92

unfoldable pub escape_char : ℕ → Text
escape_char c =
    if c == quote
    then backslash ∷ quote ∷ []
    else if c == backslash
    then backslash ∷ backslash ∷ []
    else if c == 10
    then backslash ∷ b'n' ∷ []
    else if c == 13
    then backslash ∷ b'r' ∷ []
    else if c == 9
    then backslash ∷ b't' ∷ []
    else if c == 12
    then backslash ∷ b'f' ∷ []
    else if c == 8
    then backslash ∷ b'b' ∷ []
    else if ltb c 32
    then backslash ∷ b'u' ∷ 48 ∷ 48 ∷ hex_digit (c / 16) ∷ hex_digit (c % 16) ∷ []
    else c ∷ []

unfoldable pub escape : Text → Text
escape [] = []
escape (c ∷ s) = escape_char c ++ escape s

unfoldable pub print_string : Text → Text
unfolding escape
print_string s = quote ∷ (escape s ++ quote ∷ [])

-- decimal digits on fuel: `n < 10 ^ fuel` is enough
unfoldable pub print_digits : ℕ → ℕ → Text → Text
print_digits zero n out = out
print_digits (suc f) n out =
    let rest = print_digits f (n / 10) ((48 + n % 10) ∷ out) in
    if ltb n 10 then (48 + n) ∷ out else rest

-- `str(n)`; `n` is below `10 ^ (n + 1)`
unfoldable pub print_nat : ℕ → Text
unfolding print_digits
print_nat n = print_digits (suc n) n []

unfoldable pub print_int : ℤ → Text
unfolding print_nat
print_int (pos n) = print_nat n
print_int (negsuc n) = b'-' ∷ print_nat (suc n)

-- exactly `k` digits, zeros in front
unfoldable pub print_padded : ℕ → ℕ → Text
print_padded zero n = []
print_padded (suc k) n = print_padded k (n / 10) ++ (48 + n % 10) ∷ []

-- a decimal in positional form
unfoldable pub print_special : Special → Text
print_special not_a_number = txt "NaN"
print_special positive_infinity = txt "Infinity"
print_special negative_infinity = txt "-Infinity"

unfoldable pub print_float : ℤ → ℕ → Text
unfolding print_nat print_padded
print_float (pos m) zero = print_nat m ++ b'.' ∷ 48 ∷ []
print_float (pos m) (suc k) = print_nat (m / 10 ^ suc k) ++ b'.' ∷ print_padded (suc k) m
print_float (negsuc m) zero = b'-' ∷ (print_nat (suc m) ++ b'.' ∷ 48 ∷ [])
print_float (negsuc m) (suc k) =
    b'-' ∷ (print_nat (suc m / 10 ^ suc k) ++ b'.' ∷ print_padded (suc k) (suc m))

-- Python orders text by code points
unfoldable pub text_le : Text → Text → Bool
text_le [] t = true
text_le (x ∷ xs) [] = false
text_le (x ∷ xs) (y ∷ ys) = ltb x y || (x == y && text_le xs ys)

-- an object's entries, each with its value's text
abbrev pub Printed : Type 0
Printed = List (Text × Text)

unfoldable pub insert_entry : Text × Text → Printed → Printed
insert_entry e [] = e ∷ []
insert_entry e (f ∷ fs) = if text_le e.0 f.0 then e ∷ f ∷ fs else f ∷ insert_entry e fs

unfoldable pub sort_entries : Printed → Printed
sort_entries [] = []
sort_entries (e ∷ es) = insert_entry e (sort_entries es)

unfoldable pub join_entries : Printed → Text
join_entries [] = []
join_entries ((k, v) ∷ []) = print_string k ++ b':' ∷ v
join_entries ((k, v) ∷ e ∷ es) = print_string k ++ (b':' ∷ (v ++ b',' ∷ join_entries (e ∷ es)))

unfoldable pub join_items : List Text → Text
join_items [] = []
join_items (v ∷ []) = v
join_items (v ∷ w ∷ ws) = v ++ b',' ∷ join_items (w ∷ ws)

-- `arrange` is `sort_entries` for `sort_keys=True`, and keeps the order otherwise
unfoldable mutual
  unfolding print_string print_int print_float print_special txt join_entries join_items

  pub print_value : (Printed → Printed) → Value → Text
  print_value arrange null = txt "null"
  print_value arrange (bool true) = txt "true"
  print_value arrange (bool false) = txt "false"
  print_value arrange (int n) = print_int n
  print_value arrange (float m k) = print_float m k
  print_value arrange (special x) = print_special x
  print_value arrange (str s) = print_string s
  print_value arrange (arr vs) = b'[' ∷ (join_items (print_items arrange vs) ++ b']' ∷ [])
  print_value arrange (obj d) =
      b'{' ∷ (join_entries (arrange (print_fields arrange d)) ++ b'}' ∷ [])

  pub print_items : (Printed → Printed) → Items → List Text
  print_items arrange nil = []
  print_items arrange (cons v vs) = print_value arrange v ∷ print_items arrange vs

  pub print_fields : (Printed → Printed) → Fields → Printed
  print_fields arrange end = []
  print_fields arrange (field k v d) = (k, print_value arrange v) ∷ print_fields arrange d

unfoldable pub dumps : Value → Text
unfolding print_value escape_char hex_digit
dumps v = print_value (λ es. es) v

unfoldable pub dumps_sorted : Value → Text
unfolding print_value escape_char hex_digit sort_entries insert_entry text_le
dumps_sorted v = print_value sort_entries v
