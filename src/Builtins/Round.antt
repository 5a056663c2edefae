-- ===== src/Builtins/Round.antt =====
-- `int(str(n))` is `n`, for every integer.
use db_first_practice.Common.{
  ℕ, zero, suc, ◌+◌, ◌/◌, ◌%◌, ◌<◌, ◌≤◌, ◌≡◌, refl, ap, ◌∙◌, Bool, true, false, some, [], ◌∷◌,
  arith, Text, All,
}
use db_first_practice.Common.Int.{ℤ, pos, negsuc}
use db_first_practice.Json.Print.{print_nat, print_int, print_digits}
use db_first_practice.Builtins.Defs.{
  lstrip, rstrip, strip, digit_move, read_digits, signed_int, parse_int, to_pos, to_neg,
}

abbrev IsNumeral : Text → Type 0
IsNumeral s = All (λ c. (45 ≤ c) × (c ≤ 57)) s

lstrip_numeral : (s : Text) → IsNumeral s → lstrip s ≡ s
unfolding lstrip
lstrip_numeral [] h = refl
lstrip_numeral (c ∷ s) h = ground arith

rstrip_numeral : (s : Text) → IsNumeral s → rstrip s ≡ s
unfolding rstrip
rstrip_numeral [] h = refl
rstrip_numeral (c ∷ s) h = ground (arith, rstrip_numeral s h.1)

strip_numeral : (s : Text) → IsNumeral s → strip s ≡ s
unfolding strip
strip_numeral s h = ap rstrip (lstrip_numeral s h) ∙ rstrip_numeral s h

abbrev IsDigits : Text → Type 0
IsDigits s = All (λ c. (48 ≤ c) × (c ≤ 57)) s

IsDigits-IsNumeral : (s : Text) → IsDigits s → IsNumeral s
IsDigits-IsNumeral [] h = tt
IsDigits-IsNumeral (c ∷ s) h = ground (arith, IsDigits-IsNumeral s h.1)

print_digits-IsDigits :
    (f n : ℕ) (out : Text) → n < f → IsDigits out → IsDigits (print_digits f n out)
unfolding print_digits
print_digits-IsDigits zero n out h k = elim h [ ]
print_digits-IsDigits (suc f) n out h k =
    ground (arith, print_digits-IsDigits f (n / 10) ((48 + n % 10) ∷ out))

read_digits-print_digits :
    (b : Bool) (f n : ℕ) (out : Text)
    → n < f
    → read_digits b 0 (print_digits f n out) ≡ read_digits true n out
unfolding print_digits read_digits digit_move
read_digits-print_digits b zero n out h = elim h [ ]
read_digits-print_digits b (suc f) n out h =
    ground (arith, read_digits-print_digits b f (n / 10) ((48 + n % 10) ∷ out))

read_digits-print_nat : (n : ℕ) → read_digits false 0 (print_nat n) ≡ some n
unfolding print_nat
read_digits-print_nat n =
    read_digits-print_digits false (suc n) n [] (omega arith) ∙ (unfold read_digits in refl)

print_nat-IsDigits : (n : ℕ) → IsDigits (print_nat n)
unfolding print_nat
print_nat-IsDigits n = print_digits-IsDigits (suc n) n [] (omega arith) tt

signed_int-digits : (s : Text) → IsDigits s → signed_int s ≡ to_pos (read_digits false 0 s)
unfolding signed_int
signed_int-digits [] h = unfold read_digits to_pos in refl
signed_int-digits (c ∷ s) h = ground arith

parse_int-print_nat : (n : ℕ) → parse_int (print_nat n) ≡ some (pos n)
unfolding parse_int
parse_int-print_nat n =
    let d = print_nat-IsDigits n in
    ap signed_int (strip_numeral (print_nat n) (IsDigits-IsNumeral _ d))
    ∙ signed_int-digits (print_nat n) d
    ∙ ap to_pos (read_digits-print_nat n)
    ∙ (unfold to_pos in refl)

-- `int(str(n))` is `n`.
pub parse_int-print_int : (n : ℤ) → parse_int (print_int n) ≡ some n
unfolding print_int parse_int
parse_int-print_int (pos n) = parse_int-print_nat n
parse_int-print_int (negsuc n) =
    let numeral = IsDigits-IsNumeral _ (print_nat-IsDigits (suc n)) in
    ap signed_int (strip_numeral (b'-' ∷ print_nat (suc n)) (omega arith, numeral))
    ∙ ap to_neg (read_digits-print_nat (suc n))
    ∙ (unfold to_neg in ground arith)
