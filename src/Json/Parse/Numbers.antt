-- ===== src/Json/Parse/Numbers.antt =====
-- What `json.loads` reads from the digits of a natural number.
use db_first_practice.Common.{
  ℕ, zero, suc, ◌+◌, ◌-◌, ◌*◌, ◌/◌, ◌%◌, ◌<◌, ◌≡◌, refl, ap, ◌∙◌, Bool, true, false, ◌||◌, List,
  ◌∷◌, ◌++◌, arith, ◌==◌, ltb, Text, Bool-cases, inl, inr, ltb→lt, ◌≤◌,
}
use db_first_practice.Common.Int.{pos}
use db_first_practice.Json.Defs.{int}
use db_first_practice.Json.Print.{quote, print_digits}
use db_first_practice.Json.Parse.{
  Frame, value_due, in_number, done, step, run, Number, whole, open_value, number_value, extend,
  add_digit, is_digit, is_space, fresh, after_whole, signed,
}

-- the characters that may stand behind a value in a printed text
abbrev pub ends_value : ℕ → Bool
ends_value c = (c == b',' || c == b']') || c == b'}'

abbrev pub whole_number : ℕ → Number
whole_number n = record {
  negative = false;
  digits = n;
  places = 0;
  lowered = false;
  power = 0;
  phase = whole;
}

is_digit-digit : (n : ℕ) → n < 10 → is_digit (48 + n) ≡ true
unfolding is_digit
is_digit-digit n h = ground arith

-- a digit is no white space, and starts no other value
digit_tests :
    (n : ℕ)
    → n < 10
    → (is_space (48 + n) ≡ false)
      × ((48 + n == quote) ≡ false)
      × ((48 + n == b'{') ≡ false)
      × ((48 + n == b'[') ≡ false)
      × ((48 + n == b'n') ≡ false)
      × ((48 + n == b't') ≡ false)
      × ((48 + n == b'f') ≡ false)
      × ((48 + n == b'N') ≡ false)
      × ((48 + n == b'I') ≡ false)
      × ((48 + n == b'-') ≡ false)
unfolding is_space
digit_tests n h = (
  ground arith,
  ground arith,
  ground arith,
  ground arith,
  ground arith,
  ground arith,
  ground arith,
  ground arith,
  ground arith,
  ground arith,
)

first_digit :
    (n : ℕ) (out : Text) (frames : List Frame)
    → 0 < n
    → n < 10
    → run (value_due, frames) ((48 + n) ∷ out) ≡ run (in_number (whole_number n), frames) out
unfolding run step open_value extend add_digit fresh
first_digit n out frames l h =
    let (a, b, c, d, e, f, g, i, j, m) = digit_tests n h in
    let nonzero : (48 + n == 48) ≡ false = ground arith in
    let value : 0 * 10 + (48 + n - 48) ≡ n = omega arith in
    rw (run, step, open_value, extend, a, b, c, d, e, f, g, i, j, m, nonzero, is_digit-digit n h)
      (ap (λ k. run (in_number (whole_number k), frames) out) value)

next_digit :
    (m d : ℕ) (out : Text) (frames : List Frame)
    → d < 10
    → run (in_number (whole_number m), frames) ((48 + d) ∷ out)
      ≡ run (in_number (whole_number (m * 10 + d)), frames) out
unfolding run step extend add_digit
next_digit m d out frames h =
    let value : m * 10 + (48 + d - 48) ≡ m * 10 + d = omega arith in
    rw (run, step, extend, is_digit-digit d h)
      (ap (λ k. run (in_number (whole_number k), frames) out) value)

-- the digits of a number that is not 0, from its start
pub run-digits :
    (f n : ℕ) (out : Text) (frames : List Frame)
    → 0 < n
    → n < f
    → run (value_due, frames) (print_digits f n out) ≡ run (in_number (whole_number n), frames) out
unfolding print_digits
run-digits zero n out frames l h = ground arith
run-digits (suc f) n out frames l h = elim (Bool-cases (ltb n 10)) [
  | inl one ↦ rw one (first_digit n out frames l (ltb→lt _ _ one))
  | inr more ↦
      let back : n / 10 * 10 + n % 10 ≡ n = omega arith in
      let tens : 10 ≤ n = ground arith in
      rw more (
        run-digits f (n / 10) _ frames (omega arith) (omega arith)
        ∙ next_digit (n / 10) (n % 10) out frames (omega arith)
        ∙ ap (λ m. run (in_number (whole_number m), frames) out) back)
]

pub print_digits-append :
    (f n : ℕ) (out x : Text) → print_digits f n out ++ x ≡ print_digits f n (out ++ x)
unfolding print_digits
print_digits-append zero n out x = refl
print_digits-append (suc f) n out x =
    ground (arith, print_digits-append f (n / 10) ((48 + n % 10) ∷ out) x)

ends_value-tests :
    (c : ℕ)
    → ends_value c ≡ true
    → (is_digit c ≡ false) × ((c == b'.') ≡ false) × ((c == b'e') ≡ false) × ((c == b'E') ≡ false)
unfolding is_digit
ends_value-tests c h = (ground arith, ground arith, ground arith, ground arith)

-- a number ends where the value does
pub run-ends :
    (n c : ℕ) (x : Text) (frames : List Frame)
    → ends_value c ≡ true
    → run (in_number (whole_number n), frames) (c ∷ x) ≡ run (done (int (pos n)), frames) (c ∷ x)
unfolding run step extend after_whole number_value signed
run-ends n c x frames h =
    let (a, b, d, e) = ends_value-tests c h in rw (run, step, extend, after_whole, a, b, d, e) refl

pub zero_ends :
    (c : ℕ) (x : Text) (frames : List Frame)
    → ends_value c ≡ true
    → run (value_due, frames) (48 ∷ c ∷ x) ≡ run (done (int (pos 0)), frames) (c ∷ x)
unfolding run step extend after_whole number_value signed open_value is_space fresh add_digit
zero_ends c x frames h =
    let (a, b, d, e) = ends_value-tests c h in rw (run, step, extend, after_whole, b, d, e) refl
