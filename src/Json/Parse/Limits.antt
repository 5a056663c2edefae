-- ===== src/Json/Parse/Limits.antt =====
-- What `json.loads` does with a text: it gives a value, raises JSONDecodeError, or raises another error
-- where a limit of the interpreter is passed.
use db_first_practice.Common.{
  ℕ, ◌^◌, ◌==◌, Bool, true, false, not, ◌&&◌, ◌||◌, none, some, [], ◌∷◌, leb, ltb, length, is_some,
  Text, if◌then◌else◌,
}
use db_first_practice.Json.Defs.{Value}
use db_first_practice.Json.Parse.{
  zero_digit, whole, point, exponent, exponent_sign, Number, Control, in_number, value_due, State,
  extend, step, loads,
}

-- how many digits an integer may have (`sys.get_int_max_str_digits()`, 4300 by default), and how deep
-- arrays and objects may be nested before RecursionError
pub record Limits : Type 0 where
  pub digits : ℕ
  pub depth : ℕ

-- the integer that has been read at a place where its number ends, if it is one
unfoldable pub is_integer : Number → Bool
is_integer n = elim (n.phase) [
  | zero_digit ↦ true
  | whole ↦ true
  | point ↦ true
  | exponent ↦ n.places == 0
  | exponent_sign ↦ n.places == 0
  | _ ↦ false
]

-- `int(text)` raises ValueError
unfoldable pub is_too_long : Limits → Number → Bool
is_too_long limits n = is_integer n && leb (10 ^ limits.digits) n.digits

-- whether a number that is being read is too long, and the next character does not belong to it
unfoldable pub breaks_at : Limits → Control → ℕ → Bool
unfolding extend
breaks_at limits (in_number n) c = not (is_some (extend n.phase n c)) && is_too_long limits n
breaks_at limits control c = false

unfoldable pub breaks_at_end : Limits → Control → Bool
breaks_at_end limits (in_number n) = is_too_long limits n
breaks_at_end limits control = false

-- whether a limit is passed before the text is found to be malformed, or is read to its end
unfoldable pub overruns : Limits → State → Text → Bool
unfolding step
overruns limits (control, frames) [] = breaks_at_end limits control
overruns limits (control, frames) (c ∷ s) =
    breaks_at limits control c || elim (step control frames c) [
      | none ↦ false
      | some t ↦ ltb limits.depth (length t.1) || overruns limits t s
    ]

-- ValueError or RecursionError
unfoldable pub interrupts : Limits → Text → Bool
interrupts limits s = overruns limits (value_due, []) s

pub data Loaded : Type 0 where
  value : Value → Loaded
  malformed interrupted : Loaded

unfoldable pub load : Limits → Text → Loaded
load limits s =
    if interrupts limits s
    then interrupted
    else elim (loads s) [ none ↦ malformed | some v ↦ value v ]
