-- ===== src/App/Receipt/Time.antt =====
-- `_validate_occurred_at` of Python/app/receipt.py: the regular expression, then the calendar check
-- of `datetime.fromisoformat`, which takes any number of fraction digits.
use db_first_practice.Common.{
  ℕ, ◌+◌, ◌*◌, Bool, true, false, ◌&&◌, ◌||◌, none, some, List, [], ◌∷◌, ◌==◌, Text, txt, is_empty,
}
use db_first_practice.Builtins.Time.{
  is_digit, match_template, days_in_month, is_date, is_time_of_day,
}

-- `(\.\d+)?Z` at the end
is_zulu_tail : Bool → Text → Bool
is_zulu_tail some_digit [] = false
is_zulu_tail some_digit (c ∷ s) = elim (is_digit c) [
  | true ↦ is_zulu_tail true s
  | false ↦ some_digit && (c == b'Z' && is_empty s)
]

fraction_and_zone : Text → Bool
unfolding is_zulu_tail
fraction_and_zone [] = false
fraction_and_zone (c ∷ s) = (c == b'Z' && is_empty s) || (c == b'.' && is_zulu_tail false s)

-- the ranges of a date and a time of day
in_calendar : List ℕ → Bool
in_calendar (a ∷ b ∷ c ∷ d ∷ m ∷ m' ∷ e ∷ e' ∷ h ∷ h' ∷ n ∷ n' ∷ s ∷ s' ∷ []) =
    let year = a * 1000 + b * 100 + c * 10 + d in
    let month = m * 10 + m' in
    let day = e * 10 + e' in
    is_date year month day && is_time_of_day (h * 10 + h') (n * 10 + n') (s * 10 + s')
in_calendar _ = false

unfoldable pub is_utc_time : Text → Bool
unfolding match_template days_in_month fraction_and_zone in_calendar txt
is_utc_time s = elim (match_template (txt "dddd-dd-ddTdd:dd:dd") s) [
  | none ↦ false
  | some (ds, tail) ↦ fraction_and_zone tail && in_calendar ds
]
