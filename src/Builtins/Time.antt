-- ===== src/Builtins/Time.antt =====
-- `datetime.fromisoformat` on the extended format, and `>` on its results: a date, or a date, one
-- separator, a time with seconds, an optional fraction and an optional zone. A fraction is kept to
-- the microsecond. Python's other ISO 8601 spellings are not read here.
use db_first_practice.Common.{
  ℕ, zero, suc, ◌+◌, ◌-◌, ◌*◌, ◌/◌, ◌%◌, ◌^◌, ◌++◌, Bool, true, false, not, ◌&&◌, ◌||◌, Option,
  none, some, List, [], ◌∷◌, ◌==◌, ltb, leb, if◌then◌else◌, Text, txt,
}

abbrev pub is_digit : ℕ → Bool
is_digit c = leb 48 c && leb c 57

-- `d` in the template stands for a digit; the digits' values and the rest of the text
unfoldable pub match_template : Text → Text → Option (List ℕ × Text)
match_template [] s = some ([], s)
match_template (t ∷ ts) [] = none
match_template (t ∷ ts) (c ∷ s) = elim (match_template ts s) [
  | none ↦ none
  | some (ds, r) ↦
      if t == b'd'
      then (if is_digit c then some ((c - 48) ∷ ds, r) else none)
      else if c == t
      then some (ds, r)
      else none
]

unfoldable pub is_leap : ℕ → Bool
is_leap y = (y % 4 == 0) && (not (y % 100 == 0) || (y % 400 == 0))

unfoldable pub days_in_month : ℕ → ℕ → ℕ
unfolding is_leap
days_in_month y m =
    if m == 2
    then (if is_leap y then 29 else 28)
    else if (m == 4 || m == 6) || (m == 9 || m == 11)
    then 30
    else 31

abbrev pub is_date : ℕ → ℕ → ℕ → Bool
is_date y m d = (leb 1 y && (leb 1 m && leb m 12)) && (leb 1 d && leb d (days_in_month y m))

abbrev pub is_time_of_day : ℕ → ℕ → ℕ → Bool
is_time_of_day h m s = leb h 23 && (leb m 59 && leb s 59)

days_before_month : ℕ → ℕ → ℕ
days_before_month y zero = 0
days_before_month y (suc m) = days_before_month y m + (if m == 0 then 0 else days_in_month y m)

-- the number of days since the first of January of the year 1
ordinal : ℕ → ℕ → ℕ → ℕ
ordinal y m d =
    let p : ℕ = y - 1 in p * 365 + p / 4 - p / 100 + p / 400 + days_before_month y m + (d - 1)

-- microseconds, from a day before the calendar's first, so that a zone's offset can be taken off
pub record Moment : Type 0 where
  pub aware : Bool
  pub micros : ℕ

abbrev second : ℕ
second = 1_000_000

-- a fraction's first six digits as microseconds, and what follows all of its digits
fraction : ℕ → ℕ → Text → ℕ × Text
fraction left value [] = (value * 10 ^ left, [])
fraction left value (c ∷ s) = elim (is_digit c) [
  | true ↦ fraction (left - 1) (if left == 0 then value else value * 10 + (c - 48)) s
  | false ↦ (value * 10 ^ left, c ∷ s)
]

-- the zone's offset in seconds, east of UTC or west of it
abbrev Zone : Type 0
Zone = Option (Bool × ℕ)

offset : Bool → Option (List ℕ × Text) → Option Zone
offset east (some (h ∷ h' ∷ m ∷ m' ∷ [], [])) =
    if leb (h * 10 + h') 23 && leb (m * 10 + m') 59
    then some (some (east, (h * 10 + h') * 3600 + (m * 10 + m') * 60))
    else none
offset east _ = none

zone : Text → Option Zone
unfolding offset txt
zone [] = some none
zone (c ∷ s) =
    if c == b'+'
    then offset true (match_template (txt "dd:dd") s)
    else if c == b'-'
    then offset false (match_template (txt "dd:dd") s)
    else if c == b'Z'
    then (elim s [ [] ↦ some (some (true, 0)) | _ ∷ _ ↦ none ])
    else none

-- the moment of a day, a number of microseconds into it, and a zone
moment : ℕ → ℕ → Zone → Moment
moment days micros none = record { aware = false; micros = (days + 1) * 86400 * second + micros }
moment days micros (some (true, o)) = record {
  aware = true;
  micros = ((days + 1) * 86400 - o) * second + micros;
}
moment days micros (some (false, o)) = record {
  aware = true;
  micros = ((days + 1) * 86400 + o) * second + micros;
}

with_zone : ℕ → ℕ → Option Zone → Option Moment
unfolding moment
with_zone days micros none = none
with_zone days micros (some z) = some (moment days micros z)

-- what follows the seconds
after_seconds : ℕ → ℕ → Text → Option Moment
unfolding with_zone fraction zone
after_seconds days seconds [] = with_zone days (seconds * second) (zone [])
after_seconds days seconds (c ∷ s) =
    if c == b'.' || c == b','
    then (elim s [
      | [] ↦ none
      | d ∷ r ↦
          if is_digit d
          then (let (f, rest) = fraction 6 0 (d ∷ r) in
              with_zone days (seconds * second + f) (zone rest))
          else none
    ])
    else with_zone days (seconds * second) (zone (c ∷ s))

time_part : ℕ → Option (List ℕ × Text) → Option Moment
unfolding after_seconds
time_part days (some (h ∷ h' ∷ m ∷ m' ∷ s ∷ s' ∷ [], rest)) =
    if is_time_of_day (h * 10 + h') (m * 10 + m') (s * 10 + s')
    then after_seconds days ((h * 10 + h') * 3600 + (m * 10 + m') * 60 + (s * 10 + s')) rest
    else none
time_part days _ = none

date_part : Option (List ℕ × Text) → Option Moment
unfolding ordinal days_before_month time_part moment
date_part (some (a ∷ b ∷ c ∷ d ∷ m ∷ m' ∷ e ∷ e' ∷ [], rest)) =
    let y = a * 1000 + b * 100 + c * 10 + d in
    let month = m * 10 + m' in
    let day = e * 10 + e' in
    if is_date y month day
    then (elim rest [
      | [] ↦ some (moment (ordinal y month day) 0 none)
      | sep ∷ time ↦ time_part (ordinal y month day) (match_template (txt "dd:dd:dd") time)
    ])
    else none
date_part _ = none

-- `none` is ValueError
unfoldable pub fromisoformat : Text → Option Moment
unfolding date_part match_template days_in_month txt
fromisoformat s = date_part (match_template (txt "dddd-dd-dd") s)

-- `a > b`; `none` is the TypeError of comparing a moment that has a zone with one that has none
unfoldable pub is_after : Moment → Moment → Option Bool
is_after a b =
    if a.aware
    then (if b.aware then some (ltb b.micros a.micros) else none)
    else if b.aware
    then none
    else some (ltb b.micros a.micros)

-- `text.replace("Z", "+00:00")`
unfoldable pub replace_z : Text → Text
replace_z [] = []
replace_z (c ∷ s) = if c == b'Z' then txt "+00:00" ++ replace_z s else c ∷ replace_z s
