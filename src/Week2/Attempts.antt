-- ===== src/Week2/Attempts.antt =====
-- `job_attempts_consistent` and `terminal_failure_consistent` of task/week2/autocheck/public_check.py.
-- A row is a dictionary; `none` is a TypeError, or the
-- IndexError of `leases[-1]` on an empty list.
pub mod Order
pub mod Sound
pub mod Verdicts
use db_first_practice.Common.{
  ℕ, zero, suc, ◌+◌, Bool, true, false, not, ◌&&◌, ◌||◌, Option, none, some, List, [], ◌∷◌, ◌++◌,
  map, ◌==◌, ltb, leb, length, all, any, last?, if◌then◌else◌, Text, txt, is_empty, String,
}
use db_first_practice.Common.Int.{ℤ, pos, negsuc, int_eq, int_lt}
use db_first_practice.Builtins.Time.{Moment, fromisoformat, is_after, replace_z}
use db_first_practice.Json.{
  Value, null, bool, int, float, str, arr, obj, Fields, get, get_or_null, value_eq, truthy, is_str,
  str_is,
}
use db_first_practice.Json.Print.{dumps}

abbrev pub column : String → Fields → Value
column name row = get_or_null (txt name) row

-- `x is None`
abbrev pub is_null : Value → Bool
is_null null = true
is_null v = false

-- an integer that is no boolean
abbrev pub plain_int : Value → Option ℤ
plain_int (int n) = some n
plain_int v = none

abbrev cons_int : Option ℤ → Option (List ℤ) → Option (List ℤ)
cons_int (some n) (some ns) = some (n ∷ ns)
cons_int _ _ = none

-- the values, if every one is an integer that is no boolean
unfoldable pub plain_ints : List Value → Option (List ℤ)
plain_ints [] = some []
plain_ints (v ∷ vs) = cons_int (plain_int v) (plain_ints vs)

-- `sorted(set(values))`
unfoldable pub insert_int : ℤ → List ℤ → List ℤ
insert_int n [] = n ∷ []
insert_int n (m ∷ ms) =
    if int_lt n m then n ∷ m ∷ ms else if int_eq n m then m ∷ ms else m ∷ insert_int n ms

unfoldable pub sorted_set : List ℤ → List ℤ
sorted_set [] = []
sorted_set (n ∷ ns) = insert_int n (sorted_set ns)

unfoldable pub ints_eq : List ℤ → List ℤ → Bool
ints_eq [] [] = true
ints_eq (m ∷ ms) (n ∷ ns) = int_eq m n && ints_eq ms ns
ints_eq _ _ = false

-- `values == list(range(first, first + len(values)))`
unfoldable pub counts_from : ℕ → List Value → Bool
counts_from first [] = true
counts_from first (v ∷ vs) = value_eq v (int (pos first)) && counts_from (suc first) vs

abbrev pub last_is : List ℤ → Value → Bool
last_is ns v = elim (last? ns) [ none ↦ false | some n ↦ value_eq (int n) v ]

-- `leases == sorted(set(leases)) and leases[-1] == job.get("lease_version")`, over integers
unfoldable pub leases_rise : Option (List ℤ) → Value → Bool
leases_rise none job_lease = false
leases_rise (some leases) job_lease = ints_eq leases (sorted_set leases) && last_is leases job_lease

-- a value that a set cannot hold
abbrev pub is_hashable : Value → Bool
is_hashable (arr vs) = false
is_hashable (obj d) = false
is_hashable v = true

abbrev pub member_of : Value → List Value → Bool
member_of v ws = any (value_eq v) ws

unfoldable pub count_distinct : List Value → ℕ
count_distinct [] = 0
count_distinct (v ∷ vs) = if member_of v vs then count_distinct vs else suc (count_distinct vs)

-- `str(value)`: text as it is, and other values as Python prints them, which is never a time
unfoldable pub shown : Value → Text
shown (str s) = s
shown v = dumps v

-- `datetime.fromisoformat(str(row[key]).replace("Z", "+00:00"))`
abbrev pub time_of : Value → Option Moment
time_of v = fromisoformat (replace_z (shown v))

-- both times are there, comparable, and in order
abbrev ordered : Option Moment → Option Moment → Bool
ordered (some a) (some b) = elim (is_after a b) [ none ↦ false | some late ↦ not late ]
ordered _ _ = false

unfoldable pub times_in_order : Fields → Bool
times_in_order row =
    ordered (time_of (column "started_at" row)) (time_of (column "finished_at" row))

unfoldable pub same_job : Fields → Fields → Bool
same_job job row =
    (value_eq (column "job_id" row) (column "job_id" job)
      && value_eq (column "execution_id" row) (column "execution_id" job))
    && (truthy (column "started_at" row) && truthy (column "finished_at" row))

-- the tests of the loop's body
unfoldable pub attempt_ok : Text → Fields → Bool
attempt_ok expected_outcome row =
    times_in_order row
    && (if str_is (txt "FAILED") (column "status" row)
        then is_null (column "outcome" row) && is_str (column "error_code" row)
        else if str_is (txt "SUCCEEDED") (column "status" row)
        then str_is expected_outcome (column "outcome" row) && is_null (column "error_code" row)
        else false)

unfoldable pub is_success : Fields → Bool
is_success row = str_is (txt "SUCCEEDED") (column "status" row)

unfoldable pub count_successes : List Fields → ℕ
count_successes [] = 0
count_successes (row ∷ rows) =
    if is_success row then suc (count_successes rows) else count_successes rows

unfoldable pub last_succeeded : Text → Option Fields → Bool
last_succeeded expected_outcome none = false
last_succeeded expected_outcome (some row) =
    is_success row
    && (str_is expected_outcome (column "outcome" row) && is_null (column "error_code" row))

-- the tests behind the set of attempt ids
unfoldable pub attempts_ok : Fields → List Fields → Text → Bool
attempts_ok job attempts expected_outcome =
    all (same_job job) attempts
    && (all (attempt_ok expected_outcome) attempts
        && (str_is (txt "SUCCEEDED") (column "state" job)
            && (count_successes attempts == 1 && last_succeeded expected_outcome (last? attempts))))

-- `len({ids}) == count`, which hashes every id
unfoldable pub distinct_then : List Value → ℕ → Bool → Option Bool
distinct_then ids count rest =
    if all is_hashable ids then some (count_distinct ids == count && rest) else none

abbrev pub numbers_and_leases : Fields → List Fields → Bool
numbers_and_leases job attempts =
    counts_from 1 (map (column "attempt_number") attempts)
    && leases_rise (plain_ints (map (column "lease_version") attempts)) (column "lease_version" job)

unfoldable pub attempts_of_count : Option ℤ → Fields → List Fields → Text → Option Bool
attempts_of_count (some (pos (suc n))) job attempts expected_outcome =
    if length attempts == suc n && numbers_and_leases job attempts
    then distinct_then (map (column "attempt_id") attempts) (suc n)
        (attempts_ok job attempts expected_outcome)
    else some false
attempts_of_count _ job attempts expected_outcome = some false

unfoldable pub job_attempts_consistent : Fields → List Fields → Text → Option Bool
job_attempts_consistent job attempts expected_outcome =
    attempts_of_count (plain_int (column "attempt_count" job)) job attempts expected_outcome

-- `terminal_failure_consistent`

unfoldable pub failed_row : Fields → Option Text → Fields → Bool
failed_row job expected_error row =
    (str_is (txt "FAILED") (column "status" row)
      && (value_eq (column "job_id" row) (column "job_id" job)
          && value_eq (column "execution_id" row) (column "execution_id" job)))
    && ((is_null (column "outcome" row) && is_str (column "error_code" row))
        && (truthy (column "error_code" row)
            && (elim expected_error [ none ↦ true | some e ↦ str_is e (column "error_code" row) ])))

unfoldable pub terminal_rows : Fields → List Fields → ℕ → Option Text → Option Bool
terminal_rows job [] expected_attempts expected_error = none
terminal_rows job attempts expected_attempts expected_error =
    if leases_rise (plain_ints (map (column "lease_version") attempts)) (column "lease_version" job)
      && (all times_in_order attempts && counts_from 1 (map (column "attempt_number") attempts))
    then distinct_then (map (column "attempt_id") attempts) expected_attempts
        (all (failed_row job expected_error) attempts)
    else some false

unfoldable pub terminal_job : Fields → List Fields → List Fields → ℕ → Option Text → Option Bool
terminal_job job attempts effects expected_attempts expected_error =
    if (str_is (txt "DEAD") (column "state" job)
        && value_eq (column "attempt_count" job) (int (pos expected_attempts)))
      && (length attempts == expected_attempts && length effects == 0)
    then terminal_rows job attempts expected_attempts expected_error
    else some false

unfoldable pub terminal_failure_consistent :
    Fields → List Fields → List Fields → List Fields → ℕ → Option Text → Option Bool
terminal_failure_consistent process (job ∷ []) attempts effects expected_attempts expected_error =
    if str_is (txt "FAILED") (column "state" process)
    then terminal_job job attempts effects expected_attempts expected_error
    else some false
terminal_failure_consistent process _ attempts effects expected_attempts expected_error = some false
