-- ===== src/Week2/Attempts/Verdicts.antt =====
-- What the two verdicts on attempts promise.
use db_first_practice.Common.{
  ℕ, zero, suc, ◌+◌, ◌≡◌, ◌≢◌, refl, sym, ap, ◌∙◌, Bool, true, false, Option-cases, ◌&&◌, ◌⊎◌, inl,
  inr, Option, none, some, List, [], ◌∷◌, map, arith, ◌==◌, all, length, last?, All, Text, txt,
  Bool-cases, String, get_elem?, length-map,
}
use db_first_practice.Common.Assoc.{and-left, and-right}
use db_first_practice.Common.Int.{ℤ, pos, negsuc}
use db_first_practice.Builtins.Time.{Moment, is_after}
use db_first_practice.Json.{
  Value, null, bool, int, float, special, str, arr, obj, Fields, value_eq, str_is, is_str,
}
use db_first_practice.Json.Dict.{str_is_sound}
use db_first_practice.Week2.Attempts.{
  column, plain_ints, numbers_and_leases, leases_rise, count_distinct, distinct_then, same_job,
  times_in_order, time_of, ordered, attempt_ok, count_successes, last_succeeded, attempts_ok,
  attempts_of_count, job_attempts_consistent, failed_row, terminal_rows, terminal_job,
  terminal_failure_consistent,
}
use db_first_practice.Week2.Attempts.Sound.{
  HasStatus, IsHistory, HasLeases, Distinct, history, leases_of_rise, Distinct-of_count, numbered,
  is_null_sound, plain_int_sound,
}

abbrev pub HasState : String → Fields → Type 0
HasState state row = column "state" row ≡ str (txt state)

-- An attempt whose two times are read, comparable, and in order.
pub record IsTimed (row : Fields) : Type 0 where
  pub started : Moment
  pub finished : Moment
  pub started_at : time_of (column "started_at" row) ≡ some started
  pub finished_at : time_of (column "finished_at" row) ≡ some finished
  pub in_order : is_after started finished ≡ some false

ordered_sound :
    (o p : Option Moment)
    → ordered o p ≡ true
    → (a : Moment) × (b : Moment) × (o ≡ some a) × (p ≡ some b) × (is_after a b ≡ some false)
ordered_sound (some a) (some b) h = elim (Option-cases (is_after a b)) [
  | inl e ↦ let bad = rw (ordered, e) at h in cc
  | inr (true, e) ↦ let bad = rw (ordered, e) at h in cc
  | inr (false, e) ↦ (a, b, refl, refl, e)
]
ordered_sound (some a) none h = cc
ordered_sound none p h = cc

times_in_order-IsTimed : (row : Fields) → times_in_order row ≡ true → IsTimed row
unfolding times_in_order
times_in_order-IsTimed row h =
    let (a, b, read, read', order) = ordered_sound _ _ h in
    record { started = a; finished = b; started_at = read; finished_at = read'; in_order = order }

all-IsTimed : (e : Text) (rows : List Fields) → all (attempt_ok e) rows ≡ true → All IsTimed rows
unfolding attempt_ok
all-IsTimed e [] h = tt
all-IsTimed e (row ∷ rows) h = (
  times_in_order-IsTimed row (and-left (times_in_order row) _ (and-left (attempt_ok e row) _ h)),
  all-IsTimed e rows (and-right (attempt_ok e row) _ h),
)

-- A job's history as the views should show it: its attempts are counted and numbered from 1, under
-- strictly rising leases of which the last is the job's, with distinct identifiers; all failed but the
-- last, which has the expected outcome; and the job has succeeded.
pub record IsConsistent (job : Fields) (attempts : List Fields) (expected_outcome : Text)
    : Type 0 where
  pub count : column "attempt_count" job ≡ int (pos (length attempts))
  pub numbers :
      (i : ℕ) {v : Value}
      → get_elem? (map (column "attempt_number") attempts) i ≡ some v
      → value_eq v (int (pos (1 + i))) ≡ true
  pub leases : HasLeases job attempts
  pub identifiers : Distinct (map (column "attempt_id") attempts)
  pub owner : all (same_job job) attempts ≡ true
  pub times : All IsTimed attempts
  pub state : HasState "SUCCEEDED" job
  pub history : IsHistory expected_outcome attempts

count_of :
    (o : Option ℤ) (job : Fields) (attempts : List Fields) (e : Text)
    → attempts_of_count o job attempts e ≡ some true
    → (n : ℕ) × (o ≡ some (pos n))
      × (length attempts ≡ n)
      × (numbers_and_leases job attempts ≡ true)
      × (distinct_then (map (column "attempt_id") attempts) n (attempts_ok job attempts e)
          ≡ some true)
unfolding attempts_of_count
count_of none job attempts e h = cc
count_of (some (pos zero)) job attempts e h = cc
count_of (some (negsuc k)) job attempts e h = cc
count_of (some (pos (suc k))) job attempts e h =
    elim (Bool-cases (length attempts == suc k && numbers_and_leases job attempts)) [
      | inl good ↦ (suc k, refl, ground arith, ground arith, rw good at h)
      | inr bad ↦ cc (rw bad at h)
    ]

distinct_then_sound :
    (ids : List Value) (n : ℕ) (rest : Bool)
    → distinct_then ids n rest ≡ some true
    → (count_distinct ids ≡ n) × (rest ≡ true)
unfolding distinct_then
distinct_then_sound ids n rest h = (ground arith, ground arith)

job_attempts_parts :
    (job : Fields) (attempts : List Fields) (e : Text)
    → attempts_ok job attempts e ≡ true
    → (all (same_job job) attempts ≡ true)
      × (str_is (txt "SUCCEEDED") (column "state" job) ≡ true)
      × (all (attempt_ok e) attempts ≡ true)
      × (count_successes attempts ≡ 1)
      × (last_succeeded e (last? attempts) ≡ true)
unfolding attempts_ok
job_attempts_parts job attempts e h =
    (ground arith, ground arith, ground arith, ground arith, ground arith)

-- A history that `job_attempts_consistent` accepts has as many attempts as the job counts, numbered from 1, with
-- rising leases that end in the job's, and distinct ids; each attempt is the job's and did not finish before it
-- started, by times that can be read and compared; the job has succeeded, every
-- attempt but the last failed, and the last succeeded with the expected outcome and no error.
pub job_attempts_consistent_sound :
    (job : Fields) (attempts : List Fields) (expected_outcome : Text)
    → job_attempts_consistent job attempts expected_outcome ≡ some true
    → IsConsistent job attempts expected_outcome
unfolding job_attempts_consistent
job_attempts_consistent_sound job attempts e h =
    let (n, counted, long, columns, rest) = count_of _ job attempts e h in
    let (ids, good) = distinct_then_sound _ _ _ rest in
    let (owner, state, each, one, last) = job_attempts_parts job attempts e good in
    record {
      count = plain_int_sound _ counted ∙ ap (λ k. int (pos k)) (sym long);
      numbers = λ i e'. numbered _ 1 i (ground arith) e';
      leases = leases_of_rise job attempts (ground arith);
      identifiers =
          Distinct-of_count _ (ids ∙ sym long ∙ sym (length-map (column "attempt_id") attempts));
      owner = owner;
      times = all-IsTimed e attempts each;
      state = str_is_sound _ _ state;
      history = history e attempts each one last;
    }

-- Attempts that all failed, each with an error code.
pub record IsFailure (job : Fields) (expected_error : Option Text) (row : Fields) : Type 0 where
  pub status : HasStatus "FAILED" row
  pub no_outcome : column "outcome" row ≡ null
  pub error : Text
  pub error_code : column "error_code" row ≡ str error
  pub expected : (expected_error ≡ none) ⊎ (expected_error ≡ some error)
  pub job_id : value_eq (column "job_id" row) (column "job_id" job) ≡ true
  pub execution : value_eq (column "execution_id" row) (column "execution_id" job) ≡ true

-- A process that failed for good: one dead job, all of whose attempts failed, with no effect left.
pub record IsTerminal (process : Fields) (jobs attempts effects : List Fields)
    (expected_attempts : ℕ) (expected_error : Option Text) : Type 0 where
  pub state : HasState "FAILED" process
  pub job : Fields
  pub only_job : jobs ≡ job ∷ []
  pub dead : HasState "DEAD" job
  pub count : length attempts ≡ expected_attempts
  pub no_effects : effects ≡ []
  pub leases : HasLeases job attempts
  pub identifiers : Distinct (map (column "attempt_id") attempts)
  pub failures : All (IsFailure job expected_error) attempts

str_of : (v : Value) → is_str v ≡ true → (s : Text) × (v ≡ str s)
str_of (str s) h = (s, refl)
str_of null h = cc
str_of (bool b) h = cc
str_of (int n) h = cc
str_of (float m k) h = cc
str_of (special x) h = cc
str_of (arr vs) h = cc
str_of (obj d) h = cc

failed_row_sound :
    (job : Fields) (expected : Option Text) (row : Fields)
    → failed_row job expected row ≡ true
    → IsFailure job expected row
unfolding failed_row
failed_row_sound job expected row h =
    let (s, e) = str_of (column "error_code" row) (ground arith) in
    record {
      status = str_is_sound _ _ (ground arith);
      no_outcome = is_null_sound _ (ground arith);
      error = s;
      error_code = e;
      expected = expects expected (ground arith) s e;
      job_id = ground arith;
      execution = ground arith;
    }
  where
    expects :
        (o : Option Text)
        → (elim o [ none ↦ true | some y ↦ str_is y (column "error_code" row) ]) ≡ true
        → (s : Text) → column "error_code" row ≡ str s
        → (o ≡ none) ⊎ (o ≡ some s)
    expects none t s e = inl refl
    expects (some y) t s e =
        let same : column "error_code" row ≡ str y = str_is_sound y _ t in inr (ground arith)

all_sound :
    (job : Fields) (expected : Option Text) (rows : List Fields)
    → all (failed_row job expected) rows ≡ true
    → All (IsFailure job expected) rows
all_sound job expected [] h = tt
all_sound job expected (row ∷ rows) h =
    (failed_row_sound job expected row (ground arith), all_sound job expected rows (ground arith))

terminal_job-parts :
    (job : Fields) (attempts effects : List Fields) (n : ℕ) (expected : Option Text)
    → terminal_job job attempts effects n expected ≡ some true
    → (str_is (txt "DEAD") (column "state" job) ≡ true)
      × (length attempts ≡ n)
      × (effects ≡ [])
      × (terminal_rows job attempts n expected ≡ some true)
unfolding terminal_job
terminal_job-parts job attempts [] n expected h = (ground arith, ground arith, refl, ground arith)
terminal_job-parts job attempts (x ∷ effects) n expected h = absurd (ground arith)

terminal_rows-parts :
    (job : Fields) (attempts : List Fields) (n : ℕ) (expected : Option Text)
    → terminal_rows job attempts n expected ≡ some true
    → (leases_rise (plain_ints (map (column "lease_version") attempts)) (column "lease_version" job)
        ≡ true)
      × (distinct_then
            (map (column "attempt_id") attempts)
            n
            (all (failed_row job expected) attempts)
          ≡ some true)
unfolding terminal_rows
terminal_rows-parts job [] n expected h = cc
terminal_rows-parts job (row ∷ rows) n expected h = (ground arith, ground arith)

-- A failure that `terminal_failure_consistent` accepts is that of a failed process with one job, which is dead, and
-- without effects: the attempts are as many as expected, with rising leases that end in the job's and distinct ids,
-- and each is the job's, and failed without an outcome and with an error, which is the expected one, if one is expected.
pub terminal_failure_consistent_sound :
    (process : Fields) (jobs attempts effects : List Fields) (n : ℕ) (expected : Option Text)
    → terminal_failure_consistent process jobs attempts effects n expected ≡ some true
    → IsTerminal process jobs attempts effects n expected
unfolding terminal_failure_consistent
terminal_failure_consistent_sound process [] attempts effects n expected h = cc
terminal_failure_consistent_sound process (job ∷ other ∷ jobs) attempts effects n expected h = cc
terminal_failure_consistent_sound process (job ∷ []) attempts effects n expected h =
    let inner : terminal_job job attempts effects n expected ≡ some true = ground arith in
    let (dead, long, nothing, rows) = terminal_job-parts job attempts effects n expected inner in
    let (rise, ids) = terminal_rows-parts job attempts n expected rows in
    let (distinct, each) = distinct_then_sound _ _ _ ids in
    record {
      state = str_is_sound _ _ (ground arith);
      job = job;
      only_job = refl;
      dead = str_is_sound _ _ dead;
      count = long;
      no_effects = nothing;
      leases = leases_of_rise job attempts rise;
      identifiers =
          Distinct-of_count _
            (distinct ∙ sym long ∙ sym (length-map (column "attempt_id") attempts));
      failures = all_sound job expected attempts each;
    }

str_injective : {s t : Text} → str s ≡ str t → s ≡ t
str_injective h = cc

states_differ : txt "SUCCEEDED" ≢ txt "DEAD"
unfolding txt
states_differ h = ground arith

-- A job whose history `job_attempts_consistent` accepts is not the only job of a terminal failure that
-- `terminal_failure_consistent` accepts.
pub job_attempts_consistent-ne-terminal :
    (process job : Fields) (attempts failures effects : List Fields) (outcome : Text) (n : ℕ)
    (expected : Option Text)
    → job_attempts_consistent job attempts outcome ≡ some true
    → terminal_failure_consistent process (job ∷ []) failures effects n expected ≢ some true
job_attempts_consistent-ne-terminal process job attempts failures effects outcome n expected h k =
    let c = job_attempts_consistent_sound job attempts outcome h in
    let t = terminal_failure_consistent_sound process (job ∷ []) failures effects n expected k in
    let same : t.job ≡ job = ground (arith, t.only_job) in
    states_differ (str_injective (sym c.state ∙ ap (column "state") (sym same) ∙ t.dead))
