-- ===== src/Week2/Tests.antt =====
-- The verdicts on the attempts of a job that succeeds at its second attempt, and of one that fails for good.
use db_first_practice.Common.{
  ℕ, ◌≡◌, ◌≢◌, refl, true, none, some, List, [], ◌∷◌, Text, txt, text_eq,
}
use db_first_practice.Common.Int.{pos}
use db_first_practice.Builtins.Time.{fromisoformat, is_after, replace_z}
use db_first_practice.Json.{Value, null, int, str, Fields, end, field, get, value_eq, truthy}
use db_first_practice.Common.{map, ◌++◌}
use db_first_practice.Common.Assoc.{lookup, insert}
use db_first_practice.Week2.Views.{stable_view_schemas_match, read_schemas, add_column, read_column}
use db_first_practice.Week2.Views.Tables.{autocheck_view_schemas}
use db_first_practice.Week2.Views.Stable.{IsShown, stable_view_schemas_match-IsShown}
use db_first_practice.Week2.Attempts.{
  plain_ints, insert_int, sorted_set, ints_eq, counts_from, leases_rise, count_distinct, shown,
  times_in_order, same_job, attempt_ok, is_success, count_successes, last_succeeded, attempts_ok,
  distinct_then, attempts_of_count, job_attempts_consistent, failed_row, terminal_rows,
  terminal_job, terminal_failure_consistent,
}
use db_first_practice.Week2.Attempts.Verdicts.{
  IsConsistent, IsTerminal, job_attempts_consistent_sound, terminal_failure_consistent_sound,
  job_attempts_consistent-ne-terminal,
}

abbrev job_row : Text → ℕ → ℕ → Fields
job_row state lease count = field (txt "job_id") (str (txt "j-1")) (
    field (txt "execution_id") (str (txt "e-1")) (
      field (txt "state") (str state) (
        field (txt "lease_version") (int (pos lease))
          (field (txt "attempt_count") (int (pos count)) end))))

abbrev attempt_row : Text → ℕ → ℕ → Text → Value → Value → Fields
attempt_row id number lease status outcome error = field (txt "attempt_id") (str id) (
    field (txt "job_id") (str (txt "j-1")) (
      field (txt "execution_id") (str (txt "e-1")) (
        field (txt "lease_version") (int (pos lease)) (
          field (txt "attempt_number") (int (pos number)) (
            field (txt "status") (str status) (
              field (txt "outcome") outcome (
                field (txt "error_code") error (
                  field (txt "started_at") (str (txt "2026-01-31T10:20:30Z"))
                    (field (txt "finished_at") (str (txt "2026-01-31T10:20:31+00:00")) end)))))))))

abbrev first_failed : Fields
first_failed = attempt_row (txt "a-1") 1 4 (txt "FAILED") null (str (txt "action.timeout"))

abbrev then_succeeded : Fields
then_succeeded = attempt_row (txt "a-2") 2 6 (txt "SUCCEEDED") (str (txt "completed")) null

abbrev done : Fields
done = job_row (txt "SUCCEEDED") 6 2

abbrev history : List Fields
history = first_failed ∷ then_succeeded ∷ []

history_accepted : job_attempts_consistent done history (txt "completed") ≡ some true
unfolding job_attempts_consistent txt get text_eq value_eq truthy plain_ints insert_int sorted_set
    ints_eq counts_from leases_rise count_distinct shown times_in_order same_job attempt_ok
    is_success count_successes last_succeeded attempts_ok distinct_then attempts_of_count
    fromisoformat is_after replace_z
history_accepted = refl

job_attempts_consistent_sound_example : IsConsistent done history (txt "completed")
job_attempts_consistent_sound_example =
    job_attempts_consistent_sound done history (txt "completed") history_accepted

abbrev dead : Fields
dead = job_row (txt "DEAD") 4 1

abbrev process : Fields
process = field (txt "state") (str (txt "FAILED")) end

failure_accepted :
    terminal_failure_consistent process
      (dead ∷ [])
      (first_failed ∷ [])
      []
      1
      (some (txt "action.timeout"))
    ≡ some true
unfolding terminal_failure_consistent terminal_job terminal_rows failed_row txt get text_eq value_eq
    truthy plain_ints insert_int sorted_set ints_eq counts_from leases_rise count_distinct shown
    times_in_order distinct_then fromisoformat is_after replace_z
failure_accepted = refl

terminal_failure_consistent_sound_example :
    IsTerminal process (dead ∷ []) (first_failed ∷ []) [] 1 (some (txt "action.timeout"))
terminal_failure_consistent_sound_example =
    terminal_failure_consistent_sound process (dead ∷ []) (first_failed ∷ []) [] 1
      (some (txt "action.timeout")) failure_accepted

job_attempts_consistent-ne-terminal_example :
    terminal_failure_consistent process (done ∷ []) (first_failed ∷ []) [] 1 none ≢ some true
job_attempts_consistent-ne-terminal_example =
    job_attempts_consistent-ne-terminal process done history (first_failed ∷ []) []
      (txt "completed") 1 none history_accepted

abbrev column_row : Text → Text × Text → Fields
column_row view (name, type) = field (txt "view_name") (str view) (
    field (txt "relation_kind") (str (txt "v"))
      (field (txt "column_name") (str name) (field (txt "data_type") (str type) end)))

-- the rows of a database with exactly the contract's views
abbrev contract_rows : List (Text × List (Text × Text)) → List Fields
contract_rows [] = []
contract_rows ((view, columns) ∷ views) = map (column_row view) columns ++ contract_rows views

contract_accepted : stable_view_schemas_match (contract_rows autocheck_view_schemas) ≡ some true
unfolding stable_view_schemas_match txt get text_eq read_schemas add_column read_column lookup
    insert
contract_accepted = refl

abbrev signals : List (Text × Text)
signals =
    (txt "message_id", txt "text")
    ∷ (txt "process_id", txt "uuid")
    ∷ (txt "signal_type", txt "text")
    ∷ (txt "body_hash", txt "text")
    ∷ (txt "status", txt "text")
    ∷ (txt "received_at", txt "timestamp with time zone")
    ∷ []

signals_found : lookup (txt "signals") autocheck_view_schemas ≡ some signals
unfolding lookup txt text_eq
signals_found = refl

hash_found : lookup (txt "body_hash") signals ≡ some (txt "text")
unfolding lookup txt text_eq
hash_found = refl

stable_view_schemas_match-IsShown_example :
    IsShown (txt "signals") (txt "body_hash") (txt "text") (contract_rows autocheck_view_schemas)
stable_view_schemas_match-IsShown_example =
    stable_view_schemas_match-IsShown (contract_rows autocheck_view_schemas) (txt "signals")
      (txt "body_hash") contract_accepted signals_found hash_found
