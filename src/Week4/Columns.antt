-- ===== src/Week4/Columns.antt =====
-- `_expected_column_type`: the type that each column of the `autocheck` views has in week 4.
pub mod Tables
pub mod Declared
use db_first_practice.Common.{Text, txt, mem_text, if◌then◌else◌}
use db_first_practice.Week4.Columns.Tables.{
  uuid_columns, timestamptz_columns, integer_columns, bigint_columns, boolean_columns,
  jsonb_columns, numeric_columns,
}

unfoldable pub expected_column_type : Text → Text
expected_column_type column =
    if mem_text column uuid_columns
    then txt "uuid"
    else if mem_text column timestamptz_columns
    then txt "timestamp with time zone"
    else if mem_text column integer_columns
    then txt "integer"
    else if mem_text column bigint_columns
    then txt "bigint"
    else if mem_text column boolean_columns
    then txt "boolean"
    else if mem_text column jsonb_columns
    then txt "jsonb"
    else if mem_text column numeric_columns
    then txt "numeric"
    else txt "text"
