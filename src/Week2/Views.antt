-- ===== src/Week2/Views.antt =====
-- The checks of rows that the `autocheck` views return (task/week2/autocheck/public_check.py):
-- versions, states, the stable schemas, and a dispatch. `none` is a TypeError: a list or a dictionary has no hash.
pub mod Tables
pub mod Stable
use db_first_practice.Common.{
  ℕ, Bool, true, false, not, ◌&&◌, ◌||◌, Option, none, some, List, [], ◌∷◌, Text, txt, text_eq,
  ◌==◌, length, all, any, is_some, if◌then◌else◌,
}
use db_first_practice.Common.Int.{ℤ, pos, int_eq, int_lt}
use db_first_practice.Common.Assoc.{lookup, insert}
use db_first_practice.Json.{
  Value, null, bool, int, float, str, arr, obj, Fields, get_or_null, value_eq, str_is,
}
use db_first_practice.Week2.Attempts.{column}
use db_first_practice.Week2.Views.Tables.{autocheck_view_schemas}

abbrev pub hashable : Value → Bool
hashable (arr vs) = false
hashable (obj d) = false
hashable v = true

abbrev pub is_true : Value → Bool
is_true (bool b) = b
is_true v = false

abbrev pub Versions : Type 0
Versions = List (Value × Fields)

-- `versions[key] = row`
unfoldable pub set_version : Value → Fields → Versions → Versions
set_version key row [] = (key, row) ∷ []
set_version key row ((k, r) ∷ versions) =
    let later = set_version key row versions in
    if value_eq k key then (k, row) ∷ versions else (k, r) ∷ later

-- `{row.get("flow_version"): row for row in rows}`
unfoldable pub versions_of : List Fields → Versions → Versions
unfolding set_version
versions_of [] versions = versions
versions_of (row ∷ rows) versions =
    versions_of rows (set_version (column "flow_version" row) row versions)

unfoldable pub version_row : Value → Versions → Option Fields
version_row key [] = none
version_row key ((k, r) ∷ versions) =
    let later = version_row key versions in if value_eq k key then some r else later

unfoldable pub active_rows : List Fields → List Fields
active_rows [] = []
active_rows (row ∷ rows) =
    let rest = active_rows rows in if is_true (column "is_active" row) then row ∷ rest else rest

abbrev published : Option Fields → Bool
published none = false
published (some row) = str_is (txt "PUBLISHED") (column "status" row)

unfoldable pub exact_active_version : List Fields → ℤ → Option Bool
unfolding versions_of version_row active_rows
exact_active_version rows expected =
    let versions = versions_of rows [] in
    let active = active_rows rows in
    if all (λ row. hashable (column "flow_version" row)) rows
    then some (
        (length versions == length rows)
        && ((is_some (version_row (int (pos 1)) versions)
              && is_some (version_row (int expected) versions))
            && ((not (length active == 0)
                  && all (λ row. value_eq (column "flow_version" row) (int expected)) active)
                && published (version_row (int expected) versions))))
    else none

abbrev step_matches : Option Text → Fields → Bool
step_matches none row = true
step_matches (some step) row = str_is step (column "current_step_key" row)

unfoldable pub process_state_matches : Fields → Text → Option Text → Bool
process_state_matches row state current_step =
    str_is state (column "state" row) && step_matches current_step row

unfoldable pub strictly_increasing_integer : Value → Value → Bool
strictly_increasing_integer (int current) (int previous) = int_lt previous current
strictly_increasing_integer _ _ = false

abbrev pub Columns : Type 0
Columns = List (Text × Text)

abbrev pub Schemas : Type 0
Schemas = List (Text × Columns)

abbrev pub columns_or_empty : Option Columns → Columns
columns_or_empty none = []
columns_or_empty (some columns) = columns

-- one row of the loop: `none` is `return False`
unfoldable pub add_column : Text → Text → Text → Schemas → Option Schemas
unfolding lookup insert
add_column view name type actual =
    let columns = columns_or_empty (lookup view actual) in
    if is_some (lookup name columns)
    then none
    else some (insert view (insert name type columns) actual)

abbrev pub text_of : Value → Option Text
text_of (str s) = some s
text_of v = none

abbrev pub read_names : Text → Option Text → Option Text → Option (Text × Text × Text)
read_names view (some name) (some type) = some (view, name, type)
read_names view _ _ = none

-- the names of a row that passes the tests of the loop
unfoldable pub read_column : Fields → Option (Text × Text × Text)
unfolding lookup
read_column row = elim (text_of (column "view_name" row)) [
  | none ↦ none
  | some view ↦
      (if is_some (lookup view autocheck_view_schemas)
          && str_is (txt "v") (column "relation_kind" row)
        then read_names view (text_of (column "column_name" row)) (text_of (column "data_type" row))
        else none)
]

-- the loop: `none` is TypeError, and `some none` is `return False`
unfoldable pub read_schemas : List Fields → Schemas → Option (Option Schemas)
unfolding add_column read_column
read_schemas [] actual = some (some actual)
read_schemas (row ∷ rows) actual = elim (hashable (column "view_name" row)) [
  | false ↦ none
  | true ↦ elim (read_column row) [
    | none ↦ some none
    | some (view, name, type) ↦ elim (add_column view name type actual) [
      | none ↦ some none
      | some next ↦ read_schemas rows next
    ]
  ]
]

-- `actual[view].get(column) == data_type`
abbrev pub has_column : Columns → Text × Text → Bool
has_column columns (name, type) = elim (lookup name columns) [
  | none ↦ false
  | some t ↦ text_eq t type
]

abbrev pub has_view : Schemas → Text × Columns → Bool
has_view actual (view, columns) = elim (lookup view actual) [
  | none ↦ false
  | some found ↦ all (has_column found) columns
]

unfoldable pub stable_view_schemas_match : List Fields → Option Bool
unfolding read_schemas
stable_view_schemas_match rows = elim (read_schemas rows []) [
  | none ↦ none
  | some none ↦ some false
  | some (some actual) ↦ some (all (has_view actual) autocheck_view_schemas)
]

unfoldable pub action_dispatch_matches : Fields → Text → Text → Text → Text → Bool
action_dispatch_matches row execution_id module_name action outcome =
    str_is execution_id (column "request_id" row)
    && (str_is module_name (column "module" row)
        && (str_is action (column "action" row)
            && (value_eq (column "version" row) (int (pos 1))
                && (str_is (txt "workflow-worker") (column "principal" row)
                    && (str_is (txt "OK") (column "status" row)
                        && str_is outcome (column "outcome" row))))))
