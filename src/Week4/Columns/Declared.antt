-- ===== src/Week4/Columns/Declared.antt =====
-- The views of week 2 in week 4: their columns are still required, and the types still agree.
use db_first_practice.Common.{
  ◌≡◌, refl, Bool, true, false, ◌&&◌, Option, none, some, List, Text, txt, text_eq, text_eq_iff,
  mem_text, all,
}
use db_first_practice.Common.Assoc.{lookup, all-lookup, and-left, and-right}
use db_first_practice.Week2.Views.Tables.{autocheck_view_schemas}
use db_first_practice.Week4.Columns.{expected_column_type}
use db_first_practice.Week4.Columns.Tables.{required_view_columns}

has_type : Text × Text → Bool
has_type (column, type) = text_eq (expected_column_type column) type

required_in : Text → Text × Text → Bool
required_in view (column, type) = elim (lookup view required_view_columns) [
  | none ↦ false
  | some columns ↦ mem_text column columns
]

view_kept : Text × List (Text × Text) → Bool
unfolding has_type required_in
view_kept (view, columns) = all has_type columns && all (required_in view) columns

all_kept : all view_kept autocheck_view_schemas ≡ true
unfolding view_kept has_type required_in expected_column_type lookup text_eq txt
all_kept = refl

required-some :
    (o : Option (List Text)) (column : Text)
    → elim o [ none ↦ false | some columns ↦ mem_text column columns ] ≡ true
    → (required : List Text) × (o ≡ some required) × (mem_text column required ≡ true)
required-some none column h = cc
required-some (some columns) column h = (columns, refl, h)

-- A column that week 2 publishes in a view, with a type, is one that week 4 requires in the view of that
-- name, and the type that week 4 expects of it is the same.
pub expected_column_type-lookup :
    (view column : Text) {columns : List (Text × Text)} {type : Text}
    → lookup view autocheck_view_schemas ≡ some columns
    → lookup column columns ≡ some type
    → (expected_column_type column ≡ type)
      × (required : List Text) × (lookup view required_view_columns ≡ some required)
      × (mem_text column required ≡ true)
unfolding view_kept has_type required_in
expected_column_type-lookup view column {columns} {type} h e =
    let kept = all-lookup view_kept autocheck_view_schemas view all_kept h in
    let typed = all-lookup has_type columns column (and-left (all has_type columns) _ kept) e in
    let found =
      all-lookup (required_in view) columns column (and-right (all has_type columns) _ kept) e in
    let (required, looked, listed) = required-some _ column found in
    ((text_eq_iff (expected_column_type column) type).0 typed, required, looked, listed)
