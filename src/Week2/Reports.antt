-- ===== src/Week2/Reports.antt =====
-- The output of a command and the report, in week 2 (task/week2/autocheck/public_check.py).
use db_first_practice.Common.{
  Bool, false, ◌||◌, Option, none, some, List, [], ◌∷◌, if◌then◌else◌, Text, txt, mem_text,
  is_empty,
}
use db_first_practice.Builtins.{strip}
use db_first_practice.Builtins.Casefold.{casefold}
use db_first_practice.Json.{
  Value, str, arr, obj, Items, nil, cons, Fields, end, field, get, get_or_null, str_is,
}
use db_first_practice.Json.Parse.{loads}

-- `extract_cli_json`: one JSON object and nothing else, or `None`
abbrev dict_of : Option Value → Option Fields
dict_of (some (obj d)) = some d
dict_of _ = none

unfoldable pub extract_cli_json : Text → Option Fields
extract_cli_json stdout =
    let text = strip stdout in if is_empty text then none else dict_of (loads text)

abbrev pub blocked_keys : List Text
blocked_keys =
    txt "score" ∷ txt "points" ∷ txt "criterionid" ∷ txt "evidenceid" ∷ txt "diagnosticcode" ∷ []

unfoldable mutual
  unfolding casefold

  pub report_has_blocked_keys : Value → Bool
  report_has_blocked_keys (obj d) = fields_blocked d
  report_has_blocked_keys (arr vs) = items_blocked vs
  report_has_blocked_keys v = false

  pub items_blocked : Items → Bool
  items_blocked nil = false
  items_blocked (cons v vs) = report_has_blocked_keys v || items_blocked vs

  pub fields_blocked : Fields → Bool
  fields_blocked end = false
  fields_blocked (field k v d) =
      (mem_text (casefold k) blocked_keys || report_has_blocked_keys v) || fields_blocked d

abbrev cons_name : Option Value → Option Items → Option Items
cons_name (some v) (some vs) = some (cons v vs)
cons_name _ _ = none

-- `[item["name"] for item in checks if item.get("status") != "passed"]`; `none` is KeyError
unfoldable pub not_passed : List Fields → Option Items
not_passed [] = some nil
not_passed (item ∷ checks) =
    let rest = not_passed checks in
    if str_is (txt "passed") (get_or_null (txt "status") item)
    then rest
    else cons_name (get (txt "name") item) rest

abbrev dicts : List Fields → Items
dicts [] = nil
dicts (d ∷ ds) = cons (obj d) (dicts ds)

unfoldable pub report_of : Text → Text → Text → List Fields → List Fields → Option Fields
unfolding not_passed
report_of started_at finished_at status checks commands = elim (not_passed checks) [
  | none ↦ none
  | some failed ↦ some (
      field (txt "manifestVersion") (str (txt "week-2-public-report/v1")) (
        field (txt "toolVersion") (str (txt "week-2-public-check/1.1")) (
          field (txt "timestamps")
            (obj (
              field (txt "startedAt") (str started_at)
                (field (txt "finishedAt") (str finished_at) end)))
            (field (txt "status") (str status) (
              field (txt "checks") (arr (dicts checks)) (
                field (txt "failedChecks") (arr failed)
                  (field (txt "commands") (arr (dicts commands)) end)))))))
]
