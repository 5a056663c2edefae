-- ===== src/Week4/Schema/Tests.antt =====
-- A contract of two properties, one of them by a reference, and a value that keeps it.
use db_first_practice.Common.{
  ◌≡◌, ◌≢◌, refl, true, false, Bool, Option, some, [], Text, txt, text_eq, arith,
}
use db_first_practice.Common.Int.{pos}
use db_first_practice.Common.Results.{ok, err}
use db_first_practice.Json.{
  Value, int, str, bool, arr, obj, nil, cons, Fields, end, field, get, value_eq,
}
use db_first_practice.Builtins.Find.{split_all, after_prefix, replace_from, starts_with}
use db_first_practice.Findings.{flag, ◌then_find◌, each, str_of}
use db_first_practice.Week4.Schema.Rules.{
  int_of, has_type, type_ok, is_in, const_findings, enum_findings, pattern_findings,
  max_length_findings, text_findings, is_missing, missing_findings, each_of, required_findings,
  minimum_findings, kind_findings, own_findings,
}
use db_first_practice.Week4.Schema.{
  too_deep, lift, unescape_part, follow, resolve, additional, not_findings, property_at,
  property_findings, properties_findings, inner_findings, typed_findings, rule_findings, visit,
  validate_json_schema,
}
use db_first_practice.Week4.Schema.Limit.{fits_limit}
use db_first_practice.Week4.Schema.Settled.{validate_json_schema-ends}
use db_first_practice.Week4.Schema.Fits.{Fits}
use db_first_practice.Week4.Schema.Sound.{validate_json_schema-Fits}

abbrev repr : Value → Text
repr v = []

abbrev search : Text → Text → Option Bool
search pattern s = some true

abbrev outcome_rule : Fields
outcome_rule = field (txt "type") (str (txt "string")) (
    field (txt "enum") (arr (cons (str (txt "COMPLETED")) (cons (str (txt "REJECTED")) nil)))
      (field (txt "maxLength") (int (pos 9)) end))

abbrev properties : Fields
properties =
    field (txt "outcome") (obj (field (txt "$ref") (str (txt "#/$defs/outcome")) end))
      (field (txt "version") (obj (field (txt "const") (int (pos 1)) end)) end)

abbrev schema : Fields
schema = field (txt "type") (str (txt "object")) (
    field (txt "additionalProperties") (bool false) (
      field (txt "required") (arr (cons (str (txt "outcome")) (cons (str (txt "version")) nil))) (
        field (txt "properties") (obj properties)
          (field (txt "$defs") (obj (field (txt "outcome") (obj outcome_rule) end)) end))))

abbrev receipt : Value
receipt =
    obj (field (txt "outcome") (str (txt "COMPLETED")) (field (txt "version") (int (pos 1)) end))

schema_fits : fits_limit repr schema 3 schema ≡ true
unfolding txt text_eq get fits_limit resolve follow split_all unescape_part replace_from
    after_prefix starts_with str_of
schema_fits = refl

receipt_fits : validate_json_schema repr search schema 3 receipt ≡ ok []
unfolding txt text_eq get value_eq resolve follow split_all unescape_part replace_from after_prefix
    starts_with str_of visit validate_json_schema rule_findings not_findings typed_findings
    inner_findings properties_findings property_findings property_at additional own_findings
    kind_findings required_findings missing_findings is_missing each_of text_findings
    max_length_findings pattern_findings const_findings enum_findings is_in type_ok has_type int_of
    lift flag ◌then_find◌ each minimum_findings
receipt_fits = refl

validate_json_schema-ends_example :
    (validate_json_schema repr search schema 1000 receipt ≢ err too_deep)
    × (validate_json_schema repr search schema 3 receipt
        ≡ validate_json_schema repr search schema 1000 receipt)
validate_json_schema-ends_example =
    validate_json_schema-ends repr search schema 3 1000 receipt (omega arith) schema_fits

validate_json_schema-Fits_example : Fits repr schema 3 receipt schema
validate_json_schema-Fits_example =
    validate_json_schema-Fits repr search schema 3 receipt receipt_fits
