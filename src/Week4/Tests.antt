-- ===== src/Week4/Tests.antt =====
-- The theorems on the week 4 checker at small files and reports.
use db_first_practice.Common.{Option}
use db_first_practice.Common.{
  ◌≡◌, ◌↔◌, refl, true, false, some, List, [], ◌∷◌, Text, txt, text_eq, mem_text, All,
  if◌then◌else◌,
}
use db_first_practice.Common.Assoc.{lookup}
use db_first_practice.Common.Int.{pos}
use db_first_practice.Common.Results.{ok}
use db_first_practice.Json.{
  Value, null, int, str, arr, obj, nil, cons, Fields, end, field, get_or_null, get, keys_are,
}
use db_first_practice.Builtins.{before, parse_int}
use db_first_practice.Builtins.Find.{contains, split, starts_with, rsplit, after_last, after_prefix}
use db_first_practice.App.Receipt.{normalize_receipt, invalid_time}
use db_first_practice.Week2.Views.Tables.{autocheck_view_schemas}
use db_first_practice.Week4.Receipt.{
  normalized_receipt, check_lines, bad_line, check_result, bad_message,
}
use db_first_practice.Week4.Receipt.Agree.{normalized_receipt-agrees}
use db_first_practice.Week4.Report.{is_forbidden_key, report_has_forbidden_keys, redact}
use db_first_practice.Week4.Report.Forbidden.{Occurs, report_has_forbidden_keys_iff}
use db_first_practice.Week4.Report.Redacted.{IsShown, redact-IsShown}
use db_first_practice.Week4.Columns.{expected_column_type}
use db_first_practice.Week4.Columns.Tables.{required_view_columns}
use db_first_practice.Week4.Columns.Declared.{expected_column_type-lookup}
use db_first_practice.Findings.{iterate, flag, each, ◌then_find◌, str_of}
use db_first_practice.Week4.Compose.Tables.{required_env_recipients, required_services}
use db_first_practice.Week4.Compose.Environment.{
  services_of, environment_reference_findings, variable_findings, gateway_reference,
  recipient_findings, is_referenced,
}
use db_first_practice.Week4.Compose.Environment.Placed.{
  IsPlaced, environment_reference_findings-IsPlaced,
}
use db_first_practice.Week4.Compose.Services.{service_environment}
use db_first_practice.Week4.Compose.Ports.{
  published_ports, over_ports, add_all, ports_of, without_default, published_value, search_default,
  default_here, span_digits, match_default, default_end, read_range, all_digits, int_of,
}
use db_first_practice.Week4.Compose.Ports.Sets.{is_only}

-- how Python prints a list or a dictionary: the files below have none where it is asked
abbrev repr : Value → Text
repr v = txt "{}"

abbrev gateway : Fields
gateway = field (txt "build") (str (txt ".")) (
    field (txt "volumes") (arr (cons (str (txt "logs:/var/log")) nil))
      (field (txt "ports") (arr (cons (str (txt "127.0.0.1:9000:8080")) nil)) end))

abbrev config : Fields
config =
    field (txt "services") (obj (field (txt "gateway") (obj gateway) end))
      (field (txt "volumes") (obj (field (txt "logs") null end)) end)

abbrev callback : Fields
callback = field (txt "operationId") (str (txt "op-7")) (
    field (txt "providerPaymentId") (str (txt "pay-1")) (
      field (txt "result") (str (txt "REJECTED")) (
        field (txt "message") (str (txt ""))
          (field (txt "occurredAt") (str (txt "2026-01-31T10:20:30Z")) end))))

abbrev receipt : Fields
receipt = field (txt "externalRequestId") (str (txt "op-7")) (
    field (txt "messageId") (str (txt "pay-1")) (
      field (txt "occurredAt") (str (txt "2026-01-31T10:20:30Z")) (
        field (txt "outcome") (str (txt "REJECTED")) (
          field (txt "providerPaymentId") (str (txt "pay-1"))
            (field (txt "version") (int (pos 1)) end)))))

normalized_receipt-agrees_example : (normalize_receipt (obj callback) ≡ ok receipt) ↔ (
    (normalized_receipt callback ≡ ok receipt)
    × (invalid_time (get_or_null (txt "occurredAt") callback) ≡ false))
normalized_receipt-agrees_example = normalized_receipt-agrees callback receipt

callback_normalized : normalized_receipt callback ≡ ok receipt
unfolding txt get text_eq keys_are normalized_receipt check_lines bad_line check_result bad_message
callback_normalized = refl

abbrev report : Value
report =
    obj (field (txt "checks") (arr (cons (obj (field (txt "hmacKey") (int (pos 1)) end)) nil)) end)

report_has_forbidden_keys_iff_example :
    (report_has_forbidden_keys report ≡ true)
    ↔ ((k : Text) × Occurs k report × (is_forbidden_key k ≡ true))
report_has_forbidden_keys_iff_example = report_has_forbidden_keys_iff report

redact-IsShown_example : IsShown 13 (redact (txt "s3cret" ∷ []) 0 report)
redact-IsShown_example = redact-IsShown (txt "s3cret" ∷ []) report

abbrev signals : List (Text × Text)
signals =
    (txt "message_id", txt "text")
    ∷ (txt "process_id", txt "uuid")
    ∷ (txt "signal_type", txt "text")
    ∷ (txt "body_hash", txt "text")
    ∷ (txt "status", txt "text")
    ∷ (txt "received_at", txt "timestamp with time zone")
    ∷ []

signals_found : lookup (txt "signals") autocheck_view_schemas ≡ some signals
unfolding lookup txt text_eq
signals_found = refl

received_found : lookup (txt "received_at") signals ≡ some (txt "timestamp with time zone")
unfolding lookup txt text_eq
received_found = refl

expected_column_type-lookup_example :
    (expected_column_type (txt "received_at") ≡ txt "timestamp with time zone")
    × (required : List Text) × (lookup (txt "signals") required_view_columns ≡ some required)
    × (mem_text (txt "received_at") required ≡ true)
expected_column_type-lookup_example =
    expected_column_type-lookup (txt "signals") (txt "received_at") signals_found received_found

-- every variable has the same value, but the port
abbrev reference_values : Text → Option Text
reference_values name =
    if text_eq name (txt "COURSE_GATEWAY_PORT") then some (txt "9000") else some (txt "x")

-- a service whose environment has the value
abbrev knows_all : Value
knows_all = obj (field (txt "environment") (obj (field (txt "ALL") (str (txt "x")) end)) end)

abbrev all_known : List Text → Fields
all_known [] = end
all_known (name ∷ names) = field name knows_all (all_known names)

abbrev but_first : List Text → List Text
but_first [] = []
but_first (name ∷ names) = names

-- the gateway is the first of the required services
abbrev stack : Fields
stack =
    field (txt "services")
      (obj (
        field (txt "gateway")
          (obj (
            field (txt "environment") (obj (field (txt "ALL") (str (txt "x")) end))
              (field (txt "ports") (arr (cons (str (txt "127.0.0.1:9000:8080")) nil)) end)))
          (all_known (but_first required_services))))
      end

stack_references : environment_reference_findings repr stack reference_values ≡ ok []
unfolding environment_reference_findings txt get text_eq each ◌then_find◌ variable_findings
    gateway_reference recipient_findings is_referenced service_environment str_of flag contains
    starts_with published_ports over_ports add_all iterate ports_of without_default published_value
    search_default default_here after_prefix span_digits match_default default_end read_range
    all_digits int_of parse_int split rsplit after_last before is_only
stack_references = refl

environment_reference_findings-IsPlaced_example :
    (services : Fields) × (services_of stack ≡ obj services)
    × All (IsPlaced repr services reference_values) required_env_recipients
environment_reference_findings-IsPlaced_example =
    environment_reference_findings-IsPlaced repr stack reference_values stack_references
