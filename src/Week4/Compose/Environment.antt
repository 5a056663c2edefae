-- ===== src/Week4/Compose/Environment.antt =====
-- `_environment_reference_findings`: each variable of the stack reaches the services that need it.
pub mod Placed
use db_first_practice.Common.{
  Bool, true, false, not, Option, none, some, List, [], ◌∷◌, ◌++◌, Text, txt, text_eq, any,
  if◌then◌else◌,
}
use db_first_practice.Common.Int.{ℤ}
use db_first_practice.Common.Results.{Result, ok, err, ◌>>=◌}
use db_first_practice.Json.{
  Value, null, bool, int, float, str, arr, obj, Fields, end, get, get_or_null,
}
use db_first_practice.Builtins.{parse_int}
use db_first_practice.Builtins.Find.{contains}
use db_first_practice.Findings.{Fault, key_error, value_error, Found, flag, each}
use db_first_practice.Week4.Compose.Ports.{published_ports}
use db_first_practice.Week4.Compose.Ports.Sets.{is_only}
use db_first_practice.Week4.Compose.Services.{service_environment}
use db_first_practice.Week4.Compose.Tables.{required_env_recipients}

-- `config.get("services", {})`
abbrev pub services_of : Fields → Value
services_of config = elim (get (txt "services") config) [ none ↦ obj end | some v ↦ v ]

module _ (repr : Value → Text) where
  -- `any(marker in value for value in environment.values())`
  unfoldable pub is_referenced : Text → Value → Bool
  is_referenced marker service =
      any (λ (key, value). contains marker value) (service_environment repr service)

  unfoldable pub gateway_reference : Value → Option ℤ → Found
  gateway_reference gateway none = err value_error
  gateway_reference gateway (some port) = published_ports gateway >>= λ ports. ok (
      flag (not (is_only port ports))
        (txt "gateway: tracked ports must reference COURSE_GATEWAY_PORT"))

  unfoldable pub recipient_findings : Fields → Text → Text → Text → Found
  recipient_findings services variable marker name = ok (
      flag (not (is_referenced marker (get_or_null name services)))
        (name ++ (txt ": tracked environment must reference " ++ variable)))

  unfoldable pub variable_findings : Fields → (Text → Option Text) → Text × List Text → Found
  variable_findings services reference_values (variable, recipients) =
      elim (reference_values variable) [
        | none ↦ err key_error
        | some marker ↦
            (if text_eq variable (txt "COURSE_GATEWAY_PORT")
              then gateway_reference (get_or_null (txt "gateway") services) (parse_int marker)
              else each (recipient_findings services variable marker) recipients)
      ]

  unfoldable pub environment_reference_findings : Fields → (Text → Option Text) → Found
  environment_reference_findings config reference_values = elim (services_of config) [
    | obj services ↦ each (variable_findings services reference_values) required_env_recipients
    | _ ↦ ok (txt "services must be an object" ∷ [])
  ]
