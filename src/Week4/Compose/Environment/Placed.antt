-- ===== src/Week4/Compose/Environment/Placed.antt =====
-- An environment without findings: where each variable is.
use db_first_practice.Common.{
  ◌≡◌, ◌≢◌, refl, Bool, true, false, not, Option, none, some, List, [], ◌∷◌, arith, Text, txt,
  text_eq, All, if◌then◌else◌, any, ◌⊎◌, inl, inr, Bool-cases,
}
use db_first_practice.Common.Int.{ℤ}
use db_first_practice.Common.Results.{ok, err, >>=-eq-ok, ok_injective}
use db_first_practice.Json.{
  Value, null, bool, int, float, special, str, arr, obj, Fields, get_or_null,
}
use db_first_practice.Builtins.{parse_int}
use db_first_practice.Builtins.Find.{contains}
use db_first_practice.Week4.Compose.Services.{service_environment}
use db_first_practice.Findings.{key_error, each, flag-nil, each-nil, All-map}
use db_first_practice.Week4.Compose.Ports.{published_ports}
use db_first_practice.Week4.Compose.Ports.Sets.{is_only_sound}
use db_first_practice.Week4.Compose.Tables.{required_env_recipients}
use db_first_practice.Week4.Compose.Environment.{
  services_of, is_referenced, gateway_reference, recipient_findings, variable_findings,
  environment_reference_findings,
}

module _ (repr : Value → Text) where
  -- one of the values contains the marker
  abbrev pub Shows : Text → List (Text × Text) → Type 0
  Shows marker [] = ⊥
  Shows marker ((key, value) ∷ values) = (contains marker value ≡ true) ⊎ Shows marker values

  any-Shows :
      (marker : Text) (values : List (Text × Text))
      → any (λ (key, value). contains marker value) values ≡ true
      → Shows marker values
  any-Shows marker [] h = cc
  any-Shows marker ((key, value) ∷ values) h = elim (Bool-cases (contains marker value)) [
    | inl here ↦ inl here
    | inr other ↦ inr (any-Shows marker values (rw other at h))
  ]

  referenced-Shows :
      (marker : Text) (service : Value)
      → is_referenced repr marker service ≡ true
      → Shows marker (service_environment repr service)
  unfolding is_referenced
  referenced-Shows marker service h = any-Shows marker _ h

  -- the value of a variable reaches its recipients: the port of the gateway as its published port, and another in the
  -- environment of each
  pub data IsPlaced (services : Fields) (reference_values : Text → Option Text)
      : Text × List Text → Type 0 where
    as_port :
        {variable marker : Text} {recipients : List Text} {port : ℤ} {ports : List ℤ}
        → text_eq variable (txt "COURSE_GATEWAY_PORT") ≡ true
        → reference_values variable ≡ some marker
        → parse_int marker ≡ some port
        → published_ports (get_or_null (txt "gateway") services) ≡ ok ports
        → ports ≢ []
        → All (λ k. k ≡ port) ports
        → IsPlaced services reference_values (variable, recipients)
    as_text :
        {variable marker : Text} {recipients : List Text}
        → text_eq variable (txt "COURSE_GATEWAY_PORT") ≡ false
        → reference_values variable ≡ some marker
        → All
            (λ name. Shows marker (service_environment repr (get_or_null name services)))
            recipients
        → IsPlaced services reference_values (variable, recipients)

  not-false : (b : Bool) → not b ≡ false → b ≡ true
  not-false b h = ground arith

  gateway-placed :
      (gateway : Value) (port : Option ℤ)
      → gateway_reference repr gateway port ≡ ok []
      → (n : ℤ) × (ports : List ℤ) × (port ≡ some n)
        × (published_ports gateway ≡ ok ports)
        × (ports ≢ [])
        × All (λ k. k ≡ n) ports
  unfolding gateway_reference
  gateway-placed gateway none h = cc
  gateway-placed gateway (some n) h =
      let (ports, published, found) = >>=-eq-ok (published_ports gateway) _ h in
      let (some_port, only) =
        is_only_sound n ports (not-false _ (flag-nil _ _ (ok_injective found))) in
      (n, ports, refl, published, some_port, only)

  recipients-placed :
      (services : Fields) (variable marker : Text) (names : List Text)
      → each (recipient_findings repr services variable marker) names ≡ ok []
      → All (λ name. Shows marker (service_environment repr (get_or_null name services))) names
  unfolding recipient_findings
  recipients-placed services variable marker names h =
      All-map {P = λ name. recipient_findings repr services variable marker name ≡ ok []}
        (λ name e. referenced-Shows marker _ (not-false _ (flag-nil _ _ (ok_injective e)))) names
        (each-nil _ names h)

  IsPlaced-by :
      (services : Fields) (reference_values : Text → Option Text) (variable : Text)
      (recipients : List Text) (o : Option Text) (t : Bool)
      → reference_values variable ≡ o
      → text_eq variable (txt "COURSE_GATEWAY_PORT") ≡ t
      → elim o [
        | none ↦ err key_error
        | some marker ↦
            (if t
              then gateway_reference repr (get_or_null (txt "gateway") services) (parse_int marker)
              else each (recipient_findings repr services variable marker) recipients)
      ]
        ≡ ok []
      → IsPlaced services reference_values (variable, recipients)
  IsPlaced-by services reference_values variable recipients none t e f h = cc
  IsPlaced-by services reference_values variable recipients (some marker) true e f h =
      let (n, ports, read, published, some_port, only) = gateway-placed _ _ h in
      as_port f e read published some_port only
  IsPlaced-by services reference_values variable recipients (some marker) false e f h =
      as_text f e (recipients-placed services variable marker recipients h)

  variable-IsPlaced :
      (services : Fields) (reference_values : Text → Option Text) (entry : Text × List Text)
      → variable_findings repr services reference_values entry ≡ ok []
      → IsPlaced services reference_values entry
  unfolding variable_findings
  variable-IsPlaced services reference_values (variable, recipients) h =
      IsPlaced-by services reference_values variable recipients _ _ refl refl h

  services-IsPlaced :
      (config : Fields) (reference_values : Text → Option Text) (v : Value)
      → services_of config ≡ v
      → elim v [
        | obj services ↦
            each (variable_findings repr services reference_values) required_env_recipients
        | _ ↦ ok (txt "services must be an object" ∷ [])
      ]
        ≡ ok []
      → (services : Fields) × (services_of config ≡ obj services)
        × All (IsPlaced services reference_values) required_env_recipients
  services-IsPlaced config reference_values (obj services) e h = (
    services,
    e,
    All-map (variable-IsPlaced services reference_values) required_env_recipients
        (each-nil _ required_env_recipients h),
  )
  services-IsPlaced config reference_values null e h = cc
  services-IsPlaced config reference_values (bool b) e h = cc
  services-IsPlaced config reference_values (int n) e h = cc
  services-IsPlaced config reference_values (float m k) e h = cc
  services-IsPlaced config reference_values (special x) e h = cc
  services-IsPlaced config reference_values (str s) e h = cc
  services-IsPlaced config reference_values (arr vs) e h = cc

  -- If `_environment_reference_findings` finds nothing, the reference value of every variable of the table is known;
  -- that of `COURSE_GATEWAY_PORT` is a number, which is a port, and the only one, that `_published_ports` reads of the gateway (a
  -- range of more than 1001 ports is read as none), and that of another variable is in a value of the environment that
  -- `_service_environment` reads of each of its recipients.
  pub environment_reference_findings-IsPlaced :
      (config : Fields) (reference_values : Text → Option Text)
      → environment_reference_findings repr config reference_values ≡ ok []
      → (services : Fields) × (services_of config ≡ obj services)
        × All (IsPlaced services reference_values) required_env_recipients
  unfolding environment_reference_findings
  environment_reference_findings-IsPlaced config reference_values h =
      services-IsPlaced config reference_values _ refl h
