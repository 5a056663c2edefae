-- ===== src/Week4/Compose/Services/Secrets.antt =====
-- A Compose file without findings about secrets: what shows none of them.
use db_first_practice.Common.{◌≡◌, true, false, ◌⊎◌, List, [], Text, txt, All}
use db_first_practice.Json.{Value, obj, Fields, entries, is_dict}
use db_first_practice.Json.Spaced.{spaced}
use db_first_practice.Builtins.Find.{contains}
use db_first_practice.Week4.Compose.Services.{service_environment, without, is_allowed}

-- a secret's label, its text, and the places that may show it: a service and a key, or a service and `*`
abbrev pub Secret : Type 0
Secret = Text × Text × List (Text × Text)

module _ (repr : Value → Text) where
  -- a value of the environment that shows the secret only where it may
  abbrev pub IsDiscreet : Text → List (Text × Text) → Text → Text × Text → Type 0
  IsDiscreet secret allowed service (key, value) =
      (contains secret value ≡ false) ⊎ (is_allowed repr allowed service key ≡ true)

  -- a service that shows the secret in allowed values of its environment only
  pub data KeepsSecret (secret : Text) (allowed : List (Text × Text)) : Text × Value → Type 0 where
    keeps :
        {name : Text} {service : Fields}
        → All (IsDiscreet secret allowed name) (service_environment repr (obj service))
        → contains secret (spaced (obj (without repr (txt "environment") service))) ≡ false
        → KeepsSecret secret allowed (name, obj service)
    no_service :
        {name : Text} {v : Value} → is_dict v ≡ false → KeepsSecret secret allowed (name, v)

  pub data IsKept (config services : Fields) : Secret → Type 0 where
    unset :
        {label : Text} {allowed : List (Text × Text)} → IsKept config services (label, [], allowed)
    kept :
        {label secret : Text} {allowed : List (Text × Text)}
        → contains secret (spaced (obj (without repr (txt "services") config))) ≡ false
        → All (KeepsSecret secret allowed) (entries services)
        → IsKept config services (label, secret, allowed)
