-- ===== src/Week4/Compose/Services.antt =====
-- What single services of the Compose file declare: the volume of PostgreSQL, the image of the provider, the environment,
-- and where a secret is shown.
pub mod Secrets
use db_first_practice.Common.{
  Bool, false, not, ◌&&◌, ◌||◌, Option, none, some, List, [], ◌∷◌, ◌++◌, map, Text, txt, text_eq,
  is_empty, any, has_code, if◌then◌else◌,
}
use db_first_practice.Common.Assoc.{insert}
use db_first_practice.Common.Results.{ok, ◌>>=◌}
use db_first_practice.Json.{
  Value, null, str, arr, obj, Fields, end, field, get, get_or_null, has_key, truthy, str_is,
  entries, elements,
}
use db_first_practice.Json.Spaced.{spaced}
use db_first_practice.Builtins.Find.{starts_with, split, rsplit, after_last, before_last, contains}
use db_first_practice.Findings.{Found, flag, str_of, iterate}

abbrev pub default_to : Value → Option Value → Value
default_to v none = v
default_to v (some w) = w

abbrev provider_repository : Text
provider_repository = txt "ghcr.io/fintech-dev-lab/internship-provider-simulator"

abbrev provider_digest : Text
provider_digest = txt "sha256:70e5e0dd9ab8425be84de431ec74516f9bedf5d5529077358e2e2b2037fe0c74"

-- the repository and the digest that `PROVIDER_IMAGE` splits into are written out
unfoldable pub provider_image_matches : Value → Bool
provider_image_matches (str value) = elim (rsplit 64 value) [
  | none ↦ false
  | some (reference, digest) ↦
      (let repository =
          if has_code 58 (after_last 47 reference) then before_last 58 reference else reference in
        text_eq repository provider_repository && text_eq digest provider_digest)
]
provider_image_matches v = false

module _ (repr : Value → Text) where
  -- the named volume that an item declares, if it does
  unfoldable pub named_source : Value → List Text
  named_source (obj volume) =
      let source = get_or_null (txt "source") volume in
      if str_is (txt "volume") (get_or_null (txt "type") volume) && truthy source
      then str_of repr source ∷ []
      else []
  named_source (str volume) = elim (split 58 volume) [
    | none ↦ []
    | some (source, rest) ↦
        (if not (is_empty source)
            && not (starts_with (txt ".") source || starts_with (txt "/") source)
          then source ∷ []
          else [])
  ]
  named_source v = []

  unfoldable pub named_sources : List Value → List Text
  named_sources [] = []
  named_sources (v ∷ vs) = named_source v ++ named_sources vs

  unfoldable pub volume_declared : Fields → Fields → Found
  volume_declared postgres volumes = do
    items ← iterate (get_or_null (txt "volumes") postgres)
    ok (
        flag (not (any (λ source. has_key source volumes) (named_sources items)))
          (txt "postgres must persist data on a declared named volume"))

  unfoldable pub postgres_of : Value → Fields → Found
  postgres_of (obj postgres) volumes = volume_declared postgres volumes
  postgres_of v volumes = ok (txt "postgres service config is invalid" ∷ [])

  -- `config.get("volumes", {}) or {}` and `config.get("services", {})`, when both are dictionaries
  unfoldable pub postgres_volume_findings : Fields → Found
  postgres_volume_findings config =
      let volumes = get_or_null (txt "volumes") config in
      let invalid = ok (txt "PostgreSQL named volume configuration is invalid" ∷ []) in
      elim (default_to (obj end) (get (txt "services") config)) [
        | obj services ↦ elim volumes [
          | obj declared ↦ postgres_of (get_or_null (txt "postgres") services) declared
          | v ↦
              (if truthy v
                then invalid
                else postgres_of (get_or_null (txt "postgres") services) end)
        ]
        | v ↦ invalid
      ]

  abbrev text_or_empty : Value → Text
  text_or_empty null = []
  text_or_empty v = str_of repr v

  unfoldable pub listed_environment : List Value → List (Text × Text) → List (Text × Text)
  listed_environment [] result = result
  listed_environment (item ∷ items) result =
      listed_environment items (elim (split 61 (str_of repr item)) [
        | none ↦ insert (str_of repr item) [] result
        | some (key, value) ↦ insert key value result
      ])

  -- `service.get("environment", {}) or {}`, as a dictionary of texts
  unfoldable pub service_environment : Value → List (Text × Text)
  service_environment (obj service) = elim (get_or_null (txt "environment") service) [
    | obj environment ↦ map (λ (k, v). (k, text_or_empty v)) (entries environment)
    | arr vs ↦ listed_environment (elements vs) []
    | v ↦ []
  ]
  service_environment v = []

  -- `d.pop(key, None)` on a copy
  unfoldable pub without : Text → Fields → Fields
  without key end = end
  without key (field k v d) =
      let rest = without key d in if text_eq k key then rest else field k v rest

  unfoldable pub is_allowed : List (Text × Text) → Text → Text → Bool
  is_allowed allowed service key =
      any (λ (s, k). text_eq s service && (text_eq k key || text_eq k (txt "*"))) allowed

  unfoldable pub environment_leaks :
      Text → Text → List (Text × Text) → Text → List (Text × Text) → List Text
  environment_leaks label secret allowed service [] = []
  environment_leaks label secret allowed service ((key, value) ∷ rest) =
      flag (contains secret value && not (is_allowed allowed service key))
        (label ++ (txt ": secret is exposed to " ++ (service ++ (txt "." ++ key))))
      ++ environment_leaks label secret allowed service rest

  unfoldable pub service_leaks : Text → Text → List (Text × Text) → Text × Value → List Text
  service_leaks label secret allowed (name, obj service) =
      environment_leaks label secret allowed name (service_environment (obj service))
      ++ flag (contains secret (spaced (obj (without (txt "environment") service))))
          (label ++ (txt ": secret is exposed outside " ++ (name ++ txt " environment")))
  service_leaks label secret allowed (name, v) = []

  unfoldable pub all_leaks : Text → Text → List (Text × Text) → List (Text × Value) → List Text
  all_leaks label secret allowed [] = []
  all_leaks label secret allowed (entry ∷ rest) =
      service_leaks label secret allowed entry ++ all_leaks label secret allowed rest

  -- the findings for one secret, `allowed` being the places that may show it
  unfoldable pub secret_leaks : Fields → Fields → Text × Text × List (Text × Text) → List Text
  secret_leaks config services (label, [], allowed) = []
  secret_leaks config services (label, c ∷ secret, allowed) =
      flag (contains (c ∷ secret) (spaced (obj (without (txt "services") config))))
        (label ++ txt ": secret is exposed outside service environment")
      ++ all_leaks label (c ∷ secret) allowed (entries services)

  unfoldable pub leaks_of : Fields → Fields → List (Text × Text × List (Text × Text)) → List Text
  leaks_of config services [] = []
  leaks_of config services (secret ∷ rest) =
      secret_leaks config services secret ++ leaks_of config services rest

  unfoldable pub secret_distribution_findings :
      Fields → List (Text × Text × List (Text × Text)) → List Text
  secret_distribution_findings config secrets =
      elim (default_to (obj end) (get (txt "services") config)) [
        | obj services ↦ leaks_of config services secrets
        | v ↦ txt "services must be an object" ∷ []
      ]
