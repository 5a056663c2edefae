-- ===== src/Week4/Compose/Unsafe.antt =====
-- `_unsafe_compose_findings`: what gives a service of an untrusted Compose file a hold on the host.

use db_first_practice.Common.{
  ℕ, Bool, true, false, not, ◌&&◌, ◌||◌, Option, none, some, List, [], ◌∷◌, ◌++◌, map, Text, txt,
  any, ◌==◌, if◌then◌else◌, leb, ◌+◌,
}
use db_first_practice.Common.Results.{ok, ◌>>=◌}
use db_first_practice.Json.{
  Value, null, str, arr, obj, Fields, get, get_or_null, truthy, str_is, entries, elements,
}
use db_first_practice.Builtins.{before}
use db_first_practice.Builtins.Find.{contains, split, starts_with}
use db_first_practice.Findings.{Found, flag, ◌then_find◌, each, str_of, iterate}
use db_first_practice.Week4.Compose.Paths.{Place, path_is_within, join_path}

abbrev pub has : Text → Fields → Bool
has key service = truthy (get_or_null key service)

abbrev pub runtime_keys : List Text
runtime_keys =
    txt "network_mode"
    ∷ txt "pid"
    ∷ txt "ipc"
    ∷ txt "uts"
    ∷ txt "userns_mode"
    ∷ txt "cgroup"
    ∷ txt "cgroup_parent"
    ∷ txt "runtime"
    ∷ txt "isolation"
    ∷ txt "security_opt"
    ∷ txt "use_api_socket"
    ∷ []

abbrev pub resource_keys : List Text
resource_keys =
    txt "configs"
    ∷ txt "credential_spec"
    ∷ txt "develop"
    ∷ txt "env_file"
    ∷ txt "label_file"
    ∷ txt "secrets"
    ∷ txt "volumes_from"
    ∷ []

abbrev pub build_keys : List Text
build_keys =
    txt "cache_from"
    ∷ txt "cache_to"
    ∷ txt "entitlements"
    ∷ txt "privileged"
    ∷ txt "secrets"
    ∷ txt "ssh"
    ∷ txt "tags"
    ∷ []

abbrev pub default_to : Value → Option Value → Value
default_to v none = v
default_to v (some w) = w

abbrev pub is_none : Value → Bool
is_none null = true
is_none v = false

-- `str.lower`, as far as "docker.sock" can tell: A to Z, and the sign for kelvin
unfoldable pub lower_code : ℕ → ℕ
lower_code c = if leb 65 c && leb c 90 then c + 32 else if c == 0x212A then 107 else c

module _ (repr : Value → Text) (here : Place) where
  -- the source of a volume, and whether it is a bind mount
  unfoldable pub read_volume : Value → Text × Bool
  unfolding str_of before
  read_volume (obj volume) = (
    str_of repr (default_to (str []) (get (txt "source") volume)),
    str_is (txt "bind") (get_or_null (txt "type") volume),
  )
  read_volume v =
      let source = before 58 (str_of repr v) in
      (source, starts_with (txt ".") source || starts_with (txt "/") source)

  unfoldable pub volume_findings : Text → Value → Found
  volume_findings name v =
      let (source, bound) = read_volume v in
      ok (
        flag bound (name ++ txt ": bind mount is forbidden")
        ++ flag (contains (txt "docker.sock") (map lower_code source))
            (name ++ txt ": Docker socket is forbidden"))

  -- `build.get("context", ".") if isinstance(build, dict) else build`
  unfoldable pub context_of : Value → Value
  context_of (obj build) = default_to (str (txt ".")) (get (txt "context") build)
  context_of v = v

  -- the paths of `additional_contexts`
  unfoldable pub additional_paths : Value → List Value
  additional_paths (obj contexts) = map (λ (k, v). v) (entries contexts)
  additional_paths (arr vs) =
      map (λ v. let s = str_of repr v in elim (split 61 s) [ some (a, b) ↦ str b | none ↦ str s ])
        (elements vs)
  additional_paths v = if truthy v then null ∷ [] else []

  -- the directory of the build's context
  unfoldable pub context_root : Value → Text
  context_root (str context) = join_path here.root context
  context_root v = here.root

  unfoldable pub build_dict_findings : Text → Fields → List Text
  build_dict_findings name build =
      let additional = get_or_null (txt "additional_contexts") build in
      let dockerfile = get_or_null (txt "dockerfile") build in
      flag
        (any (λ key. has key build) build_keys
          || str_is (txt "host") (get_or_null (txt "network") build))
        (name ++ txt ": host-backed build resources are forbidden")
      ++ (flag
            (any (λ path. not (path_is_within here here.root path)) (additional_paths additional))
            (name ++ txt ": external additional build context is forbidden")
          ++ flag
              (not (is_none dockerfile)
                && not (path_is_within here (context_root (context_of (obj build))) dockerfile))
              (name ++ txt ": external Dockerfile is forbidden"))

  unfoldable pub build_findings : Text → Value → List Text
  build_findings name build =
      flag (not (is_none build) && not (path_is_within here here.root (context_of build)))
        (name ++ txt ": external build context is forbidden")
      ++ elim build [ obj d ↦ build_dict_findings name d | _ ↦ [] ]

  -- the flags of the service itself
  unfoldable pub runtime_findings : Text → Fields → Found
  runtime_findings name service =
      ok
        (flag (has (txt "privileged") service) (name ++ txt ": host/elevated runtime is forbidden"))
      then_find (each
            (λ key. ok (
              flag (has key service)
                (name ++ (txt ": " ++ (key ++ txt " is forbidden in untrusted Compose")))))
            runtime_keys
          then_find ok (
              flag (has (txt "devices") service || has (txt "cap_add") service)
                (name ++ txt ": device/capability access is forbidden")
              ++ flag (any (λ key. has key service) resource_keys)
                  (name ++ txt ": host-backed service resources are forbidden")))

  unfoldable pub service_findings : Text × Value → Found
  service_findings (name, obj service) =
      runtime_findings name service
      then_find ((iterate (get_or_null (txt "volumes") service) >>= each (volume_findings name))
          then_find ok (build_findings name (get_or_null (txt "build") service)))
  service_findings (name, v) = ok ((name ++ txt ": service config is invalid") ∷ [])

  unfoldable pub resource_findings : Text → Text × Value → Found
  resource_findings kind (name, obj resource) = ok (
      flag (has (txt "external") resource)
        (kind ++ (txt "." ++ (name ++ txt ": external resource is forbidden")))
      ++ flag (has (txt "driver_opts") resource)
          (kind ++ (txt "." ++ (name ++ txt ": driver options are forbidden"))))
  resource_findings kind (name, v) = ok []

  unfoldable pub resource_map_findings : Fields → Text → Found
  resource_map_findings config kind = elim (get_or_null kind config) [
    | obj resources ↦ each (resource_findings kind) (entries resources)
    | v ↦ ok (flag (truthy v) (kind ++ txt ": resource map is invalid"))
  ]

  unfoldable pub host_findings : Fields → Text → Found
  host_findings config kind =
      ok (flag (has kind config) (kind ++ txt ": host-backed resources are forbidden"))

  unfoldable pub unsafe_compose_findings : Fields → Found
  unsafe_compose_findings config = elim (get_or_null (txt "services") config) [
    | obj services ↦
        each service_findings (entries services)
        then_find (each (resource_map_findings config) (txt "volumes" ∷ txt "networks" ∷ [])
            then_find each (host_findings config) (txt "secrets" ∷ txt "configs" ∷ []))
    | _ ↦ ok (txt "services must be an object" ∷ [])
  ]
