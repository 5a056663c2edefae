-- ===== src/Week2/Compose/Unsafe.antt =====
-- `_unsafe_compose_findings` of week 2: what gives a service of a Compose file a hold on the host.
pub mod Harmless
pub mod Safe
use db_first_practice.Common.{
  ℕ, ◌+◌, Bool, true, false, not, ◌&&◌, ◌||◌, Option, none, some, List, [], ◌∷◌, ◌++◌, map, ltb,
  if◌then◌else◌, Text, txt, text_eq, is_empty, mem_text, any,
}
use db_first_practice.Common.Results.{Result, ok, err, ◌>>=◌}
use db_first_practice.Json.{
  Value, null, bool, int, float, str, arr, obj, Fields, end, field, get, get_or_null, truthy,
  entries, elements,
}
use db_first_practice.Json.Print.{text_le}
use db_first_practice.Builtins.Casefold.{casefold}
use db_first_practice.Builtins.Find.{contains, starts_with, split}
use db_first_practice.Findings.{Fault, Found, flag, ◌then_find◌, each, str_of, iterate}
use db_first_practice.Week4.Compose.Paths.{Place, join_path, both_below}
use db_first_practice.Week2.Compose.{volume_source, is_true}

abbrev pub has : Text → Fields → Bool
has key service = truthy (get_or_null key service)

-- `value.get(key, default)`
abbrev pub value_at : Value → Text → Fields → Value
value_at default key d = elim (get key d) [ none ↦ default | some v ↦ v ]

abbrev pub host_modes : List Text
host_modes =
    txt "network_mode" ∷ txt "pid" ∷ txt "ipc" ∷ txt "uts" ∷ txt "userns_mode" ∷ txt "cgroup" ∷ []

abbrev pub device_keys : List Text
device_keys =
    txt "devices" ∷ txt "device_cgroup_rules" ∷ txt "gpus" ∷ txt "cap_add" ∷ txt "runtime" ∷ []

abbrev pub local_drivers : List Text
local_drivers = [] ∷ txt "json-file" ∷ txt "local" ∷ []

-- a text that Compose fills in from the environment
abbrev pub is_interpolated : Text → Bool
is_interpolated s = contains (txt "${") s

-- `repr` prints a list or a dictionary; `expand` is `Path.expanduser`
module _ (repr : Value → Text) (expand : Text → Text) (repo : Place) where
  abbrev pub folded_text : Value → Text
  folded_text v = casefold (str_of repr v)

  unfoldable pub candidate_path : Text → Text → Text
  candidate_path value base = join_path base (expand value)

  -- `_inside(path, repo)`
  unfoldable pub inside : Text → Bool
  inside path = both_below (repo.resolve repo.root) (repo.resolve path)

  abbrev pub is_outside : Text → Bool
  is_outside value = not (inside (candidate_path value repo.root))

  -- a text that is interpolated, an address, or a path that leads out of the repository
  abbrev pub is_external : Text → Bool
  is_external value = (is_interpolated value || contains (txt "://") value) || is_outside value

  unfoldable pub is_host_mode : Text → Bool
  is_host_mode value =
      (text_eq (casefold value) (txt "host") || starts_with (txt "container:") (casefold value))
      || is_interpolated value

  unfoldable pub mode_findings : Text → Fields → Text → Found
  mode_findings name service key = ok (
      flag (is_host_mode (str_of repr (value_at (str []) key service)))
        (name ++ (txt ": unsafe " ++ key)))

  unfoldable pub has_foreign_driver : Value → Bool
  has_foreign_driver (obj logging) =
      not (mem_text (folded_text (value_at (str []) (txt "driver") logging)) local_drivers)
  has_foreign_driver v = false

  unfoldable pub runtime_findings : Text → Fields → Found
  runtime_findings name service =
      ok (flag (is_true (get_or_null (txt "privileged") service)) (name ++ txt ": privileged"))
      then_find (each (mode_findings name service) host_modes
          then_find ok (
              flag (any (λ key. has key service) device_keys)
                (name ++ txt ": elevated device/capability access")
              ++ (flag (has (txt "use_api_socket") service)
                    (name ++ txt ": Docker API socket access")
                  ++ (flag (has (txt "volumes_from") service) (name ++ txt ": volumes_from")
                      ++ (flag (has (txt "provider") service)
                            (name ++ txt ": external service provider")
                          ++ (flag (has (txt "external_links") service)
                                (name ++ txt ": external_links")
                              ++ (flag (has_foreign_driver (get_or_null (txt "logging") service))
                                    (name ++ txt ": external logging driver")
                                  ++ flag (has (txt "credential_spec") service)
                                      (name ++ txt ": credential_spec"))))))))

  unfoldable pub option_findings : Text → Value → Found
  option_findings name option = ok (
      flag (contains (txt "unconfined") (folded_text option))
        (name ++ txt ": unconfined security option"))

  -- `kind == "bind"`
  abbrev pub is_bind : Value → Bool
  is_bind (str kind) = text_eq kind (txt "bind")
  is_bind v = false

  unfoldable pub bind_finding : Text → Text → Text
  bind_finding name source =
      name
      ++ (if is_outside source then txt ": external bind mount" else txt ": repository bind mount")

  unfoldable pub source_findings : Text → Value → Text → List Text
  source_findings name kind source =
      flag (is_interpolated source) (name ++ txt ": interpolated volume source")
      ++ (flag (contains (txt "docker.sock") (casefold source))
            (name ++ txt ": Docker socket mount")
          ++ flag (is_bind kind) (bind_finding name source))

  unfoldable pub volume_findings : Text → Value → Found
  volume_findings name volume =
      let (kind, source, read_only) = volume_source volume in
      ok (if truthy source then source_findings name kind (str_of repr source) else [])

  -- `build.get("context", ".") if isinstance(build, dict) else build`, as a text
  unfoldable pub context_text : Value → Text
  context_text (obj build) = str_of repr (value_at (str (txt ".")) (txt "context") build)
  context_text v = str_of repr v

  unfoldable pub is_external_context : Text → Bool
  is_external_context context =
      (is_interpolated context || contains (txt "://") context)
      || (starts_with (txt "git@") context || is_outside context)

  -- a Dockerfile's path is read from the directory of the context
  unfoldable pub is_external_file : Text → Text → Bool
  is_external_file base file =
      (is_interpolated file || contains (txt "://") file) || not (inside (candidate_path file base))

  abbrev pub unsafe_entitlements : List Text
  unsafe_entitlements = txt "network.host" ∷ txt "security.insecure" ∷ []

  -- `str(entry).split("=", 1)[-1]`
  unfoldable pub context_source : Value → Text
  context_source entry =
      let s = str_of repr entry in elim (split b'=' s) [ none ↦ s | some (a, b) ↦ b ]

  unfoldable pub additional_findings : Text → Value → Found
  additional_findings name entry =
      let source = context_source entry in
      ok (
        flag
          (not (starts_with (txt "service:") source || starts_with (txt "docker-image://") source)
            && is_external source)
          (name ++ txt ": external additional build context"))

  -- the values of a dictionary, or the elements of what is iterated
  unfoldable pub additional_sources : Value → Result Fault (List Value)
  additional_sources (obj contexts) = ok (map (λ (k, v). v) (entries contexts))
  additional_sources v = iterate v

  unfoldable pub build_dict_findings : Text → Fields → Found
  build_dict_findings name build =
      let dockerfile = get_or_null (txt "dockerfile") build in
      let base = candidate_path (context_text (obj build)) repo.root in
      ok (
        flag (truthy dockerfile && is_external_file base (str_of repr dockerfile))
          (name ++ txt ": external Dockerfile")
        ++ (flag
              (has (txt "privileged") build || (has (txt "ssh") build || has (txt "secrets") build))
              (name ++ txt ": unsafe build privilege/secret option")
            ++ (flag
                  (has (txt "tags") build
                    || (has (txt "cache_to") build || has (txt "output") build))
                  (name ++ txt ": unsafe build exporter/tag option")
                ++ flag
                    (text_eq (folded_text (value_at (str []) (txt "network") build)) (txt "host"))
                    (name ++ txt ": host build network"))))
      then_find (do
        entitlements ← iterate (get_or_null (txt "entitlements") build)
        ok (
            flag (any (λ item. mem_text (folded_text item) unsafe_entitlements) entitlements)
              (name ++ txt ": unsafe build entitlement")))
      then_find (do
        sources ← additional_sources (get_or_null (txt "additional_contexts") build)
        each (additional_findings name) sources)

  unfoldable pub dict_part : Text → Value → Found
  dict_part name (obj build) = build_dict_findings name build
  dict_part name v = ok []

  unfoldable pub build_findings : Text → Value → Found
  build_findings name build =
      let found =
        ok
          (flag (is_external_context (context_text build)) (name ++ txt ": external build context"))
        then_find dict_part name build in
      if truthy build then found else ok []

  -- `env_file`, as a list
  unfoldable pub env_files : Value → Result Fault (List Value)
  env_files (str s) = ok (if is_empty s then [] else str s ∷ [])
  env_files (obj d) = ok (if truthy (obj d) then obj d ∷ [] else [])
  env_files v = iterate v

  abbrev pub env_path : Value → Value
  env_path (obj entry) = get_or_null (txt "path") entry
  env_path v = v

  unfoldable pub env_findings : Text → Value → Found
  env_findings name entry =
      let path = env_path entry in
      ok (flag (truthy path && is_external (str_of repr path)) (name ++ txt ": external env_file"))

  unfoldable pub service_findings : Text × Value → Found
  service_findings (name, obj service) =
      runtime_findings name service
      then_find (do
        options ← iterate (get_or_null (txt "security_opt") service)
        each (option_findings name) options)
      then_find (do
        volumes ← iterate (get_or_null (txt "volumes") service)
        each (volume_findings name) volumes)
      then_find build_findings name (get_or_null (txt "build") service)
      then_find (do
        files ← env_files (get_or_null (txt "env_file") service)
        each (env_findings name) files)
  service_findings (name, v) = ok []

  abbrev pub is_mounted : Text → Bool
  is_mounted section = mem_text section (txt "configs" ∷ txt "secrets" ∷ [])

  -- what is said of the file of a resource
  unfoldable pub file_findings : Text → Text → Value → List Text
  file_findings section title source =
      let outside = is_outside (str_of repr source) in
      if truthy source
      then (if outside
          then (title ++ txt ": external file") ∷ []
          else flag (is_mounted section) (title ++ txt ": repository file mount"))
      else []

  unfoldable pub resource_findings : Text → Text × Value → Found
  resource_findings section (name, obj resource) =
      let title = section ++ (txt "." ++ name) in
      let driver = folded_text (value_at (str []) (txt "driver") resource) in
      let options = has (txt "driver_opts") resource in
      let is_volume = text_eq section (txt "volumes") in
      let is_network = text_eq section (txt "networks") in
      ok (
        flag (is_true (get_or_null (txt "external") resource)) (title ++ txt ": external resource")
        ++ (flag (is_volume && (not (mem_text driver ([] ∷ txt "local" ∷ [])) || options))
              (title ++ txt ": unsafe volume driver/options")
            ++ (flag (is_network && not (mem_text driver ([] ∷ txt "bridge" ∷ [])))
                  (title ++ txt ": unsafe network driver")
                ++ (flag (is_network && (options || has (txt "ipam") resource))
                      (title ++ txt ": unsafe network options")
                    ++ (flag (is_mounted section && not (is_empty driver))
                          (title ++ txt ": unsafe resource driver")
                        ++ file_findings section title (get_or_null (txt "file") resource))))))
  resource_findings section (name, v) = ok []

  -- `config.get(section, {}) or {}`
  unfoldable pub section_findings : Fields → Text → Found
  section_findings config section = elim (get_or_null section config) [
    | obj resources ↦ each (resource_findings section) (entries resources)
    | v ↦ ok (flag (truthy v) (txt "invalid top-level " ++ section))
  ]

  abbrev pub services_of : Fields → List (Text × Value)
  services_of config = elim (get_or_null (txt "services") config) [
    | obj services ↦ entries services
    | _ ↦ []
  ]

  abbrev pub sections : List Text
  sections = txt "volumes" ∷ txt "networks" ∷ txt "configs" ∷ txt "secrets" ∷ []

  -- the findings in the order in which they are made
  unfoldable pub all_findings : Fields → Found
  all_findings config =
      each service_findings (services_of config) then_find each (section_findings config) sections

-- `sorted(set(findings))`
unfoldable pub insert_new : Text → List Text → List Text
insert_new t [] = t ∷ []
insert_new t (u ∷ us) =
    let later = insert_new t us in
    if text_eq t u then u ∷ us else if text_le t u then t ∷ u ∷ us else u ∷ later

unfoldable pub sorted_set : List Text → List Text
sorted_set [] = []
sorted_set (t ∷ ts) = insert_new t (sorted_set ts)

unfoldable pub unsafe_compose_findings : (Value → Text) → (Text → Text) → Place → Fields → Found
unsafe_compose_findings repr expand repo config = do
  found ← all_findings repr expand repo config
  ok (sorted_set found)
