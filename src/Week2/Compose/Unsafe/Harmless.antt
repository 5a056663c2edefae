-- ===== src/Week2/Compose/Unsafe/Harmless.antt =====
-- What a harmless Compose file is: its services, their volumes and builds, and its resources.
use db_first_practice.Common.{◌≡◌, true, false, not, ◌&&◌, ◌||◌, List, [], Text, txt, text_eq, All}
use db_first_practice.Common.Results.{ok}
use db_first_practice.Json.{Value, str, obj, Fields, get_or_null, truthy, entries}
use db_first_practice.Builtins.Casefold.{casefold}
use db_first_practice.Builtins.Find.{contains, starts_with}
use db_first_practice.Findings.{str_of, iterate}
use db_first_practice.Week4.Compose.Paths.{Place}
use db_first_practice.Week2.Compose.{volume_source, is_true}
use db_first_practice.Week2.Compose.Unsafe.{
  has, value_at, host_modes, device_keys, is_host_mode, is_bind, context_text, is_external_context,
  is_external_file, context_source, additional_sources, env_files, env_path, services_of,
  is_external, candidate_path, is_interpolated,
}

module _ (repr : Value → Text) (expand : Text → Text) (repo : Place) where
  -- No mode of the service is the host's or another container's.
  pub record IsConfined (service : Fields) : Type 0 where
    pub unprivileged : is_true (get_or_null (txt "privileged") service) ≡ false
    pub modes :
        All
          (λ key.
            is_host_mode repr expand repo (str_of repr (value_at (str []) key service)) ≡ false)
          host_modes
    pub devices : All (λ key. has key service ≡ false) device_keys
    pub no_socket : has (txt "use_api_socket") service ≡ false
    pub no_volumes_from : has (txt "volumes_from") service ≡ false

  -- A volume that has a source is no bind mount, and its source is no socket of Docker.
  pub record IsNamedVolume (volume : Value) : Type 0 where
    pub literal :
        truthy (volume_source volume).1 ≡ true
        → is_interpolated (str_of repr (volume_source volume).1) ≡ false
    pub no_socket :
        truthy (volume_source volume).1 ≡ true
        → contains (txt "docker.sock") (casefold (str_of repr (volume_source volume).1)) ≡ false
    pub unbound :
        truthy (volume_source volume).1 ≡ true
        → is_bind repr expand repo (volume_source volume).0 ≡ false

  pub record IsLocalContext (build : Fields) : Type 0 where
    pub dockerfile :
        truthy (get_or_null (txt "dockerfile") build) ≡ true
        → is_external_file repr expand repo
            (candidate_path repr expand repo (context_text repr expand repo (obj build)) repo.root)
            (str_of repr (get_or_null (txt "dockerfile") build))
          ≡ false
    pub unprivileged : has (txt "privileged") build ≡ false
    pub sources : List Value
    pub listed :
        additional_sources repr expand repo (get_or_null (txt "additional_contexts") build)
        ≡ ok sources
    pub local :
        All
          (λ source.
            (not (
                starts_with (txt "service:") (context_source repr expand repo source)
                || starts_with (txt "docker-image://") (context_source repr expand repo source))
              && is_external repr expand repo (context_source repr expand repo source))
            ≡ false)
          sources

  -- A service is built from the repository, if it is built.
  pub record IsLocalBuild (build : Value) : Type 0 where
    pub context :
        truthy build ≡ true
        → is_external_context repr expand repo (context_text repr expand repo build) ≡ false
    pub dict : (d : Fields) → build ≡ obj d → truthy (obj d) ≡ true → IsLocalContext d

  pub record IsSafeService (service : Fields) : Type 0 where
    pub confined : IsConfined service
    pub volumes : List Value
    pub listed : iterate (get_or_null (txt "volumes") service) ≡ ok volumes
    pub named : All IsNamedVolume volumes
    pub build : IsLocalBuild (get_or_null (txt "build") service)
    pub files : List Value
    pub read : env_files repr expand repo (get_or_null (txt "env_file") service) ≡ ok files
    pub local :
        All
          (λ file.
            (truthy (env_path repr expand repo file)
              && is_external repr expand repo (str_of repr (env_path repr expand repo file)))
            ≡ false)
          files

  -- An entry of `services` that is a dictionary is a safe service.
  abbrev pub IsSafeEntry : Text × Value → Type 0
  IsSafeEntry (name, obj service) = IsSafeService service
  IsSafeEntry (name, v) = Unit {0}

  -- A volume, network, config or secret that is a dictionary is the file's own.
  abbrev pub IsOwn : Text → Text × Value → Type 0
  IsOwn section (name, obj resource) =
      (is_true (get_or_null (txt "external") resource) ≡ false)
      × (text_eq section (txt "volumes") ≡ true → has (txt "driver_opts") resource ≡ false)
  IsOwn section (name, v) = Unit {0}

  abbrev pub AreOwn : Text → Value → Type 0
  AreOwn section (obj resources) = All (IsOwn section) (entries resources)
  AreOwn section v = truthy v ≡ false

  pub record IsHarmless (config : Fields) : Type 0 where
    pub services : All IsSafeEntry (services_of repr expand repo config)
    pub volumes : AreOwn (txt "volumes") (get_or_null (txt "volumes") config)
    pub networks : AreOwn (txt "networks") (get_or_null (txt "networks") config)
    pub configs : AreOwn (txt "configs") (get_or_null (txt "configs") config)
    pub secrets : AreOwn (txt "secrets") (get_or_null (txt "secrets") config)
