-- ===== src/App/Tests/Settings.antt =====
-- The configuration of each service in one environment.
use db_first_practice.Common.{◌≡◌, none, some, txt, text_eq, if◌then◌else◌}
use db_first_practice.Common.Results.{error_of}
use db_first_practice.App.Config.{Env, dispatcher_config, adapter_config}
use db_first_practice.App.Config.Checks.{
  first_problem, dispatcher_checks, adapter_checks, dispatcher_config-first_problem,
  adapter_config-first_problem,
}

-- the passwords are not set
abbrev env : Env
env name = if text_eq name (txt "DB_PORT") then some (txt "5432") else none

dispatcher_config-first_problem_example :
    error_of (dispatcher_config env) ≡ first_problem env dispatcher_checks
dispatcher_config-first_problem_example = dispatcher_config-first_problem env

adapter_config-first_problem_example :
    error_of (adapter_config env) ≡ first_problem env adapter_checks
adapter_config-first_problem_example = adapter_config-first_problem env
