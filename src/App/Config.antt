-- ===== src/App/Config.antt =====
-- Python/app/config.py: configuration from the environment. Seconds are kept in milliseconds.
pub mod Checks
use db_first_practice.Common.{
  ℕ, Bool, true, false, Option, none, some, if◌then◌else◌, Text, txt, text_eq, is_empty,
}
use db_first_practice.Common.Int.{ℤ, pos}
use db_first_practice.Common.Results.{Result, ok, err, ◌>>=◌, or_raise}
use db_first_practice.Json.Print.{print_int}
use db_first_practice.Builtins.{parse_int}

-- `os.environ.get`
abbrev pub Env : Type 0
Env = Text → Option Text

pub data ConfigError : Type 0 where
  missing : Text → ConfigError
  invalid_integer : Text → ConfigError

pub record PostgresConfig : Type 0 where
  pub host : Text
  pub port : ℤ
  pub database : Text
  pub user : Text
  pub password : Text
  pub appname : Text

pub record DispatcherConfig : Type 0 where
  pub pg : PostgresConfig
  pub provider_url : Text
  pub owner : Text
  pub poll_interval : ℕ
  pub provider_timeout : ℕ
  pub claim_batch : ℤ

pub record AdapterConfig : Type 0 where
  pub capability : Text
  pub token : Text
  pub hmac_secret : Text
  pub receipt_api_url : Text
  pub host : Text
  pub port : ℤ
  pub api_timeout : ℕ

pub record ReconcilerConfig : Type 0 where
  pub pg : PostgresConfig
  pub poll_interval : ℕ
  pub limit : ℤ

or_default : Option Text → Option Text → Option Text
or_default none default = default
or_default (some v) default = some v

require_value : Text → Option Text → Result ConfigError Text
require_value name none = err (missing name)
require_value name (some v) = if is_empty v then err (missing name) else ok v

unfoldable pub require : Env → Text → Option Text → Result ConfigError Text
unfolding or_default require_value
require env name default = require_value name (or_default (env name) default)

with_default : Option Text → ℤ → Text
with_default none default = print_int default
with_default (some v) default = v

unfoldable pub integer : Env → Text → ℤ → Result ConfigError ℤ
unfolding with_default
integer env name default =
    or_raise (parse_int (with_default (env name) default)) (invalid_integer name)

unfoldable pub test_profile : Env → Bool
test_profile env = elim (env (txt "COURSE_TEST_PROFILE")) [
  | none ↦ false
  | some v ↦ text_eq v (txt "1")
]

unfoldable pub postgres : Env → Text → Result ConfigError PostgresConfig
postgres env appname = do
  host ← require env (txt "PGHOST") (some (txt "postgres"))
  port ← integer env (txt "PGPORT") (pos 5432)
  database ← require env (txt "PGDATABASE") (some (txt "course"))
  user ← require env (txt "PGUSER") none
  password ← require env (txt "PGPASSWORD") none
  ok (record {
    host = host;
    port = port;
    database = database;
    user = user;
    password = password;
    appname = appname;
  })

unfoldable pub dispatcher_config : Env → Result ConfigError DispatcherConfig
dispatcher_config env = do
  let test = test_profile env
  pg ← postgres env (txt "outbox-dispatcher")
  provider_url ← require env (txt "PROVIDER_URL") none
  owner ← require env (txt "OUTBOX_OWNER") (some (txt "outbox-dispatcher"))
  claim_batch ← integer env (txt "OUTBOX_CLAIM_BATCH") (pos 5)
  ok (record {
    pg = pg;
    provider_url = provider_url;
    owner = owner;
    poll_interval = if test then 200 else 2000;
    provider_timeout = if test then 500 else 5000;
    claim_batch = claim_batch;
  })

unfoldable pub adapter_config : Env → Result ConfigError AdapterConfig
adapter_config env = do
  let test = test_profile env
  capability ← require env (txt "PROVIDER_CALLBACK_CAPABILITY") none
  token ← require env (txt "PROVIDER_CALLBACK_TOKEN") none
  hmac_secret ← require env (txt "PROVIDER_HMAC_SECRET") none
  receipt_api_url ← require env (txt "RECEIPT_API_URL") none
  host ← require env (txt "ADAPTER_HOST") (some (txt "0.0.0.0"))
  port ← integer env (txt "ADAPTER_PORT") (pos 8090)
  ok (record {
    capability = capability;
    token = token;
    hmac_secret = hmac_secret;
    receipt_api_url = receipt_api_url;
    host = host;
    port = port;
    api_timeout = if test then 500 else 5000;
  })

unfoldable pub reconciler_config : Env → Result ConfigError ReconcilerConfig
reconciler_config env = do
  let test = test_profile env
  pg ← postgres env (txt "inbox-reconciler")
  limit ← integer env (txt "INBOX_RECONCILE_LIMIT") (pos 50)
  ok (record { pg = pg; poll_interval = if test then 200 else 2000; limit = limit })
