-- ===== src/App/Worker.antt =====
-- What the workers of Python/app share: calls that change the world outside (the database, the
-- network), what is printed, and the exceptions that end a call. What was done before an exception
-- stays done.
use db_first_practice.Common.{ℕ, Option, List, [], ◌∷◌, ◌++◌, Text}
use db_first_practice.Common.Int.{ℤ}
use db_first_practice.Common.Results.{Result, ok, err}
use db_first_practice.Json.Parse.Limits.{Limits}
use db_first_practice.App.Config.{PostgresConfig}
use db_first_practice.App.Http.{Request, Urlopen}

-- a row that `delivery.claim_outbox` returns
pub record Row : Type 0 where
  pub outbox_id : Text
  pub lease_version : ℤ
  pub external_request_id : Text
  pub correlation_id : Text
  pub amount : Text
  pub currency : Text

-- The database functions and the network, over the state of the world, and the interpreter's limits. An
-- error is the text of a `psycopg.Error`.
pub record Services (W : Type 0) : Type 0 where
  pub connect : PostgresConfig → W → Result Text (Unit {0}) × W
  pub claim_outbox : Text → ℤ → W → Result Text (List Row) × W
  pub succeed_outbox : Text → Text → ℤ → Text → W → Result Text (Unit {0}) × W
  pub fail_outbox : Text → Text → ℤ → Text → W → Result Text (Unit {0}) × W
  pub reconcile_inbox : ℤ → W → Result Text (Option ℤ) × W
  pub urlopen : Request → W → Urlopen × W
  pub limits : Limits

-- one line of the worker's log, without its time
pub data Event : Type 0 where
  dispatcher_started : Text → Event
  attempt_retryable : Text → Event
  attempt_delivered : ℕ → Event
  attempt_failed : Text → ℕ → Event
  dispatcher_db_error : Text → Event
  dispatcher_connection_error : Text → Event
  reconciler_started : Event
  reconciler_applied : ℤ → Event
  reconciler_connection_error : Text → Event

-- what a worker has done, in order
pub data Effect : Type 0 where
  claimed : Text → ℤ → Effect
  posted : Request → Effect
  succeeded : Text → Text → ℤ → Text → Effect
  failed : Text → Text → ℤ → Text → Effect
  reconciled : ℤ → Effect
  printed : Event → Effect
  slept : ℕ → Effect

pub data Failure : Type 0 where
  db_error : Text → Failure
  crash : Text → Failure

pub record State (W : Type 0) : Type 0 where
  pub world : W
  pub log : List Effect

abbrev pub Exec : Type 0 → Type 0 → Type 0
Exec W A = State W → Result Failure A × State W

abbrev pub db_result : {A : Type 0} → Result Text A → Result Failure A
db_result (ok a) = ok a
db_result (err e) = err (db_error e)

module _ {W : Type 0} where
  abbrev pub pure : {A : Type 0} → A → Exec W A
  pure a s = (ok a, s)

  abbrev pub raise : {A : Type 0} → Failure → Exec W A
  raise e s = (err e, s)

  abbrev pub note : Effect → State W → State W
  note e s = record s { log = s.log ++ e ∷ [] }

  abbrev pub print : Event → Exec W (Unit {0})
  print e s = (ok tt, note (printed e) s)

  -- a call of the database, which is noted before its result is known
  abbrev pub db_call : {A : Type 0} → Effect → (W → Result Text A × W) → Exec W A
  db_call e call s =
      let (r, w) = call s.world in (db_result r, record { world = w; log = s.log ++ e ∷ [] })

  -- `with connect(cfg.pg)`
  abbrev pub connect_to : Services W → PostgresConfig → Exec W (Unit {0})
  connect_to services pg s =
      let (r, w) = services.connect pg s.world in (db_result r, record s { world = w })

  -- `time.sleep`, in milliseconds
  abbrev pub sleep : ℕ → Exec W (Unit {0})
  sleep ms s = (ok tt, note (slept ms) s)

  abbrev pub continue : {A B : Type 0} → Result Failure A → (A → Exec W B) → Exec W B
  continue (ok a) f s = f a s
  continue (err e) f s = (err e, s)

  infixl 5 ◌>>=◌ ◌>>◌
  abbrev pub ◌>>=◌ : {A B : Type 0} → Exec W A → (A → Exec W B) → Exec W B
  ◌>>=◌ m f s = let (r, s') = m s in continue r f s'

  abbrev pub ◌>>◌ : {A B : Type 0} → Exec W A → Exec W B → Exec W B
  m >> k = m >>= λ _. k

  -- `except psycopg.Error as error`: other exceptions go on
  abbrev pub recover : {A : Type 0} → Result Failure A → (Text → Exec W A) → Exec W A
  recover (ok a) handler s = (ok a, s)
  recover (err (db_error e)) handler s = handler e s
  recover (err (crash e)) handler s = (err (crash e), s)

  abbrev pub except_db : {A : Type 0} → Exec W A → (Text → Exec W A) → Exec W A
  except_db m handler s = let (r, s') = m s in recover r handler s'
