-- ===== src/App/Dispatcher.antt =====
-- Python/app/dispatcher.py: claimed deliveries are posted to the provider, and their outcome is
-- recorded under the lease.
pub mod Classify
pub mod Retries
pub mod Provider
pub mod ReadBack
pub mod Attempt
use db_first_practice.Common.{
  ℕ, ◌+◌, zero, suc, Bool, true, false, not, ◌&&◌, ◌||◌, Option, none, some, List, [], ◌∷◌, ◌++◌,
  ◌==◌, leb, length, if◌then◌else◌, Text, txt, text_eq, is_empty,
}
use db_first_practice.Common.Int.{ℤ}
use db_first_practice.Common.Results.{Result, ok, err}
use db_first_practice.Builtins.{rstrip_char}
use db_first_practice.Json.{Value, str, obj, Fields, end, field, get, get_or_null, keys_are, str_is}
use db_first_practice.Json.Parse.Limits.{Limits, Loaded, value, malformed, interrupted, load}
use db_first_practice.Json.Print.{dumps, print_nat}
use db_first_practice.Json.Utf8.{Bytes, encode, decode}
use db_first_practice.App.Config.{Env, ConfigError, DispatcherConfig, dispatcher_config}
use db_first_practice.App.Http.{
  Headers, Request, Urlopen, Posted, answered, transport_error, uncaught, post_json,
}
use db_first_practice.App.Worker.{
  Row, Services, Event, attempt_retryable, attempt_delivered, attempt_failed, dispatcher_db_error,
  dispatcher_connection_error, dispatcher_started, Effect, claimed, posted, succeeded, failed,
  Failure, crash, connect_to, sleep, State, Exec, pure, raise, print, db_call, ◌>>=◌, ◌>>◌,
  except_db,
}

abbrev pub provider_fields : Text → Text → Text → Fields
provider_fields external_request_id amount currency =
    field (txt "operationId") (str external_request_id)
      (field (txt "amount") (str amount) (field (txt "currency") (str currency) end))

-- `none` is UnicodeEncodeError
unfoldable pub provider_body : Text → Text → Text → Option Bytes
provider_body external_request_id amount currency =
    encode (dumps (obj (provider_fields external_request_id amount currency)))

unfoldable pub provider_headers : Text → Text → Headers
provider_headers external_request_id correlation_id =
    (txt "Content-Type", txt "application/json")
    ∷ (txt "Idempotency-Key", external_request_id)
    ∷ (txt "X-Correlation-ID", correlation_id)
    ∷ []

unfoldable pub build_provider_request : Text → Text → Text → Text → Option (Bytes × Headers)
build_provider_request external_request_id correlation_id amount currency =
    elim (provider_body external_request_id amount currency) [
      | none ↦ none
      | some body ↦ some (body, provider_headers external_request_id correlation_id)
    ]

-- what `classify_response` returns: the error code, or the provider's payment
pub data Verdict : Type 0 where
  accepted : Text → Verdict
  rejected : Text → Verdict

abbrev pub invalid_response : Verdict
invalid_response = rejected (txt "response.invalid.terminal")

-- `isinstance(payment, str)` and not empty
unfoldable pub payment_verdict : Value → Verdict
payment_verdict (str s) = if is_empty s then invalid_response else accepted s
payment_verdict _ = invalid_response

-- the tests of a 202 body, in order
unfoldable pub accepted_payload : Value → Verdict
accepted_payload (obj d) =
    if not (keys_are (txt "providerPaymentId" ∷ txt "status" ∷ []) d)
      || not (str_is (txt "ACCEPTED") (get_or_null (txt "status") d))
    then invalid_response
    else payment_verdict (get_or_null (txt "providerPaymentId") d)
accepted_payload _ = invalid_response

-- `none` is an exception that is not caught: ValueError of a number that is too long, or RecursionError
unfoldable pub parsed_payload : Loaded → Option Verdict
parsed_payload malformed = some invalid_response
parsed_payload interrupted = none
parsed_payload (value payload) = some (accepted_payload payload)

unfoldable pub decoded_payload : Limits → Option Text → Option Verdict
decoded_payload limits none = some invalid_response
decoded_payload limits (some text) = parsed_payload (load limits text)

unfoldable pub http_code : ℕ → Text → Text
http_code status suffix = txt "http." ++ (print_nat status ++ suffix)

unfoldable pub is_retryable : ℕ → Bool
is_retryable status = (status == 408 || status == 429) || (leb 500 status && leb status 599)

unfoldable pub classify_response : Limits → ℕ → Bytes → Option Verdict
classify_response limits status body =
    let code =
      http_code status (if is_retryable status then txt ".retryable" else txt ".terminal") in
    if status == 202 then decoded_payload limits (decode body) else some (rejected code)

module _ {W : Type 0} (services : Services W) (cfg : DispatcherConfig) where
  -- psycopg encodes the payment, and what that raises is no psycopg.Error
  unfoldable pub succeed : Text → ℤ → Text → Exec W (Unit {0})
  succeed outbox_id lease_version payment_id = elim (encode payment_id) [
    | none ↦ raise (crash (txt "UnicodeEncodeError"))
    | some bytes ↦
        db_call (succeeded outbox_id cfg.owner lease_version payment_id)
          (services.succeed_outbox outbox_id cfg.owner lease_version payment_id)
  ]

  unfoldable pub fail : Text → ℤ → Text → Exec W (Unit {0})
  fail outbox_id lease_version error_code =
      db_call (failed outbox_id cfg.owner lease_version error_code)
        (services.fail_outbox outbox_id cfg.owner lease_version error_code)

  abbrev pub provider_request : Bytes → Headers → Request
  provider_request body headers = record {
    url = rstrip_char b'/' cfg.provider_url ++ txt "/payments";
    payload = body;
    headers = headers;
    timeout = cfg.provider_timeout;
  }

  -- `post_json` to the provider; the answer is a value, since the caller handles `HttpError`
  unfoldable pub post : Bytes → Headers → Exec W Posted
  post body headers s =
      let request = provider_request body headers in
      let (answer, w) = services.urlopen request s.world in
      (
        ok (post_json (λ _. answer) request),
        record { world = w; log = s.log ++ posted request ∷ [] },
      )

  unfoldable pub settle : Row → ℕ → Verdict → Exec W (Unit {0})
  settle row status (accepted payment_id) = do
    succeed row.outbox_id row.lease_version payment_id
    print (attempt_delivered status)
  settle row status (rejected error_code) = do
    fail row.outbox_id row.lease_version error_code
    print (attempt_failed error_code status)

  unfoldable pub settle_classified : Row → ℕ → Option Verdict → Exec W (Unit {0})
  settle_classified row status none = raise (crash (txt "ValueError or RecursionError"))
  settle_classified row status (some verdict) = settle row status verdict

  -- what `_attempt` does with the provider's answer
  unfoldable pub conclude : Row → Posted → Exec W (Unit {0})
  conclude row (answered status body headers) =
      settle_classified row status (classify_response services.limits status body)
  conclude row (transport_error reason) = do
    fail row.outbox_id row.lease_version (txt "transport.error.retryable")
    print (attempt_retryable (txt "transport.error.retryable"))
  conclude row (uncaught reason) = raise (crash reason)

  unfoldable pub attempt_with : Row → Option (Bytes × Headers) → Exec W (Unit {0})
  attempt_with row none = raise (crash (txt "UnicodeEncodeError"))
  attempt_with row (some (body, headers)) = do answer ← post body headers; conclude row answer

  unfoldable pub attempt : Row → Exec W (Unit {0})
  attempt row =
      attempt_with row
        (build_provider_request row.external_request_id row.correlation_id row.amount row.currency)

  -- the loop over the claimed rows: a database error ends only its own row
  unfoldable pub attempt_all : List Row → Exec W (Unit {0})
  attempt_all [] = pure tt
  attempt_all (row ∷ rows) = do
    except_db (attempt row) (λ e. print (dispatcher_db_error e))
    attempt_all rows

  unfoldable pub claim : Exec W (List Row)
  claim =
      db_call (claimed cfg.owner cfg.claim_batch) (services.claim_outbox cfg.owner cfg.claim_batch)

  unfoldable pub run_once : Exec W ℕ
  run_once = do rows ← claim; attempt_all rows; pure (length rows)

  -- one round of the loop in `main`
  unfoldable pub round : Exec W (Unit {0})
  round = do
    except_db (do connect_to services cfg.pg; run_once; pure tt)
        (λ e. print (dispatcher_connection_error e))
    sleep cfg.poll_interval

  -- `main`'s loop, for a number of rounds
  unfoldable pub rounds : ℕ → Exec W (Unit {0})
  rounds zero = pure tt
  rounds (suc n) = do round; rounds n

-- `main`, for a number of rounds; an error of the configuration ends it before anything is done
unfoldable pub main : {W : Type 0} → Services W → Env → ℕ → Result ConfigError (Exec W (Unit {0}))
main services env n = elim (dispatcher_config env) [
  | err e ↦ err e
  | ok cfg ↦ ok (do print (dispatcher_started cfg.owner); rounds services cfg n)
]
