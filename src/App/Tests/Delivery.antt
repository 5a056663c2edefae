-- ===== src/App/Tests/Delivery.antt =====
-- The dispatcher at one delivery, which the provider accepts.
use db_first_practice.Common.{
  Option, Text, is_some, ◌∙◌, text_eq, ℕ, List, sym, ap, some_injective, subst, true, ◌+◌, ◌≡◌, ◌↔◌,
  refl, none, some, [], ◌∷◌, ◌++◌, length, txt, All,
}
use db_first_practice.Common.Int.{pos}
use db_first_practice.Common.Results.{ok, err}
use db_first_practice.Json.Print.{dumps, print_nat}
use db_first_practice.Json.Utf8.{Bytes, encode, encode_char, decode}
use db_first_practice.App.Config.{PostgresConfig, DispatcherConfig}
use db_first_practice.App.Http.{response, Posted, answered, post_json}
use db_first_practice.App.Worker.{Row, Services, State, Effect}
use db_first_practice.App.Dispatcher.{
  Verdict, decoded_payload, parsed_payload, accepted_payload, payment_verdict, accepted, rejected,
  provider_fields, provider_body, http_code, build_provider_request, is_retryable,
  classify_response, run_once,
}
use db_first_practice.App.Dispatcher.Classify.{IsAcceptance, IsReadable, classify_response-accepted}
use db_first_practice.App.Dispatcher.Retries.{IsTransient, classify_response-retryable}
use db_first_practice.Builtins.Find.{ends_with}
use db_first_practice.Json.{obj, keys_are, get, str_is}
use db_first_practice.Json.Parse.{loads}
use db_first_practice.Json.Parse.Limits.{
  Limits, load, interrupts, overruns, breaks_at, breaks_at_end, is_too_long, is_integer,
}
use db_first_practice.Json.Parse.ReadBack.{read_json}
use db_first_practice.App.Dispatcher.ReadBack.{read_json-provider_body}
use db_first_practice.App.Dispatcher.Attempt.{
  finishes, AllFinished, IsPayable, Answers, Encodes, run_once-finishes,
}

abbrev pg : PostgresConfig
pg = record {
  host = txt "postgres";
  port = pos 5432;
  database = txt "practice";
  user = txt "outbox_dispatcher";
  password = txt "secret";
  appname = txt "outbox";
}

abbrev pub cfg : DispatcherConfig
cfg = record {
  pg = pg;
  provider_url = txt "http://provider/";
  owner = txt "outbox-dispatcher";
  poll_interval = 200;
  provider_timeout = 2000;
  claim_batch = pos 10;
}

abbrev row : Row
row = record {
  outbox_id = txt "o-1";
  lease_version = pos 3;
  external_request_id = txt "op-7";
  correlation_id = txt "c-1";
  amount = txt "10.00";
  currency = txt "RUB";
}

abbrev pub acceptance : Bytes
acceptance = txt "{\"providerPaymentId\":\"pay-1\",\"status\":\"ACCEPTED\"}"

-- the body of an answer
abbrev body_of : Posted → Bytes
body_of (answered status body headers) = body
body_of p = acceptance

-- the default limits of the interpreter
abbrev limits : Limits
limits = record { digits = 4300; depth = 990 }

-- a database that hands out the row, cannot record a success, and a provider that accepts
abbrev services : Services ℕ
services = record {
  connect = λ c w. (ok tt, w);
  claim_outbox = λ owner n w. (ok (row ∷ []), w + 1);
  succeed_outbox = λ id owner lease payment w. (err (txt "connection lost"), w + 1);
  fail_outbox = λ id owner lease code w. (ok tt, w + 1);
  reconcile_inbox = λ n w. (ok none, w);
  urlopen = λ request w. (response 202 acceptance [], w + 1);
  limits = limits;
}

abbrev start : State ℕ
start = record { world = 0; log = [] }

acceptance-IsReadable : IsReadable limits acceptance
unfolding txt decode interrupts overruns breaks_at breaks_at_end is_too_long is_integer loads
acceptance-IsReadable t e = ap (interrupts limits) (sym (some_injective e))

acceptance_classified : classify_response limits 202 acceptance ≡ some (accepted (txt "pay-1"))
unfolding txt classify_response decoded_payload parsed_payload load accepted_payload payment_verdict
    keys_are get text_eq str_is decode interrupts overruns breaks_at breaks_at_end is_too_long
    is_integer loads
acceptance_classified = refl

-- the status and the payment of an answer and of a verdict
abbrev status_of : Posted → ℕ
status_of (answered status body headers) = status
status_of p = 0

abbrev payment_of : Option Verdict → Text
payment_of (some (accepted p)) = p
payment_of v = []

acceptance-IsPayable :
    (a : Posted) → answered 202 acceptance [] ≡ a → IsPayable limits (status_of a) (body_of a)
unfolding txt encode encode_char
acceptance-IsPayable a h p c =
    let named : txt "pay-1" ≡ p = ap payment_of (
      sym acceptance_classified
      ∙ ap (λ x. classify_response limits (status_of x) (body_of x)) h
      ∙ c) in
    subst (λ t. is_some (encode t) ≡ true) named refl

services-Answers : Answers services cfg
unfolding post_json
services-Answers = record {
  never = λ body headers sendable w t h. cc;
  readable = λ q w status body headers h. (
    subst (IsReadable limits) (ap body_of h) acceptance-IsReadable,
    acceptance-IsPayable (answered status body headers) h,
  );
}

row-Encodes : All Encodes (row ∷ [])
unfolding txt build_provider_request provider_body encode encode_char dumps
row-Encodes = (record { encoded = refl; key = refl; correlation = refl }, tt)

run_once-finishes_example :
    (es : List Effect) × AllFinished services cfg (row ∷ []) es
    × ((run_once services cfg start).0 ≡ ok (length (row ∷ [])))
    × (finishes (run_once services cfg start).1.log ≡ finishes start.log ++ es)
run_once-finishes_example =
    run_once-finishes services cfg services-Answers start (row ∷ []) refl row-Encodes

classify_response-accepted_example :
    (classify_response limits 202 acceptance ≡ some (accepted (txt "pay-1")))
    ↔ (◌≡◌ {A = ℕ} 202 202 × IsAcceptance limits acceptance (txt "pay-1"))
classify_response-accepted_example = classify_response-accepted limits 202 acceptance (txt "pay-1")

unavailable_code : classify_response limits 503 [] ≡ some (rejected (txt "http.503.retryable"))
unfolding classify_response txt is_retryable http_code print_nat
unavailable_code = refl

classify_response-retryable_example :
    (ends_with (txt ".retryable") (txt "http.503.retryable") ≡ true) ↔ IsTransient 503
classify_response-retryable_example = classify_response-retryable limits 503 [] unavailable_code

abbrev delivery : Bytes
delivery = txt "{\"operationId\":\"op-7\",\"amount\":\"10.00\",\"currency\":\"RUB\"}"

delivery_encodes : provider_body (txt "op-7") (txt "10.00") (txt "RUB") ≡ some delivery
unfolding txt provider_body encode encode_char dumps
delivery_encodes = refl

read_json-provider_body_example :
    read_json delivery ≡ some (obj (provider_fields (txt "op-7") (txt "10.00") (txt "RUB")))
read_json-provider_body_example =
    read_json-provider_body (txt "op-7") (txt "10.00") (txt "RUB") delivery_encodes
