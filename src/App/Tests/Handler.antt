-- ===== src/App/Tests/Handler.antt =====
-- The receipt adapter's handler at one request.
use db_first_practice.Common.{
  ◌≡◌, refl, false, ◌&&◌, none, some, [], ◌∷◌, arith, Text, txt, text_eq, all, if◌then◌else◌,
}
use db_first_practice.Common.Int.{pos}
use db_first_practice.Builtins.{before, parse_int}
use db_first_practice.Json.{str, Fields, end, field, get, keys_are}
use db_first_practice.Json.Parse.{loads}
use db_first_practice.Json.Parse.Limits.{
  Limits, interrupts, overruns, breaks_at, breaks_at_end, is_too_long, is_integer,
}
use db_first_practice.Json.Utf8.{Bytes, encode, decode, is_scalar}
use db_first_practice.App.Config.{AdapterConfig}
use db_first_practice.App.Http.{Request, Urlopen, response, post_json}
use db_first_practice.App.Receipt.{sign}
use db_first_practice.App.Receipt.Accept.{Legacy, receipt_of}
use db_first_practice.App.Adapter.{
  Incoming, declared_length, expected_path, relay, signed_request, do_post, send_empty,
}
use db_first_practice.App.Adapter.Read.{IsCallback, IsInterrupted}
use db_first_practice.App.Adapter.Forward.{
  IsSigned, do_post-interrupted, do_post-forwards, do_post-posts, do_post-refuses,
  do_post-surrogate,
}
use db_first_practice.App.Tests.Callback.{
  body, body_encodes, callback, legacy, callback-Carries, legacy-IsAdmitted,
}

abbrev pub cfg : AdapterConfig
cfg = record {
  capability = txt "cap";
  token = txt "token";
  hmac_secret = txt "key";
  receipt_api_url = txt "http://api/receipts";
  host = txt "0.0.0.0";
  port = pos 8082;
  api_timeout = 5000;
}

-- limits as the interpreter's, but lower
abbrev limits : Limits
limits = record { digits = 6; depth = 4 }

abbrev hmac_hex : Bytes → Bytes → Text
hmac_hex key message = txt "00ff"

abbrev network : Request → Urlopen
network request = response 200 [] []

abbrev document : Text
document =
    txt
      "{\"operationId\":\"op-7\",\"providerPaymentId\":\"pay-1\",\"result\":\"COMPLETED\",\"message\":\"done\",\"occurredAt\":\"2026-01-31T10:20:30.5Z\"}"

-- the text is ASCII, so its bytes are its code points
abbrev incoming : Incoming
incoming = record {
  path = txt "/callbacks/provider-v02/cap?retry=1";
  content_length = some (txt "126");
  stream = document;
}

incoming-IsCallback : IsCallback limits cfg incoming legacy
unfolding txt before expected_path declared_length parse_int decode loads interrupts overruns
    breaks_at breaks_at_end is_too_long is_integer
incoming-IsCallback = record {
  path = refl;
  size = 126;
  declared = refl;
  positive = omega arith;
  bounded = omega arith;
  text = document;
  decoded = refl;
  finished = refl;
  fields = callback;
  parsed = refl;
  carries = callback-Carries;
  valid = legacy-IsAdmitted;
}

body_signed : sign hmac_hex (cfg.hmac_secret) body ≡ some (txt "v1=00ff")
unfolding txt sign encode
body_signed = refl

incoming_asked :
    (do_post limits network hmac_hex cfg incoming).asked
    ≡ some (signed_request cfg (receipt_of legacy) body (txt "v1=00ff"))
incoming_asked =
    (do_post-posts limits network hmac_hex cfg incoming legacy incoming-IsCallback body_encodes
      body_signed).0

do_post-forwards_example :
    (l : Legacy) × IsCallback limits cfg incoming l
    × IsSigned hmac_hex cfg l (signed_request cfg (receipt_of legacy) body (txt "v1=00ff"))
    × ((do_post limits network hmac_hex cfg incoming).sent
        ≡ relay (post_json network (signed_request cfg (receipt_of legacy) body (txt "v1=00ff"))))
do_post-forwards_example = do_post-forwards limits network hmac_hex cfg incoming incoming_asked

abbrev elsewhere : Incoming
elsewhere = record { path = txt "/health"; content_length = none; stream = [] }

elsewhere-refused : (l : Legacy) → ¬ (IsCallback limits cfg elsewhere l)
unfolding txt before expected_path
elsewhere-refused l h = cc (h.path)

elsewhere_fine : ¬ (IsInterrupted limits cfg elsewhere)
unfolding txt before expected_path
elsewhere_fine h = cc (h.path)

do_post-refuses_example : do_post limits network hmac_hex cfg elsewhere ≡ record {
  sent =
      some (
        send_empty (if text_eq (before b'?' elsewhere.path) (expected_path cfg) then 400 else 404));
  asked = none;
}
do_post-refuses_example =
    do_post-refuses limits network hmac_hex cfg elsewhere elsewhere-refused elsewhere_fine

-- the callback of an operation whose name is a lone surrogate
abbrev lone_fields : Fields
lone_fields = field (txt "operationId") (str (0xD800 ∷ [])) (
    field (txt "providerPaymentId") (str (txt "pay-1")) (
      field (txt "result") (str (txt "COMPLETED")) (
        field (txt "message") (str (txt "done"))
          (field (txt "occurredAt") (str (txt "2026-01-31T10:20:30.5Z")) end))))

abbrev lone : Legacy
lone = record legacy { operation_id = 0xD800 ∷ [] }

abbrev lone_document : Text
lone_document =
    txt
      "{\"operationId\":\"\\ud800\",\"providerPaymentId\":\"pay-1\",\"result\":\"COMPLETED\",\"message\":\"done\",\"occurredAt\":\"2026-01-31T10:20:30.5Z\"}"

abbrev lone_incoming : Incoming
lone_incoming = record {
  path = txt "/callbacks/provider-v02/cap";
  content_length = some (txt "200");
  stream = lone_document;
}

lone-IsCallback : IsCallback limits cfg lone_incoming lone
unfolding txt before expected_path declared_length parse_int decode loads interrupts overruns
    breaks_at breaks_at_end is_too_long is_integer get text_eq keys_are
lone-IsCallback = record {
  path = refl;
  size = 200;
  declared = refl;
  positive = omega arith;
  bounded = omega arith;
  text = lone_document;
  decoded = refl;
  finished = refl;
  fields = lone_fields;
  parsed = refl;
  carries = record {
    fields = refl;
    payment_id = refl;
    operation_id = refl;
    result = refl;
    message = refl;
    occurred_at = refl;
  };
  valid = record {
    payment = legacy-IsAdmitted.payment;
    operation = record { long = omega arith; short = omega arith; one_line = refl };
    occurred = legacy-IsAdmitted.occurred;
    time = legacy-IsAdmitted.time;
    outcome = legacy-IsAdmitted.outcome;
    note = legacy-IsAdmitted.note;
  };
}

lone_surrogate : (all is_scalar lone.operation_id && all is_scalar lone.payment_id) ≡ false
lone_surrogate = refl

do_post-surrogate_example :
    do_post limits network hmac_hex cfg lone_incoming ≡ record { sent = none; asked = none }
do_post-surrogate_example =
    do_post-surrogate limits network hmac_hex cfg lone_incoming lone lone-IsCallback lone_surrogate

-- a body with an integer of seven digits
abbrev long_incoming : Incoming
long_incoming = record {
  path = txt "/callbacks/provider-v02/cap";
  content_length = some (txt "9");
  stream = txt "[1234567]";
}

long-IsInterrupted : IsInterrupted limits cfg long_incoming
unfolding txt before expected_path declared_length parse_int decode loads interrupts overruns
    breaks_at breaks_at_end is_too_long is_integer
long-IsInterrupted = record {
  path = refl;
  size = 9;
  declared = refl;
  positive = omega arith;
  bounded = omega arith;
  text = txt "[1234567]";
  decoded = refl;
  passed = refl;
}

do_post-interrupted_example :
    do_post limits network hmac_hex cfg long_incoming ≡ record { sent = none; asked = none }
do_post-interrupted_example =
    do_post-interrupted limits network hmac_hex cfg long_incoming long-IsInterrupted
