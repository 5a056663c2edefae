-- ===== src/App/Adapter.antt =====
-- Python/app/adapter.py: the handler of the provider's callbacks. The network and HMAC-SHA256 are
-- parameters. An outcome has the response that was sent, none where an exception ends the handler,
-- and the request that `urlopen` is called with.
pub mod Read
pub mod Forward
use db_first_practice.Common.{
  ℕ, ◌+◌, ◌*◌, Bool, true, false, not, ◌||◌, Option, none, some, List, [], ◌∷◌, ◌++◌, ltb, Text,
  txt, text_eq, is_empty, length, take,
}
use db_first_practice.Common.Int.{ℤ, pos, pos_part, int_lt}
use db_first_practice.Common.Results.{Result, ok, err, ◌>>=◌, ◌>>◌, raise_if, or_raise}
use db_first_practice.Builtins.{parse_int, before}
use db_first_practice.Json.{Value, str, obj, Fields, end, field, get_or_null, is_dict}
use db_first_practice.Json.Parse.Limits.{Limits, Loaded, value, malformed, interrupted, load}
use db_first_practice.Json.Print.{dumps}
use db_first_practice.Json.Utf8.{Bytes, encode, decode}
use db_first_practice.App.Config.{AdapterConfig}
use db_first_practice.App.Http.{
  Headers, Request, Urlopen, Posted, answered, transport_error, uncaught, post_json, header,
}
use db_first_practice.App.Receipt.{ReceiptError, normalize_receipt, canonical_bytes, sign}

-- what the handler reads: `self.path`, one header, and the bytes that the client has sent
pub record Incoming : Type 0 where
  pub path : Text
  pub content_length : Option Text
  pub stream : Bytes

pub record Response : Type 0 where
  pub status : ℕ
  pub content_type : Option Text
  pub content_length : ℕ
  pub body : Bytes

pub record Outcome : Type 0 where
  pub sent : Option Response
  pub asked : Option Request

abbrev pub max_body_bytes : ℕ
max_body_bytes = 64 * 1024

unfoldable pub send_empty : ℕ → Response
send_empty status = record { status = status; content_type = none; content_length = 0; body = [] }

-- `none` if the text cannot be encoded
unfoldable pub send_json : ℕ → Fields → Option Response
send_json status payload = elim (encode (dumps (obj payload))) [
  | none ↦ none
  | some body ↦ some (record {
    status = status;
    content_type = some (txt "application/json");
    content_length = length body;
    body = body;
  })
]

-- `if content_type:`
abbrev pub nonempty : Option Text → Option Text
nonempty none = none
nonempty (some s) = elim (is_empty s) [ true ↦ none | false ↦ some s ]

unfoldable pub send_raw : ℕ → Bytes → Option Text → Response
send_raw status body content_type = record {
  status = status;
  content_type = nonempty content_type;
  content_length = length body;
  body = body;
}

-- `int(headers.get("Content-Length", "0") or 0)`
unfoldable pub declared_length : Option Text → Option ℤ
declared_length none = parse_int (txt "0")
declared_length (some s) = elim (is_empty s) [ true ↦ some (pos 0) | false ↦ parse_int s ]

abbrev pub bad_length : ℤ → Bool
bad_length n = not (int_lt (pos 0) n) || int_lt (pos max_body_bytes) n

-- why there is no receipt: an early return with a status, or an exception that nothing catches
pub data Stop : Type 0 where
  refused : ℕ → Stop
  uncaught_error : Stop

abbrev pub or_status : Result ReceiptError Fields → Result Stop Fields
or_status (ok r) = ok r
or_status (err e) = err (refused 400)

-- `except json.JSONDecodeError`: another ValueError and RecursionError go on
abbrev pub or_stop : Loaded → Result Stop Value
or_stop (value v) = ok v
or_stop malformed = err (refused 400)
or_stop interrupted = err uncaught_error

unfoldable pub expected_path : AdapterConfig → Text
expected_path cfg = txt "/callbacks/provider-v02/" ++ cfg.capability

-- `do_post` up to the receipt: the early returns answer with an empty response of this status
unfoldable pub read_receipt : Limits → AdapterConfig → Incoming → Result Stop Fields
read_receipt limits cfg incoming = do
  raise_if (not (text_eq (before b'?' incoming.path) (expected_path cfg))) (refused 404)
  n ← or_raise (declared_length incoming.content_length) (refused 400)
  raise_if (bad_length n) (refused 400)
  text ← or_raise (decode (take (pos_part n) incoming.stream)) (refused 400)
  legacy ← or_stop (load limits text)
  raise_if (not (is_dict legacy)) (refused 400)
  or_status (normalize_receipt legacy)

-- a text field, which the receipt's values are
abbrev pub text_of : Value → Text
text_of (str s) = s
text_of v = []

abbrev pub unavailable : Fields
unavailable =
    field (txt "status") (str (txt "error"))
      (field (txt "code") (str (txt "dependency.unavailable")) end)

unfoldable pub api_headers : AdapterConfig → Fields → Text → Headers
api_headers cfg receipt signature =
    (txt "Authorization", txt "Bearer " ++ cfg.token)
    ∷ (txt "Content-Type", txt "application/json")
    ∷ (txt "Idempotency-Key", text_of (get_or_null (txt "messageId") receipt))
    ∷ (txt "X-Action-Version", txt "1")
    ∷ (txt "X-Provider-Signature", signature)
    ∷ []

abbrev pub signed_request : AdapterConfig → Fields → Bytes → Text → Request
signed_request cfg receipt body signature = record {
  url = cfg.receipt_api_url;
  payload = body;
  headers = api_headers cfg receipt signature;
  timeout = cfg.api_timeout;
}

-- the request to the API; `none` where the receipt or the secret cannot be encoded
unfoldable pub api_request : (Bytes → Bytes → Text) → AdapterConfig → Fields → Option Request
api_request hmac_hex cfg receipt = elim (canonical_bytes receipt) [
  | none ↦ none
  | some body ↦ elim (sign hmac_hex cfg.hmac_secret body) [
    | none ↦ none
    | some signature ↦ some (signed_request cfg receipt body signature)
  ]
]

-- what the client gets for the API's answer
unfoldable pub relay : Posted → Option Response
relay (answered status body headers) =
    some (send_raw status body (header (txt "Content-Type") headers))
relay (transport_error reason) = send_json 503 unavailable
relay (uncaught reason) = none

forward : (Request → Urlopen) → Option Request → Outcome
forward network none = record { sent = none; asked = none }
forward network (some request) = record {
  sent = relay (post_json network request);
  asked = some request;
}

unfoldable pub do_post :
    Limits → (Request → Urlopen) → (Bytes → Bytes → Text) → AdapterConfig → Incoming → Outcome
unfolding forward
do_post limits network hmac_hex cfg incoming = elim (read_receipt limits cfg incoming) [
  | err (refused status) ↦ record { sent = some (send_empty status); asked = none }
  | err uncaught_error ↦ record { sent = none; asked = none }
  | ok receipt ↦ forward network (api_request hmac_hex cfg receipt)
]
