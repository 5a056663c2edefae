-- ===== src/App/Http.antt =====
-- Python/app/http_client.py. What `urllib.request.urlopen` does with a request is a parameter.
use db_first_practice.Common.{ℕ, Option, none, some, List, [], ◌∷◌, if◌then◌else◌, Text, text_eq}
use db_first_practice.Json.Utf8.{Bytes}

abbrev pub Headers : Type 0
Headers = List (Text × Text)

-- a timeout is in milliseconds
pub record Request : Type 0 where
  pub url : Text
  pub payload : Bytes
  pub headers : Headers
  pub timeout : ℕ

-- `urlopen` returns a response, raises `HTTPError` for an error status, raises one of `URLError`,
-- a timeout and `OSError`, or raises something else, such as for a header that it cannot encode.
pub data Urlopen : Type 0 where
  response : ℕ → Bytes → Headers → Urlopen
  http_error : ℕ → Bytes → Headers → Urlopen
  unreachable : Text → Urlopen
  raises : Text → Urlopen

-- What `post_json` does: it returns, raises `HttpError`, or lets another exception through.
pub data Posted : Type 0 where
  answered : ℕ → Bytes → Headers → Posted
  transport_error : Text → Posted
  uncaught : Text → Posted

unfoldable pub post_json : (Request → Urlopen) → Request → Posted
post_json network request = elim (network request) [
  | response status body headers ↦ answered status body headers
  | http_error code body headers ↦ answered code body headers
  | unreachable reason ↦ transport_error reason
  | raises reason ↦ uncaught reason
]

-- `headers.get(name)` on the dictionary of the response's headers
unfoldable pub header : Text → Headers → Option Text
header name [] = none
header name ((k, v) ∷ rest) = if text_eq k name then some v else header name rest
