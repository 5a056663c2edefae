-- ===== src/App/Tests/Callback.antt =====
-- The receipt adapter at one callback.
use db_first_practice.Common.{
  ◌≡◌, refl, true, false, inl, some, arith, Text, txt, text_eq, length, ltb,
}
use db_first_practice.Common.Results.{ok}
use db_first_practice.Json.{str, obj, Fields, end, field, get, keys_are}
use db_first_practice.Json.Print.{dumps_sorted}
use db_first_practice.Json.Utf8.{Bytes, encode, encode_char}
use db_first_practice.App.Receipt.{normalize_receipt, canonical_bytes, breaks_line}
use db_first_practice.App.Receipt.Accept.{
  Legacy, IsLine, IsAdmitted, Carries, receipt_of, normalize_receipt_sound,
  normalize_receipt_complete,
}
use db_first_practice.App.Receipt.Time.{is_utc_time}
use db_first_practice.Json.Parse.ReadBack.{read_json}
use db_first_practice.App.Receipt.ReadBack.{read_json-canonical_bytes}
use db_first_practice.App.Receipt.Canonical.{canonical_bytes_injective}

abbrev pub callback : Fields
callback = field (txt "operationId") (str (txt "op-7")) (
    field (txt "providerPaymentId") (str (txt "pay-1")) (
      field (txt "result") (str (txt "COMPLETED")) (
        field (txt "message") (str (txt "done"))
          (field (txt "occurredAt") (str (txt "2026-01-31T10:20:30.5Z")) end))))

abbrev pub legacy : Legacy
legacy = record {
  payment_id = txt "pay-1";
  operation_id = txt "op-7";
  result = txt "COMPLETED";
  message = txt "done";
  occurred_at = txt "2026-01-31T10:20:30.5Z";
}

pub callback-Carries : Carries callback legacy
unfolding txt get text_eq keys_are
callback-Carries = record {
  fields = refl;
  payment_id = refl;
  operation_id = refl;
  result = refl;
  message = refl;
  occurred_at = refl;
}

short_line :
    (s : Text)
    → ltb 0 (length s) ≡ true
    → ltb 128 (length s) ≡ false
    → breaks_line s ≡ false
    → IsLine 1 128 s
short_line s a b c = record { long = ground arith; short = ground arith; one_line = c }

pub legacy-IsAdmitted : IsAdmitted legacy
unfolding txt is_utc_time
legacy-IsAdmitted = record {
  payment = short_line _ refl refl refl;
  operation = short_line _ refl refl refl;
  occurred = short_line _ refl refl refl;
  time = refl;
  outcome = inl refl;
  note = record { long = omega arith; short = omega arith; one_line = refl };
}

callback_accepted : normalize_receipt (obj callback) ≡ ok (receipt_of legacy)
callback_accepted = normalize_receipt_complete callback legacy callback-Carries legacy-IsAdmitted

normalize_receipt_complete_example : normalize_receipt (obj callback) ≡ ok (receipt_of legacy)
normalize_receipt_complete_example =
    normalize_receipt_complete callback legacy callback-Carries legacy-IsAdmitted

normalize_receipt_sound_example :
    (d : Fields) × (l : Legacy) × (obj callback ≡ obj d)
    × Carries d l
    × IsAdmitted l
    × (receipt_of legacy ≡ receipt_of l)
normalize_receipt_sound_example = normalize_receipt_sound (obj callback) callback_accepted

abbrev pub body : Bytes
body =
    txt
      "{\"externalRequestId\":\"op-7\",\"messageId\":\"pay-1\",\"occurredAt\":\"2026-01-31T10:20:30.5Z\",\"outcome\":\"COMPLETED\",\"providerPaymentId\":\"pay-1\",\"version\":1}"

pub body_encodes : canonical_bytes (receipt_of legacy) ≡ some body
unfolding txt canonical_bytes encode encode_char dumps_sorted
body_encodes = refl

canonical_bytes_injective_example : receipt_of legacy ≡ receipt_of legacy
canonical_bytes_injective_example =
    canonical_bytes_injective (obj callback) (obj callback) callback_accepted callback_accepted
      body_encodes body_encodes

read_json-canonical_bytes_example : read_json body ≡ some (obj (receipt_of legacy))
read_json-canonical_bytes_example =
    read_json-canonical_bytes (obj callback) callback_accepted body_encodes
