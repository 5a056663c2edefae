-- ===== src/Week4/Receipt.antt =====
-- The checker's own copy of the receipt: the dictionary, its bytes, its signature, and the comparison of two
-- action results (task/week4/autocheck/public_check.py).
pub mod Agree
use db_first_practice.Common.{
  Bool, true, false, not, ◌&&◌, ◌||◌, ltb, length, is_empty, has_code, Option, none, some, List, [],
  ◌∷◌, ◌++◌, Text, txt, mem_text, all,
}
use db_first_practice.Common.Results.{Result, ok, err, ◌>>=◌, ◌>>◌, raise_if}
use db_first_practice.Common.Int.{pos}
use db_first_practice.Json.{
  Value, int, str, arr, obj, Fields, field, end, get, get_or_null, has_key, keys_are, value_eq,
}
use db_first_practice.Json.Print.{dumps_sorted}
use db_first_practice.Json.Utf8.{Bytes, encode}

pub data ReceiptFault : Type 0 where
  value_error : Text → ReceiptFault
  type_error : ReceiptFault

abbrev pub expected_fields : List Text
expected_fields =
    txt "providerPaymentId"
    ∷ txt "operationId"
    ∷ txt "result"
    ∷ txt "message"
    ∷ txt "occurredAt"
    ∷ []

abbrev pub line_fields : List Text
line_fields = txt "providerPaymentId" ∷ txt "operationId" ∷ txt "occurredAt" ∷ []

unfoldable pub bad_line : Value → Bool
bad_line (str s) = (is_empty s || ltb 128 (length s)) || (has_code 13 s || has_code 10 s)
bad_line v = true

unfoldable pub bad_message : Value → Bool
bad_message (str s) = ltb 500 (length s) || (has_code 13 s || has_code 10 s)
bad_message v = true

unfoldable pub check_lines : List Text → Fields → Result ReceiptFault (Unit {0})
check_lines [] legacy = ok tt
check_lines (name ∷ names) legacy =
    raise_if (bad_line (get_or_null name legacy)) (value_error (txt "invalid legacy " ++ name))
    >> check_lines names legacy

-- `value not in {"COMPLETED", "REJECTED"}`: a list or a dictionary has no hash
unfoldable pub check_result : Value → Result ReceiptFault (Unit {0})
check_result (str s) =
    raise_if (not (mem_text s (txt "COMPLETED" ∷ txt "REJECTED" ∷ [])))
      (value_error (txt "invalid legacy result"))
check_result (arr vs) = err type_error
check_result (obj d) = err type_error
check_result v = err (value_error (txt "invalid legacy result"))

unfoldable pub normalized_receipt : Fields → Result ReceiptFault Fields
normalized_receipt legacy = do
  raise_if (not (keys_are expected_fields legacy))
      (value_error (txt "legacy callback fields do not match provider v0.2.0"))
  check_lines line_fields legacy
  check_result (get_or_null (txt "result") legacy)
  raise_if (bad_message (get_or_null (txt "message") legacy))
      (value_error (txt "invalid legacy message"))
  ok (
      field (txt "externalRequestId") (get_or_null (txt "operationId") legacy) (
        field (txt "messageId") (get_or_null (txt "providerPaymentId") legacy) (
          field (txt "occurredAt") (get_or_null (txt "occurredAt") legacy) (
            field (txt "outcome") (get_or_null (txt "result") legacy) (
              field (txt "providerPaymentId") (get_or_null (txt "providerPaymentId") legacy)
                (field (txt "version") (int (pos 1)) end))))))

-- `none` is UnicodeEncodeError
unfoldable pub receipt_bytes : Fields → Option Bytes
receipt_bytes receipt = encode (dumps_sorted (obj receipt))

-- `hmac_hex key body` is HMAC-SHA256 in hexadecimal, from the library
unfoldable pub receipt_signature : (Bytes → Bytes → Text) → Text → Bytes → Option Text
receipt_signature hmac_hex secret body = elim (encode secret) [
  | none ↦ none
  | some key ↦ some (txt "v1=" ++ hmac_hex key body)
]

abbrev pub result_fields : List Text
result_fields = txt "status" ∷ txt "outcome" ∷ txt "result" ∷ []

unfoldable pub same_action_result : Value → Value → Bool
same_action_result (obj first) (obj second) =
    all (λ name. has_key name first && has_key name second) result_fields
    && all (λ name. value_eq (get_or_null name first) (get_or_null name second)) result_fields
same_action_result _ _ = false
