-- ===== src/App/Receipt.antt =====
-- Python/app/receipt.py: a legacy callback is checked, and becomes a signed receipt.
pub mod Time
pub mod Accept
pub mod Canonical
pub mod ReadBack
use db_first_practice.Common.{
  ℕ, Bool, true, false, not, ◌&&◌, ◌||◌, Option, none, some, List, [], ◌∷◌, ◌++◌, ltb, Text, txt,
  text_eq, mem_text, has_code, is_empty, length,
}
use db_first_practice.Common.Int.{pos}
use db_first_practice.Common.Results.{Result, ok, err, ◌>>=◌, ◌>>◌, raise_if}
use db_first_practice.Json.{Value, int, str, obj, Fields, end, field, get, get_or_null, keys_are}
use db_first_practice.Json.Print.{dumps_sorted}
use db_first_practice.Json.Utf8.{Bytes, encode}
use db_first_practice.App.Receipt.Time.{is_utc_time}

-- the `ValueError` that `validate_legacy` raises
pub data ReceiptError : Type 0 where
  not_object wrong_fields invalid_occurred_at invalid_result invalid_message : ReceiptError
  invalid_field : Text → ReceiptError

abbrev pub required_legacy_fields : List Text
required_legacy_fields =
    txt "providerPaymentId"
    ∷ txt "operationId"
    ∷ txt "result"
    ∷ txt "message"
    ∷ txt "occurredAt"
    ∷ []

abbrev pub text_fields : List Text
text_fields = txt "providerPaymentId" ∷ txt "operationId" ∷ txt "occurredAt" ∷ []

-- `"\r" in value or "\n" in value`
abbrev pub breaks_line : Text → Bool
breaks_line s = has_code 13 s || has_code 10 s

unfoldable pub invalid_text : Value → Bool
invalid_text (str s) = is_empty s || (ltb 128 (length s) || breaks_line s)
invalid_text v = true

-- `_validate_occurred_at` is called on text only
unfoldable pub invalid_time : Value → Bool
invalid_time (str s) = not (is_utc_time s)
invalid_time v = true

unfoldable pub invalid_outcome : Value → Bool
invalid_outcome (str s) = not (mem_text s (txt "COMPLETED" ∷ txt "REJECTED" ∷ []))
invalid_outcome v = true

unfoldable pub invalid_note : Value → Bool
invalid_note (str s) = ltb 500 (length s) || breaks_line s
invalid_note v = true

unfoldable pub check_texts : List Text → Fields → Result ReceiptError (Unit {0})
check_texts [] body = ok tt
check_texts (name ∷ names) body =
    raise_if (invalid_text (get_or_null name body)) (invalid_field name) >> check_texts names body

unfoldable pub validate_legacy : Value → Result ReceiptError (Unit {0})
validate_legacy (obj body) = do
  raise_if (not (keys_are required_legacy_fields body)) wrong_fields
  check_texts text_fields body
  raise_if (invalid_time (get_or_null (txt "occurredAt") body)) invalid_occurred_at
  raise_if (invalid_outcome (get_or_null (txt "result") body)) invalid_result
  raise_if (invalid_note (get_or_null (txt "message") body)) invalid_message
validate_legacy _ = err not_object

-- the dictionary that `normalize_receipt` returns
abbrev pub receipt_fields : Value → Value → Value → Value → Fields
receipt_fields operation_id payment_id occurred_at result =
    field (txt "externalRequestId") operation_id (
      field (txt "messageId") payment_id (
        field (txt "occurredAt") occurred_at (
          field (txt "outcome") result (
            field (txt "providerPaymentId") payment_id (field (txt "version") (int (pos 1)) end)))))

unfoldable pub normalize_receipt : Value → Result ReceiptError Fields
normalize_receipt (obj legacy) = do
  validate_legacy (obj legacy)
  ok (
      receipt_fields (get_or_null (txt "operationId") legacy)
        (get_or_null (txt "providerPaymentId") legacy) (get_or_null (txt "occurredAt") legacy)
        (get_or_null (txt "result") legacy))
normalize_receipt _ = err not_object

-- `none` is UnicodeEncodeError
unfoldable pub canonical_bytes : Fields → Option Bytes
canonical_bytes receipt = encode (dumps_sorted (obj receipt))

-- `hmac_hex key body` is HMAC-SHA256 in hexadecimal, from the library
unfoldable pub sign : (Bytes → Bytes → Text) → Text → Bytes → Option Text
sign hmac_hex secret body = elim (encode secret) [
  | none ↦ none
  | some key ↦ some (txt "v1=" ++ hmac_hex key body)
]
