-- ===== src/App/Receipt/Canonical.antt =====
-- The bytes that are signed: they determine the receipt, and only a lone surrogate has none.
use db_first_practice.Common.{
  ◌≡◌, refl, sym, ap, ◌∙◌, true, ◌&&◌, some, arith, Text, txt, all, is_some,
}
use mathlib.Core.List.{append_assoc}
use db_first_practice.Common.Results.{ok}
use db_first_practice.Json.{Value, obj, Fields}
use db_first_practice.Json.Print.{escape, dumps_sorted}
use db_first_practice.Json.Members.{member, member_injective, is_scalar-member}
use db_first_practice.Json.Utf8.{Bytes, is_scalar, is_some-encode, encode_injective}
use db_first_practice.App.Receipt.{normalize_receipt, canonical_bytes}
use db_first_practice.App.Receipt.Accept.{Legacy, receipt_of, normalize_receipt_sound}

-- the canonical text, part by part
layout : Legacy → Text
layout l = member (txt "{\"externalRequestId\":") l.operation_id (
    member (txt ",\"messageId\":") l.payment_id (
      member (txt ",\"occurredAt\":") l.occurred_at (
        member (txt ",\"outcome\":") l.result
          (member (txt ",\"providerPaymentId\":") l.payment_id (txt ",\"version\":1}")))))

dumps_sorted-receipt_of : (l : Legacy) → dumps_sorted (obj (receipt_of l)) ≡ layout l
unfolding dumps_sorted layout member txt escape
dumps_sorted-receipt_of l = simp append_assoc

layout_injective :
    (l m : Legacy)
    → layout l ≡ layout m
    → (l.operation_id ≡ m.operation_id)
      × (l.payment_id ≡ m.payment_id)
      × (l.occurred_at ≡ m.occurred_at)
      × (l.result ≡ m.result)
unfolding layout
layout_injective l m h =
    let (a, h1) = member_injective _ _ _ _ _ h in
    let (b, h2) = member_injective _ _ _ _ _ h1 in
    let (c, h3) = member_injective _ _ _ _ _ h2 in
    let (d, _) = member_injective _ _ _ _ _ h3 in (a, b, c, d)

receipt_of-cong :
    (l m : Legacy)
    → l.operation_id ≡ m.operation_id
    → l.payment_id ≡ m.payment_id
    → l.occurred_at ≡ m.occurred_at
    → l.result ≡ m.result
    → receipt_of l ≡ receipt_of m
receipt_of-cong l m a b c d = cc

-- Two accepted callbacks whose receipts have the same canonical bytes have the same receipt: the
-- signature covers the whole receipt.
pub canonical_bytes_injective :
    (v w : Value) {r q : Fields} {b : Bytes}
    → normalize_receipt v ≡ ok r
    → normalize_receipt w ≡ ok q
    → canonical_bytes r ≡ some b
    → canonical_bytes q ≡ some b
    → r ≡ q
unfolding canonical_bytes
canonical_bytes_injective v w hv hw er eq =
    let (_, l, _, _, _, rl) = normalize_receipt_sound v hv in
    let (_, m, _, _, _, qm) = normalize_receipt_sound w hw in
    let same = encode_injective _ _ er eq in
    let (a, b, c, d) = layout_injective l m (
      sym (dumps_sorted-receipt_of l)
      ∙ sym (ap (λ f. dumps_sorted (obj f)) rl)
      ∙ same
      ∙ ap (λ f. dumps_sorted (obj f)) qm
      ∙ dumps_sorted-receipt_of m) in
    rl ∙ receipt_of-cong l m a b c d ∙ sym qm

operation_key_scalar : all is_scalar (txt "{\"externalRequestId\":") ≡ true
unfolding txt
operation_key_scalar = refl

payment_key_scalar : all is_scalar (txt ",\"messageId\":") ≡ true
unfolding txt
payment_key_scalar = refl

occurred_key_scalar : all is_scalar (txt ",\"occurredAt\":") ≡ true
unfolding txt
occurred_key_scalar = refl

outcome_key_scalar : all is_scalar (txt ",\"outcome\":") ≡ true
unfolding txt
outcome_key_scalar = refl

provider_key_scalar : all is_scalar (txt ",\"providerPaymentId\":") ≡ true
unfolding txt
provider_key_scalar = refl

version_end_scalar : all is_scalar (txt ",\"version\":1}") ≡ true
unfolding txt
version_end_scalar = refl

is_scalar-layout :
    (l : Legacy)
    → all is_scalar (layout l) ≡ (
        all is_scalar l.operation_id
        && (all is_scalar l.payment_id
            && (all is_scalar l.occurred_at
                && (all is_scalar l.result && (all is_scalar l.payment_id && true)))))
unfolding layout
is_scalar-layout l =
    is_scalar-member _ _ _ operation_key_scalar
    ∙ ap (λ b. all is_scalar l.operation_id && b)
        (is_scalar-member _ _ _ payment_key_scalar
          ∙ ap (λ b. all is_scalar l.payment_id && b)
              (is_scalar-member _ _ _ occurred_key_scalar
                ∙ ap (λ b. all is_scalar l.occurred_at && b)
                    (is_scalar-member _ _ _ outcome_key_scalar
                      ∙ ap (λ b. all is_scalar l.result && b)
                          (is_scalar-member _ _ _ provider_key_scalar
                            ∙ ap (λ b. all is_scalar l.payment_id && b) version_end_scalar))))

-- An accepted callback has canonical bytes exactly when its operation, payment, time and result hold
-- no lone surrogate; otherwise the encoding raises.
pub is_some-canonical_bytes :
    (l : Legacy)
    → is_some (canonical_bytes (receipt_of l)) ≡ (
        all is_scalar l.operation_id
        && (all is_scalar l.payment_id && (all is_scalar l.occurred_at && all is_scalar l.result)))
unfolding canonical_bytes
is_some-canonical_bytes l =
    is_some-encode (dumps_sorted (obj (receipt_of l)))
    ∙ ap (all is_scalar) (dumps_sorted-receipt_of l)
    ∙ is_scalar-layout l
    ∙ ground arith
