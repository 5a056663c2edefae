-- ===== src/App/Receipt/ReadBack.antt =====
-- Python/app/receipt.py: the bytes that are posted to the API, read as JSON.
use db_first_practice.Common.{◌≡◌, refl, sym, ap, ◌∙◌, true, some, txt, text_eq, is_some}
use db_first_practice.Common.Assoc.{and-left, and-right}
use db_first_practice.Common.Results.{ok}
use db_first_practice.Json.{Value, obj, Fields, end, put}
use db_first_practice.Json.Print.{dumps, dumps_sorted}
use db_first_practice.Json.Parse.{loads}
use db_first_practice.Json.Parse.ReadBack.{
  IsFlat, put_all, loads-dumps, read_json, read_json-encode,
}
use db_first_practice.Json.Utf8.{Bytes}
use db_first_practice.App.Receipt.{normalize_receipt, canonical_bytes}
use db_first_practice.App.Receipt.Accept.{Legacy, receipt_of, normalize_receipt_sound}
use db_first_practice.App.Receipt.Canonical.{is_some-canonical_bytes}

dumps_sorted-receipt : (l : Legacy) → dumps_sorted (obj (receipt_of l)) ≡ dumps (obj (receipt_of l))
unfolding dumps_sorted dumps txt
dumps_sorted-receipt l = refl

put_all-receipt : (l : Legacy) → put_all (receipt_of l) end ≡ receipt_of l
unfolding put_all put txt text_eq
put_all-receipt l = refl

receipt_of-IsFlat :
    (l : Legacy) → is_some (canonical_bytes (receipt_of l)) ≡ true → IsFlat (receipt_of l)
unfolding txt
receipt_of-IsFlat l h =
    let e = sym (is_some-canonical_bytes l) ∙ h in
    let rest = and-right _ _ e in
    let operation = and-left _ _ e in
    let payment = and-left _ _ rest in
    let time = and-left _ _ (and-right _ _ rest) in
    let outcome = and-right _ _ (and-right _ _ rest) in
    (
      refl,
      operation,
      (refl, payment, (refl, time, (refl, outcome, (refl, payment, (refl, tt, tt))))),
    )

loads-receipt :
    (l : Legacy)
    → IsFlat (receipt_of l)
    → loads (dumps_sorted (obj (receipt_of l))) ≡ some (obj (receipt_of l))
loads-receipt l h =
    ap loads (dumps_sorted-receipt l)
    ∙ loads-dumps _ _ _ h
    ∙ ap (λ d. some (obj d)) (put_all-receipt l)

-- The canonical bytes of an accepted callback's receipt, read as UTF-8 and JSON, are the receipt.
pub read_json-canonical_bytes :
    (v : Value) {receipt : Fields} {body : Bytes}
    → normalize_receipt v ≡ ok receipt
    → canonical_bytes receipt ≡ some body
    → read_json body ≡ some (obj receipt)
unfolding canonical_bytes
read_json-canonical_bytes v {receipt} {body} h e =
    let (_, l, _, _, _, same) = normalize_receipt_sound v h in
    let made : canonical_bytes (receipt_of l) ≡ some body = ap canonical_bytes (sym same) ∙ e in
    rw same (read_json-encode _ made (loads-receipt l (receipt_of-IsFlat l (rw made refl))))
