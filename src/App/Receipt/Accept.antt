-- ===== src/App/Receipt/Accept.antt =====
-- Which callbacks `normalize_receipt` accepts, and the receipt that it makes of them.
use db_first_practice.Common.{
  ℕ, ◌≤◌, ◌≡◌, refl, sym, ap, ◌∙◌, Bool, true, false, not, ◌⊎◌, some, [], ◌∷◌, arith, Text, txt,
  text_eq_iff, length,
}
use db_first_practice.Common.Results.{
  ok, raise_if, raise_if-ok, raise_if-false, raise_if-pass, bind-ok, ok_injective, >>=-eq-ok,
}
use db_first_practice.Json.{
  Value, null, bool, int, float, special, str, arr, obj, Fields, get, get_or_null, keys_are,
}
use db_first_practice.App.Receipt.{
  invalid_message, required_legacy_fields, text_fields, breaks_line, invalid_text, invalid_time,
  invalid_outcome, invalid_note, check_texts, validate_legacy, receipt_fields, normalize_receipt,
}
use db_first_practice.Json.Dict.{get_of_text, text_of_get}
use db_first_practice.App.Receipt.Time.{is_utc_time}

-- The content of a callback of the legacy provider.
pub record Legacy : Type 0 where
  pub payment_id : Text
  pub operation_id : Text
  pub result : Text
  pub message : Text
  pub occurred_at : Text

-- 1 to `most` characters, on one line
pub record IsLine (least most : ℕ) (s : Text) : Type 0 where
  pub long : least ≤ length s
  pub short : length s ≤ most
  pub one_line : breaks_line s ≡ false

-- The bounds of the code. The published schema (provider-v02-callback.schema.json) has the same, but for
-- `occurredAt`, which it limits to 64 characters.
pub record IsAdmitted (l : Legacy) : Type 0 where
  pub payment : IsLine 1 128 l.payment_id
  pub operation : IsLine 1 128 l.operation_id
  pub occurred : IsLine 1 128 l.occurred_at
  pub time : is_utc_time l.occurred_at ≡ true
  pub outcome : (l.result ≡ txt "COMPLETED") ⊎ (l.result ≡ txt "REJECTED")
  pub note : IsLine 0 500 l.message

-- A dictionary with these five fields and no other.
pub record Carries (body : Fields) (l : Legacy) : Type 0 where
  pub fields : keys_are required_legacy_fields body ≡ true
  pub payment_id : get (txt "providerPaymentId") body ≡ some (str l.payment_id)
  pub operation_id : get (txt "operationId") body ≡ some (str l.operation_id)
  pub result : get (txt "result") body ≡ some (str l.result)
  pub message : get (txt "message") body ≡ some (str l.message)
  pub occurred_at : get (txt "occurredAt") body ≡ some (str l.occurred_at)

abbrev pub receipt_of : Legacy → Fields
receipt_of l =
    receipt_fields (str l.operation_id) (str l.payment_id) (str l.occurred_at) (str l.result)

invalid_text-IsLine : (s : Text) → IsLine 1 128 s → invalid_text (str s) ≡ false
unfolding invalid_text
invalid_text-IsLine [] h = absurd (omega (arith, h.long))
invalid_text-IsLine (c ∷ s) h = rw (h.one_line) (ground arith)

valid_text : (v : Value) → invalid_text v ≡ false → (s : Text) × (v ≡ str s) × IsLine 1 128 s
unfolding invalid_text
valid_text (str []) h = cc
valid_text (str (c ∷ s)) h =
    (c ∷ s, refl, record { long = omega arith; short = ground arith; one_line = ground arith })
valid_text null h = cc
valid_text (bool b) h = cc
valid_text (int n) h = cc
valid_text (float m k) h = cc
valid_text (special x) h = cc
valid_text (arr vs) h = cc
valid_text (obj d) h = cc

valid_time : (s : Text) → invalid_time (str s) ≡ false → is_utc_time s ≡ true
unfolding invalid_time
valid_time s h = ground arith

valid_outcome :
    (v : Value)
    → invalid_outcome v ≡ false
    → (s : Text) × (v ≡ str s) × ((s ≡ txt "COMPLETED") ⊎ (s ≡ txt "REJECTED"))
unfolding invalid_outcome
valid_outcome (str s) h =
    (s, refl, ground (arith, text_eq_iff s (txt "COMPLETED"), text_eq_iff s (txt "REJECTED")))
valid_outcome null h = cc
valid_outcome (bool b) h = cc
valid_outcome (int n) h = cc
valid_outcome (float m k) h = cc
valid_outcome (special x) h = cc
valid_outcome (arr vs) h = cc
valid_outcome (obj d) h = cc

valid_note : (v : Value) → invalid_note v ≡ false → (s : Text) × (v ≡ str s) × IsLine 0 500 s
unfolding invalid_note
valid_note (str s) h =
    (s, refl, record { long = omega arith; short = ground arith; one_line = ground arith })
valid_note null h = cc
valid_note (bool b) h = cc
valid_note (int n) h = cc
valid_note (float m k) h = cc
valid_note (special x) h = cc
valid_note (arr vs) h = cc
valid_note (obj d) h = cc

-- the three texts that the loop over `_TEXT_FIELDS` has passed
check_texts-ok :
    (d : Fields)
    → check_texts text_fields d ≡ ok tt
    → (invalid_text (get_or_null (txt "providerPaymentId") d) ≡ false)
      × (invalid_text (get_or_null (txt "operationId") d) ≡ false)
      × (invalid_text (get_or_null (txt "occurredAt") d) ≡ false)
unfolding check_texts
check_texts-ok d h =
    let (a, h1) = raise_if-ok _ _ _ h in
    let (b, h2) = raise_if-ok _ _ _ h1 in let (c, _) = raise_if-ok _ _ _ h2 in (a, b, c)

-- every test of `validate_legacy`, passed
pub record Passed (d : Fields) : Type 0 where
  pub fields : keys_are required_legacy_fields d ≡ true
  pub texts : check_texts text_fields d ≡ ok tt
  pub time : invalid_time (get_or_null (txt "occurredAt") d) ≡ false
  pub outcome : invalid_outcome (get_or_null (txt "result") d) ≡ false
  pub note : invalid_note (get_or_null (txt "message") d) ≡ false

of_not-false : (b : Bool) → not b ≡ false → b ≡ true
of_not-false b h = ground arith

pub validate_legacy-Passed : (d : Fields) {u : Unit {0}} → validate_legacy (obj d) ≡ ok u → Passed d
unfolding validate_legacy
validate_legacy-Passed d h =
    let (a, h1) = raise_if-ok _ _ _ h in
    let (u, b, h2) = >>=-eq-ok _ _ h1 in
    let (c, h3) = raise_if-ok _ _ _ h2 in
    let (e, h4) = raise_if-ok _ _ _ h3 in
    record {
      fields = of_not-false _ a;
      texts = b;
      time = c;
      outcome = e;
      note = raise_if-false _ _ h4;
    }

-- the dictionary whose tests have passed carries a callback within the bounds
Passed-Carries : (d : Fields) → Passed d → (l : Legacy) × Carries d l × IsAdmitted l
Passed-Carries d p =
    let (t1, t2, t3) = check_texts-ok d p.texts in
    let (a, ea, va) = valid_text _ t1 in
    let (b, eb, vb) = valid_text _ t2 in
    let (c, ec, vc) = valid_text _ t3 in
    let (o, eo, vo) = valid_outcome _ p.outcome in
    let (n, en, vn) = valid_note _ p.note in
    (
      record { payment_id = a; operation_id = b; result = o; message = n; occurred_at = c },
      record {
        fields = p.fields;
        payment_id = get_of_text _ d a ea;
        operation_id = get_of_text _ d b eb;
        result = get_of_text _ d o eo;
        message = get_of_text _ d n en;
        occurred_at = get_of_text _ d c ec;
      },
      record {
        payment = va;
        operation = vb;
        occurred = vc;
        time = valid_time c (rw (← ec) p.time);
        outcome = vo;
        note = vn;
      },
    )

receipt-Carries :
    (d : Fields) (l : Legacy)
    → Carries d l
    → receipt_fields
        (get_or_null (txt "operationId") d)
        (get_or_null (txt "providerPaymentId") d)
        (get_or_null (txt "occurredAt") d)
        (get_or_null (txt "result") d)
      ≡ receipt_of l
receipt-Carries d l c = rw (
  text_of_get _ d c.operation_id,
  text_of_get _ d c.payment_id,
  text_of_get _ d c.occurred_at,
  text_of_get _ d c.result,
)

at_text :
    (f : Value → Bool) (k : Text) (d : Fields) {s : Text}
    → get k d ≡ some (str s)
    → f (str s) ≡ false
    → f (get_or_null k d) ≡ false
at_text f k d e h = rw (text_of_get k d e) h

check_texts-Carries :
    (d : Fields) (l : Legacy) → Carries d l → IsAdmitted l → check_texts text_fields d ≡ ok tt
unfolding check_texts
check_texts-Carries d l c v =
    raise_if-pass _ _ _ (at_text invalid_text _ d c.payment_id (invalid_text-IsLine _ v.payment)) (
      raise_if-pass _ _ _
        (at_text invalid_text _ d c.operation_id (invalid_text-IsLine _ v.operation))
        (raise_if-pass _ _ _
          (at_text invalid_text _ d c.occurred_at (invalid_text-IsLine _ v.occurred)) refl))

invalid_outcome-listed :
    (s : Text) → (s ≡ txt "COMPLETED") ⊎ (s ≡ txt "REJECTED") → invalid_outcome (str s) ≡ false
unfolding invalid_outcome
invalid_outcome-listed s h =
    ground (arith, text_eq_iff s (txt "COMPLETED"), text_eq_iff s (txt "REJECTED"))

invalid_time-utc : (s : Text) → is_utc_time s ≡ true → invalid_time (str s) ≡ false
unfolding invalid_time
invalid_time-utc s h = ground arith

invalid_note-IsLine : (s : Text) → IsLine 0 500 s → invalid_note (str s) ≡ false
unfolding invalid_note
invalid_note-IsLine s h = ground arith

validate_legacy-Carries :
    (d : Fields) (l : Legacy) → Carries d l → IsAdmitted l → validate_legacy (obj d) ≡ ok tt
unfolding validate_legacy
validate_legacy-Carries d l c v = raise_if-pass _ _ _ (ap not c.fields) (
    bind-ok _ _ (check_texts-Carries d l c v) (
      raise_if-pass _ _ _ (at_text invalid_time _ d c.occurred_at (invalid_time-utc _ v.time)) (
        raise_if-pass _ _ _
          (at_text invalid_outcome _ d c.result (invalid_outcome-listed _ v.outcome))
          (ap (λ t. raise_if t invalid_message)
            (at_text invalid_note _ d c.message (invalid_note-IsLine _ v.note))))))

-- A callback that `normalize_receipt` accepts is an object that carries five texts within the code's
-- bounds, with no other field, and the receipt is made of its operation, payment, time and result. The
-- bounds are the code's own: `occurredAt` may have 128 characters, where the published schema allows 64.
pub normalize_receipt_sound :
    (v : Value) {r : Fields}
    → normalize_receipt v ≡ ok r
    → (d : Fields) × (l : Legacy) × (v ≡ obj d) × Carries d l × IsAdmitted l × (r ≡ receipt_of l)
unfolding normalize_receipt
normalize_receipt_sound (obj d) {r} h =
    let (u, valid, made) = >>=-eq-ok _ _ h in
    let (l, c, v) = Passed-Carries d (validate_legacy-Passed d valid) in
    (d, l, refl, c, v, sym (ok_injective made) ∙ receipt-Carries d l c)
normalize_receipt_sound null h = cc
normalize_receipt_sound (bool b) h = cc
normalize_receipt_sound (int n) h = cc
normalize_receipt_sound (float m k) h = cc
normalize_receipt_sound (special x) h = cc
normalize_receipt_sound (str s) h = cc
normalize_receipt_sound (arr vs) h = cc

-- Every object that carries five texts within the code's bounds is accepted, also one whose
-- `occurredAt` has the 65 to 128 characters that the published schema does not allow.
pub normalize_receipt_complete :
    (d : Fields) (l : Legacy)
    → Carries d l
    → IsAdmitted l
    → normalize_receipt (obj d) ≡ ok (receipt_of l)
unfolding normalize_receipt
normalize_receipt_complete d l c v =
    bind-ok _ _ (validate_legacy-Carries d l c v) (ap ok (receipt-Carries d l c))
