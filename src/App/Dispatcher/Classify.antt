-- ===== src/App/Dispatcher/Classify.antt =====
-- Which responses of the provider count as accepted.
use db_first_practice.Common.{
  ℕ, ◌≡◌, ◌≢◌, refl, sym, ap, ◌∙◌, true, false, ◌↔◌, Option, none, some, [], ◌∷◌, arith, ◌==◌, Text,
  txt, text_eq_refl, inl, inr, some_injective, is_some, Bool-cases, Option-cases, ==_iff,
}
use db_first_practice.Json.{
  Value, null, bool, int, float, special, str, arr, obj, Fields, get, get_or_null, keys_are, str_is,
}
use db_first_practice.Json.Dict.{get_of_text, text_of_get, str_is_sound}
use db_first_practice.Json.Parse.{loads}
use db_first_practice.Json.Parse.Limits.{Limits, load, interrupts}
use db_first_practice.Json.Utf8.{Bytes, decode}
use db_first_practice.App.Dispatcher.{
  accepted, payment_verdict, accepted_payload, parsed_payload, decoded_payload, classify_response,
}

-- The body of an acceptance: an object with exactly the payment, which is not empty, and the status,
-- within the limits of the interpreter.
pub record IsAcceptance (limits : Limits) (body : Bytes) (payment_id : Text) : Type 0 where
  pub text : Text
  pub decoded : decode body ≡ some text
  pub finished : interrupts limits text ≡ false
  pub fields : Fields
  pub parsed : loads text ≡ some (obj fields)
  pub keys : keys_are (txt "providerPaymentId" ∷ txt "status" ∷ []) fields ≡ true
  pub status : get (txt "status") fields ≡ some (str (txt "ACCEPTED"))
  pub payment : get (txt "providerPaymentId") fields ≡ some (str payment_id)
  pub nonempty : payment_id ≢ []

payment_verdict-accepted :
    (v : Value) {p : Text} → payment_verdict v ≡ accepted p → (v ≡ str p) × (p ≢ [])
unfolding payment_verdict
payment_verdict-accepted (str []) h = cc
payment_verdict-accepted (str (c ∷ s)) h = (ground arith, λ e. ground arith)
payment_verdict-accepted null h = cc
payment_verdict-accepted (bool b) h = cc
payment_verdict-accepted (int n) h = cc
payment_verdict-accepted (float m k) h = cc
payment_verdict-accepted (special x) h = cc
payment_verdict-accepted (arr vs) h = cc
payment_verdict-accepted (obj d) h = cc

payment_verdict-str : (p : Text) → p ≢ [] → payment_verdict (str p) ≡ accepted p
unfolding payment_verdict
payment_verdict-str [] h = absurd (h refl)
payment_verdict-str (c ∷ s) h = refl

-- the three tests of the object
accepted_payload-tests :
    (d : Fields) {p : Text}
    → accepted_payload (obj d) ≡ accepted p
    → (keys_are (txt "providerPaymentId" ∷ txt "status" ∷ []) d ≡ true)
      × (str_is (txt "ACCEPTED") (get_or_null (txt "status") d) ≡ true)
      × (payment_verdict (get_or_null (txt "providerPaymentId") d) ≡ accepted p)
unfolding accepted_payload
accepted_payload-tests d h = ground arith

accepted_payload-object :
    (v : Value) {p : Text} → accepted_payload v ≡ accepted p → (d : Fields) × (v ≡ obj d)
unfolding accepted_payload
accepted_payload-object (obj d) h = (d, refl)
accepted_payload-object null h = cc
accepted_payload-object (bool b) h = cc
accepted_payload-object (int n) h = cc
accepted_payload-object (float m k) h = cc
accepted_payload-object (special x) h = cc
accepted_payload-object (str s) h = cc
accepted_payload-object (arr vs) h = cc

-- what is read of a text, when its verdict is known
parsed_payload-value :
    (limits : Limits) (t : Text) {p : Text}
    → parsed_payload (load limits t) ≡ some (accepted p)
    → (interrupts limits t ≡ false)
      × (v : Value) × (loads t ≡ some v)
      × (accepted_payload v ≡ accepted p)
unfolding parsed_payload load
parsed_payload-value limits t h = elim (Bool-cases (interrupts limits t)) [
  | inl passed ↦ let bad = rw (load, passed) at h in cc
  | inr fine ↦ elim (Option-cases (loads t)) [
    | inl e ↦ let bad = some_injective (rw (load, fine, e) at h) in cc
    | inr (v, e) ↦ (fine, v, e, some_injective (rw (load, fine, e) at h))
  ]
]

decoded_payload-text :
    (limits : Limits) (o : Option Text) {p : Text}
    → decoded_payload limits o ≡ some (accepted p)
    → (t : Text) × (o ≡ some t) × (parsed_payload (load limits t) ≡ some (accepted p))
unfolding decoded_payload
decoded_payload-text limits none h = let bad = some_injective h in cc
decoded_payload-text limits (some t) h = (t, refl, h)

decoded_payload_sound :
    (limits : Limits) (body : Bytes) {p : Text}
    → decoded_payload limits (decode body) ≡ some (accepted p)
    → IsAcceptance limits body p
decoded_payload_sound limits body {p} h =
    let (t, decoded, h1) = decoded_payload-text limits _ h in
    let (fine, v, parsed, h2) = parsed_payload-value limits t h1 in
    let (d, object) = accepted_payload-object v h2 in
    let (keys, status, h3) = accepted_payload-tests d (ap accepted_payload (sym object) ∙ h2) in
    let (payment, nonempty) = payment_verdict-accepted _ h3 in
    record {
      text = t;
      decoded = decoded;
      finished = fine;
      fields = d;
      parsed = parsed ∙ ap some object;
      keys = keys;
      status = get_of_text _ d _ (str_is_sound _ _ status);
      payment = get_of_text _ d p payment;
      nonempty = nonempty;
    }

str_is_self : (t : Text) → str_is t (str t) ≡ true
str_is_self t = text_eq_refl t

accepted_payload_complete :
    (d : Fields) (p : Text)
    → keys_are (txt "providerPaymentId" ∷ txt "status" ∷ []) d ≡ true
    → get_or_null (txt "status") d ≡ str (txt "ACCEPTED")
    → get_or_null (txt "providerPaymentId") d ≡ str p
    → p ≢ []
    → accepted_payload (obj d) ≡ accepted p
unfolding accepted_payload
accepted_payload_complete d p keys status payment nonempty = ground (
  arith,
  ap (str_is (txt "ACCEPTED")) status ∙ str_is_self (txt "ACCEPTED"),
  ap payment_verdict payment ∙ payment_verdict-str p nonempty,
)

decoded_payload_complete :
    (limits : Limits) (body : Bytes) (p : Text)
    → IsAcceptance limits body p
    → decoded_payload limits (decode body) ≡ some (accepted p)
unfolding decoded_payload parsed_payload load
decoded_payload_complete limits body p a =
    ap (decoded_payload limits) a.decoded
    ∙ rw (load, a.finished, a.parsed)
        (ap some (
          accepted_payload_complete a.fields p a.keys (text_of_get _ _ a.status)
            (text_of_get _ _ a.payment) a.nonempty))

pub classify_response_202 :
    (limits : Limits) (body : Bytes)
    → classify_response limits 202 body ≡ decoded_payload limits (decode body)
unfolding classify_response
classify_response_202 limits body = refl

classify_response-not_accepted :
    (limits : Limits) (status : ℕ) (body : Bytes) {p : Text}
    → classify_response limits status body ≡ some (accepted p)
    → status ≡ 202
unfolding classify_response
classify_response-not_accepted limits status body h = elim (Bool-cases (status == 202)) [
  | inl e ↦ (==_iff status 202).0 e
  | inr other ↦ let bad = some_injective (rw (classify_response, other) at h) in cc
]

-- A response is accepted exactly when its status is 202 and its body is an acceptance, and then it
-- names the provider's payment.
pub classify_response-accepted :
    (limits : Limits) (status : ℕ) (body : Bytes) (p : Text)
    → (classify_response limits status body ≡ some (accepted p))
      ↔ ((status ≡ 202) × IsAcceptance limits body p)
classify_response-accepted limits status body p = (
  λ h.
      let e = classify_response-not_accepted limits status body h in
      (
        e,
        decoded_payload_sound limits body (
            sym (classify_response_202 limits body)
            ∙ ap (λ s. classify_response limits s body) (sym e)
            ∙ h),
      ),
  λ (e, a).
      ap (λ s. classify_response limits s body) e
      ∙ classify_response_202 limits body
      ∙ decoded_payload_complete limits body p a,
)

-- A text that is read to an end has a verdict.
loaded-verdict :
    (limits : Limits) (t : Text)
    → interrupts limits t ≡ false
    → is_some (parsed_payload (load limits t)) ≡ true
unfolding parsed_payload load
loaded-verdict limits t fine = elim (Option-cases (loads t)) [
  | inl e ↦ rw (load, fine, e) refl
  | inr (v, e) ↦ rw (load, fine, e) refl
]

-- A body at which no limit of the interpreter is passed, if it is a text.
abbrev pub IsReadable : Limits → Bytes → Type 0
IsReadable limits body = (t : Text) → decode body ≡ some t → interrupts limits t ≡ false

-- A response whose body is readable has a verdict.
pub is_some-classify_response :
    (limits : Limits) (status : ℕ) (body : Bytes)
    → IsReadable limits body
    → is_some (classify_response limits status body) ≡ true
unfolding classify_response decoded_payload
is_some-classify_response limits status body fine = elim (Bool-cases (status == 202)) [
  | inr other ↦ rw (classify_response, other) refl
  | inl same ↦ elim (Option-cases (decode body)) [
    | inl e ↦ rw (classify_response, same, e) refl
    | inr (t, e) ↦ rw (classify_response, same, e) (loaded-verdict limits t (fine t e))
  ]
]
