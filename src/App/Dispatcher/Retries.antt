-- ===== src/App/Dispatcher/Retries.antt =====
-- Which error codes of a rejected response let a delivery be tried again.
use db_first_practice.Common.{
  ℕ, ◌≤◌, ◌⊎◌, ◌↔◌, if◌then◌else◌, ◌≡◌, refl, sym, ap, ◌∙◌, Bool, true, false, inl, inr, Option,
  none, some, [], ◌∷◌, ◌++◌, arith, ◌==◌, Text, txt, text_eq, text_eq_iff, text_eq_refl, last?,
  Bool-cases, some_injective,
}
use mathlib.Core.List.{append_assoc}
use db_first_practice.Json.{Value, null, bool, int, float, special, str, arr, obj, get_or_null}
use db_first_practice.Json.Print.{print_nat}
use db_first_practice.Json.Parse.Limits.{Limits, Loaded, value, malformed, interrupted, load}
use db_first_practice.Json.Utf8.{Bytes}
use db_first_practice.App.Dispatcher.{
  rejected, payment_verdict, accepted_payload, parsed_payload, decoded_payload, http_code,
  is_retryable, classify_response,
}
use db_first_practice.Builtins.Find.{ends_with}
use db_first_practice.App.Dispatcher.Classify.{classify_response_202}

ends_with-append : (suffix s : Text) → ends_with suffix (s ++ suffix) ≡ true
ends_with-append [] [] = unfold text_eq in refl
ends_with-append (x ∷ suffix) [] = ground (arith, text_eq_refl (x ∷ suffix))
ends_with-append suffix (c ∷ s) = ground (arith, ends_with-append suffix s)

-- texts that end alike end in the same character
ends_with-last :
    (x : ℕ) (suffix s : Text) → ends_with (x ∷ suffix) s ≡ true → last? s ≡ last? (x ∷ suffix)
ends_with-last x suffix [] h = ground (arith, text_eq_iff [] (x ∷ suffix))
ends_with-last x suffix (c ∷ []) h =
    ground (arith, text_eq_iff (c ∷ []) (x ∷ suffix), text_eq_iff [] (x ∷ suffix))
ends_with-last x suffix (c ∷ d ∷ s) h =
    ground (arith, text_eq_iff (c ∷ d ∷ s) (x ∷ suffix), ends_with-last x suffix (d ∷ s))

last?-append : (s : Text) (x : ℕ) (t : Text) → last? (s ++ x ∷ t) ≡ last? (x ∷ t)
last?-append [] x t = refl
last?-append (c ∷ []) x t = refl
last?-append (c ∷ d ∷ s) x t = last?-append (d ∷ s) x t

rejected_payment :
    (v : Value) {c : Text} → payment_verdict v ≡ rejected c → c ≡ txt "response.invalid.terminal"
unfolding payment_verdict
rejected_payment (str []) h = ground arith
rejected_payment (str (x ∷ s)) h = cc
rejected_payment null h = ground arith
rejected_payment (bool b) h = ground arith
rejected_payment (int n) h = ground arith
rejected_payment (float m k) h = ground arith
rejected_payment (special x) h = ground arith
rejected_payment (arr vs) h = ground arith
rejected_payment (obj d) h = ground arith

rejected_payload :
    (v : Value) {c : Text} → accepted_payload v ≡ rejected c → c ≡ txt "response.invalid.terminal"
unfolding accepted_payload
rejected_payload (obj d) {c} h =
    ground (arith, rejected_payment (get_or_null (txt "providerPaymentId") d) {c = c})
rejected_payload (str s) h = ground arith
rejected_payload null h = ground arith
rejected_payload (bool b) h = ground arith
rejected_payload (int n) h = ground arith
rejected_payload (float m k) h = ground arith
rejected_payload (special x) h = ground arith
rejected_payload (arr vs) h = ground arith

rejected_parsed :
    (o : Loaded) {c : Text}
    → parsed_payload o ≡ some (rejected c)
    → c ≡ txt "response.invalid.terminal"
unfolding parsed_payload
rejected_parsed malformed h = let same = some_injective h in ground arith
rejected_parsed interrupted h = cc
rejected_parsed (value v) h = rejected_payload v (some_injective h)

rejected_decoded :
    (limits : Limits) (o : Option Text) {c : Text}
    → decoded_payload limits o ≡ some (rejected c)
    → c ≡ txt "response.invalid.terminal"
unfolding decoded_payload
rejected_decoded limits none h = let same = some_injective h in ground arith
rejected_decoded limits (some t) h = rejected_parsed (load limits t) h

terminal_payload : ends_with (txt ".retryable") (txt "response.invalid.terminal") ≡ false
unfolding txt text_eq
terminal_payload = refl

http_code_retryable :
    (status : ℕ) → ends_with (txt ".retryable") (http_code status (txt ".retryable")) ≡ true
unfolding http_code
http_code_retryable status =
    ap (ends_with (txt ".retryable")) (sym (append_assoc (txt "http.") (print_nat status) _))
    ∙ ends_with-append (txt ".retryable") (txt "http." ++ print_nat status)

last-terminal : (s : Text) → last? (s ++ txt ".terminal") ≡ some b'l'
unfolding txt
last-terminal s = last?-append s _ _

not_true : (b : Bool) → (b ≡ true → ⊥) → b ≡ false
not_true true h = absurd (h refl)
not_true false h = refl

retryable_last : (s : Text) → ends_with (txt ".retryable") s ≡ true → last? s ≡ some b'e'
unfolding txt
retryable_last s h = ends_with-last _ _ s h

http_code_terminal :
    (status : ℕ) → ends_with (txt ".retryable") (http_code status (txt ".terminal")) ≡ false
unfolding http_code
http_code_terminal status = not_true _ λ h.
    let e : some b'e' ≡ some b'l' =
      sym (retryable_last _ h)
      ∙ ap last? (sym (append_assoc (txt "http.") (print_nat status) _))
      ∙ last-terminal (txt "http." ++ print_nat status) in
    omega (arith, some_injective e)

rejected_injective : {c d : Text} → rejected c ≡ rejected d → c ≡ d
rejected_injective h = cc

rejected_code :
    (limits : Limits) (status : ℕ) (body : Bytes) {code : Text}
    → (status == 202) ≡ false
    → classify_response limits status body ≡ some (rejected code)
    → http_code status (if is_retryable status then txt ".retryable" else txt ".terminal") ≡ code
unfolding classify_response
rejected_code limits status body other h =
    rejected_injective (some_injective (rw (classify_response, other) at h))

-- The statuses for which a delivery may be tried again.
abbrev pub IsTransient : ℕ → Type 0
IsTransient status = (status ≡ 408) ⊎ (status ≡ 429) ⊎ ((500 ≤ status) × (status ≤ 599))

is_retryable-IsTransient : (status : ℕ) → (is_retryable status ≡ true) ↔ IsTransient status
unfolding is_retryable
is_retryable-IsTransient status = ground arith

-- The error code of a rejected response ends in `.retryable` exactly for the statuses 408, 429 and 500 to
-- 599; a 202 whose body is no acceptance is terminal.
pub classify_response-retryable :
    (limits : Limits) (status : ℕ) (body : Bytes) {code : Text}
    → classify_response limits status body ≡ some (rejected code)
    → (ends_with (txt ".retryable") code ≡ true) ↔ IsTransient status
classify_response-retryable limits status body {code} h = elim (Bool-cases (status == 202)) [
  | inl ok ↦
      let e : status ≡ 202 = ground arith in
      let c = rejected_decoded limits _ (
        sym (classify_response_202 limits body)
        ∙ ap (λ s. classify_response limits s body) (sym e)
        ∙ h) in
      let never = ap (ends_with (txt ".retryable")) c ∙ terminal_payload in
      (λ again. cc (sym never ∙ again), λ transient. absurd (ground arith))
  | inr other ↦ elim (Bool-cases (is_retryable status)) [
    | inl again ↦
        let code_is = rw again at (rejected_code limits status body other h) in
        (
          λ ends. (is_retryable-IsTransient status).0 again,
          λ transient. ap (ends_with (txt ".retryable")) (sym code_is) ∙ http_code_retryable status,
        )
    | inr never ↦
        let code_is = rw never at (rejected_code limits status body other h) in
        let terminal =
          ap (ends_with (txt ".retryable")) (sym code_is) ∙ http_code_terminal status in
        (
          λ ends. cc (sym terminal ∙ ends),
          λ transient. cc (sym never ∙ (is_retryable-IsTransient status).1 transient),
        )
  ]
]
