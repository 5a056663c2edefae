-- ===== src/Week4/Receipt/Agree.antt =====
-- The checker and the adapter build and sign the same receipt.
use db_first_practice.Common.{
  ◌≡◌, sym, ◌∙◌, ◌↔◌, refl, ap, false, not, List, [], ◌∷◌, arith, Text, txt,
}
use db_first_practice.Common.Results.{
  ok, ok_injective, raise_if, raise_if-ok, raise_if-false, raise_if-pass, bind-ok, >>=-eq-ok,
}
use db_first_practice.Json.{
  Value, null, bool, int, float, special, str, arr, obj, Fields, get_or_null,
}
use db_first_practice.App.Receipt.{
  check_texts, normalize_receipt, validate_legacy, invalid_outcome, invalid_time, invalid_message,
  text_fields, invalid_text, invalid_note, breaks_line,
}
use db_first_practice.App.Receipt.Accept.{validate_legacy-Passed}
use db_first_practice.Week4.Receipt.{
  bad_line, bad_message, check_lines, check_result, normalized_receipt,
}

bad_line-invalid_text : (v : Value) → bad_line v ≡ invalid_text v
unfolding bad_line invalid_text breaks_line
bad_line-invalid_text (str s) = ground arith
bad_line-invalid_text null = refl
bad_line-invalid_text (bool b) = refl
bad_line-invalid_text (int n) = refl
bad_line-invalid_text (float m k) = refl
bad_line-invalid_text (special x) = refl
bad_line-invalid_text (arr vs) = refl
bad_line-invalid_text (obj d) = refl

bad_message-invalid_note : (v : Value) → bad_message v ≡ invalid_note v
unfolding bad_message invalid_note breaks_line
bad_message-invalid_note (str s) = ground arith
bad_message-invalid_note null = refl
bad_message-invalid_note (bool b) = refl
bad_message-invalid_note (int n) = refl
bad_message-invalid_note (float m k) = refl
bad_message-invalid_note (special x) = refl
bad_message-invalid_note (arr vs) = refl
bad_message-invalid_note (obj d) = refl

check_lines-check_texts :
    (names : List Text) (d : Fields) → check_texts names d ≡ ok tt → check_lines names d ≡ ok tt
unfolding check_texts check_lines
check_lines-check_texts [] d h = refl
check_lines-check_texts (name ∷ names) d h =
    let (a, rest) = raise_if-ok _ _ _ h in
    raise_if-pass _ _ _ (bad_line-invalid_text _ ∙ a) (check_lines-check_texts names d rest)

check_result-outcome : (v : Value) → invalid_outcome v ≡ false → check_result v ≡ ok tt
unfolding invalid_outcome check_result
check_result-outcome (str s) h = ground arith
check_result-outcome null h = cc
check_result-outcome (bool b) h = cc
check_result-outcome (int n) h = cc
check_result-outcome (float m k) h = cc
check_result-outcome (special x) h = cc
check_result-outcome (arr vs) h = cc
check_result-outcome (obj d) h = cc

check_texts-check_lines :
    (names : List Text) (d : Fields) → check_lines names d ≡ ok tt → check_texts names d ≡ ok tt
unfolding check_texts check_lines
check_texts-check_lines [] d h = refl
check_texts-check_lines (name ∷ names) d h =
    let (a, rest) = raise_if-ok _ _ _ h in
    raise_if-pass _ _ _ (sym (bad_line-invalid_text _) ∙ a) (check_texts-check_lines names d rest)

outcome-check_result :
    (v : Value) {u : Unit {0}} → check_result v ≡ ok u → invalid_outcome v ≡ false
unfolding invalid_outcome check_result
outcome-check_result (str s) h = raise_if-false _ _ h
outcome-check_result null h = cc
outcome-check_result (bool b) h = cc
outcome-check_result (int n) h = cc
outcome-check_result (float m k) h = cc
outcome-check_result (special x) h = cc
outcome-check_result (arr vs) h = cc
outcome-check_result (obj d) h = cc

accepted-normalized :
    (legacy r : Fields)
    → normalize_receipt (obj legacy) ≡ ok r
    → (normalized_receipt legacy ≡ ok r)
      × (invalid_time (get_or_null (txt "occurredAt") legacy) ≡ false)
unfolding normalize_receipt normalized_receipt
accepted-normalized legacy r h =
    let (u, a, e) = >>=-eq-ok _ _ h in
    let p = validate_legacy-Passed legacy a in
    (
      raise_if-pass _ _ _ (ap not p.fields) (
          bind-ok _ _ (check_lines-check_texts text_fields legacy p.texts) (
            bind-ok _ _ (check_result-outcome _ p.outcome) (
              raise_if-pass _ _ _ (bad_message-invalid_note _ ∙ p.note) (ap ok (ok_injective e))))),
      p.time,
    )

normalized-accepted :
    (legacy r : Fields)
    → normalized_receipt legacy ≡ ok r
    → invalid_time (get_or_null (txt "occurredAt") legacy) ≡ false
    → normalize_receipt (obj legacy) ≡ ok r
unfolding normalize_receipt normalized_receipt validate_legacy
normalized-accepted legacy r h time =
    let (fields, h1) = raise_if-ok _ _ _ h in
    let (u, lines, h2) = >>=-eq-ok _ _ h1 in
    let (w, outcome, h3) = >>=-eq-ok _ _ h2 in
    let (note, e) = raise_if-ok _ _ _ h3 in
    bind-ok _ _
      (raise_if-pass _ _ _ fields (
        bind-ok _ _ (check_texts-check_lines text_fields legacy lines) (
          raise_if-pass _ _ _ time (
            raise_if-pass _ _ _ (outcome-check_result _ outcome)
              (ap (λ t. raise_if t invalid_message) (sym (bad_message-invalid_note _) ∙ note))))))
      (ap ok (ok_injective e))

-- The adapter turns an object into a receipt exactly when the checker turns it into the same receipt
-- and its `occurredAt` is a UTC time, which the checker does not test.
pub normalized_receipt-agrees :
    (legacy r : Fields)
    → (normalize_receipt (obj legacy) ≡ ok r) ↔ (
        (normalized_receipt legacy ≡ ok r)
        × (invalid_time (get_or_null (txt "occurredAt") legacy) ≡ false))
normalized_receipt-agrees legacy r =
    (accepted-normalized legacy r, λ p. let (a, time) = p in normalized-accepted legacy r a time)
