-- ===== src/App/Adapter/Read.antt =====
-- What the handler reads of a request: a callback, a refusal, or a text that the interpreter cannot read.
use db_first_practice.Common.{
  ℕ, ◌≤◌, ◌≡◌, refl, sym, ap, ◌∙◌, Bool, true, false, not, inl, inr, Option, none, some, arith,
  Text, text_eq, text_eq_iff, take, Bool, Bool-cases, Option-cases, if◌then◌else◌,
}
use db_first_practice.Common.Int.{ℤ, pos, negsuc, pos_part}
use db_first_practice.Common.Results.{
  ok, err, or_raise, or_raise-ok, raise_if-ok, raise_if-pass, bind-ok, >>=-eq-ok, Result-cases,
  Result, raise_if, ok_injective, ◌>>=◌, ◌>>◌,
}
use db_first_practice.Builtins.{before}
use db_first_practice.Json.{Value, str, obj, Fields, is_dict, null, bool, int, float, special, arr}
use db_first_practice.Json.Parse.{loads}
use db_first_practice.Json.Parse.Limits.{Limits, interrupts, load, interrupted}
use db_first_practice.Json.Utf8.{decode}
use db_first_practice.App.Config.{AdapterConfig}
use db_first_practice.App.Receipt.{normalize_receipt}
use db_first_practice.App.Receipt.Accept.{
  Legacy, IsAdmitted, Carries, receipt_of, normalize_receipt_sound, normalize_receipt_complete,
}
use db_first_practice.App.Adapter.{
  Incoming, Stop, refused, uncaught_error, or_stop, declared_length, bad_length, or_status,
  expected_path, read_receipt,
}

-- The request is for the callback path, declares a length from 1 to 64 KiB, and its bytes are a
-- JSON object within the interpreter's limits that carries the callback `l`, which is admitted.
pub record IsCallback (limits : Limits) (cfg : AdapterConfig) (incoming : Incoming) (l : Legacy)
    : Type 0 where
  pub path : before b'?' incoming.path ≡ expected_path cfg
  pub size : ℕ
  pub declared : declared_length incoming.content_length ≡ some (pos size)
  pub positive : 1 ≤ size
  pub bounded : size ≤ 65536
  pub text : Text
  pub decoded : decode (take size incoming.stream) ≡ some text
  pub finished : interrupts limits text ≡ false
  pub fields : Fields
  pub parsed : loads text ≡ some (obj fields)
  pub carries : Carries fields l
  pub valid : IsAdmitted l

-- The request is for the callback path and its bytes are a text at which a limit of the interpreter
-- is passed.
pub record IsInterrupted (limits : Limits) (cfg : AdapterConfig) (incoming : Incoming)
    : Type 0 where
  pub path : before b'?' incoming.path ≡ expected_path cfg
  pub size : ℕ
  pub declared : declared_length incoming.content_length ≡ some (pos size)
  pub positive : 1 ≤ size
  pub bounded : size ≤ 65536
  pub text : Text
  pub decoded : decode (take size incoming.stream) ≡ some text
  pub passed : interrupts limits text ≡ true

or_stop-ok :
    (limits : Limits) (s : Text) {v : Value}
    → or_stop (load limits s) ≡ ok v
    → (interrupts limits s ≡ false) × (loads s ≡ some v)
unfolding load
or_stop-ok limits s h = elim (Bool-cases (interrupts limits s)) [
  | inl passed ↦ let bad = rw (load, passed) at h in cc
  | inr fine ↦ elim (Option-cases (loads s)) [
    | inl e ↦ let bad = rw (load, fine, e) at h in cc
    | inr (w, e) ↦ (fine, e ∙ ap some (ok_injective (rw (load, fine, e) at h)))
  ]
]

load-value :
    (limits : Limits) (s : Text) {v : Value}
    → interrupts limits s ≡ false
    → loads s ≡ some v
    → or_stop (load limits s) ≡ ok v
unfolding load
load-value limits s fine e = rw (load, fine, e) refl

load-interrupted :
    (limits : Limits) (s : Text) → interrupts limits s ≡ true → load limits s ≡ interrupted
unfolding load
load-interrupted limits s passed = rw (load, passed) refl

or_stop-uncaught :
    (limits : Limits) (s : Text)
    → or_stop (load limits s) ≡ err uncaught_error
    → interrupts limits s ≡ true
unfolding load
or_stop-uncaught limits s h = elim (Bool-cases (interrupts limits s)) [
  | inl passed ↦ passed
  | inr fine ↦ elim (Option-cases (loads s)) [
    | inl e ↦ let bad = rw (load, fine, e) at h in cc
    | inr (w, e) ↦ let bad = rw (load, fine, e) at h in cc
  ]
]

good_length : (n : ℤ) → bad_length n ≡ false → (k : ℕ) × (n ≡ pos k) × (1 ≤ k) × (k ≤ 65536)
good_length (pos k) h = (k, refl, ground arith, ground arith)
good_length (negsuc k) h = absurd (ground arith)

length_good : (k : ℕ) → 1 ≤ k → k ≤ 65536 → bad_length (pos k) ≡ false
length_good k a b = ground arith

dict_fields : (v : Value) → not (is_dict v) ≡ false → (d : Fields) × (v ≡ obj d)
dict_fields (obj d) h = (d, refl)
dict_fields null h = cc
dict_fields (bool b) h = cc
dict_fields (int n) h = cc
dict_fields (float m k) h = cc
dict_fields (special x) h = cc
dict_fields (str s) h = cc
dict_fields (arr vs) h = cc

or_status-ok :
    (v : Value) {r : Fields} → or_status (normalize_receipt v) ≡ ok r → normalize_receipt v ≡ ok r
or_status-ok v h = ground arith

of_not-false : (b : Bool) → not b ≡ false → b ≡ true
of_not-false b h = ground arith

err_injective : {E A : Type 0} {d e : E} → ◌≡◌ {A = Result E A} (err d) (err e) → d ≡ e
err_injective h = cc

raise_if-uncaught :
    {A : Type 0} (test : Bool) (status : ℕ) (m : Result Stop A)
    → (raise_if test (refused status) >> m) ≡ err uncaught_error
    → (test ≡ false) × (m ≡ err uncaught_error)
raise_if-uncaught true status m h = cc
raise_if-uncaught false status m h = (refl, h)

or_raise-uncaught :
    {A B : Type 0} (o : Option A) (status : ℕ) (f : A → Result Stop B)
    → (or_raise o (refused status) >>= f) ≡ err uncaught_error
    → (a : A) × (o ≡ some a) × (f a ≡ err uncaught_error)
or_raise-uncaught none status f h = cc
or_raise-uncaught (some a) status f h = (a, refl, h)

-- what is read is accepted, or refused with a status
receipt-caught :
    (v : Value)
    → (raise_if (not (is_dict v)) (refused 400) >> or_status (normalize_receipt v))
      ≡ err uncaught_error
    → ⊥
receipt-caught v h =
    let (object, h1) =
      raise_if-uncaught (not (is_dict v)) 400 (or_status (normalize_receipt v)) h in
    elim (Result-cases (normalize_receipt v)) [
      | inl (r, e) ↦ cc (rw e at h1)
      | inr (x, e) ↦ cc (rw e at h1)
    ]

module _ (limits : Limits) (cfg : AdapterConfig) (incoming : Incoming) where
  pub read_receipt_sound :
      {r : Fields}
      → read_receipt limits cfg incoming ≡ ok r
      → (l : Legacy) × IsCallback limits cfg incoming l × (r ≡ receipt_of l)
  unfolding read_receipt
  read_receipt_sound h =
      let (path, h1) = raise_if-ok _ _ _ h in
      let (n, declared, h2) = >>=-eq-ok _ _ h1 in
      let (range, h3) = raise_if-ok _ _ _ h2 in
      let (s, decoded, h4) = >>=-eq-ok _ _ h3 in
      let (v, parsed, h5) = >>=-eq-ok _ _ h4 in
      let (object, h6) = raise_if-ok _ _ _ h5 in
      let (k, ek, low, high) = good_length n range in
      let (d', ed) = dict_fields v object in
      let (d, l, e, carries, valid, made) = normalize_receipt_sound v (or_status-ok v h6) in
      (
        l,
        record {
          path = (text_eq_iff _ _).0 (of_not-false _ path);
          size = k;
          declared = or_raise-ok _ _ declared ∙ ap some ek;
          positive = low;
          bounded = high;
          text = s;
          decoded =
              ap (λ m. decode (take (pos_part m) incoming.stream)) (sym ek)
              ∙ or_raise-ok _ _ decoded;
          fields = d;
          finished = (or_stop-ok limits s parsed).0;
          parsed = (or_stop-ok limits s parsed).1 ∙ ap some e;
          carries = carries;
          valid = valid;
        },
        made,
      )

  pub read_receipt_complete :
      (l : Legacy)
      → IsCallback limits cfg incoming l
      → read_receipt limits cfg incoming ≡ ok (receipt_of l)
  unfolding read_receipt
  read_receipt_complete l c = raise_if-pass _ _ _ (ap not ((text_eq_iff _ _).1 c.path)) (
      bind-ok _ _ (ap (λ o. or_raise o (refused 400)) c.declared) (
        raise_if-pass _ _ _ (length_good c.size c.positive c.bounded) (
          bind-ok _ _ (ap (λ o. or_raise o (refused 400)) c.decoded) (
            bind-ok _ _ (load-value limits c.text c.finished c.parsed)
              (ap or_status (normalize_receipt_complete c.fields l c.carries c.valid))))))

  -- a refusal is 404 for another path, and 400 for everything else
  pub read_receipt-status :
      {status : ℕ}
      → read_receipt limits cfg incoming ≡ err (refused status)
      → (status ≡ (if text_eq (before b'?' incoming.path) (expected_path cfg) then 400 else 404))
  unfolding read_receipt
  read_receipt-status h = ground arith

  -- only the limits of the interpreter stop the reading without an answer
  pub read_receipt-uncaught :
      read_receipt limits cfg incoming ≡ err uncaught_error → IsInterrupted limits cfg incoming
  unfolding read_receipt
  read_receipt-uncaught h =
      let (path, h1) = raise_if-uncaught _ _ _ h in
      let (n, declared, h2) = or_raise-uncaught _ _ _ h1 in
      let (range, h3) = raise_if-uncaught _ _ _ h2 in
      let (s, decoded, h4) = or_raise-uncaught _ _ _ h3 in
      let (k, ek, low, high) = good_length n range in
      record {
        path = (text_eq_iff _ _).0 (of_not-false _ path);
        size = k;
        declared = declared ∙ ap some ek;
        positive = low;
        bounded = high;
        text = s;
        decoded = ap (λ m. decode (take (pos_part m) incoming.stream)) (sym ek) ∙ decoded;
        passed = elim (Result-cases (or_stop (load limits s))) [
          | inr (e, stopped) ↦
              or_stop-uncaught limits s (stopped ∙ ap err (err_injective (rw stopped at h4)))
          | inl (v, read) ↦ absurd (receipt-caught v (rw read at h4))
        ];
      }

  pub read_receipt-interrupted :
      IsInterrupted limits cfg incoming → read_receipt limits cfg incoming ≡ err uncaught_error
  unfolding read_receipt
  read_receipt-interrupted c = raise_if-pass _ _ _ (ap not ((text_eq_iff _ _).1 c.path)) (
      bind-ok _ _ (ap (λ o. or_raise o (refused 400)) c.declared) (
        raise_if-pass _ _ _ (length_good c.size c.positive c.bounded) (
          bind-ok _ _ (ap (λ o. or_raise o (refused 400)) c.decoded)
            (rw (load-interrupted limits c.text c.passed) refl))))
