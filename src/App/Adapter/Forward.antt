-- ===== src/App/Adapter/Forward.antt =====
-- What reaches the API, and what the provider is answered.
use db_first_practice.Common.{
  ℕ, ◌≡◌, refl, sym, ap, subst, ◌∙◌, false, inl, inr, Option, none, some, ◌++◌, arith, Text, txt,
  text_eq, all, ◌&&◌, is_some, Option-cases, some_injective, if◌then◌else◌,
}
use db_first_practice.Common.Results.{ok, err, Result-cases}
use db_first_practice.Builtins.{before}
use db_first_practice.Json.{get, Fields}
use db_first_practice.Json.Parse.Limits.{Limits}
use db_first_practice.Json.Utf8.{Bytes, is_scalar}
use db_first_practice.App.Config.{AdapterConfig}
use db_first_practice.App.Http.{Request, Urlopen, Headers, response, post_json, header}
use db_first_practice.App.Receipt.{canonical_bytes, sign}
use db_first_practice.App.Receipt.Accept.{Legacy, receipt_of}
use db_first_practice.App.Receipt.Canonical.{is_some-canonical_bytes}
use db_first_practice.App.Adapter.{
  Incoming, Outcome, refused, uncaught_error, send_raw, send_empty, expected_path, read_receipt,
  forward, api_headers, signed_request, api_request, relay, do_post,
}
use db_first_practice.App.Adapter.Read.{
  IsCallback, IsInterrupted, read_receipt_sound, read_receipt_complete, read_receipt-status,
  read_receipt-uncaught, read_receipt-interrupted,
}

-- The request that is made of a callback: the canonical bytes of its receipt, signed with the
-- configured secret, to the configured address, and keyed by the provider's payment.
pub record IsSigned (hmac_hex : Bytes → Bytes → Text) (cfg : AdapterConfig) (l : Legacy)
    (request : Request) : Type 0 where
  pub signature : Text
  pub bytes : canonical_bytes (receipt_of l) ≡ some request.payload
  pub signed : sign hmac_hex cfg.hmac_secret request.payload ≡ some signature
  pub url : request.url ≡ cfg.receipt_api_url
  pub timeout : request.timeout ≡ cfg.api_timeout
  pub authorization :
      header (txt "Authorization") request.headers ≡ some (txt "Bearer " ++ cfg.token)
  pub key : header (txt "Idempotency-Key") request.headers ≡ some l.payment_id
  pub signature_header : header (txt "X-Provider-Signature") request.headers ≡ some signature

signed_request-IsSigned :
    (hmac_hex : Bytes → Bytes → Text) (cfg : AdapterConfig) (l : Legacy) {body : Bytes} {s : Text}
    → canonical_bytes (receipt_of l) ≡ some body
    → sign hmac_hex cfg.hmac_secret body ≡ some s
    → IsSigned hmac_hex cfg l (signed_request cfg (receipt_of l) body s)
unfolding api_headers header get text_eq txt
signed_request-IsSigned hmac_hex cfg l {body} {s} e f = record {
  signature = s;
  bytes = e;
  signed = f;
  url = refl;
  timeout = refl;
  authorization = refl;
  key = refl;
  signature_header = refl;
}

module _ (hmac_hex : Bytes → Bytes → Text) (cfg : AdapterConfig) (l : Legacy) where
  api_request_eq :
      {b : Bytes} {s : Text}
      → canonical_bytes (receipt_of l) ≡ some b
      → sign hmac_hex cfg.hmac_secret b ≡ some s
      → api_request hmac_hex cfg (receipt_of l) ≡ some (signed_request cfg (receipt_of l) b s)
  unfolding api_request
  api_request_eq e f = ground arith

  api_request-none :
      is_some (canonical_bytes (receipt_of l)) ≡ false
      → api_request hmac_hex cfg (receipt_of l) ≡ none
  unfolding api_request
  api_request-none h = ground arith

  api_request-IsSigned :
      {request : Request}
      → api_request hmac_hex cfg (receipt_of l) ≡ some request
      → IsSigned hmac_hex cfg l request
  api_request-IsSigned h = elim (Option-cases (canonical_bytes (receipt_of l))) [
    | inl e ↦ absurd (unfold api_request in ground arith)
    | inr (b, e) ↦ elim (Option-cases (sign hmac_hex cfg.hmac_secret b)) [
      | inl f ↦ absurd (unfold api_request in ground arith)
      | inr (s, f) ↦
          subst (IsSigned hmac_hex cfg l) (some_injective (sym (api_request_eq e f) ∙ h))
            (signed_request-IsSigned hmac_hex cfg l e f)
    ]
  ]

module _ (limits : Limits) (network : Request → Urlopen) (hmac_hex : Bytes → Bytes → Text)
    (cfg : AdapterConfig) where
  do_post-ok :
      (incoming : Incoming) {r : Fields}
      → read_receipt limits cfg incoming ≡ ok r
      → do_post limits network hmac_hex cfg incoming ≡ forward network (api_request hmac_hex cfg r)
  unfolding do_post
  do_post-ok incoming e = ground arith

  do_post-err :
      (incoming : Incoming) {status : ℕ}
      → read_receipt limits cfg incoming ≡ err (refused status)
      → do_post limits network hmac_hex cfg incoming
        ≡ record { sent = some (send_empty status); asked = none }
  unfolding do_post
  do_post-err incoming e = rw (do_post, e) refl

  do_post-uncaught :
      (incoming : Incoming)
      → read_receipt limits cfg incoming ≡ err uncaught_error
      → do_post limits network hmac_hex cfg incoming ≡ record { sent = none; asked = none }
  unfolding do_post
  do_post-uncaught incoming e = rw (do_post, e) refl

  asked-forward : (o : Option Request) → (forward network o).asked ≡ o
  unfolding forward
  asked-forward none = refl
  asked-forward (some q) = refl

  sent-forward : (q : Request) → (forward network (some q)).sent ≡ relay (post_json network q)
  unfolding forward
  sent-forward q = refl

  -- `urlopen` is called only for an admitted callback on the callback path, and with the signed request
  -- of that callback. The provider is then answered with what `post_json` gave: the API's response, 503
  -- for a transport error, and nothing if another exception ends the handler, such as for a header that
  -- has no encoding. A callback is admitted within the code's own bounds, by which `occurredAt` may have
  -- 128 characters.
  pub do_post-forwards :
      (incoming : Incoming) {request : Request}
      → (do_post limits network hmac_hex cfg incoming).asked ≡ some request
      → (l : Legacy) × IsCallback limits cfg incoming l
        × IsSigned hmac_hex cfg l request
        × ((do_post limits network hmac_hex cfg incoming).sent ≡ relay (post_json network request))
  do_post-forwards incoming {request} h = elim (Result-cases (read_receipt limits cfg incoming)) [
    | inr (refused status, e) ↦ absurd (cc (ap (λ o. o.asked) (do_post-err incoming e)))
    | inr (uncaught_error, e) ↦ absurd (cc (ap (λ o. o.asked) (do_post-uncaught incoming e)))
    | inl (r, e) ↦
        let (l, c, made) = read_receipt_sound limits cfg incoming e in
        let step = do_post-ok incoming e in
        let asked : api_request hmac_hex cfg r ≡ some request =
          sym (asked-forward _) ∙ sym (ap (λ (o : Outcome). o.asked) step) ∙ h in
        (
          l,
          c,
          api_request-IsSigned hmac_hex cfg l (ap (api_request hmac_hex cfg) (sym made) ∙ asked),
          ap (λ (o : Outcome). o.sent) step
              ∙ ap (λ o. (forward network o).sent) asked
              ∙ sent-forward request,
        )
  ]

  pub do_post-posts :
      (incoming : Incoming) (l : Legacy) {body : Bytes} {signature : Text}
      → IsCallback limits cfg incoming l
      → canonical_bytes (receipt_of l) ≡ some body
      → sign hmac_hex cfg.hmac_secret body ≡ some signature
      → ((do_post limits network hmac_hex cfg incoming).asked
          ≡ some (signed_request cfg (receipt_of l) body signature))
        × ((status : ℕ) (answer : Bytes) (headers : Headers)
            → network (signed_request cfg (receipt_of l) body signature)
              ≡ response status answer headers
            → (do_post limits network hmac_hex cfg incoming).sent
              ≡ some (send_raw status answer (header (txt "Content-Type") headers)))
  unfolding relay post_json
  do_post-posts incoming l c e f =
      let step = do_post-ok incoming (read_receipt_complete limits cfg incoming l c) in
      let made = api_request_eq hmac_hex cfg l e f in
      (
        ap (λ (o : Outcome). o.asked) step ∙ asked-forward _ ∙ made,
        λ status answer headers returned.
            ap (λ (o : Outcome). o.sent) step
            ∙ ap (λ o. (forward network o).sent) made
            ∙ sent-forward (signed_request cfg (receipt_of l) _ _)
            ∙ rw (post_json, returned) refl,
      )

  -- Whatever is no admitted callback, and passes no limit of the interpreter, is answered with an empty
  -- 404 off the callback path and an empty 400 on it, and `urlopen` is not called.
  pub do_post-refuses :
      (incoming : Incoming)
      → ((l : Legacy) → ¬ (IsCallback limits cfg incoming l))
      → ¬ (IsInterrupted limits cfg incoming)
      → do_post limits network hmac_hex cfg incoming ≡ record {
        sent = some (
            send_empty
              (if text_eq (before b'?' incoming.path) (expected_path cfg) then 400 else 404));
        asked = none;
      }
  do_post-refuses incoming bad fine = elim (Result-cases (read_receipt limits cfg incoming)) [
    | inl (r, e) ↦ let (l, c, made) = read_receipt_sound limits cfg incoming e in absurd (bad l c)
    | inr (uncaught_error, e) ↦ absurd (fine (read_receipt-uncaught limits cfg incoming e))
    | inr (refused status, e) ↦
        do_post-err incoming e
        ∙ ap (λ s. record { sent = some (send_empty s); asked = none })
            (read_receipt-status limits cfg incoming e)
  ]

  -- A body on the callback path at which a limit of the interpreter is passed, by an integer with too many
  -- digits or by deep nesting, is not answered at all: the handler catches JSONDecodeError only.
  pub do_post-interrupted :
      (incoming : Incoming)
      → IsInterrupted limits cfg incoming
      → do_post limits network hmac_hex cfg incoming ≡ record { sent = none; asked = none }
  do_post-interrupted incoming c =
      do_post-uncaught incoming (read_receipt-interrupted limits cfg incoming c)

  -- An admitted callback with a lone surrogate in its operation or payment is not answered at all: the
  -- canonical bytes cannot be encoded, and no handler catches that.
  pub do_post-surrogate :
      (incoming : Incoming) (l : Legacy)
      → IsCallback limits cfg incoming l
      → (all is_scalar l.operation_id && all is_scalar l.payment_id) ≡ false
      → do_post limits network hmac_hex cfg incoming ≡ record { sent = none; asked = none }
  do_post-surrogate incoming l c h =
      do_post-ok incoming (read_receipt_complete limits cfg incoming l c)
      ∙ ap (forward network)
          (api_request-none hmac_hex cfg l (is_some-canonical_bytes l ∙ ground arith))
      ∙ (unfold forward in refl)
