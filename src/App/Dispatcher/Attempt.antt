-- ===== src/App/Dispatcher/Attempt.antt =====
-- Every claimed delivery is finished once, under its own lease, by the call that the provider's answer
-- asks for.
use db_first_practice.Common.{
  ℕ, ◌≡◌, ◌≢◌, refl, sym, ap, ◌∙◌, true, Option, none, some, List, [], ◌∷◌, ◌++◌, length, arith,
  Text, txt, is_some, All, Bool, not, ltb, ◌==◌, ◌&&◌, ◌||◌, all, some_injective, subst, ◌⊎◌, inl,
  inr, Option-cases,
}
use mathlib.Core.List.{append_assoc, append-nil}
use db_first_practice.Common.Results.{Result, ok, err}
use db_first_practice.Json.Utf8.{Bytes, encode}
use db_first_practice.Json.Parse.Limits.{Limits}
use db_first_practice.App.Dispatcher.Classify.{IsReadable, is_some-classify_response}
use db_first_practice.App.Config.{DispatcherConfig}
use db_first_practice.App.Http.{
  Headers, Request, Urlopen, raises, Posted, answered, transport_error, uncaught, post_json,
}
use db_first_practice.App.Worker.{
  Row, Services, Event, Effect, claimed, posted, succeeded, failed, reconciled, printed, slept,
  Failure, db_error, crash, State, Exec, pure, print, continue, recover, db_result, db_call, ◌>>=◌,
  dispatcher_db_error, attempt_delivered, attempt_failed, attempt_retryable,
}
use db_first_practice.App.Dispatcher.{
  Verdict, accepted, rejected, provider_body, provider_headers, build_provider_request, succeed,
  fail, post, settle, conclude, settle_classified, classify_response, provider_request,
  attempt_with, attempt, attempt_all, claim, run_once,
}

-- the finishing calls of a log, in order
abbrev pub finishes : List Effect → List Effect
finishes [] = []
finishes (succeeded id owner lease p ∷ es) = succeeded id owner lease p ∷ finishes es
finishes (failed id owner lease c ∷ es) = failed id owner lease c ∷ finishes es
finishes (claimed o n ∷ es) = finishes es
finishes (posted q ∷ es) = finishes es
finishes (reconciled n ∷ es) = finishes es
finishes (printed e ∷ es) = finishes es
finishes (slept n ∷ es) = finishes es

finishes-append : (xs ys : List Effect) → finishes (xs ++ ys) ≡ finishes xs ++ finishes ys
finishes-append [] ys = refl
finishes-append (succeeded id owner lease p ∷ es) ys =
    ap (λ l. succeeded id owner lease p ∷ l) (finishes-append es ys)
finishes-append (failed id owner lease p ∷ es) ys =
    ap (λ l. failed id owner lease p ∷ l) (finishes-append es ys)
finishes-append (claimed o n ∷ es) ys = finishes-append es ys
finishes-append (posted q ∷ es) ys = finishes-append es ys
finishes-append (reconciled n ∷ es) ys = finishes-append es ys
finishes-append (printed e ∷ es) ys = finishes-append es ys
finishes-append (slept n ∷ es) ys = finishes-append es ys

-- an effect that finishes nothing
finishes-quiet :
    (log : List Effect) (e : Effect)
    → finishes (e ∷ []) ≡ []
    → finishes (log ++ e ∷ []) ≡ finishes log
finishes-quiet log e h =
    finishes-append log (e ∷ []) ∙ ap (λ l. finishes log ++ l) h ∙ append-nil (finishes log)

-- a call that ended with a value or with an error of the database
abbrev Handled {ℓ} : {A : Type ℓ} → Result Failure A → Type 0
Handled (ok a) = Unit
Handled (err (db_error e)) = Unit
Handled (err (crash e)) = ⊥

-- `m` makes exactly these finishing calls, and ends with a value or an error of the database
record Finishes {W A : Type 0} (made : List Effect) (m : Exec W A) (s : State W) : Type 0 where
  handled : Handled (m s).0
  calls : finishes (m s).1.log ≡ finishes s.log ++ made

module _ {W : Type 0} where
  -- what follows a database call prints a line or nothing
  after_call :
      (r : Result Text (Unit {0})) (line : Event) (s : State W)
      → let (r', s') = continue (db_result r) (λ _. print line) s in
        Handled r' × (finishes s'.log ≡ finishes s.log)
  after_call (ok u) line s = (tt, finishes-quiet s.log (printed line) refl)
  after_call (err e) line s = (tt, refl)

  Finishes-db_call :
      (e : Effect) (call : W → Result Text (Unit {0}) × W) (line : Event) (s : State W)
      → Finishes (finishes (e ∷ [])) (db_call e call >>= λ _. print line) s
  Finishes-db_call e call line s =
      let (r, w) = call s.world in
      let (handled, quiet) = after_call r line (record { world = w; log = s.log ++ e ∷ [] }) in
      record { handled = handled; calls = quiet ∙ finishes-append s.log (e ∷ []) }

-- The call that the provider's answer asks for, under the row's lease: a success with the payment that an
-- acceptance names, a failure with the code of a rejection, or a failure that may be retried when there
-- was no answer.
abbrev pub Asks : Limits → DispatcherConfig → Row → Posted → Effect → Type 0
Asks limits cfg row (answered status body headers) e =
    ((p : Text) × (classify_response limits status body ≡ some (accepted p))
      × (e ≡ succeeded row.outbox_id cfg.owner row.lease_version p))
    ⊎ ((c : Text) × (classify_response limits status body ≡ some (rejected c))
        × (e ≡ failed row.outbox_id cfg.owner row.lease_version c))
Asks limits cfg row (transport_error reason) e =
    e ≡ failed row.outbox_id cfg.owner row.lease_version (txt "transport.error.retryable")
Asks limits cfg row (uncaught reason) e = ⊥

-- A payment that the response names can be encoded.
abbrev pub IsPayable : Limits → ℕ → Bytes → Type 0
IsPayable limits status body =
    (p : Text)
    → classify_response limits status body ≡ some (accepted p)
    → is_some (encode p) ≡ true

module _ {W : Type 0} (services : Services W) (cfg : DispatcherConfig) where
  succeed-Finishes :
      (row : Row) (p : Text) (line : Event) (s : State W)
      → is_some (encode p) ≡ true
      → Finishes
          (succeeded row.outbox_id cfg.owner row.lease_version p ∷ [])
          (succeed services cfg row.outbox_id row.lease_version p >>= λ _. print line)
          s
  unfolding succeed
  succeed-Finishes row p line s h = elim (Option-cases (encode p)) [
    | inl e ↦ let bad = rw e at h in cc
    | inr (bytes, e) ↦
        rw (succeed, e)
          (Finishes-db_call (succeeded row.outbox_id cfg.owner row.lease_version p)
            (services.succeed_outbox row.outbox_id cfg.owner row.lease_version p) line s)
  ]

  fail-Finishes :
      (row : Row) (c : Text) (line : Event) (s : State W)
      → Finishes
          (failed row.outbox_id cfg.owner row.lease_version c ∷ [])
          (fail services cfg row.outbox_id row.lease_version c >>= λ _. print line)
          s
  unfolding fail
  fail-Finishes row c line s =
      Finishes-db_call (failed row.outbox_id cfg.owner row.lease_version c)
        (services.fail_outbox row.outbox_id cfg.owner row.lease_version c) line s

  settle_classified-Finishes :
      (row : Row) (status : ℕ) (o : Option Verdict) (s : State W)
      → is_some o ≡ true
      → ((p : Text) → o ≡ some (accepted p) → is_some (encode p) ≡ true)
      → (e : Effect) × (((p : Text) × (o ≡ some (accepted p))
            × (e ≡ succeeded row.outbox_id cfg.owner row.lease_version p))
          ⊎ ((c : Text) × (o ≡ some (rejected c))
              × (e ≡ failed row.outbox_id cfg.owner row.lease_version c)))
        × Finishes (e ∷ []) (settle_classified services cfg row status o) s
  unfolding settle settle_classified
  settle_classified-Finishes row status none s h f = cc
  settle_classified-Finishes row status (some (accepted p)) s h f =
      (_, inl (p, refl, refl), succeed-Finishes row p (attempt_delivered status) s (f p refl))
  settle_classified-Finishes row status (some (rejected c)) s h f =
      (_, inr (c, refl, refl), fail-Finishes row c (attempt_failed c status) s)

  conclude-Finishes :
      (row : Row) (p : Posted)
      → ((t : Text) → p ≢ uncaught t)
      → ((status : ℕ) (body : Bytes) (headers : Headers)
          → p ≡ answered status body headers
          → IsReadable services.limits body × IsPayable services.limits status body)
      → (s : State W)
      → (e : Effect) × Asks services.limits cfg row p e
        × Finishes (e ∷ []) (conclude services cfg row p) s
  unfolding conclude
  conclude-Finishes row (answered status body headers) n r s =
      settle_classified-Finishes row status _ s
        (is_some-classify_response services.limits status body (r status body headers refl).0)
        (r status body headers refl).1
  conclude-Finishes row (transport_error reason) n r s = (
    _,
    refl,
    fail-Finishes row (txt "transport.error.retryable")
        (attempt_retryable (txt "transport.error.retryable")) s,
  )
  conclude-Finishes row (uncaught reason) n r s = absurd (n reason refl)

post_json-uncaught :
    (network : Request → Urlopen) (q : Request) (t : Text)
    → post_json network q ≡ uncaught t
    → network q ≡ raises t
unfolding post_json
post_json-uncaught network q t h = ground arith

-- A character of Latin-1 that is no line break: http.client sends a header of such characters.
abbrev pub is_header_code : ℕ → Bool
is_header_code c = ltb c 256 && not (c == 10 || c == 13)

abbrev pub AreSendable : Headers → Type 0
AreSendable headers = All (λ (name, value). all is_header_code value ≡ true) headers

-- `urlopen` raises, for a request to the configured provider whose headers can be sent, nothing but the
-- errors that `post_json` turns into an answer or an `HttpError`; no answer's body passes a limit of the
-- interpreter, and a payment that an acceptance names can be encoded.
pub record Answers {W : Type 0} (services : Services W) (cfg : DispatcherConfig) : Type 0 where
  pub never :
      (body : Bytes) (headers : Headers)
      → AreSendable headers
      → (w : W) (t : Text)
      → (services.urlopen (provider_request services cfg body headers) w).0 ≢ raises t
  pub readable :
      (q : Request) (w : W) (status : ℕ) (body : Bytes) (headers : Headers)
      → post_json (λ _. (services.urlopen q w).0) q ≡ answered status body headers
      → IsReadable services.limits body × IsPayable services.limits status body

-- The row's texts can be encoded, and its two identifiers can be sent as headers.
pub record Encodes (row : Row) : Type 0 where
  pub encoded :
      is_some
        (build_provider_request row.external_request_id row.correlation_id row.amount row.currency)
      ≡ true
  pub key : all is_header_code row.external_request_id ≡ true
  pub correlation : all is_header_code row.correlation_id ≡ true

headers-AreSendable :
    (k c : Text)
    → all is_header_code k ≡ true
    → all is_header_code c ≡ true
    → AreSendable (provider_headers k c)
unfolding provider_headers txt
headers-AreSendable k c a b = (refl, (a, (b, tt)))

built-AreSendable :
    (row : Row) (body : Bytes) (headers : Headers)
    → build_provider_request row.external_request_id row.correlation_id row.amount row.currency
      ≡ some (body, headers)
    → Encodes row
    → AreSendable headers
unfolding build_provider_request txt
built-AreSendable row body headers h e =
    elim (Option-cases (provider_body row.external_request_id row.amount row.currency)) [
      | inl none_left ↦ let bad = rw (build_provider_request, none_left) at h in cc
      | inr (b, built) ↦
          let same : provider_headers row.external_request_id row.correlation_id ≡ headers =
            ap (λ x. x.1) (some_injective (rw (build_provider_request, built) at h)) in
          subst AreSendable same (headers-AreSendable _ _ e.key e.correlation)
    ]

-- The call is the one that the row asks for: its own request is sent, in some state of the world, and the
-- call is what the answer asks for.
pub record Finished {W : Type 0} (services : Services W) (cfg : DispatcherConfig) (row : Row)
    (e : Effect) : Type 0 where
  pub body : Bytes
  pub headers : Headers
  pub built :
      build_provider_request row.external_request_id row.correlation_id row.amount row.currency
      ≡ some (body, headers)
  pub world : W
  pub asks :
      Asks services.limits cfg row
        (post_json
          (λ _. (services.urlopen (provider_request services cfg body headers) world).0)
          (provider_request services cfg body headers))
        e

-- One call for each row, in order.
abbrev pub AllFinished :
    {W : Type 0} → Services W → DispatcherConfig → List Row → List Effect → Type 0
AllFinished services cfg [] [] = Unit {0}
AllFinished services cfg (row ∷ rows) (e ∷ es) =
    Finished services cfg row e × AllFinished services cfg rows es
AllFinished services cfg _ _ = ⊥

module _ {W : Type 0} (services : Services W) (cfg : DispatcherConfig)
    (answers : Answers services cfg) where
  -- One attempt finishes its delivery once, by the call that the provider's answer asks for.
  attempt-Finishes :
      (row : Row) (s : State W)
      → Encodes row
      → (e : Effect) × Finished services cfg row e × Finishes (e ∷ []) (attempt services cfg row) s
  unfolding attempt attempt_with post
  attempt-Finishes row s h =
      elim (Option-cases (
        build_provider_request row.external_request_id row.correlation_id row.amount
          row.currency)) [
            | inl e ↦ let bad = rw e at (h.encoded) in cc
            | inr ((body, headers), built) ↦
                let q = provider_request services cfg body headers in
                let (a, w) = services.urlopen q s.world in
                let (e, asks, c) =
                  conclude-Finishes services cfg row (post_json (λ _. a) q)
                    (λ t f.
                      answers.never body headers (built-AreSendable row body headers built h)
                        s.world t (post_json-uncaught (λ _. a) q t f))
                    (answers.readable q s.world)
                    (record { world = w; log = s.log ++ posted q ∷ [] }) in
                (
                  e,
                  record {
                    body = body;
                    headers = headers;
                    built = built;
                    world = s.world;
                    asks = asks;
                  },
                  rw (attempt, built)
                      (record {
                        handled = c.handled;
                        calls =
                            c.calls ∙ ap (λ l. l ++ e ∷ []) (finishes-quiet s.log (posted q) refl);
                      }),
                )
          ]

  recover-Handled :
      (r : Result Failure (Unit {0})) (s : State W)
      → Handled r
      → let (r', s') = recover r (λ e. print (dispatcher_db_error e)) s in
        (r' ≡ ok tt) × (finishes s'.log ≡ finishes s.log)
  recover-Handled (ok u) s h = (refl, refl)
  recover-Handled (err (db_error e)) s h =
      (refl, finishes-quiet s.log (printed (dispatcher_db_error e)) refl)
  recover-Handled (err (crash e)) s h = absurd h

  continue-ok :
      {A B : Type 0} {r : Result Failure A} {a : A} (f : A → Exec W B) (s : State W)
      → r ≡ ok a
      → continue r f s ≡ f a s
  continue-ok f s e = ap (λ r. continue r f s) e

  -- The loop over the claimed rows finishes each of them once, in order, and ends.
  attempt_all-Finishes :
      (rows : List Row) (s : State W)
      → All Encodes rows
      → (es : List Effect) × AllFinished services cfg rows es
        × ((attempt_all services cfg rows s).0 ≡ ok tt)
        × (finishes (attempt_all services cfg rows s).1.log ≡ finishes s.log ++ es)
  unfolding attempt_all
  attempt_all-Finishes [] s h = ([], tt, refl, sym (append-nil (finishes s.log)))
  attempt_all-Finishes (row ∷ rows) s (here, rest) =
      let (e, finished, c) = attempt-Finishes row s here in
      let (r, s1) = attempt services cfg row s in
      let (done, quiet) = recover-Handled r s1 c.handled in
      let (r', s2) = recover r (λ e. print (dispatcher_db_error e)) s1 in
      let step = continue-ok (λ _. attempt_all services cfg rows) s2 done in
      let (es, all_finished, ended, calls) = attempt_all-Finishes rows s2 rest in
      (
        e ∷ es,
        (finished, all_finished),
        ap (λ x. x.0) step ∙ ended,
        ap (λ x. finishes x.1.log) step
            ∙ calls
            ∙ ap (λ l. l ++ es) (quiet ∙ c.calls)
            ∙ append_assoc (finishes s.log) (e ∷ []) es,
      )

  -- A round that claims rows returns their number, and makes exactly one finishing call for each of them,
  -- in order, with the round's owner and the row's lease: a success with the payment when the answer to
  -- the row's request is an acceptance, a failure with the code of the rejection otherwise, and a
  -- retryable failure when there is no answer; whichever calls of the database fail. The conditions are
  -- that `urlopen` raises only its documented errors for headers that can be sent, that no answer's body
  -- passes a limit of the interpreter (an integer with too many digits, or deep nesting, which nothing
  -- catches), that a payment which an acceptance names can be encoded (psycopg raises otherwise), and that
  -- the rows' texts can be encoded and their identifiers sent as headers.
  pub run_once-finishes :
      (s : State W) (rows : List Row)
      → (services.claim_outbox cfg.owner cfg.claim_batch s.world).0 ≡ ok rows
      → All Encodes rows
      → (es : List Effect) × AllFinished services cfg rows es
        × ((run_once services cfg s).0 ≡ ok (length rows))
        × (finishes (run_once services cfg s).1.log ≡ finishes s.log ++ es)
  unfolding run_once claim
  run_once-finishes s rows claims h =
      let (c, w) = services.claim_outbox cfg.owner cfg.claim_batch s.world in
      let effect = claimed cfg.owner cfg.claim_batch in
      let s1 : State W = record { world = w; log = s.log ++ effect ∷ [] } in
      let (es, all_finished, done, calls) = attempt_all-Finishes rows s1 h in
      let go = λ (rs : List Row). attempt_all services cfg rs >>= λ _. pure (length rs) in
      let step = continue-ok go s1 (ap db_result claims) in
      let step' = continue-ok (λ _. pure (length rows)) (attempt_all services cfg rows s1).1 done in
      (
        es,
        all_finished,
        ap (λ x. x.0) step ∙ ap (λ x. x.0) step',
        ap (λ x. finishes x.1.log) step
            ∙ ap (λ x. finishes x.1.log) step'
            ∙ calls
            ∙ ap (λ l. l ++ es) (finishes-quiet s.log effect refl),
      )
