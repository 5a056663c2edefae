-- ===== src/Outbox.antt =====
-- The outbox that the dispatcher works on: delivery.outbox, with the state of each row's external
-- request, and the functions claim_outbox, succeed_outbox and fail_outbox of
-- Api/Migrations/015_week3_actions.sql. Time is in milliseconds. The rows stand in the order of
-- created_at and outbox_id, which is the order of claiming.
pub mod Steps
pub mod Claims
mod Tests
pub mod Spent
pub mod Leases
pub mod Invariant
use db_first_practice.Common.{
  ℕ, zero, suc, ◌+◌, Bool, true, false, not, ◌&&◌, ◌||◌, Option, none, some, List, [], ◌∷◌, ◌++◌,
  ltb, leb, if◌then◌else◌, get_elem?, Text, txt, text_eq, is_empty,
}
use db_first_practice.Common.Int.{ℤ, pos, int_eq, int_lt}
use db_first_practice.Common.Results.{Result, ok, err}
use db_first_practice.App.Http.{Request, Urlopen}
use db_first_practice.App.Worker.{Row, Services}
use db_first_practice.Builtins.Find.{ends_with}

pub data Status : Type 0 where
  pending leased retry_wait delivered dead confirmed : Status

pub data RequestState : Type 0 where
  created sent request_confirmed : RequestState

-- a row of delivery.outbox, and of its delivery.external_request
pub record Item : Type 0 where
  pub outbox_id : Text
  pub external_request_id : Text
  pub correlation_id : Text
  pub amount : Text
  pub currency : Text
  pub request_state : RequestState
  pub state : Status
  pub lease_owner : Option Text
  pub lease_version : ℕ
  pub lease_until : Option ℕ
  pub attempt_count : ℕ
  pub next_attempt_at : Option ℕ
  pub last_error_code : Option Text
  pub delivered_at : Option ℕ

-- the one row of delivery.outbox_policy
pub record Policy : Type 0 where
  pub max_attempts : ℕ
  pub delays_ms : List ℕ

abbrev pub default_policy : Policy
default_policy = record { max_attempts = 3; delays_ms = 200 ∷ 400 ∷ 800 ∷ [] }

pub record Outbox : Type 0 where
  pub policy : Policy
  pub now : ℕ
  pub items : List Item

abbrev pub is_leased : Status → Bool
is_leased leased = true
is_leased _ = false

abbrev pub is_waiting : Status → Bool
is_waiting pending = true
is_waiting retry_wait = true
is_waiting _ = false

abbrev pub is_confirmed : Status → Bool
is_confirmed confirmed = true
is_confirmed _ = false

-- `next_attempt_at IS NULL OR next_attempt_at <= clock_timestamp()`
abbrev pub is_due : ℕ → Option ℕ → Bool
is_due now none = true
is_due now (some t) = leb t now

-- `lease_until < clock_timestamp()`, which no NULL is
abbrev pub has_expired : ℕ → Option ℕ → Bool
has_expired now none = false
has_expired now (some t) = ltb t now

unfoldable pub is_claimable : ℕ → Item → Bool
is_claimable now i =
    (is_waiting i.state && is_due now i.next_attempt_at)
    || (is_leased i.state && has_expired now i.lease_until)

unfoldable pub lease : Text → ℕ → Item → Item
lease owner now i = record i {
  state = leased;
  lease_owner = some owner;
  lease_version = suc i.lease_version;
  lease_until = some (now + 30000);
  attempt_count = suc i.attempt_count;
  next_attempt_at = none;
}

abbrev pub row_of : Item → Row
row_of i = record {
  outbox_id = i.outbox_id;
  lease_version = pos i.lease_version;
  external_request_id = i.external_request_id;
  correlation_id = i.correlation_id;
  amount = i.amount;
  currency = i.currency;
}

-- a claimable row that no other transaction has locked
abbrev pub can_take : (Item → Bool) → ℕ → Item → Bool
can_take locked now i = is_claimable now i && not (locked i)

-- FOR UPDATE SKIP LOCKED: the first claimable rows that are not locked, `limit` at most, are leased
unfoldable pub claim_items : (Item → Bool) → Text → ℕ → ℕ → List Item → List Row × List Item
claim_items locked owner now zero is = ([], is)
claim_items locked owner now (suc n) [] = ([], [])
claim_items locked owner now (suc n) (i ∷ is) =
    let (taken, after) = claim_items locked owner now n is in
    let (rows, rest) = claim_items locked owner now (suc n) is in
    if can_take locked now i
    then (row_of (lease owner now i) ∷ taken, lease owner now i ∷ after)
    else (rows, i ∷ rest)

abbrev pub limit_of : ℤ → ℕ
limit_of (pos n) = n
limit_of _ = 0

unfoldable pub claim_outbox : (Item → Bool) → Text → ℤ → Outbox → Result Text (List Row) × Outbox
claim_outbox locked owner limit o =
    let (rows, items) = claim_items locked owner o.now (limit_of limit) o.items in
    if is_empty owner
    then (err (txt "delivery.claim_invalid: owner is required"), o)
    else if int_lt limit (pos 1) || int_lt (pos 100) limit
    then (err (txt "delivery.claim_invalid: invalid batch size"), o)
    else (ok rows, record o { items = items })

-- the `status` that succeed_outbox and fail_outbox return
pub data Settled : Type 0 where
  stale was_delivered was_dead : Settled
  scheduled : ℕ → Settled

abbrev pub owner_is : Text → Option Text → Bool
owner_is owner none = false
owner_is owner (some o) = text_eq o owner

-- the WHERE clause that the updates share: the row is leased, under this owner and version
unfoldable pub is_held : Text → Text → ℤ → Item → Bool
is_held id owner version i =
    (text_eq i.outbox_id id && owner_is owner i.lease_owner)
    && (int_eq (pos i.lease_version) version && is_leased i.state)

-- an update by primary key: one row, or none
unfoldable pub update_held :
    (Item → Bool) → (Item → Settled × Item) → List Item → Settled × List Item
update_held p f [] = (stale, [])
update_held p f (i ∷ is) =
    let (settled, rest) = update_held p f is in
    let (now_settled, j) = f i in if p i then (now_settled, j ∷ is) else (settled, i ∷ rest)

abbrev pub after_sending : RequestState → RequestState
after_sending created = sent
after_sending s = s

unfoldable pub deliver : ℕ → Item → Settled × Item
deliver now i = (
  was_delivered,
  record i {
    state = delivered;
    lease_owner = none;
    lease_until = none;
    delivered_at = some now;
    request_state = after_sending i.request_state;
  },
)

-- `COALESCE(delays_ms[attempts], 1000)`, where arrays count from 1
abbrev pub delay_after : ℕ → List ℕ → ℕ
delay_after zero delays = 1000
delay_after (suc k) delays = elim (get_elem? delays k) [ none ↦ 1000 | some d ↦ d ]

abbrev pub schedule : Policy → ℕ → Text → Item → Settled × Item
schedule policy now code i =
    let delay = delay_after i.attempt_count policy.delays_ms in
    (
      scheduled delay,
      record i {
        state = retry_wait;
        lease_owner = none;
        lease_until = none;
        next_attempt_at = some (now + delay);
        last_error_code = some code;
      },
    )

abbrev pub bury : Text → Item → Settled × Item
bury code i = (
  was_dead,
  record i { state = dead; lease_owner = none; lease_until = none; last_error_code = some code },
)

-- a failure may be tried again: `error_code LIKE '%.retryable'`, and attempts are left
unfoldable pub may_retry : Policy → Text → ℕ → Bool
may_retry policy code attempts =
    ends_with (txt ".retryable") code && ltb attempts policy.max_attempts

unfoldable pub fail_item : Policy → ℕ → Text → Item → Settled × Item
fail_item policy now code i =
    if may_retry policy code i.attempt_count then schedule policy now code i else bury code i

unfoldable pub succeed_outbox : Text → Text → ℤ → Outbox → Settled × Outbox
succeed_outbox id owner version o =
    let (settled, items) = update_held (is_held id owner version) (deliver o.now) o.items in
    (settled, record o { items = items })

unfoldable pub fail_outbox : Text → Text → ℤ → Text → Outbox → Settled × Outbox
fail_outbox id owner version code o =
    let (settled, items) =
      update_held (is_held id owner version) (fail_item o.policy o.now code) o.items in
    (settled, record o { items = items })

-- what receipt_accept_v1 does to the outbox when the provider's receipt arrives
unfoldable pub confirm : ℕ → Text → Item → Item
confirm now request i =
    if text_eq i.external_request_id request && not (is_confirmed i.state)
    then record i {
      state = confirmed;
      lease_owner = none;
      lease_until = none;
      delivered_at = (elim i.delivered_at [ none ↦ some now | some t ↦ some t ]);
      request_state = request_confirmed;
    }
    else i

-- a row that an action of the workflow inserts
abbrev pub new_item : ℕ → Text → Text → Text → Text → Text → Item
new_item now id request correlation amount currency = record {
  outbox_id = id;
  external_request_id = request;
  correlation_id = correlation;
  amount = amount;
  currency = currency;
  request_state = created;
  state = pending;
  lease_owner = none;
  lease_version = 0;
  lease_until = none;
  attempt_count = 0;
  next_attempt_at = some now;
  last_error_code = none;
  delivered_at = none;
}
