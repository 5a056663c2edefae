-- ===== src/Outbox/Invariant.antt =====
-- What holds of every row of the outbox, however the functions are called.
use db_first_practice.Common.{
  ℕ, suc, ◌<◌, ◌≡◌, refl, ap, true, not, ◌&&◌, Option, none, some, inl, inr, arith, Text,
  Bool-cases, All, is_some, subst, text_eq,
}
use db_first_practice.Common.Assoc.{and-right}
use db_first_practice.Common.Int.{ℤ}
use db_first_practice.Outbox.{
  Status, pending, leased, retry_wait, delivered, dead, confirmed, is_leased, is_confirmed, Item,
  Policy, Outbox, lease, is_held, deliver, may_retry, fail_item, confirm,
}
use db_first_practice.Outbox.Steps.{
  Change, kept, claimed, delivers, fails, confirms, Step, Reach, here, next, Changes, Changes-Step,
  policy-Reach, All-Changes, All-append,
}

-- what a row records in each state
abbrev pub Records : Policy → Item → Status → Type 0
Records policy i pending = i.lease_version ≡ 0
Records policy i leased =
    (0 < i.lease_version) × (is_some i.lease_owner ≡ true) × (is_some i.lease_until ≡ true)
Records policy i retry_wait =
    (i.attempt_count < policy.max_attempts)
    × (is_some i.next_attempt_at ≡ true)
    × (is_some i.last_error_code ≡ true)
Records policy i delivered = (0 < i.lease_version) × (is_some i.delivered_at ≡ true)
Records policy i dead = (0 < i.lease_version) × (is_some i.last_error_code ≡ true)
Records policy i confirmed = is_some i.delivered_at ≡ true

-- A lease has been counted as an attempt, only a leased row names its holder, and the columns fit
-- the row's state.
pub record IsValid (policy : Policy) (i : Item) : Type 0 where
  pub attempts : i.attempt_count ≡ i.lease_version
  pub owner : is_some i.lease_owner ≡ is_leased i.state
  pub until : is_some i.lease_until ≡ is_leased i.state
  pub records : Records policy i i.state

lease-IsValid :
    (policy : Policy) (owner : Text) (now : ℕ) (i : Item)
    → IsValid policy i
    → IsValid policy (lease owner now i)
unfolding lease
lease-IsValid policy owner now i v = record {
  attempts = ap suc v.attempts;
  owner = refl;
  until = refl;
  records = (omega arith, refl, refl);
}

leased_state : (s : Status) → is_leased s ≡ true → s ≡ leased
leased_state leased h = refl
leased_state pending h = cc
leased_state retry_wait h = cc
leased_state delivered h = cc
leased_state dead h = cc
leased_state confirmed h = cc

-- a row that is held is leased
pub held_state :
    (id owner : Text) (version : ℤ) (i : Item)
    → is_held id owner version i ≡ true
    → i.state ≡ leased
unfolding is_held
held_state id owner version i h = leased_state i.state (and-right _ _ (and-right _ _ h))

positive : (policy : Policy) (i : Item) → i.state ≡ leased → IsValid policy i → 0 < i.lease_version
positive policy i e v = (subst (Records policy i) e v.records).0

deliver-IsValid :
    (policy : Policy) (now : ℕ) (i : Item)
    → i.state ≡ leased
    → IsValid policy i
    → IsValid policy (deliver now i).1
unfolding deliver
deliver-IsValid policy now i e v = record {
  attempts = v.attempts;
  owner = refl;
  until = refl;
  records = (positive policy i e v, refl);
}

fail_item-IsValid :
    (policy : Policy) (now : ℕ) (code : Text) (i : Item)
    → i.state ≡ leased
    → IsValid policy i
    → IsValid policy (fail_item policy now code i).1
unfolding fail_item may_retry
fail_item-IsValid policy now code i e v =
    elim (Bool-cases (may_retry policy code i.attempt_count)) [
      | inl again ↦ rw again (record {
        attempts = v.attempts;
        owner = refl;
        until = refl;
        records = (ground arith, refl, refl);
      })
      | inr never ↦ rw never (record {
        attempts = v.attempts;
        owner = refl;
        until = refl;
        records = (positive policy i e v, refl);
      })
    ]

confirm-IsValid :
    (policy : Policy) (now : ℕ) (request : Text) (i : Item)
    → IsValid policy i
    → IsValid policy (confirm now request i)
unfolding confirm
confirm-IsValid policy now request i v =
    elim (Bool-cases (text_eq i.external_request_id request && not (is_confirmed i.state))) [
      | inl arrives ↦ rw arrives (record {
        attempts = v.attempts;
        owner = refl;
        until = refl;
        records = dated i.delivered_at;
      })
      | inr other ↦ rw other v
    ]
  where
    dated : (o : Option ℕ) → is_some (elim o [ none ↦ some now | some t ↦ some t ]) ≡ true
    dated none = refl
    dated (some t) = refl

Change-IsValid :
    (policy : Policy) (now : ℕ) (i j : Item)
    → Change policy now i j
    → IsValid policy i
    → IsValid policy j
Change-IsValid policy now i j (kept e) v = rw e v
Change-IsValid policy now i j (claimed owner c e) v = rw e (lease-IsValid policy owner now i v)
Change-IsValid policy now i j (delivers id owner version h e) v =
    rw e (deliver-IsValid policy now i (held_state id owner version i h) v)
Change-IsValid policy now i j (fails id owner version code h e) v =
    rw e (fail_item-IsValid policy now code i (held_state id owner version i h) v)
Change-IsValid policy now i j (confirms request e) v = rw e (confirm-IsValid policy now request i v)

Step-IsValid :
    (policy : Policy) (o p : Outbox)
    → o.policy ≡ policy
    → Step o p
    → All (IsValid policy) o.items
    → All (IsValid policy) p.items
Step-IsValid policy o p e s h = elim (Changes-Step o p s) [
  | inl changes ↦
      All-Changes (IsValid policy) (Change-IsValid policy) o.now
        (subst (λ q. Changes q o.now o.items p.items) e changes) h
  | inr adds ↦ rw adds.added (
      All-append (IsValid policy) o.items _ h
        (record { attempts = refl; owner = refl; until = refl; records = refl }))
]

-- From an outbox whose rows are valid, every sequence of calls, receipts, new rows and pauses, in any
-- order and by any owners, leaves the rows valid: each claim has been counted as an attempt, exactly
-- the leased rows name an owner and an end of their lease, a row waits for a further attempt only
-- while its attempts are below the policy's maximum, and the other columns fit the state.
pub Reach-IsValid :
    (o p : Outbox) → All (IsValid o.policy) o.items → Reach o p → All (IsValid o.policy) p.items
Reach-IsValid o p h here = h
Reach-IsValid o p h (next {p = q} r s) =
    Step-IsValid o.policy q p (policy-Reach o q r) s (Reach-IsValid o q h r)
