-- ===== src/Outbox/Tests.antt =====
-- The outbox with one delivery that is claimed, fails, is claimed again and is delivered.
use db_first_practice.Common.{
  ℕ, ◌+◌, ◌≡◌, ◌≢◌, refl, sym, ◌∙◌, Bool, text_eq, false, ◌≤◌, ◌⊎◌, [], ◌∷◌, txt, All,
}
use db_first_practice.Common.Int.{pos}
use db_first_practice.Common.Results.{ok}
use db_first_practice.Outbox.{
  Item, Outbox, default_policy, row_of, claim_items, lease, is_claimable, can_take, update_held,
  is_held, fail_item, may_retry, deliver, stale, was_delivered, scheduled, claim_outbox,
  succeed_outbox, fail_outbox, new_item,
}
use db_first_practice.Outbox.Claims.{claim_outbox-bounds}
use db_first_practice.Outbox.Steps.{Step, Reach, here, next}
use db_first_practice.Outbox.Invariant.{IsValid, Reach-IsValid}
use db_first_practice.Outbox.Leases.{success, failure, finish, finish_once}
use db_first_practice.Outbox.Spent.{Distinct}

abbrev unlocked : Item → Bool
unlocked i = false

abbrev item : Item
item = new_item 1000 (txt "o-1") (txt "op-7") (txt "c-1") (txt "10.00") (txt "RUB")

abbrev start : Outbox
start = record { policy = default_policy; now = 1000; items = item ∷ [] }

abbrev first_claim : Outbox
first_claim = (claim_outbox unlocked (txt "a") (pos 5) start).1

abbrev first_failure : Outbox
first_failure = (fail_outbox (txt "o-1") (txt "a") (pos 1) (txt "http.503.retryable") first_claim).1

abbrev later : Outbox
later = record first_failure { now = first_failure.now + 200 }

abbrev second_claim : Outbox
second_claim = (claim_outbox unlocked (txt "b") (pos 5) later).1

first_failure_scheduled :
    (fail_outbox (txt "o-1") (txt "a") (pos 1) (txt "http.503.retryable") first_claim).0
    ≡ scheduled 200
unfolding txt text_eq claim_outbox claim_items lease is_claimable fail_outbox update_held is_held
    fail_item may_retry
first_failure_scheduled = refl

second_claim_delivers :
    (succeed_outbox (txt "o-1") (txt "b") (pos 2) second_claim).0 ≡ was_delivered
unfolding txt text_eq claim_outbox claim_items lease is_claimable fail_outbox update_held is_held
    fail_item may_retry succeed_outbox deliver
second_claim_delivers = refl

item-IsValid : All (IsValid default_policy) (item ∷ [])
item-IsValid = (record { attempts = refl; owner = refl; until = refl; records = refl }, tt)

twice : Reach start second_claim
twice =
    next
      (next
        (next (next here (Step.claim unlocked (txt "a") (pos 5) refl))
          (Step.fail (txt "o-1") (txt "a") (pos 1) (txt "http.503.retryable") refl))
        (Step.wait 200 refl))
      (Step.claim unlocked (txt "b") (pos 5) refl)

Reach-IsValid_example : All (IsValid default_policy) second_claim.items
Reach-IsValid_example = Reach-IsValid start second_claim item-IsValid twice

first_claim-Distinct : Distinct first_claim.items
unfolding txt text_eq claim_outbox claim_items lease is_claimable
first_claim-Distinct = (tt, tt)

first_failure_settles :
    (finish (txt "o-1") (txt "a") (pos 1) (failure (txt "http.503.retryable")) first_claim).0
    ≢ stale
first_failure_settles h = distinct (sym first_failure_scheduled ∙ h)
  where
    distinct : {n : ℕ} → scheduled n ≢ stale
    distinct e = cc

-- the first owner answers late, when the second one has the delivery
finish_once_example : (finish (txt "o-1") (txt "a") (pos 1) success second_claim).0 ≡ stale
finish_once_example =
    finish_once (txt "o-1") (txt "a") (txt "a") 1 (failure (txt "http.503.retryable")) success
      first_claim second_claim first_claim-Distinct first_failure_settles
      (next (next here (Step.wait 200 refl)) (Step.claim unlocked (txt "b") (pos 5) refl))

start_claims :
    (claim_outbox unlocked (txt "a") (pos 5) start).0 ≡ ok (row_of (lease (txt "a") 1000 item) ∷ [])
unfolding txt claim_outbox claim_items is_claimable lease
start_claims = refl

claim_outbox-bounds_example :
    (pos 5 ≡ pos 5)
    × (5 ≤ 100)
    × (1 ≤ 5)
    × ((◌≡◌ {A = ℕ} 1 5) ⊎ All (λ i. can_take unlocked 1000 i ≡ false) first_claim.items)
claim_outbox-bounds_example = claim_outbox-bounds unlocked (txt "a") (pos 5) start start_claims
