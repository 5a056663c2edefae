-- ===== src/Outbox/Steps.antt =====
-- What may happen to the outbox, whoever calls its functions and in whichever order, and what that
-- does to one row.
use db_first_practice.Common.{
  ℕ, zero, suc, ◌+◌, ◌≡◌, refl, ap, ◌∙◌, Bool, true, false, ◌||◌, List, [], ◌∷◌, ◌++◌, map, ◌⊎◌,
  inl, inr, Text, Bool-cases, is_empty, All, text_eq,
}
use db_first_practice.Common.Assoc.{and-left}
use db_first_practice.Common.Int.{ℤ, pos, int_lt}
use db_first_practice.Outbox.{
  Item, Policy, Outbox, Settled, is_claimable, can_take, lease, claim_items, claim_outbox, limit_of,
  is_held, update_held, deliver, fail_item, succeed_outbox, fail_outbox, confirm, new_item,
}

-- One row before and after a step.
pub data Change (policy : Policy) (now : ℕ) (i j : Item) : Type 0 where
  kept : j ≡ i → Change policy now i j
  claimed :
      (owner : Text) → is_claimable now i ≡ true → j ≡ lease owner now i → Change policy now i j
  delivers :
      (id owner : Text) (version : ℤ)
      → is_held id owner version i ≡ true
      → j ≡ (deliver now i).1
      → Change policy now i j
  fails :
      (id owner : Text) (version : ℤ) (code : Text)
      → is_held id owner version i ≡ true
      → j ≡ (fail_item policy now code i).1
      → Change policy now i j
  confirms : (request : Text) → j ≡ confirm now request i → Change policy now i j

-- A row with other keys: outbox_id is the primary key, and external_request_id is unique.
abbrev pub IsOther : Text → Text → Item → Type 0
IsOther id request i =
    (text_eq i.outbox_id id ≡ false) × (text_eq i.external_request_id request ≡ false)

-- One call of a function on the outbox, a receipt, a new row, or the passing of time.
pub data Step (o p : Outbox) : Type 0 where
  claim :
      (locked : Item → Bool) (owner : Text) (limit : ℤ)
      → p ≡ (claim_outbox locked owner limit o).1
      → Step o p
  succeed : (id owner : Text) (version : ℤ) → p ≡ (succeed_outbox id owner version o).1 → Step o p
  fail :
      (id owner : Text) (version : ℤ) (code : Text)
      → p ≡ (fail_outbox id owner version code o).1
      → Step o p
  receive :
      (request : Text) → p ≡ record o { items = map (confirm o.now request) o.items } → Step o p
  enqueue :
      (id request correlation amount currency : Text)
      → All (IsOther id request) o.items
      → p
        ≡ record o { items = o.items ++ new_item o.now id request correlation amount currency ∷ [] }
      → Step o p
  wait : (ms : ℕ) → p ≡ record o { now = o.now + ms } → Step o p

pub data Reach (o : Outbox) : Outbox → Type 0 where
  here : Reach o o
  next : {p q : Outbox} → Reach o p → Step p q → Reach o q

-- Each row changes to the row in its place.
pub data Changes (policy : Policy) (now : ℕ) : List Item → List Item → Type 0 where
  none_left : Changes policy now [] []
  both :
      {i j : Item} {is js : List Item}
      → Change policy now i j
      → Changes policy now is js
      → Changes policy now (i ∷ is) (j ∷ js)

Changes-refl : (policy : Policy) (now : ℕ) (is : List Item) → Changes policy now is is
Changes-refl policy now [] = none_left
Changes-refl policy now (i ∷ is) = both (kept refl) (Changes-refl policy now is)

Changes-claim :
    (policy : Policy) (locked : Item → Bool) (owner : Text) (now n : ℕ) (is : List Item)
    → Changes policy now is (claim_items locked owner now n is).1
unfolding claim_items
Changes-claim policy locked owner now zero is = Changes-refl policy now is
Changes-claim policy locked owner now (suc n) [] = none_left
Changes-claim policy locked owner now (suc n) (i ∷ is) =
    let taken = Changes-claim policy locked owner now n is in
    let passed = Changes-claim policy locked owner now (suc n) is in
    elim (Bool-cases (can_take locked now i)) [
      | inl yes_it_is ↦ rw yes_it_is (both (claimed owner (and-left _ _ yes_it_is) refl) taken)
      | inr no_it_is_not ↦ rw no_it_is_not (both (kept refl) passed)
    ]

module _ {policy : Policy} {now : ℕ} (p : Item → Bool) (f : Item → Settled × Item)
    (changes : (i : Item) → p i ≡ true → Change policy now i (f i).1) where
  Changes-update_held : (is : List Item) → Changes policy now is (update_held p f is).1
  unfolding update_held
  Changes-update_held [] = none_left
  Changes-update_held (i ∷ is) =
      let later = Changes-update_held is in
      elim (Bool-cases (p i)) [
        | inl held ↦ rw held (both (changes i held) (Changes-refl policy now is))
        | inr free ↦ rw free (both (kept refl) later)
      ]

Changes-confirm :
    (policy : Policy) (now : ℕ) (request : Text) (is : List Item)
    → Changes policy now is (map (confirm now request) is)
Changes-confirm policy now request [] = none_left
Changes-confirm policy now request (i ∷ is) =
    both (confirms request refl) (Changes-confirm policy now request is)

Changes-claim_outbox :
    (locked : Item → Bool) (owner : Text) (limit : ℤ) (o : Outbox)
    → Changes o.policy o.now o.items (claim_outbox locked owner limit o).1.items
unfolding claim_outbox
Changes-claim_outbox locked owner limit o =
    let leased = Changes-claim o.policy locked owner o.now (limit_of limit) o.items in
    let same = Changes-refl o.policy o.now o.items in
    elim (Bool-cases (is_empty owner)) [
      | inl nameless ↦ rw nameless same
      | inr named ↦ elim (Bool-cases (int_lt limit (pos 1) || int_lt (pos 100) limit)) [
        | inl outside ↦ rw (named, outside) same
        | inr within ↦ rw (named, within) leased
      ]
    ]

-- A row that the other rows do not know was added.
pub record Adds (o p : Outbox) : Type 0 where
  pub id : Text
  pub request : Text
  pub correlation : Text
  pub amount : Text
  pub currency : Text
  pub other : All (IsOther id request) o.items
  pub added : p.items ≡ o.items ++ new_item o.now id request correlation amount currency ∷ []

-- A step changes each row as one of the functions does, or adds a row.
pub Changes-Step : (o p : Outbox) → Step o p → Changes o.policy o.now o.items p.items ⊎ Adds o p
unfolding succeed_outbox fail_outbox
Changes-Step o p (claim locked owner limit e) =
    rw e (inl (Changes-claim_outbox locked owner limit o))
Changes-Step o p (succeed id owner version e) = rw e (
    inl (
      Changes-update_held (is_held id owner version) (deliver o.now)
        (λ i h. delivers id owner version h refl) o.items))
Changes-Step o p (fail id owner version code e) = rw e (
    inl (
      Changes-update_held (is_held id owner version) (fail_item o.policy o.now code)
        (λ i h. fails id owner version code h refl) o.items))
Changes-Step o p (receive request e) = rw e (inl (Changes-confirm o.policy o.now request o.items))
Changes-Step o p (enqueue id request correlation amount currency h e) = inr (record {
  id = id;
  request = request;
  correlation = correlation;
  amount = amount;
  currency = currency;
  other = h;
  added = ap (λ q. q.items) e;
})
Changes-Step o p (wait ms e) = rw e (inl (Changes-refl o.policy o.now o.items))

policy-claim_outbox :
    (locked : Item → Bool) (owner : Text) (limit : ℤ) (o : Outbox)
    → (claim_outbox locked owner limit o).1.policy ≡ o.policy
unfolding claim_outbox
policy-claim_outbox locked owner limit o = elim (Bool-cases (is_empty owner)) [
  | inl nameless ↦ rw nameless refl
  | inr named ↦ elim (Bool-cases (int_lt limit (pos 1) || int_lt (pos 100) limit)) [
    | inl outside ↦ rw (named, outside) refl
    | inr within ↦ rw (named, within) refl
  ]
]

policy-Step : (o p : Outbox) → Step o p → p.policy ≡ o.policy
unfolding succeed_outbox fail_outbox
policy-Step o p (claim locked owner limit e) = rw e (policy-claim_outbox locked owner limit o)
policy-Step o p (succeed id owner version e) = rw e refl
policy-Step o p (fail id owner version code e) = rw e refl
policy-Step o p (receive request e) = rw e refl
policy-Step o p (enqueue id request correlation amount currency h e) = rw e refl
policy-Step o p (wait ms e) = rw e refl

pub policy-Reach : (o p : Outbox) → Reach o p → p.policy ≡ o.policy
policy-Reach o p here = refl
policy-Reach o p (next {p = q} r s) = policy-Step q p s ∙ policy-Reach o q r

-- A predicate that every change keeps, and that a new row has, all rows keep.
module _ {policy : Policy} (P : Item → Type 0)
    (keeps : (now : ℕ) (i j : Item) → Change policy now i j → P i → P j) where
  pub All-Changes : (now : ℕ) {is js : List Item} → Changes policy now is js → All P is → All P js
  All-Changes now none_left h = tt
  All-Changes now (both {i} {j} c cs) (h, hs) = (keeps now i j c h, All-Changes now cs hs)

pub All-append {ℓ} :
    {A : Type ℓ} (P : A → Type 0) (xs : List A) (x : A) → All P xs → P x → All P (xs ++ x ∷ [])
All-append P [] x h hx = (hx, tt)
All-append P (y ∷ ys) x (hy, hys) hx = (hy, All-append P ys x hys hx)
