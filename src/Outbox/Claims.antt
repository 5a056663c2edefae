-- ===== src/Outbox/Claims.antt =====
-- How many rows a claim takes, and which it leaves.
use db_first_practice.Common.{
  ℕ, zero, suc, ◌≤◌, ◌≡◌, refl, sym, ap, false, ◌||◌, Bool, List, [], ◌∷◌, ◌⊎◌, inl, inr, arith,
  Text, Bool-cases, All, length, is_empty,
}
use db_first_practice.Common.Int.{ℤ, pos, negsuc, int_lt}
use db_first_practice.Common.Results.{ok, ok_injective}
use db_first_practice.App.Worker.{Row}
use db_first_practice.Outbox.{
  Item, Outbox, is_claimable, can_take, lease, claim_items, claim_outbox, limit_of,
}

length-claim_items :
    (locked : Item → Bool) (owner : Text) (now n : ℕ) (is : List Item)
    → length (claim_items locked owner now n is).0 ≤ n
unfolding claim_items
length-claim_items locked owner now zero is = omega arith
length-claim_items locked owner now (suc n) [] = omega arith
length-claim_items locked owner now (suc n) (i ∷ is) =
    let taken = length-claim_items locked owner now n is in
    let passed = length-claim_items locked owner now (suc n) is in
    elim (Bool-cases (can_take locked now i)) [
      | inl claimable ↦ rw claimable (omega arith)
      | inr other ↦ rw other passed
    ]

lease-taken :
    (locked : Item → Bool) (owner : Text) (now : ℕ) (i : Item)
    → can_take locked now (lease owner now i) ≡ false
unfolding is_claimable lease
lease-taken locked owner now i = ground arith

abbrev Left : (Item → Bool) → ℕ → List Item → Type 0
Left locked now = All λ i. can_take locked now i ≡ false

claim_items-full :
    (locked : Item → Bool) (owner : Text) (now n : ℕ) (is : List Item)
    → (length (claim_items locked owner now n is).0 ≡ n)
      ⊎ Left locked now (claim_items locked owner now n is).1
unfolding claim_items
claim_items-full locked owner now zero is = inl refl
claim_items-full locked owner now (suc n) [] = inr tt
claim_items-full locked owner now (suc n) (i ∷ is) =
    let taken = claim_items-full locked owner now n is in
    let passed = claim_items-full locked owner now (suc n) is in
    elim (Bool-cases (can_take locked now i)) [
      | inl claimable ↦ rw claimable (elim taken [
        | inl full ↦ inl (ap suc full)
        | inr left ↦ inr (lease-taken locked owner now i, left)
      ])
      | inr other ↦ rw other (elim passed [ inl full ↦ inl full | inr left ↦ inr (other, left) ])
    ]

limit_of-pos :
    (limit : ℤ)
    → (int_lt limit (pos 1) || int_lt (pos 100) limit) ≡ false
    → (limit ≡ pos (limit_of limit)) × (limit_of limit ≤ 100)
limit_of-pos (pos n) h = (refl, ground arith)
limit_of-pos (negsuc n) h = absurd (ground arith)

-- A claim that succeeds has a limit of 1 to 100 and takes at most so many rows; when it takes fewer,
-- no row that may be claimed and that no other transaction has locked is left.
pub claim_outbox-bounds :
    (locked : Item → Bool) (owner : Text) (limit : ℤ) (o : Outbox) {rows : List Row}
    → (claim_outbox locked owner limit o).0 ≡ ok rows
    → (limit ≡ pos (limit_of limit))
      × (limit_of limit ≤ 100)
      × (length rows ≤ limit_of limit)
      × ((length rows ≡ limit_of limit)
          ⊎ Left locked o.now (claim_outbox locked owner limit o).1.items)
unfolding claim_outbox
claim_outbox-bounds locked owner limit o {rows} h =
    let most = length-claim_items locked owner o.now (limit_of limit) o.items in
    let full = claim_items-full locked owner o.now (limit_of limit) o.items in
    elim (Bool-cases (is_empty owner)) [
      | inl nameless ↦ let refused = rw nameless at h in cc
      | inr named ↦ elim (Bool-cases (int_lt limit (pos 1) || int_lt (pos 100) limit)) [
        | inl outside ↦ let refused = rw (named, outside) at h in cc
        | inr within ↦
            let same : (claim_items locked owner o.now (limit_of limit) o.items).0 ≡ rows =
              ok_injective (rw (named, within) at h) in
            let (e, hundred) = limit_of-pos limit within in
            rw (named, within) (e, hundred, rw (sym same) most, rw (sym same) full)
      ]
    ]
