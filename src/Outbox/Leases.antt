-- ===== src/Outbox/Leases.antt =====
-- A lease settles its delivery at most once, and a settled or lost lease stays without effect.
use db_first_practice.Common.{
  ℕ, ◌≡◌, ◌≢◌, refl, sym, ap, ◌∙◌, Bool, true, false, ◌||◌, List, [], ◌∷◌, inl, inr, arith, Text,
  Bool-cases, All, text_eq, text_eq_iff, ==_iff,
}
use db_first_practice.Common.Assoc.{and-left, and-right}
use db_first_practice.Common.Int.{ℤ, pos}
use db_first_practice.Outbox.{
  is_leased, Item, Policy, Outbox, Settled, stale, is_held, update_held, deliver, may_retry,
  fail_item, succeed_outbox, fail_outbox,
}
use db_first_practice.Outbox.Steps.{Reach}
use db_first_practice.Outbox.Spent.{
  known, IsSpent, known-other, Reach-Spent, IsSpent-is_held, Spent, Distinct,
}

-- how a delivery is settled
pub data Finish : Type 0 where
  success : Finish
  failure : Text → Finish

abbrev pub finish : Text → Text → ℤ → Finish → Outbox → Settled × Outbox
finish id owner version success = succeed_outbox id owner version
finish id owner version (failure code) = fail_outbox id owner version code

update_held-stale :
    (p : Item → Bool) (f : Item → Settled × Item) (is : List Item)
    → All (λ i. p i ≡ false) is
    → (update_held p f is).0 ≡ stale
unfolding update_held
update_held-stale p f [] h = refl
update_held-stale p f (i ∷ is) (h, hs) = rw h (update_held-stale p f is hs)

map-All {ℓ} :
    {A : Type ℓ} {P Q : A → Type 0} (f : (a : A) → P a → Q a) (xs : List A) → All P xs → All Q xs
map-All f [] h = tt
map-All f (x ∷ xs) (h, hs) = (f x h, map-All f xs hs)

Spent-finish :
    (id owner : Text) (n : ℕ) (how : Finish) (o : Outbox)
    → Spent id n o
    → (finish id owner (pos n) how o).0 ≡ stale
unfolding succeed_outbox fail_outbox
Spent-finish id owner n success o s =
    update_held-stale _ _ o.items (map-All (IsSpent-is_held id owner n) o.items s.rows)
Spent-finish id owner n (failure code) o s =
    update_held-stale _ _ o.items (map-All (IsSpent-is_held id owner n) o.items s.rows)

-- the row keeps its key and its lease's number, and is leased no more
abbrev Settles : (Item → Settled × Item) → Type 0
Settles f =
    (i : Item)
    → ((f i).1.outbox_id ≡ i.outbox_id)
      × ((f i).1.lease_version ≡ i.lease_version)
      × (is_leased (f i).1.state ≡ false)

deliver-Settles : (now : ℕ) → Settles (deliver now)
unfolding deliver
deliver-Settles now i = (refl, refl, refl)

fail_item-Settles : (policy : Policy) (now : ℕ) (code : Text) → Settles (fail_item policy now code)
unfolding fail_item
fail_item-Settles policy now code i = elim (Bool-cases (may_retry policy code i.attempt_count)) [
  | inl again ↦ rw again (refl, refl, refl)
  | inr never ↦ rw never (refl, refl, refl)
]

is_held-row :
    (id owner : Text) (n : ℕ) (i : Item)
    → is_held id owner (pos n) i ≡ true
    → (text_eq i.outbox_id id ≡ true) × (i.lease_version ≡ n)
unfolding is_held
is_held-row id owner n i h =
    (and-left _ _ (and-left _ _ h), (==_iff _ _).0 (and-left _ _ (and-right _ _ h)))

-- a row with another key is no matter
other-IsSpent :
    (id : Text) (n : ℕ) (i j : Item)
    → text_eq i.outbox_id id ≡ true
    → text_eq j.outbox_id i.outbox_id ≡ false
    → IsSpent id n j
other-IsSpent id n i j same other again = absurd (
    ground (
      arith,
      text_eq_iff i.outbox_id id,
      text_eq_iff j.outbox_id id,
      text_eq_iff j.outbox_id i.outbox_id,
    ))

module _ (id owner : Text) (n : ℕ) (f : Item → Settled × Item) (settles : Settles f) where
  abbrev after : List Item → Settled × List Item
  after = update_held (is_held id owner (pos n)) f

  after-held :
      (i : Item) (is : List Item)
      → is_held id owner (pos n) i ≡ true
      → Distinct (i ∷ is)
      → (known id ((f i).1 ∷ is) ≡ true) × All (IsSpent id n) ((f i).1 ∷ is)
  after-held i is held (apart, _) =
      let (key, version, free) = settles i in
      let (same, last) = is_held-row id owner n i held in
      (
        rw (key, same) refl,
        (
          λ _. inr (sym (version ∙ last), free),
          map-All (λ j. other-IsSpent id n i j same) is apart,
        ),
      )

  known-after : (is : List Item) → known id (after is).1 ≡ known id is
  unfolding update_held
  known-after [] = refl
  known-after (i ∷ is) =
      let rest = known-after is in
      elim (Bool-cases (is_held id owner (pos n) i)) [
        | inl held ↦ rw held (ap (λ k. text_eq k id || known id is) (settles i).0)
        | inr free ↦ rw free (ap (λ b. text_eq i.outbox_id id || b) rest)
      ]

  after-free :
      (i : Item) (is : List Item)
      → Distinct (i ∷ is)
      → (known id (after is).1 ≡ true) × All (IsSpent id n) (after is).1
      → (known id (i ∷ (after is).1) ≡ true) × All (IsSpent id n) (i ∷ (after is).1)
  after-free i is (apart, _) (row, rows) =
      let other = known-other id i.outbox_id is (sym (known-after is) ∙ row) apart in
      (rw (other) row, (λ same. absurd (ground arith), rows))

  after-Spent :
      (is : List Item)
      → Distinct is
      → (after is).0 ≢ stale
      → (known id (after is).1 ≡ true) × All (IsSpent id n) (after is).1
  unfolding update_held
  after-Spent [] d h = absurd (h refl)
  after-Spent (i ∷ is) d h =
      let rest = after-Spent is d.1 in
      elim (Bool-cases (is_held id owner (pos n) i)) [
        | inl held ↦ rw held (after-held i is held d)
        | inr free ↦ rw free (after-free i is d (rest λ e. h (rw free e)))
      ]

finish-Spent :
    (id owner : Text) (n : ℕ) (how : Finish) (o : Outbox)
    → Distinct o.items
    → (finish id owner (pos n) how o).0 ≢ stale
    → Spent id n (finish id owner (pos n) how o).1
unfolding succeed_outbox fail_outbox
finish-Spent id owner n success o d h =
    let (row, rows) = after-Spent id owner n (deliver o.now) (deliver-Settles o.now) o.items d h in
    record { row = row; rows = rows }
finish-Spent id owner n (failure code) o d h =
    let settles = fail_item-Settles o.policy o.now code in
    let (row, rows) = after-Spent id owner n (fail_item o.policy o.now code) settles o.items d h in
    record { row = row; rows = rows }

-- A lease settles its delivery once: when succeed_outbox or fail_outbox has settled it, then after
-- any calls, receipts, new rows and pauses, in any order, a further settlement under the same
-- delivery and version is stale, whoever asks for it.
pub finish_once :
    (id owner owner' : Text) (n : ℕ) (how how' : Finish) (o p : Outbox)
    → Distinct o.items
    → (finish id owner (pos n) how o).0 ≢ stale
    → Reach (finish id owner (pos n) how o).1 p
    → (finish id owner' (pos n) how' p).0 ≡ stale
finish_once id owner owner' n how how' o p d h r =
    Spent-finish id owner' n how' p (Reach-Spent id n _ p r (finish-Spent id owner n how o d h))
