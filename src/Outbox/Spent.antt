-- ===== src/Outbox/Spent.antt =====
-- A lease that is settled, or that another follows, stays so.
use db_first_practice.Common.{
  ℕ, ◌<◌, ◌≡◌, refl, ◌∙◌, Bool, true, false, not, ◌&&◌, ◌||◌, List, [], ◌∷◌, ◌++◌, ◌⊎◌, inl, inr,
  arith, Text, Bool-cases, All, any, text_eq, text_eq_iff, ap₂,
}
use db_first_practice.Common.Int.{pos}
use db_first_practice.Outbox.{
  is_leased, is_confirmed, Item, Policy, Outbox, lease, is_held, deliver, may_retry, fail_item,
  confirm,
}
use db_first_practice.Outbox.Steps.{
  Change, kept, claimed, delivers, fails, confirms, Step, Reach, here, next, Changes, both,
  none_left, IsOther, Adds, Changes-Step, All-Changes, All-append,
}

-- the primary key of the table
abbrev pub Distinct : List Item → Type 0
Distinct [] = Unit {0}
Distinct (i ∷ is) = All (λ j. text_eq j.outbox_id i.outbox_id ≡ false) is × Distinct is

abbrev pub known : Text → List Item → Bool
known id = any λ i. text_eq i.outbox_id id

-- the row has been leased again since, or the lease is settled
abbrev pub IsSpent : Text → ℕ → Item → Type 0
IsSpent id n i =
    text_eq i.outbox_id id ≡ true
    → (n < i.lease_version) ⊎ ((n ≡ i.lease_version) × (is_leased i.state ≡ false))

settled_now :
    {n m : ℕ} {b : Bool}
    → (n < m) ⊎ ((n ≡ m) × (b ≡ false))
    → (n < m) ⊎ ((n ≡ m) × (◌≡◌ {A = Bool} false false))
settled_now (inl older) = inl older
settled_now (inr (last, settled)) = inr (last, refl)

Change-IsSpent :
    (id : Text) (n : ℕ) (policy : Policy) (now : ℕ) (i j : Item)
    → Change policy now i j
    → IsSpent id n i
    → IsSpent id n j
unfolding lease deliver fail_item confirm
Change-IsSpent id n policy now i j (kept e) h = rw e h
Change-IsSpent id n policy now i j (claimed owner c e) h = rw e λ same. elim (h same) [
  | inl older ↦ inl (omega arith)
  | inr (last, settled) ↦ inl (omega arith)
]
Change-IsSpent id n policy now i j (delivers _ _ _ c e) h = rw e λ same. settled_now (h same)
Change-IsSpent id n policy now i j (fails _ _ _ code c e) h =
    elim (Bool-cases (may_retry policy code i.attempt_count)) [
      | inl again ↦ rw (e, again) λ same. settled_now (h same)
      | inr never ↦ rw (e, never) λ same. settled_now (h same)
    ]
Change-IsSpent id n policy now i j (confirms request e) h =
    elim (Bool-cases (text_eq i.external_request_id request && not (is_confirmed i.state))) [
      | inl arrives ↦ rw (e, arrives) λ same. settled_now (h same)
      | inr other ↦ rw (e, other) h
    ]

Change-id :
    (policy : Policy) (now : ℕ) (i j : Item) → Change policy now i j → j.outbox_id ≡ i.outbox_id
unfolding lease deliver fail_item confirm
Change-id policy now i j (kept e) = rw e refl
Change-id policy now i j (claimed owner c e) = rw e refl
Change-id policy now i j (delivers _ _ _ c e) = rw e refl
Change-id policy now i j (fails _ _ _ code c e) =
    elim (Bool-cases (may_retry policy code i.attempt_count)) [
      | inl again ↦ rw (e, again) refl
      | inr never ↦ rw (e, never) refl
    ]
Change-id policy now i j (confirms request e) =
    elim (Bool-cases (text_eq i.external_request_id request && not (is_confirmed i.state))) [
      | inl arrives ↦ rw (e, arrives) refl
      | inr other ↦ rw (e, other) refl
    ]

Changes-known :
    (id : Text) (policy : Policy) (now : ℕ) {is js : List Item}
    → Changes policy now is js
    → known id js ≡ known id is
Changes-known id policy now none_left = refl
Changes-known id policy now (both {i} {j} c cs) =
    ap₂ (λ a b. text_eq a id || b) (Change-id policy now i j c) (Changes-known id policy now cs)

known-append :
    (id : Text) (is : List Item) (j : Item) → known id is ≡ true → known id (is ++ j ∷ []) ≡ true
known-append id [] j h = cc
known-append id (i ∷ is) j h = ground (arith, known-append id is j)

-- a key that no row has is not one that some row has
pub known-other :
    (id other : Text) (is : List Item)
    → known id is ≡ true
    → All (λ i. text_eq i.outbox_id other ≡ false) is
    → text_eq other id ≡ false
known-other id other [] h a = cc
known-other id other (i ∷ is) h (hi, his) = ground (
  arith,
  known-other id other is,
  text_eq_iff i.outbox_id id,
  text_eq_iff other id,
  text_eq_iff i.outbox_id other,
)

-- A lease that has been settled, or that has been followed by another.
pub record Spent (id : Text) (n : ℕ) (o : Outbox) : Type 0 where
  pub row : known id o.items ≡ true
  pub rows : All (IsSpent id n) o.items

Adds-Spent : (id : Text) (n : ℕ) (o p : Outbox) → Adds o p → Spent id n o → Spent id n p
Adds-Spent id n o p a s =
    let other = known-other id a.id o.items s.row (ids o.items a.other) in
    record {
      row = rw (a.added) (known-append id o.items _ s.row);
      rows =
          rw (a.added)
            (All-append (IsSpent id n) o.items _ s.rows (λ same. absurd (apart other same)));
    }
  where
    ids :
        (is : List Item)
        → All (IsOther a.id a.request) is
        → All (λ i. text_eq i.outbox_id a.id ≡ false) is
    ids [] h = tt
    ids (i ∷ is) (h, hs) = (h.0, ids is hs)

    apart : {b : Bool} → b ≡ false → b ≡ true → ⊥
    apart e f = cc

Step-Spent : (id : Text) (n : ℕ) (o p : Outbox) → Step o p → Spent id n o → Spent id n p
Step-Spent id n o p st s = elim (Changes-Step o p st) [
  | inl changes ↦ record {
    row = Changes-known id o.policy o.now changes ∙ s.row;
    rows = All-Changes (IsSpent id n) (Change-IsSpent id n o.policy) o.now changes s.rows;
  }
  | inr adds ↦ Adds-Spent id n o p adds s
]

pub Reach-Spent : (id : Text) (n : ℕ) (o p : Outbox) → Reach o p → Spent id n o → Spent id n p
Reach-Spent id n o p here s = s
Reach-Spent id n o p (next {p = q} r st) s = Step-Spent id n q p st (Reach-Spent id n o q r s)

pub IsSpent-is_held :
    (id owner : Text) (n : ℕ) (i : Item) → IsSpent id n i → is_held id owner (pos n) i ≡ false
unfolding is_held
IsSpent-is_held id owner n i h = elim (Bool-cases (text_eq i.outbox_id id)) [
  | inl same ↦ elim (h same) [ inl older ↦ ground arith | inr (last, settled) ↦ ground arith ]
  | inr other ↦ rw other refl
]
