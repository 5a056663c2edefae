-- ===== src/Week4/Report/Forbidden.antt =====
-- The keys that a report must not have.
use db_first_practice.Common.{◌≡◌, ◌↔◌, ◌⊎◌, inl, inr, Bool, true, ◌||◌, arith, Text}
use db_first_practice.Json.{
  Value, null, bool, int, float, special, str, arr, obj, Items, nil, cons, Fields, end, field,
}
use db_first_practice.Week4.Report.{
  is_forbidden_key, report_has_forbidden_keys, items_forbidden, fields_forbidden,
}

-- `Occurs k v`: k is a key of v or of a value at any depth in it
mutual
  pub data Occurs (k : Text) : Value → Type 0 where
    in_list : {vs : Items} → OccursItems k vs → Occurs k (arr vs)
    in_dict : {d : Fields} → OccursFields k d → Occurs k (obj d)

  pub data OccursItems (k : Text) : Items → Type 0 where
    head : {v : Value} {vs : Items} → Occurs k v → OccursItems k (cons v vs)
    tail : {v : Value} {vs : Items} → OccursItems k vs → OccursItems k (cons v vs)

  pub data OccursFields (k : Text) : Fields → Type 0 where
    key : {v : Value} {d : Fields} → OccursFields k (field k v d)
    value : {j : Text} {v : Value} {d : Fields} → Occurs k v → OccursFields k (field j v d)
    rest : {j : Text} {v : Value} {d : Fields} → OccursFields k d → OccursFields k (field j v d)

or-true : (a b : Bool) → (a || b) ≡ true → (a ≡ true) ⊎ (b ≡ true)
or-true a b h = ground arith

or-left : (a b : Bool) → a ≡ true → (a || b) ≡ true
or-left a b h = ground arith

or-right : (a b : Bool) → b ≡ true → (a || b) ≡ true
or-right a b h = ground arith

Forbidden : (Text → Type 0) → Type 0
Forbidden P = (k : Text) × P k × (is_forbidden_key k ≡ true)

mutual
  unfolding report_has_forbidden_keys items_forbidden fields_forbidden Forbidden

  forbidden_sound : (v : Value) → report_has_forbidden_keys v ≡ true → Forbidden (λ k. Occurs k v)
  forbidden_sound (obj d) h = let (k, o, f) = fields_sound d h in (k, in_dict o, f)
  forbidden_sound (arr vs) h = let (k, o, f) = items_sound vs h in (k, in_list o, f)
  forbidden_sound null h = cc
  forbidden_sound (bool b) h = cc
  forbidden_sound (int n) h = cc
  forbidden_sound (float m j) h = cc
  forbidden_sound (special x) h = cc
  forbidden_sound (str s) h = cc

  items_sound : (vs : Items) → items_forbidden vs ≡ true → Forbidden (λ k. OccursItems k vs)
  items_sound nil h = cc
  items_sound (cons v vs) h = elim (or-true (report_has_forbidden_keys v) (items_forbidden vs) h) [
    | inl a ↦ (let (k, o, f) = forbidden_sound v a in (k, head o, f))
    | inr b ↦ (let (k, o, f) = items_sound vs b in (k, tail o, f))
  ]

  fields_sound : (d : Fields) → fields_forbidden d ≡ true → Forbidden (λ k. OccursFields k d)
  fields_sound end h = cc
  fields_sound (field j v d) h =
      elim (or-true (is_forbidden_key j || report_has_forbidden_keys v) (fields_forbidden d) h) [
        | inl a ↦ elim (or-true (is_forbidden_key j) (report_has_forbidden_keys v) a) [
          | inl here ↦ (j, key, here)
          | inr below ↦ (let (k, o, f) = forbidden_sound v below in (k, value o, f))
        ]
        | inr b ↦ (let (k, o, f) = fields_sound d b in (k, rest o, f))
      ]

mutual
  unfolding report_has_forbidden_keys items_forbidden fields_forbidden

  forbidden_complete :
      (k : Text) (v : Value)
      → Occurs k v
      → is_forbidden_key k ≡ true
      → report_has_forbidden_keys v ≡ true
  forbidden_complete k (obj d) (in_dict o) f = fields_complete k d o f
  forbidden_complete k (arr vs) (in_list o) f = items_complete k vs o f
  forbidden_complete k null o f = elim o [ ]
  forbidden_complete k (bool b) o f = elim o [ ]
  forbidden_complete k (int n) o f = elim o [ ]
  forbidden_complete k (float m j) o f = elim o [ ]
  forbidden_complete k (special x) o f = elim o [ ]
  forbidden_complete k (str s) o f = elim o [ ]

  items_complete :
      (k : Text) (vs : Items)
      → OccursItems k vs
      → is_forbidden_key k ≡ true
      → items_forbidden vs ≡ true
  items_complete k nil o f = elim o [ ]
  items_complete k (cons v vs) (head o) f = or-left _ _ (forbidden_complete k v o f)
  items_complete k (cons v vs) (tail o) f = or-right _ _ (items_complete k vs o f)

  fields_complete :
      (k : Text) (d : Fields)
      → OccursFields k d
      → is_forbidden_key k ≡ true
      → fields_forbidden d ≡ true
  fields_complete k end o f = elim o [ ]
  fields_complete k (field _ v d) key f = or-left _ _ (or-left _ _ f)
  fields_complete k (field j v d) (value o) f =
      or-left _ _ (or-right (is_forbidden_key j) _ (forbidden_complete k v o f))
  fields_complete k (field j v d) (rest o) f = or-right _ _ (fields_complete k d o f)

-- `report_has_forbidden_keys` holds exactly of the values in which a forbidden key occurs, at any depth.
pub report_has_forbidden_keys_iff :
    (v : Value)
    → (report_has_forbidden_keys v ≡ true) ↔ ((k : Text) × Occurs k v × (is_forbidden_key k ≡ true))
unfolding Forbidden
report_has_forbidden_keys_iff v =
    (forbidden_sound v, λ p. let (k, o, f) = p in forbidden_complete k v o f)
