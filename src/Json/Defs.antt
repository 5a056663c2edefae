-- ===== src/Json/Defs.antt =====
-- Values, dictionaries, and Python's `==` and truth on them.
use db_first_practice.Common.{
  ℕ, suc, ◌^◌, Bool, true, false, not, ◌&&◌, Option, none, some, List, [], ◌∷◌, ◌==◌, if◌then◌else◌,
  Text, text_eq, mem_text, is_empty, all,
}
use db_first_practice.Common.Int.{ℤ, pos, int_eq, scale}

-- NaN, Infinity and -Infinity
pub data Special : Type 0 where
  not_a_number positive_infinity negative_infinity : Special

mutual
  pub data Value : Type 0 where
    null : Value
    bool : Bool → Value
    int : ℤ → Value
    float : ℤ → ℕ → Value
    special : Special → Value
    str : Text → Value
    arr : Items → Value
    obj : Fields → Value

  pub data Items : Type 0 where
    cons : Value → Items → Items
    nil : Items

  pub data Fields : Type 0 where
    end : Fields
    field : Text → Value → Fields → Fields

abbrev pub elements : Items → List Value
elements nil = []
elements (cons v vs) = v ∷ elements vs

abbrev pub entries : Fields → List (Text × Value)
entries end = []
entries (field k v d) = (k, v) ∷ entries d

-- `d.get(key)`: `none` for a missing key
unfoldable pub get : Text → Fields → Option Value
get k end = none
get k (field j v d) = if text_eq j k then some v else get k d

-- `key in d`
abbrev pub has_key : Text → Fields → Bool
has_key k d = elim (get k d) [ none ↦ false | some v ↦ true ]

-- `d.get(key)` where `None` and a missing key are one
abbrev pub get_or_null : Text → Fields → Value
get_or_null k d = elim (get k d) [ none ↦ null | some v ↦ v ]

-- `d[key] = value`
unfoldable pub put : Text → Value → Fields → Fields
put k v end = field k v end
put k v (field j w d) = if text_eq j k then field j v d else field j w (put k v d)

abbrev pub keys_within : List Text → Fields → Bool
keys_within names end = true
keys_within names (field k v d) = mem_text k names && keys_within names d

-- `set(d) == {names}`
unfoldable pub keys_are : List Text → Fields → Bool
keys_are names d = all (λ k. has_key k d) names && keys_within names d

-- a number as `m / 10 ^ k`; `True` is 1 and `False` is 0
abbrev pub number : Value → Option (ℤ × ℕ)
number (bool true) = some (pos 1, 0)
number (bool false) = some (pos 0, 0)
number (int n) = some (n, 0)
number (float m k) = some (m, k)
number v = none

abbrev pub number_eq : Option (ℤ × ℕ) → Option (ℤ × ℕ) → Bool
number_eq (some (m, j)) (some (n, k)) = int_eq (scale m (10 ^ k)) (scale n (10 ^ j))
number_eq _ _ = false

abbrev special_eq : Special → Special → Bool
special_eq positive_infinity positive_infinity = true
special_eq negative_infinity negative_infinity = true
special_eq _ _ = false

count_fields : Fields → ℕ
count_fields end = 0
count_fields (field k v d) = suc (count_fields d)

abbrev same_length : Fields → Fields → Bool
same_length d e = count_fields d == count_fields e

-- `a == b`, by the left value
unfoldable mutual
  unfolding get count_fields

  pub value_eq : Value → Value → Bool
  value_eq null null = true
  value_eq (str s) (str t) = text_eq s t
  value_eq (special x) (special y) = special_eq x y
  value_eq (arr xs) (arr ys) = items_eq xs ys
  value_eq (obj d) (obj e) = same_length d e && fields_eq d e
  value_eq (bool a) w = number_eq (number (bool a)) (number w)
  value_eq (int n) w = number_eq (number (int n)) (number w)
  value_eq (float m k) w = number_eq (number (float m k)) (number w)
  value_eq _ _ = false

  pub items_eq : Items → Items → Bool
  items_eq nil nil = true
  items_eq (cons v vs) (cons w ws) = value_eq v w && items_eq vs ws
  items_eq _ _ = false

  pub fields_eq : Fields → Fields → Bool
  fields_eq end e = true
  fields_eq (field k v d) e =
      elim (get k e) [ none ↦ false | some w ↦ value_eq v w ] && fields_eq d e

-- `bool(v)`
unfoldable pub truthy : Value → Bool
truthy null = false
truthy (bool b) = b
truthy (int n) = not (int_eq n (pos 0))
truthy (float m k) = not (int_eq m (pos 0))
truthy (special x) = true
truthy (str s) = not (is_empty s)
truthy (arr nil) = false
truthy (arr (cons v vs)) = true
truthy (obj end) = false
truthy (obj (field k v d)) = true

-- `isinstance(v, str) and ...`
abbrev pub is_str : Value → Bool
is_str (str s) = true
is_str v = false

abbrev pub is_dict : Value → Bool
is_dict (obj d) = true
is_dict v = false

-- `isinstance(v, int) and not isinstance(v, bool)`
abbrev pub is_plain_int : Value → Bool
is_plain_int (int n) = true
is_plain_int v = false

-- `v == "..."` and `v in ("...", ...)`
abbrev pub str_is : Text → Value → Bool
str_is t (str s) = text_eq s t
str_is t v = false
