-- ===== src/Json/Dict.antt =====
-- A dictionary as a mapping: what `get`, `put` and `keys_are` say of one another.
use db_first_practice.Common.{
  ◌≡◌, refl, ap, ◌↔◌, true, some, List, arith, Text, text_eq, text_eq_iff, text_eq_refl, mem_text,
  all, if◌then◌else◌,
}
use db_first_practice.Json.Defs.{
  Value, null, bool, int, float, special, str, arr, obj, str_is, Fields, end, field, get,
  get_or_null, has_key, keys_within, keys_are, put,
}

pub get-put :
    (k j : Text) (v : Value) (d : Fields)
    → get j (put k v d) ≡ (if text_eq k j then some v else get j d)
unfolding get put
get-put k j v end = refl
get-put k j v (field i w d) =
    ground (arith, text_eq_iff k j, text_eq_iff i k, text_eq_iff i j, get-put k j v d)

has_key_head : (k : Text) (v : Value) (d : Fields) → has_key k (field k v d) ≡ true
unfolding get
has_key_head k v d = ground (arith, text_eq_refl k)

has_key_tail :
    (k j : Text) (v : Value) (d : Fields) → has_key k d ≡ true → has_key k (field j v d) ≡ true
unfolding get
has_key_tail k j v d h = ground arith

keys_within-mem :
    (names : List Text) (d : Fields) (k : Text)
    → keys_within names d ≡ true
    → has_key k d ≡ true
    → mem_text k names ≡ true
unfolding get
keys_within-mem names end k h m = cc
keys_within-mem names (field j v d) k h m =
    ground (arith, text_eq_iff j k, keys_within-mem names d k)

mem-keys_within :
    (names : List Text) (d : Fields)
    → ((k : Text) → has_key k d ≡ true → mem_text k names ≡ true)
    → keys_within names d ≡ true
mem-keys_within names end h = refl
mem-keys_within names (field j v d) h =
    let rest = mem-keys_within names d (λ k m. h k (has_key_tail k j v d m)) in
    ground (arith, h j (has_key_head j v d), rest)

-- `set(d) == {names}` in terms of `in`
pub keys_are_iff :
    (names : List Text) (d : Fields)
    → (keys_are names d ≡ true) ↔ (
        (all (λ k. has_key k d) names ≡ true)
        × ((k : Text) → has_key k d ≡ true → mem_text k names ≡ true))
unfolding keys_are
keys_are_iff names d = (
  λ h.
      let w : keys_within names d ≡ true = ground arith in
      (ground arith, λ k m. keys_within-mem names d k w m),
  λ h. ground (arith, mem-keys_within names d h.1),
)

pub get_of_text :
    (k : Text) (d : Fields) (s : Text) → get_or_null k d ≡ str s → get k d ≡ some (str s)
get_of_text k d s h = ground arith

pub text_of_get :
    (k : Text) (d : Fields) {s : Text} → get k d ≡ some (str s) → get_or_null k d ≡ str s
text_of_get k d h = ground arith

-- `v == "..."` holds of that text only
pub str_is_sound : (t : Text) (v : Value) → str_is t v ≡ true → v ≡ str t
str_is_sound t (str s) h = ap str ((text_eq_iff s t).0 h)
str_is_sound t null h = cc
str_is_sound t (bool b) h = cc
str_is_sound t (int n) h = cc
str_is_sound t (float m k) h = cc
str_is_sound t (special x) h = cc
str_is_sound t (arr vs) h = cc
str_is_sound t (obj d) h = cc
