-- ===== src/Week4/Report/Redacted.antt =====
-- What `_redact` leaves of a value.
use db_first_practice.Common.{
  ℕ, zero, suc, ◌+◌, ◌≤◌, ◌≡◌, refl, Bool, true, false, inl, inr, List, arith, lt→ltb, length,
  length-take, Text, txt, if◌then◌else◌, Bool-cases,
}
use db_first_practice.Common.Int.{ℤ}
use db_first_practice.Json.{
  Special, Value, null, bool, int, float, special, str, arr, obj, Items, nil, cons, Fields, end,
  field,
}
use db_first_practice.Week4.Report.{is_secret_key, redact, redact_items, redact_fields}

mutual
  -- `IsShown depth v`: no text is longer than 2000 characters, a secret key shows nothing but
  -- that it is redacted, and v has at most `depth` levels of lists and dictionaries
  pub data IsShown : ℕ → Value → Type 0 where
    shown_null : {n : ℕ} → IsShown n null
    shown_bool : {n : ℕ} {b : Bool} → IsShown n (bool b)
    shown_int : {n : ℕ} {i : ℤ} → IsShown n (int i)
    shown_float : {n : ℕ} {m : ℤ} {k : ℕ} → IsShown n (float m k)
    shown_special : {n : ℕ} {x : Special} → IsShown n (special x)
    shown_text : {n : ℕ} {s : Text} → length s ≤ 2000 → IsShown n (str s)
    shown_list : {n : ℕ} {vs : Items} → AreShown n vs → IsShown (suc n) (arr vs)
    shown_dict : {n : ℕ} {d : Fields} → HaveShown n d → IsShown (suc n) (obj d)

  pub data AreShown : ℕ → Items → Type 0 where
    none_left : {n : ℕ} → AreShown n nil
    one_more :
        {n : ℕ} {v : Value} {vs : Items} → IsShown n v → AreShown n vs → AreShown n (cons v vs)

  pub data HaveShown : ℕ → Fields → Type 0 where
    no_field : {n : ℕ} → HaveShown n end
    open_field :
        {n : ℕ} {k : Text} {v : Value} {d : Fields}
        → is_secret_key k ≡ false
        → IsShown n v
        → HaveShown n d
        → HaveShown n (field k v d)
    secret_field :
        {n : ℕ} {k : Text} {d : Fields}
        → is_secret_key k ≡ true
        → HaveShown n d
        → HaveShown n (field k (str (txt "[redacted]")) d)

limit_text : (n : ℕ) → IsShown n (str (txt "[depth-limit]"))
unfolding txt
limit_text n = shown_text (omega arith)

-- a value that is shown as it is, unless the depth is reached
IsShown-or_limit :
    {n : ℕ} (t : Bool) (v : Value)
    → IsShown n v
    → IsShown n (if t then str (txt "[depth-limit]") else v)
IsShown-or_limit {n} true v h = limit_text n
IsShown-or_limit false v h = h

mutual
  unfolding redact redact_items redact_fields

  redact-IsShown' :
      (secrets : List Text) (n depth : ℕ) (v : Value)
      → n + depth ≡ 13
      → IsShown n (redact secrets depth v)
  redact-IsShown' secrets n depth null e = IsShown-or_limit _ _ shown_null
  redact-IsShown' secrets n depth (bool b) e = IsShown-or_limit _ _ shown_bool
  redact-IsShown' secrets n depth (int i) e = IsShown-or_limit _ _ shown_int
  redact-IsShown' secrets n depth (float m k) e = IsShown-or_limit _ _ shown_float
  redact-IsShown' secrets n depth (special x) e = IsShown-or_limit _ _ shown_special
  redact-IsShown' secrets n depth (str s) e = IsShown-or_limit _ _ (shown_text (length-take 2000 _))
  redact-IsShown' secrets zero depth (arr vs) e =
      rw (lt→ltb 12 depth (omega (arith, e))) (limit_text 0)
  redact-IsShown' secrets zero depth (obj d) e =
      rw (lt→ltb 12 depth (omega (arith, e))) (limit_text 0)
  redact-IsShown' secrets (suc n) depth (arr vs) e =
      IsShown-or_limit _ _ (shown_list (items-AreShown secrets n (suc depth) vs (omega (arith, e))))
  redact-IsShown' secrets (suc n) depth (obj d) e =
      IsShown-or_limit _ _
        (shown_dict (fields-HaveShown secrets n (suc depth) d (omega (arith, e))))

  items-AreShown :
      (secrets : List Text) (n depth : ℕ) (vs : Items)
      → n + depth ≡ 13
      → AreShown n (redact_items secrets depth vs)
  items-AreShown secrets n depth nil e = none_left
  items-AreShown secrets n depth (cons v vs) e =
      one_more (redact-IsShown' secrets n depth v e) (items-AreShown secrets n depth vs e)

  fields-HaveShown :
      (secrets : List Text) (n depth : ℕ) (d : Fields)
      → n + depth ≡ 13
      → HaveShown n (redact_fields secrets depth d)
  fields-HaveShown secrets n depth end e = no_field
  fields-HaveShown secrets n depth (field k v d) e = elim (Bool-cases (is_secret_key k)) [
    | inl s ↦ rw (s) (secret_field s (fields-HaveShown secrets n depth d e))
    | inr o ↦
        rw (o) (
          open_field o (redact-IsShown' secrets n depth v e) (fields-HaveShown secrets n depth d e))
  ]

-- Whatever the value and the secrets, `_redact` leaves no text longer than 2000 characters, shows nothing under
-- a secret key but that it is redacted, at any depth, and keeps at most 13 levels of lists and dictionaries.
pub redact-IsShown : (secrets : List Text) (v : Value) → IsShown 13 (redact secrets 0 v)
redact-IsShown secrets v = redact-IsShown' secrets 13 0 v refl
