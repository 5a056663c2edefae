-- ===== src/Week4/Schema/Limit.antt =====
-- When a recursion limit is enough for the rules of a schema, and when two visits end alike.
use db_first_practice.Common.{
  ℕ, zero, suc, ◌≡◌, ◌≢◌, refl, ap, Bool, true, false, ◌&&◌, none, some, Text, txt, all, subst,
}
use db_first_practice.Common.Results.{Result, ok, err, ◌>>=◌, ok_injective}
use db_first_practice.Json.{
  Value, null, bool, int, float, special, str, arr, obj, Items, Fields, get, get_or_null, elements,
  entries,
}
use db_first_practice.Findings.{Fault, str_of}
use db_first_practice.Week4.Schema.{Stop, too_deep, Visit, lift, resolve, on_dict, on_list}

-- a test of a rule, and true of what is no rule
abbrev pub if_dict : (Fields → Bool) → Value → Bool
if_dict p (obj d) = p d
if_dict p v = true

abbrev pub if_list : (Value → Bool) → Value → Bool
if_list p (arr vs) = all p (elements vs)
if_list p v = true

abbrev pub if_entries : (Value → Bool) → Value → Bool
if_entries p = if_dict λ d. all (λ (k, v). p v) (entries d)

-- the rules inside a rule pass a test
abbrev pub inside : (Fields → Bool) → Fields → Bool
inside p rule =
    (if_dict p (get_or_null (txt "not") rule)
      && if_list (if_dict p) (get_or_null (txt "oneOf") rule))
    && (if_dict p (get_or_null (txt "items") rule)
        && if_entries (if_dict p) (get_or_null (txt "properties") rule))

abbrev pub if_resolved : (Fields → Bool) → Result Fault Fields → Bool
if_resolved p (ok target) = p target
if_resolved p (err e) = true

-- the rules that can be reached from a rule, inside it or by references, stand at most `n` deep
unfoldable pub fits_limit : (Value → Text) → Fields → ℕ → Fields → Bool
fits_limit repr schema zero rule = false
fits_limit repr schema (suc n) rule = elim (get (txt "$ref") rule) [
  | some reference ↦ if_resolved (fits_limit repr schema n) (resolve schema (str_of repr reference))
  | none ↦ inside (fits_limit repr schema n) rule
]

-- two visits that end alike, and not for their depth
abbrev pub Same {ℓ} : {A : Type ℓ} → Result Stop A → Result Stop A → Type ℓ
Same x y = (x ≡ y) × (x ≢ err too_deep)

pub Same-ok {ℓ} : {A : Type ℓ} (a : A) → Same (ok a) (ok a)
Same-ok a = (refl, λ e. cc)

pub Same-lift {ℓ} : {A : Type ℓ} (m : Result Fault A) → Same (lift m) (lift m)
unfolding lift
Same-lift (ok a) = (refl, λ e. cc)
Same-lift (err x) = (refl, λ e. cc)

err_injective {ℓ} : {A : Type ℓ} {x y : Stop} → ◌≡◌ {A = Result Stop A} (err x) (err y) → x ≡ y
err_injective e = cc

pub Same-bind {ℓ κ} :
    {A : Type ℓ} {B : Type κ} (m n : Result Stop A) (f g : A → Result Stop B)
    → Same m n
    → ((a : A) → Same (f a) (g a))
    → Same (m >>= f) (n >>= g)
Same-bind (ok a) (ok b) f g (e, _) h = subst (λ c. Same (f a) (g c)) (ok_injective e) (h a)
Same-bind (ok a) (err y) f g (e, _) h = cc
Same-bind (err x) (ok b) f g (e, _) h = cc
Same-bind (err x) (err y) f g (e, d) h =
    (ap err (err_injective e), λ k. d (ap err (err_injective k)))

pub on_dict-Same :
    (p : Fields → Bool) (v : Value) (other : Visit) (h k : Fields → Visit)
    → if_dict p v ≡ true
    → Same other other
    → ((d : Fields) → p d ≡ true → Same (h d) (k d))
    → Same (on_dict v other h) (on_dict v other k)
on_dict-Same p (obj d) other h k e o s = s d e
on_dict-Same p null other h k e o s = o
on_dict-Same p (bool b) other h k e o s = o
on_dict-Same p (int n) other h k e o s = o
on_dict-Same p (float m i) other h k e o s = o
on_dict-Same p (special x) other h k e o s = o
on_dict-Same p (str t) other h k e o s = o
on_dict-Same p (arr vs) other h k e o s = o

pub on_list-Same :
    (q : Value → Bool) (v : Value) (other other' : Visit) (h k : Items → Visit)
    → if_list q v ≡ true
    → Same other other'
    → ((vs : Items) → all q (elements vs) ≡ true → Same (h vs) (k vs))
    → Same (on_list v other h) (on_list v other' k)
on_list-Same q (arr vs) other other' h k e o s = s vs e
on_list-Same q (obj d) other other' h k e o s = o
on_list-Same q null other other' h k e o s = o
on_list-Same q (bool b) other other' h k e o s = o
on_list-Same q (int n) other other' h k e o s = o
on_list-Same q (float m i) other other' h k e o s = o
on_list-Same q (special x) other other' h k e o s = o
on_list-Same q (str t) other other' h k e o s = o
