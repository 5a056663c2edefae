-- ===== src/Week4/Schema/Quiet.antt =====
-- What it means that the single checks of a rule find nothing.
use db_first_practice.Common.{
  ℕ, ◌≡◌, refl, ap, Bool, true, false, not, Option, none, some, List, [], ◌++◌, arith, Text,
  if◌then◌else◌, any, subst, some_injective, ◌≤◌,
}
use db_first_practice.Common.Int.{pos, int_lt}
use db_first_practice.Common.Results.{Result, ok, err, ◌>>=◌, ok_injective}
use db_first_practice.Json.{Value, arr, Items, Fields, end, field, elements, value_eq}
use db_first_practice.Findings.{Fault, flag-nil, append-nil}
use db_first_practice.Week4.Schema.Rules.{const_findings, enum_findings, is_in}
use db_first_practice.Week4.Schema.{Visit, lift, additional}
use db_first_practice.Week4.Schema.Fits.{OnlyKeys}

-- two findings in sequence are none
pub bind-nil :
    (m n : Visit) → (m >>= λ xs. n >>= λ ys. ok (xs ++ ys)) ≡ ok [] → (m ≡ ok []) × (n ≡ ok [])
bind-nil (ok xs) (ok ys) h = let (a, b) = append-nil xs ys (ok_injective h) in (ap ok a, ap ok b)
bind-nil (ok xs) (err e) h = cc
bind-nil (err e) n h = cc

pub lift-ok : {A : Type 0} (m : Result Fault A) {a : A} → lift m ≡ ok a → m ≡ ok a
unfolding lift
lift-ok (ok b) h = ap ok (ok_injective h)
lift-ok (err e) h = cc

pub not-false : (b : Bool) → not b ≡ false → b ≡ true
not-false true h = refl
not-false false h = cc

pub const_fits :
    (o : Option Value) (item : Value) (path : Text)
    → const_findings o item path ≡ ok []
    → (v : Value) → o ≡ some v
    → value_eq item v ≡ true
unfolding const_findings
const_fits none item path h v e = cc
const_fits (some w) item path h v e =
    subst (λ u. value_eq item u ≡ true) (some_injective e)
      (not-false _ (flag-nil _ _ (ok_injective h)))

pub enum_fits :
    (o : Option Value) (item : Value) (path : Text)
    → enum_findings o item path ≡ ok []
    → (vs : Items) → o ≡ some (arr vs)
    → any (value_eq item) (elements vs) ≡ true
unfolding enum_findings is_in
enum_fits o item path h vs e = not-false _ (flag-nil _ _ (ok_injective (rw e at h)))

pub at_most : (m n : ℕ) → int_lt (pos n) (pos m) ≡ false → m ≤ n
at_most m n h = ground arith

pub only_keys : (d ps : Fields) (path : Text) → additional d ps path ≡ [] → OnlyKeys ps d
unfolding additional
only_keys end ps path h = tt
only_keys (field k v d) ps path h =
    let (here, later) = append-nil _ _ h in
    (not-false _ (flag-nil _ _ here), only_keys d ps path later)

pub closed_keys :
    (closed : Bool) (d ps : Fields) (path : Text) (found : List Text)
    → found ++ (if closed then additional d ps path else []) ≡ []
    → closed ≡ true
    → OnlyKeys ps d
closed_keys true d ps path found h e = only_keys d ps path (append-nil found _ h).1
closed_keys false d ps path found h e = cc

-- the findings come from a first part, and a function of them
pub bind-ok-nil :
    (m : Visit) (f : List Text → List Text)
    → (m >>= λ found. ok (f found)) ≡ ok []
    → (found : List Text) × (m ≡ ok found) × (f found ≡ [])
bind-ok-nil (ok found) f h = (found, refl, ok_injective h)
bind-ok-nil (err e) f h = cc
