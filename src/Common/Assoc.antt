-- ===== src/Common/Assoc.antt =====
-- Tables from text: `lookup` is `table.get(key)` on a literal table.
use mathlib.Core.Path.{◌≡◌, refl, sym, ap, ◌∙◌}
use mathlib.Core.Logic.{◌⊎◌, inl, inr}
use mathlib.Core.Bool.{Bool, true, false, ◌&&◌}
use mathlib.Core.Option.{Option, none, some}
use mathlib.Core.List.{List, [], ◌∷◌}
use native.Mathlib.Omega.{arith}
use db_first_practice.Common.Tests.{if◌then◌else◌, Bool-cases, some_injective}
use db_first_practice.Common.Strings.{Text, text_eq, text_eq_iff}
use db_first_practice.Common.Lists.{all}

unfoldable pub lookup {ℓ} : {A : Type ℓ} → Text → List (Text × A) → Option A
lookup k [] = none
lookup k ((j, a) ∷ rest) = let later = lookup k rest in if text_eq j k then some a else later

-- `table[key] = value`, a new key last
unfoldable pub insert {ℓ} : {A : Type ℓ} → Text → A → List (Text × A) → List (Text × A)
insert k a [] = (k, a) ∷ []
insert k a ((j, b) ∷ rest) =
    let later = insert k a rest in if text_eq j k then (j, a) ∷ rest else (j, b) ∷ later

if-then {ℓ} :
    {A : Type ℓ} {t : Bool} (x y : A) {z : A} → t ≡ true → (if t then x else y) ≡ z → x ≡ z
if-then {t = true} x y e h = h
if-then {t = false} x y e h = cc

if-else {ℓ} :
    {A : Type ℓ} {t : Bool} (x y : A) {z : A} → t ≡ false → (if t then x else y) ≡ z → y ≡ z
if-else {t = true} x y e h = cc
if-else {t = false} x y e h = h

pub and-left : (a b : Bool) → (a && b) ≡ true → a ≡ true
and-left a b h = ground arith

pub and-right : (a b : Bool) → (a && b) ≡ true → b ≡ true
and-right a b h = ground arith

found_here {ℓ} :
    {A : Type ℓ} (p : Text × A → Bool) {j k : Text} {a b : A}
    → p (j, b) ≡ true
    → j ≡ k
    → b ≡ a
    → p (k, a) ≡ true
found_here p h e f = cc

-- what every row of a table passes, a row that is looked up passes
pub all-lookup {ℓ} :
    {A : Type ℓ} (p : Text × A → Bool) (table : List (Text × A)) (k : Text) {a : A}
    → all p table ≡ true
    → lookup k table ≡ some a
    → p (k, a) ≡ true
unfolding lookup
all-lookup p [] k h e = cc
all-lookup p ((j, b) ∷ rest) k {a} h e = elim (Bool-cases (text_eq j k)) [
  | inl same ↦
      found_here p (and-left (p (j, b)) _ h) ((text_eq_iff j k).0 same)
        (some_injective (if-then (some b) (lookup k rest) same e))
  | inr other ↦
      all-lookup p rest k (and-right (p (j, b)) _ h) (if-else (some b) (lookup k rest) other e)
]

-- the first row has the key, or the value comes from a row below
lookup-found {ℓ} :
    {A : Type ℓ} (k j : Text) (a : A) (rest : List (Text × A)) {b : A}
    → lookup k ((j, a) ∷ rest) ≡ some b
    → ((j ≡ k) × (a ≡ b)) ⊎ ((text_eq j k ≡ false) × (lookup k rest ≡ some b))
unfolding lookup
lookup-found k j a rest {b} h = elim (Bool-cases (text_eq j k)) [
  | inl same ↦
      inl ((text_eq_iff j k).0 same, some_injective (if-then (some a) (lookup k rest) same h))
  | inr other ↦ inr (other, if-else (some a) (lookup k rest) other h)
]

lookup-skip {ℓ} :
    {A : Type ℓ} (k j : Text) (a : A) (rest : List (Text × A)) {b : A}
    → text_eq j k ≡ false
    → lookup k rest ≡ some b
    → lookup k ((j, a) ∷ rest) ≡ some b
unfolding lookup
lookup-skip k j a rest e h = rw (e) h

lookup-hit {ℓ} :
    {A : Type ℓ} (k j : Text) (a b : A) (rest : List (Text × A))
    → j ≡ k
    → a ≡ b
    → lookup k ((j, a) ∷ rest) ≡ some b
unfolding lookup
lookup-hit k j a b rest e f = rw ((text_eq_iff j k).1 e) (ap some f)

insert-nil {ℓ} : {A : Type ℓ} (j : Text) (a : A) → (j, a) ∷ [] ≡ insert j a []
unfolding insert
insert-nil j a = refl

-- the table after an insertion that meets its key in the first row, or does not
insert-cons {ℓ} :
    {A : Type ℓ} (j : Text) (a : A) (i : Text) (c : A) (rest : List (Text × A))
    → ((i ≡ j) × (insert j a ((i, c) ∷ rest) ≡ (i, a) ∷ rest))
      ⊎ (insert j a ((i, c) ∷ rest) ≡ (i, c) ∷ insert j a rest)
unfolding insert
insert-cons j a i c rest = elim (Bool-cases (text_eq i j)) [
  | inl same ↦ inl ((text_eq_iff i j).0 same, rw (same) refl)
  | inr other ↦ inr (rw (other) refl)
]

-- what is in a table after an insertion is what was inserted, or was there before
pub lookup-insert {ℓ} :
    {A : Type ℓ} (k j : Text) (a : A) (table : List (Text × A)) {b : A}
    → lookup k (insert j a table) ≡ some b
    → ((j ≡ k) × (a ≡ b)) ⊎ (lookup k table ≡ some b)
lookup-insert k j a [] h = elim (lookup-found k j a [] (ap (lookup k) (insert-nil j a) ∙ h)) [
  | inl p ↦ inl p
  | inr (_, e) ↦ inr e
]
lookup-insert k j a ((i, c) ∷ rest) {b} h = elim (insert-cons j a i c rest) [
  | inl (same, e) ↦ elim (lookup-found k i a rest (ap (lookup k) (sym e) ∙ h)) [
    | inl (here, found) ↦ inl (sym same ∙ here, found)
    | inr (other, found) ↦ inr (lookup-skip k i c rest other found)
  ]
  | inr e ↦ elim (lookup-found k i c (insert j a rest) (ap (lookup k) (sym e) ∙ h)) [
    | inl (here, found) ↦ inr (lookup-hit k i c b rest here found)
    | inr (other, found) ↦ elim (lookup-insert k j a rest found) [
      | inl p ↦ inl p
      | inr old ↦ inr (lookup-skip k i c rest other old)
    ]
  ]
]
