-- ===== src/Findings.antt =====
-- Lists of findings, put together in order, and what a value gives when the checkers
-- (task/week2/autocheck/public_check.py, task/week4/autocheck/public_check.py) read it.
use db_first_practice.Common.{
  ◌≡◌, refl, ap, Bool, true, false, not, List, [], ◌∷◌, ◌++◌, map, arith, Text, txt, All, any, ◌||◌,
  if◌then◌else◌,
}
use db_first_practice.Common.Results.{Result, ok, err, ◌>>=◌, ok_injective}
use db_first_practice.Json.{
  not_a_number, positive_infinity, negative_infinity, Value, null, bool, int, float, special, str,
  arr, obj, truthy, elements, entries,
}
use db_first_practice.Json.Print.{print_int, print_float}

-- what Python raises where a value has another shape than the checker reads
pub data Fault : Type 0 where
  type_error attribute_error key_error value_error overflow_error pattern_error : Fault

abbrev pub Found : Type 0
Found = Result Fault (List Text)

-- `if test: findings.append(message)`
unfoldable pub flag : Bool → Text → List Text
flag true message = message ∷ []
flag false message = []

-- the findings of one part of the code, then those of the next
infixr 20 ◌then_find◌
unfoldable pub ◌then_find◌ : Found → Found → Found
m then_find n = do xs ← m; ys ← n; ok (xs ++ ys)

-- the findings of a loop
unfoldable pub each {ℓ} : {A : Type ℓ} → (A → Found) → List A → Found
unfolding ◌then_find◌
each f [] = ok []
each f (x ∷ xs) = f x then_find each f xs

pub not-false : (b : Bool) → not b ≡ false → b ≡ true
not-false b h = ground arith

pub or-false-left : (a b : Bool) → (a || b) ≡ false → a ≡ false
or-false-left a b h = ground arith

pub or-false-right : (a b : Bool) → (a || b) ≡ false → b ≡ false
or-false-right a b h = ground arith

module _ {A : Type 0} where
  append-nil-left : (xs ys : List A) → xs ++ ys ≡ [] → xs ≡ []
  append-nil-left [] ys h = refl
  append-nil-left (x ∷ xs) ys h = cc

  append-nil-right : (xs ys : List A) → xs ++ ys ≡ [] → ys ≡ []
  append-nil-right [] ys h = h
  append-nil-right (x ∷ xs) ys h = cc

pub append-nil : (xs ys : List Text) → xs ++ ys ≡ [] → (xs ≡ []) × (ys ≡ [])
append-nil xs ys h = (append-nil-left xs ys h, append-nil-right xs ys h)

pub flag-nil : (test : Bool) (message : Text) → flag test message ≡ [] → test ≡ false
unfolding flag
flag-nil true m h = cc
flag-nil false m h = refl

-- no findings in sequence are no findings in each part
pub then_find-nil : (m n : Found) → m then_find n ≡ ok [] → (m ≡ ok []) × (n ≡ ok [])
unfolding ◌then_find◌
then_find-nil (ok xs) (ok ys) h =
    let (a, b) = append-nil xs ys (ok_injective h) in (ap ok a, ap ok b)
then_find-nil (ok xs) (err e) h = cc
then_find-nil (err e) n h = cc

-- `str(value)`; `repr` prints a list or a dictionary
unfoldable pub str_of : (Value → Text) → Value → Text
str_of repr null = txt "None"
str_of repr (bool true) = txt "True"
str_of repr (bool false) = txt "False"
str_of repr (int n) = print_int n
str_of repr (float m k) = print_float m k
str_of repr (special not_a_number) = txt "nan"
str_of repr (special positive_infinity) = txt "inf"
str_of repr (special negative_infinity) = txt "-inf"
str_of repr (str s) = s
str_of repr (arr vs) = repr (arr vs)
str_of repr (obj d) = repr (obj d)

abbrev pub characters : Text → List Value
characters s = map (λ c. str (c ∷ [])) s

-- `for item in value or []`
unfoldable pub iterate : Value → Result Fault (List Value)
iterate null = ok []
iterate (bool false) = ok []
iterate (bool true) = err type_error
iterate (int n) = if truthy (int n) then err type_error else ok []
iterate (float m k) = if truthy (float m k) then err type_error else ok []
iterate (special x) = err type_error
iterate (str s) = ok (characters s)
iterate (arr vs) = ok (elements vs)
iterate (obj d) = ok (map (λ (k, v). str k) (entries d))

-- a loop without findings has none for any element
pub each-nil {ℓ} :
    {A : Type ℓ} (f : A → Found) (xs : List A) → each f xs ≡ ok [] → All (λ x. f x ≡ ok []) xs
unfolding each
each-nil f [] h = tt
each-nil f (x ∷ xs) h = let (a, rest) = then_find-nil (f x) (each f xs) h in (a, each-nil f xs rest)

pub any-false {ℓ} :
    {A : Type ℓ} (p : A → Bool) (xs : List A) → any p xs ≡ false → All (λ x. p x ≡ false) xs
any-false p [] h = tt
any-false p (x ∷ xs) h = (or-false-left _ _ h, any-false p xs (or-false-right (p x) _ h))

pub All-map {ℓ κ μ} :
    {A : Type ℓ} {P : A → Type κ} {Q : A → Type μ}
    → ((x : A) → P x → Q x)
    → (xs : List A) → All P xs
    → All Q xs
All-map f [] h = tt
All-map f (x ∷ xs) h = let (a, rest) = h in (f x a, All-map f xs rest)

pub flags-nil :
    (p : Text → Bool) (message : Text → Text) (keys : List Text)
    → each (λ key. ok (flag (p key) (message key))) keys ≡ ok []
    → All (λ key. p key ≡ false) keys
unfolding each
flags-nil p message [] h = tt
flags-nil p message (key ∷ keys) h =
    let (a, rest) = then_find-nil _ _ h in
    (flag-nil _ _ (ok_injective a), flags-nil p message keys rest)

-- no element for which the test fails
pub none-fails {ℓ} :
    {A : Type ℓ} (p : A → Bool) (xs : List A)
    → any (λ x. not (p x)) xs ≡ false
    → All (λ x. p x ≡ true) xs
none-fails p [] h = tt
none-fails p (x ∷ xs) h = (ground arith, none-fails p xs (or-false-right (not (p x)) _ h))
