-- ===== src/Json/Members.antt =====
-- The members of a printed object: a key, a text in quotes, and what follows. Each determines its
-- text and what follows it.
use db_first_practice.Common.{
  ℕ, ◌≡◌, refl, sym, ap, ap₂, ◌∙◌, Bool, true, ◌&&◌, Option, some, [], ◌∷◌, ◌++◌, arith, Text, all,
}
use mathlib.Core.List.{tail}
use db_first_practice.Json.Print.{quote, escape_char, hex_digit, escape}
use db_first_practice.Json.Scan.{plain, scan, scan-escape}
use db_first_practice.Json.Utf8.{is_scalar}

-- a text in quotes, and what follows it
abbrev pub quoted : Text → Text → Text
quoted s rest = quote ∷ (escape s ++ quote ∷ rest)

-- one member of the object: its key, its text, and what follows
unfoldable pub member : Text → Text → Text → Text
member key s rest = key ++ quoted s rest

append_cancel : (p : Text) {a b : Text} → p ++ a ≡ p ++ b → a ≡ b
append_cancel [] h = h
append_cancel (c ∷ p) h = append_cancel p (ap tail h)

quoted_injective : (s t x y : Text) → quoted s x ≡ quoted t y → (s ≡ t) × (x ≡ y)
quoted_injective s t x y h =
    let e : ◌≡◌ {A = Option (Text × Text)} (some (s, x)) (some (t, y)) =
      sym (scan-escape s x) ∙ ap (λ z. scan plain (tail z)) h ∙ scan-escape t y in
    (ground arith, ground arith)

pub member_injective : (key s t x y : Text) → member key s x ≡ member key t y → (s ≡ t) × (x ≡ y)
unfolding member
member_injective key s t x y h = quoted_injective s t x y (append_cancel key h)

all-append : (p : ℕ → Bool) (s t : Text) → all p (s ++ t) ≡ (all p s && all p t)
all-append p [] t = refl
all-append p (c ∷ s) t = ground (arith, all-append p s t)

is_scalar-escape_char : (c : ℕ) → all is_scalar (escape_char c) ≡ is_scalar c
unfolding escape_char hex_digit
is_scalar-escape_char c = ground arith

is_scalar-escape : (s : Text) → all is_scalar (escape s) ≡ all is_scalar s
unfolding escape
is_scalar-escape [] = refl
is_scalar-escape (c ∷ s) =
    all-append is_scalar (escape_char c) (escape s)
    ∙ ap₂ (λ a b. a && b) (is_scalar-escape_char c) (is_scalar-escape s)

is_scalar-quoted :
    (s rest : Text) → all is_scalar (quoted s rest) ≡ (all is_scalar s && all is_scalar rest)
is_scalar-quoted s rest =
    all-append is_scalar (escape s) (quote ∷ rest)
    ∙ ap (λ a. a && all is_scalar rest) (is_scalar-escape s)

pub is_scalar-member :
    (key s rest : Text)
    → all is_scalar key ≡ true
    → all is_scalar (member key s rest) ≡ (all is_scalar s && all is_scalar rest)
unfolding member
is_scalar-member key s rest h =
    all-append is_scalar key (quoted s rest) ∙ rw h (is_scalar-quoted s rest)
