-- ===== src/Common/Strings.antt =====
-- Python text: a sequence of code points, lone surrogates included, so not the native `String`,
-- which cannot hold those. `txt` reads a literal; it stays shut, and a test unfolds it.
use Prim.Native.Char.{code}
use Prim.Native.Nat.{ℕ}
use Prim.Native.String.{String}
use mathlib.Core.Path.{◌≡◌, refl}
use mathlib.Core.Logic.{◌↔◌}
use mathlib.Core.Bool.{Bool, true, false, ◌&&◌, ◌||◌}
use mathlib.Core.List.{List, [], ◌∷◌}
use native.Mathlib.Omega.{arith}
use db_first_practice.Common.Tests.{◌==◌}

abbrev pub Text : Type 0
Text = List ℕ

codes : String → Text
codes String.[] = []
codes (String.◌∷◌ c s) = code c ∷ codes s

unfoldable pub txt : String → Text
unfolding codes
txt s = codes s

-- `a == b`
unfoldable pub text_eq : Text → Text → Bool
text_eq [] [] = true
text_eq [] (y ∷ ys) = false
text_eq (x ∷ xs) [] = false
text_eq (x ∷ xs) (y ∷ ys) = (x == y) && text_eq xs ys

pub text_eq_iff : (a b : Text) → (text_eq a b ≡ true) ↔ (a ≡ b)
unfolding text_eq
text_eq_iff [] [] = (λ h. refl, λ h. refl)
text_eq_iff [] (y ∷ ys) = (λ h. cc, λ h. cc)
text_eq_iff (x ∷ xs) [] = (λ h. cc, λ h. cc)
text_eq_iff (x ∷ xs) (y ∷ ys) =
    (λ h. ground (arith, text_eq_iff xs ys), λ h. ground (arith, text_eq_iff xs ys))

pub text_eq_refl : (a : Text) → text_eq a a ≡ true
text_eq_refl a = (text_eq_iff a a).1 refl

-- a character test, `"\r" in value`
abbrev pub has_code : ℕ → Text → Bool
has_code c [] = false
has_code c (x ∷ xs) = (x == c) || has_code c xs

-- `value in (a, b)`
abbrev pub mem_text : Text → List Text → Bool
mem_text a [] = false
mem_text a (b ∷ bs) = text_eq a b || mem_text a bs

-- `not value`
abbrev pub is_empty : Text → Bool
is_empty [] = true
is_empty (x ∷ xs) = false
