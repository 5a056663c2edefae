-- ===== src/Week4/Compose/Ports/Sets.antt =====
-- A set that is `{x}`.
use db_first_practice.Common.{
  ◌≡◌, ◌≢◌, Bool, true, false, ◌&&◌, List, [], ◌∷◌, arith, Text, text_eq, All, all,
}
use db_first_practice.Common.Int.{ℤ, int_eq, int_eq_iff}

-- `ports == {n}`
unfoldable pub is_only : ℤ → List ℤ → Bool
is_only n [] = false
is_only n (m ∷ ms) = int_eq m n && all (λ k. int_eq k n) ms

-- `ips == {s}`
unfoldable pub is_only_text : Text → List Text → Bool
is_only_text s [] = false
is_only_text s (t ∷ ts) = text_eq t s && all (λ u. text_eq u s) ts

all-are : (n : ℤ) (ms : List ℤ) → all (λ k. int_eq k n) ms ≡ true → All (λ k. k ≡ n) ms
all-are n [] h = tt
all-are n (m ∷ ms) h = ((int_eq_iff m n).0 (ground arith), all-are n ms (ground arith))

-- A list that `is_only n` accepts holds n, and nothing else.
pub is_only_sound : (n : ℤ) (ms : List ℤ) → is_only n ms ≡ true → (ms ≢ []) × All (λ k. k ≡ n) ms
unfolding is_only
is_only_sound n [] h = cc
is_only_sound n (m ∷ ms) h =
    (λ e. cc, ((int_eq_iff m n).0 (ground arith), all-are n ms (ground arith)))
