-- ===== src/Builtins/Casefold.antt =====
-- `str.casefold`, for the characters that fold to letters of ASCII: the others cannot make a text that
-- the checkers look for.
use db_first_practice.Common.{
  ℕ, ◌+◌, ◌&&◌, List, [], ◌∷◌, ◌++◌, ◌==◌, leb, if◌then◌else◌, Text, txt,
}

-- the characters beyond ASCII, with what they fold to
abbrev foldings : List (ℕ × Text)
foldings =
    (0xDF, txt "ss")
    ∷ (0x130, b'i' ∷ 0x307 ∷ [])
    ∷ (0x149, 0x2BC ∷ b'n' ∷ [])
    ∷ (0x17F, txt "s")
    ∷ (0x1F0, b'j' ∷ 0x30C ∷ [])
    ∷ (0x1E96, b'h' ∷ 0x331 ∷ [])
    ∷ (0x1E97, b't' ∷ 0x308 ∷ [])
    ∷ (0x1E98, b'w' ∷ 0x30A ∷ [])
    ∷ (0x1E99, b'y' ∷ 0x30A ∷ [])
    ∷ (0x1E9A, b'a' ∷ 0x2BE ∷ [])
    ∷ (0x1E9E, txt "ss")
    ∷ (0x212A, txt "k")
    ∷ (0xFB00, txt "ff")
    ∷ (0xFB01, txt "fi")
    ∷ (0xFB02, txt "fl")
    ∷ (0xFB03, txt "ffi")
    ∷ (0xFB04, txt "ffl")
    ∷ (0xFB05, txt "st")
    ∷ (0xFB06, txt "st")
    ∷ []

unfoldable pub folded : ℕ → List (ℕ × Text) → Text
folded c [] = c ∷ []
folded c ((d, t) ∷ rest) = let later = folded c rest in if c == d then t else later

unfoldable pub casefold_code : ℕ → Text
casefold_code c =
    let beyond = folded c foldings in
    if leb 65 c && leb c 90 then (c + 32) ∷ [] else if leb c 127 then c ∷ [] else beyond

unfoldable pub casefold : Text → Text
unfolding casefold_code folded txt
casefold [] = []
casefold (c ∷ s) = casefold_code c ++ casefold s
