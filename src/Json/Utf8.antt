-- ===== src/Json/Utf8.antt =====
-- `str.encode("utf-8")` and `bytes.decode("utf-8")`. A lone surrogate has no encoding.
use db_first_practice.Common.{
  ℕ, zero, suc, ◌+◌, ◌-◌, ◌*◌, ◌/◌, ◌%◌, ◌≡◌, refl, Bool, true, false, ◌&&◌, ◌||◌, Option, none,
  some, List, [], ◌∷◌, ◌++◌, arith, ltb, leb, if◌then◌else◌, Text, all, is_some, Bool-cases, inl,
  inr, le→leb, ltb→lt, ap, ◌<◌, ◌≤◌, ◌∙◌,
}

abbrev pub Bytes : Type 0
Bytes = List ℕ

-- a Unicode scalar value: a code point that is no surrogate
abbrev pub is_scalar : ℕ → Bool
is_scalar c = ltb c 0xD800 || (leb 0xE000 c && leb c 0x10FFFF)

unfoldable pub encode_char : ℕ → Bytes
encode_char c =
    if ltb c 0x80
    then c ∷ []
    else if ltb c 0x800
    then (0xC0 + c / 64) ∷ (0x80 + c % 64) ∷ []
    else if ltb c 0x10000
    then (0xE0 + c / 4096) ∷ (0x80 + c / 64 % 64) ∷ (0x80 + c % 64) ∷ []
    else (0xF0 + c / 262144) ∷ (0x80 + c / 4096 % 64) ∷ (0x80 + c / 64 % 64) ∷ (0x80 + c % 64) ∷ []

-- `none` is UnicodeEncodeError
unfoldable pub encode : Text → Option Bytes
encode [] = some []
encode (c ∷ s) = elim (encode s) [
  | none ↦ none
  | some b ↦ if is_scalar c then some (encode_char c ++ b) else none
]

-- how many bytes follow a first byte, its payload, and the least code point of that length
leading : ℕ → Option (ℕ × ℕ × ℕ)
leading b =
    if leb 0xC2 b && ltb b 0xE0
    then some (1, b - 0xC0, 0x80)
    else if leb 0xE0 b && ltb b 0xF0
    then some (2, b - 0xE0, 0x800)
    else if leb 0xF0 b && ltb b 0xF5
    then some (3, b - 0xF0, 0x10000)
    else none

abbrev push : ℕ → Option Text → Option Text
push c none = none
push c (some s) = some (c ∷ s)

-- `need` continuation bytes are due, `acc` is the payload so far, `least` the shortest-form bound
decode_from : ℕ → ℕ → ℕ → Bytes → Option Text
unfolding leading
decode_from zero acc least [] = some []
decode_from (suc n) acc least [] = none
decode_from zero acc least (b ∷ r) =
    if ltb b 0x80
    then push b (decode_from 0 0 0 r)
    else elim (leading b) [ none ↦ none | some (n, p, l) ↦ decode_from n p l r ]
decode_from (suc zero) acc least (b ∷ r) =
    let c = acc * 64 + (b - 0x80) in
    if leb 0x80 b && ltb b 0xC0 && leb least c && is_scalar c
    then push c (decode_from 0 0 0 r)
    else none
decode_from (suc (suc n)) acc least (b ∷ r) =
    if leb 0x80 b && ltb b 0xC0 then decode_from (suc n) (acc * 64 + (b - 0x80)) least r else none

-- `none` is UnicodeDecodeError
unfoldable pub decode : Bytes → Option Text
unfolding decode_from
decode b = decode_from 0 0 0 b

last_byte :
    (acc least c : ℕ) (b : Bytes)
    → acc ≡ c / 64
    → least ≤ c
    → is_scalar c ≡ true
    → decode_from 1 acc least ((0x80 + c % 64) ∷ b) ≡ push c (decode_from 0 0 0 b)
unfolding decode_from
last_byte acc least c b e l h =
    let back : acc * 64 + (0x80 + c % 64 - 0x80) ≡ c = omega arith in
    let low : leb 0x80 (0x80 + c % 64) ≡ true = ground arith in
    let high : ltb (0x80 + c % 64) 0xC0 ≡ true = ground arith in
    rw (back, low, high, le→leb least c l, h)

middle_byte :
    (n acc least x : ℕ) (b : Bytes)
    → x < 64
    → decode_from (suc (suc n)) acc least ((0x80 + x) ∷ b)
      ≡ decode_from (suc n) (acc * 64 + x) least b
unfolding decode_from
middle_byte n acc least x b h =
    let back : 0x80 + x - 0x80 ≡ x = omega arith in
    let low : leb 0x80 (0x80 + x) ≡ true = ground arith in
    let high : ltb (0x80 + x) 0xC0 ≡ true = ground arith in rw (back, low, high)

first_byte :
    (x n p l : ℕ) (b : Bytes)
    → 0x80 ≤ x
    → leading x ≡ some (n, p, l)
    → decode_from 0 0 0 (x ∷ b) ≡ decode_from n p l b
unfolding decode_from
first_byte x n p l b h e = let high : ltb x 0x80 ≡ false = ground arith in rw (high, e)

leading_two : (c : ℕ) → 0x80 ≤ c → c < 0x800 → leading (0xC0 + c / 64) ≡ some (1, c / 64, 0x80)
unfolding leading
leading_two c l h = ground arith

leading_three :
    (c : ℕ) → 0x800 ≤ c → c < 0x10000 → leading (0xE0 + c / 4096) ≡ some (2, c / 4096, 0x800)
unfolding leading
leading_three c l h = ground arith

leading_four :
    (c : ℕ)
    → 0x10000 ≤ c
    → c ≤ 0x10FFFF
    → leading (0xF0 + c / 262144) ≡ some (3, c / 262144, 0x10000)
unfolding leading
leading_four c l h = ground arith

scalar_bound : (c : ℕ) → is_scalar c ≡ true → c ≤ 0x10FFFF
scalar_bound c h = ground arith

ge_of_not_ltb : (a b : ℕ) → ltb a b ≡ false → b ≤ a
ge_of_not_ltb a b h = ground arith

-- one encoded character is read back
decode-encode_char :
    (c : ℕ) (b : Bytes)
    → is_scalar c ≡ true
    → decode_from 0 0 0 (encode_char c ++ b) ≡ push c (decode_from 0 0 0 b)
unfolding encode_char
decode-encode_char c b h = elim (Bool-cases (ltb c 0x80)) [
  | inl one ↦ rw one (unfold decode_from in rw one)
  | inr more ↦ elim (Bool-cases (ltb c 0x800)) [
    | inl two ↦
        rw (more, two)
          (first_byte _ _ _ _ _ (omega arith)
              (leading_two c (ge_of_not_ltb _ _ more) (ltb→lt _ _ two))
            ∙ last_byte _ _ _ _ refl (ge_of_not_ltb _ _ more) h)
    | inr more' ↦ elim (Bool-cases (ltb c 0x10000)) [
      | inl three ↦
          rw (more, more', three)
            (first_byte _ _ _ _ _ (omega arith)
                (leading_three c (ge_of_not_ltb _ _ more') (ltb→lt _ _ three))
              ∙ middle_byte 0 _ _ _ _ (omega arith)
              ∙ last_byte _ _ _ _ (omega arith) (ge_of_not_ltb _ _ more') h)
      | inr four ↦
          rw (more, more', four)
            (first_byte _ _ _ _ _ (omega arith)
                (leading_four c (ge_of_not_ltb _ _ four) (scalar_bound c h))
              ∙ middle_byte 1 _ _ _ _ (omega arith)
              ∙ middle_byte 0 _ _ _ _ (omega arith)
              ∙ last_byte _ _ _ _ (omega arith) (ge_of_not_ltb _ _ four) h)
    ]
  ]
]

encode-cons :
    (c : ℕ) (s : Text) {b : Bytes}
    → encode (c ∷ s) ≡ some b
    → (r : Bytes) × (encode s ≡ some r) × (is_scalar c ≡ true) × (b ≡ encode_char c ++ r)
unfolding encode
encode-cons c s h = ground arith

-- What is encoded decodes to the text it came from.
pub decode-encode : (s : Text) {b : Bytes} → encode s ≡ some b → decode b ≡ some s
unfolding encode decode
decode-encode [] h = ground arith
decode-encode (c ∷ s) h =
    let (r, e, ok, split) = encode-cons c s h in
    rw split (decode-encode_char c r ok ∙ ap (push c) (decode-encode s e))

-- An encoding determines its text.
pub encode_injective : (s t : Text) {b : Bytes} → encode s ≡ some b → encode t ≡ some b → s ≡ t
encode_injective s t p q = cc (decode-encode s p, decode-encode t q)

-- Exactly the text without surrogates has an encoding.
pub is_some-encode : (s : Text) → is_some (encode s) ≡ all is_scalar s
unfolding encode
is_some-encode [] = refl
is_some-encode (c ∷ s) = ground (arith, is_some-encode s)
