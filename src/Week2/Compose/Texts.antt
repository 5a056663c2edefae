-- ===== src/Week2/Compose/Texts.antt =====
-- The texts that the checker puts into commands: `_sql_literal` and `_normalize_image_id`.
use db_first_practice.Common.{
  ℕ, zero, suc, ◌≤◌, ◌↔◌, ◌≡◌, ◌≢◌, refl, sym, ap, ◌∙◌, Bool, true, false, ◌&&◌, some, [], ◌∷◌,
  ◌++◌, ◌==◌, leb, Text, txt, all, length, has_code, Bool-cases, inl, inr, some_injective,
  Option-cases, leb→le, ==_iff,
}
use db_first_practice.Common.Assoc.{and-left, and-right}
use db_first_practice.Builtins.{is_space}
use db_first_practice.Builtins.Find.{after_prefix}
use db_first_practice.Week2.Compose.{
  is_plain, is_hex_digit, sql_literal, exactly, normalize_image_id,
}

clash : true ≢ false
clash h = cc

plain-has_code :
    (s : Text) → all is_plain s ≡ true → (has_code 39 s ≡ false) × (has_code 92 s ≡ false)
plain-has_code [] h = (refl, refl)
plain-has_code (c ∷ s) h =
    let (a, b) = plain-has_code s (and-right _ _ h) in
    let plain = and-left (is_plain c) _ h in
    (rw (not_code c 39 plain refl) a, rw (not_code c 92 plain refl) b)
  where
    not_code : (c d : ℕ) → is_plain c ≡ true → is_plain d ≡ false → (c == d) ≡ false
    not_code c d h e = elim (Bool-cases (c == d)) [
      | inl same ↦ absurd (clash (sym h ∙ ap is_plain ((==_iff c d).0 same) ∙ e))
      | inr other ↦ other
    ]

-- A literal for SQL is the value between two quotes, and the value has 1 to 180 characters and neither
-- a quote nor a backslash: the literal ends where it is meant to.
pub sql_literal_sound :
    (value : Text) {literal : Text}
    → sql_literal value ≡ some literal
    → (literal ≡ 39 ∷ (value ++ 39 ∷ []))
      × (1 ≤ length value)
      × (length value ≤ 180)
      × (has_code 39 value ≡ false)
      × (has_code 92 value ≡ false)
unfolding sql_literal
sql_literal_sound value {literal} h =
    elim (Bool-cases ((leb 1 (length value) && leb (length value) 180) && all is_plain value)) [
      | inl fine ↦
          let (quote_free, slash_free) = plain-has_code value (and-right _ _ fine) in
          let bounds = and-left _ _ fine in
          (
            sym (some_injective (rw fine at h)),
            leb→le _ _ (and-left _ _ bounds),
            leb→le _ _ (and-right _ _ bounds),
            quote_free,
            slash_free,
          )
      | inr bad ↦ let e = rw bad at h in cc
    ]

-- what `exactly` reads
exactly_sound :
    (p : ℕ → Bool) (n : ℕ) (s : Text) {t r : Text}
    → exactly p n s ≡ some (t, r)
    → (s ≡ t ++ r) × (length t ≡ n) × (all p t ≡ true)
unfolding exactly
exactly_sound p zero s {t} {r} h =
    let e0 : [] ≡ t = ap (λ x. x.0) (some_injective h) in
    let e1 : s ≡ r = ap (λ x. x.1) (some_injective h) in
    (e1 ∙ ap (λ z. z ++ r) e0, ap length (sym e0), ap (all p) (sym e0))
exactly_sound p (suc n) [] h = cc
exactly_sound p (suc n) (c ∷ s) {t} {r} h = elim (Option-cases (exactly p n s)) [
  | inl e ↦ let bad = rw e at h in cc
  | inr ((u, q), e) ↦ elim (Bool-cases (p c)) [
    | inl fine ↦
        let (a, b, d) = exactly_sound p n s e in
        let same = some_injective (rw (e, fine) at h) in
        let e0 : c ∷ u ≡ t = ap (λ x. x.0) same in
        let e1 : q ≡ r = ap (λ x. x.1) same in
        (
          ap (λ z. c ∷ z) (a ∙ ap (λ z. u ++ z) e1) ∙ ap (λ z. z ++ r) e0,
          sym (ap length e0) ∙ ap suc b,
          sym (ap (all p) e0) ∙ rw fine d,
        )
    | inr other ↦ let bad = rw (e, other) at h in cc
  ]
]

exactly-append :
    (p : ℕ → Bool) (t r : Text) → all p t ≡ true → exactly p (length t) (t ++ r) ≡ some (t, r)
unfolding exactly
exactly-append p [] r h = refl
exactly-append p (c ∷ t) r h =
    let fine : p c ≡ true = and-left (p c) _ h in
    rw (exactly-append p t r (and-right (p c) _ h), fine) refl

after_prefix-append : (p s : Text) → after_prefix p (p ++ s) ≡ some s
unfolding after_prefix
after_prefix-append [] s = refl
after_prefix-append (c ∷ p) s = rw ((==_iff c c).1 refl) (after_prefix-append p s)

after_prefix_sound : (p v : Text) {s : Text} → after_prefix p v ≡ some s → v ≡ p ++ s
unfolding after_prefix
after_prefix_sound [] v h = some_injective h
after_prefix_sound (c ∷ p) [] h = cc
after_prefix_sound (c ∷ p) (d ∷ v) {s} h = elim (Bool-cases (c == d)) [
  | inl same ↦
      ap (λ z. d ∷ z) (after_prefix_sound p v (rw same at h))
      ∙ ap (λ z. z ∷ (p ++ s)) (sym ((==_iff c d).0 same))
  | inr other ↦ let bad = rw other at h in cc
]

-- `value` is the identifier `id`, `sha256:` and 64 hexadecimal digits, followed by space.
pub record IsImage (value id : Text) : Type 0 where
  pub digits : Text
  pub rest : Text
  pub read : value ≡ txt "sha256:" ++ (digits ++ rest)
  pub written : id ≡ txt "sha256:" ++ digits
  pub long : length digits ≡ 64
  pub hex : all is_hex_digit digits ≡ true
  pub blank : all is_space rest ≡ true

normalized-IsImage : (value id : Text) → normalize_image_id value ≡ some id → IsImage value id
unfolding normalize_image_id
normalized-IsImage value id h = elim (Option-cases (after_prefix (txt "sha256:") value)) [
  | inl e ↦ let bad = rw (normalize_image_id, e) at h in cc
  | inr (s, e) ↦ elim (Option-cases (exactly is_hex_digit 64 s)) [
    | inl f ↦ let bad = rw (normalize_image_id, e, f) at h in cc
    | inr ((digits, rest), f) ↦ elim (Bool-cases (all is_space rest)) [
      | inr other ↦ let bad = rw (normalize_image_id, e, f, other) at h in cc
      | inl blank ↦
          let (a, b, c) = exactly_sound is_hex_digit 64 s f in
          record {
            digits = digits;
            rest = rest;
            read = after_prefix_sound (txt "sha256:") value e ∙ ap (λ z. txt "sha256:" ++ z) a;
            written = sym (some_injective (rw (normalize_image_id, e, f, blank) at h));
            long = b;
            hex = c;
            blank = blank;
          }
    ]
  ]
]

IsImage-normalized : (value id : Text) → IsImage value id → normalize_image_id value ≡ some id
unfolding normalize_image_id
IsImage-normalized value id i =
    let found : exactly is_hex_digit 64 (i.digits ++ i.rest) ≡ some (i.digits, i.rest) =
      ap (λ n. exactly is_hex_digit n (i.digits ++ i.rest)) (sym i.long)
      ∙ exactly-append is_hex_digit i.digits i.rest i.hex in
    ap normalize_image_id i.read
    ∙ rw
        (
          normalize_image_id,
          after_prefix-append (txt "sha256:") (i.digits ++ i.rest),
          found,
          i.blank,
        )
        refl
    ∙ ap some (sym i.written)

-- A text is accepted as the identifier of an image exactly when it is `sha256:` and 64 hexadecimal
-- digits, with nothing but space behind them, and what is returned is the text without that space.
pub normalize_image_id_iff :
    (value id : Text) → (normalize_image_id value ≡ some id) ↔ IsImage value id
normalize_image_id_iff value id = (normalized-IsImage value id, IsImage-normalized value id)
