-- ===== src/Week4/Metrics/Values.antt =====
-- The values that `parse_openmetrics` gives to a name are those of the document's lines.
use db_first_practice.Common.{
  ◌≡◌, refl, sym, ap, ◌∙◌, true, false, ◌||◌, Option, none, some, List, [], ◌∷◌, ◌++◌, ◌==◌,
  if◌then◌else◌, Text, txt, text_eq, text_eq_iff, text_eq_refl, is_empty, Bool-cases, inl, inr,
  Option-cases, subst, ==_iff,
}
use db_first_practice.Common.Assoc.{lookup, and-left}
use db_first_practice.Common.Results.{
  ok, or_raise, >>=-eq-ok, or_raise-ok, raise_if-ok, ok_injective,
}
use db_first_practice.Builtins.{strip}
use db_first_practice.Builtins.Find.{starts_with, after_prefix}
use db_first_practice.Week4.Metrics.Labels.{metric_labels, values_at}
use db_first_practice.Week4.Metrics.Lines.{Reading, Sample, read_sample, read_type}
use db_first_practice.Week4.Metrics.{
  wrong_labels, Series, add_sample, declare, take_sample, read_line, read_lines,
}

pub values_at-hit :
    {A : Type 0} (n k : Text) (vs : List A) (table : List (Text × List A))
    → text_eq k n ≡ true
    → values_at n ((k, vs) ∷ table) ≡ vs
unfolding values_at lookup
values_at-hit n k vs table e = rw (values_at, lookup, e) refl

pub values_at-skip :
    {A : Type 0} (n k : Text) (vs : List A) (table : List (Text × List A))
    → text_eq k n ≡ false
    → values_at n ((k, vs) ∷ table) ≡ values_at n table
unfolding values_at lookup
values_at-skip n k vs table e = rw (values_at, lookup, e) refl

-- A value is added after those that its name has.
values_at-add_sample :
    (n : Text) (v : Reading) (table : List (Text × List Reading))
    → values_at n (add_sample n v table) ≡ values_at n table ++ v ∷ []
unfolding add_sample values_at lookup
values_at-add_sample n v [] = values_at-hit n n (v ∷ []) [] (text_eq_refl n)
values_at-add_sample n v ((k, vs) ∷ table) = elim (Bool-cases (text_eq k n)) [
  | inl same ↦
      rw
        (
          add_sample,
          same,
          values_at-hit n k (vs ++ v ∷ []) table same,
          values_at-hit n k vs table same,
        )
        refl
  | inr other ↦
      rw
        (
          add_sample,
          other,
          values_at-skip n k vs (add_sample n v table) other,
          values_at-skip n k vs table other,
        )
        (values_at-add_sample n v table)
]

-- The values of other names stay.
values_at-add_other :
    (n m : Text) (v : Reading) (table : List (Text × List Reading))
    → text_eq m n ≡ false
    → values_at n (add_sample m v table) ≡ values_at n table
unfolding add_sample
values_at-add_other n m v [] h = values_at-skip n m (v ∷ []) [] h
values_at-add_other n m v ((k, vs) ∷ table) h = elim (Bool-cases (text_eq k m)) [
  | inl same ↦
      let away : text_eq k n ≡ false = ap (λ j. text_eq j n) ((text_eq_iff k m).0 same) ∙ h in
      rw
        (
          add_sample,
          same,
          values_at-skip n k (vs ++ v ∷ []) table away,
          values_at-skip n k vs table away,
        )
        refl
  | inr other ↦ elim (Bool-cases (text_eq k n)) [
    | inl here ↦
        rw
          (
            add_sample,
            other,
            values_at-hit n k vs (add_sample m v table) here,
            values_at-hit n k vs table here,
          )
          refl
    | inr away ↦
        rw
          (
            add_sample,
            other,
            values_at-skip n k vs (add_sample m v table) away,
            values_at-skip n k vs table away,
          )
          (values_at-add_other n m v table h)
  ]
]

-- A line that begins with a hash is no sample.
pub comment-none : (line : Text) → starts_with (txt "#") line ≡ true → read_sample line ≡ none
unfolding starts_with txt read_sample
comment-none [] h = cc
comment-none (c ∷ s) h =
    subst (λ d. read_sample (d ∷ s) ≡ none) ((==_iff 35 c).0 (and-left (35 == c) _ h)) refl

pub skipped-none :
    (line : Text) → (is_empty line || starts_with (txt "#") line) ≡ true → read_sample line ≡ none
unfolding read_sample
skipped-none [] h = refl
skipped-none (c ∷ s) h = comment-none (c ∷ s) h

-- A line that declares a type begins with a hash.
pub read_type-comment :
    (line : Text) {p : Text × Text} → read_type line ≡ some p → starts_with (txt "#") line ≡ true
unfolding starts_with txt read_type after_prefix
read_type-comment [] h = cc
read_type-comment (c ∷ s) h = elim (Bool-cases (35 == c)) [
  | inl same ↦ rw same refl
  | inr other ↦ let bad = rw (read_type, after_prefix, other) at h in cc
]

-- The value that a line gives to a name, if it does.
unfoldable pub reading : Text → Option Sample → List Reading
reading name none = []
reading name (some x) = if text_eq x.name name then x.value ∷ [] else []

-- The values that lines give to a name, in their order.
unfoldable pub readings : Text → List Text → List Reading
readings name [] = []
readings name (line ∷ lines) = reading name (read_sample (strip line)) ++ readings name lines

declare-samples :
    (name kind : Text) (s : Series) {t : Series}
    → declare name kind s ≡ ok t
    → s.samples ≡ t.samples
unfolding declare
declare-samples name kind s h = ap (λ u. u.samples) (ok_injective (raise_if-ok _ _ _ h).1)

append-empty : {A : Type 0} (xs : List A) → xs ≡ xs ++ []
append-empty [] = refl
append-empty (x ∷ xs) = ap (◌∷◌ x) (append-empty xs)

added-reading :
    (n : Text) (x : Sample) (table : List (Text × List Reading))
    → values_at n (add_sample x.name x.value table) ≡ values_at n table ++ reading n (some x)
unfolding reading
added-reading n x table = elim (Bool-cases (text_eq x.name n)) [
  | inl same ↦
      rw (reading, same, (text_eq_iff x.name n).0 same) (values_at-add_sample n x.value table)
  | inr other ↦
      rw (reading, other)
        (values_at-add_other n x.name x.value table other ∙ append-empty (values_at n table))
]

take_sample-values :
    (line : Text) (s : Series) {t : Series} (n : Text)
    → take_sample line s ≡ ok t
    → values_at n t.samples ≡ values_at n s.samples ++ reading n (read_sample line)
unfolding take_sample
take_sample-values line s {t} n h =
    let (x, found, h1) = >>=-eq-ok _ _ h in
    let (labels, split, h2) = >>=-eq-ok (or_raise (metric_labels x.labels) wrong_labels) _ h1 in
    ap (λ u. values_at n u.samples) (sym (ok_injective h2))
    ∙ added-reading n x s.samples
    ∙ ap (λ o. values_at n s.samples ++ reading n o) (sym (or_raise-ok _ _ found))

skipped-values :
    (line : Text) (s t : Series) (n : Text)
    → read_sample line ≡ none
    → s.samples ≡ t.samples
    → values_at n t.samples ≡ values_at n s.samples ++ reading n (read_sample line)
unfolding reading
skipped-values line s t n e same = rw (e, sym same) (append-empty (values_at n s.samples))

-- A line adds the value that it gives, to the name that it gives it to.
read_line-values :
    (line : Text) (s : Series) {t : Series} (n : Text)
    → read_line line s ≡ ok t
    → values_at n t.samples ≡ values_at n s.samples ++ reading n (read_sample line)
unfolding read_line
read_line-values line s {t} n h = elim (Option-cases (read_type line)) [
  | inr ((name, kind), e) ↦
      skipped-values line s t n (comment-none line (read_type-comment line e))
        (declare-samples name kind s (rw (read_line, e) at h))
  | inl e ↦ elim (Bool-cases (is_empty line || starts_with (txt "#") line)) [
    | inl skipped ↦
        skipped-values line s t n (skipped-none line skipped)
          (ap (λ u. u.samples) (ok_injective (rw (read_line, e, skipped) at h)))
    | inr taken ↦ take_sample-values line s n (rw (read_line, e, taken) at h)
  ]
]

append_assoc : {A : Type 0} (xs ys zs : List A) → (xs ++ ys) ++ zs ≡ xs ++ (ys ++ zs)
append_assoc [] ys zs = refl
append_assoc (x ∷ xs) ys zs = ap (◌∷◌ x) (append_assoc xs ys zs)

pub read_lines-values :
    (lines : List Text) (s : Series) {t : Series} (n : Text)
    → read_lines lines s ≡ ok t
    → values_at n t.samples ≡ values_at n s.samples ++ readings n lines
unfolding read_lines readings
read_lines-values [] s n h =
    ap (λ u. values_at n u.samples) (sym (ok_injective h)) ∙ append-empty (values_at n s.samples)
read_lines-values (line ∷ lines) s n h =
    let (u, first, later) = >>=-eq-ok (read_line (strip line) s) _ h in
    read_lines-values lines u n later
    ∙ ap (λ vs. vs ++ readings n lines) (read_line-values (strip line) s n first)
    ∙ append_assoc (values_at n s.samples) (reading n (read_sample (strip line))) (readings n lines)
