-- ===== src/Week4/Metrics/Types.antt =====
-- A metric's type, once it is declared, stays.
use db_first_practice.Common.{
  ◌≡◌, refl, sym, ap, ◌∙◌, Bool, true, false, not, ◌||◌, none, some, List, [], ◌∷◌, Text, txt,
  text_eq, text_eq_iff, text_eq_refl, is_empty, Bool-cases, inl, inr, Option-cases, All,
}
use db_first_practice.Common.Assoc.{lookup, insert}
use db_first_practice.Common.Results.{ok, or_raise, >>=-eq-ok, raise_if-ok, ok_injective}
use db_first_practice.Builtins.{strip}
use db_first_practice.Findings.{not-false}
use db_first_practice.Builtins.Find.{starts_with}
use db_first_practice.Week4.Metrics.Labels.{metric_labels}
use db_first_practice.Week4.Metrics.Lines.{read_sample, read_type}
use db_first_practice.Week4.Metrics.{
  conflicting_types, wrong_labels, wrong_sample, Series, declare, take_sample, read_line,
  read_lines,
}

module _ {A : Type 0} where
  lookup-insert-same :
      (k : Text) (a : A) (table : List (Text × A)) → lookup k (insert k a table) ≡ some a
  unfolding lookup insert
  lookup-insert-same k a [] = rw (text_eq_refl k) refl
  lookup-insert-same k a ((j, b) ∷ rest) = elim (Bool-cases (text_eq j k)) [
    | inl same ↦ rw (insert, same, lookup, same) refl
    | inr other ↦ rw (insert, other, lookup, other) (lookup-insert-same k a rest)
  ]

  lookup-insert-other :
      (k j : Text) (a : A) (table : List (Text × A))
      → text_eq j k ≡ false
      → lookup k (insert j a table) ≡ lookup k table
  unfolding lookup insert
  lookup-insert-other k j a [] h = rw h refl
  lookup-insert-other k j a ((i, b) ∷ rest) h = elim (Bool-cases (text_eq i j)) [
    | inl same ↦
        let away : text_eq i k ≡ false = ap (λ t. text_eq t k) ((text_eq_iff i j).0 same) ∙ h in
        rw (insert, same, lookup, away) refl
    | inr other ↦ elim (Bool-cases (text_eq i k)) [
      | inl here ↦ rw (insert, other, lookup, here) refl
      | inr away ↦ rw (insert, other, lookup, away) (lookup-insert-other k j a rest h)
    ]
  ]

-- A declaration that is accepted is known afterwards.
declare-known :
    (name kind : Text) (s : Series) {t : Series}
    → declare name kind s ≡ ok t
    → lookup name t.types ≡ some kind
unfolding declare
declare-known name kind s h =
    ap (λ u. lookup name u.types) (sym (ok_injective (raise_if-ok _ _ _ h).1))
    ∙ lookup-insert-same name kind s.types

-- What is known stays.
declare-keeps :
    (name kind : Text) (s : Series) {t : Series} (n k : Text)
    → lookup n s.types ≡ some k
    → declare name kind s ≡ ok t
    → lookup n t.types ≡ some k
unfolding declare
declare-keeps name kind s n k known h =
    let conflict = elim (lookup name s.types) as (λ o. Bool) [
      | none ↦ false
      | some old ↦ not (text_eq old kind)
    ] in
    let (fine, same) = raise_if-ok conflict conflicting_types _ h in
    let here = ap (λ u. lookup n u.types) (sym (ok_injective same)) in
    elim (Bool-cases (text_eq name n)) [
      | inr other ↦ here ∙ lookup-insert-other n name kind s.types other ∙ known
      | inl same_name ↦
          let is_name : name ≡ n = (text_eq_iff name n).0 same_name in
          let old : lookup name s.types ≡ some k = ap (λ m. lookup m s.types) is_name ∙ known in
          let agree : text_eq k kind ≡ true = not-false _ (rw old at fine) in
          here
          ∙ ap (λ m. lookup m (insert name kind s.types)) (sym is_name)
          ∙ lookup-insert-same name kind s.types
          ∙ ap some (sym ((text_eq_iff k kind).0 agree))
    ]

take_sample-types :
    (line : Text) (s : Series) {t : Series} → take_sample line s ≡ ok t → s.types ≡ t.types
unfolding take_sample
take_sample-types line s h =
    let (x, found, h1) = >>=-eq-ok (or_raise (read_sample line) wrong_sample) _ h in
    let (labels, split, h2) = >>=-eq-ok (or_raise (metric_labels x.labels) wrong_labels) _ h1 in
    ap (λ u. u.types) (ok_injective h2)

read_line-keeps :
    (line : Text) (s : Series) {t : Series} (n k : Text)
    → lookup n s.types ≡ some k
    → read_line line s ≡ ok t
    → lookup n t.types ≡ some k
unfolding read_line
read_line-keeps line s n k known h = elim (Option-cases (read_type line)) [
  | inr ((name, kind), e) ↦ declare-keeps name kind s n k known (rw (read_line, e) at h)
  | inl e ↦ elim (Bool-cases (is_empty line || starts_with (txt "#") line)) [
    | inl skipped ↦
        ap (λ u. lookup n u.types) (sym (ok_injective (rw (read_line, e, skipped) at h))) ∙ known
    | inr taken ↦
        ap (lookup n) (sym (take_sample-types line s (rw (read_line, e, taken) at h))) ∙ known
  ]
]

read_lines-keeps :
    (lines : List Text) (s : Series) {t : Series} (n k : Text)
    → lookup n s.types ≡ some k
    → read_lines lines s ≡ ok t
    → lookup n t.types ≡ some k
unfolding read_lines
read_lines-keeps [] s n k known h = ap (λ u. lookup n u.types) (sym (ok_injective h)) ∙ known
read_lines-keeps (line ∷ lines) s n k known h =
    let (u, first, later) = >>=-eq-ok (read_line (strip line) s) _ h in
    read_lines-keeps lines u n k (read_line-keeps (strip line) s n k known first) later

-- What a line declares is in the table of types.
abbrev pub IsDeclared : Series → Text → Type 0
IsDeclared s line = (n k : Text) → read_type (strip line) ≡ some (n, k) → lookup n s.types ≡ some k

pub read_lines-IsDeclared :
    (lines : List Text) (s : Series) {t : Series}
    → read_lines lines s ≡ ok t
    → All (IsDeclared t) lines
unfolding read_lines read_line
read_lines-IsDeclared [] s h = tt
read_lines-IsDeclared (line ∷ lines) s h =
    let (u, first, later) = >>=-eq-ok (read_line (strip line) s) _ h in
    (
      λ n k e.
          read_lines-keeps lines u n k (declare-known n k s (rw (read_line, e) at first)) later,
      read_lines-IsDeclared lines u later,
    )
