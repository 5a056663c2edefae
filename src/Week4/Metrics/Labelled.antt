-- ===== src/Week4/Metrics/Labelled.antt =====
-- The labels of every sample line are in the table of labels.
use db_first_practice.Common.{
  ◌≡◌, sym, ap, ◌∙◌, ◌||◌, Option, none, some, List, [], ◌∷◌, Text, txt, is_empty, Bool-cases, inl,
  inr, Option-cases, All, subst, some_injective,
}
use db_first_practice.Common.Results.{
  ok, or_raise, >>=-eq-ok, or_raise-ok, raise_if-ok, ok_injective,
}
use db_first_practice.Builtins.{strip}
use db_first_practice.Builtins.Find.{starts_with}
use db_first_practice.Week4.Metrics.Labels.{LabelValues, metric_labels}
use db_first_practice.Week4.Metrics.Lines.{Sample, read_sample, read_type}
use db_first_practice.Week4.Metrics.{
  wrong_labels, wrong_sample, Series, declare, take_sample, read_line, read_lines, merge_labels,
}
use db_first_practice.Week4.Metrics.Values.{skipped-none, comment-none, read_type-comment}
use db_first_practice.Week4.Metrics.Shown.{Shows, merge_labels-keeps, merge_labels-has}

-- What a sample's labels say is in the table.
abbrev pub IsLabelled : LabelValues → Text → Type 0
IsLabelled labels line =
    (x : Sample) (found : LabelValues) (n v : Text)
    → read_sample line ≡ some x
    → metric_labels x.labels ≡ some found
    → Shows n v found
    → Shows n v labels

some-none : {A B : Type 0} (o : Option A) {a : A} → o ≡ none → o ≡ some a → B
some-none none h k = cc
some-none (some b) h k = cc

declare-labels :
    (name kind : Text) (s : Series) {t : Series} → declare name kind s ≡ ok t → s.labels ≡ t.labels
unfolding declare
declare-labels name kind s h = ap (λ u. u.labels) (ok_injective (raise_if-ok _ _ _ h).1)

-- A sample's labels are merged with those before.
take_sample-merges :
    (line : Text) (s : Series) {t : Series}
    → take_sample line s ≡ ok t
    → (x : Sample) × (found : LabelValues) × (read_sample line ≡ some x)
      × (metric_labels x.labels ≡ some found)
      × (merge_labels found s.labels ≡ t.labels)
unfolding take_sample
take_sample-merges line s h =
    let (x, read, h1) = >>=-eq-ok (or_raise (read_sample line) wrong_sample) _ h in
    let (found, split, h2) = >>=-eq-ok (or_raise (metric_labels x.labels) wrong_labels) _ h1 in
    (x, found, or_raise-ok _ _ read, or_raise-ok _ _ split, ap (λ u. u.labels) (ok_injective h2))

read_line-labels :
    (line : Text) (s : Series) {t : Series}
    → read_line line s ≡ ok t
    → (IsLabelled t.labels line) × ((n v : Text) → Shows n v s.labels → Shows n v t.labels)
unfolding read_line
read_line-labels line s {t} h = elim (Option-cases (read_type line)) [
  | inr ((name, kind), e) ↦
      let same = declare-labels name kind s (rw (read_line, e) at h) in
      unsampled (comment-none line (read_type-comment line e)) same
  | inl e ↦ elim (Bool-cases (is_empty line || starts_with (txt "#") line)) [
    | inl skipped ↦
        unsampled (skipped-none line skipped)
          (ap (λ u. u.labels) (ok_injective (rw (read_line, e, skipped) at h)))
    | inr taken ↦
        let (x, found, read, split, merged) =
          take_sample-merges line s (rw (read_line, e, taken) at h) in
        (
          λ y other n v read_y split_y shown.
              let same : x ≡ y = some_injective (sym read ∙ read_y) in
              let equal : found ≡ other =
                some_injective (sym split ∙ ap (λ z. metric_labels z.labels) same ∙ split_y) in
              subst (Shows n v) merged
                (merge_labels-has n v found s.labels (subst (Shows n v) (sym equal) shown)),
          λ n v old. subst (Shows n v) merged (merge_labels-keeps n v found s.labels old),
        )
  ]
]
  where
    unsampled :
        read_sample line ≡ none
        → s.labels ≡ t.labels
        → (IsLabelled t.labels line) × ((n v : Text) → Shows n v s.labels → Shows n v t.labels)
    unsampled nothing same = (
      λ y other n v read_y split_y shown. some-none (read_sample line) nothing read_y,
      λ n v old. subst (Shows n v) same old,
    )

read_lines-keep-labels :
    (lines : List Text) (s : Series) {t : Series} (n v : Text)
    → read_lines lines s ≡ ok t
    → Shows n v s.labels
    → Shows n v t.labels
unfolding read_lines
read_lines-keep-labels [] s n v h old = subst (λ u. Shows n v u.labels) (ok_injective h) old
read_lines-keep-labels (line ∷ lines) s n v h old =
    let (u, first, later) = >>=-eq-ok (read_line (strip line) s) _ h in
    read_lines-keep-labels lines u n v later ((read_line-labels (strip line) s first).1 n v old)

pub read_lines-labels :
    (lines : List Text) (s : Series) {t : Series}
    → read_lines lines s ≡ ok t
    → All (λ line. IsLabelled t.labels (strip line)) lines
unfolding read_lines
read_lines-labels [] s h = tt
read_lines-labels (line ∷ lines) s h =
    let (u, first, later) = >>=-eq-ok (read_line (strip line) s) _ h in
    (
      λ x found n v read split shown.
          read_lines-keep-labels lines u n v later
            ((read_line-labels (strip line) s first).0 x found n v read split shown),
      read_lines-labels lines u later,
    )
