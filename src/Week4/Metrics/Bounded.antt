-- ===== src/Week4/Metrics/Bounded.antt =====
-- Labels without findings.
use db_first_practice.Common.{
  ◌≡◌, ap, ◌∙◌, Bool, true, false, List, [], ◌∷◌, ◌++◌, Text, txt, text_eq, text_eq_iff, mem_text,
  any, ltb, length, Bool-cases, inl, inr, All, some,
}
use db_first_practice.Common.Assoc.{lookup}
use db_first_practice.Common.Results.{ok, raise_if-ok}
use db_first_practice.Builtins.{strip}
use db_first_practice.Findings.{flag, flag-nil, append-nil, All-map, or-false-left, or-false-right}
use db_first_practice.Week4.Metrics.Labels.{
  LabelValues, metric_labels, values_at, is_unbounded, unbounded_metric_label_findings,
}
use db_first_practice.Week4.Metrics.Lines.{Sample, read_sample}
use db_first_practice.Week4.Metrics.{Series, no_series, split_lines, parse_openmetrics}
use db_first_practice.Week4.Metrics.Values.{values_at-hit, values_at-skip}
use db_first_practice.Week4.Metrics.Shown.{Shows}
use db_first_practice.Week4.Metrics.Labelled.{read_lines-labels}

any-mem :
    (p : Text → Bool) (v : Text) (vs : List Text)
    → any p vs ≡ false
    → mem_text v vs ≡ true
    → p v ≡ false
any-mem p v [] h m = cc
any-mem p v (w ∷ ws) h m = elim (Bool-cases (text_eq v w)) [
  | inl same ↦ ap p ((text_eq_iff v w).0 same) ∙ or-false-left (p w) _ h
  | inr other ↦ any-mem p v ws (or-false-right (p w) _ h) (rw other at m)
]

findings-bounded :
    (labels : LabelValues) (n v : Text)
    → unbounded_metric_label_findings labels ≡ []
    → Shows n v labels
    → (is_unbounded v ≡ false) × (ltb 20 (length (values_at n labels)) ≡ false)
unfolding unbounded_metric_label_findings values_at lookup
findings-bounded [] n v h shown = cc
findings-bounded ((m, ws) ∷ labels) n v h shown =
    let crowd = flag (ltb 20 (length ws)) (m ++ txt ": more than 20 values in one scrape") in
    let odd = flag (any is_unbounded ws) (m ++ txt ": identifier-like or oversized value") in
    let (many, h1) = append-nil crowd _ h in
    let (large, later) = append-nil odd _ h1 in
    elim (Bool-cases (text_eq m n)) [
      | inl same ↦
          let here = values_at-hit n m ws labels same in
          (
            any-mem is_unbounded v ws (flag-nil _ _ large) (rw here at shown),
            rw here (flag-nil _ _ many),
          )
      | inr other ↦
          let there = values_at-skip n m ws labels other in
          rw there (findings-bounded labels n v later (rw there at shown))
    ]

-- The labels of a sample line are few and short, and identify nothing.
abbrev pub IsBounded : LabelValues → Text → Type 0
IsBounded labels line =
    (x : Sample) (found : LabelValues) (n v : Text)
    → read_sample line ≡ some x
    → metric_labels x.labels ≡ some found
    → Shows n v found
    → (is_unbounded v ≡ false) × (ltb 20 (length (values_at n labels)) ≡ false)

-- When a document is read and its labels give no findings, no label's value on any of its sample lines
-- is longer than 64 characters or a UUID, and the table has at most 20 values of that label.
pub parse_openmetrics-IsBounded :
    (document : Text) {series : Series}
    → parse_openmetrics document ≡ ok series
    → unbounded_metric_label_findings series.labels ≡ []
    → All (λ line. IsBounded series.labels (strip line)) (split_lines document)
unfolding parse_openmetrics split_lines
parse_openmetrics-IsBounded document {series} h quiet =
    let (fine, lines) = raise_if-ok _ _ _ h in
    All-map
      (λ line labelled x found n v read split shown.
        findings-bounded series.labels n v quiet (labelled x found n v read split shown))
      (split_lines document) (read_lines-labels (split_lines document) no_series lines)
