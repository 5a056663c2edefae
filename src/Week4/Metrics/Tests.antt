-- ===== src/Week4/Metrics/Tests.antt =====
-- An OpenMetrics document with labels, a timestamp, an exemplar and an infinite bound.
use db_first_practice.Common.{◌≡◌, refl, [], ◌∷◌, ◌++◌, Text, txt, text_eq, false, All}
use db_first_practice.Common.Int.{pos}
use db_first_practice.Common.Assoc.{lookup, insert}
use db_first_practice.Common.Results.{Result, ok, err}
use db_first_practice.Json.{float}
use db_first_practice.Json.Parse.{decimal}
use db_first_practice.Builtins.{strip, lstrip, rstrip}
use db_first_practice.Builtins.Find.{starts_with, after_prefix, split}
use db_first_practice.Findings.{flag}
use db_first_practice.Week4.Metrics.Labels.{
  values_at, add_new, add_label, label_move, added, scan_labels, metric_labels, fits, uuid_pattern,
  is_unbounded, unbounded_metric_label_findings,
}
use db_first_practice.Week4.Metrics.Lines.{
  infinite, finite, span, take_digits, take_sign, read_power, take_fraction, read_decimal,
  read_number, is_time, after_labels, after_spaces, is_exemplar, is_tail, take_labels, read_sample,
  is_metric_name, read_type,
}
use db_first_practice.Week4.Metrics.{
  Series, MetricsError, no_series, join_line, split_lines, is_ended, add_sample, add_values,
  merge_labels, declare, take_sample, read_line, read_lines, parse_openmetrics,
}
use db_first_practice.Week4.Metrics.Bounded.{IsBounded, parse_openmetrics-IsBounded}
use db_first_practice.Week4.Metrics.Sound.{IsRead, parse_openmetrics-IsRead}

abbrev document : Text
document =
    txt "# TYPE http_requests counter"
    ++ (10
        ∷ txt
            "http_requests_total{route=\"/a,b\", code=\"200\"} 12 1700000000 # {trace=\"x}\"} 1.5")
    ++ (10 ∷ txt "http_requests_total{route=\"/c\"} +Inf")
    ++ (10 ∷ txt "up -.5e3")
    ++ (10 ∷ txt "# EOF")

abbrev series_of : Result MetricsError Series → Series
series_of (ok s) = s
series_of (err e) = no_series

abbrev series : Series
series = series_of (parse_openmetrics document)

document_read : parse_openmetrics document ≡ ok series
unfolding txt text_eq lookup insert strip starts_with after_prefix split lstrip rstrip decimal span
    take_digits take_sign read_power take_fraction read_decimal read_number is_time after_labels
    after_spaces is_exemplar is_tail take_labels read_sample is_metric_name read_type add_new
    add_label label_move added scan_labels metric_labels join_line split_lines is_ended add_sample
    add_values merge_labels declare take_sample read_line read_lines parse_openmetrics
document_read = refl

parse_openmetrics-IsRead_example : IsRead document series
parse_openmetrics-IsRead_example = parse_openmetrics-IsRead document document_read

series_quiet : unbounded_metric_label_findings series.labels ≡ []
unfolding txt text_eq lookup insert strip starts_with after_prefix split lstrip rstrip decimal span
    take_digits take_sign read_power take_fraction read_decimal read_number is_time after_labels
    after_spaces is_exemplar is_tail take_labels read_sample is_metric_name read_type add_new
    add_label label_move added scan_labels metric_labels join_line split_lines is_ended add_sample
    add_values merge_labels declare take_sample read_line read_lines parse_openmetrics flag fits
    uuid_pattern is_unbounded unbounded_metric_label_findings
series_quiet = refl

parse_openmetrics-IsBounded_example :
    All (λ line. IsBounded series.labels (strip line)) (split_lines document)
parse_openmetrics-IsBounded_example =
    parse_openmetrics-IsBounded document document_read series_quiet

-- The second sample of the name is infinite.
requests :
    values_at (txt "http_requests_total") series.samples
    ≡ finite (float (pos 12) 0) ∷ infinite false ∷ []
unfolding txt text_eq lookup insert strip starts_with after_prefix split lstrip rstrip decimal span
    take_digits take_sign read_power take_fraction read_decimal read_number is_time after_labels
    after_spaces is_exemplar is_tail take_labels read_sample is_metric_name read_type add_new
    add_label label_move added scan_labels metric_labels join_line split_lines is_ended add_sample
    add_values merge_labels declare take_sample read_line read_lines parse_openmetrics values_at
requests = refl

-- A name of a user is fine, the identifier of a user is not.
identifier_found :
    unbounded_metric_label_findings
      ((txt "user", txt "ann" ∷ txt "1b4e28ba-2fa1-41d2-883f-0016d3cca427" ∷ []) ∷ [])
    ≡ txt "user: identifier-like or oversized value" ∷ []
unfolding txt flag fits uuid_pattern is_unbounded unbounded_metric_label_findings
identifier_found = refl
