-- ===== src/Week4/Metrics/Sound.antt =====
-- What `parse_openmetrics` returns is what the document says.
use db_first_practice.Common.{◌≡◌, false, not, Text, All, has_code}
use db_first_practice.Common.Assoc.{lookup}
use db_first_practice.Common.Results.{ok, raise_if-ok}
use db_first_practice.Findings.{or-false-left, or-false-right}
use db_first_practice.Week4.Metrics.Labels.{values_at}
use db_first_practice.Week4.Metrics.{Series, no_series, is_ended, split_lines, parse_openmetrics}
use db_first_practice.Week4.Metrics.Values.{readings, read_lines-values}
use db_first_practice.Week4.Metrics.Types.{IsDeclared, read_lines-IsDeclared}

pub record IsRead (document : Text) (series : Series) : Type 0 where
  pub no_return : has_code 13 document ≡ false
  pub ended : not (is_ended document) ≡ false
  pub values : (name : Text) → values_at name series.samples ≡ readings name (split_lines document)
  pub declared : All (IsDeclared series) (split_lines document)

-- A document that is read has no carriage return and ends with its mark; each name has the values of its
-- sample lines, in their order, and no others; and every line that declares a type agrees with the type
-- that the metric is given.
pub parse_openmetrics-IsRead :
    (document : Text) {series : Series}
    → parse_openmetrics document ≡ ok series
    → IsRead document series
unfolding parse_openmetrics readings values_at split_lines lookup
parse_openmetrics-IsRead document h =
    let (fine, lines) = raise_if-ok _ _ _ h in
    record {
      no_return = or-false-left _ _ fine;
      ended = or-false-right _ _ fine;
      values = λ name. read_lines-values (split_lines document) no_series name lines;
      declared = read_lines-IsDeclared (split_lines document) no_series lines;
    }
