-- ===== src/Week4/Metrics.antt =====
-- task/week4/autocheck/public_check.py: what the checker reads in an OpenMetrics document.
pub mod Labels
pub mod Lines
pub mod Values
pub mod Types
pub mod Shown
pub mod Labelled
pub mod Bounded
pub mod Sound
mod Tests
use db_first_practice.Common.{
  ℕ, ◌+◌, Bool, true, false, not, ◌&&◌, ◌||◌, Option, none, some, List, [], ◌∷◌, ◌++◌, ◌==◌, leb,
  if◌then◌else◌, Text, txt, text_eq, is_empty, has_code,
}
use db_first_practice.Common.Assoc.{lookup, insert}
use db_first_practice.Common.Results.{Result, ok, err, ◌>>=◌, ◌>>◌, raise_if, or_raise}
use db_first_practice.Builtins.{strip}
use db_first_practice.Builtins.Find.{starts_with, ends_with}
use db_first_practice.Week4.Metrics.Labels.{LabelValues, add_label, metric_labels}
use db_first_practice.Week4.Metrics.Lines.{Reading, Sample, read_sample, read_type}

-- the `ValueError`s of `parse_openmetrics`, by what they say
pub data MetricsError : Type 0 where
  no_end conflicting_types wrong_sample wrong_labels : MetricsError

pub record Series : Type 0 where
  pub samples : List (Text × List Reading)
  pub labels : LabelValues
  pub types : List (Text × Text)

-- where `splitlines` splits; a carriage return is refused before
abbrev is_break : ℕ → Bool
is_break c =
    ((leb 10 c && leb c 13) || (leb 28 c && leb c 30))
    || (c == 0x85 || (c == 0x2028 || c == 0x2029))

unfoldable pub join_line : ℕ → List Text → List Text
join_line c [] = (c ∷ []) ∷ []
join_line c (line ∷ lines) = (c ∷ line) ∷ lines

unfoldable pub split_lines : Text → List Text
split_lines [] = []
split_lines (c ∷ s) = let rest = split_lines s in if is_break c then [] ∷ rest else join_line c rest

-- `(?:^|\n)# EOF\n?\Z`
unfoldable pub is_ended : Text → Bool
is_ended s =
    ends_with (10 ∷ txt "# EOF") (10 ∷ s) || ends_with (10 ∷ (txt "# EOF" ++ 10 ∷ [])) (10 ∷ s)

-- `samples.setdefault(name, []).append(value)`
unfoldable pub add_sample : Text → Reading → List (Text × List Reading) → List (Text × List Reading)
add_sample name v [] = (name, v ∷ []) ∷ []
add_sample name v ((n, vs) ∷ samples) =
    let later = add_sample name v samples in
    if text_eq n name then (n, vs ++ v ∷ []) ∷ samples else (n, vs) ∷ later

-- `labels.setdefault(name, set()).update(values)`
unfoldable pub add_values : Text → List Text → LabelValues → LabelValues
add_values name [] labels = labels
add_values name (v ∷ vs) labels = add_values name vs (add_label name v labels)

unfoldable pub merge_labels : LabelValues → LabelValues → LabelValues
merge_labels [] labels = labels
merge_labels ((name, vs) ∷ more) labels = merge_labels more (add_values name vs labels)

-- a line that declares a metric's type
unfoldable pub declare : Text → Text → Series → Result MetricsError Series
declare name kind s = do
  raise_if (elim (lookup name s.types) [ none ↦ false | some old ↦ not (text_eq old kind) ])
      conflicting_types
  ok (record s { types = insert name kind s.types })

-- a line with a sample
unfoldable pub take_sample : Text → Series → Result MetricsError Series
take_sample line s = do
  sample ← or_raise (read_sample line) wrong_sample
  found ← or_raise (metric_labels sample.labels) wrong_labels
  ok (record s {
    samples = add_sample sample.name sample.value s.samples;
    labels = merge_labels found s.labels;
  })

unfoldable pub read_line : Text → Series → Result MetricsError Series
read_line line s = elim (read_type line) [
  | some (name, kind) ↦ declare name kind s
  | none ↦ if is_empty line || starts_with (txt "#") line then ok s else take_sample line s
]

unfoldable pub read_lines : List Text → Series → Result MetricsError Series
read_lines [] s = ok s
read_lines (line ∷ lines) s = do t ← read_line (strip line) s; read_lines lines t

abbrev pub no_series : Series
no_series = record { samples = []; labels = []; types = [] }

unfoldable pub parse_openmetrics : Text → Result MetricsError Series
parse_openmetrics s = do
  raise_if (has_code 13 s || not (is_ended s)) no_end
  read_lines (split_lines s) no_series
