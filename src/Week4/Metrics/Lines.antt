-- ===== src/Week4/Metrics/Lines.antt =====
-- The lines of an OpenMetrics document: samples (`_METRIC_SAMPLE` of week 4) and declarations of a type.
use db_first_practice.Common.{
  ℕ, ◌+◌, ◌-◌, ◌*◌, Bool, true, false, not, ◌&&◌, ◌||◌, Option, none, some, List, [], ◌∷◌, ◌==◌,
  ltb, if◌then◌else◌, Text, txt, text_eq, mem_text, is_empty, all,
}
use db_first_practice.Json.{Value}
use db_first_practice.Json.Parse.{decimal}
use db_first_practice.Builtins.{is_space, lstrip}
use db_first_practice.Builtins.Find.{after_prefix, split}
use db_first_practice.Week4.Metrics.Labels.{is_digit, is_name_start, is_name_part}

-- `float(text)`: not a number, infinite with its sign, or the decimal that is written
pub data Reading : Type 0 where
  nan : Reading
  infinite : Bool → Reading
  finite : Value → Reading

-- the longest start whose characters pass the test, and the rest
unfoldable pub span : (ℕ → Bool) → Text → Text × Text
span p [] = ([], [])
span p (c ∷ s) = let (a, b) = span p s in if p c then (c ∷ a, b) else ([], c ∷ s)

-- the digits at the start: their number, the value with them, and the rest
unfoldable pub take_digits : ℕ → ℕ → Text → ℕ × ℕ × Text
take_digits k n [] = (k, n, [])
take_digits k n (c ∷ s) =
    let more = take_digits (k + 1) (n * 10 + (c - 48)) s in
    if is_digit c then more else (k, n, c ∷ s)

-- whether a minus stands at the start, and what follows a sign
unfoldable pub take_sign : Text → Bool × Text
take_sign [] = (false, [])
take_sign (c ∷ s) = if c == b'-' then (true, s) else (false, if c == b'+' then s else c ∷ s)

-- `(?:[eE][-+]?[0-9]+)?` up to the end
unfoldable pub read_power : Text → Option (Bool × ℕ)
read_power [] = some (false, 0)
read_power (c ∷ s) =
    let (lowered, t) = take_sign s in
    let (k, n, rest) = take_digits 0 0 t in
    if (c == b'e' || c == b'E') && (ltb 0 k && is_empty rest) then some (lowered, n) else none

-- `\.[0-9]*`, if there is a point: the places, and the value with them
unfoldable pub take_fraction : ℕ → Text → ℕ × ℕ × Text
take_fraction n [] = (0, n, [])
take_fraction n (c ∷ s) = let more = take_digits 0 n s in if c == b'.' then more else (0, n, c ∷ s)

-- `[-+]?(?:[0-9]+(?:\.[0-9]*)?|\.[0-9]+)(?:[eE][-+]?[0-9]+)?`
unfoldable pub read_decimal : Text → Option Value
read_decimal s =
    let (negative, t) = take_sign s in
    let (k, n, u) = take_digits 0 0 t in
    let (places, digits, v) = take_fraction n u in
    elim (read_power v) [
      | none ↦ none
      | some (lowered, power) ↦
          if ltb 0 (k + places) then some (decimal negative digits places lowered power) else none
    ]

-- `NaN|[+-]?Inf`, or a decimal
unfoldable pub read_number : Text → Option Reading
read_number s =
    let (negative, t) = take_sign s in
    let written : Option Reading = elim (read_decimal s) [
      | none ↦ none
      | some v ↦ some (finite v)
    ] in
    if text_eq s (txt "NaN")
    then some nan
    else if text_eq t (txt "Inf")
    then some (infinite negative)
    else written

abbrev pub is_other : ℕ → Bool
is_other c = not (is_space c)

-- nothing, or spaces and digits: `(?:\s+[0-9]+)?`
unfoldable pub is_time : Text → Bool
is_time [] = true
is_time (c ∷ s) = is_space c && (not (is_empty (lstrip s)) && all is_digit (lstrip s))

-- where an exemplar is read: between its braces, after a backslash, in a text, after a backslash there
pub data Place : Type 0 where
  unquoted skipped quoted quoted_skipped : Place

-- what follows the brace that closes an exemplar's labels
unfoldable pub after_labels : Place → Text → Option Text
after_labels p [] = none
after_labels unquoted (c ∷ s) =
    let inner = after_labels quoted s in
    let skip = after_labels skipped s in
    let more = after_labels unquoted s in
    if c == b'}' then some s else if c == 34 then inner else if c == 92 then skip else more
after_labels skipped (c ∷ s) = let more = after_labels unquoted s in if c == 10 then none else more
after_labels quoted (c ∷ s) =
    let more = after_labels unquoted s in
    let skip = after_labels quoted_skipped s in
    let inner = after_labels quoted s in if c == 34 then more else if c == 92 then skip else inner
after_labels quoted_skipped (c ∷ s) =
    let inner = after_labels quoted s in if c == 10 then none else inner

-- what follows one space or more
unfoldable pub after_spaces : Text → Option Text
after_spaces [] = none
after_spaces (c ∷ s) = if is_space c then some (lstrip s) else none

-- `\s+#\s+\{...\}\s+number(?:\s+[0-9]+)?`, after the first spaces
unfoldable pub is_exemplar : Text → Bool
is_exemplar s = elim (after_prefix (txt "#") s) [
  | none ↦ false
  | some t ↦ elim (after_spaces t) [
    | none ↦ false
    | some u ↦ elim (after_prefix (txt "{") u) [
      | none ↦ false
      | some v ↦ elim (after_labels unquoted v) [
        | none ↦ false
        | some w ↦ elim (after_spaces w) [
          | none ↦ false
          | some number ↦
              elim (read_decimal (span is_other number).0) [ none ↦ false | some d ↦ true ]
              && is_time (span is_other number).1
        ]
      ]
    ]
  ]
]

-- what may follow the value: a time, an exemplar, or both
unfoldable pub is_tail : Text → Bool
is_tail s = is_time s || elim (after_spaces s) [
  | none ↦ false
  | some t ↦
      is_exemplar t
      || (all is_digit (span is_other t).0 && not (is_empty (span is_other t).0))
        && elim (after_spaces (span is_other t).1) [ none ↦ false | some u ↦ is_exemplar u ]
]

-- `(?:\{([^}]*)\})?`: the labels between the braces, if there are any, and the rest
unfoldable pub take_labels : Text → Option (Text × Text)
take_labels [] = some ([], [])
take_labels (c ∷ s) = if c == b'{' then split b'}' s else some ([], c ∷ s)

pub record Sample : Type 0 where
  pub name : Text
  pub labels : Text
  pub value : Reading

-- `none` where the line is no sample
unfoldable pub read_sample : Text → Option Sample
read_sample [] = none
read_sample (c ∷ s) =
    let (part, rest) = span (λ d. is_name_part d || d == b':') s in
    if is_name_start c || c == b':'
    then elim (take_labels rest) [
      | none ↦ none
      | some (labels, t) ↦ elim (after_spaces t) [
        | none ↦ none
        | some u ↦ elim (read_number (span is_other u).0) [
          | none ↦ none
          | some value ↦
              if is_tail (span is_other u).1
              then some (record { name = c ∷ part; labels = labels; value = value })
              else none
        ]
      ]
    ]
    else none

abbrev pub metric_kinds : List Text
metric_kinds =
    txt "counter"
    ∷ txt "gauge"
    ∷ txt "histogram"
    ∷ txt "gaugehistogram"
    ∷ txt "summary"
    ∷ txt "info"
    ∷ txt "stateset"
    ∷ txt "unknown"
    ∷ []

unfoldable pub is_metric_name : Text → Bool
is_metric_name [] = false
is_metric_name (c ∷ s) = (is_name_start c || c == b':') && all (λ d. is_name_part d || d == b':') s

-- `#\s+TYPE\s+(name)\s+(kind)`: the name and the kind
unfoldable pub read_type : Text → Option (Text × Text)
read_type s = elim (after_prefix (txt "#") s) [
  | none ↦ none
  | some t ↦ elim (after_spaces t) [
    | none ↦ none
    | some u ↦ elim (after_prefix (txt "TYPE") u) [
      | none ↦ none
      | some v ↦ elim (after_spaces v) [
        | none ↦ none
        | some w ↦ elim (after_spaces (span is_other w).1) [
          | none ↦ none
          | some kind ↦
              if is_metric_name (span is_other w).0 && mem_text kind metric_kinds
              then some ((span is_other w).0, kind)
              else none
        ]
      ]
    ]
  ]
]
