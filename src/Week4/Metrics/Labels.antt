-- ===== src/Week4/Metrics/Labels.antt =====
-- `_metric_labels` of week 4: the labels between the braces of an OpenMetrics sample, and what their
-- values may be.
use db_first_practice.Common.{
  ℕ, Bool, true, false, ◌&&◌, ◌||◌, Option, none, some, List, [], ◌∷◌, ◌++◌, ◌==◌, leb, ltb, length,
  if◌then◌else◌, Text, txt, text_eq, mem_text, any,
}
use db_first_practice.Common.Assoc.{lookup}
use db_first_practice.Builtins.{is_space}
use db_first_practice.Findings.{flag}

abbrev pub is_digit : ℕ → Bool
is_digit c = leb 48 c && leb c 57

-- `[A-Za-z_]`
abbrev pub is_name_start : ℕ → Bool
is_name_start c = ((leb 65 c && leb c 90) || (leb 97 c && leb c 122)) || c == b'_'

-- `[A-Za-z0-9_]`
abbrev pub is_name_part : ℕ → Bool
is_name_part c = is_name_start c || is_digit c

-- the values of each name; a set is the list of its elements in the order they are added
abbrev pub LabelValues : Type 0
LabelValues = List (Text × List Text)

unfoldable pub values_at {ℓ} : {A : Type ℓ} → Text → List (Text × List A) → List A
values_at name table = elim (lookup name table) [ none ↦ [] | some vs ↦ vs ]

unfoldable pub add_new : Text → List Text → List Text
add_new v vs = if mem_text v vs then vs else vs ++ v ∷ []

-- `labels.setdefault(name, set()).add(value)`
unfoldable pub add_label : Text → Text → LabelValues → LabelValues
add_label name v [] = (name, v ∷ []) ∷ []
add_label name v ((n, vs) ∷ labels) =
    let later = add_label name v labels in
    if text_eq n name then (n, add_new v vs) ∷ labels else (n, vs) ∷ later

-- how much of a label is read: nothing, spaces, its name, the spaces after it, its value, the character
-- after a backslash, or all of it
pub data Phase : Type 0 where
  start lead : Phase
  named after_name before_value : Text → Phase
  body escaped closed : Text → Text → Phase

abbrev begin_label : ℕ → Option Phase
begin_label c =
    if is_space c then some lead else if is_name_start c then some (named (c ∷ [])) else none

-- one more character; `none` where the pattern does not match
unfoldable pub label_move : Phase → ℕ → Option Phase
label_move start c = begin_label c
label_move lead c = begin_label c
label_move (named n) c =
    if is_name_part c
    then some (named (n ++ c ∷ []))
    else if is_space c
    then some (after_name n)
    else if c == b'='
    then some (before_value n)
    else none
label_move (after_name n) c =
    if is_space c then some (after_name n) else if c == b'=' then some (before_value n) else none
label_move (before_value n) c =
    if is_space c then some (before_value n) else if c == 34 then some (body n []) else none
label_move (body n v) c =
    if c == 34
    then some (closed n v)
    else if c == 92
    then some (escaped n v)
    else some (body n (v ++ c ∷ []))
label_move (escaped n v) c = if c == 10 then none else some (body n (v ++ 92 ∷ c ∷ []))
label_move (closed n v) c =
    if is_space c then some (closed n v) else if c == b',' then some start else none

-- a label is added at the comma that ends it
unfoldable pub added : Phase → ℕ → LabelValues → LabelValues
added (closed n v) c labels = if c == b',' then add_label n v labels else labels
added p c labels = labels

-- `none` is ValueError
unfoldable pub scan_labels : Phase → LabelValues → Text → Option LabelValues
scan_labels start labels [] = some labels
scan_labels (closed n v) labels [] = some (add_label n v labels)
scan_labels p labels [] = none
scan_labels p labels (c ∷ s) = elim (label_move p c) [
  | none ↦ none
  | some q ↦ scan_labels q (added p c labels) s
]

unfoldable pub metric_labels : Text → Option LabelValues
metric_labels s = scan_labels start [] s

abbrev is_hex : ℕ → Bool
is_hex c = (is_digit c || (leb 97 c && leb c 102)) || (leb 65 c && leb c 70)

abbrev is_dash : ℕ → Bool
is_dash c = c == b'-'

abbrev is_version : ℕ → Bool
is_version c = leb 49 c && leb c 53

abbrev is_variant : ℕ → Bool
is_variant c = (c == b'8' || c == b'9') || ((c == b'a' || c == b'b') || (c == b'A' || c == b'B'))

-- the text has as many characters as there are tests, and each passes its own
unfoldable pub fits : List (ℕ → Bool) → Text → Bool
fits [] [] = true
fits (p ∷ ps) (c ∷ s) = p c && fits ps s
fits [] (c ∷ s) = false
fits (p ∷ ps) [] = false

-- the pattern of a UUID
unfoldable pub uuid_pattern : List (ℕ → Bool)
uuid_pattern =
    let h = is_hex in
    let dash = is_dash in
    h ∷ h ∷ h ∷ h ∷ h ∷ h ∷ h ∷ h ∷ dash ∷ h ∷ h ∷ h ∷ h ∷ dash ∷ is_version ∷ h ∷ h ∷ h ∷ dash
    ∷ is_variant ∷ h ∷ h ∷ h ∷ dash ∷ h ∷ h ∷ h ∷ h ∷ h ∷ h ∷ h ∷ h ∷ h ∷ h ∷ h ∷ h ∷ []

-- a value that identifies one thing, or is too long
unfoldable pub is_unbounded : Text → Bool
is_unbounded v = ltb 64 (length v) || fits uuid_pattern v

unfoldable pub unbounded_metric_label_findings : LabelValues → List Text
unbounded_metric_label_findings [] = []
unbounded_metric_label_findings ((name, values) ∷ labels) =
    flag (ltb 20 (length values)) (name ++ txt ": more than 20 values in one scrape")
    ++ (flag (any is_unbounded values) (name ++ txt ": identifier-like or oversized value")
        ++ unbounded_metric_label_findings labels)
