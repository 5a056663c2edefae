-- ===== src/Builtins/Find.antt =====
-- Python's tests and cuts of text: `startswith`, `in`, `replace`, `partition`, `rsplit`, and letters without case.
use db_first_practice.Common.{
  ℕ, zero, suc, ◌+◌, ◌-◌, Bool, true, false, ◌&&◌, ◌||◌, Option, none, some, List, [], ◌∷◌, ◌++◌,
  map, ◌==◌, leb, if◌then◌else◌, Text, text_eq, is_empty, length,
}

-- a letter as `re.IGNORECASE` compares it: A to Z, and the four characters beyond ASCII that match a letter
unfoldable pub fold_code : ℕ → ℕ
fold_code c =
    if leb 65 c && leb c 90
    then c + 32
    else if (c == 0x130) || (c == 0x131)
    then 105
    else if c == 0x17F
    then 115
    else if c == 0x212A
    then 107
    else c

unfoldable pub fold : Text → Text
fold s = map fold_code s

-- `text.startswith(prefix)`
unfoldable pub starts_with : Text → Text → Bool
starts_with [] s = true
starts_with (p ∷ ps) [] = false
starts_with (p ∷ ps) (c ∷ s) = (p == c) && starts_with ps s

-- `word in text`
unfoldable pub contains : Text → Text → Bool
unfolding starts_with
contains word [] = is_empty word
contains word (c ∷ s) = starts_with word (c ∷ s) || contains word s

-- `text.replace(old, new)` for a text `old` that is not empty; `skip` characters of the last match are left
unfoldable pub replace_from : ℕ → Text → Text → Text → Text
replace_from skip old new [] = []
replace_from (suc k) old new (c ∷ s) = replace_from k old new s
replace_from zero old new (c ∷ s) =
    let matched = replace_from (length old - 1) old new s in
    let kept = replace_from zero old new s in
    if starts_with old (c ∷ s) then new ++ matched else c ∷ kept

-- `text.rsplit(sep, 1)`: what is before and after the last separator, if there is one
unfoldable pub rsplit : ℕ → Text → Option (Text × Text)
rsplit sep [] = none
rsplit sep (c ∷ s) = elim (rsplit sep s) [
  | some (a, b) ↦ some (c ∷ a, b)
  | none ↦ (if c == sep then some ([], s) else none)
]

-- `text.split(sep, 1)`, if there is a separator
unfoldable pub split : ℕ → Text → Option (Text × Text)
split sep [] = none
split sep (c ∷ s) =
    let rest = split sep s in
    if c == sep then some ([], s) else elim rest [ some (a, b) ↦ some (c ∷ a, b) | none ↦ none ]

-- the part after the last separator, or all of the text
unfoldable pub after_last : ℕ → Text → Text
unfolding rsplit
after_last sep s = elim (rsplit sep s) [ some (a, b) ↦ b | none ↦ s ]

-- the part before the last separator, or all of the text
unfoldable pub before_last : ℕ → Text → Text
unfolding rsplit
before_last sep s = elim (rsplit sep s) [ some (a, b) ↦ a | none ↦ s ]

-- what follows a prefix
unfoldable pub after_prefix : Text → Text → Option Text
after_prefix [] s = some s
after_prefix (p ∷ ps) [] = none
after_prefix (p ∷ ps) (c ∷ s) = let rest = after_prefix ps s in if p == c then rest else none

-- `text.split(sep)`
unfoldable pub split_all : ℕ → Text → List Text
split_all sep [] = [] ∷ []
split_all sep (c ∷ s) =
    let rest = split_all sep s in
    if c == sep
    then [] ∷ rest
    else elim rest [ [] ↦ (c ∷ []) ∷ [] | part ∷ later ↦ (c ∷ part) ∷ later ]

-- `text.endswith(suffix)`, and SQL's `LIKE '%suffix'`
abbrev pub ends_with : Text → Text → Bool
ends_with suffix [] = text_eq [] suffix
ends_with suffix (c ∷ s) = text_eq (c ∷ s) suffix || ends_with suffix s
