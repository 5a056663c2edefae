-- ===== src/Week4/Schema/Rules.antt =====
-- What a rule of the schema says of the value itself: its type, its constant or enumeration, and the
-- bounds of a text, a number, an array or a dictionary.
use db_first_practice.Common.{
  is_some, ℕ, zero, suc, ◌*◌, ◌/◌, ◌%◌, ◌^◌, Bool, true, false, not, ◌&&◌, ◌||◌, Option, none, some,
  List, [], ◌∷◌, ◌++◌, ◌==◌, Text, txt, text_eq, if◌then◌else◌, mem_text, any, map, length, leb,
  is_empty,
}
use db_first_practice.Common.Int.{ℤ, pos, negsuc, neg, int_lt, scale}
use db_first_practice.Common.Results.{Result, ok, err, ◌>>=◌, or_raise}
use db_first_practice.Json.{
  not_a_number, positive_infinity, negative_infinity, Value, null, bool, int, float, special, str,
  arr, obj, Items, nil, cons, Fields, end, field, get, get_or_null, has_key, elements, entries,
  number, value_eq, truthy, str_is,
}
use db_first_practice.Json.Print.{dumps_sorted}
use db_first_practice.Builtins.{parse_int, strip}
use db_first_practice.Builtins.Find.{contains, replace_from}
use db_first_practice.Builtins.Time.{fromisoformat, replace_z}
use db_first_practice.Findings.{
  Fault, type_error, value_error, overflow_error, pattern_error, Found, flag, ◌then_find◌, each,
  str_of, characters,
}

-- `int(value)`
unfoldable pub int_of : Value → Result Fault ℤ
int_of (int n) = ok n
int_of (bool true) = ok (pos 1)
int_of (bool false) = ok (pos 0)
int_of (float (pos m) k) = ok (pos (m / 10 ^ k))
int_of (float (negsuc m) k) = ok (neg (suc m / 10 ^ k))
int_of (special not_a_number) = err value_error
int_of (special x) = err overflow_error
int_of (str s) = or_raise (parse_int s) value_error
int_of v = err type_error

-- the table of type checks
unfoldable pub has_type : Text → Value → Bool
has_type name null = text_eq name (txt "null")
has_type name (bool b) = text_eq name (txt "boolean")
has_type name (int n) = text_eq name (txt "integer") || text_eq name (txt "number")
has_type name (float m k) = text_eq name (txt "number")
has_type name (special x) = text_eq name (txt "number")
has_type name (str s) = text_eq name (txt "string")
has_type name (arr vs) = text_eq name (txt "array")
has_type name (obj d) = text_eq name (txt "object")

-- a name that is no text is no type's name
abbrev pub has_named_type : Value → Value → Bool
has_named_type item (str name) = has_type name item
has_named_type item v = false

-- `expected_type is None`, or one of the expected types fits
unfoldable pub type_ok : Value → Value → Bool
type_ok null item = true
type_ok (arr names) item = any (has_named_type item) (elements names)
type_ok name item = has_named_type item name

-- `item in values`
unfoldable pub is_in : Value → Value → Result Fault Bool
is_in item (arr vs) = ok (any (value_eq item) (elements vs))
is_in (str s) (str t) = ok (contains s t)
is_in (str s) (obj d) = ok (has_key s d)
is_in (arr vs) (obj d) = err type_error
is_in (obj e) (obj d) = err type_error
is_in item (obj d) = ok false
is_in item v = err type_error

unfoldable pub const_findings : Option Value → Value → Text → Found
const_findings none item path = ok []
const_findings (some v) item path =
    ok (flag (not (value_eq item v)) (path ++ txt ": invalid constant"))

unfoldable pub enum_findings : Option Value → Value → Text → Found
enum_findings none item path = ok []
enum_findings (some values) item path = do
  found ← is_in item values
  ok (flag (not found) (path ++ txt ": value is outside enum"))

-- a hexadecimal number: digits, with single underscores between them
unfoldable pub hex_digits : Bool → Text → Bool
hex_digits after_digit [] = after_digit
hex_digits after_digit (c ∷ s) =
    let rest = hex_digits true s in
    let gap = hex_digits false s in
    if (leb 48 c && leb c 57) || ((leb 65 c && leb c 70) || (leb 97 c && leb c 102))
    then rest
    else after_digit && (c == b'_' && gap)

-- behind the prefix `0x` an underscore may stand
unfoldable pub hex_number : Text → Bool
hex_number (c ∷ d ∷ s) =
    if c == 48 && (d == b'x' || d == b'X')
    then elim s [
      | [] ↦ false
      | e ∷ r ↦ if e == b'_' then hex_digits false r else hex_digits false (e ∷ r)
    ]
    else hex_digits false (c ∷ d ∷ s)
hex_number s = hex_digits false s

-- whether `int(text, 16)` succeeds
unfoldable pub is_hex : Text → Bool
is_hex s = elim (strip s) [
  | [] ↦ false
  | c ∷ r ↦ if c == b'-' || c == b'+' then hex_number r else hex_number (c ∷ r)
]

abbrev is_brace : ℕ → Bool
is_brace c = c == b'{' || c == b'}'

unfoldable pub cut_start : Text → Text
cut_start [] = []
cut_start (c ∷ s) = let rest = cut_start s in if is_brace c then rest else c ∷ s

unfoldable pub cut_end : Text → Text
cut_end [] = []
cut_end (c ∷ s) = let r = cut_end s in if is_brace c && is_empty r then [] else c ∷ r

-- `text.strip("{}")`
unfoldable pub strip_braces : Text → Text
strip_braces s = cut_end (cut_start s)

-- whether `uuid.UUID(text)` succeeds
unfoldable pub is_uuid : Text → Bool
is_uuid s =
    let bare = replace_from 0 (txt "uuid:") [] (replace_from 0 (txt "urn:") [] s) in
    let digits = replace_from 0 (txt "-") [] (strip_braces bare) in
    length digits == 32 && is_hex digits

-- an ISO 8601 time with its zone
unfoldable pub is_zoned_time : Text → Bool
is_zoned_time s = elim (fromisoformat (replace_z s)) [ none ↦ false | some moment ↦ moment.aware ]

abbrev is_number : Value → Bool
is_number (special x) = true
is_number v = is_some (number v)

-- whether an infinity on one side makes `a < b` of two numbers true; it is false with a NaN on either side
abbrev below_special : Value → Value → Bool
below_special (special not_a_number) w = false
below_special (special positive_infinity) w = false
below_special (special negative_infinity) (special positive_infinity) = true
below_special (special negative_infinity) (special x) = false
below_special (special negative_infinity) w = true
below_special v (special positive_infinity) = true
below_special v w = false

-- `a < b` on numbers of which one may be NaN or an infinity
abbrev less_special : Value → Value → Result Fault Bool
less_special v w = if is_number v && is_number w then ok (below_special v w) else err type_error

-- `a < b` on numbers
unfoldable pub less : Value → Value → Result Fault Bool
less (special x) w = less_special (special x) w
less v (special x) = less_special v (special x)
less v w = elim (number v) [
  | none ↦ err type_error
  | some (m, j) ↦ elim (number w) [
    | none ↦ err type_error
    | some (n, k) ↦ ok (int_lt (scale m (10 ^ k)) (scale n (10 ^ j)))
  ]
]

unfoldable pub minimum_findings : Option Value → Value → Text → Found
minimum_findings none item path = ok []
minimum_findings (some least) item path = do
  below ← less item least
  ok (flag below (path ++ txt ": number is below minimum"))

-- a float as Python prints it: no zeros at its end but one behind the point
unfoldable pub trim_float : ℤ → ℕ → Value
trim_float (pos m) (suc (suc k)) =
    let shorter = trim_float (pos (m / 10)) (suc k) in
    if m % 10 == 0 then shorter else float (pos m) (suc (suc k))
trim_float (negsuc m) (suc (suc k)) =
    let shorter = trim_float (neg (suc m / 10)) (suc k) in
    if suc m % 10 == 0 then shorter else float (negsuc m) (suc (suc k))
trim_float (pos m) zero = float (pos (m * 10)) 1
trim_float (negsuc m) zero = float (neg (suc m * 10)) 1
trim_float m (suc zero) = float m 1

unfoldable mutual
  unfolding trim_float

  pub trimmed : Value → Value
  trimmed (float m k) = trim_float m k
  trimmed (special x) = special x
  trimmed (arr vs) = arr (trimmed_items vs)
  trimmed (obj d) = obj (trimmed_fields d)
  trimmed v = v

  pub trimmed_items : Items → Items
  trimmed_items nil = nil
  trimmed_items (cons v vs) = cons (trimmed v) (trimmed_items vs)

  pub trimmed_fields : Fields → Fields
  trimmed_fields end = end
  trimmed_fields (field k v d) = field k (trimmed v) (trimmed_fields d)

-- `json.dumps(entry, sort_keys=True)`, whose escapes beyond ASCII are left out: they tell apart the
-- same entries
abbrev serialized : Value → Text
serialized v = dumps_sorted (trimmed v)

-- `len(texts) != len(set(texts))`
unfoldable pub has_duplicate : List Text → Bool
has_duplicate [] = false
has_duplicate (t ∷ ts) = mem_text t ts || has_duplicate ts

unfoldable pub array_findings : Items → Fields → Text → Found
array_findings vs rule path =
    (do
      least ← int_of (elim (get (txt "minItems") rule) [ none ↦ int (pos 0) | some v ↦ v ])
      ok (
          flag (int_lt (pos (length (elements vs))) least)
            (path ++ txt ": array has too few items")))
    then_find ok (
        flag
          (truthy (get_or_null (txt "uniqueItems") rule)
            && has_duplicate (map serialized (elements vs)))
          (path ++ txt ": array items are not unique"))

-- `for name in value`
unfoldable pub each_of : Value → Result Fault (List Value)
each_of (arr vs) = ok (elements vs)
each_of (str s) = ok (characters s)
each_of (obj d) = ok (map (λ (k, v). str k) (entries d))
each_of v = err type_error

module _ (repr : Value → Text) (search : Text → Text → Option Bool) where
  unfoldable pub pattern_findings : Option Value → Text → Text → Found
  pattern_findings none s path = ok []
  pattern_findings (some pattern) s path = do
    found ← or_raise (search (str_of repr pattern) s) pattern_error
    ok (flag (not found) (path ++ txt ": string does not match pattern"))

  unfoldable pub max_length_findings : Option Value → Text → Text → Found
  max_length_findings none s path = ok []
  max_length_findings (some v) s path = do
    most ← int_of v
    ok (flag (int_lt most (pos (length s))) (path ++ txt ": string is too long"))

  unfoldable pub text_findings : Text → Fields → Text → Found
  text_findings s rule path =
      (do
        least ← int_of (elim (get (txt "minLength") rule) [ none ↦ int (pos 0) | some v ↦ v ])
        ok (flag (int_lt (pos (length s)) least) (path ++ txt ": string is too short")))
      then_find max_length_findings (get (txt "maxLength") rule) s path
      then_find pattern_findings (get (txt "pattern") rule) s path
      then_find ok (
          flag (str_is (txt "uuid") (get_or_null (txt "format") rule) && not (is_uuid s))
            (path ++ txt ": string is not a UUID"))
      then_find ok (
          flag (str_is (txt "date-time") (get_or_null (txt "format") rule) && not (is_zoned_time s))
            (path ++ txt ": string is not an RFC 3339 timestamp"))

  -- `name not in item`, for a dictionary
  unfoldable pub is_missing : Value → Fields → Result Fault Bool
  is_missing (str name) d = ok (not (has_key name d))
  is_missing (arr vs) d = err type_error
  is_missing (obj e) d = err type_error
  is_missing v d = ok true

  unfoldable pub missing_findings : Fields → Text → Value → Found
  missing_findings d path name = do
    missing ← is_missing name d
    ok (
        flag missing
          (path ++ (txt "." ++ (str_of repr name ++ txt ": required property is missing"))))

  unfoldable pub required_findings : Fields → Fields → Text → Found
  required_findings d rule path = do
    names ← each_of (elim (get (txt "required") rule) [ none ↦ arr nil | some v ↦ v ])
    each (missing_findings d path) names

  -- what is said of the value itself; what is said of its parts comes after it
  unfoldable pub kind_findings : Value → Fields → Text → Found
  kind_findings (str s) rule path = text_findings s rule path
  kind_findings (int n) rule path = minimum_findings (get (txt "minimum") rule) (int n) path
  kind_findings (float m k) rule path = minimum_findings (get (txt "minimum") rule) (float m k) path
  kind_findings (special x) rule path = minimum_findings (get (txt "minimum") rule) (special x) path
  kind_findings (arr vs) rule path = array_findings vs rule path
  kind_findings (obj d) rule path = required_findings d rule path
  kind_findings v rule path = ok []

  unfoldable pub own_findings : Value → Fields → Text → Found
  own_findings item rule path =
      const_findings (get (txt "const") rule) item path
      then_find enum_findings (get (txt "enum") rule) item path
      then_find kind_findings item rule path
