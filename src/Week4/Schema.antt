-- ===== src/Week4/Schema.antt =====
-- task/week4/autocheck/public_check.py: validate_json_schema, the part of JSON Schema that the result
-- contracts use.
pub mod Rules
mod Tests
pub mod Fits
mod Quiet
pub mod Sound
mod Limit
pub mod Settled
use db_first_practice.Common.{
  ℕ, zero, suc, ◌+◌, Bool, true, false, not, ◌&&◌, Option, none, some, List, [], ◌∷◌, ◌++◌, ◌==◌,
  Text, txt, text_eq, if◌then◌else◌, mem_text,
}
use db_first_practice.Common.Results.{Result, ok, err, ◌>>=◌, ◌>>◌, raise_if, or_raise}
use db_first_practice.Json.{
  Value, null, str, arr, obj, bool, Items, Fields, end, field, get, get_or_null, has_key, elements,
  entries,
}
use db_first_practice.Json.Print.{print_nat}
use db_first_practice.Builtins.Find.{split_all, after_prefix, contains, replace_from, split}
use db_first_practice.Findings.{
  Fault, type_error, attribute_error, key_error, value_error, Found, flag, str_of,
}
use db_first_practice.Week4.Schema.Rules.{own_findings, type_ok}

-- a nested visit that the interpreter's recursion limit does not allow, or another exception
pub data Stop : Type 0 where
  too_deep : Stop
  raised : Fault → Stop

abbrev pub Visit : Type 0
Visit = Result Stop (List Text)

unfoldable pub lift {ℓ} : {A : Type ℓ} → Result Fault A → Result Stop A
lift (ok a) = ok a
lift (err e) = err (raised e)

-- `part.replace("~1", "/").replace("~0", "~")`
unfoldable pub unescape_part : Text → Text
unescape_part part = replace_from 0 (txt "~0") (txt "~") (replace_from 0 (txt "~1") (txt "/") part)

-- `current[part]` for each part
unfoldable pub follow : Value → List Text → Result Fault Value
follow current [] = ok current
follow (obj d) (part ∷ later) = elim (get (unescape_part part) d) [
  | none ↦ err key_error
  | some v ↦ follow v later
]
follow _ (part ∷ later) = err type_error

abbrev pub as_dict : Value → Result Fault Fields
as_dict (obj d) = ok d
as_dict v = err value_error

unfoldable pub resolve : Fields → Text → Result Fault Fields
resolve schema reference = elim (after_prefix (txt "#/") reference) [
  | none ↦ err value_error
  | some pointer ↦ do v ← follow (obj schema) (split_all b'/' pointer); as_dict v
]

-- what `visit` raises for a rule that is no dictionary, at `"$ref" in rule` or behind it
unfoldable pub no_rule : Value → Fault
no_rule (str s) = if contains (txt "$ref") s then type_error else attribute_error
no_rule (arr vs) = attribute_error
no_rule v = type_error

-- `set(item) - set(properties)`, in the order of the item
unfoldable pub additional : Fields → Fields → Text → List Text
additional end properties path = []
additional (field name v d) properties path =
    flag (not (has_key name properties))
      (path ++ (txt "." ++ (name ++ txt ": additional property is forbidden")))
    ++ additional d properties path

abbrev pub is_false : Value → Bool
is_false (bool false) = true
is_false v = false

-- `isinstance(value, dict)` and `isinstance(value, list)`
abbrev pub on_dict {ℓ} : {A : Type ℓ} → Value → A → (Fields → A) → A
on_dict (obj d) other a = a d
on_dict v other a = other

abbrev pub on_list {ℓ} : {A : Type ℓ} → Value → A → (Items → A) → A
on_list (arr vs) other a = a vs
on_list v other a = other

-- `rule.get("properties", {})`
abbrev pub properties_of : Option Value → Value
properties_of none = obj end
properties_of (some v) = v

-- The visit of a rule, over `sub`, the visits of the rules inside it.
module _ (repr : Value → Text) (search : Text → Text → Option Bool)
    (sub : Value → Fields → Text → Visit) where
  abbrev pub visit_any : Value → Value → Text → Visit
  visit_any item rule path = on_dict rule (err (raised (no_rule rule))) λ d. sub item d path

  unfoldable pub not_findings : Value → Value → Text → Visit
  not_findings item negated path = on_dict negated (ok []) λ rule. do
    found ← sub item rule path
    ok (elim found [ [] ↦ (path ++ txt ": matches a forbidden schema") ∷ [] | _ ∷ _ ↦ [] ])

  -- how many alternatives match
  unfoldable pub matches : Value → List Value → Text → Result Stop ℕ
  matches item [] path = ok 0
  matches item (alternative ∷ later) path = do
    found ← visit_any item alternative path
    n ← matches item later path
    ok (elim found [ [] ↦ suc n | _ ∷ _ ↦ n ])

  unfoldable pub item_findings : Fields → ℕ → List Value → Text → Visit
  item_findings rule index [] path = ok []
  item_findings rule index (entry ∷ later) path = do
    found ← sub entry rule (path ++ (txt "[" ++ (print_nat index ++ txt "]")))
    rest ← item_findings rule (suc index) later path
    ok (found ++ rest)

  -- `item[name]` under the rule for it, if the item has it
  unfoldable pub property_at : Option Value → Fields → Text → Visit
  property_at none rule path = ok []
  property_at (some v) rule path = sub v rule path

  unfoldable pub property_findings : Fields → List (Text × Value) → Text → Visit
  property_findings item [] path = ok []
  property_findings item ((name, child) ∷ later) path = do
    found ←
        on_dict child (ok []) λ rule. property_at (get name item) rule (path ++ (txt "." ++ name))
    rest ← property_findings item later path
    ok (found ++ rest)

  unfoldable pub properties_findings : Fields → Fields → Bool → Text → Visit
  properties_findings item properties closed path = do
    found ← property_findings item (entries properties) path
    ok (found ++ (if closed then additional item properties path else []))

  -- what the rule says of the parts of an array or a dictionary
  unfoldable pub inner_findings : Value → Fields → Text → Visit
  inner_findings (arr vs) rule path =
      on_dict (get_or_null (txt "items") rule) (ok [])
        λ item_rule. item_findings item_rule 0 (elements vs) path
  inner_findings (obj item) rule path =
      on_dict (properties_of (get (txt "properties") rule)) (ok []) λ properties.
        properties_findings item properties
          (is_false (get_or_null (txt "additionalProperties") rule)) path
  inner_findings v rule path = ok []

  unfoldable pub typed_findings : Value → Fields → Text → Visit
  typed_findings item rule path =
      let own = lift (own_findings repr search item rule path) in
      let inner = inner_findings item rule path in
      if type_ok (get_or_null (txt "type") rule) item
      then (do found ← own; rest ← inner; ok (found ++ rest))
      else ok ((path ++ txt ": invalid type") ∷ [])

  unfoldable pub one_of_findings : Value → List Value → Text → Visit
  one_of_findings item alternatives path = do
    n ← matches item alternatives path
    ok (flag (not (n == 1)) (path ++ txt ": does not match exactly one schema"))

  unfoldable pub rule_findings : Value → Fields → Text → Visit
  rule_findings item rule path = do
    negated ← not_findings item (get_or_null (txt "not") rule) path
    rest ←
        on_list (get_or_null (txt "oneOf") rule) (typed_findings item rule path)
          λ alternatives. one_of_findings item (elements alternatives) path
    ok (negated ++ rest)

module _ (repr : Value → Text) (search : Text → Text → Option Bool) (schema : Fields) where
  -- `limit` is how many visits may be nested
  unfoldable pub visit : ℕ → Value → Fields → Text → Visit
  visit zero item rule path = err too_deep
  visit (suc limit) item rule path = elim (get (txt "$ref") rule) [
    | some reference ↦ (do
      target ← lift (resolve schema (str_of repr reference))
      visit limit item target path)
    | none ↦ rule_findings repr search (visit limit) item rule path
  ]

  unfoldable pub validate_json_schema : ℕ → Value → Visit
  validate_json_schema limit value = visit limit value schema (txt "$")
