-- ===== src/Week4/Schema/Fits.antt =====
-- When a value fits a rule of the schema.
use db_first_practice.Common.{
  ℕ, zero, suc, ◌≡◌, Bool, true, Option, none, some, Text, txt, any, All, length, ◌≤◌, List, [],
  ◌∷◌, ◌⊎◌,
}
use db_first_practice.Common.Int.{pos}
use db_first_practice.Common.Results.{Result, ok, err}
use db_first_practice.Json.{
  Value, int, str, arr, obj, Items, Fields, get, get_or_null, elements, entries, has_key, value_eq,
}
use db_first_practice.Findings.{Fault, str_of}
use db_first_practice.Week4.Schema.Rules.{type_ok}
use db_first_practice.Week4.Schema.{resolve, on_dict, on_list, properties_of, is_false}

-- A name that a dictionary must have.
abbrev pub Names : Fields → Value → Type 0
Names d (str name) = has_key name d ≡ true
Names d v = Unit {0}

-- What the rule says of the value itself.
pub record OwnFits (item : Value) (rule : Fields) : Type 0 where
  pub type : type_ok (get_or_null (txt "type") rule) item ≡ true
  pub const : (v : Value) → get (txt "const") rule ≡ some v → value_eq item v ≡ true
  pub enum :
      (vs : Items)
      → get (txt "enum") rule ≡ some (arr vs)
      → any (value_eq item) (elements vs) ≡ true
  pub least :
      (s : Text) (n : ℕ)
      → item ≡ str s
      → get (txt "minLength") rule ≡ some (int (pos n))
      → n ≤ length s
  pub most :
      (s : Text) (n : ℕ)
      → item ≡ str s
      → get (txt "maxLength") rule ≡ some (int (pos n))
      → length s ≤ n
  pub required :
      (d : Fields) (names : Items)
      → item ≡ obj d
      → get (txt "required") rule ≡ some (arr names)
      → All (Names d) (elements names)

-- A dictionary with no other keys than the properties.
abbrev pub OnlyKeys : Fields → Fields → Type 0
OnlyKeys ps d = All (λ (k, v). has_key k ps ≡ true) (entries d)

module _ (M : Value → Fields → Type 0) where
  abbrev pub MaybeFits : Option Value → Fields → Type 0
  MaybeFits none rule = Unit {0}
  MaybeFits (some v) rule = M v rule

  abbrev pub PropertiesFit : Fields → Fields → Bool → Type 0
  PropertiesFit d ps closed =
      All (λ (name, child). on_dict child (Unit {0}) λ rule. MaybeFits (get name d) rule)
        (entries ps)
      × (closed ≡ true → OnlyKeys ps d)

  -- What the rule says of the parts of an array or a dictionary.
  abbrev pub InnerFits : Value → Fields → Type 0
  InnerFits (arr vs) rule =
      on_dict (get_or_null (txt "items") rule) (Unit {0})
        λ inner. All (λ v. M v inner) (elements vs)
  InnerFits (obj d) rule =
      on_dict (properties_of (get (txt "properties") rule)) (Unit {0})
        λ ps. PropertiesFit d ps (is_false (get_or_null (txt "additionalProperties") rule))
  InnerFits v rule = Unit {0}

  -- One of the alternatives is a rule that fits.
  abbrev pub OneFits : Value → List Value → Type 0
  OneFits item [] = ⊥
  OneFits item (alternative ∷ later) =
      on_dict alternative ⊥ (λ rule. M item rule) ⊎ OneFits item later

  -- A rule with alternatives says only those.
  abbrev pub RuleFits : Value → Fields → Type 0
  RuleFits item rule =
      on_list (get_or_null (txt "oneOf") rule) (OwnFits item rule × InnerFits item rule)
        (λ alternatives. OneFits item (elements alternatives))

abbrev pub RefFits : (Value → Fields → Type 0) → Value → Result Fault Fields → Type 0
RefFits M item (ok target) = M item target
RefFits M item (err e) = ⊥

-- The value fits the rule, to a depth of `n`.
unfoldable pub Fits : (Value → Text) → Fields → ℕ → Value → Fields → Type 0
Fits repr schema zero item rule = ⊥
Fits repr schema (suc n) item rule = elim (get (txt "$ref") rule) [
  | some reference ↦ RefFits (Fits repr schema n) item (resolve schema (str_of repr reference))
  | none ↦ RuleFits (Fits repr schema n) item rule
]
