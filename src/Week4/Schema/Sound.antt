-- ===== src/Week4/Schema/Sound.antt =====
-- What a value is that validate_json_schema finds nothing about.
use db_first_practice.Common.{
  ℕ, zero, suc, ◌≡◌, ◌⊎◌, refl, ap, ◌∙◌, Bool, true, Option, none, some, List, [], ◌∷◌, ◌++◌, Text,
  txt, Bool-cases, inl, inr, ==_iff, All, length, ◌≤◌,
}
use db_first_practice.Common.Int.{pos, int_lt}
use db_first_practice.Common.Results.{Result, ok, err, ◌>>=◌, >>=-eq-ok, ok_injective}
use db_first_practice.Json.{
  Value, null, bool, int, float, special, str, arr, obj, Items, Fields, get, get_or_null, elements,
  entries,
}
use db_first_practice.Findings.{
  Fault, str_of, flag, flag-nil, then_find-nil, append-nil, each-nil, All-map,
}
use db_first_practice.Week4.Schema.Rules.{
  own_findings, type_ok, kind_findings, text_findings, max_length_findings, int_of,
  required_findings, missing_findings, is_missing, each_of,
}
use db_first_practice.Week4.Schema.{
  Visit, lift, resolve, on_dict, on_list, property_at, properties_findings, properties_of,
  visit_any, matches, one_of_findings, item_findings, property_findings, inner_findings,
  typed_findings, rule_findings, visit, validate_json_schema, is_false,
}
use db_first_practice.Week4.Schema.Fits.{
  Names, OwnFits, OneFits, MaybeFits, PropertiesFit, InnerFits, RuleFits, RefFits, Fits,
}
use db_first_practice.Week4.Schema.Quiet.{
  bind-nil, lift-ok, not-false, const_fits, enum_fits, at_most, closed_keys, bind-ok-nil,
}

module _ (repr : Value → Text) (search : Text → Text → Option Bool) where
  most_fits :
      (o : Option Value) (s path : Text)
      → max_length_findings repr search o s path ≡ ok []
      → (n : ℕ) → o ≡ some (int (pos n))
      → length s ≤ n
  unfolding max_length_findings int_of
  most_fits o s path h n e = at_most _ _ (flag-nil _ _ (ok_injective (rw e at h)))

  least_fits :
      (o : Option Value) (s path : Text)
      → (do
        least ← int_of (elim o [ none ↦ int (pos 0) | some v ↦ v ])
        ok (flag (int_lt (pos (length s)) least) (path ++ txt ": string is too short")))
        ≡ ok []
      → (n : ℕ) → o ≡ some (int (pos n))
      → n ≤ length s
  unfolding int_of
  least_fits o s path h n e = at_most _ _ (flag-nil _ _ (ok_injective (rw e at h)))

  text_least :
      (s : Text) (rule : Fields) (path : Text)
      → text_findings repr search s rule path ≡ ok []
      → (n : ℕ) → get (txt "minLength") rule ≡ some (int (pos n))
      → n ≤ length s
  unfolding text_findings
  text_least s rule path h = least_fits (get (txt "minLength") rule) s path (then_find-nil _ _ h).0

  text_fits :
      (s : Text) (rule : Fields) (path : Text)
      → text_findings repr search s rule path ≡ ok []
      → (n : ℕ) → get (txt "maxLength") rule ≡ some (int (pos n))
      → length s ≤ n
  unfolding text_findings
  text_fits s rule path h =
      most_fits (get (txt "maxLength") rule) s path (then_find-nil _ _ (then_find-nil _ _ h).1).0

  missing_fits :
      (d : Fields) (path : Text) (name : Value)
      → missing_findings repr search d path name ≡ ok []
      → Names d name
  unfolding missing_findings is_missing
  missing_fits d path (str name) h = not-false _ (flag-nil _ _ (ok_injective h))
  missing_fits d path null h = tt
  missing_fits d path (bool b) h = tt
  missing_fits d path (int n) h = tt
  missing_fits d path (float m k) h = tt
  missing_fits d path (special x) h = tt
  missing_fits d path (arr vs) h = tt
  missing_fits d path (obj e) h = tt

  required_fits :
      (d rule : Fields) (path : Text)
      → required_findings repr search d rule path ≡ ok []
      → (names : Items) → get (txt "required") rule ≡ some (arr names)
      → All (Names d) (elements names)
  unfolding required_findings each_of
  required_fits d rule path h names e =
      All-map (missing_fits d path) (elements names)
        (each-nil (missing_findings repr search d path) (elements names) (rw e at h))

  text_kind :
      (item : Value) (rule : Fields) (path : Text)
      → kind_findings repr search item rule path ≡ ok []
      → (s : Text) (n : ℕ) → item ≡ str s
      → get (txt "maxLength") rule ≡ some (int (pos n))
      → length s ≤ n
  unfolding kind_findings
  text_kind item rule path h s n e = text_fits s rule path (rw e at h) n

  least_kind :
      (item : Value) (rule : Fields) (path : Text)
      → kind_findings repr search item rule path ≡ ok []
      → (s : Text) (n : ℕ) → item ≡ str s
      → get (txt "minLength") rule ≡ some (int (pos n))
      → n ≤ length s
  unfolding kind_findings
  least_kind item rule path h s n e = text_least s rule path (rw e at h) n

  dict_kind :
      (item : Value) (rule : Fields) (path : Text)
      → kind_findings repr search item rule path ≡ ok []
      → (d : Fields) (names : Items) → item ≡ obj d
      → get (txt "required") rule ≡ some (arr names)
      → All (Names d) (elements names)
  unfolding kind_findings
  dict_kind item rule path h d names e = required_fits d rule path (rw e at h) names

  own_fits :
      (item : Value) (rule : Fields) (path : Text)
      → type_ok (get_or_null (txt "type") rule) item ≡ true
      → own_findings repr search item rule path ≡ ok []
      → OwnFits item rule
  unfolding own_findings
  own_fits item rule path t h =
      let (c, rest) = then_find-nil _ _ h in
      let (e, k) = then_find-nil _ _ rest in
      record {
        type = t;
        const = const_fits _ item path c;
        enum = enum_fits _ item path e;
        least = least_kind item rule path k;
        most = text_kind item rule path k;
        required = dict_kind item rule path k;
      }

  module _ (sub : Value → Fields → Text → Visit) (M : Value → Fields → Type 0)
      (sound : (item : Value) (rule : Fields) (path : Text)
        → sub item rule path ≡ ok []
        → M item rule) where
    items_fit :
        (rule : Fields) (index : ℕ) (vs : List Value) (path : Text)
        → item_findings repr search sub rule index vs path ≡ ok []
        → All (λ v. M v rule) vs
    unfolding item_findings
    items_fit rule index [] path h = tt
    items_fit rule index (v ∷ vs) path h =
        let (here, later) = bind-nil _ _ h in
        (sound v rule _ here, items_fit rule (suc index) vs path later)

    property_fits :
        (o : Option Value) (rule : Fields) (path : Text)
        → property_at repr search sub o rule path ≡ ok []
        → MaybeFits M o rule
    unfolding property_at
    property_fits none rule path h = tt
    property_fits (some v) rule path h = sound v rule path h

    on_dict_fits :
        (v : Value) (f : Fields → Visit) (P : Fields → Type 0)
        → on_dict v (ok []) f ≡ ok []
        → ((d : Fields) → f d ≡ ok [] → P d)
        → on_dict v (Unit {0}) P
    on_dict_fits (obj d) f P h k = k d h
    on_dict_fits null f P h k = tt
    on_dict_fits (bool b) f P h k = tt
    on_dict_fits (int n) f P h k = tt
    on_dict_fits (float m i) f P h k = tt
    on_dict_fits (special x) f P h k = tt
    on_dict_fits (str t) f P h k = tt
    on_dict_fits (arr vs) f P h k = tt

    properties_fit :
        (d : Fields) (ps : List (Text × Value)) (path : Text)
        → property_findings repr search sub d ps path ≡ ok []
        → All (λ (name, child). on_dict child (Unit {0}) λ rule. MaybeFits M (get name d) rule) ps
    unfolding property_findings
    properties_fit d [] path h = tt
    properties_fit d ((name, child) ∷ ps) path h =
        let (here, later) = bind-nil _ _ h in
        (
          on_dict_fits child _ (λ rule. MaybeFits M (get name d) rule) here
              (λ rule. property_fits (get name d) rule (path ++ (txt "." ++ name))),
          properties_fit d ps path later,
        )

    dict_fits :
        (d ps : Fields) (closed : Bool) (path : Text)
        → properties_findings repr search sub d ps closed path ≡ ok []
        → PropertiesFit M d ps closed
    unfolding properties_findings
    dict_fits d ps closed path h =
        let (found, e, none_left) =
          bind-ok-nil (property_findings repr search sub d (entries ps) path) _ h in
        let quiet : found ≡ [] = (append-nil found _ none_left).0 in
        (
          properties_fit d (entries ps) path (e ∙ ap ok quiet),
          closed_keys closed d ps path found none_left,
        )

    inner_fits :
        (item : Value) (rule : Fields) (path : Text)
        → inner_findings repr search sub item rule path ≡ ok []
        → InnerFits M item rule
    unfolding inner_findings
    inner_fits (arr vs) rule path h =
        on_dict_fits (get_or_null (txt "items") rule) _
          (λ inner. All (λ v. M v inner) (elements vs)) h
          (λ inner. items_fit inner 0 (elements vs) path)
    inner_fits (obj d) rule path h =
        on_dict_fits (properties_of (get (txt "properties") rule)) _ _ h
          (λ ps. dict_fits d ps (is_false (get_or_null (txt "additionalProperties") rule)) path)
    inner_fits null rule path h = tt
    inner_fits (bool b) rule path h = tt
    inner_fits (int n) rule path h = tt
    inner_fits (float m k) rule path h = tt
    inner_fits (special x) rule path h = tt
    inner_fits (str t) rule path h = tt

    typed_fits :
        (item : Value) (rule : Fields) (path : Text)
        → typed_findings repr search sub item rule path ≡ ok []
        → OwnFits item rule × InnerFits M item rule
    unfolding typed_findings
    typed_fits item rule path h = elim (Bool-cases (type_ok (get_or_null (txt "type") rule) item)) [
      | inl fits ↦
          let (own, inner) = bind-nil _ _ (rw fits at h) in
          (own_fits item rule path fits (lift-ok _ own), inner_fits item rule path inner)
      | inr other ↦ let found = rw other at h in cc
    ]

    on_list_fits :
        (v : Value) (other : Visit) (f : Items → Visit) (P : Type 0)
        → on_list v other f ≡ ok []
        → (other ≡ ok [] → P)
        → (Q : Items → Type 0) → ((vs : Items) → f vs ≡ ok [] → Q vs)
        → on_list v P Q
    on_list_fits (arr vs) other f P h k Q l = l vs h
    on_list_fits null other f P h k Q l = k h
    on_list_fits (bool b) other f P h k Q l = k h
    on_list_fits (int n) other f P h k Q l = k h
    on_list_fits (float m i) other f P h k Q l = k h
    on_list_fits (special x) other f P h k Q l = k h
    on_list_fits (str t) other f P h k Q l = k h
    on_list_fits (obj d) other f P h k Q l = k h

    counted_fits :
        (item alternative : Value) (path : Text)
        → visit_any repr search sub item alternative path ≡ ok []
        → on_dict alternative ⊥ (λ rule. M item rule)
    counted_fits item (obj rule) path h = sound item rule path h
    counted_fits item null path h = cc
    counted_fits item (bool b) path h = cc
    counted_fits item (int n) path h = cc
    counted_fits item (float m k) path h = cc
    counted_fits item (special x) path h = cc
    counted_fits item (str s) path h = cc
    counted_fits item (arr vs) path h = cc

    counted :
        (found : List Text) (k n : ℕ)
        → elim found [ [] ↦ suc k | _ ∷ _ ↦ k ] ≡ suc n
        → (found ≡ []) ⊎ (k ≡ suc n)
    counted [] k n h = inl refl
    counted (t ∷ ts) k n h = inr h

    matches_fits :
        (item : Value) (vs : List Value) (path : Text) (n : ℕ)
        → matches repr search sub item vs path ≡ ok (suc n)
        → OneFits M item vs
    unfolding matches
    matches_fits item [] path n h = cc
    matches_fits item (v ∷ vs) path n h =
        let (found, e, rest) = >>=-eq-ok (visit_any repr search sub item v path) _ h in
        let (k, later, count) = >>=-eq-ok (matches repr search sub item vs path) _ rest in
        elim (counted found k n (ok_injective count)) [
          | inl quiet ↦ inl (counted_fits item v path (e ∙ ap ok quiet))
          | inr more ↦ inr (matches_fits item vs path n (later ∙ ap ok more))
        ]

    one_fits :
        (item : Value) (vs : List Value) (path : Text)
        → one_of_findings repr search sub item vs path ≡ ok []
        → OneFits M item vs
    unfolding one_of_findings
    one_fits item vs path h =
        let (n, e, quiet) = >>=-eq-ok (matches repr search sub item vs path) _ h in
        let one : n ≡ 1 = (==_iff n 1).0 (not-false _ (flag-nil _ _ (ok_injective quiet))) in
        matches_fits item vs path 0 (e ∙ ap ok one)

    rule_fits :
        (item : Value) (rule : Fields) (path : Text)
        → rule_findings repr search sub item rule path ≡ ok []
        → RuleFits M item rule
    unfolding rule_findings
    rule_fits item rule path h =
        on_list_fits (get_or_null (txt "oneOf") rule) _ _
          (OwnFits item rule × InnerFits M item rule) (bind-nil _ _ h).1 (typed_fits item rule path)
          (λ vs. OneFits M item (elements vs)) (λ vs. one_fits item (elements vs) path)

  module _ (schema : Fields) where
    target-Fits :
        (n : ℕ) (item : Value) (path : Text) (r : Result Fault Fields)
        → ((rule : Fields)
            → visit repr search schema n item rule path ≡ ok []
            → Fits repr schema n item rule)
        → (lift r >>= λ target. visit repr search schema n item target path) ≡ ok []
        → RefFits (Fits repr schema n) item r
    unfolding lift
    target-Fits n item path (ok target) k h = k target h
    target-Fits n item path (err e) k h = cc

    visit-Fits :
        (n : ℕ) (item : Value) (rule : Fields) (path : Text)
        → visit repr search schema n item rule path ≡ ok []
        → Fits repr schema n item rule
    unfolding visit Fits
    visit-Fits zero item rule path h = cc
    visit-Fits (suc n) item rule path h =
        let deeper : (i : Value) (r : Fields) (q : Text)
            → visit repr search schema n i r q ≡ ok []
            → Fits repr schema n i r =
          visit-Fits n in
        (elim (get (txt "$ref") rule)
            as (λ o.
              elim o [
                | some reference ↦ lift (resolve schema (str_of repr reference)) >>= λ target.
                    visit repr search schema n item target path
                | none ↦ rule_findings repr search (visit repr search schema n) item rule path
              ]
                ≡ ok []
              → elim o as (λ x. Type 0) [
                | some reference ↦
                    RefFits (Fits repr schema n) item (resolve schema (str_of repr reference))
                | none ↦ RuleFits (Fits repr schema n) item rule
              ]) [
                | some reference ↦ target-Fits n item path _ (λ r. deeper item r path)
                | none ↦
                    rule_fits (visit repr search schema n) (Fits repr schema n) deeper item rule
                      path
              ])
          h

    -- A value without findings fits the schema: along the references, the type, the constant, the
    -- enumeration, the least and the greatest length and the required names of every rule without
    -- `oneOf` hold of what it is for, at every depth of the value, and a closed dictionary has no other
    -- keys; of a rule with `oneOf`, one of the alternatives fits.
    pub validate_json_schema-Fits :
        (n : ℕ) (value : Value)
        → validate_json_schema repr search schema n value ≡ ok []
        → Fits repr schema n value schema
    unfolding validate_json_schema
    validate_json_schema-Fits n value h = visit-Fits n value schema (txt "$") h
