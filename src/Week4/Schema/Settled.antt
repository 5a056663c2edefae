-- ===== src/Week4/Schema/Settled.antt =====
-- When a recursion limit is enough for a schema: each visit goes to a rule inside the one before or to
-- the target of a reference, whatever the value is.
use db_first_practice.Common.{
  ℕ, zero, suc, ◌≡◌, ◌≢◌, refl, ◌∙◌, Bool, true, Option, none, some, List, [], ◌∷◌, ◌++◌, arith,
  Text, txt, all, Bool-cases, ◌≤◌, inl, inr,
}
use db_first_practice.Common.Assoc.{and-left, and-right}
use db_first_practice.Common.Results.{Result, ok, err, ◌>>=◌}
use db_first_practice.Json.{
  Value, null, bool, int, float, special, str, arr, obj, Fields, end, get, get_or_null, elements,
  entries,
}
use db_first_practice.Json.Print.{print_nat}
use db_first_practice.Findings.{Fault, str_of}
use db_first_practice.Week4.Schema.Rules.{own_findings, type_ok}
use db_first_practice.Week4.Schema.{
  too_deep, raised, Visit, lift, resolve, visit_any, on_dict, no_rule, property_at,
  properties_findings, properties_of, one_of_findings, not_findings, matches, item_findings,
  property_findings, inner_findings, typed_findings, rule_findings, visit, validate_json_schema,
}
use db_first_practice.Week4.Schema.Limit.{
  fits_limit, if_dict, if_entries, inside, if_resolved, Same, Same-ok, Same-lift, Same-bind,
  on_dict-Same, on_list-Same,
}

module _ (repr : Value → Text) (search : Text → Text → Option Bool)
    (f g : Value → Fields → Text → Visit) (p : Fields → Bool)
    (sub : (item : Value) (rule : Fields) (path : Text)
      → p rule ≡ true
      → Same (f item rule path) (g item rule path)) where
  visit_any-Same :
      (item rule : Value) (path : Text)
      → if_dict p rule ≡ true
      → Same (visit_any repr search f item rule path) (visit_any repr search g item rule path)
  visit_any-Same item rule path h =
      on_dict-Same p rule (err (raised (no_rule rule))) (λ d. f item d path) (λ d. g item d path) h
        (refl, λ e. cc) (λ d. sub item d path)

  not_findings-Same :
      (item rule : Value) (path : Text)
      → if_dict p rule ≡ true
      → Same (not_findings repr search f item rule path) (not_findings repr search g item rule path)
  unfolding not_findings
  not_findings-Same item rule path h = on_dict-Same p rule (ok []) _ _ h (Same-ok []) (λ d e.
      Same-bind (f item d path) (g item d path) _ _ (sub item d path e) (λ found. Same-ok _))

  matches-Same :
      (item : Value) (rules : List Value) (path : Text)
      → all (if_dict p) rules ≡ true
      → Same (matches repr search f item rules path) (matches repr search g item rules path)
  unfolding matches
  matches-Same item [] path h = Same-ok 0
  matches-Same item (rule ∷ rules) path h =
      let later = matches-Same item rules path (and-right (if_dict p rule) _ h) in
      Same-bind (visit_any repr search f item rule path) (visit_any repr search g item rule path) _
        _ (visit_any-Same item rule path (and-left (if_dict p rule) _ h))
        (λ found.
          Same-bind (matches repr search f item rules path) (matches repr search g item rules path)
            _ _ later (λ n. Same-ok _))

  item_findings-Same :
      (rule : Fields) (index : ℕ) (vs : List Value) (path : Text)
      → p rule ≡ true
      → Same
          (item_findings repr search f rule index vs path)
          (item_findings repr search g rule index vs path)
  unfolding item_findings
  item_findings-Same rule index [] path h = Same-ok []
  item_findings-Same rule index (v ∷ vs) path h =
      let later = item_findings-Same rule (suc index) vs path h in
      Same-bind _ _ _ _ (sub v rule (path ++ (txt "[" ++ (print_nat index ++ txt "]"))) h) (λ found.
        Same-bind (item_findings repr search f rule (suc index) vs path)
          (item_findings repr search g rule (suc index) vs path) _ _ later (λ n. Same-ok _))

  property_at-Same :
      (o : Option Value) (rule : Fields) (path : Text)
      → p rule ≡ true
      → Same (property_at repr search f o rule path) (property_at repr search g o rule path)
  unfolding property_at
  property_at-Same none rule path h = Same-ok []
  property_at-Same (some v) rule path h = sub v rule path h

  property_findings-Same :
      (d : Fields) (ps : List (Text × Value)) (path : Text)
      → all (λ (k, v). if_dict p v) ps ≡ true
      → Same (property_findings repr search f d ps path) (property_findings repr search g d ps path)
  unfolding property_findings
  property_findings-Same d [] path h = Same-ok []
  property_findings-Same d ((name, child) ∷ ps) path h =
      let later = property_findings-Same d ps path (and-right (if_dict p child) _ h) in
      Same-bind _ _ _ _
        (on_dict-Same p child (ok []) _ _ (and-left (if_dict p child) _ h) (Same-ok [])
          (λ rule. property_at-Same (get name d) rule (path ++ (txt "." ++ name))))
        (λ found.
          Same-bind (property_findings repr search f d ps path)
            (property_findings repr search g d ps path) _ _ later (λ n. Same-ok _))

  properties_findings-Same :
      (d ps : Fields) (closed : Bool) (path : Text)
      → if_entries (if_dict p) (obj ps) ≡ true
      → Same
          (properties_findings repr search f d ps closed path)
          (properties_findings repr search g d ps closed path)
  unfolding properties_findings
  properties_findings-Same d ps closed path h =
      Same-bind (property_findings repr search f d (entries ps) path)
        (property_findings repr search g d (entries ps) path) _ _
        (property_findings-Same d (entries ps) path h) (λ found. Same-ok _)

  properties_of-Same :
      (d : Fields) (o : Option Value) (closed : Bool) (path : Text)
      → if_entries (if_dict p) (elim o [ none ↦ null | some v ↦ v ]) ≡ true
      → Same
          (on_dict
            (properties_of o)
            (ok [])
            λ ps. properties_findings repr search f d ps closed path)
          (on_dict
            (properties_of o)
            (ok [])
            λ ps. properties_findings repr search g d ps closed path)
  properties_of-Same d none closed path h = properties_findings-Same d end closed path refl
  properties_of-Same d (some v) closed path h =
      on_dict-Same (λ ps. all (λ (k, w). if_dict p w) (entries ps)) v (ok []) _ _ h (Same-ok [])
        (λ ps. properties_findings-Same d ps closed path)

  inner_findings-Same :
      (item : Value) (rule : Fields) (path : Text)
      → if_dict p (get_or_null (txt "items") rule) ≡ true
      → if_entries (if_dict p) (get_or_null (txt "properties") rule) ≡ true
      → Same
          (inner_findings repr search f item rule path)
          (inner_findings repr search g item rule path)
  unfolding inner_findings
  inner_findings-Same (arr vs) rule path hi hp =
      on_dict-Same p (get_or_null (txt "items") rule) (ok []) _ _ hi (Same-ok [])
        (λ d. item_findings-Same d 0 (elements vs) path)
  inner_findings-Same (obj d) rule path hi hp =
      properties_of-Same d (get (txt "properties") rule) _ path hp
  inner_findings-Same null rule path hi hp = Same-ok []
  inner_findings-Same (bool b) rule path hi hp = Same-ok []
  inner_findings-Same (int n) rule path hi hp = Same-ok []
  inner_findings-Same (float m k) rule path hi hp = Same-ok []
  inner_findings-Same (special x) rule path hi hp = Same-ok []
  inner_findings-Same (str t) rule path hi hp = Same-ok []

  typed_findings-Same :
      (item : Value) (rule : Fields) (path : Text)
      → if_dict p (get_or_null (txt "items") rule) ≡ true
      → if_entries (if_dict p) (get_or_null (txt "properties") rule) ≡ true
      → Same
          (typed_findings repr search f item rule path)
          (typed_findings repr search g item rule path)
  unfolding typed_findings
  typed_findings-Same item rule path hi hp =
      let inner = inner_findings-Same item rule path hi hp in
      elim (Bool-cases (type_ok (get_or_null (txt "type") rule) item)) [
        | inl fits ↦ rw fits (
            Same-bind (lift (own_findings repr search item rule path)) _ _ _ (Same-lift _) (λ found.
              Same-bind (inner_findings repr search f item rule path)
                (inner_findings repr search g item rule path) _ _ inner (λ rest. Same-ok _)))
        | inr other ↦ rw other (Same-ok _)
      ]

  one_of_findings-Same :
      (item : Value) (rules : List Value) (path : Text)
      → all (if_dict p) rules ≡ true
      → Same
          (one_of_findings repr search f item rules path)
          (one_of_findings repr search g item rules path)
  unfolding one_of_findings
  one_of_findings-Same item rules path h =
      Same-bind (matches repr search f item rules path) (matches repr search g item rules path) _ _
        (matches-Same item rules path h) (λ n. Same-ok _)

  rule_findings-Same :
      (item : Value) (rule : Fields) (path : Text)
      → inside p rule ≡ true
      → Same
          (rule_findings repr search f item rule path)
          (rule_findings repr search g item rule path)
  unfolding rule_findings
  rule_findings-Same item rule path h =
      let front = and-left _ _ h in
      let back = and-right _ _ h in
      let typed = typed_findings-Same item rule path (and-left _ _ back) (and-right _ _ back) in
      Same-bind (not_findings repr search f item (get_or_null (txt "not") rule) path)
        (not_findings repr search g item (get_or_null (txt "not") rule) path) _ _
        (not_findings-Same item _ path (and-left _ _ front))
        (λ negated.
          Same-bind _ _ _ _
            (on_list-Same (if_dict p) (get_or_null (txt "oneOf") rule) _ _ _ _ (and-right _ _ front)
              typed (λ vs. one_of_findings-Same item (elements vs) path))
            (λ rest. Same-ok _))

module _ (repr : Value → Text) (search : Text → Text → Option Bool) (schema : Fields) where
  target-Same :
      (n m : ℕ) (r : Result Fault Fields) (item : Value) (path : Text)
      → if_resolved (fits_limit repr schema n) r ≡ true
      → ((rule : Fields)
          → fits_limit repr schema n rule ≡ true
          → Same
              (visit repr search schema n item rule path)
              (visit repr search schema m item rule path))
      → Same
          (lift r >>= λ target. visit repr search schema n item target path)
          (lift r >>= λ target. visit repr search schema m item target path)
  unfolding lift
  target-Same n m (ok target) item path h s = s target h
  target-Same n m (err e) item path h s = (refl, λ k. cc)

  visit-Same :
      (n m : ℕ) (item : Value) (rule : Fields) (path : Text)
      → n ≤ m
      → fits_limit repr schema n rule ≡ true
      → Same (visit repr search schema n item rule path) (visit repr search schema m item rule path)
  unfolding visit fits_limit
  visit-Same zero m item rule path l h = cc
  visit-Same (suc n) zero item rule path l h = absurd (omega arith)
  visit-Same (suc n) (suc m) item rule path l h =
      let deeper : (i : Value) (r : Fields) (q : Text)
          → fits_limit repr schema n r ≡ true
          → Same (visit repr search schema n i r q) (visit repr search schema m i r q) =
        λ i r q. visit-Same n m i r q (omega arith) in
      (elim (get (txt "$ref") rule)
          as (λ o.
            elim o [
              | some reference ↦
                  if_resolved (fits_limit repr schema n) (resolve schema (str_of repr reference))
              | none ↦ inside (fits_limit repr schema n) rule
            ]
              ≡ true
            → Same
                (elim o [
                  | some reference ↦ lift (resolve schema (str_of repr reference)) >>= λ target.
                      visit repr search schema n item target path
                  | none ↦ rule_findings repr search (visit repr search schema n) item rule path
                ])
                (elim o [
                  | some reference ↦ lift (resolve schema (str_of repr reference)) >>= λ target.
                      visit repr search schema m item target path
                  | none ↦ rule_findings repr search (visit repr search schema m) item rule path
                ])) [
                  | some reference ↦ λ e. target-Same n m _ item path e (λ r. deeper item r path)
                  | none ↦ λ e.
                      rule_findings-Same repr search _ _ (fits_limit repr schema n) deeper item rule
                        path e
                ])
        h

  -- A schema whose rules stand at most `n` deep, inside one another and by references, is never too
  -- deep for a limit of `n`: whatever the value is, the validation ends with its findings or with
  -- another exception, and every higher limit gives the same result.
  pub validate_json_schema-ends :
      (n m : ℕ) (value : Value)
      → n ≤ m
      → fits_limit repr schema n schema ≡ true
      → (validate_json_schema repr search schema m value ≢ err too_deep)
        × (validate_json_schema repr search schema n value
            ≡ validate_json_schema repr search schema m value)
  unfolding validate_json_schema
  validate_json_schema-ends n m value l h =
      let (same, ends) = visit-Same n m value schema (txt "$") l h in (λ e. ends (same ∙ e), same)
