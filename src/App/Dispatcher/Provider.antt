-- ===== src/App/Dispatcher/Provider.antt =====
-- The body that goes to the provider determines the delivery that it is for.
use db_first_practice.Common.{◌≡◌, sym, ◌∙◌, some, Text, txt, true, all, refl, is_some, ap}
use db_first_practice.Common.Assoc.{and-left, and-right}
use mathlib.Core.List.{append_assoc}
use db_first_practice.Json.{obj}
use db_first_practice.Json.Members.{member, member_injective, is_scalar-member}
use db_first_practice.Json.Print.{dumps, escape}
use db_first_practice.Json.Utf8.{Bytes, encode_injective, is_scalar, is_some-encode}
use db_first_practice.App.Dispatcher.{provider_fields, provider_body}

layout : Text → Text → Text → Text
layout id amount currency =
    member (txt "{\"operationId\":") id
      (member (txt ",\"amount\":") amount (member (txt ",\"currency\":") currency (txt "}")))

dumps-provider_fields :
    (id amount currency : Text)
    → dumps (obj (provider_fields id amount currency)) ≡ layout id amount currency
unfolding dumps layout member txt escape
dumps-provider_fields id amount currency = simp append_assoc

-- Two deliveries with the same body have the same operation, amount and currency.
provider_body_injective :
    (id id' amount amount' currency currency' : Text) {body : Bytes}
    → provider_body id amount currency ≡ some body
    → provider_body id' amount' currency' ≡ some body
    → (id ≡ id') × (amount ≡ amount') × (currency ≡ currency')
unfolding provider_body layout
provider_body_injective id id' amount amount' currency currency' p q =
    let h =
      sym (dumps-provider_fields id amount currency)
      ∙ encode_injective _ _ p q
      ∙ dumps-provider_fields id' amount' currency' in
    let (a, h1) = member_injective _ _ _ _ _ h in
    let (b, h2) = member_injective _ _ _ _ _ h1 in
    let (c, _) = member_injective _ _ _ _ _ h2 in (a, b, c)

operation_key_scalar : all is_scalar (txt "{\"operationId\":") ≡ true
unfolding txt
operation_key_scalar = refl

amount_key_scalar : all is_scalar (txt ",\"amount\":") ≡ true
unfolding txt
amount_key_scalar = refl

currency_key_scalar : all is_scalar (txt ",\"currency\":") ≡ true
unfolding txt
currency_key_scalar = refl

-- A body holds no lone surrogate.
pub is_scalar-provider_body :
    (id amount currency : Text) {body : Bytes}
    → provider_body id amount currency ≡ some body
    → (all is_scalar id ≡ true) × (all is_scalar amount ≡ true) × (all is_scalar currency ≡ true)
unfolding provider_body layout
is_scalar-provider_body id amount currency {body} e =
    let printed : all is_scalar (layout id amount currency) ≡ true =
      sym (ap (all is_scalar) (dumps-provider_fields id amount currency))
      ∙ sym (is_some-encode _)
      ∙ ap is_some e in
    let first = sym (is_scalar-member _ id _ operation_key_scalar) ∙ printed in
    let second = sym (is_scalar-member _ amount _ amount_key_scalar) ∙ and-right _ _ first in
    let third = sym (is_scalar-member _ currency _ currency_key_scalar) ∙ and-right _ _ second in
    (and-left _ _ first, and-left _ _ second, and-left _ _ third)
