-- ===== src/App/Dispatcher/ReadBack.antt =====
-- Python/app/dispatcher.py: the body that is posted to the provider, read as JSON.
use db_first_practice.Common.{◌≡◌, refl, ap, ◌∙◌, some, Text, txt, text_eq}
use db_first_practice.Json.{obj, end, put}
use db_first_practice.Json.Parse.ReadBack.{put_all, loads-dumps, read_json, read_json-encode}
use db_first_practice.Json.Utf8.{Bytes}
use db_first_practice.App.Dispatcher.{provider_fields, provider_body}
use db_first_practice.App.Dispatcher.Provider.{is_scalar-provider_body}

put_all-provider_fields :
    (id amount currency : Text)
    → put_all (provider_fields id amount currency) end ≡ provider_fields id amount currency
unfolding put_all put txt text_eq
put_all-provider_fields id amount currency = refl

-- The body of a delivery, read as UTF-8 and JSON, is its operation, amount and currency.
pub read_json-provider_body :
    (id amount currency : Text) {body : Bytes}
    → provider_body id amount currency ≡ some body
    → read_json body ≡ some (obj (provider_fields id amount currency))
unfolding provider_body txt
read_json-provider_body id amount currency {body} e =
    let (a, b, c) = is_scalar-provider_body id amount currency e in
    read_json-encode _ e (
      loads-dumps _ _ _ (refl, a, (refl, b, (refl, c, tt)))
      ∙ ap (λ d. some (obj d)) (put_all-provider_fields id amount currency))
