-- ===== src/Week4/Report.antt =====
-- What a report may show: redaction, the keys it must not have, and its layout
-- (task/week4/autocheck/public_check.py). A tuple or a set of the source is a list here.
pub mod Redacted
pub mod Forbidden
use db_first_practice.Common.{
  ℕ, suc, ◌+◌, Bool, true, false, ◌||◌, Option, none, some, List, [], ◌∷◌, ◌++◌, ◌==◌, ltb,
  if◌then◌else◌, Text, txt, text_eq, mem_text, any, take, is_empty,
}
use db_first_practice.Json.{
  Value, null, bool, int, float, special, str, arr, obj, Items, nil, cons, Fields, end, field, get,
  get_or_null, str_is,
}
use db_first_practice.Builtins.Find.{fold, starts_with, contains, replace_from}

abbrev pub secret_words : List Text
secret_words =
    txt "authorization"
    ∷ txt "password"
    ∷ txt "secret"
    ∷ txt "token"
    ∷ txt "signature"
    ∷ txt "capability"
    ∷ txt "payload"
    ∷ txt "body"
    ∷ []

-- a suffix of the key is one of the words, up to a last newline
unfoldable pub is_secret_key : Text → Bool
is_secret_key [] = false
is_secret_key (c ∷ s) =
    any (λ word. text_eq (fold (c ∷ s)) word || text_eq (fold (c ∷ s)) (word ++ 10 ∷ []))
      secret_words
    || is_secret_key s

-- the loop over the secrets that must not be shown
unfoldable pub hide : List Text → Text → Text
hide [] s = s
hide (secret ∷ secrets) s =
    hide secrets (if is_empty secret then s else replace_from 0 secret (txt "[redacted]") s)

unfoldable mutual
  unfolding hide

  pub redact : List Text → ℕ → Value → Value
  redact sensitive depth (special x) = if ltb 12 depth then str (txt "[depth-limit]") else special x
  redact sensitive depth (str s) =
      if ltb 12 depth then str (txt "[depth-limit]") else str (take 2000 (hide sensitive s))
  redact sensitive depth (arr vs) =
      let shown = redact_items sensitive (suc depth) vs in
      if ltb 12 depth then str (txt "[depth-limit]") else arr shown
  redact sensitive depth (obj d) =
      let shown = redact_fields sensitive (suc depth) d in
      if ltb 12 depth then str (txt "[depth-limit]") else obj shown
  redact sensitive depth null = if ltb 12 depth then str (txt "[depth-limit]") else null
  redact sensitive depth (bool b) = if ltb 12 depth then str (txt "[depth-limit]") else bool b
  redact sensitive depth (int n) = if ltb 12 depth then str (txt "[depth-limit]") else int n
  redact sensitive depth (float m k) = if ltb 12 depth then str (txt "[depth-limit]") else float m k

  pub redact_items : List Text → ℕ → Items → Items
  redact_items sensitive depth nil = nil
  redact_items sensitive depth (cons v vs) =
      cons (redact sensitive depth v) (redact_items sensitive depth vs)

  pub redact_fields : List Text → ℕ → Fields → Fields
  redact_fields sensitive depth end = end
  redact_fields sensitive depth (field k v d) =
      let shown = redact sensitive depth v in
      field k (if is_secret_key k then str (txt "[redacted]") else shown)
        (redact_fields sensitive depth d)

abbrev pub forbidden_words : List Text
forbidden_words =
    txt "score"
    ∷ txt "earned"
    ∷ txt "points"
    ∷ txt "criterion"
    ∷ txt "hmac"
    ∷ txt "secret"
    ∷ txt "token"
    ∷ txt "signature"
    ∷ txt "capability"
    ∷ txt "payload"
    ∷ txt "body"
    ∷ []

unfoldable pub is_forbidden_key : Text → Bool
is_forbidden_key key = any (λ word. contains word (fold key)) forbidden_words

unfoldable mutual
  pub report_has_forbidden_keys : Value → Bool
  report_has_forbidden_keys (obj d) = fields_forbidden d
  report_has_forbidden_keys (arr vs) = items_forbidden vs
  report_has_forbidden_keys _ = false

  pub items_forbidden : Items → Bool
  items_forbidden nil = false
  items_forbidden (cons v vs) = report_has_forbidden_keys v || items_forbidden vs

  pub fields_forbidden : Fields → Bool
  fields_forbidden end = false
  fields_forbidden (field k v d) =
      (is_forbidden_key k || report_has_forbidden_keys v) || fields_forbidden d

abbrev cons_name : Option Value → Option Items → Option Items
cons_name (some v) (some vs) = some (cons v vs)
cons_name _ _ = none

-- `[item["name"] for item in checks if item.get("status") == "failed"]`; `none` is KeyError
unfoldable pub failed_checks : List Fields → Option Items
failed_checks [] = some nil
failed_checks (item ∷ checks) =
    let rest = failed_checks checks in
    if str_is (txt "failed") (get_or_null (txt "status") item)
    then cons_name (get (txt "name") item) rest
    else rest

abbrev pub dicts : List Fields → Items
dicts [] = nil
dicts (d ∷ ds) = cons (obj d) (dicts ds)

unfoldable pub build_report : Text → Text → Text → List Fields → List Fields → Option Fields
unfolding failed_checks
build_report started_at finished_at status checks commands = elim (failed_checks checks) [
  | none ↦ none
  | some failed ↦ some (
      field (txt "manifestVersion") (str (txt "week-4-public-report/v1")) (
        field (txt "toolVersion") (str (txt "week-4-public-check/0.4")) (
          field (txt "timestamps")
            (obj (
              field (txt "startedAt") (str started_at)
                (field (txt "finishedAt") (str finished_at) end)))
            (field (txt "status") (str status) (
              field (txt "checks") (arr (dicts checks)) (
                field (txt "failedChecks") (arr failed)
                  (field (txt "commands") (arr (dicts commands)) end)))))))
]
