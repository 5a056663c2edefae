-- ===== src/Json/Spaced.antt =====
-- `json.dumps(value, ensure_ascii=False)`, which puts a space after each comma and colon.
use db_first_practice.Common.{List, [], ◌∷◌, ◌++◌, Text, txt, true, false}
use db_first_practice.Json.{
  Value, null, bool, int, float, special, str, arr, obj, Items, nil, cons, Fields, end, field,
}
use db_first_practice.Json.Print.{print_string, print_int, print_float, print_special}

unfoldable pub join_spaced : List Text → Text
join_spaced [] = []
join_spaced (t ∷ []) = t
join_spaced (t ∷ u ∷ ts) = t ++ (txt ", " ++ join_spaced (u ∷ ts))

unfoldable mutual
  unfolding join_spaced

  pub spaced : Value → Text
  spaced null = txt "null"
  spaced (bool true) = txt "true"
  spaced (bool false) = txt "false"
  spaced (int n) = print_int n
  spaced (float m k) = print_float m k
  spaced (special x) = print_special x
  spaced (str s) = print_string s
  spaced (arr vs) = txt "[" ++ (join_spaced (spaced_items vs) ++ txt "]")
  spaced (obj d) = txt "{" ++ (join_spaced (spaced_fields d) ++ txt "}")

  pub spaced_items : Items → List Text
  spaced_items nil = []
  spaced_items (cons v vs) = spaced v ∷ spaced_items vs

  pub spaced_fields : Fields → List Text
  spaced_fields end = []
  spaced_fields (field k v d) = (print_string k ++ (txt ": " ++ spaced v)) ∷ spaced_fields d
