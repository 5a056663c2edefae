-- ===== src/Json/Tests.antt =====
-- Runs of the printer and the parser on small documents.
use db_first_practice.Common.{◌≡◌, refl, none, some, true, [], ◌∷◌, txt}
use db_first_practice.Common.Int.{pos, negsuc}
use db_first_practice.Json.{
  null, bool, int, float, special, not_a_number, positive_infinity, negative_infinity, str, arr,
  obj, nil, cons, end, field,
}
use db_first_practice.Json.Parse.{loads}
use db_first_practice.Json.Print.{dumps, dumps_sorted}

loads_nested :
    loads (txt "{\"b\": [1, -2.50, true, null], \"a\": {\"c\": \"x\\n\\u0041\"}}")
    ≡ some (
        obj (
          field
            (txt "b")
            (arr
              (cons (int (pos 1)) (cons (float (negsuc 249) 2) (cons (bool true) (cons null nil)))))
            (field (txt "a") (obj (field (txt "c") (str (txt "x\nA")) end)) end)))
unfolding loads txt
loads_nested = refl

loads_last_key_wins :
    loads (txt "{\"a\":1,\"a\":2}") ≡ some (obj (field (txt "a") (int (pos 2)) end))
unfolding loads txt
loads_last_key_wins = refl

loads_pair : loads (txt "\"\\ud83d\\ude00\"") ≡ some (str (0x1F600 ∷ []))
unfolding loads txt
loads_pair = refl

loads_lone : loads (txt "\"\\ud83d\"") ≡ some (str (0xD83D ∷ []))
unfolding loads txt
loads_lone = refl

loads_special :
    loads (txt "[NaN,Infinity,-Infinity]")
    ≡ some (
        arr (
          cons
            (special not_a_number)
            (cons (special positive_infinity) (cons (special negative_infinity) nil))))
unfolding loads txt
loads_special = refl

loads_garbage : loads (txt "{\"a\":1} x") ≡ none
unfolding loads txt
loads_garbage = refl

loads_open : loads (txt "{\"a\":[1,") ≡ none
unfolding loads txt
loads_open = refl

dumps_order :
    dumps (obj (field (txt "b") (int (negsuc 11)) (field (txt "a") (str (txt "q\"\t")) end)))
    ≡ txt "{\"b\":-12,\"a\":\"q\\\"\\t\"}"
unfolding dumps txt
dumps_order = refl

dumps_sorted_order :
    dumps_sorted (obj (field (txt "b") (int (pos 120)) (field (txt "a") (bool true) end)))
    ≡ txt "{\"a\":true,\"b\":120}"
unfolding dumps_sorted txt
dumps_sorted_order = refl
