-- ===== src/Json/Parse/ReadBack.antt =====
-- What `json.loads` reads from a printed object of texts and natural numbers.
use db_first_practice.Common.{
  ℕ, zero, suc, ◌≡◌, refl, ap, ◌∙◌, true, false, none, some, List, [], ◌∷◌, ◌++◌, arith, Text, all,
  Option,
}
use mathlib.Core.List.{append_assoc}
use db_first_practice.Common.Int.{pos, negsuc}
use db_first_practice.Json.Defs.{
  Value, null, bool, int, float, special, arr, obj, str, Fields, end, field, put,
}
use db_first_practice.Json.Print.{
  quote, escape, print_string, print_digits, print_nat, print_value, print_fields, print_int,
  join_entries, dumps,
}
use db_first_practice.Json.Scan.{plain, scan-escape}
use db_first_practice.Json.Utf8.{Bytes, is_scalar, encode, decode, decode-encode}
use db_first_practice.Json.Members.{quoted}
use db_first_practice.Json.Parse.{
  Frame, in_object, value_due, key_due, key_or_close, colon_due, done, close_text, step, run,
  open_value, after_value, is_space, loads, name_key, finish,
}
use db_first_practice.Json.Parse.Texts.{run-scan, read_text}
use db_first_practice.Json.Parse.Numbers.{
  ends_value, run-digits, run-ends, zero_ends, print_digits-append,
}

-- `run` reads the text of a value, where one is due
abbrev Reads : Value → Text → Type 0
Reads v t =
    (c : ℕ) (x : Text) (frames : List Frame)
    → ends_value c ≡ true
    → run (value_due, frames) (t ++ c ∷ x) ≡ run (done v, frames) (c ∷ x)

print_string-append : (s x : Text) → print_string s ++ x ≡ quoted s x
unfolding print_string
print_string-append s x = ap (λ t. quote ∷ t) (append_assoc (escape s) (quote ∷ []) x)

-- a text in quotes
Reads-str : (s : Text) → all is_scalar s ≡ true → Reads (str s) (print_string s)
unfolding run step close_text
Reads-str s h c x frames e =
    ap (run (value_due, frames)) (print_string-append s (c ∷ x))
    ∙ run-scan false frames plain _ [] (scan-escape s (c ∷ x))
    ∙ ap (λ t. run (done (str t), frames) (c ∷ x)) (read_text s h)

-- a key in quotes, where a key is due
run-key :
    (k x : Text) (frames : List Frame)
    → all is_scalar k ≡ true
    → run (key_due, frames) (print_string k ++ x) ≡ run (colon_due k, frames) x
unfolding run step close_text
run-key k x frames h =
    ap (run (key_due, frames)) (print_string-append k x)
    ∙ run-scan true frames plain _ [] (scan-escape k x)
    ∙ ap (λ t. run (colon_due t, frames) x) (read_text k h)

-- a natural number
Reads-int : (n : ℕ) → Reads (int (pos n)) (print_nat n)
unfolding print_nat print_digits
Reads-int zero c x frames h = zero_ends c x frames h
Reads-int (suc n) c x frames h =
    ap (run (value_due, frames)) (print_digits-append (suc (suc n)) (suc n) [] (c ∷ x))
    ∙ run-digits (suc (suc n)) (suc n) (c ∷ x) frames (omega arith) (omega arith)
    ∙ run-ends (suc n) c x frames h

-- A text of scalar values, or a natural number.
abbrev pub IsAtom : Value → Type 0
IsAtom (str s) = all is_scalar s ≡ true
IsAtom (int (pos n)) = Unit {0}
IsAtom _ = ⊥

-- An object of such values.
abbrev pub IsFlat : Fields → Type 0
IsFlat end = Unit {0}
IsFlat (field k v d) = (all is_scalar k ≡ true) × IsAtom v × IsFlat d

-- the fields, put one by one
unfoldable pub put_all : Fields → Fields → Fields
put_all end e = e
put_all (field k v d) e = put_all d (put k v e)

abbrev as_is : List (Text × Text) → List (Text × Text)
as_is es = es

Reads-atom : (v : Value) → IsAtom v → Reads v (print_value as_is v)
unfolding print_value print_int
Reads-atom (str s) h = Reads-str s h
Reads-atom (int (pos n)) h = Reads-int n
Reads-atom (int (negsuc n)) h = absurd h
Reads-atom null h = absurd h
Reads-atom (bool b) h = absurd h
Reads-atom (float m k) h = absurd h
Reads-atom (special x) h = absurd h
Reads-atom (arr vs) h = absurd h
Reads-atom (obj d) h = absurd h

-- a key, and its value up to the character that ends it
run-member :
    (k : Text) (v : Value) (e : Fields) (j : Text) (c : ℕ) (x : Text)
    → all is_scalar k ≡ true
    → IsAtom v
    → ends_value c ≡ true
    → run (key_due, in_object e j ∷ []) (print_string k ++ b':' ∷ (print_value as_is v ++ c ∷ x))
      ≡ run (done v, in_object e k ∷ []) (c ∷ x)
unfolding run step name_key
run-member k v e j c x hk hv hc =
    run-key k _ (in_object e j ∷ []) hk ∙ Reads-atom v hv c x (in_object e k ∷ []) hc

run-comma :
    (k : Text) (v : Value) (e : Fields) (x : Text)
    → run (done v, in_object e k ∷ []) (b',' ∷ x) ≡ run (key_due, in_object (put k v e) [] ∷ []) x
unfolding run step after_value is_space
run-comma k v e x = refl

run-fields :
    (k : Text) (v : Value) (d e : Fields) (j : Text)
    → IsFlat (field k v d)
    → run
        (key_due, in_object e j ∷ [])
        (join_entries (print_fields as_is (field k v d)) ++ b'}' ∷ [])
      ≡ some (obj (put_all (field k v d) e))
unfolding print_fields join_entries put_all
run-fields k v end e j (hk, hv, _) =
    ap (run (key_due, in_object e j ∷ []))
      (append_assoc (print_string k) (b':' ∷ print_value as_is v) (b'}' ∷ []))
    ∙ run-member k v e j b'}' [] hk hv refl
    ∙ unfold run step after_value finish is_space in refl
run-fields k v (field k' v' d) e j (hk, hv, hd) =
    let rest = join_entries (print_fields as_is (field k' v' d)) in
    ap (run (key_due, in_object e j ∷ [])) (
      append_assoc (print_string k) (b':' ∷ (print_value as_is v ++ b',' ∷ rest)) (b'}' ∷ [])
      ∙ ap (λ t. print_string k ++ b':' ∷ t)
          (append_assoc (print_value as_is v) (b',' ∷ rest) (b'}' ∷ [])))
    ∙ run-member k v e j b',' (rest ++ b'}' ∷ []) hk hv refl
    ∙ run-comma k v e (rest ++ b'}' ∷ [])
    ∙ run-fields k' v' d (put k v e) [] hd

run-brace :
    (x : Text) → run (value_due, []) (b'{' ∷ x) ≡ run (key_or_close, in_object end [] ∷ []) x
unfolding run step open_value is_space
run-brace x = refl

run-open :
    (k : Text) (v : Value) (d : Fields) (x : Text) (frames : List Frame)
    → run (key_or_close, frames) (join_entries (print_fields as_is (field k v d)) ++ x)
      ≡ run (key_due, frames) (join_entries (print_fields as_is (field k v d)) ++ x)
unfolding run step is_space print_fields join_entries print_string
run-open k v end x frames = refl
run-open k v (field k' v' d) x frames = refl

-- What `json.dumps` prints of such an object, `json.loads` reads as the object, its fields put one by
-- one.
pub loads-dumps :
    (k : Text) (v : Value) (d : Fields)
    → IsFlat (field k v d)
    → loads (dumps (obj (field k v d))) ≡ some (obj (put_all (field k v d) end))
unfolding loads dumps print_value
loads-dumps k v d h =
    run-brace (join_entries (print_fields as_is (field k v d)) ++ b'}' ∷ [])
    ∙ run-open k v d (b'}' ∷ []) (in_object end [] ∷ [])
    ∙ run-fields k v d end [] h

-- `json.loads(body)` on bytes
abbrev pub read_json : Bytes → Option Value
read_json b = elim (decode b) [ none ↦ none | some text ↦ loads text ]

-- The bytes of a text are read as what the text is read as.
pub read_json-encode :
    (t : Text) {b : Bytes} {v : Value} → encode t ≡ some b → loads t ≡ some v → read_json b ≡ some v
read_json-encode t {b} e h = rw (read_json, decode-encode t e) h
