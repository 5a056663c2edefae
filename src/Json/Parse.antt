-- ===== src/Json/Parse.antt =====
-- `json.loads`, as a machine that reads one character at a time and keeps the open arrays and
-- objects on a stack; the value where no limit of the interpreter is passed (Limits). Python also reads the
-- literals NaN, Infinity and -Infinity.
mod Texts
mod Numbers
pub mod ReadBack
pub mod Limits
use db_first_practice.Common.{
  ℕ, ◌+◌, ◌-◌, ◌*◌, ◌^◌, Bool, true, false, ◌&&◌, ◌||◌, Option, none, some, List, [], ◌∷◌, ◌==◌,
  ltb, leb, if◌then◌else◌, Text, text_eq, txt,
}
use db_first_practice.Common.Int.{ℤ, pos, neg}
use db_first_practice.Json.Defs.{
  not_a_number, positive_infinity, negative_infinity, Value, null, bool, int, float, special, str,
  arr, obj, Items, nil, cons, Fields, end, put,
}
use db_first_practice.Json.Print.{quote}
use db_first_practice.Json.Scan.{Mode, plain, Move, stop, fail, go, emit, move, hex_value}

pub data Phase : Type 0 where
  minus zero_digit whole point fraction exponent exponent_sign exponent_digits : Phase

-- a number that is being read: its digits so far, how many stand behind the point, its exponent
pub record Number : Type 0 where
  pub negative : Bool
  pub digits : ℕ
  pub places : ℕ
  pub lowered : Bool
  pub power : ℕ
  pub phase : Phase

pub data Frame : Type 0 where
  in_array : Items → Frame
  in_object : Fields → Text → Frame

pub data Control : Type 0 where
  value_due item_or_close key_or_close key_due : Control
  colon_due : Text → Control
  in_text : Bool → Mode → Text → Control
  in_number : Number → Control
  in_word : Text → Value → Control
  done : Value → Control

abbrev pub State : Type 0
State = Control × List Frame

is_space : ℕ → Bool
is_space c = (c == 32 || c == 9) || (c == 10 || c == 13)

is_digit : ℕ → Bool
is_digit c = leb 48 c && leb c 57

unfoldable pub signed : Bool → ℕ → ℤ
signed true n = neg n
signed false n = pos n

unfoldable pub decimal : Bool → ℕ → ℕ → Bool → ℕ → Value
unfolding signed
decimal negative digits places true power = float (signed negative digits) (places + power)
decimal negative digits places false power =
    if leb places power
    then float (signed negative (digits * 10 ^ (power - places))) 0
    else float (signed negative digits) (places - power)

-- the number, if it may stop here
number_value : Phase → Number → Option Value
unfolding signed decimal
number_value zero_digit n = some (int (signed n.negative n.digits))
number_value whole n = some (int (signed n.negative n.digits))
number_value fraction n = some (decimal n.negative n.digits n.places false 0)
number_value exponent_digits n = some (decimal n.negative n.digits n.places n.lowered n.power)
number_value _ n = none

add_digit : Number → ℕ → Phase → Number
add_digit n c p = record n { digits = n.digits * 10 + (c - 48); phase = p }

add_place : Number → ℕ → Number
add_place n c = record n {
  digits = n.digits * 10 + (c - 48);
  places = n.places + 1;
  phase = fraction;
}

add_power : Number → ℕ → Number
add_power n c = record n { power = n.power * 10 + (c - 48); phase = exponent_digits }

-- the exponent's letter, or the point
after_whole : Number → ℕ → Option Number
after_whole n c =
    if c == b'.'
    then some (record n { phase = point })
    else if c == b'e' || c == b'E'
    then some (record n { phase = exponent })
    else none

-- the number with one more character, if that belongs to it
extend : Phase → Number → ℕ → Option Number
unfolding is_digit add_digit add_place add_power after_whole
extend minus n c =
    if c == 48
    then some (add_digit n c zero_digit)
    else if is_digit c
    then some (add_digit n c whole)
    else none
extend zero_digit n c = after_whole n c
extend whole n c = if is_digit c then some (add_digit n c whole) else after_whole n c
extend point n c = if is_digit c then some (add_place n c) else none
extend fraction n c =
    if is_digit c
    then some (add_place n c)
    else if c == b'e' || c == b'E'
    then some (record n { phase = exponent })
    else none
extend exponent n c =
    if c == b'-'
    then some (record n { lowered = true; phase = exponent_sign })
    else if c == b'+'
    then some (record n { phase = exponent_sign })
    else if is_digit c
    then some (add_power n c)
    else none
extend exponent_sign n c = if is_digit c then some (add_power n c) else none
extend exponent_digits n c = if is_digit c then some (add_power n c) else none

append_item : Items → Value → Items
append_item nil v = cons v nil
append_item (cons w ws) v = cons w (append_item ws v)

-- a high and a low surrogate that stand together are one character
pub join_pairs : Text → Text
join_pairs [] = []
join_pairs (h ∷ []) = h ∷ []
join_pairs (h ∷ l ∷ s) =
    let joined = (0x10000 + (h - 0xD800) * 0x400 + (l - 0xDC00)) ∷ join_pairs s in
    let apart = h ∷ join_pairs (l ∷ s) in
    if (leb 0xD800 h && ltb h 0xDC00) && (leb 0xDC00 l && ltb l 0xE000) then joined else apart

pub rev_onto : Text → Text → Text
rev_onto [] out = out
rev_onto (c ∷ s) out = rev_onto s (c ∷ out)

pub close_text : Bool → Text → List Frame → State
unfolding join_pairs rev_onto
close_text true acc frames = (colon_due (join_pairs (rev_onto acc [])), frames)
close_text false acc frames = (done (str (join_pairs (rev_onto acc []))), frames)

text_move : Bool → Text → List Frame → Move → Option State
unfolding close_text
text_move key acc frames stop = some (close_text key acc frames)
text_move key acc frames fail = none
text_move key acc frames (go m) = some (in_text key m acc, frames)
text_move key acc frames (emit d) = some (in_text key plain (d ∷ acc), frames)

fresh : Bool → Number
fresh b = record { negative = b; digits = 0; places = 0; lowered = false; power = 0; phase = minus }

-- the first character of a value
open_value : List Frame → ℕ → Option State
unfolding txt extend fresh
open_value frames c =
    if c == quote
    then some (in_text false plain [], frames)
    else if c == b'{'
    then some (key_or_close, in_object end [] ∷ frames)
    else if c == b'['
    then some (item_or_close, in_array nil ∷ frames)
    else if c == b'n'
    then some (in_word (txt "ull") null, frames)
    else if c == b't'
    then some (in_word (txt "rue") (bool true), frames)
    else if c == b'f'
    then some (in_word (txt "alse") (bool false), frames)
    else if c == b'N'
    then some (in_word (txt "aN") (special not_a_number), frames)
    else if c == b'I'
    then some (in_word (txt "nfinity") (special positive_infinity), frames)
    else if c == b'-'
    then some (in_number (fresh true), frames)
    else elim (extend minus (fresh false) c) [ none ↦ none | some n ↦ some (in_number n, frames) ]

-- what may follow a value
after_value : Value → List Frame → ℕ → Option State
unfolding is_space append_item
after_value v [] c = if is_space c then some (done v, []) else none
after_value v (in_array vs ∷ frames) c =
    if is_space c
    then some (done v, in_array vs ∷ frames)
    else if c == b','
    then some (value_due, in_array (append_item vs v) ∷ frames)
    else if c == b']'
    then some (done (arr (append_item vs v)), frames)
    else none
after_value v (in_object d k ∷ frames) c =
    if is_space c
    then some (done v, in_object d k ∷ frames)
    else if c == b','
    then some (key_due, in_object (put k v d) [] ∷ frames)
    else if c == b'}'
    then some (done (obj (put k v d)), frames)
    else none

name_key : Text → List Frame → Option State
name_key k (in_object d _ ∷ frames) = some (value_due, in_object d k ∷ frames)
name_key k _ = none

close_array : List Frame → Option State
close_array (in_array vs ∷ frames) = some (done (arr vs), frames)
close_array _ = none

close_object : List Frame → Option State
close_object (in_object d k ∷ frames) = some (done (obj d), frames)
close_object _ = none

-- `-Infinity`, behind its sign
minus_word : Phase → List Frame → ℕ → Option State
unfolding txt
minus_word minus frames c =
    if c == b'I' then some (in_word (txt "nfinity") (special negative_infinity), frames) else none
minus_word _ frames c = none

step : Control → List Frame → ℕ → Option State
unfolding minus_word open_value after_value name_key close_array close_object text_move extend
    number_value is_space
step value_due frames c = if is_space c then some (value_due, frames) else open_value frames c
step item_or_close frames c =
    if is_space c
    then some (item_or_close, frames)
    else if c == b']'
    then close_array frames
    else open_value frames c
step key_or_close frames c =
    if is_space c
    then some (key_or_close, frames)
    else if c == b'}'
    then close_object frames
    else if c == quote
    then some (in_text true plain [], frames)
    else none
step key_due frames c =
    if is_space c
    then some (key_due, frames)
    else if c == quote
    then some (in_text true plain [], frames)
    else none
step (colon_due k) frames c =
    if is_space c then some (colon_due k, frames) else if c == b':' then name_key k frames else none
step (in_text key m acc) frames c = text_move key acc frames (move m c)
step (in_number n) frames c = elim (extend n.phase n c) [
  | some n' ↦ some (in_number n', frames)
  | none ↦ elim (number_value n.phase n) [
    | none ↦ minus_word n.phase frames c
    | some v ↦ after_value v frames c
  ]
]
step (in_word [] v) frames c = after_value v frames c
step (in_word (w ∷ ws) v) frames c = if c == w then some (in_word ws v, frames) else none
step (done v) frames c = after_value v frames c

finish : Control → List Frame → Option Value
unfolding number_value
finish (done v) [] = some v
finish (in_word [] v) [] = some v
finish (in_number n) [] = number_value n.phase n
finish _ _ = none

pub run : State → Text → Option Value
unfolding step finish
run (control, frames) [] = finish control frames
run (control, frames) (c ∷ s) = elim (step control frames c) [ none ↦ none | some t ↦ run t s ]

-- `none` is JSONDecodeError
unfoldable pub loads : Text → Option Value
unfolding run move hex_value put text_eq txt
loads s = run (value_due, []) s
