-- ===== src/Week4/Compose/Ports.antt =====
-- The ports that a service publishes: `_published_ports`, `_published_host_ips` and `_target_ports`.
-- A set is the list of its elements in the order they are added. Digits are ASCII digits.
pub mod Sets
use db_first_practice.Common.{
  ℕ, zero, suc, ◌+◌, ◌-◌, ◌*◌, ◌/◌, ◌^◌, Bool, true, false, not, ◌&&◌, ◌||◌, Option, none, some,
  List, [], ◌∷◌, ◌++◌, Text, txt, is_empty, ◌==◌, leb, if◌then◌else◌,
}
use db_first_practice.Common.Int.{ℤ, pos, negsuc, neg}
use db_first_practice.Common.Results.{Result, ok, err, ◌>>=◌}
use db_first_practice.Json.{
  special, positive_infinity, negative_infinity, Value, null, bool, int, float, str, arr, obj,
  Fields, get_or_null, truthy, has_key,
}
use db_first_practice.Builtins.{before, parse_int}
use db_first_practice.Builtins.Find.{after_prefix, starts_with, split, rsplit, after_last}
use db_first_practice.Findings.{Fault, overflow_error, str_of, iterate}

-- the digits at the start of a text, and the rest
unfoldable pub span_digits : Text → Text × Text
span_digits [] = ([], [])
span_digits (c ∷ s) =
    let (digits, rest) = span_digits s in
    if leb 48 c && leb c 57 then (c ∷ digits, rest) else ([], c ∷ s)

-- `:-(\d+)}` at the start of a text: the digits and the rest
unfoldable pub default_here : Text → Option (Text × Text)
unfolding span_digits after_prefix
default_here s = elim (after_prefix (txt ":-") s) [
  | none ↦ none
  | some t ↦
      (let (digits, rest) = span_digits t in
        elim rest [
          | [] ↦ none
          | c ∷ r ↦ (if c == b'}' && not (is_empty digits) then some (digits, r) else none)
        ])
]

-- `re.search(r":-(\d+)}(?=:)", text)`
unfoldable pub search_default : Text → Option Text
unfolding default_here
search_default [] = none
search_default (c ∷ s) =
    let later = search_default s in
    elim (default_here (c ∷ s)) [
      | none ↦ later
      | some (digits, rest) ↦ (if starts_with (txt ":") rest then some digits else later)
    ]

-- the end of `\$\{[^}]+:-(\d+)}`, after `${`: whether a character has been read, and what is left
unfoldable pub default_end : Bool → Text → Option Text
unfolding default_here
default_end some_read [] = none
default_end some_read (c ∷ s) =
    let later = if c == b'}' then none else default_end true s in
    elim (default_here (c ∷ s)) [
      | none ↦ later
      | some (digits, rest) ↦ (if some_read && is_empty rest then some digits else later)
    ]

-- `re.fullmatch(r"\$\{[^}]+:-(\d+)}", text)`
unfoldable pub match_default : Text → Option Text
unfolding default_end after_prefix
match_default s = elim (after_prefix (txt "${") s) [
  | none ↦ none
  | some body ↦ default_end false body
]

unfoldable pub all_digits : Text → Bool
unfolding span_digits
all_digits s = not (is_empty s) && is_empty (span_digits s).1

-- `start`, `start + 1` and so on, `count` numbers
unfoldable pub count_up : ℕ → ℕ → List ℤ
count_up start zero = []
count_up start (suc count) = pos start ∷ count_up (suc start) count

-- `range(start, end + 1)`, if it is not empty and has at most 1001 numbers
unfoldable pub port_range : Option ℤ → Option ℤ → List ℤ
unfolding count_up
port_range (some (pos first)) (some (pos last)) =
    if leb first last && leb (last - first) 1000 then count_up first (suc (last - first)) else []
port_range _ _ = []

-- a text that `re.fullmatch(r"\d+-\d+", text)` matches
unfoldable pub read_range : Text → Option (List ℤ)
unfolding all_digits
read_range s = elim (split 45 s) [
  | none ↦ none
  | some (a, b) ↦
      (if all_digits a && all_digits b then some (port_range (parse_int a) (parse_int b)) else none)
]

-- `int(value)` of what is no infinity; `none` is TypeError or ValueError
unfoldable pub int_of : Value → Option ℤ
int_of (str s) = parse_int s
int_of (int n) = some n
int_of (bool true) = some (pos 1)
int_of (bool false) = some (pos 0)
int_of (float (pos m) k) = some (pos (m / 10 ^ k))
int_of (float (negsuc m) k) = some (neg (suc m / 10 ^ k))
int_of v = none

abbrev listed : Option ℤ → List ℤ
listed none = []
listed (some n) = n ∷ []

-- the ports that the value of one item adds; `int` of an infinity raises OverflowError, which is not caught
unfoldable pub ports_of : Value → Result Fault (List ℤ)
unfolding read_range int_of
ports_of (str s) = ok (elim (read_range s) [ some ports ↦ ports | none ↦ listed (int_of (str s)) ])
ports_of (special positive_infinity) = err overflow_error
ports_of (special negative_infinity) = err overflow_error
ports_of v = ok (listed (int_of v))

unfoldable pub without_default : Value → Value
unfolding match_default
without_default (str s) = elim (match_default s) [ some digits ↦ str digits | none ↦ str s ]
without_default v = v

unfoldable pub published_value : Value → Value
unfolding search_default
published_value (obj item) = get_or_null (txt "published") item
published_value (str item) =
    let s = before 47 item in
    elim (search_default s) [
      | some digits ↦ str digits
      | none ↦ elim (rsplit 58 s) [ none ↦ null | some (a, b) ↦ str (after_last 58 a) ]
    ]
published_value v = null

unfoldable pub target_value : Value → Value
target_value (obj item) = get_or_null (txt "target") item
target_value (str item) = str (after_last 58 (before 47 item))
target_value v = null

unfoldable pub add_all {ℓ} :
    {A : Type ℓ} → (Value → Result Fault (List A)) → List Value → Result Fault (List A)
add_all f [] = ok []
add_all f (item ∷ items) = do found ← f item; rest ← add_all f items; ok (found ++ rest)

-- `for item in service.get("ports", []) or []`, with what each item adds
unfoldable pub over_ports {ℓ} :
    {A : Type ℓ} → (Value → Result Fault (List A)) → Value → Result Fault (List A)
unfolding add_all
over_ports f (obj service) = do items ← iterate (get_or_null (txt "ports") service); add_all f items
over_ports f v = ok []

unfoldable pub published_ports : Value → Result Fault (List ℤ)
published_ports service =
    over_ports (λ item. ports_of (without_default (published_value item))) service

unfoldable pub target_ports : Value → Result Fault (List ℤ)
target_ports service = over_ports (λ item. ports_of (target_value item)) service

-- `str(item.get("host_ip") or "")`, or 127.0.0.1 where the text starts with it
unfoldable pub host_ips_of : (Value → Text) → Value → List Text
host_ips_of repr (obj item) =
    let ip = get_or_null (txt "host_ip") item in (if truthy ip then str_of repr ip else []) ∷ []
host_ips_of repr (str item) =
    (if starts_with (txt "127.0.0.1:") (before 47 item) then txt "127.0.0.1" else []) ∷ []
host_ips_of repr v = []

unfoldable pub published_host_ips : (Value → Text) → Value → Result Fault (List Text)
published_host_ips repr service = over_ports (λ item. ok (host_ips_of repr item)) service
