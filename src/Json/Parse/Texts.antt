-- ===== src/Json/Parse/Texts.antt =====
-- What `json.loads` reads from the characters of a text, up to its closing quote.
use db_first_practice.Common.{
  ℕ, ◌≡◌, refl, sym, ap, ◌∙◌, Bool, true, false, ◌&&◌, none, some, List, [], ◌∷◌, ◌++◌, arith, ltb,
  leb, Text, all, Option,
}
use db_first_practice.Common.Assoc.{and-left, and-right}
use mathlib.Core.List.{append-nil}
use db_first_practice.Json.Defs.{Value}
use db_first_practice.Json.Scan.{Mode, plain, Move, move, stop, fail, go, emit, push, scan}
use db_first_practice.Json.Utf8.{is_scalar}
use db_first_practice.Json.Parse.{
  Frame, in_text, State, join_pairs, rev_onto, close_text, text_move, step, run,
}

push-cases :
    (d : ℕ) (o : Option (Text × Text)) {t r : Text}
    → push d o ≡ some (t, r)
    → (u : Text) × (o ≡ some (u, r)) × (t ≡ d ∷ u)
push-cases d none h = cc
push-cases d (some (u, q)) h = (u, ground arith, ground arith)

-- how the scanner and the machine go on after a move
abbrev scanned : Move → Text → Option (Text × Text)
scanned mv s = elim mv [
  | stop ↦ some ([], s)
  | fail ↦ none
  | go m ↦ scan m s
  | emit d ↦ push d (scan plain s)
]

abbrev resume : Option State → Text → Option Value
resume o s = elim o [ none ↦ none | some t ↦ run t s ]

-- the machine reads what the scanner scans
pub run-scan :
    (key : Bool) (frames : List Frame) (m : Mode) (s acc : Text) {t r : Text}
    → scan m s ≡ some (t, r)
    → run (in_text key m acc, frames) s ≡ run (close_text key (rev_onto t acc) frames) r
unfolding scan run step text_move rev_onto
run-scan key frames m [] acc h = cc
run-scan key frames m (c ∷ s) acc {t} {r} h =
    (elim (move m c)
        as (λ mv.
          scanned mv s ≡ some (t, r)
          → resume (text_move key acc frames mv) s
            ≡ run (close_text key (rev_onto t acc) frames) r) [
              | stop ↦ λ e. ground arith
              | fail ↦ λ e. cc
              | go m' ↦ λ e. run-scan key frames m' s acc e
              | emit d ↦ λ e.
                  let (u, f, g) = push-cases d (scan plain s) e in
                  run-scan key frames plain s (d ∷ acc) f
                  ∙ ap (λ z. run (close_text key (rev_onto z acc) frames) r) (sym g)
            ])
      h

rev_onto-rev_onto : (s acc out : Text) → rev_onto (rev_onto s acc) out ≡ rev_onto acc (s ++ out)
unfolding rev_onto
rev_onto-rev_onto [] acc out = refl
rev_onto-rev_onto (c ∷ s) acc out = rev_onto-rev_onto s (c ∷ acc) out

high_surrogate : (h : ℕ) → is_scalar h ≡ true → (leb 0xD800 h && ltb h 0xDC00) ≡ false
high_surrogate h e = ground arith

join_pairs-id : (s : Text) → all is_scalar s ≡ true → join_pairs s ≡ s
unfolding join_pairs
join_pairs-id [] h = refl
join_pairs-id (c ∷ []) h = refl
join_pairs-id (c ∷ d ∷ s) h =
    rw (high_surrogate c (and-left _ _ h))
      (ap (λ r. c ∷ r) (join_pairs-id (d ∷ s) (and-right _ _ h)))

-- a text of scalar values is read back
pub read_text : (s : Text) → all is_scalar s ≡ true → join_pairs (rev_onto (rev_onto s []) []) ≡ s
unfolding rev_onto
read_text s h = ap join_pairs (rev_onto-rev_onto s [] [] ∙ append-nil s) ∙ join_pairs-id s h
