-- ===== src/Week2/Attempts/Sound.antt =====
-- What an accepted history of attempts looks like.
use db_first_practice.Common.{
  ℕ, zero, suc, ◌+◌, ◌≤◌, ◌≡◌, refl, ap, ◌∙◌, true, false, inl, inr, some, List, [], ◌∷◌, ◌++◌, map,
  arith, all, length, last?, All, Text, txt, Option-cases, some_injective, ap₂, String, subst,
  get_elem?,
}
use db_first_practice.Common.Int.{ℤ, pos}
use db_first_practice.Json.{
  Value, null, bool, int, float, special, str, arr, obj, Fields, value_eq, str_is,
}
use db_first_practice.Json.Dict.{str_is_sound}
use db_first_practice.Week2.Attempts.{
  column, is_null, plain_int, plain_ints, member_of, ints_eq, sorted_set, counts_from, last_is,
  leases_rise, count_distinct, attempt_ok, is_success, count_successes, last_succeeded,
}
use db_first_practice.Week2.Attempts.Order.{Increasing, sorted_set_iff}

abbrev pub HasStatus : String → Fields → Type 0
HasStatus status row = column "status" row ≡ str (txt status)

-- The attempt that ended the job.
pub record IsFinal (expected_outcome : Text) (row : Fields) : Type 0 where
  pub status : HasStatus "SUCCEEDED" row
  pub outcome : column "outcome" row ≡ str expected_outcome
  pub no_error : column "error_code" row ≡ null

-- Attempts that failed, and then one that succeeded with the expected outcome.
pub record IsHistory (expected_outcome : Text) (attempts : List Fields) : Type 0 where
  pub earlier : List Fields
  pub final : Fields
  pub parts : attempts ≡ earlier ++ final ∷ []
  pub failures : All (HasStatus "FAILED") earlier
  pub success : IsFinal expected_outcome final

-- Leases that rise strictly, up to the job's own.
pub record HasLeases (job : Fields) (attempts : List Fields) : Type 0 where
  pub leases : List ℤ
  pub columns : map (column "lease_version") attempts ≡ map int leases
  pub rising : Increasing leases
  pub newest : ℤ
  pub last : last? leases ≡ some newest
  pub current : value_eq (int newest) (column "lease_version" job) ≡ true

pub is_null_sound : (v : Value) → is_null v ≡ true → v ≡ null
is_null_sound null h = refl
is_null_sound (bool b) h = cc
is_null_sound (int n) h = cc
is_null_sound (float m k) h = cc
is_null_sound (special x) h = cc
is_null_sound (str s) h = cc
is_null_sound (arr vs) h = cc
is_null_sound (obj d) h = cc

pub plain_int_sound : (v : Value) {n : ℤ} → plain_int v ≡ some n → v ≡ int n
plain_int_sound (int m) h = ap int (some_injective h)
plain_int_sound null h = cc
plain_int_sound (bool b) h = cc
plain_int_sound (float m k) h = cc
plain_int_sound (special x) h = cc
plain_int_sound (str s) h = cc
plain_int_sound (arr vs) h = cc
plain_int_sound (obj d) h = cc

pub plain_ints_sound : (vs : List Value) {ns : List ℤ} → plain_ints vs ≡ some ns → vs ≡ map int ns
unfolding plain_ints
plain_ints_sound [] h = ap (map int) (some_injective h)
plain_ints_sound (v ∷ vs) {ns} h = elim (Option-cases (plain_int v)) [
  | inl e ↦ ground arith
  | inr (n, e) ↦ elim (Option-cases (plain_ints vs)) [
    | inl f ↦ ground arith
    | inr (ms, f) ↦
        let made : n ∷ ms ≡ ns = ground arith in
        ap₂ (λ a rest. a ∷ rest) (plain_int_sound v e) (plain_ints_sound vs f) ∙ ap (map int) made
  ]
]

-- a failed attempt, or one that succeeded
failed_status :
    (e : Text) (row : Fields)
    → attempt_ok e row ≡ true
    → is_success row ≡ false
    → HasStatus "FAILED" row
unfolding attempt_ok is_success
failed_status e row h n =
    let f : str_is (txt "FAILED") (column "status" row) ≡ true = ground arith in
    str_is_sound (txt "FAILED") (column "status" row) f

last_succeeded-IsFinal :
    (e : Text) (row : Fields) → last_succeeded e (some row) ≡ true → IsFinal e row
unfolding last_succeeded is_success
last_succeeded-IsFinal e row h = record {
  status = str_is_sound _ _ (ground arith);
  outcome = str_is_sound _ _ (ground arith);
  no_error = is_null_sound _ (ground arith);
}

success_counted :
    (e : Text) (rows : List Fields)
    → last_succeeded e (last? rows) ≡ true
    → 1 ≤ count_successes rows
unfolding count_successes last_succeeded
success_counted e [] h = cc
success_counted e (row ∷ []) h = ground arith
success_counted e (row ∷ next ∷ rows) h = ground (arith, success_counted e (next ∷ rows) h)

cons_history :
    (e : Text) (row : Fields) {rows : List Fields}
    → HasStatus "FAILED" row
    → IsHistory e rows
    → IsHistory e (row ∷ rows)
cons_history e row f h = record {
  earlier = row ∷ h.earlier;
  final = h.final;
  parts = ap (λ l. row ∷ l) h.parts;
  failures = (f, h.failures);
  success = h.success;
}

pub history :
    (e : Text) (rows : List Fields)
    → all (attempt_ok e) rows ≡ true
    → count_successes rows ≡ 1
    → last_succeeded e (last? rows) ≡ true
    → IsHistory e rows
unfolding count_successes
history e [] ok one last = unfold last_succeeded in cc
history e (row ∷ []) ok one last = record {
  earlier = [];
  final = row;
  parts = refl;
  failures = tt;
  success = last_succeeded-IsFinal e row last;
}
history e (row ∷ next ∷ rows) ok one last =
    let counted = success_counted e (next ∷ rows) last in
    let fails : is_success row ≡ false = ground (arith, counted) in
    cons_history e row (failed_status e row (ground arith) fails)
      (history e (next ∷ rows) (ground arith) (ground (arith, fails)) last)

-- No value equals a later one.
abbrev pub Distinct : List Value → Type 0
Distinct [] = Unit
Distinct (v ∷ vs) = (member_of v vs ≡ false) × Distinct vs

count_distinct-le-length : (vs : List Value) → count_distinct vs ≤ length vs
unfolding count_distinct
count_distinct-le-length [] = omega arith
count_distinct-le-length (v ∷ vs) = ground (arith, count_distinct-le-length vs)

pub Distinct-of_count : (vs : List Value) → count_distinct vs ≡ length vs → Distinct vs
unfolding count_distinct
Distinct-of_count [] h = tt
Distinct-of_count (v ∷ vs) h =
    let le = count_distinct-le-length vs in
    let new : member_of v vs ≡ false = ground (arith, le) in
    (new, Distinct-of_count vs (ground (arith, new)))

pub numbered :
    (vs : List Value) (first i : ℕ) {v : Value}
    → counts_from first vs ≡ true
    → get_elem? vs i ≡ some v
    → value_eq v (int (pos (first + i))) ≡ true
unfolding counts_from
numbered [] first i h e = cc
numbered (w ∷ vs) first zero {v} h e =
    let at : w ≡ v = some_injective e in
    let n : first + 0 ≡ first = omega arith in
    rw n (subst (λ x. value_eq x (int (pos first)) ≡ true) at (ground arith))
numbered (w ∷ vs) first (suc i) h e =
    let n : first + suc i ≡ suc first + i = omega arith in
    rw n (numbered vs (suc first) i (ground arith) e)

pub leases_of_rise :
    (job : Fields) (attempts : List Fields)
    → leases_rise (plain_ints (map (column "lease_version") attempts)) (column "lease_version" job)
      ≡ true
    → HasLeases job attempts
unfolding leases_rise
leases_of_rise job attempts h =
    elim (Option-cases (plain_ints (map (column "lease_version") attempts))) [
      | inl none_of_them ↦ absurd (ground arith)
      | inr (ns, e) ↦
          let rise : ints_eq ns (sorted_set ns) ≡ true = ground arith in
          let newest : last_is ns (column "lease_version" job) ≡ true = ground arith in
          elim (Option-cases (last? ns)) [
            | inl empty ↦ absurd (ground arith)
            | inr (n, last) ↦ record {
              leases = ns;
              columns = plain_ints_sound _ e;
              rising = (sorted_set_iff ns).0 rise;
              newest = n;
              last = last;
              current = ground arith;
            }
          ]
    ]
