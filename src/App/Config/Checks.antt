-- ===== src/App/Config/Checks.antt =====
-- The configurations against a plain list of what each one asks of the environment.
use db_first_practice.Common.{
  ◌≡◌, refl, ap, sym, subst, ◌∙◌, false, Option, none, some, List, [], ◌∷◌, ◌++◌, arith,
  if◌then◌else◌, Text, txt, is_empty,
}
use db_first_practice.Common.Int.{ℤ, pos}
use db_first_practice.Common.Results.{Result, ok, err, error_of, ◌>>=◌}
use db_first_practice.Builtins.{parse_int}
use db_first_practice.Builtins.Round.{parse_int-print_int}
use db_first_practice.App.Config.{
  Env, ConfigError, missing, invalid_integer, require, integer, postgres, dispatcher_config,
  adapter_config, reconciler_config,
}

-- What a configuration asks: a text that is there and not empty, with or without a default, or an
-- integer.
pub data Check : Type 0 where
  needs : Text → Check
  defaults : Text → Text → Check
  numeric : Text → ℤ → Check

-- What is wrong with one variable.
abbrev pub problem : Env → Check → Option ConfigError
problem env (needs name) = elim (env name) [
  | none ↦ some (missing name)
  | some v ↦ if is_empty v then some (missing name) else none
]
problem env (defaults name d) = elim (env name) [
  | none ↦ none
  | some v ↦ if is_empty v then some (missing name) else none
]
problem env (numeric name d) = elim (env name) [
  | none ↦ none
  | some v ↦ elim (parse_int v) [ none ↦ some (invalid_integer name) | some n ↦ none ]
]

abbrev pub first_of_two : Option ConfigError → Option ConfigError → Option ConfigError
first_of_two none p = p
first_of_two (some e) p = some e

abbrev pub first_problem : Env → List Check → Option ConfigError
first_problem env [] = none
first_problem env (c ∷ cs) = first_of_two (problem env c) (first_problem env cs)

abbrev pub postgres_checks : List Check
postgres_checks =
    defaults (txt "PGHOST") (txt "postgres")
    ∷ numeric (txt "PGPORT") (pos 5432)
    ∷ defaults (txt "PGDATABASE") (txt "course")
    ∷ needs (txt "PGUSER")
    ∷ needs (txt "PGPASSWORD")
    ∷ []

abbrev pub dispatcher_own : List Check
dispatcher_own =
    needs (txt "PROVIDER_URL")
    ∷ defaults (txt "OUTBOX_OWNER") (txt "outbox-dispatcher")
    ∷ numeric (txt "OUTBOX_CLAIM_BATCH") (pos 5)
    ∷ []

abbrev pub dispatcher_checks : List Check
dispatcher_checks = postgres_checks ++ dispatcher_own

abbrev pub adapter_checks : List Check
adapter_checks =
    needs (txt "PROVIDER_CALLBACK_CAPABILITY")
    ∷ needs (txt "PROVIDER_CALLBACK_TOKEN")
    ∷ needs (txt "PROVIDER_HMAC_SECRET")
    ∷ needs (txt "RECEIPT_API_URL")
    ∷ defaults (txt "ADAPTER_HOST") (txt "0.0.0.0")
    ∷ numeric (txt "ADAPTER_PORT") (pos 8090)
    ∷ []

abbrev pub reconciler_own : List Check
reconciler_own = numeric (txt "INBOX_RECONCILE_LIMIT") (pos 50) ∷ []

abbrev pub reconciler_checks : List Check
reconciler_checks = postgres_checks ++ reconciler_own

require-needs :
    (env : Env) (name : Text) → error_of (require env name none) ≡ problem env (needs name)
unfolding require
require-needs env name = ground arith

require-defaults :
    (env : Env) (name d : Text)
    → is_empty d ≡ false
    → error_of (require env name (some d)) ≡ problem env (defaults name d)
unfolding require
require-defaults env name d h = ground arith

-- An unset integer variable gives its default: `int(str(default))` reads back what was printed.
pub integer_default :
    (env : Env) (name : Text) (d : ℤ) → env name ≡ none → integer env name d ≡ ok d
unfolding integer
integer_default env name d h = ground (arith, parse_int-print_int d)

integer-numeric :
    (env : Env) (name : Text) (d : ℤ) → error_of (integer env name d) ≡ problem env (numeric name d)
unfolding integer
integer-numeric env name d = ground (arith, parse_int-print_int d)

postgres_nonempty : is_empty (txt "postgres") ≡ false
unfolding txt
postgres_nonempty = refl

course_nonempty : is_empty (txt "course") ≡ false
unfolding txt
course_nonempty = refl

owner_nonempty : is_empty (txt "outbox-dispatcher") ≡ false
unfolding txt
owner_nonempty = refl

host_nonempty : is_empty (txt "0.0.0.0") ≡ false
unfolding txt
host_nonempty = refl

-- a bind fails first where its first part fails
error_of-bind :
    {A B : Type 0} (m : Result ConfigError A) (f : A → Result ConfigError B)
    {o p : Option ConfigError}
    → error_of m ≡ o
    → ((a : A) → error_of (f a) ≡ p)
    → error_of (m >>= f) ≡ first_of_two o p
error_of-bind (ok a) f {p} e k = subst (λ q. error_of (f a) ≡ first_of_two q p) e (k a)
error_of-bind (err x) f {p} e k = subst (λ q. some x ≡ first_of_two q p) e refl

first_problem-append :
    (env : Env) (cs ds : List Check)
    → first_problem env (cs ++ ds) ≡ first_of_two (first_problem env cs) (first_problem env ds)
first_problem-append env [] ds = refl
first_problem-append env (c ∷ cs) ds =
    ap (first_of_two (problem env c)) (first_problem-append env cs ds)
    ∙ first_of_two_assoc (problem env c) (first_problem env cs) (first_problem env ds)
  where
    first_of_two_assoc :
        (a b d : Option ConfigError)
        → first_of_two a (first_of_two b d) ≡ first_of_two (first_of_two a b) d
    first_of_two_assoc none b d = refl
    first_of_two_assoc (some e) b d = refl

module _ (env : Env) where
  postgres-first_problem :
      (appname : Text) → error_of (postgres env appname) ≡ first_problem env postgres_checks
  unfolding postgres
  postgres-first_problem appname =
      error_of-bind _ _ (require-defaults env _ _ postgres_nonempty) λ _.
        error_of-bind _ _ (integer-numeric env _ _) λ _.
          error_of-bind _ _ (require-defaults env _ _ course_nonempty) λ _.
            error_of-bind _ _ (require-needs env _)
              λ _. error_of-bind _ _ (require-needs env _) λ _. refl

  -- `dispatcher_config` raises exactly when a check of the list fails, and names the first variable
  -- that does.
  pub dispatcher_config-first_problem :
      error_of (dispatcher_config env) ≡ first_problem env dispatcher_checks
  unfolding dispatcher_config
  dispatcher_config-first_problem =
      error_of-bind _ _ (postgres-first_problem _) (λ _.
        error_of-bind _ _ (require-needs env _) λ _.
          error_of-bind _ _ (require-defaults env _ _ owner_nonempty)
            λ _. error_of-bind _ _ (integer-numeric env _ _) λ _. refl)
      ∙ sym (first_problem-append env postgres_checks dispatcher_own)

  -- `adapter_config` raises exactly when a check of its list fails, and names the first variable
  -- that does.
  pub adapter_config-first_problem :
      error_of (adapter_config env) ≡ first_problem env adapter_checks
  unfolding adapter_config
  adapter_config-first_problem = error_of-bind _ _ (require-needs env _) λ _.
      error_of-bind _ _ (require-needs env _) λ _. error_of-bind _ _ (require-needs env _) λ _.
        error_of-bind _ _ (require-needs env _) λ _.
          error_of-bind _ _ (require-defaults env _ _ host_nonempty)
            λ _. error_of-bind _ _ (integer-numeric env _ _) λ _. refl

  -- `reconciler_config` raises exactly when a check of its list fails, and names the first variable
  -- that does.
  reconciler_config-first_problem :
      error_of (reconciler_config env) ≡ first_problem env reconciler_checks
  unfolding reconciler_config
  reconciler_config-first_problem =
      error_of-bind _ _ (postgres-first_problem _)
        (λ _. error_of-bind _ _ (integer-numeric env _ _) λ _. refl)
      ∙ sym (first_problem-append env postgres_checks reconciler_own)
