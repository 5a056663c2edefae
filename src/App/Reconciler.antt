-- ===== src/App/Reconciler.antt =====
-- Python/app/reconciler.py: one call of `delivery.reconcile_inbox`, again and again.
use db_first_practice.Common.{ℕ, zero, suc, true, false, Option, none, some}
use db_first_practice.Common.Int.{ℤ, pos, int_eq}
use db_first_practice.Common.Results.{Result, ok, err}
use db_first_practice.App.Config.{Env, ConfigError, ReconcilerConfig, reconciler_config}
use db_first_practice.App.Worker.{
  Services, reconciled, reconciler_started, connect_to, sleep, reconciler_applied,
  reconciler_connection_error, Exec, pure, print, db_call, ◌>>=◌, ◌>>◌, except_db,
}

-- `int(value[0]) if value else 0`
abbrev pub count_of : Option ℤ → ℤ
count_of none = pos 0
count_of (some n) = n

module _ {W : Type 0} (services : Services W) (cfg : ReconcilerConfig) where
  unfoldable pub run_once : Exec W ℤ
  run_once = do
    value ← db_call (reconciled cfg.limit) (services.reconcile_inbox cfg.limit)
    pure (count_of value)

  -- `if applied:`
  unfoldable pub report : ℤ → Exec W (Unit {0})
  report applied = elim (int_eq applied (pos 0)) [
    | true ↦ pure tt
    | false ↦ print (reconciler_applied applied)
  ]

  unfoldable pub round : Exec W (Unit {0})
  round = do
    except_db (do connect_to services cfg.pg; applied ← run_once; report applied)
        (λ e. print (reconciler_connection_error e))
    sleep cfg.poll_interval

  unfoldable pub rounds : ℕ → Exec W (Unit {0})
  rounds zero = pure tt
  rounds (suc n) = do round; rounds n

unfoldable pub main : {W : Type 0} → Services W → Env → ℕ → Result ConfigError (Exec W (Unit {0}))
main services env n = elim (reconciler_config env) [
  | err e ↦ err e
  | ok cfg ↦ ok (do print reconciler_started; rounds services cfg n)
]
