-- ===== src/Stdent/Driver/Tests.antt =====
-- The theorems on the ent driver at a one-transaction database.
use stdgo.Base.{ℕ, ◌<◌, ◌≤◌, ◌*◌, ◌+◌, ◌⊎◌, false, none, some, [], ◌∷◌, ◌≡◌, ◌≢◌, refl, arith}
use stdgo.Base.Int.{pos}
use stdgo.Go.Errors.{message, wrap, ok, err}
use stdgo.Stdtx.Driver.{active, rolled_back}
use stdgo.Stdtx.Sample.{Db}
use stdgo.Stdent.Transactor.{TxOptions, read_committed, repeatable_read, serializable}
use stdgo.Stdent.Sample.{client, status}
use stdgo.Stdent.Driver.{
  BaseDriver, Driver, new_driver, apply_options, timeout_millis, with_begin_hook,
  discourage_sequential_scans, begin_tx, begin_on, after_begin, after_setup, setup_tx, after_hook,
}
use stdgo.Stdent.Driver.Laws.{
  timeout_millis_outlasts, IsSetUp, begin_tx-IsSetUp, ent_begin_tx_closes,
}

-- A database that runs every statement, with 1.5 seconds left before the deadline.
abbrev base : BaseDriver Db
base = record {
  begin_tx = some client.begin_tx;
  rollback = client.rollback;
  commit = client.commit;
  exec = λ _ _ _ d. (d, none);
  until_deadline = λ _ _. some (pos 1_500_000_000);
}

abbrev scanless : Driver Db ℕ
scanless = new_driver 0 base (discourage_sequential_scans ∷ [])

abbrev refusing : Driver Db ℕ
refusing = new_driver 0 base (with_begin_hook (λ _ _ _ d. (d, err (message "no role"))) ∷ [])

abbrev options : TxOptions
options = record { isolation = repeatable_read; read_only = false }

abbrev fresh : Db
fresh = record { current = rolled_back; total = 0 }

timeout_millis_outlasts_example :
    (t : ℕ) × (timeout_millis (pos 1_500_000_000) 20_000_000_000 ≡ pos t)
    × (1_500_000_000 < t * 1_000_000)
    × (t * 1_000_000 ≤ 1_500_000_000 + 20_000_000_000)
timeout_millis_outlasts_example =
    timeout_millis_outlasts 1_500_000_000 20_000_000_000 (omega arith) (omega arith)

scanless_begins :
    begin_tx scanless [] options fresh
    ≡ (record fresh { current = active }, ok (record { tx = 1; max_query_plan_costs = 0 }))
unfolding begin_tx begin_on after_begin after_setup setup_tx after_hook new_driver apply_options
scanless_begins = refl

ent_begin_tx-IsSetUp_example :
    ((repeatable_read ≡ read_committed)
      ⊎ ((repeatable_read ≡ repeatable_read) ⊎ (repeatable_read ≡ serializable)))
    × IsSetUp scanless [] options fresh (record fresh { current = active }) 1
ent_begin_tx-IsSetUp_example =
    begin_tx-IsSetUp scanless [] options fresh (record fresh { current = active })
      (record { tx = 1; max_query_plan_costs = 0 }) scanless_begins

rollback-closes : (d : Db) → status (client.rollback 1 d).0 1 ≢ active
rollback-closes d = ground arith

ent_begin_tx_closes_example :
    ((begin_tx refusing [] options fresh).1
      ≡ err (wrap "failed to setup tx, rolled back" (wrap "setup hook" (message "no role"))))
    × ((begin_tx refusing [] options fresh).0.current ≢ active)
unfolding new_driver apply_options setup_tx after_hook
ent_begin_tx_closes_example =
    ent_begin_tx_closes refusing status client.begin_tx [] options fresh
      (record fresh { current = active }) (record fresh { current = active }) 1
      (wrap "setup hook" (message "no role")) rollback-closes refl refl refl refl
