-- ===== src/Stdent/Transact/Tests.antt =====
-- The theorems on stdent's transactions at a one-transaction database.
use stdgo.Base.{ℕ, none, some, [], ◌≡◌, refl, arith, if◌then◌else◌, ◌==◌}
use stdgo.Go.Context.{Context, value, with_value}
use stdgo.Go.Errors.{pg_error, message, as_pg_error}
use stdgo.Go.Outcome.{Outcome, returned, panicked}
use stdgo.Stdtx.Driver.{rolled_back}
use stdgo.Stdtx.Transact.Attempt.{LeavesOpen}
use stdgo.Stdtx.Transact
use stdgo.Stdtx.Sample.{Db, never, retry, retry-IsExecutor}
use stdgo.Stdent.Scope.{
  attempts_from_context, context_with_attempts, context_with_tx, tx_from_context,
  with_read_promotion, has_read_promotion,
}
use stdgo.Stdent.Transactor.{new, as_driver}
use stdgo.Stdent.Sample.{transactor, ro_transactor, status, transactor-IsDriver}
use stdgo.Stdent.Transact.{
  Handler, any_code, should_retry, conclude, in_tx, begun, attempt, retry_policy, transact1,
}
use stdgo.Stdent.Transact.Protocol.{in_tx_agrees}
use stdgo.Stdent.Transact.Commits.{ent_transact1-success, ent_transact1-failure, transact1_reuses}
use stdgo.Stdent.Promotion.{transact_r}
use stdgo.Stdent.Promotion.Routing.{transact_r_routes}

-- Fails with a serialization failure on the first attempt and returns 7 on the second.
abbrev flaky : Handler Db ℕ
flaky ctx tx d = elim (attempts_from_context ctx) [
  | some k ↦ if k == 1 then (d, returned 0 (some (pg_error "40001"))) else (d, returned 7 none)
  | none ↦ (d, panicked "no attempt")
]

ent_flaky-LeavesOpen : LeavesOpen status (λ d. d.total) flaky
ent_flaky-LeavesOpen ctx tx d h = ground arith

abbrev failing : Handler Db ℕ
failing ctx tx d = (d, returned 5 (some (message "boom")))

abbrev empty_db : Db
empty_db = record { current = rolled_back; total = 3 }

abbrev read_input : Context → ℕ → ℕ → Db → Db × Outcome ℕ
read_input ctx tx n d = (d, returned n none)

ent_transact1-success_example : (transact1 9 transactor retry [] flaky 0 empty_db).0.total ≡ 4
unfolding transact1 attempt begun in_tx conclude retry_policy should_retry retry any_code
    context_with_attempts attempts_from_context context_with_tx tx_from_context value with_value
    as_pg_error new
ent_transact1-success_example =
    ent_transact1-success 9 transactor status (λ d. d.total) retry never [] flaky 0 empty_db
      transactor-IsDriver (retry-IsExecutor never) ent_flaky-LeavesOpen refl refl

ent_transact1-failure_example : (transact1 9 transactor retry [] failing 0 empty_db).0.total ≡ 3
unfolding transact1 attempt begun in_tx conclude retry_policy should_retry retry any_code
    context_with_attempts attempts_from_context context_with_tx tx_from_context value with_value
    as_pg_error new
ent_transact1-failure_example =
    ent_transact1-failure 9 transactor status (λ d. d.total) retry never [] failing 0 empty_db
      transactor-IsDriver (retry-IsExecutor never) (λ ctx tx d h. (h, refl)) (λ d. refl) refl refl

transact1_reuses_example :
    transact1 9 ro_transactor retry
      (context_with_attempts (context_with_tx 9 [] 4) 1)
      failing
      0
      empty_db
    ≡ failing (context_with_attempts (context_with_tx 9 [] 4) 1) 4 empty_db
transact1_reuses_example =
    transact1_reuses 9 ro_transactor status (λ d. d.total) retry never [] 4 1 failing 0 empty_db

in_tx_agrees_example :
    in_tx 9 transactor failing [] 1 empty_db
    ≡ Transact.in_tx (as_driver transactor) failing [] 1 empty_db
in_tx_agrees_example = in_tx_agrees 9 transactor failing [] 1 empty_db

transact_r_routes_example :
    (transact_r {I = ℕ} 9 retry
        (with_read_promotion [])
        ro_transactor
        transactor
        6
        read_input
        0
        empty_db
      ≡ transact1 9 transactor retry
          (with_read_promotion [])
          (λ c tx d. (d, returned 6 none))
          0
          empty_db)
    × (transact_r {I = ℕ} 9 retry [] ro_transactor transactor 6 read_input 0 empty_db
        ≡ transact1 9 ro_transactor retry [] (λ c tx d. (d, returned 6 none)) 0 empty_db)
unfolding has_read_promotion value
transact_r_routes_example =
    transact_r_routes {I = ℕ} 9 retry ro_transactor transactor 6 read_input 0 [] empty_db refl
