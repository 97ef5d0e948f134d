-- ===== src/Stdtx/Transact/Tests.antt =====
-- The theorems of this package at concrete inputs.
use stdgo.Base.{inl, ℕ, true, none, some, [], ◌≡◌, ◌≢◌, refl, arith, if◌then◌else◌, contains, ◌==◌}
use stdgo.Go.Context.{Context, value, with_value}
use stdgo.Go.Errors.{GoError, Sentinel, pg_error, message, already_in_scope, is, as_pg_error}
use stdgo.Go.Outcome.{Outcome, returned, panicked}
use stdgo.Stdtx.Scope.{context_with_attempts, attempts_from_context}
use stdgo.Stdtx.Transact.{
  Handler, in_tx, attempt, begun, conclude, retry_policy, should_retry, transact1,
}
use stdgo.Stdtx.Transact.Attempt.{LeavesOpen, in_tx_closes}
use stdgo.Stdtx.Transact.Commits.{transact1-success, transact1-failure}
use stdgo.Stdtx.Transact.Recovery.{transact1_recovers, transact1_reports}
use stdgo.Stdtx.Transact.Retrying.{
  SameChain, in_tx-SameChain, transact1_nested, transact1_once, transact1_twice,
}
use stdgo.Stdtx.Driver.{active, committed, rolled_back}
use stdgo.Stdtx.Sample.{
  Db, db_driver, db_status, db_driver-IsDriver, never, retry, retry-IsExecutor,
}

-- Fails with a serialization failure on the first attempt and returns 7 on the second.
abbrev flaky : Context → Unit {0} → Db → Db × Outcome ℕ
flaky ctx tx d = elim (attempts_from_context ctx) [
  | some k ↦ if k == 1 then (d, returned 0 (some (pg_error "40001"))) else (d, returned 7 none)
  | none ↦ (d, panicked "stdtx: no execution attempts in context")
]

flaky-LeavesOpen : LeavesOpen db_status (λ d. d.total) flaky
flaky-LeavesOpen ctx tx d h = ground arith

-- Rolls back with the error that it is given.
abbrev failing : Handler Db (Unit {0}) ℕ
failing ctx tx d = (d, returned 5 (some (message "boom")))

abbrev panicking : Handler Db (Unit {0}) ℕ
panicking ctx tx d = (d, panicked "boom")

abbrev empty_db : Db
empty_db = record { current = rolled_back; total = 3 }

stdtx : Unit {0}
unfolding transact1 attempt begun in_tx conclude retry_policy should_retry retry is contains
    context_with_attempts attempts_from_context value with_value as_pg_error
stdtx = tt

transact1_runs :
    (transact1 db_driver retry [] flaky 0 empty_db
      ≡ (record { current = committed; total = 4 }, returned 7 none))
    × (transact1 db_driver retry [] failing 0 empty_db
        ≡ (record { current = rolled_back; total = 3 }, returned 5 (some (message "boom"))))
unfolding stdtx
transact1_runs = (refl, refl)

transact1-success_example : (transact1 db_driver retry [] flaky 0 empty_db).0.total ≡ 4
unfolding stdtx
transact1-success_example =
    transact1-success db_driver db_status (λ d. d.total) retry never [] flaky 0 empty_db
      db_driver-IsDriver (retry-IsExecutor never) flaky-LeavesOpen refl

transact1-failure_example : (transact1 db_driver retry [] failing 0 empty_db).0.total ≡ 3
unfolding stdtx
transact1-failure_example =
    transact1-failure db_driver db_status (λ d. d.total) retry never [] failing 0 empty_db
      db_driver-IsDriver (retry-IsExecutor never) (λ ctx tx d h. (h, refl)) (λ d. refl) refl

in_tx_closes_example :
    (in_tx db_driver panicking [] tt (record { current = active; total = 0 })).0.current ≢ active
in_tx_closes_example =
    in_tx_closes db_driver db_status (λ d. d.total) db_driver-IsDriver panicking [] tt
      (record { current = active; total = 0 })

in_tx-SameChain_example :
    (e' : GoError) × ((in_tx db_driver failing [] tt empty_db).1 ≡ returned 5 (some e'))
    × SameChain e' (message "boom")
in_tx-SameChain_example =
    in_tx-SameChain db_driver failing [] tt empty_db empty_db 5 (message "boom") refl

transact1_nested_example :
    (e : GoError) × (transact1 db_driver retry (context_with_attempts [] 2) flaky 0 empty_db
      ≡ (empty_db, returned 0 (some e)))
    × (is e already_in_scope ≡ true)
transact1_nested_example = transact1_nested db_driver retry [] 2 flaky 0 empty_db

transact1_once_example :
    transact1 db_driver retry [] failing 0 empty_db ≡ attempt db_driver failing 0 [] 1 empty_db
unfolding stdtx
transact1_once_example =
    transact1_once db_driver retry never [] failing 0 empty_db (retry-IsExecutor never) (λ d. refl)
      refl refl

transact1_twice_example :
    transact1 db_driver retry [] flaky 0 empty_db
    ≡ attempt db_driver flaky 0 [] 2 (attempt db_driver flaky 0 [] 1 empty_db).0
unfolding stdtx
transact1_twice_example =
    transact1_twice db_driver retry never [] flaky 0 empty_db (retry-IsExecutor never) (λ d. refl)
      refl (omega arith) refl refl

transact1_recovers_example :
    let r = transact1 db_driver retry [] flaky 0 empty_db in
    (r.1 ≡ returned 7 none) × (db_status r.0 tt ≡ committed) × (r.0.total ≡ 4)
unfolding stdtx
transact1_recovers_example =
    transact1_recovers db_driver db_status (λ d. d.total) retry never [] flaky 0 0 7
      (pg_error "40001") tt tt empty_db (record empty_db { current = active })
      (record empty_db { current = active }) (record empty_db { current = active })
      (record empty_db { current = active }) (record { current = committed; total = 4 })
      db_driver-IsDriver (retry-IsExecutor never) flaky-LeavesOpen (λ d. refl) refl (omega arith)
      ("40001", refl, refl) refl refl refl refl refl

transact1_reports_example :
    let r = transact1 db_driver retry [] failing 0 empty_db in
    (e' : GoError) × (r.1 ≡ returned 5 (some e'))
    × (as_pg_error e' ≡ as_pg_error (message "boom"))
    × ((t : Sentinel) → is e' t ≡ is (message "boom") t)
    × (db_status r.0 tt ≢ active)
    × (r.0.total ≡ 3)
unfolding stdtx
transact1_reports_example =
    transact1_reports db_driver db_status (λ d. d.total) retry never [] failing 0 5 (message "boom")
      tt empty_db (record empty_db { current = active }) (record empty_db { current = active })
      db_driver-IsDriver (retry-IsExecutor never) (λ ctx tx s h. (h, refl)) (λ d. refl) refl
      (inl refl) refl refl
