-- ===== src/Pgx/Driver/Tests.antt =====
-- The theorems of this package at a one-transaction database whose plans cost 12.
use stdgo.Base.{
  ℕ, ◌+◌, ◌==◌, ◌∙◌, Option, none, some, arith, if◌then◌else◌, String, Bool, true, false, [], ◌∷◌,
  ◌≡◌, ◌≢◌, refl, ap, subst, ltb, leb, str_eq,
}
use stdgo.Go.Context.{value}
use stdgo.Go.Errors.{GoError, sentinel, tx_closed, is, message, wrap, Result, ok, err}
use stdgo.Stdtx.Driver.{IsDriver, Status, active, committed, rolled_back}
use stdgo.Stdtx.Scope.{no_test_for_max_query_plan_costs, with_no_test_for_max_query_plan_costs}
use stdgo.Stdtx.Sample.{Db, db_rollback, db_commit, db_status, db_driver-IsDriver}
use stdgo.Pgx.Library.{Library, Costs, IsLibrary}
use stdgo.Pgx.Wtx.{run_query, total_cost}
use stdgo.Pgx.Wtx.Budget.{run_query_opted_out, run_query_over_budget}
use stdgo.Pgx.Driver.{
  Options, default_options, begin_sql, discourage_seq_scan, on_tx_commit, begin_with_sql, driver,
  begin_tx, setup_tx, after_hook,
}
use stdgo.Pgx.Driver.Laws.{IsHooks, driver-IsDriver, begin_tx_closes}

abbrev library : Library Db (Unit {0})
library = record {
  begin = λ _ _ _ d. (record d { current = active }, ok tt);
  rollback = λ _ _ d. db_rollback d d.current;
  commit = λ _ _ d. db_commit d d.current;
  exec = λ _ _ _ d. (d, ok tt);
  query_row_scan = λ _ _ _ d. (d, ok "[]");
}

abbrev costs : Costs ℕ
costs = record {
  zero_cost = 0;
  add = λ a b. a + b;
  not_positive = λ a. leb a 0;
  exceeds = λ a b. ltb b a;
  unmarshal = λ _. ok (5 ∷ 7 ∷ []);
}

-- Whether a statement is a plain COMMIT.
abbrev ends : String → Bool
ends sql = str_eq sql "COMMIT"

library-IsLibrary : IsLibrary library ends db_status (λ d. d.total)
library-IsLibrary = record {
  is_driver = λ iso mode. record {
    begin_ok = db_driver-IsDriver.begin_ok;
    begin_err = db_driver-IsDriver.begin_err;
    rollback_active = db_driver-IsDriver.rollback_active;
    rollback_closed = db_driver-IsDriver.rollback_closed;
    rollback_commits = db_driver-IsDriver.rollback_commits;
    commit_ok = db_driver-IsDriver.commit_ok;
    commit_err = db_driver-IsDriver.commit_err;
    commit_closed = db_driver-IsDriver.commit_closed;
  };
  exec_keeps = λ ctx tx sql s plain live. (live, refl);
}

-- A commit hook that refuses when three transactions were committed, and that fails with the library's
-- error in a transaction that is over.
abbrev audit : Status → Db → Db × Option GoError
audit active d = if d.total == 3 then (d, some (message "refused")) else (d, none)
audit committed d = (d, some (sentinel tx_closed))
audit rolled_back d = (d, some (sentinel tx_closed))

-- The default options, with that hook, a begin statement and without sequential scans.
abbrev options : Options Db (Unit {0}) ℕ
options = discourage_seq_scan true (
    on_tx_commit (λ _ _ _ d. audit d.current d)
      (begin_with_sql (λ _ _ _ d. (d, ok "SET LOCAL ROLE app;")) (default_options costs)))

audit-active :
    (st : Status) (d d' : Db) (e : GoError)
    → st ≡ active
    → audit st d ≡ (d', some e)
    → is e tx_closed ≡ false
unfolding is
audit-active st d d' e live h = ground arith

audit-closed :
    (st : Status) (d d' : Db) (e : GoError)
    → st ≢ active
    → audit st d ≡ (d', some e)
    → is e tx_closed ≡ true
unfolding is
audit-closed st d d' e done h = ground arith

audit-state : (st : Status) (d : Db) → (audit st d).0 ≡ d
audit-state st d = ground arith

options-IsHooks : IsHooks options ends db_status (λ d. d.total)
options-IsHooks = record {
  begin_keeps = λ ctx tx s live. (live, refl);
  begin_plain = λ ctx tx s s' sql h.
      let same : "SET LOCAL ROLE app;" ≡ sql = cc (ap (λ q. q.1) h) in
      subst (λ q. ends (begin_sql options q) ≡ false) same refl;
  commit_active = λ ctx tx s live. ap (λ d. d.current) (audit-state s.current s) ∙ live;
  commit_closed = λ ctx tx s done. ap (λ d. d.current) (audit-state s.current s);
  commit_commits = λ ctx tx s. ap (λ d. d.total) (audit-state s.current s);
  commit_err_active = λ ctx tx s s' e live h. audit-active s.current s s' e live h;
  commit_err_closed = λ ctx tx s s' e done h. audit-closed s.current s s' e done h;
}

driver-IsDriver_example : IsDriver (driver library costs options) db_status (λ d. d.total)
driver-IsDriver_example =
    driver-IsDriver library costs options ends db_status (λ d. d.total) library-IsLibrary
      options-IsHooks

abbrev refusing : Options Db (Unit {0}) ℕ
refusing = begin_with_sql (λ _ _ _ d. (d, err (message "no role"))) (default_options costs)

abbrev fresh : Db
fresh = record { current = rolled_back; total = 0 }

begin_tx_closes_example :
    ((begin_tx library costs refusing [] fresh).1
      ≡ err (wrap "setup tx, rolled back" (wrap "setup hook" (message "no role"))))
    × ((begin_tx library costs refusing [] fresh).0.current ≢ active)
unfolding setup_tx after_hook
begin_tx_closes_example =
    begin_tx_closes library costs refusing ends db_status (λ d. d.total) [] tt fresh
      (record { current = active; total = 0 }) (record { current = active; total = 0 })
      (wrap "setup hook" (message "no role")) library-IsLibrary refl refl

-- A query that counts as one more commit, to see whether it ran.
abbrev touch : Db → Db × Result ℕ
touch d = (record d { total = d.total + 1 }, ok 1)

run_query_over_budget_example :
    run_query library costs 10 touch [] tt "SELECT 1" fresh
    ≡ (fresh, err (message "query plan cost exceeds maximum"))
unfolding no_test_for_max_query_plan_costs value total_cost
run_query_over_budget_example =
    run_query_over_budget library costs 10 touch [] tt "SELECT 1" "[]" fresh fresh (5 ∷ 7 ∷ []) refl
      refl refl refl refl

run_query_opted_out_example :
    run_query library costs 10 touch (with_no_test_for_max_query_plan_costs []) tt "SELECT 1" fresh
    ≡ (record fresh { total = 1 }, ok 1)
run_query_opted_out_example = run_query_opted_out library costs 10 touch [] tt "SELECT 1" fresh
