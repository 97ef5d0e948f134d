-- ===== src/Pgx/Tests.antt =====
-- The transactors of a program, and a JSON request, over a one-transaction database.
use stdgo.Base.{ℕ, ltb, leb, ◌+◌, String, Option, none, some, List, [], ◌∷◌, ◌≡◌, refl}
use stdgo.Go.Context.{Context}
use stdgo.Go.Errors.{GoError, sentinel, eof, ok}
use stdgo.Go.Outcome.{Outcome, returned}
use stdgo.Stdtx.Driver.{active}
use stdgo.Stdtx.Transact.Attempt.{LeavesOpen}
use stdgo.Stdtx.Sample.{
  Db, db_driver, db_status, db_driver-IsDriver, db_rollback, db_commit, never, retry,
  retry-IsExecutor,
}
use stdgo.Pgx.Library.{Library, Costs, read_only}
use stdgo.Pgx.Driver.{driver}
use stdgo.Pgx.Wiring.{Params, agreed, new_transactors, new_transactors_lem}
use stdgo.Stdtx.Transact.{transact1}
use stdgo.Pgx.Responses.{hj_tx, Handled, hj_tx-Handled}

abbrev pool : Library Db (Unit {0})
pool = record {
  begin = λ _ _ _ d. (record d { current = active }, ok tt);
  rollback = λ _ _ d. db_rollback d d.current;
  commit = λ _ _ d. db_commit d d.current;
  exec = λ _ _ _ d. (d, ok tt);
  query_row_scan = λ _ _ _ d. (d, ok "[]");
}

abbrev costs : Costs ℕ
costs = record {
  zero_cost = 0;
  add = λ a b. a + b;
  not_positive = λ a. leb a 0;
  exceeds = λ a b. ltb b a;
  unmarshal = λ _. ok [];
}

abbrev params : Params Db (Unit {0}) ℕ
params = record {
  test_max_query_costs = 300;
  positive = λ c. ltb 0 c;
  rw = pool;
  ro = pool;
  tx_begin_sql = some (λ _ _ _ s. (s, ok "SET LOCAL ROLE app;"));
  on_commit_tx_hook = none;
}

new_transactors_lem_example :
    ((new_transactors costs params).read_write ≡ driver pool costs (agreed costs params))
    × ((new_transactors costs params).read_only
        ≡ driver pool costs (record (agreed costs params) { tx_access_mode = read_only }))
new_transactors_lem_example = new_transactors_lem costs params

abbrev greet : Context → Unit {0} → String → Db → Db × Outcome String
greet ctx tx name s = (s, returned name none)

abbrev put : String → List String → List String × Option GoError
put out w = (out ∷ w, none)

greet-LeavesOpen : LeavesOpen db_status (λ d. d.total) (λ ctx tx. greet ctx tx "ann")
greet-LeavesOpen ctx tx s h = (h, refl)

abbrev db : Db
db = record { current = active; total = 3 }

hj_tx-Handled_example :
    let a = hj_tx db_driver retry [] ("ann", some (sentinel eof)) greet "" put db [] in
    Handled
      (λ d. d.total)
      put
      (some (sentinel eof))
      (transact1 db_driver retry [] (λ ctx tx. greet ctx tx "ann") "" db)
      db
      []
      a.0.0
      a.0.1
      a.1
hj_tx-Handled_example =
    hj_tx-Handled db_driver retry db_status (λ d. d.total) never [] ("ann", some (sentinel eof))
      greet "" put db [] db_driver-IsDriver (retry-IsExecutor never) greet-LeavesOpen (λ t. refl)
