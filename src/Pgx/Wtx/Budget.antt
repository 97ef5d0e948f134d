-- ===== src/Pgx/Wtx/Budget.antt =====
-- When the wrapped transaction asserts the cost of a plan, and what it then refuses to run.
use stdgo.Base.{String, true, false, List, ◌≡◌, refl, ap, arith}
use Prim.Native.String.{◌++◌}
use stdgo.Go.Context.{Context}
use stdgo.Go.Errors.{message, Result, ok, err}
use stdgo.Stdtx.Scope.{no_test_for_max_query_plan_costs, with_no_test_for_max_query_plan_costs}
use stdgo.Go.Context.{value, with_value}
use stdgo.Pgx.Library.{Library, Costs}
use stdgo.Pgx.Wtx.{
  total_cost, check_plans, explained, log_and_assert_query_plan_costs, guarded, run_query, exec,
}

no_test-set :
    (ctx : Context)
    → no_test_for_max_query_plan_costs (with_no_test_for_max_query_plan_costs ctx) ≡ true
unfolding no_test_for_max_query_plan_costs with_no_test_for_max_query_plan_costs value with_value
no_test-set ctx = refl

module _ {S Tx Cost A : Type 0} (lib : Library S Tx) (costs : Costs Cost) (limit : Cost) where
  -- Under the opt-out of the context a query runs as it is, with no EXPLAIN before it.
  pub run_query_opted_out :
      (run : S → S × Result A) (ctx : Context) (tx : Tx) (sql : String) (s : S)
      → run_query lib costs limit run (with_no_test_for_max_query_plan_costs ctx) tx sql s ≡ run s
  unfolding run_query guarded log_and_assert_query_plan_costs
  run_query_opted_out run ctx tx sql s = ground (arith, no_test-set ctx)

  -- When cost assertion is on and not opted out of, and EXPLAIN answers with plans whose total
  -- exceeds the limit, the query never runs: the state is the one after EXPLAIN.
  pub run_query_over_budget :
      (run : S → S × Result A) (ctx : Context) (tx : Tx) (sql json : String) (s s' : S)
      (plans : List Cost)
      → costs.not_positive limit ≡ false
      → no_test_for_max_query_plan_costs ctx ≡ false
      → lib.query_row_scan ctx tx ("EXPLAIN (FORMAT JSON) " ++ sql) s ≡ (s', ok json)
      → costs.unmarshal json ≡ ok plans
      → costs.exceeds (total_cost lib costs limit costs.zero_cost plans) limit ≡ true
      → run_query lib costs limit run ctx tx sql s
        ≡ (s', err (message "query plan cost exceeds maximum"))
  unfolding run_query guarded log_and_assert_query_plan_costs explained check_plans
  run_query_over_budget run ctx tx sql json s s' plans on tested e d over =
      rw (on, tested, e, explained, d, check_plans, over)
        (ap (λ r. (r.0, err (message "query plan cost exceeds maximum"))) e)

pub exec_opted_out :
    {S Tx Cost : Type 0} (lib : Library S Tx) (costs : Costs Cost) (limit : Cost) (ctx : Context)
    (tx : Tx) (sql : String) (s : S)
    → exec lib costs limit (with_no_test_for_max_query_plan_costs ctx) tx sql s
      ≡ lib.exec (with_no_test_for_max_query_plan_costs ctx) tx sql s
unfolding exec
exec_opted_out lib costs limit ctx tx sql s =
    run_query_opted_out lib costs limit
      (lib.exec (with_no_test_for_max_query_plan_costs ctx) tx sql) ctx tx sql s
