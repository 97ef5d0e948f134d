-- ===== src/Pgx/Wtx.antt =====
-- stdtx/stdtxpgxv5/tx.go: the wrapped transaction, which asserts the cost of a query's plan before
-- the query runs. Logging and query arguments are left out; the query itself is the argument
-- `run`, one function for each of `Exec`, `Query` and `QueryRow`.
pub mod Budget
use Prim.Native.String.{◌++◌}
use stdgo.Base.{
  String, Bool, true, false, Option, none, some, List, [], ◌∷◌, ◌||◌, not, if◌then◌else◌,
}
use stdgo.Go.Context.{Context}
use stdgo.Go.Errors.{GoError, message, wrap, Result, ok, err}
use stdgo.Stdtx.Scope.{no_test_for_max_query_plan_costs}
use stdgo.Pgx.Library.{Library, Costs}

module _ {S Tx Cost : Type 0} (lib : Library S Tx) (costs : Costs Cost)
    (max_query_plan_costs : Cost) where
  -- `cumCostOfAllPlans`
  unfoldable pub total_cost : Cost → List Cost → Cost
  total_cost sum [] = sum
  total_cost sum (c ∷ cs) = total_cost (costs.add sum c) cs

  pub check_plans : Result (List Cost) → Option GoError
  check_plans (err e) = some (wrap "unmarshal query plan json" e)
  check_plans (ok plans) =
      if costs.exceeds (total_cost costs.zero_cost plans) max_query_plan_costs
      then some (message "query plan cost exceeds maximum")
      else none

  pub explained : S × Result String → S × Option GoError
  explained (s, err e) = (s, some (wrap "query row for EXPLAIN" e))
  explained (s, ok expl_json) = (s, check_plans (costs.unmarshal expl_json))

  pub log_and_assert_query_plan_costs : Context → Tx → String → S → S × Option GoError
  log_and_assert_query_plan_costs ctx tx sql s =
      if costs.not_positive max_query_plan_costs || no_test_for_max_query_plan_costs ctx
      then (s, none)
      else explained (lib.query_row_scan ctx tx ("EXPLAIN (FORMAT JSON) " ++ sql) s)

  pub guarded : {A : Type 0} → (S → S × Result A) → S × Option GoError → S × Result A
  guarded run (s, some e) = (s, err e)
  guarded run (s, none) = run s

  pub run_query : {A : Type 0} → (S → S × Result A) → Context → Tx → String → S → S × Result A
  run_query run ctx tx sql s = guarded run (log_and_assert_query_plan_costs ctx tx sql s)

  -- `wtx.Exec`
  pub exec : Context → Tx → String → S → S × Result (Unit {0})
  exec ctx tx sql = run_query (lib.exec ctx tx sql) ctx tx sql
