-- ===== src/Stdent/Budget/Laws.antt =====
-- What a query runs after its plan was explained.
use Prim.Native.String.{◌++◌ as concat}
use stdgo.Base.{String, false, List, ◌≡◌, ap, ◌∙◌, if◌then◌else◌}
use stdgo.Go.Context.{Context}
use stdgo.Go.Errors.{message, Result, ok, err}
use stdgo.Pgx.Library.{Costs}
use stdgo.Stdent.Scope.{no_test_for_max_query_plan_costs}
use stdgo.Stdent.Driver.{Wtx}
use stdgo.Stdent.Budget.{Library, to_sql_tx, total_cost, on_plans, on_text, on_rows, guarded, exec}

module _ {S Rows Ent Sql Cost : Type 0} (lib : Library S Rows Ent Sql) (costs : Costs Cost) where
  -- When cost assertion is on and not opted out of, the transaction casts to a sql.Tx and EXPLAIN
  -- answers with plans, Exec runs the statement in the state after EXPLAIN if the total of the
  -- plans does not exceed the limit, and otherwise returns the error with nothing run.
  pub exec_budget :
      (w : Wtx Cost) (ctx : Context) (sql json : String) (s s₁ s₂ : S) (sql_tx : Sql) (rows : Rows)
      (plans : List Cost)
      → costs.not_positive w.max_query_plan_costs ≡ false
      → no_test_for_max_query_plan_costs ctx ≡ false
      → to_sql_tx lib costs w ≡ ok sql_tx
      → lib.query ctx w.tx (concat "EXPLAIN (FORMAT JSON) " sql) s ≡ (s₁, ok rows)
      → lib.scan_string rows s₁ ≡ (s₂, ok json)
      → costs.unmarshal json ≡ ok plans
      → exec lib costs w ctx sql s ≡ (
          if costs.exceeds (total_cost lib costs costs.zero_cost plans) w.max_query_plan_costs
          then (s₂, err (message "query plan cost exceeds maximum"))
          else lib.exec ctx w.tx sql s₂)
  unfolding exec guarded
  exec_budget w ctx sql json s s₁ s₂ sql_tx rows plans on tested cast asked scanned decoded =
      rw (on, tested, cast)
        (ap (on_rows lib costs w run) asked
          ∙ ap (on_text lib costs w run) scanned
          ∙ ap (λ p. on_plans lib costs w run p s₂) decoded)
    where
      run : S → S × Result Rows
      run = lib.exec ctx w.tx sql
