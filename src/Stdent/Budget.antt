-- ===== src/Stdent/Budget.antt =====
-- stdent/wtx.go: the transaction that asserts the cost of a query's plan before the query runs. The
-- ent transaction, `sql.Tx` and the decoding of plans are parameters; logging and query arguments are
-- left out.
mod Laws
mod Tests
use Prim.Native.String.{◌++◌ as concat}
use stdgo.Base.{
  ℕ, String, Bool, true, false, Option, none, some, List, [], ◌∷◌, ◌||◌, if◌then◌else◌,
}
use stdgo.Go.Context.{Context}
use stdgo.Go.Errors.{GoError, message, wrap, Result, ok, err}
use stdgo.Go.Outcome.{Outcome, returned, panicked}
use stdgo.Pgx.Library.{Costs}
use stdgo.Stdent.Scope.{no_test_for_max_query_plan_costs}
use stdgo.Stdent.Driver.{Wtx}

-- What the wrapped ent transaction does: it runs a statement, or a query whose rows are scanned;
-- `as_ent_tx` and `as_sql_tx` are the two type assertions on the way to its `sql.Tx`.
pub record Library (S Rows Ent Sql : Type 0) : Type 0 where
  pub exec : Context → ℕ → String → S → S × Result Rows
  pub query : Context → ℕ → String → S → S × Result Rows
  pub scan_string : Rows → S → S × Result String
  pub as_ent_tx : ℕ → Option Ent
  pub as_sql_tx : Ent → Option Sql
  pub query_context : Context → Sql → String → S → S × Result Rows
  pub exec_context : Context → Sql → String → S → S × Result Rows

module _ {S Rows Ent Sql Cost : Type 0} (lib : Library S Rows Ent Sql) (costs : Costs Cost) where
  abbrev pub of_ent_tx : Option Ent → Result Sql
  of_ent_tx none = err (message "WTx does not implement *entgo.io/ent/dialect/sql.Tx")
  of_ent_tx (some ent_tx) = elim (lib.as_sql_tx ent_tx) [
    | none ↦ err (message "WTx does not contain *sql.Tx")
    | some sql_tx ↦ ok sql_tx
  ]

  unfoldable pub to_sql_tx : Wtx Cost → Result Sql
  to_sql_tx w = of_ent_tx (lib.as_ent_tx w.tx)

  abbrev pub or_panic : Result Sql → Outcome (Option Sql)
  or_panic (ok sql_tx) = returned (some sql_tx) none
  or_panic (err e) = panicked "stdent: convert ent tx to *sql.Tx"

  unfoldable pub standard_tx : Wtx Cost → Outcome (Option Sql)
  standard_tx w = or_panic (to_sql_tx w)

  abbrev pub on_sql_tx : (Sql → S → S × Result Rows) → Result Sql → S → S × Result Rows
  on_sql_tx run (err e) s = (s, err e)
  on_sql_tx run (ok sql_tx) s = run sql_tx s

  unfoldable pub query_context : Wtx Cost → Context → String → S → S × Result Rows
  query_context w ctx sql = on_sql_tx (λ sql_tx. lib.query_context ctx sql_tx sql) (to_sql_tx w)

  unfoldable pub exec_context : Wtx Cost → Context → String → S → S × Result Rows
  exec_context w ctx sql = on_sql_tx (λ sql_tx. lib.exec_context ctx sql_tx sql) (to_sql_tx w)

  -- `cumCostOfAllPlans`
  unfoldable pub total_cost : Cost → List Cost → Cost
  total_cost sum [] = sum
  total_cost sum (c ∷ cs) = total_cost (costs.add sum c) cs

  module _ (w : Wtx Cost) (run : S → S × Result Rows) where
    abbrev pub on_plans : Result (List Cost) → S → S × Result Rows
    on_plans (err e) s = (s, err (wrap "failed to unmarshal query plan json" e))
    on_plans (ok plans) s =
        if costs.exceeds (total_cost costs.zero_cost plans) w.max_query_plan_costs
        then (s, err (message "query plan cost exceeds maximum"))
        else run s

    abbrev pub on_text : S × Result String → S × Result Rows
    on_text (s, err e) = (s, err (wrap "failed to scan EXPLAIN json" e))
    on_text (s, ok json) = on_plans (costs.unmarshal json) s

    abbrev pub on_rows : S × Result Rows → S × Result Rows
    on_rows (s, err e) = (s, err (wrap "failed to query explain to determine plan cost" e))
    on_rows (s, ok rows) = on_text (lib.scan_string rows s)

    abbrev pub on_cast : Context → String → Result Sql → S → S × Result Rows
    on_cast ctx sql (err e) s = (s, err (wrap "failed to cast WTx into sql.Tx" e))
    on_cast ctx sql (ok sql_tx) s =
        on_rows (lib.query ctx w.tx (concat "EXPLAIN (FORMAT JSON) " sql) s)

    -- `WTx.do`
    unfoldable pub guarded : Context → String → S → S × Result Rows
    unfolding total_cost
    guarded ctx sql s =
        if costs.not_positive w.max_query_plan_costs || no_test_for_max_query_plan_costs ctx
        then run s
        else on_cast ctx sql (to_sql_tx w) s

  unfoldable pub exec : Wtx Cost → Context → String → S → S × Result Rows
  unfolding guarded
  exec w ctx sql = guarded w (lib.exec ctx w.tx sql) ctx sql

  unfoldable pub query : Wtx Cost → Context → String → S → S × Result Rows
  unfolding guarded
  query w ctx sql = guarded w (lib.query ctx w.tx sql) ctx sql
