-- ===== src/Stdent/Budget/Tests.antt =====
-- The theorem on query budgets at plans that cost 12.
use stdgo.Base.{ℕ, ◌+◌, some, [], ◌∷◌, ◌≡◌, refl, ltb, leb}
use stdgo.Go.Context.{value}
use stdgo.Go.Errors.{message, ok, err}
use stdgo.Pgx.Library.{Costs}
use stdgo.Stdent.Scope.{no_test_for_max_query_plan_costs}
use stdgo.Stdent.Driver.{Wtx}
use stdgo.Stdent.Budget.{Library, to_sql_tx, total_cost, exec}
use stdgo.Stdent.Budget.Laws.{exec_budget}

-- The state counts the statements that ran.
abbrev library : Library ℕ (Unit {0}) (Unit {0}) (Unit {0})
library = record {
  exec = λ _ _ _ s. (s + 1, ok tt);
  query = λ _ _ _ s. (s, ok tt);
  scan_string = λ _ s. (s, ok "[]");
  as_ent_tx = λ _. some tt;
  as_sql_tx = λ _. some tt;
  query_context = λ _ _ _ s. (s + 1, ok tt);
  exec_context = λ _ _ _ s. (s + 1, ok tt);
}

abbrev costs : Costs ℕ
costs = record {
  zero_cost = 0;
  add = λ a b. a + b;
  not_positive = λ a. leb a 0;
  exceeds = λ a b. ltb b a;
  unmarshal = λ _. ok (5 ∷ 7 ∷ []);
}

abbrev tight : Wtx ℕ
tight = record { tx = 1; max_query_plan_costs = 10 }

exec_budget_example :
    exec library costs tight [] "SELECT 1" 0 ≡ (0, err (message "query plan cost exceeds maximum"))
unfolding no_test_for_max_query_plan_costs value to_sql_tx total_cost
exec_budget_example =
    exec_budget library costs tight [] "SELECT 1" "[]" 0 0 0 tt tt (5 ∷ 7 ∷ []) refl refl refl refl
      refl refl
