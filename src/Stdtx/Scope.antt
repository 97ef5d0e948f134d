-- ===== src/Stdtx/Scope.antt =====
-- stdtx/context.go: what the package keeps in the context.
use stdgo.Base.{ℕ, Bool, true, false, Option, none, some, ◌≡◌, refl, ap}
use stdgo.Go.Outcome.{Outcome, returned, or_panic}
use stdgo.Go.Context.{Context, Any, int, bool, stdtx_key, with_value, value}

-- A type assertion to `int`.
abbrev pub as_int : Option Any → Option ℕ
as_int (some (int v)) = some v
as_int _ = none

-- `v, ok := x.(bool); if !ok { return false }`.
abbrev pub as_bool : Option Any → Bool
as_bool (some (bool b)) = b
as_bool _ = false

unfoldable pub context_with_attempts : Context → ℕ → Context
context_with_attempts ctx v = with_value ctx (stdtx_key "attempts") (int v)

unfoldable pub attempts_from_context : Context → Option ℕ
attempts_from_context ctx = as_int (value ctx (stdtx_key "attempts"))

unfoldable pub attempt_from_context : Context → Outcome ℕ
attempt_from_context ctx =
    or_panic "stdtx: no execution attempts in context" (attempts_from_context ctx)

unfoldable pub with_no_test_for_max_query_plan_costs : Context → Context
with_no_test_for_max_query_plan_costs ctx =
    with_value ctx (stdtx_key "no_test_for_max_query_plan_costs") (bool true)

unfoldable pub no_test_for_max_query_plan_costs : Context → Bool
no_test_for_max_query_plan_costs ctx =
    as_bool (value ctx (stdtx_key "no_test_for_max_query_plan_costs"))

pub attempts_from_context-context_with_attempts :
    (ctx : Context) (k : ℕ) → attempts_from_context (context_with_attempts ctx k) ≡ some k
unfolding attempts_from_context context_with_attempts value with_value
attempts_from_context-context_with_attempts ctx k = refl

-- The handler of an attempt can ask for its number without a panic.
attempt_from_context-context_with_attempts :
    (ctx : Context) (k : ℕ) → attempt_from_context (context_with_attempts ctx k) ≡ returned k none
unfolding attempt_from_context
attempt_from_context-context_with_attempts ctx k =
    ap (or_panic "stdtx: no execution attempts in context")
      (attempts_from_context-context_with_attempts ctx k)
