-- ===== src/Stdent/Scope.antt =====
-- stdent/context.go and the promotion marker of stdent/readpromote.go. `type_id` stands for the Go
-- type of a transaction, which the assertion `v.(T)` tests.
use stdgo.Base.{ℕ, Bool, true, Option, none, some, ◌≡◌, refl, ap, if◌then◌else◌, ◌==◌, arith}
use stdgo.Go.Outcome.{Outcome, returned, or_panic}
use stdgo.Go.Context.{
  Context, Any, int, bool, tx_handle, stdent_key, read_promotion_key, with_value, value,
}
use stdgo.Stdtx.Scope.{as_int, as_bool}

unfoldable pub with_no_test_for_max_query_plan_costs : Context → Context
with_no_test_for_max_query_plan_costs ctx =
    with_value ctx (stdent_key "no_test_for_max_query_plan_costs") (bool true)

unfoldable pub no_test_for_max_query_plan_costs : Context → Bool
no_test_for_max_query_plan_costs ctx =
    as_bool (value ctx (stdent_key "no_test_for_max_query_plan_costs"))

unfoldable pub context_with_attempts : Context → ℕ → Context
context_with_attempts ctx v = with_value ctx (stdent_key "attempts") (int v)

unfoldable pub attempts_from_context : Context → Option ℕ
attempts_from_context ctx = as_int (value ctx (stdent_key "attempts"))

unfoldable pub attempt_from_context : Context → Outcome ℕ
attempt_from_context ctx =
    or_panic "stdenttx: no execution attempts in context" (attempts_from_context ctx)

unfoldable pub context_with_tx : ℕ → Context → ℕ → Context
context_with_tx type_id ctx tx = with_value ctx (stdent_key "tx") (tx_handle type_id tx)

abbrev as_tx : ℕ → Option Any → Option ℕ
as_tx type_id (some (tx_handle t id)) = if t == type_id then some id else none
as_tx type_id _ = none

unfoldable pub tx_from_context : ℕ → Context → Option ℕ
tx_from_context type_id ctx = as_tx type_id (value ctx (stdent_key "tx"))

-- `TxFromContext`; `%T` is left out of the panic's text.
unfoldable pub tx_from_context_or_panic : ℕ → Context → Outcome ℕ
tx_from_context_or_panic type_id ctx =
    or_panic "stdenttx: no tx in context or not of type" (tx_from_context type_id ctx)

unfoldable pub with_read_promotion : Context → Context
with_read_promotion ctx = with_value ctx read_promotion_key (bool true)

unfoldable pub has_read_promotion : Context → Bool
has_read_promotion ctx = as_bool (value ctx read_promotion_key)

pub tx_from_context-context_with_tx :
    (type_id : ℕ) (ctx : Context) (tx k : ℕ)
    → tx_from_context type_id (context_with_attempts (context_with_tx type_id ctx tx) k) ≡ some tx
unfolding tx_from_context context_with_attempts context_with_tx value with_value
tx_from_context-context_with_tx type_id ctx tx k = ground arith

pub has_read_promotion-with_read_promotion :
    (ctx : Context) → has_read_promotion (with_read_promotion ctx) ≡ true
unfolding has_read_promotion with_read_promotion value with_value
has_read_promotion-with_read_promotion ctx = refl

-- The promotion stamp hides no transaction.
pub tx_from_context-with_read_promotion :
    (type_id : ℕ) (ctx : Context)
    → tx_from_context type_id (with_read_promotion ctx) ≡ tx_from_context type_id ctx
unfolding tx_from_context with_read_promotion value with_value
tx_from_context-with_read_promotion type_id ctx = refl

-- The handler of an attempt gets its number and its transaction without a panic.
attempt_from_context-context_with_attempts :
    (type_id : ℕ) (ctx : Context) (tx k : ℕ)
    → let inner = context_with_attempts (context_with_tx type_id ctx tx) k in
      (attempt_from_context inner ≡ returned k none)
      × (tx_from_context_or_panic type_id inner ≡ returned tx none)
unfolding attempt_from_context tx_from_context_or_panic attempts_from_context context_with_attempts
    value with_value
attempt_from_context-context_with_attempts type_id ctx tx k = (
  refl,
  ap (or_panic "stdenttx: no tx in context or not of type")
      (tx_from_context-context_with_tx type_id ctx tx k),
)
