-- ===== src/River.antt =====
-- fx/stdriverfx/transact_worker.go, enqueuer.go and work.go: jobs of the River queue. `A` is the type
-- of arguments and `O` of outputs; River, protovalidate and a transaction's `Exec` are parameters.
pub mod Lifecycle
pub mod Completion
mod Tests
use Prim.Native.String.{◌++◌}
use stdgo.Base.{ℕ, String, Option, none, some}
use stdgo.Base.Int.{ℤ, pos, ◌+ℤ◌, quot}
use stdgo.Go.Context.{Context}
use stdgo.Go.Errors.{GoError, wrap}
use stdgo.Go.Format.{format_int}
use stdgo.Go.Outcome.{Outcome, returned, panicked, exited}
use stdgo.Failsafe.{Execute}
use stdgo.Stdtx.Driver.{Driver}
use stdgo.Stdtx.Scope.{with_no_test_for_max_query_plan_costs}
use stdgo.Stdtx.Transact.{Handler, transact0}

-- `until_deadline` is `time.Until` of the context's deadline, in nanoseconds.
pub record Library (S Tx A O : Type 0) : Type 0 where
  pub validate_args : A → Option GoError
  pub validate_output : O → Option GoError
  pub job_cancel : GoError → GoError
  pub until_deadline : Context → S → Option ℤ
  pub exec : Context → Tx → (sql : String) → S → S × Option GoError
  pub record_output : Context → O → S → S × Option GoError
  pub job_complete_tx : Context → Tx → A → S → S × Option GoError
  pub insert_tx : Context → Tx → A → S → S × Option GoError

abbrev pub Work : (S Tx A O : Type 0) → Type 0
Work S Tx A O = Context → Tx → A → S → S × Outcome O

-- The call returned, with an error or without one.
abbrev pub then_step :
    {S : Type 0}
    → String
    → S × Option GoError
    → (S → S × Outcome (Unit {0}))
    → S × Outcome (Unit {0})
then_step what (s, some e) k = (s, returned tt (some (wrap what e)))
then_step what (s, none) k = k s

-- `fmt.Errorf` around the error of an outcome.
abbrev pub wrap_outcome : {S : Type 0} → String → S × Outcome (Unit {0}) → S × Outcome (Unit {0})
wrap_outcome what (s, returned u none) = (s, returned u none)
wrap_outcome what (s, returned u (some e)) = (s, returned u (some (wrap what e)))
wrap_outcome what (s, panicked v) = (s, panicked v)
wrap_outcome what (s, exited) = (s, exited)

-- `time.Until(dl.Add(time.Second * 5)).Milliseconds()`
unfoldable pub tx_timeout : (until : ℤ) → ℤ
tx_timeout until = quot (until +ℤ pos 5_000_000_000) 1_000_000

unfoldable pub timeout_sql : (until : ℤ) → String
unfolding tx_timeout
timeout_sql until =
    "\n\t\t\t\tSET SESSION idle_in_transaction_session_timeout = "
    ++ format_int (tx_timeout until)
    ++ ";\n\t\t\t\tSET SESSION transaction_timeout = "
    ++ format_int (tx_timeout until)
    ++ ";\n\t\t\t"

module _ {S Tx A O : Type 0} (lib : Library S Tx A O) where
  abbrev pub set_timeouts : Context → Tx → Option ℤ → S → S × Option GoError
  set_timeouts ctx tx none s = (s, none)
  set_timeouts ctx tx (some until) s =
      lib.exec (with_no_test_for_max_query_plan_costs ctx) tx (timeout_sql until) s

  -- A job's validated output is recorded, and the job completed.
  abbrev pub complete : Context → Tx → A → O → Option GoError → S → S × Outcome (Unit {0})
  complete ctx tx args output (some e) s =
      (s, returned tt (some (lib.job_cancel (wrap "validate job output" e))))
  complete ctx tx args output none s =
      then_step "record output" (lib.record_output ctx output s) (λ s.
        then_step "job complete tx" (lib.job_complete_tx ctx tx args s)
          (λ s. (s, returned tt none)))

  abbrev pub worked : Context → Tx → A → S × Outcome O → S × Outcome (Unit {0})
  worked ctx tx args (s, returned output (some e)) = (s, returned tt (some (wrap "perform work" e)))
  worked ctx tx args (s, returned output none) =
      complete ctx tx args output (lib.validate_output output) s
  worked ctx tx args (s, panicked v) = (s, panicked v)
  worked ctx tx args (s, exited) = (s, exited)

  -- The handler that `transact` gives to `Transact0`.
  unfoldable pub work_in_tx : Work S Tx A O → A → Handler S Tx (Unit {0})
  unfolding timeout_sql
  work_in_tx hdlr args ctx tx s =
      then_step "failed to set session idle timeout"
        (set_timeouts ctx tx (lib.until_deadline ctx s) s)
        (λ s. worked ctx tx args (hdlr ctx tx args s))

  abbrev pub transact_valid :
      Driver S Tx
      → Execute (Unit {0}) S
      → Work S Tx A O
      → Option GoError
      → Context
      → A
      → S
      → S × Outcome (Unit {0})
  transact_valid drv execute hdlr (some e) ctx args s =
      (s, returned tt (some (lib.job_cancel (wrap "validate job arguments" e))))
  transact_valid drv execute hdlr none ctx args s =
      wrap_outcome "work transact" (transact0 drv execute ctx (work_in_tx hdlr args) s)

  unfoldable pub transact :
      Driver S Tx → Execute (Unit {0}) S → Work S Tx A O → Context → A → S → S × Outcome (Unit {0})
  unfolding work_in_tx
  transact drv execute hdlr ctx args s =
      transact_valid drv execute hdlr (lib.validate_args args) ctx args s

  abbrev pub enqueue_valid : Option GoError → Context → Tx → A → S → S × Option GoError
  enqueue_valid (some e) ctx tx args s = (s, some (wrap "validate args" e))
  enqueue_valid none ctx tx args s = lib.insert_tx ctx tx args s

  unfoldable pub enqueue : Context → Tx → A → S → S × Option GoError
  enqueue ctx tx args s = enqueue_valid (lib.validate_args args) ctx tx args s
