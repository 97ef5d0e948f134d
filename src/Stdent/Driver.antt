-- ===== src/Stdent/Driver.antt =====
-- stdent/driver.go: the ent driver that checks the isolation level and sets a transaction up before
-- it is handed out. `until_deadline` is `time.Until` of the context's deadline, in nanoseconds.
pub mod Laws
mod Tests
use Prim.Native.String.{◌++◌}
use stdgo.Base.{
  ℕ, ◌==◌, String, Bool, true, false, Option, none, some, List, [], ◌∷◌, if◌then◌else◌,
}
use stdgo.Base.Int.{ℤ, pos, ◌+ℤ◌, int64, quot}
use stdgo.Go.Context.{Context}
use stdgo.Go.Errors.{GoError, message, wrap, Result, ok, err}
use stdgo.Go.Format.{format_int}
use stdgo.Stdent.Transactor.{
  IsolationLevel, read_committed, repeatable_read, serializable, TxOptions,
}

-- The wrapped `entdialect.Driver` and its transactions; `begin_tx` is there if the driver has it.
pub record BaseDriver (S : Type 0) : Type 0 where
  pub begin_tx : Option (Context → TxOptions → S → S × Result ℕ)
  pub rollback : ℕ → S → S × Option GoError
  pub commit : ℕ → S → S × Option GoError
  pub exec : Context → ℕ → String → S → S × Option GoError
  pub until_deadline : Context → S → Option ℤ

-- `BeginHookFunc`: the builder's text in, the builder's text out.
abbrev pub BeginHook : Type 0 → Type 0
BeginHook S = Context → String → ℕ → S → S × Result String

pub record Driver (S Cost : Type 0) : Type 0 where
  pub base : BaseDriver S
  pub timeout_extension : ℕ
  pub max_query_plan_costs : Cost
  pub discourage_seq_scans : Bool
  pub begin_hook : BeginHook S

-- `WTx`: the transaction with its cost limit.
pub record Wtx (Cost : Type 0) : Type 0 where
  pub tx : ℕ
  pub max_query_plan_costs : Cost

module _ {S Cost : Type 0} where
  -- The option functions.
  abbrev pub test_for_max_query_plan_costs : Cost → Driver S Cost → Driver S Cost
  test_for_max_query_plan_costs v d = record d { max_query_plan_costs = v }

  abbrev pub discourage_sequential_scans : Driver S Cost → Driver S Cost
  discourage_sequential_scans d = record d { discourage_seq_scans = true }

  abbrev pub with_begin_hook : BeginHook S → Driver S Cost → Driver S Cost
  with_begin_hook v d = record d { begin_hook = v }

  unfoldable pub apply_options :
      List (Driver S Cost → Driver S Cost) → Driver S Cost → Driver S Cost
  apply_options [] d = d
  apply_options (f ∷ fs) d = apply_options fs (f d)

  -- An extension of zero becomes twenty seconds.
  abbrev pub default_extension : Driver S Cost → Driver S Cost
  default_extension d =
      if d.timeout_extension == 0 then record d { timeout_extension = 20_000_000_000 } else d

  -- `NewDriver`
  unfoldable pub new_driver :
      (zero_cost : Cost) → BaseDriver S → List (Driver S Cost → Driver S Cost) → Driver S Cost
  unfolding apply_options
  new_driver zero_cost base opts = default_extension (
      apply_options opts (record {
        base = base;
        timeout_extension = 0;
        max_query_plan_costs = zero_cost;
        discourage_seq_scans = false;
        begin_hook = λ _ sql _ s. (s, ok sql);
      }))

abbrev pub is_allowed : IsolationLevel → Bool
is_allowed read_committed = true
is_allowed repeatable_read = true
is_allowed serializable = true
is_allowed _ = false

-- `(time.Until(dl) + d.timeoutExtension).Milliseconds()`; a `time.Duration` is an `int64`.
unfoldable pub timeout_millis : ℤ → ℕ → ℤ
timeout_millis until extension = quot (int64 (until +ℤ pos extension)) 1_000_000

module _ {S Cost : Type 0} (d : Driver S Cost) where
  abbrev pub timeout_sql : Option ℤ → String → String
  timeout_sql none sql = sql
  timeout_sql (some until) sql =
      sql
      ++ "SET LOCAL transaction_timeout = "
      ++ format_int (timeout_millis until d.timeout_extension)
      ++ ";"

  abbrev pub seq_scan_sql : String → String
  seq_scan_sql sql = if d.discourage_seq_scans then sql ++ "SET LOCAL enable_seqscan = OFF" else sql

  abbrev pub as_setup_error : S × Option GoError → S × Option GoError
  as_setup_error (s, none) = (s, none)
  as_setup_error (s, some e) = (s, some (wrap "failed to set authenticated setting" e))

  unfoldable pub after_hook : Context → ℕ → S × Result String → S × Option GoError
  after_hook ctx tx (s, err e) = (s, some (wrap "setup hook" e))
  after_hook ctx tx (s, ok sql) =
      as_setup_error
        (d.base.exec ctx tx (seq_scan_sql (timeout_sql (d.base.until_deadline ctx s) sql)) s)

  unfoldable pub setup_tx : Context → ℕ → S → S × Option GoError
  setup_tx ctx tx s = after_hook ctx tx (d.begin_hook ctx "" tx s)

  unfoldable pub after_setup : ℕ → S × Option GoError → S × Result (Wtx Cost)
  after_setup tx (s, none) =
      (s, ok (record { tx = tx; max_query_plan_costs = d.max_query_plan_costs }))
  after_setup tx (s, some e) =
      ((d.base.rollback tx s).0, err (wrap "failed to setup tx, rolled back" e))

  unfoldable pub after_begin : Context → S × Result ℕ → S × Result (Wtx Cost)
  after_begin ctx (s, err e) = (s, err e)
  after_begin ctx (s, ok tx) = after_setup tx (setup_tx ctx tx s)

  -- By whether the base driver has a `BeginTx`.
  unfoldable pub begin_on :
      Option (Context → TxOptions → S → S × Result ℕ)
      → Context
      → TxOptions
      → S
      → S × Result (Wtx Cost)
  begin_on none ctx opts s = (s, err (message "Driver.BeginTx is not supported"))
  begin_on (some begin) ctx opts s =
      if is_allowed opts.isolation
      then after_begin ctx (begin ctx opts s)
      else (s, err (message "isolation level is not allowed"))

  unfoldable pub begin_tx : Context → TxOptions → S → S × Result (Wtx Cost)
  unfolding begin_on
  begin_tx = begin_on d.base.begin_tx

  -- `Tx`, `Exec` and `Query`
  unfoldable pub tx : Context → S → S × Result (Wtx Cost)
  tx ctx = begin_tx ctx (record { isolation = repeatable_read; read_only = false })

  pub exec : Context → String → S → S × Option GoError
  exec ctx sql s = (s, some (message "Driver.Exec is not supported: create a transaction instead"))

  pub query : Context → String → S → S × Option GoError
  query ctx sql s =
      (s, some (message "Driver.Query is not supported: create a transaction instead"))
