-- ===== src/Pgx/Driver.antt =====
-- stdtx/stdtxpgxv5/driver.go and options.go. The string builder is the text that it holds.
mod Laws
mod Tests
use Prim.Native.String.{◌++◌}
use stdgo.Base.{
  ℕ, String, Bool, true, false, Option, none, some, List, [], ◌∷◌, if◌then◌else◌, str_eq,
}
use stdgo.Go.Context.{Context}
use stdgo.Go.Errors.{GoError, wrap, tx_closed, Result, ok, err}
use stdgo.Stdtx.Driver.{Driver}
use stdgo.Stdtx.Scope.{with_no_test_for_max_query_plan_costs}
use stdgo.Pgx.Library.{Library, Costs, IsoLevel, repeatable_read, AccessMode, read_write}
use stdgo.Pgx.Wtx

pub record Options (S Tx Cost : Type 0) : Type 0 where
  pub tx_iso_level : IsoLevel
  pub tx_access_mode : AccessMode
  pub tx_begin_sql : Context → String → Tx → S → S × Result String
  pub discourage_seq_scans : Bool
  pub max_query_plan_costs : Cost
  pub on_tx_commit : Context → AccessMode → Tx → S → S × Option GoError

module _ {S Tx Cost : Type 0} where
  -- The option functions.
  abbrev pub access_mode : AccessMode → Options S Tx Cost → Options S Tx Cost
  access_mode v o = record o { tx_access_mode = v }

  abbrev pub discourage_seq_scan : Bool → Options S Tx Cost → Options S Tx Cost
  discourage_seq_scan v o = record o { discourage_seq_scans = v }

  abbrev pub begin_with_sql :
      (Context → String → Tx → S → S × Result String) → Options S Tx Cost → Options S Tx Cost
  begin_with_sql v o = record o { tx_begin_sql = v }

  abbrev pub on_tx_commit :
      (Context → AccessMode → Tx → S → S × Option GoError) → Options S Tx Cost → Options S Tx Cost
  on_tx_commit v o = record o { on_tx_commit = v }

  abbrev pub isolation_mode : IsoLevel → Options S Tx Cost → Options S Tx Cost
  isolation_mode v o = record o { tx_iso_level = v }

  abbrev pub test_for_max_query_plan_costs : Cost → Options S Tx Cost → Options S Tx Cost
  test_for_max_query_plan_costs v o = record o { max_query_plan_costs = v }

  -- The options before those of the caller; the cost limit is the zero value of `float64`.
  abbrev pub default_options : Costs Cost → Options S Tx Cost
  default_options costs = record {
    tx_iso_level = repeatable_read;
    tx_access_mode = read_write;
    tx_begin_sql = λ _ sql _ s. (s, ok sql);
    discourage_seq_scans = false;
    max_query_plan_costs = costs.zero_cost;
    on_tx_commit = λ _ _ _ s. (s, none);
  }

  -- `for _, opt := range opts { opt(&drv.opts) }`
  unfoldable pub apply_options :
      List (Options S Tx Cost → Options S Tx Cost) → Options S Tx Cost → Options S Tx Cost
  apply_options [] o = o
  apply_options (f ∷ fs) o = apply_options fs (f o)

-- The text that `setupTx` has built when it comes to run it.
abbrev pub begin_sql : {S Tx Cost : Type 0} → Options S Tx Cost → String → String
begin_sql opts sql =
    if opts.discourage_seq_scans then sql ++ "SET LOCAL enable_seqscan = OFF;" else sql

module _ {S Tx Cost : Type 0} (lib : Library S Tx) (costs : Costs Cost)
    (opts : Options S Tx Cost) where
  abbrev pub as_setup_error : S × Result (Unit {0}) → S × Option GoError
  as_setup_error (s, ok _) = (s, none)
  as_setup_error (s, err e) = (s, some (wrap "execute tx begin sql" e))

  pub run_begin_sql : Context → Tx → String → S → S × Option GoError
  run_begin_sql ctx tx sql s =
      if str_eq sql ""
      then (s, none)
      else as_setup_error (
          Wtx.exec lib costs opts.max_query_plan_costs (with_no_test_for_max_query_plan_costs ctx)
            tx sql s)

  pub after_hook : Context → Tx → S × Result String → S × Option GoError
  after_hook ctx tx (s, err e) = (s, some (wrap "setup hook" e))
  after_hook ctx tx (s, ok sql) = run_begin_sql ctx tx (begin_sql opts sql) s

  pub setup_tx : Context → Tx → S → S × Option GoError
  setup_tx ctx tx s = after_hook ctx tx (opts.tx_begin_sql ctx "" tx s)

  pub after_setup : Context → Tx → S × Option GoError → S × Result Tx
  after_setup ctx tx (s, none) = (s, ok tx)
  after_setup ctx tx (s, some e) = ((lib.rollback ctx tx s).0, err (wrap "setup tx, rolled back" e))

  pub after_begin : Context → S × Result Tx → S × Result Tx
  after_begin ctx (s, err e) = (s, err e)
  after_begin ctx (s, ok tx) = after_setup ctx tx (setup_tx ctx tx s)

  pub begin_tx : Context → S → S × Result Tx
  begin_tx ctx s = after_begin ctx (lib.begin opts.tx_iso_level opts.tx_access_mode ctx s)

  pub after_commit_hook : Context → Tx → S × Option GoError → S × Option GoError
  after_commit_hook ctx tx (s, some e) = (s, some (wrap "on tx commit hook" e))
  after_commit_hook ctx tx (s, none) = lib.commit ctx tx s

  pub commit_tx : Context → Tx → S → S × Option GoError
  commit_tx ctx tx s = after_commit_hook ctx tx (opts.on_tx_commit ctx opts.tx_access_mode tx s)

  unfoldable pub driver : Driver S Tx
  driver = record {
    begin_tx = begin_tx;
    rollback_tx = lib.rollback;
    commit_tx = commit_tx;
    serialization_failure_codes = "40001" ∷ "40P01" ∷ [];
    serialization_failure_max_retries = 10;
    tx_done_error = tx_closed;
  }

module _ {S Tx Cost : Type 0} (lib : Library S Tx) (costs : Costs Cost) where
  -- `New`
  unfoldable pub new : List (Options S Tx Cost → Options S Tx Cost) → Driver S Tx
  unfolding apply_options driver
  new opts = driver lib costs (apply_options opts (default_options costs))
