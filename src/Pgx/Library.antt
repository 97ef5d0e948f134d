-- ===== src/Pgx/Library.antt =====
-- What stdtxpgxv5 calls of the pgx library, of encoding/json and of floating-point numbers. The
-- functions are parameters; `IsLibrary` states the documented behaviour that the driver relies on.
use stdgo.Base.{ℕ, String, Bool, false, Option, List, ◌≡◌}
use stdgo.Go.Context.{Context}
use stdgo.Go.Errors.{GoError, Result, tx_closed}
use stdgo.Stdtx.Driver.{Driver, IsDriver, Status, active}

pub data IsoLevel : Type 0 where
  serializable repeatable_read read_committed read_uncommitted : IsoLevel

pub data AccessMode : Type 0 where
  read_write read_only : AccessMode

-- The `pgxpool.Pool` and the `pgx.Tx` that it hands out. `exec` drops the
-- command tag, and `query_row_scan` is `tx.QueryRow(…).Scan(&text)`.
pub record Library (S Tx : Type 0) : Type 0 where
  pub begin : IsoLevel → AccessMode → Context → S → S × Result Tx
  pub rollback : Context → Tx → S → S × Option GoError
  pub commit : Context → Tx → S → S × Option GoError
  pub exec : Context → Tx → String → S → S × Result (Unit {0})
  pub query_row_scan : Context → Tx → String → S → S × Result String

-- `float64`, with what is used of it, and the decoding of the plan's total costs.
pub record Costs (Cost : Type 0) : Type 0 where
  pub zero_cost : Cost
  pub add : Cost → Cost → Cost
  pub not_positive : Cost → Bool
  pub exceeds : Cost → Cost → Bool
  pub unmarshal : String → Result (List Cost)

module _ {S Tx : Type 0} where
  -- The pool with no hooks, as a driver.
  abbrev pub plain_driver : Library S Tx → IsoLevel → AccessMode → Driver S Tx
  plain_driver lib iso mode = record {
    begin_tx = lib.begin iso mode;
    rollback_tx = lib.rollback;
    commit_tx = lib.commit;
    serialization_failure_codes = List.[];
    serialization_failure_max_retries = 0;
    tx_done_error = tx_closed;
  }

  -- `ends_tx` tells which statements end a transaction; any other leaves it open when it runs.
  pub record IsLibrary (lib : Library S Tx) (ends_tx : String → Bool) (status : S → Tx → Status)
      (commits : S → ℕ) : Type 0 where
    pub is_driver :
        (iso : IsoLevel) (mode : AccessMode) → IsDriver (plain_driver lib iso mode) status commits
    pub exec_keeps :
        (ctx : Context) (tx : Tx) (sql : String) (s : S)
        → ends_tx sql ≡ false
        → status s tx ≡ active
        → (status (lib.exec ctx tx sql s).0 tx ≡ active)
          × (commits (lib.exec ctx tx sql s).0 ≡ commits s)
