-- ===== src/Stdent/Transactor.antt =====
-- stdent/transactor.go, and the interfaces `Tx` and `Client` of stdent/transact.go. A transaction is
-- a number; its methods and the client's act on a state `S`.
use stdgo.Base.{ℕ, String, Bool, false, Option, List, [], ◌∷◌}
use stdgo.Go.Context.{Context}
use stdgo.Go.Errors.{GoError, Result, sql_tx_done}
use stdgo.Stdtx.Driver.{Driver}

-- `sql.IsolationLevel` of database/sql.
pub data IsolationLevel : Type 0 where
  level_default read_uncommitted read_committed write_committed repeatable_read snapshot
        serializable linearizable :
      IsolationLevel
  other_level : ℕ → IsolationLevel

-- `sql.TxOptions`
pub record TxOptions : Type 0 where
  pub isolation : IsolationLevel
  pub read_only : Bool

pub record Client (S : Type 0) : Type 0 where
  pub begin_tx : Context → TxOptions → S → S × Result ℕ
  pub rollback : ℕ → S → S × Option GoError
  pub commit : ℕ → S → S × Option GoError

pub record Options : Type 0 where
  pub serialization_failure_max_retries : ℕ
  pub serialization_failure_codes : List String
  pub isolation_level : IsolationLevel
  pub read_only : Bool

abbrev pub serialization_failure_max_retries : ℕ → Options → Options
serialization_failure_max_retries v o = record o { serialization_failure_max_retries = v }

abbrev pub serialization_failure_codes : List String → Options → Options
serialization_failure_codes v o = record o { serialization_failure_codes = v }

abbrev pub isolation_level : IsolationLevel → Options → Options
isolation_level v o = record o { isolation_level = v }

abbrev pub read_only : Bool → Options → Options
read_only v o = record o { read_only = v }

pub record Transactor (S : Type 0) : Type 0 where
  pub opts : Options
  pub client : Client S

abbrev pub is_read_only : {S : Type 0} → Transactor S → Bool
is_read_only txr = txr.opts.read_only

abbrev pub default_options : Options
default_options = record {
  serialization_failure_max_retries = 50;
  serialization_failure_codes = "40001" ∷ [];
  isolation_level = repeatable_read;
  read_only = false;
}

-- `for _, opt := range opts { opt(&txr.opts) }`
unfoldable pub apply_options : List (Options → Options) → Options → Options
apply_options [] o = o
apply_options (f ∷ fs) o = apply_options fs (f o)

-- `New`
unfoldable pub new : {S : Type 0} → Client S → List (Options → Options) → Transactor S
unfolding apply_options
new client opts = record { opts = apply_options opts default_options; client = client }

abbrev pub tx_options : Options → TxOptions
tx_options o = record { isolation = o.isolation_level; read_only = o.read_only }

-- A transactor's client under its options, in the shape of a stdtx driver.
abbrev pub as_driver : {S : Type 0} → Transactor S → Driver S ℕ
as_driver txr = record {
  begin_tx = λ ctx. txr.client.begin_tx ctx (tx_options txr.opts);
  rollback_tx = λ _. txr.client.rollback;
  commit_tx = λ _. txr.client.commit;
  serialization_failure_codes = txr.opts.serialization_failure_codes;
  serialization_failure_max_retries = txr.opts.serialization_failure_max_retries;
  tx_done_error = sql_tx_done;
}
