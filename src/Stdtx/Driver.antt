-- ===== src/Stdtx/Driver.antt =====
-- stdtx/driver.go: the interface between the transactor and a database library, and the laws that
-- a driver keeps. A driver's calls act on a state `S`; the laws speak of it by two observers, the
-- status of a transaction and the number of transactions committed so far.
use stdgo.Base.{ℕ, suc, String, Option, none, some, List, ◌≡◌, ◌≢◌, true, false}
use stdgo.Go.Context.{Context}
use stdgo.Go.Errors.{GoError, Sentinel, Result, ok, err, is}

pub record Driver (S Tx : Type 0) : Type 0 where
  pub begin_tx : Context → S → S × Result Tx
  pub rollback_tx : Context → Tx → S → S × Option GoError
  pub commit_tx : Context → Tx → S → S × Option GoError
  pub serialization_failure_codes : List String
  pub serialization_failure_max_retries : ℕ
  pub tx_done_error : Sentinel

pub data Status : Type 0 where
  active committed rolled_back : Status

module _ {S Tx : Type 0} where
  pub record IsDriver (drv : Driver S Tx) (status : S → Tx → Status) (commits : S → ℕ)
      : Type 0 where
    pub begin_ok :
        (ctx : Context) (s s' : S) (tx : Tx)
        → drv.begin_tx ctx s ≡ (s', ok tx)
        → (status s' tx ≡ active) × (commits s' ≡ commits s)
    pub begin_err :
        (ctx : Context) (s s' : S) (e : GoError)
        → drv.begin_tx ctx s ≡ (s', err e)
        → commits s' ≡ commits s
    pub rollback_active :
        (ctx : Context) (tx : Tx) (s : S)
        → status s tx ≡ active
        → status (drv.rollback_tx ctx tx s).0 tx ≡ rolled_back
    pub rollback_closed :
        (ctx : Context) (tx : Tx) (s : S)
        → status s tx ≢ active
        → status (drv.rollback_tx ctx tx s).0 tx ≡ status s tx
    pub rollback_commits :
        (ctx : Context) (tx : Tx) (s : S) → commits (drv.rollback_tx ctx tx s).0 ≡ commits s
    pub commit_ok :
        (ctx : Context) (tx : Tx) (s s' : S)
        → status s tx ≡ active
        → drv.commit_tx ctx tx s ≡ (s', none)
        → (status s' tx ≡ committed) × (commits s' ≡ suc (commits s))
    pub commit_err :
        (ctx : Context) (tx : Tx) (s s' : S) (e : GoError)
        → status s tx ≡ active
        → drv.commit_tx ctx tx s ≡ (s', some e)
        → (status s' tx ≢ committed) × (commits s' ≡ commits s) × (is e drv.tx_done_error ≡ false)
    pub commit_closed :
        (ctx : Context) (tx : Tx) (s : S)
        → status s tx ≢ active
        → (s' : S) × (e : GoError) × (drv.commit_tx ctx tx s ≡ (s', some e))
          × (is e drv.tx_done_error ≡ true)
          × (status s' tx ≡ status s tx)
          × (commits s' ≡ commits s)
