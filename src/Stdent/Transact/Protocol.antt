-- ===== src/Stdent/Transact/Protocol.antt =====
-- Between the begin and the end of a transaction stdent runs the same protocol as stdtx.
use stdgo.Base.{ℕ, Option, none, some, ◌≡◌, refl, arith}
use stdgo.Go.Context.{Context}
use stdgo.Go.Errors.{GoError, sql_tx_done}
use stdgo.Go.Outcome.{Outcome, returned, panicked, exited}
use stdgo.Stdtx.Transact
use stdgo.Stdent.Transactor.{Transactor, as_driver}
use stdgo.Stdent.Transact.{Handler, conclude, in_tx, after_commit, after_rollback}

after_commit_agrees :
    {A : Type 0} (res : A) (cerr : Option GoError)
    → after_commit res cerr ≡ Transact.after_commit sql_tx_done res cerr
after_commit_agrees res none = refl
after_commit_agrees res (some e) = ground arith

after_rollback_agrees :
    {A : Type 0} (res : A) (e : GoError) (rerr : Option GoError)
    → after_rollback res e rerr ≡ Transact.after_rollback res e rerr
after_rollback_agrees res e none = refl
after_rollback_agrees res e (some rerr) = refl

module _ {S A : Type 0} (type_id : ℕ) (txr : Transactor S) where
  conclude_agrees :
      (ctx : Context) (tx : ℕ) (o : Outcome A) (s : S)
      → conclude type_id txr tx o s ≡ Transact.conclude (as_driver txr) ctx tx o s
  unfolding conclude Transact.conclude
  conclude_agrees ctx tx (returned res none) s =
      rw (after_commit_agrees res (txr.client.commit tx s).1) refl
  conclude_agrees ctx tx (returned res (some e)) s =
      rw (after_rollback_agrees res e (txr.client.rollback tx s).1) refl
  conclude_agrees ctx tx (panicked v) s = refl
  conclude_agrees ctx tx exited s = refl

  -- From the begun transaction on an attempt of stdent is an attempt of stdtx, with the client as
  -- the driver and sql.ErrTxDone as its error for a closed transaction.
  pub in_tx_agrees :
      (fnc : Handler S A) (ctx : Context) (tx : ℕ) (s : S)
      → in_tx type_id txr fnc ctx tx s ≡ Transact.in_tx (as_driver txr) fnc ctx tx s
  unfolding in_tx Transact.in_tx
  in_tx_agrees fnc ctx tx s = rw (conclude_agrees ctx tx (fnc ctx tx s).1 (fnc ctx tx s).0) refl
