-- ===== src/Stdent/Sample.antt =====
-- A client of a one-transaction database that meets the laws of a driver, for the examples.
use stdgo.Base.{ℕ, suc, true, Option, none, some, [], ◌∷◌, refl, arith, ap, sym}
use stdgo.Go.Errors.{GoError, sentinel, sql_tx_done, ok, is}
use stdgo.Stdtx.Driver.{IsDriver, Status, active, committed, rolled_back}
use stdgo.Stdtx.Sample.{Db}
use stdgo.Stdent.Transactor.{Client, Transactor, new, read_only, as_driver}

abbrev pub close : Status → ℕ → Db → Status → Db × Option GoError
close end n d active = (record { current = end; total = n }, none)
close end n d committed = (d, some (sentinel sql_tx_done))
close end n d rolled_back = (d, some (sentinel sql_tx_done))

abbrev pub client : Client Db
client = record {
  begin_tx = λ _ _ d. (record d { current = active }, ok 1);
  rollback = λ _ d. close rolled_back d.total d d.current;
  commit = λ _ d. close committed (suc d.total) d d.current;
}

abbrev pub transactor : Transactor Db
transactor = new client []

abbrev pub ro_transactor : Transactor Db
ro_transactor = new client (read_only true ∷ [])

abbrev pub status : Db → ℕ → Status
status d _ = d.current

pub transactor-IsDriver : IsDriver (as_driver transactor) status (λ d. d.total)
unfolding is new
transactor-IsDriver = record {
  begin_ok = λ ctx s s' tx h. (ap (λ r. r.0.current) (sym h), ap (λ r. r.0.total) (sym h));
  begin_err = λ ctx s s' e h. cc;
  rollback_active = λ ctx tx s h. ground arith;
  rollback_closed = λ ctx tx s h. ground arith;
  rollback_commits = λ ctx tx s. ground arith;
  commit_ok = λ ctx tx s s' h e. ground arith;
  commit_err = λ ctx tx s s' x h e. (ground arith, ground arith, ground arith);
  commit_closed = λ ctx tx s h. (s, sentinel sql_tx_done, ground arith, refl, refl, refl);
}
