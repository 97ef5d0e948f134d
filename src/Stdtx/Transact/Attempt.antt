-- ===== src/Stdtx/Transact/Attempt.antt =====
-- What one attempt leaves behind: the transaction is closed on every path, and it is committed
-- exactly when the attempt reports success.
use stdgo.Base.{ℕ, suc, Option, none, some, ◌≡◌, ◌≢◌, refl, if◌then◌else◌}
use stdgo.Go.Context.{Context}
use stdgo.Go.Errors.{GoError, Result, ok, err}
use stdgo.Go.Outcome.{Outcome, returned, panicked, exited, succeeded}
use stdgo.Stdtx.Scope.{context_with_attempts}
use stdgo.Stdtx.Driver.{Driver, IsDriver, Status, active, committed, rolled_back}
use stdgo.Stdtx.Transact.{Handler, conclude, in_tx, begun, attempt, after_commit, after_rollback}

-- A handler that neither ends its own transaction nor commits another.
abbrev pub LeavesOpen : {S Tx A : Type 0} → (S → Tx → Status) → (S → ℕ) → Handler S Tx A → Type 0
LeavesOpen {S} {Tx} status commits fnc =
    (ctx : Context) (tx : Tx) (s : S)
    → status s tx ≡ active
    → (status (fnc ctx tx s).0 tx ≡ active) × (commits (fnc ctx tx s).0 ≡ commits s)

-- One commit exactly when the call succeeds.
abbrev pub CommitsOnce : {S A : Type 0} → (S → ℕ) → S → S × Outcome A → Type 0
CommitsOnce commits s r = commits r.0 ≡ (if succeeded r.1 then suc (commits s) else commits s)

module _ {S Tx : Type 0} (drv : Driver S Tx) (status : S → Tx → Status) (commits : S → ℕ)
    (laws : IsDriver drv status commits) where
  pub rollback_closes :
      (ctx : Context) (tx : Tx) (s : S) → status (drv.rollback_tx ctx tx s).0 tx ≢ active
  rollback_closes ctx tx s = go (status s tx) refl
    where
      go : (t : Status) → status s tx ≡ t → status (drv.rollback_tx ctx tx s).0 tx ≢ active
      go active e = rw (laws.rollback_active ctx tx s e) cc
      go committed e = rw (laws.rollback_closed ctx tx s (rw e cc), e) cc
      go rolled_back e = rw (laws.rollback_closed ctx tx s (rw e cc), e) cc

module _ {S Tx A : Type 0} (drv : Driver S Tx) (status : S → Tx → Status) (commits : S → ℕ)
    (laws : IsDriver drv status commits) where
  -- However the handler ends, a begun transaction is no longer active when the attempt is over, for a
  -- driver that keeps its laws.
  pub in_tx_closes :
      (fnc : Handler S Tx A) (ctx : Context) (tx : Tx) (s : S)
      → status (in_tx drv fnc ctx tx s).0 tx ≢ active
  unfolding in_tx
  in_tx_closes fnc ctx tx s =
      rollback_closes drv status commits laws ctx tx
        (conclude drv ctx tx (fnc ctx tx s).1 (fnc ctx tx s).0).0

  commit_commits :
      (ctx : Context) (tx : Tx) (res : A) (s : S) (r : S × Option GoError)
      → status s tx ≡ active
      → drv.commit_tx ctx tx s ≡ r
      → commits r.0 ≡ (
          if succeeded (after_commit drv.tx_done_error res r.1) then suc (commits s) else commits s)
  commit_commits ctx tx res s (s', none) h e = (laws.commit_ok ctx tx s s' h e).1
  commit_commits ctx tx res s (s', some cerr) h e =
      let (_, same, other) = laws.commit_err ctx tx s s' cerr h e in rw other same

  rollback_keeps :
      (ctx : Context) (tx : Tx) (res : A) (e : GoError) (s : S) (r : Option GoError)
      → commits (drv.rollback_tx ctx tx s).0
        ≡ (if succeeded (after_rollback res e r) then suc (commits s) else commits s)
  rollback_keeps ctx tx res e s none = laws.rollback_commits ctx tx s
  rollback_keeps ctx tx res e s (some rerr) = laws.rollback_commits ctx tx s

  -- `conclude` on an active transaction: committed, with one commit more, exactly on success.
  conclude_commits :
      (ctx : Context) (tx : Tx) (o : Outcome A) (s : S)
      → status s tx ≡ active
      → let r = conclude drv ctx tx o s in
        (commits r.0 ≡ (if succeeded r.1 then suc (commits s) else commits s))
  unfolding conclude
  conclude_commits ctx tx (returned res none) s h =
      commit_commits ctx tx res s (drv.commit_tx ctx tx s) h refl
  conclude_commits ctx tx (returned res (some e)) s h =
      rollback_keeps ctx tx res e s (drv.rollback_tx ctx tx s).1
  conclude_commits ctx tx (panicked v) s h = laws.rollback_commits ctx tx s
  conclude_commits ctx tx exited s h = refl

  pub in_tx-CommitsOnce :
      (fnc : Handler S Tx A) (ctx : Context) (tx : Tx) (s : S)
      → LeavesOpen status commits fnc
      → status s tx ≡ active
      → CommitsOnce commits s (in_tx drv fnc ctx tx s)
  unfolding in_tx
  in_tx-CommitsOnce fnc ctx tx s plain h =
      let (open_still, same) = plain ctx tx s h in
      let r = fnc ctx tx s in
      let done = conclude_commits ctx tx r.1 r.0 open_still in
      rw (laws.rollback_commits ctx tx (conclude drv ctx tx r.1 r.0).0) (rw (← same) done)

  begun-CommitsOnce :
      (fnc : Handler S Tx A) (zero : A) (ctx : Context) (k : ℕ) (s : S) (r : S × Result Tx)
      → LeavesOpen status commits fnc
      → drv.begin_tx ctx s ≡ r
      → CommitsOnce commits s (begun drv fnc zero ctx k r)
  unfolding begun
  begun-CommitsOnce fnc zero ctx k s (s', err e) plain h = laws.begin_err ctx s s' e h
  begun-CommitsOnce fnc zero ctx k s (s', ok tx) plain h =
      let (fresh, same) = laws.begin_ok ctx s s' tx h in
      rw (← same) (in_tx-CommitsOnce fnc (context_with_attempts ctx k) tx s' plain fresh)

  pub attempt-CommitsOnce :
      (fnc : Handler S Tx A) (zero : A) (ctx : Context) (k : ℕ) (s : S)
      → LeavesOpen status commits fnc
      → CommitsOnce commits s (attempt drv fnc zero ctx k s)
  unfolding attempt
  attempt-CommitsOnce fnc zero ctx k s plain =
      begun-CommitsOnce fnc zero ctx k s (drv.begin_tx ctx s) plain refl
