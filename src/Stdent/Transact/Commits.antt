-- ===== src/Stdent/Transact/Commits.antt =====
-- Commits of a whole `Transact1` of stdent, and its reuse of a transaction in the context.
use stdgo.Base.{ℕ, suc, Bool, true, false, none, ◌≡◌, refl}
use stdgo.Go.Context.{Context}
use stdgo.Go.Errors.{Result, ok, err}
use stdgo.Go.Outcome.{succeeded}
use stdgo.Failsafe.{Execute, IsExecutor, Runs}
use stdgo.Stdtx.Driver.{IsDriver, Status}
use stdgo.Stdtx.Transact.Attempt.{LeavesOpen, CommitsOnce, in_tx-CommitsOnce}
use stdgo.Stdtx.Transact.Commits.{Runs-success, Runs-failure}
use stdgo.Stdent.Scope.{
  context_with_attempts, context_with_tx, tx_from_context, tx_from_context-context_with_tx,
}
use stdgo.Stdent.Transactor.{Transactor, as_driver, tx_options}
use stdgo.Stdent.Transact.{Handler, begun, attempt, retry_policy, should_retry, transact1}
use stdgo.Stdent.Transact.Protocol.{in_tx_agrees}

module _ {S A : Type 0} (type_id : ℕ) (txr : Transactor S) (status : S → ℕ → Status)
    (commits : S → ℕ) (laws : IsDriver (as_driver txr) status commits) where
  begun-CommitsOnce :
      (fnc : Handler S A) (zero : A) (ctx : Context) (k : ℕ) (s : S) (r : S × Result ℕ)
      → LeavesOpen status commits fnc
      → txr.client.begin_tx ctx (tx_options txr.opts) s ≡ r
      → CommitsOnce commits s (begun type_id txr fnc zero ctx k r)
  unfolding begun
  begun-CommitsOnce fnc zero ctx k s (s', err e) plain h = laws.begin_err ctx s s' e h
  begun-CommitsOnce fnc zero ctx k s (s', ok tx) plain h =
      let ctx' = context_with_attempts (context_with_tx type_id ctx tx) k in
      let (fresh, same) = laws.begin_ok ctx s s' tx h in
      rw (in_tx_agrees type_id txr fnc ctx' tx s', ← same)
        (in_tx-CommitsOnce (as_driver txr) status commits laws fnc ctx' tx s' plain fresh)

  attempt-CommitsOnce :
      (fnc : Handler S A) (zero : A) (ctx : Context) (k : ℕ) (s : S)
      → LeavesOpen status commits fnc
      → CommitsOnce commits s (attempt type_id txr fnc zero ctx k s)
  unfolding attempt
  attempt-CommitsOnce fnc zero ctx k s plain =
      begun-CommitsOnce fnc zero ctx k s (txr.client.begin_tx ctx (tx_options txr.opts) s) plain
        refl

retry_policy-quiet :
    {S A : Type 0} (type_id : ℕ) (txr : Transactor S) (a : A)
    → (retry_policy type_id txr).handle_if a none ≡ false
unfolding retry_policy should_retry
retry_policy-quiet type_id txr a = refl

module _ {S A : Type 0} (type_id : ℕ) (txr : Transactor S) (status : S → ℕ → Status)
    (commits : S → ℕ) (execute : Execute A S) (cancelled : Context → S → Bool) where
  transact1-Runs :
      (ctx : Context) (fnc : Handler S A) (zero : A) (s : S)
      → IsExecutor cancelled execute
      → tx_from_context type_id ctx ≡ none
      → let r = transact1 type_id txr execute ctx fnc zero s in
        Runs
          (retry_policy type_id txr)
          (cancelled ctx)
          (attempt type_id txr fnc zero ctx)
          1
          s
          r.0
          r.1
  unfolding transact1
  transact1-Runs ctx fnc zero s runs outside = rw (outside, transact1) (runs _ ctx _ s)

  -- A Transact1 of stdent on a context with no transaction that succeeds has committed exactly one
  -- transaction, for a client and an executor that keep their laws and a handler that leaves its
  -- transaction open.
  pub ent_transact1-success :
      (ctx : Context) (fnc : Handler S A) (zero : A) (s : S)
      → IsDriver (as_driver txr) status commits
      → IsExecutor cancelled execute
      → LeavesOpen status commits fnc
      → tx_from_context type_id ctx ≡ none
      → succeeded (transact1 type_id txr execute ctx fnc zero s).1 ≡ true
      → commits (transact1 type_id txr execute ctx fnc zero s).0 ≡ suc (commits s)
  ent_transact1-success ctx fnc zero s laws runs plain outside =
      Runs-success (retry_policy type_id txr) (cancelled ctx) (attempt type_id txr fnc zero ctx)
        commits (λ k t. attempt-CommitsOnce type_id txr status commits laws fnc zero ctx k t plain)
        (retry_policy-quiet type_id txr) (transact1-Runs ctx fnc zero s runs outside)

  -- A Transact1 of stdent on a context with no transaction that fails, panics or exits its
  -- goroutine has committed nothing, provided the context is never cancelled, the client and the
  -- executor keep their laws and the handler leaves its transaction open.
  pub ent_transact1-failure :
      (ctx : Context) (fnc : Handler S A) (zero : A) (s : S)
      → IsDriver (as_driver txr) status commits
      → IsExecutor cancelled execute
      → LeavesOpen status commits fnc
      → ((t : S) → cancelled ctx t ≡ false)
      → tx_from_context type_id ctx ≡ none
      → succeeded (transact1 type_id txr execute ctx fnc zero s).1 ≡ false
      → commits (transact1 type_id txr execute ctx fnc zero s).0 ≡ commits s
  ent_transact1-failure ctx fnc zero s laws runs plain alive outside =
      Runs-failure (retry_policy type_id txr) (cancelled ctx) (attempt type_id txr fnc zero ctx)
        commits (λ k t. attempt-CommitsOnce type_id txr status commits laws fnc zero ctx k t plain)
        (retry_policy-quiet type_id txr) (transact1-Runs ctx fnc zero s runs outside) alive

  -- On the context of a running handler Transact1 is the inner handler in the same transaction:
  -- nothing is begun, committed or retried, whichever transactor is named.
  pub transact1_reuses :
      (ctx : Context) (tx k : ℕ) (fnc : Handler S A) (zero : A) (s : S)
      → transact1 type_id txr execute
          (context_with_attempts (context_with_tx type_id ctx tx) k)
          fnc
          zero
          s
        ≡ fnc (context_with_attempts (context_with_tx type_id ctx tx) k) tx s
  unfolding transact1
  transact1_reuses ctx tx k fnc zero s =
      rw (tx_from_context-context_with_tx type_id ctx tx k, transact1) refl
