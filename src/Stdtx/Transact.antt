-- ===== src/Stdtx/Transact.antt =====
-- stdtx/transactor.go. The handler `fnc` and the driver act on a state `S`; a call of the handler
-- ends as an `Outcome`. Logging is left out, and `zero` is the zero value of the result type.
pub mod Attempt
pub mod Commits
pub mod Recovery
pub mod Retrying
pub mod Successes
mod Tests
use stdgo.Base.{ℕ, String, Bool, false, Option, none, some, List, contains, if◌then◌else◌}
use stdgo.Go.Context.{Context}
use stdgo.Go.Errors.{
  GoError, Sentinel, sentinel, already_in_scope, wrap, wrap_with, is, as_pg_error, Result, ok, err,
}
use stdgo.Go.Outcome.{Outcome, returned, panicked, exited}
use stdgo.Failsafe.{RetryPolicy, Execute}
use stdgo.Stdtx.Scope.{context_with_attempts, attempts_from_context}
use stdgo.Stdtx.Driver.{Driver}

-- `errors.As(err, &pgErr) && slices.Contains(codes, pgErr.Code)`
abbrev pub code_in : List String → Option String → Bool
code_in codes none = false
code_in codes (some code) = contains codes code

-- The body of the policy's `HandleIf`; a nil error is no `PgError`.
unfoldable pub should_retry : List String → Option GoError → Bool
should_retry codes none = false
should_retry codes (some e) = code_in codes (as_pg_error e)

abbrev pub after_rollback : {A : Type 0} → A → GoError → Option GoError → Outcome A
after_rollback res e none = returned res (some e)
after_rollback res e (some rerr) = returned res (some (wrap_with e "rollback transaction" rerr))

abbrev pub after_commit : {A : Type 0} → Sentinel → A → Option GoError → Outcome A
after_commit done res none = returned res none
after_commit done res (some e) =
    if is e done then returned res none else returned res (some (wrap "commit transaction" e))

-- The `fnc` argument: a call with a context and a transaction.
abbrev pub Handler : Type 0 → Type 0 → Type 0 → Type 0
Handler S Tx A = Context → Tx → S → S × Outcome A

module _ {S Tx A : Type 0} (drv : Driver S Tx) where
  -- What follows the handler's call, up to the deferred rollback: the rollback on an error, the
  -- commit, and the deferred `recover`. `Goexit` runs no such code.
  unfoldable pub conclude : Context → Tx → Outcome A → S → S × Outcome A
  conclude ctx tx (returned res none) s =
      let (s', cerr) = drv.commit_tx ctx tx s in (s', after_commit drv.tx_done_error res cerr)
  conclude ctx tx (returned res (some e)) s =
      let (s', rerr) = drv.rollback_tx ctx tx s in (s', after_rollback res e rerr)
  conclude ctx tx (panicked v) s = ((drv.rollback_tx ctx tx s).0, panicked v)
  conclude ctx tx exited s = (s, exited)

  -- An attempt from the begun transaction on; the deferred rollback runs in every case.
  unfoldable pub in_tx : Handler S Tx A → Context → Tx → S → S × Outcome A
  in_tx fnc ctx tx s =
      let (s₁, o) = fnc ctx tx s in
      let (s₂, o') = conclude ctx tx o s₁ in ((drv.rollback_tx ctx tx s₂).0, o')

  -- An attempt from the answer of the driver's begin on.
  unfoldable pub begun : Handler S Tx A → A → Context → ℕ → S × Result Tx → S × Outcome A
  begun fnc zero ctx k (s, err e) = (s, returned zero (some e))
  begun fnc zero ctx k (s, ok tx) = in_tx fnc (context_with_attempts ctx k) tx s

  -- One execution under the retry policy.
  unfoldable pub attempt : Handler S Tx A → A → Context → ℕ → S → S × Outcome A
  attempt fnc zero ctx k s = begun fnc zero ctx k (drv.begin_tx ctx s)

  unfoldable pub retry_policy : RetryPolicy A
  retry_policy = record {
    handle_if = λ _ e. should_retry drv.serialization_failure_codes e;
    backoff = some (5, 500);
    jitter = some 100;
    max_retries = drv.serialization_failure_max_retries;
  }

  unfoldable pub transact1 : Execute A S → Context → Handler S Tx A → A → S → S × Outcome A
  transact1 execute ctx fnc zero s = elim (attempts_from_context ctx) [
    | some _ ↦ (s, returned zero (some (wrap "" (sentinel already_in_scope))))
    | none ↦ execute retry_policy ctx (attempt fnc zero ctx) s
  ]

module _ {S Tx : Type 0} (drv : Driver S Tx) where
  -- A handler with nothing to return.
  unfoldable pub transact0 :
      Execute (Unit {0}) S → Context → Handler S Tx (Unit {0}) → S → S × Outcome (Unit {0})
  transact0 execute ctx fnc s = transact1 drv execute ctx fnc tt s
