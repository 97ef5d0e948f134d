-- ===== src/Stdent/Transact.antt =====
-- stdent/transact.go. Logging is left out, and `zero` is the zero value of the result type.
pub mod Protocol
pub mod Commits
mod Tests
use stdgo.Base.{
  ℕ, String, Bool, true, false, not, ◌&&◌, Option, none, some, List, [], ◌∷◌, str_eq, if◌then◌else◌,
}
use stdgo.Go.Context.{Context}
use stdgo.Go.Errors.{GoError, sql_tx_done, wrap, wrap_with, is, as_pg_error, Result, ok, err}
use stdgo.Go.Outcome.{Outcome, returned, panicked, exited}
use stdgo.Failsafe.{RetryPolicy, Execute}
use stdgo.Stdent.Scope.{context_with_attempts, context_with_tx, tx_from_context}
use stdgo.Stdent.Transactor.{Transactor, tx_options}

-- The `fnc` argument: a call with a context and a transaction.
abbrev pub Handler : Type 0 → Type 0 → Type 0
Handler S A = Context → ℕ → S → S × Outcome A

-- The loop of `HandleIf` over the configured codes.
pub any_code : List String → String → Bool
any_code [] code = false
any_code (c ∷ cs) code = let rest = any_code cs code in if str_eq c code then true else rest

abbrev pub matches_code : List String → Option String → Bool
matches_code codes none = false
matches_code codes (some code) = any_code codes code

pub should_retry : List String → Option GoError → Bool
should_retry codes none = false
should_retry codes (some e) = matches_code codes (as_pg_error e)

abbrev pub after_rollback : {A : Type 0} → A → GoError → Option GoError → Outcome A
after_rollback res e none = returned res (some e)
after_rollback res e (some rerr) = returned res (some (wrap_with e "rollback transaction" rerr))

abbrev pub after_commit : {A : Type 0} → A → Option GoError → Outcome A
after_commit res none = returned res none
after_commit res (some cerr) =
    if not (is cerr sql_tx_done)
    then returned res (some (wrap "commit transaction" cerr))
    else returned res none

module _ {S A : Type 0} (type_id : ℕ) (txr : Transactor S) where
  -- What follows the handler's call, up to the deferred rollback.
  pub conclude : ℕ → Outcome A → S → S × Outcome A
  conclude tx (returned res none) s =
      let (s', cerr) = txr.client.commit tx s in (s', after_commit res cerr)
  conclude tx (returned res (some e)) s =
      let (s', rerr) = txr.client.rollback tx s in (s', after_rollback res e rerr)
  conclude tx (panicked v) s = ((txr.client.rollback tx s).0, panicked v)
  conclude tx exited s = (s, exited)

  -- An attempt from the begun transaction on; the deferred rollback runs in every case.
  pub in_tx : Handler S A → Context → ℕ → S → S × Outcome A
  in_tx fnc ctx tx s =
      let (s₁, o) = fnc ctx tx s in
      let (s₂, o') = conclude tx o s₁ in ((txr.client.rollback tx s₂).0, o')

  pub begun : Handler S A → A → Context → ℕ → S × Result ℕ → S × Outcome A
  begun fnc zero ctx k (s, err e) = (s, returned zero (some e))
  begun fnc zero ctx k (s, ok tx) =
      in_tx fnc (context_with_attempts (context_with_tx type_id ctx tx) k) tx s

  -- One execution under the retry policy.
  pub attempt : Handler S A → A → Context → ℕ → S → S × Outcome A
  attempt fnc zero ctx k s = begun fnc zero ctx k (txr.client.begin_tx ctx (tx_options txr.opts) s)

  pub retry_policy : RetryPolicy A
  retry_policy = record {
    handle_if = λ _ e. should_retry txr.opts.serialization_failure_codes e;
    backoff = none;
    jitter = none;
    max_retries = txr.opts.serialization_failure_max_retries;
  }

  pub transact1 : Execute A S → Context → Handler S A → A → S → S × Outcome A
  transact1 execute ctx fnc zero s = elim (tx_from_context type_id ctx) [
    | some tx ↦ fnc ctx tx s
    | none ↦ execute retry_policy ctx (attempt fnc zero ctx) s
  ]

module _ {S : Type 0} (type_id : ℕ) (txr : Transactor S) where
  -- A handler with nothing to return.
  pub transact0 : Execute (Unit {0}) S → Context → Handler S (Unit {0}) → S → S × Outcome (Unit {0})
  transact0 execute ctx fnc s = transact1 type_id txr execute ctx fnc tt s
