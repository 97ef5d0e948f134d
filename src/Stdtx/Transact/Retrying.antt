-- ===== src/Stdtx/Transact/Retrying.antt =====
-- Which errors are retried, and what a call inside a transaction's scope does.
use stdgo.Base.{
  ℕ, Bool, true, false, Option, none, some, ◌≡◌, refl, arith, subst, ap, sym, suc, ◌≤◌, ◌∙◌,
}
use stdgo.Go.Context.{Context}
use stdgo.Go.Errors.{
  GoError, Sentinel, sentinel, already_in_scope, wrap, wrap_with, is, as_pg_error,
}
use stdgo.Go.Outcome.{Outcome, returned}
use stdgo.Failsafe.{
  RetryPolicy, Execute, IsExecutor, Runs, finished, again, exceeded, aborted, handled,
}
use stdgo.Stdtx.Scope.{
  context_with_attempts, attempts_from_context, attempts_from_context-context_with_attempts,
}
use stdgo.Stdtx.Driver.{Driver}
use stdgo.Stdtx.Transact.{
  Handler, conclude, in_tx, attempt, retry_policy, after_rollback, transact1,
}

-- Two errors with the same `PgError` and the same sentinels in their chains.
abbrev pub SameChain : GoError → GoError → Type 0
SameChain e e' = (as_pg_error e ≡ as_pg_error e') × ((t : Sentinel) → is e t ≡ is e' t)

module _ {S Tx A : Type 0} (drv : Driver S Tx) where
  rollback-SameChain :
      (res : A) (e : GoError) (rerr : Option GoError)
      → (e' : GoError) × (after_rollback res e rerr ≡ returned res (some e')) × SameChain e' e
  unfolding as_pg_error is
  rollback-SameChain res e none = (e, refl, (refl, λ t. refl))
  rollback-SameChain res e (some rerr) =
      (wrap_with e "rollback transaction" rerr, refl, (refl, λ t. refl))

  in_tx_of_error :
      (fnc : Handler S Tx A) (ctx : Context) (tx : Tx) (s s' : S) (res : A) (e : GoError)
      → fnc ctx tx s ≡ (s', returned res (some e))
      → (in_tx drv fnc ctx tx s).1 ≡ after_rollback res e (drv.rollback_tx ctx tx s').1
  unfolding in_tx conclude
  in_tx_of_error fnc ctx tx s s' res e h = rw h refl

  -- An attempt whose handler returns an error returns its result with an error of the same PgError and
  -- the same sentinels, also when the rollback fails.
  pub in_tx-SameChain :
      (fnc : Handler S Tx A) (ctx : Context) (tx : Tx) (s s' : S) (res : A) (e : GoError)
      → fnc ctx tx s ≡ (s', returned res (some e))
      → (e' : GoError) × ((in_tx drv fnc ctx tx s).1 ≡ returned res (some e')) × SameChain e' e
  in_tx-SameChain fnc ctx tx s s' res e h =
      rw (in_tx_of_error fnc ctx tx s s' res e h)
        (rollback-SameChain res e (drv.rollback_tx ctx tx s').1)

  -- On a context that carries an attempt number Transact1 returns ErrAlreadyInTransactionScope and
  -- leaves the state as it was.
  pub transact1_nested :
      (execute : Execute A S) (ctx : Context) (k : ℕ) (fnc : Handler S Tx A) (zero : A) (s : S)
      → (e : GoError) × (transact1 drv execute (context_with_attempts ctx k) fnc zero s
          ≡ (s, returned zero (some e)))
        × (is e already_in_scope ≡ true)
  unfolding transact1 is
  transact1_nested execute ctx k fnc zero s = (
    wrap "" (sentinel already_in_scope),
    rw (attempts_from_context-context_with_attempts ctx k, transact1) refl,
    refl,
  )

module _ {A S : Type 0} (p : RetryPolicy A) (cancelled : S → Bool)
    (fn : ℕ → S → S × Outcome A) where
  Runs-unhandled :
      {k : ℕ} {s s' : S} {o : Outcome A}
      → Runs p cancelled fn k s s' o
      → handled p (fn k s).1 ≡ false
      → ((t : S) → cancelled t ≡ false)
      → fn k s ≡ (s', o)
  Runs-unhandled (finished e h) g alive = e
  Runs-unhandled (again e h _ _) g alive = cc (subst (λ r. handled p r.1 ≡ false) e g, h)
  Runs-unhandled (exceeded a x e h _) g alive = cc (subst (λ r. handled p r.1 ≡ false) e g, h)
  Runs-unhandled {s'} (aborted a x e c) g alive = cc (alive s')

  -- One step of a run whose attempt is handled and may be repeated.
  Runs-handled :
      {k : ℕ} {s s' : S} {o : Outcome A}
      → Runs p cancelled fn k s s' o
      → handled p (fn k s).1 ≡ true
      → k ≤ p.max_retries
      → ((t : S) → cancelled t ≡ false)
      → Runs p cancelled fn (suc k) (fn k s).0 s' o
  Runs-handled (finished e h) g le alive = cc (subst (λ r. handled p r.1 ≡ true) e g, h)
  Runs-handled {k} {s' = t} {o = o} (again e h _ r) g le alive =
      subst (λ x. Runs p cancelled fn (suc k) x t o) (sym (ap (λ r. r.0) e)) r
  Runs-handled (exceeded a x e h lt) g le alive = absurd (omega arith)
  Runs-handled {s'} (aborted a x e c) g le alive = cc (alive s')

module _ {S Tx A : Type 0} (drv : Driver S Tx) (execute : Execute A S)
    (cancelled : Context → S → Bool) where
  run_outside :
      (ctx : Context) (fnc : Handler S Tx A) (zero : A) (s : S)
      → attempts_from_context ctx ≡ none
      → transact1 drv execute ctx fnc zero s
        ≡ execute (retry_policy drv) ctx (attempt drv fnc zero ctx) s
  unfolding transact1
  run_outside ctx fnc zero s outside = rw (outside, transact1) refl

  -- When the policy does not retry the first attempt, Transact1 is that one attempt, for an executor
  -- that keeps its law and a context that is never cancelled and carries no attempt number.
  pub transact1_once :
      (ctx : Context) (fnc : Handler S Tx A) (zero : A) (s : S)
      → IsExecutor cancelled execute
      → ((t : S) → cancelled ctx t ≡ false)
      → attempts_from_context ctx ≡ none
      → handled (retry_policy drv) (attempt drv fnc zero ctx 1 s).1 ≡ false
      → transact1 drv execute ctx fnc zero s ≡ attempt drv fnc zero ctx 1 s
  transact1_once ctx fnc zero s runs alive outside last =
      run_outside ctx fnc zero s outside
      ∙ sym (
          Runs-unhandled (retry_policy drv) (cancelled ctx) (attempt drv fnc zero ctx)
            (runs (retry_policy drv) ctx (attempt drv fnc zero ctx) s) last alive)

  -- A first attempt that the policy retries is followed by a second one, where a retry is allowed; when
  -- that one ends the run, Transact1 is the second attempt. The executor keeps its law, and the context
  -- is never cancelled and carries no attempt number.
  pub transact1_twice :
      (ctx : Context) (fnc : Handler S Tx A) (zero : A) (s : S)
      → IsExecutor cancelled execute
      → ((t : S) → cancelled ctx t ≡ false)
      → attempts_from_context ctx ≡ none
      → 1 ≤ drv.serialization_failure_max_retries
      → handled (retry_policy drv) (attempt drv fnc zero ctx 1 s).1 ≡ true
      → handled (retry_policy drv) (attempt drv fnc zero ctx 2 (attempt drv fnc zero ctx 1 s).0).1
        ≡ false
      → transact1 drv execute ctx fnc zero s
        ≡ attempt drv fnc zero ctx 2 (attempt drv fnc zero ctx 1 s).0
  unfolding retry_policy
  transact1_twice ctx fnc zero s runs alive outside room first last =
      let policy = retry_policy drv in
      let fn = attempt drv fnc zero ctx in
      run_outside ctx fnc zero s outside
      ∙ sym (
          Runs-unhandled policy (cancelled ctx) fn
            (Runs-handled policy (cancelled ctx) fn (runs policy ctx fn s) first room alive) last
            alive)
