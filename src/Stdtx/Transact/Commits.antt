-- ===== src/Stdtx/Transact/Commits.antt =====
-- Across the retries of a whole `Transact1`: one commit exactly when the call succeeds.
use stdgo.Base.{
  ℕ, suc, inl, inr, ap, subst, Bool, true, false, none, some, ◌≡◌, refl, arith, Option-cases,
  if◌then◌else◌,
}
use stdgo.Go.Context.{Context}
use stdgo.Go.Errors.{sentinel, already_in_scope, wrap}
use stdgo.Go.Outcome.{Outcome, returned, panicked, exited, succeeded}
use stdgo.Failsafe.{
  RetryPolicy, Execute, IsExecutor, Runs, finished, again, exceeded, aborted, handled,
}
use stdgo.Stdtx.Scope.{attempts_from_context}
use stdgo.Stdtx.Driver.{Driver, IsDriver, Status}
use stdgo.Stdtx.Transact.{Handler, attempt, retry_policy, should_retry, transact1}
use stdgo.Stdtx.Transact.Attempt.{LeavesOpen, CommitsOnce, attempt-CommitsOnce}

module _ {S A : Type 0} (p : RetryPolicy A) (cancelled : S → Bool) (fn : ℕ → S → S × Outcome A)
    (commits : S → ℕ) (once : (k : ℕ) (s : S) → CommitsOnce commits s (fn k s))
    (quiet : (a : A) → p.handle_if a none ≡ false) where
  handled_fails : (o : Outcome A) → handled p o ≡ true → succeeded o ≡ false
  handled_fails (returned a none) h = cc (quiet a)
  handled_fails (returned a (some e)) h = refl
  handled_fails (panicked v) h = refl
  handled_fails exited h = refl

  step_once :
      (k : ℕ) (s s' : S) (o : Outcome A)
      → fn k s ≡ (s', o)
      → commits s' ≡ (if succeeded o then suc (commits s) else commits s)
  step_once k s s' o e = subst (CommitsOnce commits s) e (once k s)

  -- A run that succeeds has committed once, whether or not its context was cancelled.
  pub Runs-success :
      {k : ℕ} {s s' : S} {o : Outcome A}
      → Runs p cancelled fn k s s' o
      → succeeded o ≡ true
      → commits s' ≡ suc (commits s)
  Runs-success {k} {s} {s'} {o} (finished e h) g = ground (arith, step_once k s s' o e)
  Runs-success {k} {s} (again {s₁} {o₁ = o₁} e h _ r) g =
      ground (arith, step_once k s s₁ o₁ e, handled_fails o₁ h, Runs-success r g)
  Runs-success (exceeded a e _ _ _) g = cc
  Runs-success (aborted a e _ _) g = cc

  -- A run that fails has committed nothing, unless its context was cancelled.
  pub Runs-failure :
      {k : ℕ} {s s' : S} {o : Outcome A}
      → Runs p cancelled fn k s s' o
      → ((t : S) → cancelled t ≡ false)
      → succeeded o ≡ false
      → commits s' ≡ commits s
  Runs-failure {k} {s} {s'} {o} (finished e h) alive g = ground (arith, step_once k s s' o e)
  Runs-failure {k} {s} (again {s₁} {o₁ = o₁} e h _ r) alive g =
      ground (arith, step_once k s s₁ o₁ e, handled_fails o₁ h, Runs-failure r alive g)
  Runs-failure {k} {s} {s'} (exceeded {o₁} a x e h _) alive g =
      ground (arith, step_once k s s' o₁ e, handled_fails o₁ h)
  Runs-failure {k} {s} {s'} (aborted a e _ c) alive g = cc (alive s')

retry_policy-quiet :
    {S Tx A : Type 0} (drv : Driver S Tx) (a : A) → (retry_policy drv).handle_if a none ≡ false
unfolding retry_policy should_retry
retry_policy-quiet drv a = refl

module _ {S Tx A : Type 0} (drv : Driver S Tx) (execute : Execute A S)
    (cancelled : Context → S → Bool) where
  pub transact1-Runs :
      (ctx : Context) (fnc : Handler S Tx A) (zero : A) (s : S)
      → IsExecutor cancelled execute
      → attempts_from_context ctx ≡ none
      → let r = transact1 drv execute ctx fnc zero s in
        Runs (retry_policy drv) (cancelled ctx) (attempt drv fnc zero ctx) 1 s r.0 r.1
  unfolding transact1
  transact1-Runs ctx fnc zero s runs outside = rw (outside, transact1) (runs _ ctx _ s)

  pub transact1-nested :
      (ctx : Context) (fnc : Handler S Tx A) (zero : A) (s : S) {n : ℕ}
      → attempts_from_context ctx ≡ some n
      → transact1 drv execute ctx fnc zero s
        ≡ (s, returned zero (some (wrap "" (sentinel already_in_scope))))
  unfolding transact1
  transact1-nested ctx fnc zero s nested = rw (nested, transact1) refl

module _ {S Tx A : Type 0} (drv : Driver S Tx) (status : S → Tx → Status) (commits : S → ℕ)
    (execute : Execute A S) (cancelled : Context → S → Bool) where
  -- A Transact1 that succeeds has committed exactly one transaction, whatever number of attempts it
  -- took, for a driver and an executor that keep their laws and a handler that leaves its
  -- transaction open.
  pub transact1-success :
      (ctx : Context) (fnc : Handler S Tx A) (zero : A) (s : S)
      → IsDriver drv status commits
      → IsExecutor cancelled execute
      → LeavesOpen status commits fnc
      → succeeded (transact1 drv execute ctx fnc zero s).1 ≡ true
      → commits (transact1 drv execute ctx fnc zero s).0 ≡ suc (commits s)
  transact1-success ctx fnc zero s laws runs plain g =
      elim (Option-cases (attempts_from_context ctx)) [
        | inl outside ↦
            Runs-success (retry_policy drv) (cancelled ctx) (attempt drv fnc zero ctx) commits
              (λ k t. attempt-CommitsOnce drv status commits laws fnc zero ctx k t plain)
              (retry_policy-quiet drv)
              (transact1-Runs drv execute cancelled ctx fnc zero s runs outside) g
        | inr (n, nested) ↦
            let e = transact1-nested drv execute cancelled ctx fnc zero s nested in
            cc (subst (λ r. succeeded r.1 ≡ true) e g)
      ]

  -- A Transact1 that fails, panics or exits its goroutine has committed nothing, provided its
  -- context is never cancelled, the driver and the executor keep their laws and the handler leaves
  -- its transaction open.
  pub transact1-failure :
      (ctx : Context) (fnc : Handler S Tx A) (zero : A) (s : S)
      → IsDriver drv status commits
      → IsExecutor cancelled execute
      → LeavesOpen status commits fnc
      → ((t : S) → cancelled ctx t ≡ false)
      → succeeded (transact1 drv execute ctx fnc zero s).1 ≡ false
      → commits (transact1 drv execute ctx fnc zero s).0 ≡ commits s
  transact1-failure ctx fnc zero s laws runs plain alive g =
      elim (Option-cases (attempts_from_context ctx)) [
        | inl outside ↦
            Runs-failure (retry_policy drv) (cancelled ctx) (attempt drv fnc zero ctx) commits
              (λ k t. attempt-CommitsOnce drv status commits laws fnc zero ctx k t plain)
              (retry_policy-quiet drv)
              (transact1-Runs drv execute cancelled ctx fnc zero s runs outside) alive g
        | inr (n, nested) ↦
            ap (λ r. commits r.0) (transact1-nested drv execute cancelled ctx fnc zero s nested)
      ]
