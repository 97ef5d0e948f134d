-- ===== src/Stdtx/Transact/Successes.antt =====
-- The attempt by which a call succeeds.
use stdgo.Base.{
  ℕ, suc, Bool, true, false, Option, none, some, ◌≡◌, refl, sym, ap, ◌∙◌, subst, inl, inr,
  Option-cases,
}
use stdgo.Go.Context.{Context}
use stdgo.Go.Errors.{GoError, Result, ok, err}
use stdgo.Go.Outcome.{Outcome, returned, panicked, exited, succeeded}
use stdgo.Failsafe.{RetryPolicy, Execute, IsExecutor, Runs, finished, again, exceeded, aborted}
use stdgo.Stdtx.Scope.{context_with_attempts, attempts_from_context}
use stdgo.Stdtx.Driver.{Driver, IsDriver, Status}
use stdgo.Stdtx.Transact.{
  Handler, after_rollback, conclude, in_tx, begun, attempt, retry_policy, transact0, transact1,
}
use stdgo.Stdtx.Transact.Commits.{transact1-Runs, transact1-nested, transact1-success}
use stdgo.Stdtx.Transact.Attempt.{LeavesOpen}

module _ {A S : Type 0} (p : RetryPolicy A) (cancelled : S → Bool)
    (fn : ℕ → S → S × Outcome A) where
  Runs-last :
      {k : ℕ} {s s' : S} {o : Outcome A}
      → Runs p cancelled fn k s s' o
      → succeeded o ≡ true
      → (n : ℕ) × (t : S) × (fn n t ≡ (s', o))
  Runs-last {k} {s} (finished e _) g = (k, s, e)
  Runs-last (again _ _ _ r) g = Runs-last r g
  Runs-last (exceeded a e _ _ _) g = cc
  Runs-last (aborted a e _ _) g = cc

after_rollback-fails :
    {A : Type 0} (res : A) (e : GoError) (r : Option GoError)
    → succeeded (after_rollback res e r) ≡ false
after_rollback-fails res e none = refl
after_rollback-fails res e (some rerr) = refl

module _ {S Tx : Type 0} (drv : Driver S Tx) where
  -- A commit, and the deferred rollback behind it.
  abbrev pub commit_state : Context → Tx → S → S
  commit_state ctx tx s = (drv.rollback_tx ctx tx (drv.commit_tx ctx tx s).0).0

module _ {S Tx A : Type 0} (drv : Driver S Tx) where
  conclude-success :
      (ctx : Context) (tx : Tx) (o : Outcome A) (s : S)
      → succeeded (conclude drv ctx tx o s).1 ≡ true
      → (succeeded o ≡ true) × ((conclude drv ctx tx o s).0 ≡ (drv.commit_tx ctx tx s).0)
  unfolding conclude
  conclude-success ctx tx (returned res none) s g = (refl, refl)
  conclude-success ctx tx (returned res (some e)) s g =
      cc (after_rollback-fails res e (drv.rollback_tx ctx tx s).1)
  conclude-success ctx tx (panicked v) s g = cc
  conclude-success ctx tx exited s g = cc

  begun-success :
      (fnc : Handler S Tx A) (zero : A) (ctx : Context) (k : ℕ) (r : S × Result Tx)
      → succeeded (begun drv fnc zero ctx k r).1 ≡ true
      → (s : S) × (tx : Tx) × (r ≡ (s, ok tx))
        × (succeeded (fnc (context_with_attempts ctx k) tx s).1 ≡ true)
        × ((begun drv fnc zero ctx k r).0
            ≡ commit_state drv
                (context_with_attempts ctx k)
                tx
                (fnc (context_with_attempts ctx k) tx s).0)
  unfolding begun in_tx
  begun-success fnc zero ctx k (s, err e) g = cc
  begun-success fnc zero ctx k (s, ok tx) g =
      let r = fnc (context_with_attempts ctx k) tx s in
      let (works, commits) = conclude-success (context_with_attempts ctx k) tx r.1 r.0 g in
      (s, tx, refl, works, ap (λ s. (drv.rollback_tx (context_with_attempts ctx k) tx s).0) commits)

  -- A call that succeeds has an attempt, in a transaction of its own, whose handler succeeds.
  pub transact1-attempt :
      (execute : Execute A S) (cancelled : Context → S → Bool) (ctx : Context)
      (fnc : Handler S Tx A) (zero : A) (s : S)
      → IsExecutor cancelled execute
      → succeeded (transact1 drv execute ctx fnc zero s).1 ≡ true
      → (k : ℕ) × (t s₁ : S) × (tx : Tx) × (drv.begin_tx ctx t ≡ (s₁, ok tx))
        × (succeeded (fnc (context_with_attempts ctx k) tx s₁).1 ≡ true)
        × ((transact1 drv execute ctx fnc zero s).0
            ≡ commit_state drv
                (context_with_attempts ctx k)
                tx
                (fnc (context_with_attempts ctx k) tx s₁).0)
  unfolding attempt
  transact1-attempt execute cancelled ctx fnc zero s runs g =
      elim (Option-cases (attempts_from_context ctx)) [
        | inl outside ↦
            let (k, t, ended) =
              Runs-last (retry_policy drv) (cancelled ctx) (attempt drv fnc zero ctx)
                (transact1-Runs drv execute cancelled ctx fnc zero s runs outside) g in
            let (s₁, tx, begins, works, state) =
              begun-success fnc zero ctx k (drv.begin_tx ctx t)
                (ap (λ r. succeeded r.1) ended ∙ g) in
            (k, t, s₁, tx, begins, works, ap (λ r. r.0) (sym ended) ∙ state)
        | inr (n, nested) ↦
            let e = transact1-nested drv execute cancelled ctx fnc zero s nested in
            cc (subst (λ r. succeeded r.1 ≡ true) e g)
      ]

module _ {S Tx : Type 0} (drv : Driver S Tx) (execute : Execute (Unit {0}) S)
    (cancelled : Context → S → Bool) (ctx : Context) (fnc : Handler S Tx (Unit {0})) (s : S)
    (runs : IsExecutor cancelled execute) where
  pub transact0-attempt :
      succeeded (transact0 drv execute ctx fnc s).1 ≡ true
      → (k : ℕ) × (t s₁ : S) × (tx : Tx) × (drv.begin_tx ctx t ≡ (s₁, ok tx))
        × (succeeded (fnc (context_with_attempts ctx k) tx s₁).1 ≡ true)
        × ((transact0 drv execute ctx fnc s).0
            ≡ commit_state drv
                (context_with_attempts ctx k)
                tx
                (fnc (context_with_attempts ctx k) tx s₁).0)
  unfolding transact0
  transact0-attempt g = transact1-attempt drv execute cancelled ctx fnc tt s runs g

  module _ (status : S → Tx → Status) (commits : S → ℕ) (laws : IsDriver drv status commits)
      (plain : LeavesOpen status commits fnc) where
    pub transact0-success :
        succeeded (transact0 drv execute ctx fnc s).1 ≡ true
        → commits (transact0 drv execute ctx fnc s).0 ≡ suc (commits s)
    unfolding transact0
    transact0-success g =
        transact1-success drv status commits execute cancelled ctx fnc tt s laws runs plain g
