-- ===== src/Stdtx/Transact/Recovery.antt =====
-- What Transact1 makes of a handler's error: a listed code leads to a second attempt, and any other
-- error reaches the caller.
use stdgo.Base.{
  ℕ, suc, ◌≤◌, String, Bool, true, false, none, some, ◌≡◌, ◌≢◌, ◌⊎◌, inl, inr, refl, ap, sym, subst,
  ◌∙◌, contains,
}
use stdgo.Go.Context.{Context}
use stdgo.Go.Errors.{GoError, Sentinel, as_pg_error, is, ok}
use stdgo.Go.Outcome.{returned, succeeded}
use stdgo.Failsafe.{Execute, IsExecutor, handled}
use stdgo.Stdtx.Scope.{context_with_attempts, attempts_from_context}
use stdgo.Stdtx.Driver.{Driver, IsDriver, Status, active, committed}
use stdgo.Stdtx.Transact.{
  Handler, code_in, conclude, in_tx, begun, attempt, retry_policy, should_retry, transact1,
}
use stdgo.Stdtx.Transact.Attempt.{LeavesOpen, in_tx_closes}
use stdgo.Stdtx.Transact.Commits.{transact1-success, transact1-failure}
use stdgo.Stdtx.Transact.Retrying.{in_tx-SameChain, transact1_once, transact1_twice}

module _ {S Tx : Type 0} (drv : Driver S Tx) where
  -- The error has a code that asks for a retry.
  abbrev pub IsRetryable : GoError → Type 0
  IsRetryable e =
      (code : String) × (as_pg_error e ≡ some code)
      × (contains drv.serialization_failure_codes code ≡ true)

  -- It has no code, or one that does not.
  abbrev pub IsFinal : GoError → Type 0
  IsFinal e =
      (as_pg_error e ≡ none)
      ⊎ ((code : String) × (as_pg_error e ≡ some code)
          × (contains drv.serialization_failure_codes code ≡ false))

  code_in-IsFinal :
      (e : GoError) → IsFinal e → code_in drv.serialization_failure_codes (as_pg_error e) ≡ false
  code_in-IsFinal e (inl plain) = rw plain refl
  code_in-IsFinal e (inr (code, coded, unlisted)) = rw coded unlisted

module _ {S Tx A : Type 0} (drv : Driver S Tx) where
  attempt_begun :
      (fnc : Handler S Tx A) (zero : A) (ctx : Context) (k : ℕ) (s s₁ : S) (tx : Tx)
      → drv.begin_tx ctx s ≡ (s₁, ok tx)
      → attempt drv fnc zero ctx k s ≡ in_tx drv fnc (context_with_attempts ctx k) tx s₁
  unfolding attempt begun
  attempt_begun fnc zero ctx k s s₁ tx h = ap (begun drv fnc zero ctx k) h

  in_tx-handled :
      (fnc : Handler S Tx A) (ctx : Context) (tx : Tx) (s s' : S) (res : A) (e : GoError)
      → fnc ctx tx s ≡ (s', returned res (some e))
      → handled (retry_policy drv) (in_tx drv fnc ctx tx s).1
        ≡ code_in drv.serialization_failure_codes (as_pg_error e)
  unfolding retry_policy should_retry
  in_tx-handled fnc ctx tx s s' res e h =
      let (e', ends, (same, _)) = in_tx-SameChain drv fnc ctx tx s s' res e h in
      rw ends (ap (code_in drv.serialization_failure_codes) same)

  in_tx_of_success :
      (fnc : Handler S Tx A) (ctx : Context) (tx : Tx) (s s₁ s₂ : S) (v : A)
      → fnc ctx tx s ≡ (s₁, returned v none)
      → drv.commit_tx ctx tx s₁ ≡ (s₂, none)
      → in_tx drv fnc ctx tx s ≡ ((drv.rollback_tx ctx tx s₂).0, returned v none)
  unfolding in_tx conclude
  in_tx_of_success fnc ctx tx s s₁ s₂ v ran done = rw (ran, done) refl

  -- The state behind a failed handler: the rollback, and the deferred one.
  in_tx_of_failure :
      (fnc : Handler S Tx A) (ctx : Context) (tx : Tx) (s s₁ : S) (res : A) (e : GoError)
      → fnc ctx tx s ≡ (s₁, returned res (some e))
      → (in_tx drv fnc ctx tx s).0 ≡ (drv.rollback_tx ctx tx (drv.rollback_tx ctx tx s₁).0).0
  unfolding in_tx conclude
  in_tx_of_failure fnc ctx tx s s₁ res e ran = rw ran refl

module _ {S Tx A : Type 0} (drv : Driver S Tx) (status : S → Tx → Status) (commits : S → ℕ)
    (execute : Execute A S) (cancelled : Context → S → Bool) where
  committed_in :
      (fnc : Handler S Tx A) (ctx : Context) (tx : Tx) (s s₁ s₂ : S) (v : A)
      → IsDriver drv status commits
      → LeavesOpen status commits fnc
      → status s tx ≡ active
      → fnc ctx tx s ≡ (s₁, returned v none)
      → drv.commit_tx ctx tx s₁ ≡ (s₂, none)
      → status (drv.rollback_tx ctx tx s₂).0 tx ≡ committed
  committed_in fnc ctx tx s s₁ s₂ v laws plain live ran done =
      let live₁ = subst (λ r. status r.0 tx ≡ active) ran (plain ctx tx s live).0 in
      let over = (laws.commit_ok ctx tx s₁ s₂ live₁ done).0 in
      laws.rollback_closed ctx tx s₂ (λ still. cc (still, over)) ∙ over

  -- When the first attempt begins and its handler fails with a PgError of one of the driver's
  -- codes, and behind the rollbacks a second attempt begins, its handler succeeds and its commit
  -- does, Transact1 returns the second handler's result without an error, the second transaction is
  -- committed, and it is the only commit. This holds for a driver and an executor that keep their
  -- laws, at least one retry, a handler that leaves its transaction open, and a context that is
  -- never cancelled and carries no attempt number.
  pub transact1_recovers :
      (ctx : Context) (fnc : Handler S Tx A) (zero res v : A) (e : GoError) (tx tx' : Tx)
      (s s₁ s₂ t₁ t₂ t₃ : S)
      → IsDriver drv status commits
      → IsExecutor cancelled execute
      → LeavesOpen status commits fnc
      → ((t : S) → cancelled ctx t ≡ false)
      → attempts_from_context ctx ≡ none
      → 1 ≤ drv.serialization_failure_max_retries
      → IsRetryable drv e
      → let first = context_with_attempts ctx 1 in
        let second = context_with_attempts ctx 2 in
        drv.begin_tx ctx s ≡ (s₁, ok tx)
        → fnc first tx s₁ ≡ (s₂, returned res (some e))
        → drv.begin_tx ctx (drv.rollback_tx first tx (drv.rollback_tx first tx s₂).0).0
          ≡ (t₁, ok tx')
        → fnc second tx' t₁ ≡ (t₂, returned v none)
        → drv.commit_tx second tx' t₂ ≡ (t₃, none)
        → let r = transact1 drv execute ctx fnc zero s in
          (r.1 ≡ returned v none) × (status r.0 tx' ≡ committed) × (commits r.0 ≡ suc (commits s))
  unfolding retry_policy should_retry
  transact1_recovers ctx fnc zero res v e tx tx' s s₁ s₂ t₁ t₂ t₃ laws runs plain alive outside room
        (code, coded, listed) begins fails begins' ran done =
      let first = context_with_attempts ctx 1 in
      let second = context_with_attempts ctx 2 in
      let fn = attempt drv fnc zero ctx in
      let one = attempt_begun drv fnc zero ctx 1 s s₁ tx begins in
      let left = ap (λ r. r.0) one ∙ in_tx_of_failure drv fnc first tx s₁ s₂ res e fails in
      let again =
        ap (λ r. handled (retry_policy drv) r.1) one
        ∙ in_tx-handled drv fnc first tx s₁ s₂ res e fails
        ∙ ap (code_in drv.serialization_failure_codes) coded
        ∙ listed in
      let two =
        ap (fn 2) left
        ∙ attempt_begun drv fnc zero ctx 2 _ t₁ tx' begins'
        ∙ in_tx_of_success drv fnc second tx' t₁ t₂ t₃ v ran done in
      let last : handled (retry_policy drv) (fn 2 (fn 1 s).0).1 ≡ false =
        ap (λ r. handled (retry_policy drv) r.1) two in
      let whole =
        transact1_twice drv execute cancelled ctx fnc zero s runs alive outside room again last
        ∙ two in
      (
        ap (λ r. r.1) whole,
        ap (λ r. status r.0 tx') whole
            ∙ committed_in fnc second tx' t₁ t₂ t₃ v laws plain
                (laws.begin_ok ctx _ t₁ tx' begins').0 ran done,
        transact1-success drv status commits execute cancelled ctx fnc zero s laws runs plain
            (ap (λ r. succeeded r.1) whole),
      )

  -- When the first attempt begins and its handler fails with an error that is no PgError of one of
  -- the driver's codes, Transact1 returns the handler's result with an error that has the same
  -- PgError and the same sentinels in its chain, also when the rollback fails; the transaction is
  -- no longer active and nothing is committed. This holds for a driver and an executor that keep
  -- their laws, a handler that leaves its transaction open, and a context that is never cancelled
  -- and carries no attempt number.
  pub transact1_reports :
      (ctx : Context) (fnc : Handler S Tx A) (zero res : A) (e : GoError) (tx : Tx) (s s₁ s₂ : S)
      → IsDriver drv status commits
      → IsExecutor cancelled execute
      → LeavesOpen status commits fnc
      → ((t : S) → cancelled ctx t ≡ false)
      → attempts_from_context ctx ≡ none
      → IsFinal drv e
      → drv.begin_tx ctx s ≡ (s₁, ok tx)
      → fnc (context_with_attempts ctx 1) tx s₁ ≡ (s₂, returned res (some e))
      → let r = transact1 drv execute ctx fnc zero s in
        (e' : GoError) × (r.1 ≡ returned res (some e'))
        × (as_pg_error e' ≡ as_pg_error e)
        × ((t : Sentinel) → is e' t ≡ is e t)
        × (status r.0 tx ≢ active)
        × (commits r.0 ≡ commits s)
  transact1_reports ctx fnc zero res e tx s s₁ s₂ laws runs plain alive outside last begins fails =
      let first = context_with_attempts ctx 1 in
      let one = attempt_begun drv fnc zero ctx 1 s s₁ tx begins in
      let over =
        ap (λ r. handled (retry_policy drv) r.1) one
        ∙ in_tx-handled drv fnc first tx s₁ s₂ res e fails
        ∙ code_in-IsFinal drv e last in
      let whole =
        transact1_once drv execute cancelled ctx fnc zero s runs alive outside over ∙ one in
      let (e', ends, (same, sentinels)) = in_tx-SameChain drv fnc first tx s₁ s₂ res e fails in
      let result = ap (λ r. r.1) whole ∙ ends in
      (
        e',
        result,
        same,
        sentinels,
        subst (λ t. status t tx ≢ active) (sym (ap (λ r. r.0) whole))
            (in_tx_closes drv status commits laws fnc first tx s₁),
        transact1-failure drv status commits execute cancelled ctx fnc zero s laws runs plain alive
            (ap succeeded result),
      )
