-- ===== src/River/Completion.antt =====
-- A job that was worked without an error: its handler, its output and its completion all went through
-- in the transaction that was committed.
use stdgo.Base.{
  ℕ, suc, String, Bool, true, Option, none, some, ◌≡◌, refl, sym, ap, ◌∙◌, subst, inl, inr,
  Option-cases,
}
use Prim.Native.String.{◌++◌ as concat}
use stdgo.Base.Int.{ℤ, pos, ◌+ℤ◌, quot}
use stdgo.Go.Format.{format_int}
use stdgo.Go.Context.{Context}
use stdgo.Go.Errors.{GoError, ok}
use stdgo.Go.Outcome.{Outcome, returned, panicked, exited, succeeded}
use stdgo.Failsafe.{Execute, IsExecutor}
use stdgo.Stdtx.Scope.{context_with_attempts, with_no_test_for_max_query_plan_costs}
use stdgo.Stdtx.Driver.{Driver, IsDriver, Status}
use stdgo.Stdtx.Transact.{transact0}
use stdgo.Stdtx.Transact.Attempt.{LeavesOpen}
use stdgo.Stdtx.Transact.Successes.{commit_state, transact0-success, transact0-attempt}
use stdgo.River.{
  timeout_sql, tx_timeout, Library, Work, then_step, wrap_outcome, set_timeouts, complete, worked,
  work_in_tx, transact_valid, transact, enqueue, enqueue_valid,
}

module _ {S Tx A O : Type 0} (lib : Library S Tx A O) (hdlr : Work S Tx A O) where
  -- From `s` the handler's valid output is recorded and the job completed in the transaction.
  pub data Completes (ctx : Context) (tx : Tx) (args : A) (s s' : S) : Type 0 where
    completes :
        (output : O) (s₁ s₂ : S)
        → hdlr ctx tx args s ≡ (s₁, returned output none)
        → lib.validate_output output ≡ none
        → lib.record_output ctx output s₁ ≡ (s₂, none)
        → lib.job_complete_tx ctx tx args s₂ ≡ (s', none)
        → Completes ctx tx args s s'

  -- With a deadline ahead, the transaction's timeouts were set to end five seconds after it; without
  -- one nothing was done.
  abbrev pub TimeoutsSet : Context → Tx → Option ℤ → S → S → Type 0
  TimeoutsSet ctx tx none s s' = s' ≡ s
  TimeoutsSet ctx tx (some until) s s' =
      let millis = format_int (quot (until +ℤ pos 5_000_000_000) 1_000_000) in
      lib.exec (with_no_test_for_max_query_plan_costs ctx) tx
        (concat "\n\t\t\t\tSET SESSION idle_in_transaction_session_timeout = " (
          concat millis
            (concat ";\n\t\t\t\tSET SESSION transaction_timeout = " (concat millis ";\n\t\t\t"))))
        s
      ≡ (s', none)

  set_timeouts-TimeoutsSet :
      (ctx : Context) (tx : Tx) (until : Option ℤ) (s s' : S)
      → set_timeouts lib ctx tx until s ≡ (s', none)
      → TimeoutsSet ctx tx until s s'
  unfolding timeout_sql tx_timeout
  set_timeouts-TimeoutsSet ctx tx none s s' h = ap (λ (r : S × Option GoError). r.0) (sym h)
  set_timeouts-TimeoutsSet ctx tx (some until) s s' h = h

  then_step-success :
      (what : String) (r : S × Option GoError) (k : S → S × Outcome (Unit {0}))
      → succeeded (then_step what r k).1 ≡ true
      → (s : S) × (r ≡ (s, none)) × (then_step what r k ≡ k s)
  then_step-success what (s, none) k h = (s, refl, refl)
  then_step-success what (s, some e) k h = cc

  complete-success :
      (ctx : Context) (tx : Tx) (args : A) (output : O) (checked : Option GoError) (s : S)
      → succeeded (complete lib ctx tx args output checked s).1 ≡ true
      → (checked ≡ none)
        × (s₂ : S) × (lib.record_output ctx output s ≡ (s₂, none))
        × (lib.job_complete_tx ctx tx args s₂
            ≡ ((complete lib ctx tx args output checked s).0, none))
  complete-success ctx tx args output (some e) s h = cc
  complete-success ctx tx args output none s h =
      let (s₂, recorded, done) =
        then_step-success "record output" (lib.record_output ctx output s) _ h in
      let (s₃, finished, ends) =
        then_step-success "job complete tx" (lib.job_complete_tx ctx tx args s₂) _
          (ap (λ r. succeeded r.1) (sym done) ∙ h) in
      (refl, s₂, recorded, finished ∙ ap (λ r. (r.0, none)) (sym (done ∙ ends)))

  worked-success :
      (ctx : Context) (tx : Tx) (args : A) (s : S) (r : S × Outcome O)
      → hdlr ctx tx args s ≡ r
      → succeeded (worked lib ctx tx args r).1 ≡ true
      → Completes ctx tx args s (worked lib ctx tx args r).0
  worked-success ctx tx args s (s₁, returned output (some e)) ran h = cc
  worked-success ctx tx args s (s₁, panicked v) ran h = cc
  worked-success ctx tx args s (s₁, exited) ran h = cc
  worked-success ctx tx args s (s₁, returned output none) ran h =
      let (valid, s₂, recorded, done) =
        complete-success ctx tx args output (lib.validate_output output) s₁ h in
      completes output s₁ s₂ ran valid recorded done

  work_in_tx-success :
      (ctx : Context) (tx : Tx) (args : A) (s : S)
      → succeeded (work_in_tx lib hdlr args ctx tx s).1 ≡ true
      → (s₀ : S) × (set_timeouts lib ctx tx (lib.until_deadline ctx s) s ≡ (s₀, none))
        × Completes ctx tx args s₀ (work_in_tx lib hdlr args ctx tx s).0
  unfolding work_in_tx
  work_in_tx-success ctx tx args s h =
      let (s₀, set, works) =
        then_step-success "failed to set session idle timeout"
          (set_timeouts lib ctx tx (lib.until_deadline ctx s) s) _ h in
      (
        s₀,
        set,
        subst (λ r. Completes ctx tx args s₀ r.0) (sym works)
            (worked-success ctx tx args s₀ (hdlr ctx tx args s₀) refl
              (ap (λ r. succeeded r.1) (sym works) ∙ h)),
      )

  wrap_outcome-success :
      (what : String) (r : S × Outcome (Unit {0}))
      → succeeded (wrap_outcome what r).1 ≡ true
      → wrap_outcome what r ≡ r
  wrap_outcome-success what (s, returned tt none) h = refl
  wrap_outcome-success what (s, returned u (some e)) h = cc
  wrap_outcome-success what (s, panicked v) h = refl
  wrap_outcome-success what (s, exited) h = refl

  transact_valid-success :
      (drv : Driver S Tx) (execute : Execute (Unit {0}) S) (checked : Option GoError)
      (ctx : Context) (args : A) (s : S)
      → succeeded (transact_valid lib drv execute hdlr checked ctx args s).1 ≡ true
      → (checked ≡ none)
        × (transact_valid lib drv execute hdlr checked ctx args s
            ≡ transact0 drv execute ctx (work_in_tx lib hdlr args) s)
  transact_valid-success drv execute (some e) ctx args s h = cc
  transact_valid-success drv execute none ctx args s h = (
    refl,
    wrap_outcome-success "work transact" (transact0 drv execute ctx (work_in_tx lib hdlr args) s) h,
  )

  -- A job whose transact succeeds has valid arguments, and exactly one transaction was committed
  -- for it: one in which both timeouts were set to five seconds after the deadline of the context,
  -- if it has a deadline, and in which the handler returned an output that is valid and was
  -- recorded, and the job was completed; the state in the end is that of this commit. This holds
  -- for a driver and an executor that keep their laws and work that leaves its transaction open.
  pub transact-Completes :
      (drv : Driver S Tx) (status : S → Tx → Status) (commits : S → ℕ)
      (execute : Execute (Unit {0}) S) (cancelled : Context → S → Bool) (ctx : Context) (args : A)
      (s : S)
      → IsDriver drv status commits
      → IsExecutor cancelled execute
      → LeavesOpen status commits (work_in_tx lib hdlr args)
      → succeeded (transact lib drv execute hdlr ctx args s).1 ≡ true
      → (lib.validate_args args ≡ none)
        × (commits (transact lib drv execute hdlr ctx args s).0 ≡ suc (commits s))
        × (k : ℕ) × (t s₁ s₂ s₃ : S) × (tx : Tx) × (drv.begin_tx ctx t ≡ (s₁, ok tx))
        × TimeoutsSet
            (context_with_attempts ctx k)
            tx
            (lib.until_deadline (context_with_attempts ctx k) s₁)
            s₁
            s₂
        × Completes (context_with_attempts ctx k) tx args s₂ s₃
        × ((transact lib drv execute hdlr ctx args s).0
            ≡ commit_state drv (context_with_attempts ctx k) tx s₃)
  unfolding transact
  transact-Completes drv status commits execute cancelled ctx args s laws runs plain h =
      let (valid, same) =
        transact_valid-success drv execute (lib.validate_args args) ctx args s h in
      let fnc = work_in_tx lib hdlr args in
      let g = ap (λ r. succeeded r.1) (sym same) ∙ h in
      let (k, t, s₁, tx, begins, works, state) =
        transact0-attempt drv execute cancelled ctx fnc s runs g in
      let (s₂, set, done) = work_in_tx-success (context_with_attempts ctx k) tx args s₁ works in
      (
        valid,
        ap (λ r. commits r.0) same
            ∙ transact0-success drv execute cancelled ctx fnc s runs status commits laws plain g,
        k,
        t,
        s₁,
        s₂,
        (work_in_tx lib hdlr args (context_with_attempts ctx k) tx s₁).0,
        tx,
        begins,
        set_timeouts-TimeoutsSet (context_with_attempts ctx k) tx
            (lib.until_deadline (context_with_attempts ctx k) s₁) s₁ s₂ set,
        done,
        ap (λ r. r.0) same ∙ state,
      )

  -- A job that was enqueued without an error is not cancelled for its arguments.
  pub transact-enqueue :
      (drv : Driver S Tx) (execute : Execute (Unit {0}) S) (ctx ctx' : Context) (tx : Tx) (args : A)
      (s s' t : S)
      → enqueue lib ctx tx args s ≡ (s', none)
      → transact lib drv execute hdlr ctx' args t
        ≡ wrap_outcome "work transact" (transact0 drv execute ctx' (work_in_tx lib hdlr args) t)
  unfolding enqueue transact
  transact-enqueue drv execute ctx ctx' tx args s s' t h =
      elim (Option-cases (lib.validate_args args)) [
        | inl valid ↦ rw valid refl
        | inr (e, invalid) ↦
            let same = ap (λ c. enqueue_valid lib c ctx tx args s) invalid in
            cc (ap (λ (r : S × Option GoError). r.1) (sym same ∙ h))
      ]
