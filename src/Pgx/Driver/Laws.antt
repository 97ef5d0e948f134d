-- ===== src/Pgx/Driver/Laws.antt =====
-- The pgx driver keeps the laws of a driver, and a failed setup leaves no transaction open.
use stdgo.Base.{
  ℕ, suc, String, Bool, true, false, Option, none, some, ◌≡◌, ◌≢◌, refl, sym, ap, subst, ◌∙◌, inl,
  inr, Bool-cases, str_eq,
}
use stdgo.Go.Context.{Context}
use stdgo.Go.Errors.{GoError, is, wrap, tx_closed, Result, ok, err}
use stdgo.Stdtx.Scope.{with_no_test_for_max_query_plan_costs}
use stdgo.Stdtx.Driver.{IsDriver, Status, active, committed}
use stdgo.Stdtx.Transact.Attempt.{rollback_closes}
use stdgo.Pgx.Library.{Library, Costs, IsLibrary, plain_driver}
use stdgo.Pgx.Wtx.{exec}
use stdgo.Pgx.Wtx.Budget.{exec_opted_out}
use stdgo.Pgx.Driver.{
  Options, begin_sql, as_setup_error, run_begin_sql, after_hook, setup_tx, after_setup, after_begin,
  begin_tx, after_commit_hook, commit_tx, driver,
}

module _ {S Tx Cost : Type 0} where
  -- What the driver asks of the hooks in its options.
  pub record IsHooks (opts : Options S Tx Cost) (ends_tx : String → Bool) (status : S → Tx → Status)
      (commits : S → ℕ) : Type 0 where
    pub begin_keeps :
        (ctx : Context) (tx : Tx) (s : S)
        → status s tx ≡ active
        → (status (opts.tx_begin_sql ctx "" tx s).0 tx ≡ active)
          × (commits (opts.tx_begin_sql ctx "" tx s).0 ≡ commits s)
    pub begin_plain :
        (ctx : Context) (tx : Tx) (s s' : S) (sql : String)
        → opts.tx_begin_sql ctx "" tx s ≡ (s', ok sql)
        → ends_tx (begin_sql opts sql) ≡ false
    pub commit_active :
        (ctx : Context) (tx : Tx) (s : S)
        → status s tx ≡ active
        → status (opts.on_tx_commit ctx opts.tx_access_mode tx s).0 tx ≡ active
    pub commit_closed :
        (ctx : Context) (tx : Tx) (s : S)
        → status s tx ≢ active
        → status (opts.on_tx_commit ctx opts.tx_access_mode tx s).0 tx ≡ status s tx
    pub commit_commits :
        (ctx : Context) (tx : Tx) (s : S)
        → commits (opts.on_tx_commit ctx opts.tx_access_mode tx s).0 ≡ commits s
    pub commit_err_active :
        (ctx : Context) (tx : Tx) (s s' : S) (e : GoError)
        → status s tx ≡ active
        → opts.on_tx_commit ctx opts.tx_access_mode tx s ≡ (s', some e)
        → is e tx_closed ≡ false
    pub commit_err_closed :
        (ctx : Context) (tx : Tx) (s s' : S) (e : GoError)
        → status s tx ≢ active
        → opts.on_tx_commit ctx opts.tx_access_mode tx s ≡ (s', some e)
        → is e tx_closed ≡ true

module _ {S Tx Cost : Type 0} (lib : Library S Tx) (costs : Costs Cost) (opts : Options S Tx Cost)
    (ends_tx : String → Bool) (status : S → Tx → Status) (commits : S → ℕ)
    (known : IsLibrary lib ends_tx status commits)
    (hooks : IsHooks opts ends_tx status commits) where
  -- Both observers are as they were for an open transaction.
  abbrev Keeps : Tx → S → S → Type 0
  Keeps tx s s' = (status s' tx ≡ active) × (commits s' ≡ commits s)

  as_setup_error_state : (r : S × Result (Unit {0})) → (as_setup_error lib costs opts r).0 ≡ r.0
  as_setup_error_state (s, ok _) = refl
  as_setup_error_state (s, err e) = refl

  run_begin_sql-Keeps :
      (ctx : Context) (tx : Tx) (sql : String) (s : S)
      → ends_tx sql ≡ false
      → status s tx ≡ active
      → Keeps tx s (run_begin_sql lib costs opts ctx tx sql s).0
  unfolding run_begin_sql
  run_begin_sql-Keeps ctx tx sql s plain h = elim (Bool-cases (str_eq sql "")) [
    | inl empty ↦ rw (empty, run_begin_sql) (h, refl)
    | inr full ↦
        rw (full, run_begin_sql)
          (rw
            (
              as_setup_error_state (
                  exec lib costs opts.max_query_plan_costs
                    (with_no_test_for_max_query_plan_costs ctx) tx sql s),
              exec_opted_out lib costs opts.max_query_plan_costs ctx tx sql s,
            )
            (known.exec_keeps (with_no_test_for_max_query_plan_costs ctx) tx sql s plain h))
  ]

  after_hook-Keeps :
      (ctx : Context) (tx : Tx) (s : S) (r : S × Result String)
      → opts.tx_begin_sql ctx "" tx s ≡ r
      → status s tx ≡ active
      → Keeps tx s (after_hook lib costs opts ctx tx r).0
  unfolding after_hook
  after_hook-Keeps ctx tx s (s', err x) e live =
      subst (λ q. Keeps tx s q.0) e (hooks.begin_keeps ctx tx s live)
  after_hook-Keeps ctx tx s (s', ok sql) e live =
      let (live', same) = subst (λ q. Keeps tx s q.0) e (hooks.begin_keeps ctx tx s live) in
      let r =
        run_begin_sql-Keeps ctx tx (begin_sql opts sql) s' (hooks.begin_plain ctx tx s s' sql e)
          live' in
      (r.0, r.1 ∙ same)

  setup_tx-Keeps :
      (ctx : Context) (tx : Tx) (s : S)
      → status s tx ≡ active
      → Keeps tx s (setup_tx lib costs opts ctx tx s).0
  unfolding setup_tx
  setup_tx-Keeps ctx tx s live = after_hook-Keeps ctx tx s (opts.tx_begin_sql ctx "" tx s) refl live

  after_setup_ok :
      (ctx : Context) (tx tx' : Tx) (s s' : S) (r : S × Option GoError)
      → Keeps tx s r.0
      → after_setup lib costs opts ctx tx r ≡ (s', ok tx')
      → (status s' tx' ≡ active) × (commits s' ≡ commits s)
  unfolding after_setup
  after_setup_ok ctx tx tx' s s' (t, none) (live, same) e =
      let p : t ≡ s' = ap (λ r. r.0) e in
      let q : tx ≡ tx' = cc (ap (λ r. r.1) e) in rw (← p, ← q) (live, same)
  after_setup_ok ctx tx tx' s s' (t, some x) keeps e = cc

  after_begin_ok :
      (ctx : Context) (tx' : Tx) (s s' : S) (r : S × Result Tx)
      → lib.begin opts.tx_iso_level opts.tx_access_mode ctx s ≡ r
      → after_begin lib costs opts ctx r ≡ (s', ok tx')
      → (status s' tx' ≡ active) × (commits s' ≡ commits s)
  unfolding after_begin
  after_begin_ok ctx tx' s s' (t, err x) h e = cc
  after_begin_ok ctx tx' s s' (t, ok tx) h e =
      let (live, same) =
        (known.is_driver opts.tx_iso_level opts.tx_access_mode).begin_ok ctx s t tx h in
      let (live', same') =
        after_setup_ok ctx tx tx' t s' (setup_tx lib costs opts ctx tx t)
          (setup_tx-Keeps ctx tx t live) e in
      (live', same' ∙ same)

  after_setup_err :
      (ctx : Context) (tx : Tx) (s s' : S) (e : GoError) (r : S × Option GoError)
      → commits r.0 ≡ commits s
      → after_setup lib costs opts ctx tx r ≡ (s', err e)
      → commits s' ≡ commits s
  unfolding after_setup
  after_setup_err ctx tx s s' e (t, none) same h = cc
  after_setup_err ctx tx s s' e (t, some x) same h =
      ap commits (sym (ap (λ r. r.0) h))
      ∙ (known.is_driver opts.tx_iso_level opts.tx_access_mode).rollback_commits ctx tx t
      ∙ same

  after_begin_err :
      (ctx : Context) (s s' : S) (e : GoError) (r : S × Result Tx)
      → lib.begin opts.tx_iso_level opts.tx_access_mode ctx s ≡ r
      → after_begin lib costs opts ctx r ≡ (s', err e)
      → commits s' ≡ commits s
  unfolding after_begin
  after_begin_err ctx s s' e (t, err x) h g =
      ap commits (sym (ap (λ r. r.0) g))
      ∙ (known.is_driver opts.tx_iso_level opts.tx_access_mode).begin_err ctx s t x h
  after_begin_err ctx s s' e (t, ok tx) h g =
      let (live, same) =
        (known.is_driver opts.tx_iso_level opts.tx_access_mode).begin_ok ctx s t tx h in
      after_setup_err ctx tx t s' e (setup_tx lib costs opts ctx tx t)
        (setup_tx-Keeps ctx tx t live).1 g
      ∙ same

  commit_tx_ok :
      (ctx : Context) (tx : Tx) (s s' : S) (r : S × Option GoError)
      → opts.on_tx_commit ctx opts.tx_access_mode tx s ≡ r
      → status s tx ≡ active
      → after_commit_hook lib costs opts ctx tx r ≡ (s', none)
      → (status s' tx ≡ committed) × (commits s' ≡ suc (commits s))
  unfolding after_commit_hook
  commit_tx_ok ctx tx s s' (t, some x) h live e = cc
  commit_tx_ok ctx tx s s' (t, none) h live e =
      let live' = subst (λ r. status r.0 tx ≡ active) h (hooks.commit_active ctx tx s live) in
      let same = subst (λ r. commits r.0 ≡ commits s) h (hooks.commit_commits ctx tx s) in
      let (over, more) =
        (known.is_driver opts.tx_iso_level opts.tx_access_mode).commit_ok ctx tx t s' live' e in
      (over, more ∙ ap suc same)

  commit_tx_err :
      (ctx : Context) (tx : Tx) (s s' : S) (e : GoError) (r : S × Option GoError)
      → opts.on_tx_commit ctx opts.tx_access_mode tx s ≡ r
      → status s tx ≡ active
      → after_commit_hook lib costs opts ctx tx r ≡ (s', some e)
      → (status s' tx ≢ committed) × (commits s' ≡ commits s) × (is e tx_closed ≡ false)
  unfolding after_commit_hook is
  commit_tx_err ctx tx s s' e (t, some x) h live g =
      let p : t ≡ s' = ap (λ r. r.0) g in
      let q : wrap "on tx commit hook" x ≡ e = cc (ap (λ r. r.1) g) in
      let live' : status t tx ≡ active =
        subst (λ r. status r.0 tx ≡ active) h (hooks.commit_active ctx tx s live) in
      let same : commits t ≡ commits s =
        subst (λ r. commits r.0 ≡ commits s) h (hooks.commit_commits ctx tx s) in
      rw (← p, ← q) (λ over. cc (live', over), same, hooks.commit_err_active ctx tx s t x live h)
  commit_tx_err ctx tx s s' e (t, none) h live g =
      let live' = subst (λ r. status r.0 tx ≡ active) h (hooks.commit_active ctx tx s live) in
      let same = subst (λ r. commits r.0 ≡ commits s) h (hooks.commit_commits ctx tx s) in
      let (over, kept, other) =
        (known.is_driver opts.tx_iso_level opts.tx_access_mode).commit_err ctx tx t s' e live' g in
      (over, kept ∙ same, other)

  commit_tx_closed :
      (ctx : Context) (tx : Tx) (s : S) (r : S × Option GoError)
      → opts.on_tx_commit ctx opts.tx_access_mode tx s ≡ r
      → status s tx ≢ active
      → (s' : S) × (e : GoError) × (after_commit_hook lib costs opts ctx tx r ≡ (s', some e))
        × (is e tx_closed ≡ true)
        × (status s' tx ≡ status s tx)
        × (commits s' ≡ commits s)
  unfolding after_commit_hook is
  commit_tx_closed ctx tx s (t, some x) h done = (
    t,
    wrap "on tx commit hook" x,
    refl,
    hooks.commit_err_closed ctx tx s t x done h,
    subst (λ r. status r.0 tx ≡ status s tx) h (hooks.commit_closed ctx tx s done),
    subst (λ r. commits r.0 ≡ commits s) h (hooks.commit_commits ctx tx s),
  )
  commit_tx_closed ctx tx s (t, none) h done =
      let kept : status t tx ≡ status s tx =
        subst (λ r. status r.0 tx ≡ status s tx) h (hooks.commit_closed ctx tx s done) in
      let same = subst (λ r. commits r.0 ≡ commits s) h (hooks.commit_commits ctx tx s) in
      let (s', e, ends, over, kept', same') =
        (known.is_driver opts.tx_iso_level opts.tx_access_mode).commit_closed ctx tx t
          (λ live. done (sym kept ∙ live)) in
      (s', e, ends, over, kept' ∙ kept, same' ∙ same)

  -- The pgx driver keeps the laws of a stdtx driver, for a library that keeps its documented
  -- behaviour and options whose hooks do this: the begin hook leaves an open transaction open,
  -- commits nothing, and writes a text that does not end a transaction; the commit hook changes no
  -- transaction's status and commits nothing, its error in an open transaction is not
  -- pgx.ErrTxClosed, and its error in a closed one is.
  pub driver-IsDriver : IsDriver (driver lib costs opts) status commits
  unfolding driver begin_tx commit_tx
  driver-IsDriver =
      let plain = known.is_driver opts.tx_iso_level opts.tx_access_mode in
      record {
        begin_ok = λ ctx s s' tx h. after_begin_ok ctx tx s s' _ refl h;
        begin_err = λ ctx s s' e h. after_begin_err ctx s s' e _ refl h;
        rollback_active = plain.rollback_active;
        rollback_closed = plain.rollback_closed;
        rollback_commits = plain.rollback_commits;
        commit_ok = λ ctx tx s s' live h. commit_tx_ok ctx tx s s' _ refl live h;
        commit_err = λ ctx tx s s' e live h. commit_tx_err ctx tx s s' e _ refl live h;
        commit_closed = λ ctx tx s done. commit_tx_closed ctx tx s _ refl done;
      }

module _ {S Tx Cost : Type 0} (lib : Library S Tx) (costs : Costs Cost) (opts : Options S Tx Cost)
    (ends_tx : String → Bool) (status : S → Tx → Status) (commits : S → ℕ) where
  -- When the setup of a begun transaction fails, the begin fails with the wrapped error and the
  -- transaction is no longer active, for a library that keeps its documented behaviour.
  pub begin_tx_closes :
      (ctx : Context) (tx : Tx) (s t t' : S) (e : GoError)
      → IsLibrary lib ends_tx status commits
      → lib.begin opts.tx_iso_level opts.tx_access_mode ctx s ≡ (t, ok tx)
      → setup_tx lib costs opts ctx tx t ≡ (t', some e)
      → ((begin_tx lib costs opts ctx s).1 ≡ err (wrap "setup tx, rolled back" e))
        × (status (begin_tx lib costs opts ctx s).0 tx ≢ active)
  unfolding begin_tx after_begin after_setup
  begin_tx_closes ctx tx s t t' e known began failed =
      let closed =
        rollback_closes (plain_driver lib opts.tx_iso_level opts.tx_access_mode) status commits
          (known.is_driver opts.tx_iso_level opts.tx_access_mode) ctx tx t' in
      subst (Fails (after_begin lib costs opts ctx)) (sym began)
        (subst (Fails (after_setup lib costs opts ctx tx)) (sym failed) (refl, closed))
    where
      Fails : {R : Type 0} → (R → S × Result Tx) → R → Type 0
      Fails f r = ((f r).1 ≡ err (wrap "setup tx, rolled back" e)) × (status (f r).0 tx ≢ active)
