-- ===== src/Stdent/Driver/Laws.antt =====
-- What holds of a transaction that the ent driver hands out, and of one that it refuses.
use stdgo.Base.{
  ℕ, ◌+◌, ◌*◌, ◌/◌, ◌≤◌, ◌<◌, String, Bool, true, Option, none, some, ◌≡◌, ◌≢◌, ◌⊎◌, inl, inr, refl,
  ap, sym, subst, ◌∙◌, arith, if◌then◌else◌, Bool-cases,
}
use stdgo.Base.Int.{pos, quot, int64, add_pos, int64_small}
use stdgo.Go.Context.{Context}
use stdgo.Go.Errors.{GoError, wrap, message, Result, ok, err}
use stdgo.Stdtx.Driver.{Status, active}
use stdgo.Stdent.Transactor.{
  IsolationLevel, read_committed, repeatable_read, serializable, TxOptions,
}
use stdgo.Stdent.Driver.{
  Driver, Wtx, is_allowed, timeout_millis, timeout_sql, seq_scan_sql, as_setup_error, after_hook,
  setup_tx, after_setup, after_begin, begin_on, begin_tx,
}

-- For a deadline that has not passed and an extension of a millisecond or more, whose sum is a
-- duration, the timeout given to the server ends after the deadline, and at most the extension
-- later.
pub timeout_millis_outlasts :
    (until extension : ℕ)
    → 1_000_000 ≤ extension
    → until + extension < 9_223_372_036_854_775_808
    → (t : ℕ) × (timeout_millis (pos until) extension ≡ pos t)
      × (until < t * 1_000_000)
      × (t * 1_000_000 ≤ until + extension)
unfolding timeout_millis
timeout_millis_outlasts until extension h small = (
  (until + extension) / 1_000_000,
  ap (λ z. quot (int64 z) 1_000_000) (add_pos until extension)
      ∙ ap (λ z. quot z 1_000_000) (int64_small (until + extension) small),
  omega arith,
  omega arith,
)

allowed_levels :
    (level : IsolationLevel)
    → is_allowed level ≡ true
    → (level ≡ read_committed) ⊎ ((level ≡ repeatable_read) ⊎ (level ≡ serializable))
allowed_levels read_committed h = inl refl
allowed_levels repeatable_read h = inr (inl refl)
allowed_levels serializable h = inr (inr refl)
allowed_levels _ h = cc

module _ {S Cost : Type 0} (d : Driver S Cost) where
  as_setup_error_inv :
      (r : S × Option GoError) (s' : S) → as_setup_error d r ≡ (s', none) → r ≡ (s', none)
  as_setup_error_inv (s, none) s' h = h
  as_setup_error_inv (s, some e) s' h = cc (ap (λ r. r.1) h)

  -- The statement that the driver runs in a transaction before it hands it out.
  abbrev pub setup_sql : Context → S → String → String
  setup_sql ctx s sql = seq_scan_sql d (timeout_sql d (d.base.until_deadline ctx s) sql)

  -- How a transaction came to be handed out: begun by the base driver, accepted by the hook, and set
  -- up by one statement that the database executed.
  pub record IsSetUp (ctx : Context) (opts : TxOptions) (s s' : S) (id : ℕ) : Type 0 where
    pub begin : Context → TxOptions → S → S × Result ℕ
    pub s₁ : S
    pub s₂ : S
    pub sql : String
    pub supported : d.base.begin_tx ≡ some begin
    pub begun : begin ctx opts s ≡ (s₁, ok id)
    pub hooked : d.begin_hook ctx "" id s₁ ≡ (s₂, ok sql)
    pub executed : d.base.exec ctx id (setup_sql ctx s₂ sql) s₂ ≡ (s', none)

  after_hook_inv :
      (ctx : Context) (id : ℕ) (r : S × Result String) (s' : S)
      → after_hook d ctx id r ≡ (s', none)
      → (s₂ : S) × (sql : String) × (r ≡ (s₂, ok sql))
        × (d.base.exec ctx id (setup_sql ctx s₂ sql) s₂ ≡ (s', none))
  unfolding after_hook
  after_hook_inv ctx id (s₂, err e) s' h = cc (ap (λ r. r.1) h)
  after_hook_inv ctx id (s₂, ok sql) s' h = (s₂, sql, refl, as_setup_error_inv _ s' h)

  after_setup_inv :
      (id : ℕ) (r : S × Option GoError) (s' : S) (w : Wtx Cost)
      → after_setup d id r ≡ (s', ok w)
      → (r ≡ (s', none)) × (w ≡ record { tx = id; max_query_plan_costs = d.max_query_plan_costs })
  unfolding after_setup
  after_setup_inv id (t, none) s' w h =
      let p : t ≡ s' = ap (λ r. r.0) h in
      let q : record { tx = id; max_query_plan_costs = d.max_query_plan_costs } ≡ w =
        cc (ap (λ r. r.1) h) in
      (λ i. (p i, none), sym q)
  after_setup_inv id (t, some e) s' w h = cc (ap (λ r. r.1) h)

  after_begin_inv :
      (ctx : Context) (r : S × Result ℕ) (s' : S) (w : Wtx Cost)
      → after_begin d ctx r ≡ (s', ok w)
      → (s₁ : S) × (r ≡ (s₁, ok w.tx)) × (setup_tx d ctx w.tx s₁ ≡ (s', none))
  unfolding after_begin
  after_begin_inv ctx (t, err e) s' w h = cc (ap (λ r. r.1) h)
  after_begin_inv ctx (t, ok id) s' w h =
      let (set, same) = after_setup_inv id (setup_tx d ctx id t) s' w h in
      let p : id ≡ w.tx = sym (ap (λ v. v.tx) same) in
      (t, ap (λ i. (t, ok i)) p, subst (λ i. setup_tx d ctx i t ≡ (s', none)) p set)

  begin_on-IsSetUp :
      (b : Option (Context → TxOptions → S → S × Result ℕ)) (ctx : Context) (opts : TxOptions)
      (s s' : S) (w : Wtx Cost)
      → d.base.begin_tx ≡ b
      → begin_on d b ctx opts s ≡ (s', ok w)
      → ((opts.isolation ≡ read_committed)
          ⊎ ((opts.isolation ≡ repeatable_read) ⊎ (opts.isolation ≡ serializable)))
        × IsSetUp ctx opts s s' w.tx
  unfolding begin_on setup_tx
  begin_on-IsSetUp none ctx opts s s' w e h = cc (ap (λ r. r.1) h)
  begin_on-IsSetUp (some begin) ctx opts s s' w e h =
      elim (Bool-cases (is_allowed opts.isolation)) [
        | inr bad ↦ cc (ap (λ r. r.1) (rw (bad, begin_on) at h))
        | inl good ↦
            let (s₁, began, set) =
              after_begin_inv ctx (begin ctx opts s) s' w (rw (good, begin_on) at h) in
            let (s₂, sql, hooked, ran) =
              after_hook_inv ctx w.tx (d.begin_hook ctx "" w.tx s₁) s' set in
            (
              allowed_levels opts.isolation good,
              record {
                begin = begin;
                s₁ = s₁;
                s₂ = s₂;
                sql = sql;
                supported = e;
                begun = began;
                hooked = hooked;
                executed = ran;
              },
            )
      ]

  -- Whenever the ent driver hands a transaction out, its isolation level is read-committed,
  -- repeatable-read or serializable, the hook accepted it, and the database executed its setup
  -- statement.
  pub begin_tx-IsSetUp :
      (ctx : Context) (opts : TxOptions) (s s' : S) (w : Wtx Cost)
      → begin_tx d ctx opts s ≡ (s', ok w)
      → ((opts.isolation ≡ read_committed)
          ⊎ ((opts.isolation ≡ repeatable_read) ⊎ (opts.isolation ≡ serializable)))
        × IsSetUp ctx opts s s' w.tx
  unfolding begin_tx
  begin_tx-IsSetUp ctx opts s s' w h = begin_on-IsSetUp d.base.begin_tx ctx opts s s' w refl h

  -- When the setup of a begun transaction at an allowed isolation level fails, BeginTx of the ent
  -- driver fails with the wrapped error and the transaction is no longer active, for a base driver
  -- whose rollback closes a transaction.
  pub ent_begin_tx_closes :
      (status : S → ℕ → Status) (begin : Context → TxOptions → S → S × Result ℕ) (ctx : Context)
      (opts : TxOptions) (s s₁ s₂ : S) (id : ℕ) (e : GoError)
      → ((t : S) → status (d.base.rollback id t).0 id ≢ active)
      → d.base.begin_tx ≡ some begin
      → is_allowed opts.isolation ≡ true
      → begin ctx opts s ≡ (s₁, ok id)
      → setup_tx d ctx id s₁ ≡ (s₂, some e)
      → ((begin_tx d ctx opts s).1 ≡ err (wrap "failed to setup tx, rolled back" e))
        × (status (begin_tx d ctx opts s).0 id ≢ active)
  unfolding begin_tx begin_on after_begin after_setup
  ent_begin_tx_closes status begin ctx opts s s₁ s₂ id e closes supported allowed began failed =
      subst (Fails (λ b. begin_on d b ctx opts s)) (sym supported) (
        subst
          (Fails (λ (b : Bool).
            if b
            then after_begin d ctx (begin ctx opts s)
            else (s, err (message "isolation level is not allowed"))))
          (sym allowed)
          (subst (Fails (after_begin d ctx)) (sym began)
            (subst (Fails (after_setup d id)) (sym failed) (refl, closes s₂))))
    where
      Fails : {R : Type 0} → (R → S × Result (Wtx Cost)) → R → Type 0
      Fails f r =
          ((f r).1 ≡ err (wrap "failed to setup tx, rolled back" e)) × (status (f r).0 id ≢ active)
