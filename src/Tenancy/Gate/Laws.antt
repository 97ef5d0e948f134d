-- ===== src/Tenancy/Gate/Laws.antt =====
-- What the gate refuses, and what it lets through.
use stdgo.Base.{ℕ, none, some, ◌≡◌, refl}
use stdgo.Go.Context.{Context}
use stdgo.Go.Errors.{sentinel, missing_database_role, err}
use stdgo.Go.Outcome.{Outcome, returned}
use stdgo.Failsafe.{Execute}
use stdgo.Stdent.Transactor.{Transactor}
use stdgo.Stdent.Transact.{Handler}
use stdgo.Tenancy.Roles.{database_role_from_context}
use stdgo.Tenancy.Gate.{enter_managed_tx, transact, transact_r, transact0, transact_r0}

refused :
    (ctx : Context)
    → database_role_from_context ctx ≡ none
    → enter_managed_tx ctx ≡ err (sentinel missing_database_role)
unfolding enter_managed_tx
refused ctx h = rw (h, enter_managed_tx) refl

module _ {S I A : Type 0} (type_id : ℕ) (execute : Execute A S) (execute0 : Execute (Unit {0}) S)
    (ro read_write : Transactor S) (inp : I) (fn : Context → ℕ → I → S → S × Outcome A)
    (fn0 : Handler S (Unit {0})) (zero : A) where
  -- On a context without a database role each of the four entry points returns
  -- ErrMissingDatabaseRole and leaves the state as it was: no handler and no begin runs.
  pub transact_needs_role :
      (ctx : Context) (s : S)
      → database_role_from_context ctx ≡ none
      → let e = some (sentinel missing_database_role) in
        (transact type_id execute ctx read_write inp fn zero s ≡ (s, returned zero e))
        × (transact_r type_id execute ctx ro read_write inp fn zero s ≡ (s, returned zero e))
        × (transact0 type_id execute0 ctx read_write fn0 s ≡ (s, returned tt e))
        × (transact_r0 type_id execute0 ctx ro read_write fn0 s ≡ (s, returned tt e))
  unfolding transact transact_r transact0 transact_r0
  transact_needs_role ctx s h = rw (refused ctx h) (refl, refl, refl, refl)
