-- ===== src/Tenancy/Gate.antt =====
-- fx/stdcrpcenttenancyfx/transact.go: the entry points that open a transaction, and their gate.
pub mod Laws
use stdgo.Base.{ℕ, Option, none, some}
use stdgo.Go.Context.{Context}
use stdgo.Go.Errors.{GoError, sentinel, missing_database_role, Result, ok, err}
use stdgo.Go.Outcome.{Outcome, returned}
use stdgo.Failsafe.{Execute}
use stdgo.Stdent.Transactor.{Transactor}
use stdgo.Stdent.Transact
use stdgo.Stdent.Transact.{Handler}
use stdgo.Stdent.Promotion
use stdgo.Tenancy.Roles.{database_role_from_context, context_with_managed_tx}

unfoldable pub enter_managed_tx : Context → Result Context
enter_managed_tx ctx = elim (database_role_from_context ctx) [
  | none ↦ err (sentinel missing_database_role)
  | some _ ↦ ok (context_with_managed_tx ctx)
]

-- `ctx, err := enterManagedTx(ctx); if err != nil { return zero, err }`
abbrev pub gated :
    {S A : Type 0} → A → Result Context → (Context → S → S × Outcome A) → S → S × Outcome A
gated zero (err e) run s = (s, returned zero (some e))
gated zero (ok ctx) run s = run ctx s

module _ {S I A : Type 0} (type_id : ℕ) (execute : Execute A S) (ctx : Context) where
  unfoldable pub transact :
      Transactor S → I → (Context → ℕ → I → S → S × Outcome A) → A → S → S × Outcome A
  transact txr inp fn zero s =
      gated zero (enter_managed_tx ctx)
        (λ ctx'. Transact.transact1 type_id txr execute ctx' (λ c tx. fn c tx inp) zero) s

  unfoldable pub transact_r :
      Transactor S
      → Transactor S
      → I
      → (Context → ℕ → I → S → S × Outcome A)
      → A
      → S
      → S × Outcome A
  transact_r ro read_write inp fn zero s =
      gated zero (enter_managed_tx ctx)
        (λ ctx'. Promotion.transact_r type_id execute ctx' ro read_write inp fn zero) s

module _ {S : Type 0} (type_id : ℕ) (execute : Execute (Unit {0}) S) (ctx : Context) where
  unfoldable pub transact0 : Transactor S → Handler S (Unit {0}) → S → S × Outcome (Unit {0})
  transact0 txr fn s =
      gated tt (enter_managed_tx ctx) (λ ctx'. Transact.transact0 type_id txr execute ctx' fn) s

  unfoldable pub transact_r0 :
      Transactor S → Transactor S → Handler S (Unit {0}) → S → S × Outcome (Unit {0})
  transact_r0 ro read_write fn s =
      gated tt (enter_managed_tx ctx)
        (λ ctx'. Promotion.transact_r0 type_id execute ctx' ro read_write fn) s
