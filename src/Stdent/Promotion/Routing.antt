-- ===== src/Stdent/Promotion/Routing.antt =====
-- Which transactor a read goes to.
use stdgo.Base.{ℕ, false, ◌≡◌, refl}
use stdgo.Go.Context.{Context}
use stdgo.Go.Outcome.{Outcome}
use stdgo.Failsafe.{Execute}
use stdgo.Stdent.Scope.{
  with_read_promotion, has_read_promotion, has_read_promotion-with_read_promotion,
}
use stdgo.Stdent.Transactor.{Transactor}
use stdgo.Stdent.Transact.{transact1}
use stdgo.Stdent.Promotion.{pick_read_transactor, transact_r}

module _ {S I A : Type 0} (type_id : ℕ) (execute : Execute A S) (ro read_write : Transactor S)
    (inp : I) (fn : Context → ℕ → I → S → S × Outcome A) (zero : A) where
  -- Under the promotion stamp a read runs on the read-write transactor; on a context without the
  -- stamp it runs on the read-only one.
  pub transact_r_routes :
      (ctx : Context) (s : S)
      → has_read_promotion ctx ≡ false
      → (transact_r type_id execute (with_read_promotion ctx) ro read_write inp fn zero s
          ≡ transact1 type_id read_write execute
              (with_read_promotion ctx)
              (λ ctx' tx. fn ctx' tx inp)
              zero
              s)
        × (transact_r type_id execute ctx ro read_write inp fn zero s
            ≡ transact1 type_id ro execute ctx (λ ctx' tx. fn ctx' tx inp) zero s)
  unfolding transact_r pick_read_transactor
  transact_r_routes ctx s plain =
      (rw (has_read_promotion-with_read_promotion ctx) refl, rw plain refl)
