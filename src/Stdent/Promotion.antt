-- ===== src/Stdent/Promotion.antt =====
-- stdent/readpromote.go: reads are routed to the read-write transactor when the context says so. The
-- typed input of `TransactR` is the argument `inp`.
pub mod Routing
use stdgo.Base.{ℕ, if◌then◌else◌}
use stdgo.Go.Context.{Context}
use stdgo.Go.Outcome.{Outcome}
use stdgo.Failsafe.{Execute}
use stdgo.Stdent.Scope.{has_read_promotion}
use stdgo.Stdent.Transactor.{Transactor}
use stdgo.Stdent.Transact.{Handler, transact1, transact0}

unfoldable pub pick_read_transactor :
    {S : Type 0} → Context → Transactor S → Transactor S → Transactor S
pick_read_transactor ctx ro read_write = if has_read_promotion ctx then read_write else ro

unfoldable pub transact_r :
    {S I A : Type 0} (type_id : ℕ)
    → Execute A S
    → Context
    → Transactor S
    → Transactor S
    → I
    → (Context → ℕ → I → S → S × Outcome A)
    → A
    → S
    → S × Outcome A
transact_r type_id execute ctx ro read_write inp fn zero s =
    transact1 type_id (pick_read_transactor ctx ro read_write) execute ctx
      (λ ctx' tx. fn ctx' tx inp) zero s

unfoldable pub transact_r0 :
    {S : Type 0} (type_id : ℕ)
    → Execute (Unit {0}) S
    → Context
    → Transactor S
    → Transactor S
    → Handler S (Unit {0})
    → S
    → S × Outcome (Unit {0})
transact_r0 type_id execute ctx ro read_write fn s =
    transact0 type_id (pick_read_transactor ctx ro read_write) execute ctx fn s
