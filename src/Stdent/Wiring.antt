-- ===== src/Stdent/Wiring.antt =====
-- fx/stdenttxfx/transact.go and transact_rwonly.go: the ent transactors of a program. The base driver
-- of a pool and the client factory are parameters; the hooks that close the pools are left out.
use stdgo.Base.{
  Bool, true, false, Option, none, some, List, [], ◌∷◌, ◌++◌, ◌≡◌, refl, ap, if◌then◌else◌,
}
use stdgo.Go.Errors.{ok}
use stdgo.Stdent.Transactor
use stdgo.Stdent.Transactor.{Client, Transactor, read_only, default_options}
use stdgo.Stdent.Driver.{
  BaseDriver, BeginHook, Driver, new_driver, test_for_max_query_plan_costs,
  discourage_sequential_scans, with_begin_hook,
}

-- `positive` is the test `> 0` of a `float64`.
pub record Config (Cost : Type 0) : Type 0 where
  pub test_max_query_costs : Cost
  pub positive : Cost → Bool

pub record Params (S Cost : Type 0) : Type 0 where
  pub config : Config Cost
  pub rw : BaseDriver S
  pub ro : BaseDriver S
  pub client_factory : Driver S Cost → Client S
  pub tx_begin_sql : Option (BeginHook S)

-- `Params` without the read-only pool.
pub record ParamsRwOnly (S Cost : Type 0) : Type 0 where
  pub config : Config Cost
  pub rw : BaseDriver S
  pub client_factory : Driver S Cost → Client S
  pub tx_begin_sql : Option (BeginHook S)

pub record Transactors (S : Type 0) : Type 0 where
  pub read_write : Transactor S
  pub read_only : Transactor S

module _ {S Cost : Type 0} where
  abbrev pub cost_opts : Bool → Cost → List (Driver S Cost → Driver S Cost)
  cost_opts true cost = discourage_sequential_scans ∷ test_for_max_query_plan_costs cost ∷ []
  cost_opts false cost = []

  abbrev pub hook_opts : Option (BeginHook S) → List (Driver S Cost → Driver S Cost)
  hook_opts none = []
  hook_opts (some hook) = with_begin_hook hook ∷ []

  -- The option on the logging level has no effect here.
  unfoldable pub driver_opts :
      Config Cost → Option (BeginHook S) → List (Driver S Cost → Driver S Cost)
  driver_opts cfg hook =
      cost_opts (cfg.positive cfg.test_max_query_costs) cfg.test_max_query_costs ++ hook_opts hook

module _ {S Cost : Type 0} (zero_cost : Cost) where
  unfoldable pub new_pool_client :
      BaseDriver S → (Driver S Cost → Client S) → List (Driver S Cost → Driver S Cost) → Client S
  unfolding new_driver
  new_pool_client db factory opts = factory (new_driver zero_cost db opts)

  -- `New`
  unfoldable pub new_transactors : Params S Cost → Transactors S
  unfolding driver_opts new_pool_client
  new_transactors p =
      let opts = driver_opts p.config p.tx_begin_sql in
      record {
        read_write = Transactor.new (new_pool_client p.rw p.client_factory opts) [];
        read_only =
            Transactor.new (new_pool_client p.ro p.client_factory opts) (read_only true ∷ []);
      }

  -- `NewRWOnly`
  unfoldable pub new_rw_only : ParamsRwOnly S Cost → Transactor S
  unfolding driver_opts new_pool_client
  new_rw_only p =
      Transactor.new (new_pool_client p.rw p.client_factory (driver_opts p.config p.tx_begin_sql))
        []

abbrev pub hook_or_default : {S : Type 0} → Option (BeginHook S) → BeginHook S
hook_or_default none = λ _ sql _ s. (s, ok sql)
hook_or_default (some hook) = hook

module _ {S Cost : Type 0} (zero_cost : Cost) where
  -- The driver that every program gets over a pool, by its configuration and its hook.
  abbrev pub gated : (on : Bool) → Cost → Option (BeginHook S) → BaseDriver S → Driver S Cost
  gated on cost hook db = record {
    base = db;
    timeout_extension = 20_000_000_000;
    max_query_plan_costs = if on then cost else zero_cost;
    discourage_seq_scans = on;
    begin_hook = hook_or_default hook;
  }

  new_driver-gated :
      (on : Bool) (cost : Cost) (hook : Option (BeginHook S)) (db : BaseDriver S)
      → new_driver zero_cost db (cost_opts on cost ++ hook_opts hook) ≡ gated on cost hook db
  unfolding new_driver
  new_driver-gated true cost none db = refl
  new_driver-gated true cost (some hook) db = refl
  new_driver-gated false cost none db = refl
  new_driver-gated false cost (some hook) db = refl

  -- Both ent transactors of a program have the driver of one configuration and one hook over their
  -- pools and the default options, read-only or not; and the read-write transactor of a program
  -- without a read-only pool is the same as that of a program with one.
  pub new_transactors_agree :
      (p : Params S Cost)
      → let cfg = p.config in
        let drv =
          gated (cfg.positive cfg.test_max_query_costs) cfg.test_max_query_costs p.tx_begin_sql in
        ((new_transactors zero_cost p).read_write
          ≡ record { opts = default_options; client = p.client_factory (drv p.rw) })
        × ((new_transactors zero_cost p).read_only ≡ record {
          opts = read_only true default_options;
          client = p.client_factory (drv p.ro);
        })
        × (new_rw_only zero_cost (record {
          config = p.config;
          rw = p.rw;
          client_factory = p.client_factory;
          tx_begin_sql = p.tx_begin_sql;
        })
            ≡ (new_transactors zero_cost p).read_write)
  unfolding new_transactors new_rw_only Transactor.new
  new_transactors_agree p =
      let same =
        new_driver-gated (p.config.positive p.config.test_max_query_costs)
          p.config.test_max_query_costs p.tx_begin_sql in
      (
        ap (λ d. record { opts = default_options; client = p.client_factory d }) (same p.rw),
        ap (λ d. record { opts = read_only true default_options; client = p.client_factory d })
            (same p.ro),
        refl,
      )
