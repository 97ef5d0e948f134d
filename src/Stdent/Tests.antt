-- ===== src/Stdent/Tests.antt =====
-- The transactors of a program over one-transaction pools.
use stdgo.Base.{ℕ, ltb, true, none, some, ◌≡◌}
use stdgo.Base.Int.{pos}
use stdgo.Go.Errors.{ok}
use stdgo.Stdtx.Sample.{Db}
use stdgo.Stdent.Sample.{client}
use stdgo.Stdent.Transactor.{default_options, read_only}
use stdgo.Stdent.Driver.{BaseDriver}
use stdgo.Stdent.Wiring.{Params, gated, new_transactors, new_rw_only, new_transactors_agree}

abbrev pool : BaseDriver Db
pool = record {
  begin_tx = some client.begin_tx;
  rollback = client.rollback;
  commit = client.commit;
  exec = λ _ _ _ d. (d, none);
  until_deadline = λ _ _. some (pos 1_500_000_000);
}

abbrev params : Params Db ℕ
params = record {
  config = record { test_max_query_costs = 300; positive = λ c. ltb 0 c };
  rw = pool;
  ro = pool;
  client_factory = λ d. record client { rollback = d.base.rollback };
  tx_begin_sql = some (λ _ _ _ s. (s, ok "SET LOCAL ROLE app;"));
}

new_transactors_agree_example :
    ((new_transactors 0 params).read_write ≡ record {
      opts = default_options;
      client = params.client_factory (gated 0 true 300 params.tx_begin_sql pool);
    })
    × ((new_transactors 0 params).read_only ≡ record {
      opts = read_only true default_options;
      client = params.client_factory (gated 0 true 300 params.tx_begin_sql pool);
    })
    × (new_rw_only 0 (record {
      config = params.config;
      rw = pool;
      client_factory = params.client_factory;
      tx_begin_sql = params.tx_begin_sql;
    })
        ≡ (new_transactors 0 params).read_write)
new_transactors_agree_example = new_transactors_agree 0 params
