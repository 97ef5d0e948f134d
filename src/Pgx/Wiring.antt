-- ===== src/Pgx/Wiring.antt =====
-- `New` of fx/stdpgxtxfx/transact.go: the two transactors of a program. A pool is a library of its own.
use stdgo.Base.{
  String, Bool, true, false, Option, none, some, List, [], ◌∷◌, ◌++◌, ◌≡◌, refl, ap, ◌∙◌,
  if◌then◌else◌,
}
use stdgo.Go.Context.{Context}
use stdgo.Go.Errors.{GoError, Result, ok}
use stdgo.Stdtx.Driver.{Driver}
use stdgo.Pgx.Library.{Library, Costs, repeatable_read, AccessMode, read_only, read_write}
use stdgo.Pgx.Driver.{
  Options, access_mode, discourage_seq_scan, begin_with_sql, on_tx_commit,
  test_for_max_query_plan_costs, default_options, apply_options, driver, new,
}

-- `positive` is the test `> 0` of a `float64`.
pub record Params (S Tx Cost : Type 0) : Type 0 where
  pub test_max_query_costs : Cost
  pub positive : Cost → Bool
  pub rw : Library S Tx
  pub ro : Library S Tx
  pub tx_begin_sql : Option (Context → String → Tx → S → S × Result String)
  pub on_commit_tx_hook : Option (Context → AccessMode → Tx → S → S × Option GoError)

-- The drivers of the two transactors.
pub record Transactors (S Tx : Type 0) : Type 0 where
  pub read_write : Driver S Tx
  pub read_only : Driver S Tx

-- An option for a value, where there is one.
abbrev optional : {A O : Type 0} → (A → O → O) → Option A → List (O → O)
optional f none = []
optional f (some a) = f a ∷ []

abbrev pub or_default : {A : Type 0} → Option A → A → A
or_default none d = d
or_default (some a) d = a

module _ {S Tx Cost : Type 0} (costs : Costs Cost) where
  abbrev pub cost_options : Bool → Cost → List (Options S Tx Cost → Options S Tx Cost)
  cost_options true cost = test_for_max_query_plan_costs cost ∷ discourage_seq_scan true ∷ []
  cost_options false cost = []

  abbrev pub options : Params S Tx Cost → List (Options S Tx Cost → Options S Tx Cost)
  options p =
      optional begin_with_sql p.tx_begin_sql
      ++ (optional on_tx_commit p.on_commit_tx_hook
          ++ cost_options (p.positive p.test_max_query_costs) p.test_max_query_costs)

  unfoldable pub new_transactors : Params S Tx Cost → Transactors S Tx
  new_transactors p = record {
    read_write = new p.rw costs (options p);
    read_only = new p.ro costs (options p ++ (access_mode read_only ∷ []));
  }

  apply_options-append :
      (fs gs : List (Options S Tx Cost → Options S Tx Cost)) (o : Options S Tx Cost)
      → apply_options (fs ++ gs) o ≡ apply_options gs (apply_options fs o)
  unfolding apply_options
  apply_options-append [] gs o = refl
  apply_options-append (f ∷ fs) gs o = apply_options-append fs gs (f o)

  -- What the parameters ask of both drivers: the strictest isolation level of a hot standby, the
  -- given hooks, and the cost limit with discouraged scans only where it is positive.
  abbrev pub agreed : Params S Tx Cost → Options S Tx Cost
  agreed p = record {
    tx_iso_level = repeatable_read;
    tx_access_mode = read_write;
    tx_begin_sql = or_default p.tx_begin_sql (λ _ sql _ s. (s, ok sql));
    discourage_seq_scans = p.positive p.test_max_query_costs;
    max_query_plan_costs =
        if p.positive p.test_max_query_costs then p.test_max_query_costs else costs.zero_cost;
    on_tx_commit = or_default p.on_commit_tx_hook (λ _ _ _ s. (s, none));
  }

  fields_agreed :
      (begin_hook : Option (Context → String → Tx → S → S × Result String))
      (commit_hook : Option (Context → AccessMode → Tx → S → S × Option GoError)) (on : Bool)
      (cost : Cost)
      → apply_options
          (optional begin_with_sql begin_hook
            ++ (optional on_tx_commit commit_hook ++ cost_options on cost))
          (default_options costs)
        ≡ record {
          tx_iso_level = repeatable_read;
          tx_access_mode = read_write;
          tx_begin_sql = or_default begin_hook (λ _ sql _ s. (s, ok sql));
          discourage_seq_scans = on;
          max_query_plan_costs = if on then cost else costs.zero_cost;
          on_tx_commit = or_default commit_hook (λ _ _ _ s. (s, none));
        }
  unfolding apply_options
  fields_agreed none none true cost = refl
  fields_agreed none none false cost = refl
  fields_agreed none (some c) true cost = refl
  fields_agreed none (some c) false cost = refl
  fields_agreed (some b) none true cost = refl
  fields_agreed (some b) none false cost = refl
  fields_agreed (some b) (some c) true cost = refl
  fields_agreed (some b) (some c) false cost = refl

  options-agreed :
      (p : Params S Tx Cost) → apply_options (options p) (default_options costs) ≡ agreed p
  options-agreed p =
      fields_agreed p.tx_begin_sql p.on_commit_tx_hook (p.positive p.test_max_query_costs)
        p.test_max_query_costs

  -- The two pgx transactors of a program have drivers that agree in all but their pool and the
  -- access mode: repeatable read, the given hooks or those that do nothing, and the cost limit with
  -- discouraged sequential scans where it is positive.
  pub new_transactors_lem :
      (p : Params S Tx Cost)
      → ((new_transactors p).read_write ≡ driver p.rw costs (agreed p))
        × ((new_transactors p).read_only
            ≡ driver p.ro costs (record (agreed p) { tx_access_mode = read_only }))
  unfolding new_transactors new apply_options
  new_transactors_lem p = (
    ap (driver p.rw costs) (options-agreed p),
    ap (driver p.ro costs) (
        apply_options-append (options p) (access_mode read_only ∷ []) (default_options costs)
        ∙ ap (access_mode read_only) (options-agreed p)),
  )
