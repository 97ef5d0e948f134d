-- ===== src/Tenancy/Tests.antt =====
-- The theorems of this package at one configuration, and one registry of a service with one method.
use Prim.Native.String.{◌++◌}
use stdgo.Base.{
  ℕ, str_eq, String, true, false, none, some, [], ◌∷◌, ◌≡◌, refl, arith, if◌then◌else◌, All, ◌↔◌,
}
use stdgo.Base.Int.{pos}
use stdgo.Go.Context.{Context, value, with_value, webuser}
use stdgo.Go.Errors.{sentinel, missing_database_role, ok, err}
use stdgo.Go.Outcome.{returned}
use stdgo.Stdtx.Driver.{active, rolled_back}
use stdgo.Stdtx.Sample.{Db, retry}
use stdgo.Stdent.Transactor.{TxOptions, repeatable_read}
use stdgo.Stdent.Driver.{
  BaseDriver, Driver, new_driver, apply_options, with_begin_hook, begin_tx, begin_on, after_begin,
  after_setup, setup_tx, after_hook,
}
use stdgo.Stdent.Sample.{client, transactor, ro_transactor}
use stdgo.Tenancy.Roles.{
  with_database_role, database_role_from_context, context_with_managed_tx, has_managed_tx,
}
use stdgo.Tenancy.Quote.{sql_quote_literal, set_config_sql}
use stdgo.Tenancy.Quote.Roundtrip.{
  read_literal, read_literal-sql_quote_literal, read_set_config, read_set_config-set_config_sql,
}
use stdgo.Tenancy.Gate.{enter_managed_tx, transact, transact_r, transact0, transact_r0}
use stdgo.Tenancy.Gate.Laws.{transact_needs_role}
use stdgo.Tenancy.Hook.{Config, Authorize, begin_hook_sql, begin_hook, resolve}
use stdgo.Tenancy.Hook.Text.{settings, hook_text, role_sql, read_script, begin_hook_script}
use stdgo.Tenancy.Hook.Posture.{IsPosture, begin_tx-IsPosture, enter_managed_tx-begin_hook_sql}
use stdgo.Tenancy.Interceptor.{
  Registry, full_name_of, procedure_of, proto_extension_database_role, AnyRequest, UnaryFunc,
  Params, new,
}
use stdgo.Tenancy.Interceptor.Boot.{NoSlash, full_name_of-procedure_of, Resolves, provided, new-All}

abbrev config : Config
config = record {
  anonymous_database_role = "anon";
  system_database_role = "sys";
  web_user_database_role = "web";
  tenant_id_guc = "access.tenant_id";
  subject_guc = "access.subject";
}

abbrev authorize : Authorize
authorize = record { cfg = config; tenant_id = λ _. "o'brien"; subject = some (λ _. "u1") }

-- Identifiers between double quotes.
abbrev sanitize : String → String
sanitize name = "\"" ++ name ++ "\""

abbrev web_ctx : Context
web_ctx = context_with_managed_tx (with_database_role [] webuser)

read_literal-sql_quote_literal_example :
    read_literal (sql_quote_literal "o'brien" ++ ", true") ≡ some ("o'brien", ", true")
read_literal-sql_quote_literal_example =
    read_literal-sql_quote_literal "o'brien" ", true" (λ e. absurd (omega (arith, e)))

read_set_config-set_config_sql_example :
    read_set_config (set_config_sql "a" "b'); DROP TABLE t; --" ++ "x")
    ≡ some ("a", "b'); DROP TABLE t; --", "x")
read_set_config-set_config_sql_example =
    read_set_config-set_config_sql "a" "b'); DROP TABLE t; --" "x"

begin_hook_script_example :
    let text = hook_text authorize sanitize web_ctx webuser "web" in
    (begin_hook_sql authorize sanitize web_ctx "x" ≡ ok ("x" ++ text))
    × (read_script 3 text ≡ (settings authorize web_ctx webuser, role_sql sanitize "web"))
unfolding has_managed_tx database_role_from_context context_with_managed_tx with_database_role value
    with_value
begin_hook_script_example =
    begin_hook_script authorize sanitize web_ctx "x" webuser "web" refl refl refl

transact_needs_role_example :
    let e = some (sentinel missing_database_role) in
    let fresh : Db = record { current = rolled_back; total = 0 } in
    (transact {I = ℕ} 9 retry [] transactor 5 (λ c tx n d. (d, returned n none)) 0 fresh
      ≡ (fresh, returned 0 e))
    × (transact_r {I = ℕ} 9 retry [] ro_transactor transactor 5
          (λ c tx n d. (d, returned n none))
          0
          fresh
        ≡ (fresh, returned 0 e))
    × (transact0 9 retry [] transactor (λ c tx d. (d, returned tt none)) fresh
        ≡ (fresh, returned tt e))
    × (transact_r0 9 retry [] ro_transactor transactor (λ c tx d. (d, returned tt none)) fresh
        ≡ (fresh, returned tt e))
unfolding database_role_from_context value
transact_needs_role_example =
    transact_needs_role {I = ℕ} 9 retry retry ro_transactor transactor 5
      (λ c tx n d. (d, returned n none)) (λ c tx d. (d, returned tt none)) 0 []
      (record { current = rolled_back; total = 0 }) refl

enter_managed_tx-begin_hook_sql_example :
    begin_hook_sql authorize sanitize web_ctx ""
    ≡ ok (hook_text authorize sanitize web_ctx webuser "web")
unfolding enter_managed_tx database_role_from_context with_database_role value with_value
enter_managed_tx-begin_hook_sql_example =
    enter_managed_tx-begin_hook_sql authorize sanitize (with_database_role [] webuser) web_ctx
      webuser "web" refl refl refl

abbrev base : BaseDriver Db
base = record {
  begin_tx = some client.begin_tx;
  rollback = client.rollback;
  commit = client.commit;
  exec = λ _ _ _ d. (d, none);
  until_deadline = λ _ _. some (pos 1_500_000_000);
}

abbrev guarded : Driver Db ℕ
guarded = new_driver 0 base (with_begin_hook (begin_hook authorize sanitize) ∷ [])

abbrev options : TxOptions
options = record { isolation = repeatable_read; read_only = false }

abbrev fresh : Db
fresh = record { current = rolled_back; total = 0 }

abbrev begun : Db
begun = record { current = active; total = 0 }

guarded_begins :
    begin_tx guarded web_ctx options fresh
    ≡ (begun, ok (record { tx = 1; max_query_plan_costs = 0 }))
unfolding begin_tx begin_on after_begin after_setup setup_tx after_hook new_driver apply_options
    begin_hook begin_hook_sql has_managed_tx database_role_from_context context_with_managed_tx
    with_database_role value with_value resolve
guarded_begins = refl

begin_tx-IsPosture_example :
    (s₂ : Db) × (text : String) × IsPosture authorize sanitize web_ctx text
    × (rest : String) × (base.exec web_ctx 1 (text ++ rest) s₂ ≡ (begun, none))
unfolding new_driver apply_options
begin_tx-IsPosture_example =
    begin_tx-IsPosture authorize sanitize guarded web_ctx options fresh begun
      (record { tx = 1; max_query_plan_costs = 0 }) refl guarded_begins

-- One service, `svc`, with one method, `Get`, for web users.
abbrev registry : Registry ℕ ℕ ℕ
registry = record {
  files =
      record {
        package_name = "p";
        services = record { full_name = "svc"; methods = "Get" ∷ [] } ∷ [];
      }
      ∷ [];
  find =
      λ name. if str_eq name "svc.Get" then ok (some 2) else err (sentinel missing_database_role);
  options = λ m. some m;
  has_extension = λ _. true;
  get_extension = λ o. o;
  enum_number = λ n. some (pos n);
  extension_package = "p";
}

abbrev params : Params
params = record {
  config = config;
  role_resolver = some (proto_extension_database_role registry);
  tenant_id = authorize.tenant_id;
  subject = authorize.subject;
}

abbrev next : UnaryFunc Db ℕ ℕ
next ctx req d = (d, ok req.body)

abbrev request : AnyRequest ℕ
request = record { is_client = false; procedure = "/svc/Get"; body = 8 }

svc-NoSlash : NoSlash "svc"
svc-NoSlash = (
  λ e. absurd (omega (arith, e)),
  (λ e. absurd (omega (arith, e)), (λ e. absurd (omega (arith, e)), tt)),
)

full_name_of-procedure_of_example : full_name_of (procedure_of "svc" "Get") ≡ "svc.Get"
full_name_of-procedure_of_example = full_name_of-procedure_of "svc" "Get" svc-NoSlash

new-All_example :
    (new {S = Db} {Body = ℕ} {Resp = ℕ} params
      ≡ ok (provided params (proto_extension_database_role registry)))
    ↔ All (Resolves (proto_extension_database_role registry)) ("/svc/Get" ∷ [])
unfolding proto_extension_database_role
new-All_example =
    new-All params (proto_extension_database_role registry) ("/svc/Get" ∷ []) refl refl
