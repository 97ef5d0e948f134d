-- ===== src/Tenancy/Hook.antt =====
-- fx/stdcrpcenttenancyfx/stdcrpcenttenancyfx.go: the hook that makes the role of the context the role
-- of a transaction. `sanitize` is `pgx.Identifier{name}.Sanitize()`.
pub mod Text
pub mod Posture
use Prim.Native.String.{◌++◌}
use stdgo.Base.{ℕ, String, Bool, true, false, Option, none, some, if◌then◌else◌, str_eq}
use stdgo.Go.Context.{Context, DatabaseRole, unspecified, anonymous, webuser, sysuser, unknown_role}
use stdgo.Go.Errors.{
  GoError, sentinel, message, missing_database_role, unmanaged_transaction, Result, ok, err,
}
use stdgo.Stdent.Driver.{BeginHook}
use stdgo.Tenancy.Roles.{has_managed_tx, database_role_from_context}
use stdgo.Tenancy.Quote.{set_config_sql}

pub record Config : Type 0 where
  pub anonymous_database_role : String
  pub system_database_role : String
  pub web_user_database_role : String
  pub tenant_id_guc : String
  pub subject_guc : String

pub record Authorize : Type 0 where
  pub cfg : Config
  pub tenant_id : Context → String
  pub subject : Option (Context → String)

module _ (a : Authorize) (sanitize : String → String) where
  -- The role's name, and the tenant to set if the role is scoped by one.
  unfoldable pub resolve : Context → DatabaseRole → Result (String × Option String)
  resolve ctx sysuser = ok (a.cfg.system_database_role, none)
  resolve ctx anonymous = ok (a.cfg.anonymous_database_role, none)
  resolve ctx webuser = ok (a.cfg.web_user_database_role, some (a.tenant_id ctx))
  resolve ctx unspecified = err (sentinel missing_database_role)
  resolve ctx (unknown_role n) = err (message "stdcrpcenttenancyfx: unknown role")

  abbrev pub write_tenant : Option String → String → String
  write_tenant none sqlb = sqlb
  write_tenant (some v) sqlb = sqlb ++ set_config_sql a.cfg.tenant_id_guc v

  abbrev pub write_subject : Context → Option (Context → String) → String → String
  write_subject ctx none sqlb = sqlb
  write_subject ctx (some subject_from) sqlb =
      if str_eq (subject_from ctx) ""
      then sqlb
      else sqlb ++ set_config_sql a.cfg.subject_guc (subject_from ctx)

  abbrev pub write_role : String → String → String
  write_role name sqlb = sqlb ++ ("SET LOCAL ROLE " ++ (sanitize name ++ "; "))

  abbrev pub write_all : Context → String → Result (String × Option String) → Result String
  write_all ctx sqlb (err e) = err e
  write_all ctx sqlb (ok (name, guc)) =
      ok (write_role name (write_subject ctx a.subject (write_tenant guc sqlb)))

  abbrev pub hook_role : Context → String → Option DatabaseRole → Result String
  hook_role ctx sqlb none = err (sentinel missing_database_role)
  hook_role ctx sqlb (some unspecified) = err (sentinel missing_database_role)
  hook_role ctx sqlb (some role) = write_all ctx sqlb (resolve ctx role)

  unfoldable pub begin_hook_sql : Context → String → Result String
  unfolding resolve
  begin_hook_sql ctx sqlb =
      if has_managed_tx ctx
      then hook_role ctx sqlb (database_role_from_context ctx)
      else err (sentinel unmanaged_transaction)

  -- The hook as the ent driver takes it.
  unfoldable pub begin_hook : {S : Type 0} → BeginHook S
  begin_hook ctx sqlb tx s = (s, begin_hook_sql ctx sqlb)
