-- ===== src/Authz/Tenant.antt =====
-- A token's tenant and subject, from the request's context to the text of its transaction.
use Prim.Native.String.{◌++◌ as concat}
use stdgo.Base.{String, some, List, [], ◌∷◌, ◌≡◌, if◌then◌else◌, str_eq}
use stdgo.Go.Context.{Context, DatabaseRole}
use stdgo.Authz.Access.{Config, Library, tenant_id_from_context, subject_from_context}
use stdgo.Tenancy.Roles.{with_database_role, context_with_managed_tx}
use stdgo.Tenancy.Hook
use stdgo.Tenancy.Hook.{Authorize}

module _ {R Token W : Type 0} (lib : Library R Token W) where
  -- The hook of a program that is wired with the resolvers of this package.
  abbrev pub claims_authorize : Hook.Config → Authorize
  claims_authorize cfg = record {
    cfg = cfg;
    tenant_id = tenant_id_from_context lib;
    subject = some (subject_from_context lib);
  }

  -- What a context says of other matters hides no information of authn.
  abbrev pub KeepsInfo : Type 0
  KeepsInfo =
      (ctx : Context) (role : DatabaseRole)
      → lib.get_info (context_with_managed_tx (with_database_role ctx role)) ≡ lib.get_info ctx

  abbrev pub subject_setting : Hook.Config → String → List (String × String)
  subject_setting cfg subject = if str_eq subject "" then [] else (cfg.subject_guc, subject) ∷ []
