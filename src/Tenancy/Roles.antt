-- ===== src/Tenancy/Roles.antt =====
-- fx/stdcrpcenttenancyfx: the markers that the package keeps in the context.
use stdgo.Base.{ℕ, Bool, true, Option, none, some, ◌≡◌, refl}
use stdgo.Go.Context.{
  Context, Any, bool, role_value, DatabaseRole, managed_tx_key, database_role_key, with_value,
  value,
}
use stdgo.Stdtx.Scope.{as_bool}
use stdgo.Stdent.Scope.{tx_from_context}

unfoldable pub with_database_role : Context → DatabaseRole → Context
with_database_role ctx role = with_value ctx database_role_key (role_value role)

-- A type assertion to `DatabaseRole`.
abbrev as_role : Option Any → Option DatabaseRole
as_role (some (role_value r)) = some r
as_role _ = none

unfoldable pub database_role_from_context : Context → Option DatabaseRole
database_role_from_context ctx = as_role (value ctx database_role_key)

unfoldable pub context_with_managed_tx : Context → Context
context_with_managed_tx ctx = with_value ctx managed_tx_key (bool true)

unfoldable pub has_managed_tx : Context → Bool
has_managed_tx ctx = as_bool (value ctx managed_tx_key)

pub database_role_from_context-with_database_role :
    (ctx : Context) (role : DatabaseRole)
    → database_role_from_context (with_database_role ctx role) ≡ some role
unfolding database_role_from_context with_database_role value with_value
database_role_from_context-with_database_role ctx role = refl

pub has_managed_tx-context_with_managed_tx :
    (ctx : Context) → has_managed_tx (context_with_managed_tx ctx) ≡ true
unfolding has_managed_tx context_with_managed_tx value with_value
has_managed_tx-context_with_managed_tx ctx = refl

-- The managed marker hides neither the role nor a transaction.
pub database_role_from_context-context_with_managed_tx :
    (ctx : Context)
    → database_role_from_context (context_with_managed_tx ctx) ≡ database_role_from_context ctx
unfolding database_role_from_context context_with_managed_tx value with_value
database_role_from_context-context_with_managed_tx ctx = refl

pub tx_from_context-context_with_managed_tx :
    (type_id : ℕ) (ctx : Context)
    → tx_from_context type_id (context_with_managed_tx ctx) ≡ tx_from_context type_id ctx
unfolding tx_from_context context_with_managed_tx value with_value
tx_from_context-context_with_managed_tx type_id ctx = refl
