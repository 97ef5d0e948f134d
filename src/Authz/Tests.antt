-- ===== src/Authz/Tests.antt =====
-- The theorems of this package at a token that grants two scopes, one of them twice.
use stdgo.Base.{String, List, [], ◌∷◌, ◌≡◌, refl, ap, contains}
use stdgo.Go.Context.{value, with_value}
use stdgo.Authz.Strings.{fields, uniq_strings, trim_suffix}
use stdgo.Authz.Strings.Unique.{IsUnique, uniq_strings-IsUnique}
use stdgo.Authz.Access.{
  Config, Request, Handler, claims_of, tenant_of, with_claims, tenant_id_from_context,
  subject_from_context,
}
use Prim.Native.String.{◌++◌ as concat}
use stdgo.Tenancy.Hook
use stdgo.Authz.Sample.{serve_on, library}
use stdgo.Authz.Access.Grants.{IsLibrary, resolvers-with_claims}

library-IsLibrary : IsLibrary library
unfolding value with_value
library-IsLibrary = record {
  get_set = λ ctx v. refl;
  wrap_ok = λ auth h r w v e. ap (λ q. serve_on q h r w) e;
  wrap_err = λ auth h r w x e. ap (λ q. serve_on q h r w) e;
}

abbrev config : Config
config = record { token_issuer = "i"; token_audience = "a"; tenant_claim = "org_id" }

abbrev handler : Handler String (List String)
handler r w = "served" ∷ w

abbrev request : Request String
request = record { context = []; rest = "/svc/Get" }

fields_run : fields " a:read  b:write" ≡ "a:read" ∷ "b:write" ∷ []
unfolding fields
fields_run = refl

trim_suffix_run : trim_suffix "UserService" "Service" ≡ "User"
unfolding trim_suffix
trim_suffix_run = refl

uniq_strings-IsUnique_example :
    IsUnique (uniq_strings ("a" ∷ "b" ∷ "a" ∷ []))
    × (contains (uniq_strings ("a" ∷ "b" ∷ "a" ∷ [])) "b" ≡ contains ("a" ∷ "b" ∷ "a" ∷ []) "b")
uniq_strings-IsUnique_example = uniq_strings-IsUnique ("a" ∷ "b" ∷ "a" ∷ []) "b"

resolvers-with_claims_example :
    let ctx = with_claims library [] (claims_of library config tt) in
    (tenant_id_from_context library ctx ≡ tenant_of library config tt)
    × (subject_from_context library ctx ≡ "u1")
resolvers-with_claims_example = resolvers-with_claims library config [] tt library-IsLibrary

abbrev roles : Hook.Config
roles = record {
  anonymous_database_role = "anon";
  system_database_role = "sys";
  web_user_database_role = "web";
  tenant_id_guc = "access.tenant_id";
  subject_guc = "access.subject";
}
