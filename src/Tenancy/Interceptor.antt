-- ===== src/Tenancy/Interceptor.antt =====
-- fx/stdcrpcenttenancyfx/interceptor.go, and `New` of stdcrpcenttenancyfx.go. The protobuf registry,
-- its descriptors and the request's body are parameters.
pub mod Boot
use Prim.Native.Char.{code}
use Prim.Native.String
use Prim.Native.String.{◌++◌ as concat}
use stdgo.Base.{
  ℕ, ◌==◌, String, Bool, true, false, Option, none, some, List, [], ◌∷◌, ◌++◌, map, if◌then◌else◌,
  str_eq,
}
use stdgo.Base.Int.{ℤ, pos, negsuc}
use stdgo.Go.Context.{Context, DatabaseRole, unspecified, anonymous, webuser, sysuser, unknown_role}
use stdgo.Go.Errors.{GoError, message, wrap, connect_error, Result, ok, err}
use stdgo.Tenancy.Roles.{with_database_role}
use stdgo.Tenancy.Hook.{Config, Authorize}

pub record DatabaseRoleResolver : Type 0 where
  pub required_database_role : String → Result DatabaseRole
  pub all_procedures : Result (List String)

-- A service of a file of the registry: its full name and the names of its methods.
pub record Service : Type 0 where
  pub full_name : String
  pub methods : List String

pub record File : Type 0 where
  pub package_name : String
  pub services : List Service

-- `protoregistry.GlobalFiles` and the extension: `find` tells whether a name has a method
-- descriptor, `options` whether its options are there, and `enum_number` whether a value is an enum.
pub record Registry (Method Opts Raw : Type 0) : Type 0 where
  pub files : List File
  pub find : String → Result (Option Method)
  pub options : Method → Option Opts
  pub has_extension : Opts → Bool
  pub get_extension : Opts → Raw
  pub enum_number : Raw → Option ℤ
  pub extension_package : String

-- `strings.TrimPrefix(s, "/")`
abbrev pub trim_slash : String → String
trim_slash String.[] = ""
trim_slash (String.◌∷◌ c s) = if code c == 47 then s else String.◌∷◌ c s

-- `strings.Replace(s, "/", ".", 1)`
unfoldable pub replace_slash : String → String
replace_slash String.[] = ""
replace_slash (String.◌∷◌ c s) =
    let rest = replace_slash s in if code c == 47 then concat "." s else String.◌∷◌ c rest

abbrev pub full_name_of : String → String
full_name_of procedure = replace_slash (trim_slash procedure)

-- `"/" + svc.FullName() + "/" + m.Name()`
abbrev pub procedure_of : String → String → String
procedure_of svc m = concat "/" (concat svc (concat "/" m))

-- The switch on the enum's number.
abbrev pub role_of_number : ℤ → Result DatabaseRole
role_of_number (negsuc n) = err (message "stdcrpcenttenancyfx: unknown db_role enum value")
role_of_number (pos n) =
    if n == 0
    then err (message "stdcrpcenttenancyfx: db_role is DB_ROLE_UNSPECIFIED")
    else if n == 1
    then ok anonymous
    else if n == 2
    then ok webuser
    else if n == 3
    then ok sysuser
    else err (message "stdcrpcenttenancyfx: unknown db_role enum value")

abbrev pub role_of_enum : Option ℤ → Result DatabaseRole
role_of_enum none = err (message "stdcrpcenttenancyfx: db_role extension is not an enum")
role_of_enum (some n) = role_of_number n

module _ {Method Opts Raw : Type 0} (reg : Registry Method Opts Raw) where
  abbrev pub as_method : Result (Option Method) → Result Method
  as_method (err e) = err (wrap "stdcrpcenttenancyfx: find descriptor" e)
  as_method (ok none) = err (message "stdcrpcenttenancyfx: not a method descriptor")
  as_method (ok (some m)) = ok m

  abbrev pub lookup_method_descriptor : String → Result Method
  lookup_method_descriptor procedure = as_method (reg.find (full_name_of procedure))

  abbrev pub role_of_options : Option Opts → Result DatabaseRole
  role_of_options none = err (message "stdcrpcenttenancyfx: method has no options")
  role_of_options (some opts) =
      if reg.has_extension opts
      then role_of_enum (reg.enum_number (reg.get_extension opts))
      else err (message "stdcrpcenttenancyfx: method is missing the db_role annotation")

  unfoldable pub database_role_from_method_descriptor : Method → Result DatabaseRole
  database_role_from_method_descriptor m = role_of_options (reg.options m)

  abbrev pub role_of_lookup : Result Method → Result DatabaseRole
  role_of_lookup (err e) = err e
  role_of_lookup (ok m) = database_role_from_method_descriptor m

  unfoldable pub required_database_role : String → Result DatabaseRole
  required_database_role procedure = role_of_lookup (lookup_method_descriptor procedure)

  -- The three loops of `AllProcedures`.
  abbrev pub service_procedures : List Service → List String
  service_procedures [] = []
  service_procedures (svc ∷ l) =
      map (procedure_of svc.full_name) svc.methods ++ service_procedures l

  abbrev pub file_procedures : List File → List String
  file_procedures [] = []
  file_procedures (file ∷ l) =
      if str_eq file.package_name reg.extension_package
      then service_procedures file.services ++ file_procedures l
      else file_procedures l

  -- `protoExtensionDatabaseRoleResolver`
  unfoldable pub proto_extension_database_role : DatabaseRoleResolver
  proto_extension_database_role = record {
    required_database_role = required_database_role;
    all_procedures = ok (file_procedures reg.files);
  }

-- `connect.AnyRequest`: its spec, and what else it holds.
pub record AnyRequest (Body : Type 0) : Type 0 where
  pub is_client : Bool
  pub procedure : String
  pub body : Body

abbrev pub UnaryFunc : Type 0 → Type 0 → Type 0 → Type 0
UnaryFunc S Body Resp = Context → AnyRequest Body → S → S × Result Resp

module _ {S Body Resp : Type 0} where
  -- A server-side call under the role that the resolver gave; 13 is `connect.CodeInternal`.
  abbrev pub with_role : Result DatabaseRole → UnaryFunc S Body Resp → UnaryFunc S Body Resp
  with_role (err e) next ctx req s = (s, err (connect_error 13 e))
  with_role (ok role) next ctx req s = next (with_database_role ctx role) req s

  unfoldable pub interceptor : DatabaseRoleResolver → UnaryFunc S Body Resp → UnaryFunc S Body Resp
  interceptor resolver next ctx req s =
      if req.is_client
      then next ctx req s
      else with_role (resolver.required_database_role req.procedure) next ctx req s

pub record Params : Type 0 where
  pub config : Config
  pub role_resolver : Option DatabaseRoleResolver
  pub tenant_id : Context → String
  pub subject : Option (Context → String)

-- `Result` of the source: the hook is `authorize`'s.
pub record Provided (S Body Resp : Type 0) : Type 0 where
  pub authorize : Authorize
  pub interceptor : UnaryFunc S Body Resp → UnaryFunc S Body Resp

-- The loop over the procedures: the first error, if there is one.
unfoldable pub validate : DatabaseRoleResolver → List String → Option GoError
validate resolver [] = none
validate resolver (proc ∷ l) = elim (resolver.required_database_role proc) [
  | err e ↦ some (wrap "boot-time db_role validation" e)
  | ok role ↦ validate resolver l
]

abbrev pub authorize_of : Params → Authorize
authorize_of params = record {
  cfg = params.config;
  tenant_id = params.tenant_id;
  subject = params.subject;
}

module _ {S Body Resp : Type 0} (params : Params) where
  abbrev pub checked : DatabaseRoleResolver → Option GoError → Result (Provided S Body Resp)
  checked resolver (some e) = err e
  checked resolver none =
      ok (record { authorize = authorize_of params; interceptor = interceptor resolver })

  abbrev pub enumerated :
      DatabaseRoleResolver → Result (List String) → Result (Provided S Body Resp)
  enumerated resolver (err e) = err (wrap "enumerate procedures for boot-time db_role validation" e)
  enumerated resolver (ok procs) = checked resolver (validate resolver procs)

  abbrev pub provide : Option DatabaseRoleResolver → Result (Provided S Body Resp)
  provide none = ok (record { authorize = authorize_of params; interceptor = λ next. next })
  provide (some resolver) = enumerated resolver resolver.all_procedures

  unfoldable pub new : Result (Provided S Body Resp)
  unfolding validate interceptor
  new = provide params.role_resolver
