-- ===== src/Authz/Scope.antt =====
-- `protoExtensionScopeResolver` of fx/stdcrpcauthfx/access_control.go; the protobuf registry and its
-- descriptors are parameters, and `to_lower` is
-- `strings.ToLower`.
use Prim.Native.String.{◌++◌ as concat}
use stdgo.Base.{String, Bool, Option, none, some, if◌then◌else◌}
use stdgo.Go.Errors.{message, wrap, Result, ok, err}
use stdgo.Tenancy.Interceptor.{full_name_of}
use stdgo.Authz.Strings.{trim_suffix}

-- The registry and the scope extension: `text_of` tells whether a value is a string, and
-- `parent_name` is the name of a method's service.
pub record Registry (Method Opts Raw : Type 0) : Type 0 where
  pub find : String → Result (Option Method)
  pub options : Method → Option Opts
  pub has_extension : Opts → Bool
  pub get_extension : Opts → Raw
  pub text_of : Raw → Option String
  pub parent_name : Method → String
  pub to_lower : String → String

module _ {Method Opts Raw : Type 0} (reg : Registry Method Opts Raw) where
  abbrev pub scope_of_permission : Method → Option String → Result String
  scope_of_permission m none = err (message "scope extension is not a string")
  scope_of_permission m (some permission) =
      ok (concat (reg.to_lower (trim_suffix (reg.parent_name m) "Service")) (concat ":" permission))

  abbrev pub scope_of_options : Method → Option Opts → Result String
  scope_of_options m none = err (message "method has no options")
  scope_of_options m (some opts) =
      if reg.has_extension opts
      then scope_of_permission m (reg.text_of (reg.get_extension opts))
      else err (message "method is missing required scope extension")

  abbrev pub scope_of_found : Result (Option Method) → Result String
  scope_of_found (err e) = err (wrap "find descriptor" e)
  scope_of_found (ok none) = err (message "not a method descriptor")
  scope_of_found (ok (some m)) = scope_of_options m (reg.options m)

  unfoldable pub required_scope : String → Result String
  required_scope procedure = scope_of_found (reg.find (full_name_of procedure))
