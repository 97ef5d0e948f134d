-- ===== src/Authn/Access.antt =====
-- fx/stdauthnfx/context.go. A function that may panic ends in an `Outcome`.
use stdgo.Base.{String, true, Option, none, some}
use stdgo.Go.Context.{
  Context, Any, Access, is_anonymous, webuser_identity, access_value, bytes_value, access_key,
  api_key_fingerprint_key, with_value, value,
}
use stdgo.Go.Errors.{GoError}
use stdgo.Go.Outcome.{Outcome, returned, panicked}
use stdgo.Authn.Library.{Library}

abbrev pub as_access : Option Any → Option Access
as_access (some (access_value a)) = some a
as_access _ = none

-- `none` is the panic on a context without access information.
unfoldable pub from_context : Context → Option Access
unfolding value
from_context ctx = as_access (value ctx access_key)

abbrev pub as_bytes : Option Any → Option String
as_bytes (some (bytes_value b)) = some b
as_bytes _ = none

unfoldable pub api_key_fingerprint : Context → Option String
unfolding value
api_key_fingerprint ctx = as_bytes (value ctx api_key_fingerprint_key)

module _ {K S T C : Type 0} (lib : Library K S T C) where
  abbrev pub stored : Context → Access → Option GoError → Outcome Context
  stored ctx access (some e) = panicked "stdauthnfx: invalid access for context"
  stored ctx access none = returned (with_value ctx access_key (access_value access)) none

  unfoldable pub with_access : Context → Access → Outcome Context
  unfolding with_value
  with_access ctx access = stored ctx access (lib.validate access)

  unfoldable pub with_anonymous_access : Context → Outcome Context
  unfolding with_access
  with_anonymous_access ctx = with_access ctx (is_anonymous true)

  unfoldable pub with_web_user_access : Context → (subject : String) → Outcome Context
  unfolding with_access
  with_web_user_access ctx subject = with_access ctx (webuser_identity (some subject))

  abbrev pub hashed : Context → String → Option GoError → Outcome Context
  hashed ctx bytes (some e) = panicked "stdauthnfx: hash api key"
  hashed ctx bytes none =
      returned (with_value ctx api_key_fingerprint_key (bytes_value (lib.hash_sum bytes))) none

  unfoldable pub with_api_key_fingerprint : Context → (bytes : String) → Outcome Context
  unfolding with_value
  with_api_key_fingerprint ctx bytes = hashed ctx bytes (lib.hash_write bytes)
