-- ===== src/Authn/Authenticate.antt =====
-- fx/stdauthnfx/api_key.go, access_token.go and authenticate.go. A failed authentication returns the
-- context that it was given.
use stdgo.Base.{String, Bool, true, false, Option, none, some, List, [], ◌∷◌, if◌then◌else◌, str_eq}
use Prim.Native.String.{◌++◌ as concat}
use stdgo.Go.Context.{Context, Access}
use stdgo.Go.Results.{wrapping, required, checked, wrap_error, ◌>>=◌}
use stdgo.Go.Errors.{message, Result, ok, err}
use stdgo.Go.Outcome.{Outcome, returned, panicked, exited}
use stdgo.Go.Strings.{cut_prefix_by, fold_same, has_prefix, trim_prefix}
use stdgo.Authn.Library.{Library, AccessControl}
use stdgo.Authn.Access.{
  from_context, with_access, with_anonymous_access, with_web_user_access, with_api_key_fingerprint,
}

abbrev pub api_key_prefix : String
api_key_prefix = "bwak_"

-- `return ctx, err`, or what follows.
abbrev pub or_return : {A : Type 0} → Context → Result A → (A → Outcome Context) → Outcome Context
or_return ctx (err e) k = returned ctx (some e)
or_return ctx (ok a) k = k a

-- What follows a call that can only panic.
abbrev pub on_context : Outcome Context → (Context → Outcome Context) → Outcome Context
on_context (returned ctx e) k = k ctx
on_context (panicked v) k = panicked v
on_context exited k = exited

module _ {K S T C : Type 0} (lib : Library K S T C) where
  abbrev pub sign_access : AccessControl K S C → Access → Result String
  sign_access ac acc = do
    tok ← wrapping "build jwt" lib.build_token
    bytes ← wrapping "marshal access" (lib.marshal acc)
    full ←
        wrapping "set access data on token" (lib.set_claim tok "access" (lib.base64_encode bytes))
    algo ← required "key without algorithm" (lib.algorithm ac.signing_key)
    signed ← wrapping "signing" (lib.sign full algo ac.signing_key)
    ok (concat api_key_prefix (lib.base62_encode signed))

  unfoldable pub build_and_sign_api_key : AccessControl K S C → Access → Result String
  build_and_sign_api_key ac acc =
      checked (wrap_error "invalid access for build-and-sign" (lib.validate acc))
        (sign_access ac acc)

  -- The access that a key carries.
  abbrev pub api_key_access : AccessControl K S C → String → Result Access
  api_key_access ac key = do
    signed ← wrapping "decode api key" (lib.base62_decode (trim_prefix key api_key_prefix))
    tok ← wrapping "invalid token" (lib.parse_signed ac.signing_key_set signed)
    text ← wrapping "get access data from token" (lib.get_claim tok "access")
    bytes ← wrapping "base64-decode access data" (lib.base64_decode text)
    wrapping "unmarshal access" (lib.unmarshal bytes)

  unfoldable pub authenticate_api_key : AccessControl K S C → Context → String → Outcome Context
  unfolding trim_prefix with_access with_api_key_fingerprint
  authenticate_api_key ac ctx key =
      or_return ctx (api_key_access ac key)
        (λ acc. on_context (with_api_key_fingerprint lib ctx key) (λ ctx. with_access lib ctx acc))

  -- The subject that a provider's token names.
  abbrev pub access_token_subject : AccessControl K S C → Context → String → Result String
  access_token_subject ac ctx token = do
    set ←
        wrapping "lookup jwks"
          (lib.lookup_cache ac.cache ctx ac.config.token_validation_jwks_endpoint)
    tok ←
        wrapping "parse and validate"
          (lib.parse_issued ac.config.token_audience ac.config.token_issuer ac.clock set token)
    required "no sub claim" (lib.subject tok)

  unfoldable pub authenticate_access_token :
      AccessControl K S C → Context → String → Outcome Context
  unfolding with_web_user_access
  authenticate_access_token ac ctx token =
      or_return ctx (access_token_subject ac ctx token) (λ sub. with_web_user_access lib ctx sub)

  -- The loop of `checkWhiteList`; an error is the panic on a malformed pattern.
  abbrev pub check_next : Result Bool → Result Bool → Result Bool
  check_next (err e) rest = err e
  check_next (ok true) rest = ok true
  check_next (ok false) rest = rest

  unfoldable pub check_white_list : (rpc_method : String) → List String → Result Bool
  check_white_list rpc_method [] = ok false
  check_white_list rpc_method (pattern ∷ l) =
      check_next (lib.match_path pattern rpc_method) (check_white_list rpc_method l)

  -- The log line of a success reads the access from the context.
  abbrev pub log_access : Context → Option Access → Outcome Context
  log_access ctx none = panicked "stdauthnfx: no access information in context"
  log_access ctx (some a) = returned ctx none

  abbrev pub logged : Outcome Context → Outcome Context
  logged (returned ctx none) = log_access ctx (from_context ctx)
  logged (returned ctx (some e)) = returned ctx (some e)
  logged (panicked v) = panicked v
  logged exited = exited

  unfoldable pub authenticate_bearer : AccessControl K S C → Context → String → Outcome Context
  unfolding authenticate_api_key authenticate_access_token has_prefix from_context
  authenticate_bearer ac ctx bearer = logged (
      if has_prefix bearer api_key_prefix
      then authenticate_api_key ac ctx bearer
      else authenticate_access_token ac ctx bearer)

-- No letter outside of ASCII folds to one of the prefix.
unfoldable pub bearer_token : String → Option String
unfolding cut_prefix_by
bearer_token auth = cut_prefix_by fold_same auth "Bearer "

module _ {K S T C : Type 0} (lib : Library K S T C) where
  abbrev pub anonymous : Context → Result Bool → Outcome Context
  anonymous ctx (err e) = panicked "stdauthnfx: match whitelist"
  anonymous ctx (ok true) = with_anonymous_access lib ctx
  anonymous ctx (ok false) = returned ctx (some (message "no authorization header"))

  abbrev pub of_bearer : AccessControl K S C → Context → Option String → Outcome Context
  of_bearer ac ctx none = returned ctx (some (message "invalid authorization header"))
  of_bearer ac ctx (some bearer) = authenticate_bearer lib ac ctx bearer

  -- `Authenticate`
  unfoldable pub authenticate :
      AccessControl K S C → Context → (rpc_method authz_header : String) → Outcome Context
  unfolding with_anonymous_access authenticate_bearer bearer_token check_white_list
  authenticate ac ctx rpc_method authz_header =
      if str_eq authz_header ""
      then anonymous ctx (check_white_list lib rpc_method ac.config.anonymous_access_whitelist)
      else of_bearer ac ctx (bearer_token authz_header)
