-- ===== src/Authn/Tests.antt =====
-- The theorems of this package at a system's key and at an anonymous request.
use Prim.Native.String.{◌++◌ as concat}
use stdgo.Base.{
  String, true, false, none, some, [], ◌∷◌, ◌≡◌, refl, sym, subst, if◌then◌else◌, str_eq,
}
use stdgo.Base.Int.{pos}
use stdgo.Go.Context.{Context, Access, no_info, is_anonymous, is_system, webuser_identity}
use stdgo.Go.Errors.{Result, ok, err, message}
use stdgo.Go.Outcome.{Outcome, returned}
use stdgo.Authn.Library.{Library, AccessControl, time_now}
use stdgo.Authn.Access.{from_context, api_key_fingerprint}
use stdgo.Authn.Authenticate.{build_and_sign_api_key, authenticate, bearer_token}
use stdgo.Authn.Interceptors.{crpc_interceptor, grpc_interceptor}
use stdgo.Authn.ApiKeys.{IsLibrary, Verifies, authenticate-build_and_sign_api_key}
use stdgo.Authn.Reaching.{Vouches, Served, interceptors-Served}

abbrev marshal : Access → Result String
marshal (is_system true) = ok "system"
marshal _ = err (message "proto: not supported")

abbrev unmarshal : String → Result Access
unmarshal s = if str_eq s "system" then ok (is_system true) else err (message "proto: cannot parse")

-- A token is the value of its only claim, and signs as itself.
abbrev library : Library String String String String
library = record {
  validate = λ _. none;
  match_path = λ pattern name. ok (str_eq pattern name);
  hash_write = λ _. none;
  hash_sum = λ s. concat "#" s;
  base62_encode = λ s. s;
  base62_decode = ok;
  base64_encode = λ s. s;
  base64_decode = ok;
  marshal = marshal;
  unmarshal = unmarshal;
  build_token = ok "";
  set_claim = λ _ _ v. ok v;
  get_claim = λ tok _. ok tok;
  subject = λ tok. some tok;
  algorithm = λ _. some "ES256";
  sign = λ tok _ _. ok tok;
  parse_signed = λ _ s. ok s;
  parse_issued = λ _ _ _ _ s. ok s;
  lookup_cache = λ c _ _. ok c;
  parse_keys = ok;
  lookup_key = λ set _. some set;
  new_cache = ok "";
  register = λ _ _. none;
}

marshal_back : (acc : Access) (b : String) → marshal acc ≡ ok b → unmarshal b ≡ ok acc
marshal_back no_info b h = cc
marshal_back (is_anonymous x) b h = cc
marshal_back (is_system false) b h = cc
marshal_back (webuser_identity x) b h = cc
marshal_back (is_system true) b h =
    let e : ◌≡◌ {A = String} "system" b = cc in
    subst (λ b. unmarshal b ≡ ok (is_system true)) e refl

library-IsLibrary : IsLibrary library
library-IsLibrary = record {
  base62_lem = λ s. refl;
  base64_lem = λ s. refl;
  marshal_lem = marshal_back;
  claim_lem = λ tok tok' v h. sym h;
  hash_lem = λ s. refl;
}

abbrev control : AccessControl String String String
control = record {
  config = record {
    signing_key_set_base64 = "keys";
    signing_key_id = "k1";
    token_validation_jwks_endpoint = "https://issuer/jwks";
    token_issuer = "issuer";
    token_audience = "api";
    fixed_wall_clock_timestamp = pos 0;
    anonymous_access_whitelist = "/svc/Health" ∷ [];
  };
  signing_key_set = "keys";
  signing_key_id = "k1";
  signing_key = "keys";
  cache = "";
  clock = time_now;
}

control-Verifies : Verifies library control.signing_key control.signing_key_set
control-Verifies empty tok v alg signed built claimed algo signs = cc

authenticate-build_and_sign_api_key_example :
    (ctx' : Context) × (authenticate library control [] "/svc/Get" (concat "Bearer " "bwak_system")
      ≡ returned ctx' none)
    × (from_context ctx' ≡ some (is_system true))
    × (api_key_fingerprint ctx' ≡ some "#bwak_system")
unfolding build_and_sign_api_key
authenticate-build_and_sign_api_key_example =
    authenticate-build_and_sign_api_key library control control (is_system true) "bwak_system" []
      "/svc/Get" library-IsLibrary control-Verifies refl

-- The scheme is read in any case.
bearer_token_run : bearer_token "bEARER t1" ≡ some "t1"
unfolding bearer_token
bearer_token_run = refl

abbrev next : Context → Outcome String
next ctx = returned "served" none

interceptors-Served_example :
    Served library control "" next
      (Vouches library control [] "/svc/Health" "")
      (crpc_interceptor library control "" next [] "/svc/Health" "")
    × Served library control "" next
        (Vouches library control [] "/svc/Health" "")
        (grpc_interceptor library control "" next [] "/svc/Health" none)
interceptors-Served_example = interceptors-Served library control "" next [] "/svc/Health" "" none

crpc_interceptor_run :
    crpc_interceptor library control "" next [] "/svc/Health" "" ≡ returned "served" none
unfolding crpc_interceptor
crpc_interceptor_run = refl
