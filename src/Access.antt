-- ===== src/Access.antt =====
-- stdcrpc/stdcrpcaccess/auth.go: authentication by an access token or as an anonymous caller, and
-- authorization by the procedures that the caller's information allows. The application's logic and
-- the authn and jwx libraries are parameters.
mod Served
mod Tests
use Prim.Native.String.{◌++◌ as concat}
use stdgo.Base.{
  ℕ, String, Bool, true, false, Option, none, some, List, [], ◌∷◌, if◌then◌else◌, contains, str_eq,
}
use stdgo.Go.Context.{Context}
use stdgo.Go.Errors.{GoError, message, wrap, connect_error, Result, ok, err}

-- `http.Request`: its context, its headers by canonical name, and the rest of it.
pub record Request (R : Type 0) : Type 0 where
  pub context : Context
  pub header : String → String
  pub rest : R

abbrev pub Handler : Type 0 → Type 0 → Type 0
Handler R W = Request R → W → W

-- `Logic`
pub record Logic (R Info Token : Type 0) : Type 0 where
  pub procedure_permissions : Info → List String
  pub decorate_context : Context → Info → Context
  pub init_as_anonymous : Context → Request R → Option Info
  pub init_from_access_token : Context → Token → Result Info

-- connectrpc.com/authn, and jwx with the key set of the backend.
pub record Library (R Info Token Keys Key W : Type 0) : Type 0 where
  pub bearer_token : Request R → Option String
  pub infer_procedure : R → Option String
  pub get_info : Context → Option Info
  pub set_info : Context → Info → Context
  pub refuse : GoError → W → W
  pub wrap : (Request R → Result Info) → Handler R W → Handler R W
  pub cached_keys : Context → Result Keys
  pub clone : Keys → Result Keys
  pub add_key : Key → Keys → Result Keys
  pub issuer : Token → String
  pub parse :
      (audience : String) → Keys → (validators : List (Token → Bool)) → String → Result Token

-- `AccessControl`; `zero_info` is the zero value of the information.
pub record AccessControl (R Info Token Key : Type 0) : Type 0 where
  pub logic : Logic R Info Token
  pub audience : String
  pub backend_issuer : String
  pub signing_issuer : String
  pub extra_validators : List (Token → Bool)
  pub signing : List Key
  pub zero_info : Info

-- `r.Header.Set`
abbrev pub set_header : {R : Type 0} → String → String → Request R → Request R
set_header name v r = record r { header = λ n. if str_eq n name then v else r.header n }

-- A proxy's header becomes the bearer token when it is there.
abbrev pub forward_header : {R : Type 0} → String → Request R → Request R
forward_header name r =
    if str_eq (r.header name) ""
    then r
    else set_header "Authorization" (concat "Bearer " (r.header name)) r

unfoldable pub normalise_headers : {R : Type 0} → Request R → Request R
normalise_headers r =
    forward_header "X-Forwarded-Access-Token" (forward_header "X-Amzn-Oidc-Accesstoken" r)

-- `authzErrorf`; 7 is `connect.CodePermissionDenied`.
abbrev pub authz_error : String → GoError
authz_error m = connect_error 7 (message m)

abbrev pub wrapped : {A : Type 0} → String → Result A → Result A
wrapped m (err e) = err (wrap m e)
wrapped m (ok a) = ok a

module _ {R Info Token Keys Key W : Type 0} (lib : Library R Info Token Keys Key W)
    (ac : AccessControl R Info Token Key) where
  abbrev pub check_procedure : List String → Option String → Option GoError
  check_procedure allowed none = some (authz_error "unable to determine RPC procedure")
  check_procedure allowed (some procedure) =
      if contains allowed procedure then none else some (authz_error "procedure not allowed")

  unfoldable pub check_authz : List String → Request R → Option GoError
  check_authz allowed r = check_procedure allowed (lib.infer_procedure r.rest)

  abbrev pub with_error : Info → Option GoError → Result Info
  with_error info none = ok info
  with_error info (some e) = err e

  -- `return info, ac.checkAuthZ(…)`
  abbrev pub authorized : Request R → Info → Result Info
  authorized r info = with_error info (check_authz (ac.logic.procedure_permissions info) r)

  abbrev pub add_all : List Key → Result Keys → Result Keys
  add_all ks (err e) = err e
  add_all [] (ok keys) = ok keys
  add_all (k ∷ ks) (ok keys) =
      add_all ks (wrapped "add signing key to combined key set" (lib.add_key k keys))

  abbrev pub cloned : Result Keys → Result Keys
  cloned (err e) = err (wrap "unable to lookup JWKS" e)
  cloned (ok keys) = wrapped "clone key set" (lib.clone keys)

  -- The backend's keys and the signing keys.
  unfoldable pub combined_keys : Context → Result Keys
  combined_keys ctx = add_all ac.signing (cloned (lib.cached_keys ctx))

  abbrev pub issuer_allowed : Token → Bool
  issuer_allowed tok = contains (ac.signing_issuer ∷ ac.backend_issuer ∷ []) (lib.issuer tok)

  abbrev pub of_info : Request R → Result Info → Result Info
  of_info r (err e) = err (wrap "read access token into auth info" e)
  of_info r (ok info) = authorized r info

  abbrev pub of_token : Request R → Result Token → Result Info
  of_token r (err e) = err (message "invalid token")
  of_token r (ok tok) = of_info r (ac.logic.init_from_access_token r.context tok)

  abbrev pub of_keys : Request R → String → Result Keys → Result Info
  of_keys r token (err e) = err e
  of_keys r token (ok keys) =
      of_token r (lib.parse ac.audience keys (issuer_allowed ∷ ac.extra_validators) token)

  abbrev pub of_anonymous : Request R → Option Info → Result Info
  of_anonymous r none = err (message "no token")
  of_anonymous r (some info) = authorized r info

  abbrev pub of_bearer : Request R → Option String → Result Info
  of_bearer r none = of_anonymous r (ac.logic.init_as_anonymous r.context r)
  of_bearer r (some token) = of_keys r token (combined_keys r.context)

  unfoldable pub check_authn : Request R → Result Info
  unfolding combined_keys check_authz
  check_authn r = of_bearer r (lib.bearer_token r)

  abbrev pub or_zero : Option Info → Info
  or_zero none = ac.zero_info
  or_zero (some info) = info

  unfoldable pub inner : Handler R W → Handler R W
  inner next r w =
      next
        (record r {
          context = ac.logic.decorate_context r.context (or_zero (lib.get_info r.context));
        })
        w

  unfoldable pub wrap_handler : Handler R W → Handler R W
  unfolding inner normalise_headers
  wrap_handler next r w = lib.wrap check_authn (inner next) (normalise_headers r) w
