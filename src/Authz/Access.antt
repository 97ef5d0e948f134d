-- ===== src/Authz/Access.antt =====
-- `AccessControl` of fx/stdcrpcauthfx/access_control.go: the HTTP handler that authenticates and
-- authorizes, and the resolvers of tenancy.go. The authn and jwx libraries are parameters.
pub mod Grants
use stdgo.Base.{
  ℕ, String, Bool, true, false, Option, none, some, List, [], ◌∷◌, ◌++◌, ◌≡◌, if◌then◌else◌,
  contains, str_eq,
}
use stdgo.Go.Context.{Context, Any, Claims, claims_value}
use stdgo.Go.Errors.{GoError, message, Result, ok, err}
use stdgo.Authz.Strings.{fields, uniq_strings}

pub record Config : Type 0 where
  pub token_issuer : String
  pub token_audience : String
  pub tenant_claim : String

-- A value of type `any` in the `permissions` claim, and one in its array.
pub data Element : Type 0 where
  text : String → Element
  not_text : Element

pub data RawPermissions : Type 0 where
  array : List Element → RawPermissions
  not_array : RawPermissions

-- `http.Request`, its context and the rest of it.
pub record Request (R : Type 0) : Type 0 where
  pub context : Context
  pub rest : R

-- An `http.Handler` acts on a response of type `W`.
abbrev pub Handler : Type 0 → Type 0 → Type 0
Handler R W = Request R → W → W

-- connectrpc.com/authn, jwx at its key set and clock, and `http.Error` by its status.
pub record Library (R Token W : Type 0) : Type 0 where
  pub bearer_token : Request R → Option String
  pub infer_procedure : R → Option String
  pub get_info : Context → Option Any
  pub set_info : Context → Any → Context
  pub refuse : GoError → W → W
  pub wrap : (Request R → Result Any) → Handler R W → Handler R W
  pub parse : (issuer audience : String) → String → Result Token
  pub get_text : Token → String → Option String
  pub get_permissions : Token → Option RawPermissions
  pub subject : Token → Option String
  pub http_error : ℕ → String → W → W

abbrev pub or_empty : Option String → String
or_empty none = ""
or_empty (some s) = s

-- The strings of the `permissions` claim, in their order.
abbrev pub element_texts : List Element → List String
element_texts [] = []
element_texts (text s ∷ l) = s ∷ element_texts l
element_texts (not_text ∷ l) = element_texts l

abbrev pub permission_texts : Option RawPermissions → List String
permission_texts none = []
permission_texts (some not_array) = []
permission_texts (some (array l)) = element_texts l

module _ {R Token W : Type 0} (lib : Library R Token W) where
  -- A type assertion to `Claims`, with the zero value when it fails.
  abbrev pub as_claims : Option Any → Claims
  as_claims (some (claims_value c)) = c
  as_claims _ = record { subject = ""; scopes = []; tenant_id = "" }

  unfoldable pub claims_from_context : Context → Claims
  claims_from_context ctx = as_claims (lib.get_info ctx)

  unfoldable pub with_claims : Context → Claims → Context
  with_claims ctx c = lib.set_info ctx (claims_value c)

  -- `ProvideTenantIDResolver` and `ProvideSubjectResolver`
  unfoldable pub tenant_id_from_context : Context → String
  tenant_id_from_context ctx = (claims_from_context ctx).tenant_id

  unfoldable pub subject_from_context : Context → String
  subject_from_context ctx = (claims_from_context ctx).subject

  module _ (cfg : Config) where
    -- What a token grants, with its repetitions.
    abbrev pub granted : Token → List String
    granted tok =
        fields (or_empty (lib.get_text tok "scope")) ++ permission_texts (lib.get_permissions tok)

    abbrev pub tenant_of : Token → String
    tenant_of tok =
        if str_eq cfg.tenant_claim "" then "" else or_empty (lib.get_text tok cfg.tenant_claim)

    abbrev pub claims_of : Token → Claims
    claims_of tok = record {
      subject = or_empty (lib.subject tok);
      scopes = uniq_strings (granted tok);
      tenant_id = tenant_of tok;
    }

    abbrev pub of_parsed : Result Token → Result Any
    of_parsed (err e) = err (message "invalid token")
    of_parsed (ok tok) = ok (claims_value (claims_of tok))

    abbrev pub of_bearer : Option String → Result Any
    of_bearer none = err (message "missing bearer token")
    of_bearer (some token) = of_parsed (lib.parse cfg.token_issuer cfg.token_audience token)

    unfoldable pub authenticate : Request R → Result Any
    authenticate r = of_bearer (lib.bearer_token r)

    module _ (required_scope : String → Result String) where
      abbrev pub of_scope : Result String → Handler R W → Handler R W
      of_scope (err e) handler r w = lib.http_error 500 "internal error" w
      of_scope (ok scope) handler r w =
          if contains (claims_from_context r.context).scopes scope
          then handler r w
          else lib.http_error 403 "insufficient scope" w

      abbrev pub of_procedure : Option String → Handler R W → Handler R W
      of_procedure none handler = handler
      of_procedure (some procedure) handler = of_scope (required_scope procedure) handler

      -- The handler behind the authn middleware.
      unfoldable pub authorize : Handler R W → Handler R W
      authorize handler r = of_procedure (lib.infer_procedure r.rest) handler r

      unfoldable pub wrap : Handler R W → Handler R W
      wrap handler = lib.wrap authenticate (authorize handler)
