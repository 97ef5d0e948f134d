-- ===== src/Authn/Reaching.antt =====
-- fx/stdauthnfx/interceptors.go: what the interceptors have established when they run the inner handler.
use stdgo.Base.{
  String, Bool, true, false, Option, none, some, List, ◌≡◌, refl, sym, subst, ◌⊎◌, inl, inr, str_eq,
  Bool-cases,
}
use stdgo.Go.Context.{Context, Access, is_anonymous, webuser_identity, with_value}
use stdgo.Go.Results.{wrapping, bind-eq-ok, wrapping-eq-ok, required-eq-ok}
use stdgo.Go.Errors.{GoError, Result, ok, err}
use stdgo.Go.Outcome.{Outcome, returned, panicked, exited}
use stdgo.Go.Strings.{has_prefix, trim_prefix}
use stdgo.Authn.Library.{Library, AccessControl}
use stdgo.Authn.Access.{
  from_context, stored, hashed, with_access, with_anonymous_access, with_web_user_access,
  with_api_key_fingerprint,
}
use stdgo.Authn.Authenticate.{
  api_key_prefix, or_return, on_context, api_key_access, authenticate_api_key, access_token_subject,
  authenticate_access_token, check_white_list, log_access, logged, authenticate_bearer,
  bearer_token, anonymous, of_bearer, authenticate,
}
use stdgo.Authn.Interceptors.{first_value, refusal, answer, crpc_interceptor, grpc_interceptor}

-- Why a request has an access.
pub data Vouches {K S T C : Type 0} (lib : Library K S T C) (ac : AccessControl K S C)
    (ctx : Context) (rpc_method authz_header : String) (acc : Access) : Type 0 where
  by_white_list :
      str_eq authz_header "" ≡ true
      → check_white_list lib rpc_method ac.config.anonymous_access_whitelist ≡ ok true
      → acc ≡ is_anonymous true
      → Vouches lib ac ctx rpc_method authz_header acc
  by_api_key :
      (key signed text bytes : String) (tok : T)
      → bearer_token authz_header ≡ some key
      → has_prefix key api_key_prefix ≡ true
      → lib.base62_decode (trim_prefix key api_key_prefix) ≡ ok signed
      → lib.parse_signed ac.signing_key_set signed ≡ ok tok
      → lib.get_claim tok "access" ≡ ok text
      → lib.base64_decode text ≡ ok bytes
      → lib.unmarshal bytes ≡ ok acc
      → Vouches lib ac ctx rpc_method authz_header acc
  by_access_token :
      (bearer sub : String) (set : K) (tok : T)
      → bearer_token authz_header ≡ some bearer
      → has_prefix bearer api_key_prefix ≡ false
      → lib.lookup_cache ac.cache ctx ac.config.token_validation_jwks_endpoint ≡ ok set
      → lib.parse_issued ac.config.token_audience ac.config.token_issuer ac.clock set bearer
        ≡ ok tok
      → lib.subject tok ≡ some sub
      → acc ≡ webuser_identity (some sub)
      → Vouches lib ac ctx rpc_method authz_header acc

module _ {K S T C : Type 0} (lib : Library K S T C) (ac : AccessControl K S C) where
  -- A context that is returned without an error has a valid access with `P`.
  abbrev pub Granted : (Access → Type 0) → Outcome Context → Type 0
  Granted P (returned ctx none) =
      (acc : Access) × (from_context ctx ≡ some acc) × (lib.validate acc ≡ none) × P acc
  Granted P (returned ctx (some e)) = Unit
  Granted P (panicked v) = Unit
  Granted P exited = ⊥

  stored-Granted :
      (P : Access → Type 0) (ctx : Context) (acc : Access) (checked : Option GoError)
      → lib.validate acc ≡ checked
      → P acc
      → Granted P (stored lib ctx acc checked)
  unfolding from_context with_value
  stored-Granted P ctx acc (some e) h p = tt
  stored-Granted P ctx acc none h p = (acc, refl, h, p)

  with_access-Granted :
      (P : Access → Type 0) (ctx : Context) (acc : Access)
      → P acc
      → Granted P (with_access lib ctx acc)
  unfolding with_access
  with_access-Granted P ctx acc p = stored-Granted P ctx acc (lib.validate acc) refl p

  hashed-Granted :
      (P : Access → Type 0) (ctx : Context) (key : String) (acc : Access) (checked : Option GoError)
      → P acc
      → Granted P (on_context (hashed lib ctx key checked) (λ ctx. with_access lib ctx acc))
  hashed-Granted P ctx key acc (some e) p = tt
  hashed-Granted P ctx key acc none p = with_access-Granted P _ acc p

  or_return-Granted :
      {A : Type 0} (P : Access → Type 0) (ctx : Context) (r : Result A) (k : A → Outcome Context)
      → ((a : A) → r ≡ ok a → Granted P (k a))
      → Granted P (or_return ctx r k)
  or_return-Granted P ctx (err e) k h = tt
  or_return-Granted P ctx (ok a) k h = h a refl

  logged-Granted :
      (P : Access → Type 0) (o : Outcome Context) → Granted P o → Granted P (logged lib o)
  logged-Granted P (returned ctx (some e)) g = tt
  logged-Granted P (panicked v) g = tt
  logged-Granted P exited g = g
  logged-Granted P (returned ctx none) (acc, has, valid, p) =
      subst (λ o. Granted P (log_access lib ctx o)) (sym has) (acc, has, valid, p)

  module _ (ctx : Context) (rpc_method authz_header : String) where
    abbrev Vouched : Access → Type 0
    Vouched = Vouches lib ac ctx rpc_method authz_header

    api_key_access-Vouches :
        (key : String) (acc : Access)
        → bearer_token authz_header ≡ some key
        → has_prefix key api_key_prefix ≡ true
        → api_key_access lib ac key ≡ ok acc
        → Vouched acc
    api_key_access-Vouches key acc bears keyed h =
        let (signed, decoded, h₁) =
          bind-eq-ok
            (wrapping "decode api key" (lib.base62_decode (trim_prefix key api_key_prefix))) _ h in
        let (tok, parsed, h₂) =
          bind-eq-ok (wrapping "invalid token" (lib.parse_signed ac.signing_key_set signed)) _ h₁ in
        let (text, got, h₃) =
          bind-eq-ok (wrapping "get access data from token" (lib.get_claim tok "access")) _ h₂ in
        let (bytes, plain, h₄) =
          bind-eq-ok (wrapping "base64-decode access data" (lib.base64_decode text)) _ h₃ in
        by_api_key key signed text bytes tok bears keyed (wrapping-eq-ok _ _ decoded)
          (wrapping-eq-ok _ _ parsed) (wrapping-eq-ok _ _ got) (wrapping-eq-ok _ _ plain)
          (wrapping-eq-ok _ _ h₄)

    access_token_subject-Vouches :
        (bearer sub : String)
        → bearer_token authz_header ≡ some bearer
        → has_prefix bearer api_key_prefix ≡ false
        → access_token_subject lib ac ctx bearer ≡ ok sub
        → Vouched (webuser_identity (some sub))
    access_token_subject-Vouches bearer sub bears other h =
        let (set, found, h₁) =
          bind-eq-ok
            (wrapping "lookup jwks"
              (lib.lookup_cache ac.cache ctx ac.config.token_validation_jwks_endpoint))
            _ h in
        let (tok, parsed, h₂) =
          bind-eq-ok
            (wrapping "parse and validate" (
              lib.parse_issued ac.config.token_audience ac.config.token_issuer ac.clock set bearer))
            _ h₁ in
        by_access_token bearer sub set tok bears other (wrapping-eq-ok _ _ found)
          (wrapping-eq-ok _ _ parsed) (required-eq-ok _ _ h₂) refl

    authenticate_bearer-Granted :
        (bearer : String)
        → bearer_token authz_header ≡ some bearer
        → Granted Vouched (authenticate_bearer lib ac ctx bearer)
    unfolding authenticate_bearer authenticate_api_key authenticate_access_token
        with_api_key_fingerprint with_web_user_access
    authenticate_bearer-Granted bearer bears =
        elim (Bool-cases (has_prefix bearer api_key_prefix)) [
          | inl keyed ↦ rw keyed (
              logged-Granted Vouched (authenticate_api_key lib ac ctx bearer) (
                or_return-Granted Vouched ctx (api_key_access lib ac bearer) _ (λ acc h.
                  hashed-Granted Vouched ctx bearer acc (lib.hash_write bearer)
                    (api_key_access-Vouches bearer acc bears keyed h))))
          | inr other ↦ rw other (
              logged-Granted Vouched (authenticate_access_token lib ac ctx bearer) (
                or_return-Granted Vouched ctx (access_token_subject lib ac ctx bearer) _ (λ sub h.
                  with_access-Granted Vouched ctx (webuser_identity (some sub))
                    (access_token_subject-Vouches bearer sub bears other h))))
        ]

    of_bearer-Granted :
        (o : Option String)
        → bearer_token authz_header ≡ o
        → Granted Vouched (of_bearer lib ac ctx o)
    of_bearer-Granted none h = tt
    of_bearer-Granted (some bearer) h = authenticate_bearer-Granted bearer h

    anonymous-Granted :
        (r : Result Bool)
        → str_eq authz_header "" ≡ true
        → check_white_list lib rpc_method ac.config.anonymous_access_whitelist ≡ r
        → Granted Vouched (anonymous lib ctx r)
    unfolding with_anonymous_access
    anonymous-Granted (err e) unset h = tt
    anonymous-Granted (ok false) unset h = tt
    anonymous-Granted (ok true) unset h =
        with_access-Granted Vouched ctx (is_anonymous true) (by_white_list unset h refl)

    pub authenticate-Granted : Granted Vouched (authenticate lib ac ctx rpc_method authz_header)
    unfolding authenticate
    authenticate-Granted = elim (Bool-cases (str_eq authz_header "")) [
      | inl unset ↦ rw unset (anonymous-Granted _ unset refl)
      | inr there ↦ rw there (of_bearer-Granted (bearer_token authz_header) refl)
    ]

  -- The request was refused, the interceptor panicked, or the inner handler ran with a valid access
  -- that the request is vouched for.
  abbrev pub Served :
      {R : Type 0} → R → (Context → Outcome R) → (Access → Type 0) → Outcome R → Type 0
  Served nil_response next P o =
      (o ≡ returned nil_response (some refusal))
      ⊎ ((v : String) × (o ≡ panicked v))
      ⊎ ((ctx : Context) × (acc : Access) × (o ≡ next ctx)
          × (from_context ctx ≡ some acc)
          × (lib.validate acc ≡ none)
          × P acc)

  answer-Served :
      {R : Type 0} (nil_response : R) (next : Context → Outcome R) (P : Access → Type 0)
      (o : Outcome Context)
      → Granted P o
      → Served nil_response next P (answer lib nil_response next o)
  answer-Served nil_response next P (returned ctx (some e)) g = inl refl
  answer-Served nil_response next P (panicked v) g = inr (inl (v, refl))
  answer-Served nil_response next P exited g = absurd g
  answer-Served nil_response next P (returned ctx none) (acc, has, valid, p) =
      inr (inr (ctx, acc, refl, has, valid, p))

  -- Both interceptors refuse the request as unauthenticated, panic, or run the inner handler with a
  -- valid access on its context: the anonymous one for a blank header and a procedure of the white
  -- list, the one that an API key signed by the key set carries, or that of the subject of a token
  -- that was parsed with the issuer's keys and the configured issuer and audience.
  pub interceptors-Served :
      {R : Type 0} (nil_response : R) (next : Context → Outcome R) (ctx : Context)
      (procedure authorization : String) (metadata : Option (List String))
      → Served nil_response next
          (Vouches lib ac ctx procedure authorization)
          (crpc_interceptor lib ac nil_response next ctx procedure authorization)
        × Served nil_response next
            (Vouches lib ac ctx procedure (first_value metadata))
            (grpc_interceptor lib ac nil_response next ctx procedure metadata)
  unfolding crpc_interceptor grpc_interceptor
  interceptors-Served nil_response next ctx procedure authorization metadata = (
    answer-Served nil_response next _ _ (authenticate-Granted ctx procedure authorization),
    answer-Served nil_response next _ _ (authenticate-Granted ctx procedure (first_value metadata)),
  )
