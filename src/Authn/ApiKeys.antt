-- ===== src/Authn/ApiKeys.antt =====
-- fx/stdauthnfx/api_key.go: API keys from their signing to the access that a request with one has.
use Prim.Native.String.{◌++◌ as concat}
use stdgo.Base.{String, false, none, some, ◌≡◌, refl, sym, subst, ap, ◌∙◌, str_eq, arith}
use stdgo.Go.Context.{
  Context, Access, access_value, bytes_value, access_key, api_key_fingerprint_key, with_value,
  value,
}
use stdgo.Go.Errors.{ok}
use stdgo.Go.Outcome.{returned}
use stdgo.Go.Strings.{
  cut_prefix_by-append, fold_same, has_prefix, has_prefix-append, append_named, trim_prefix-append,
}
use stdgo.Authn.Library.{Library, AccessControl}
use stdgo.Authn.Access.{from_context, api_key_fingerprint, with_access, with_api_key_fingerprint}
use stdgo.Authn.Authenticate.{
  api_key_prefix, sign_access, build_and_sign_api_key, api_key_access, authenticate_api_key,
  authenticate_bearer, bearer_token, authenticate,
}
use stdgo.Go.Results.{
  wrapping, required, bind-eq-ok, wrapping-eq-ok, required-eq-ok, checked-eq-ok, wrap_error-eq-none,
}

-- Documented behaviour of the encodings, of protobuf, of a token's own claim and of a hash.
pub record IsLibrary {K S T C : Type 0} (lib : Library K S T C) : Type 0 where
  pub base62_lem : (s : String) → lib.base62_decode (lib.base62_encode s) ≡ ok s
  pub base64_lem : (s : String) → lib.base64_decode (lib.base64_encode s) ≡ ok s
  pub marshal_lem : (acc : Access) (b : String) → lib.marshal acc ≡ ok b → lib.unmarshal b ≡ ok acc
  pub claim_lem :
      (tok tok' : T) (v : String)
      → lib.set_claim tok "access" v ≡ ok tok'
      → lib.get_claim tok' "access" ≡ ok v
  pub hash_lem : (s : String) → lib.hash_write s ≡ none

-- Documented behaviour of jwx: a key set that holds the signing key accepts a token that has the
-- access claim only, so that nothing in it can expire.
abbrev pub Verifies : {K S T C : Type 0} → Library K S T C → S → K → Type 0
Verifies {K} {S} {T} lib key set =
    (empty tok : T) (v alg signed : String)
    → lib.build_token ≡ ok empty
    → lib.set_claim empty "access" v ≡ ok tok
    → lib.algorithm key ≡ some alg
    → lib.sign tok alg key ≡ ok signed
    → lib.parse_signed set signed ≡ ok tok

module _ {K S T C : Type 0} (lib : Library K S T C) (laws : IsLibrary lib) where
  reads_back :
      (verifier : AccessControl K S C) (acc : Access) (bytes signed : String) (tok : T) {empty : T}
      → lib.marshal acc ≡ ok bytes
      → lib.set_claim empty "access" (lib.base64_encode bytes) ≡ ok tok
      → lib.parse_signed verifier.signing_key_set signed ≡ ok tok
      → api_key_access lib verifier (concat api_key_prefix (lib.base62_encode signed)) ≡ ok acc
  reads_back verifier acc bytes signed tok {empty} marshalled claimed parsed =
      rw
        (
          trim_prefix-append,
          laws.base62_lem,
          parsed,
          laws.claim_lem empty tok _ claimed,
          laws.base64_lem,
          laws.marshal_lem acc bytes marshalled,
        )
        refl

  sign_access-api_key_access :
      (signer verifier : AccessControl K S C) (acc : Access) (key : String)
      → Verifies lib signer.signing_key verifier.signing_key_set
      → sign_access lib signer acc ≡ ok key
      → (rest : String) × (key ≡ concat api_key_prefix rest)
        × (api_key_access lib verifier key ≡ ok acc)
  sign_access-api_key_access signer verifier acc key verifies h =
      let (empty, built, h₁) = bind-eq-ok (wrapping "build jwt" lib.build_token) _ h in
      let (bytes, marshalled, h₂) = bind-eq-ok (wrapping "marshal access" (lib.marshal acc)) _ h₁ in
      let (tok, claimed, h₃) =
        bind-eq-ok
          (wrapping "set access data on token"
            (lib.set_claim empty "access" (lib.base64_encode bytes)))
          _ h₂ in
      let (alg, algo, h₄) =
        bind-eq-ok (required "key without algorithm" (lib.algorithm signer.signing_key)) _ h₃ in
      let (signed, signs, made) =
        bind-eq-ok (wrapping "signing" (lib.sign tok alg signer.signing_key)) _ h₄ in
      let e : concat api_key_prefix (lib.base62_encode signed) ≡ key = cc in
      (
        lib.base62_encode signed,
        sym e,
        subst (λ k. api_key_access lib verifier k ≡ ok acc) e
            (reads_back verifier acc bytes signed tok (wrapping-eq-ok _ _ marshalled)
              (wrapping-eq-ok _ _ claimed)
              (verifies empty tok (lib.base64_encode bytes) alg signed (wrapping-eq-ok _ _ built)
                (wrapping-eq-ok _ _ claimed) (required-eq-ok _ _ algo) (wrapping-eq-ok _ _ signs))),
      )

-- A key that one access control signs for an access authenticates a request with the header "Bearer
-- " and the key at every access control whose key set accepts what the first one signs: the context
-- then carries that access and the hash of the key, for libraries that keep their documented
-- behaviour.
pub authenticate-build_and_sign_api_key :
    {K S T C : Type 0} (lib : Library K S T C) (signer verifier : AccessControl K S C)
    (acc : Access) (key : String) (ctx : Context) (rpc_method : String)
    → IsLibrary lib
    → Verifies lib signer.signing_key verifier.signing_key_set
    → build_and_sign_api_key lib signer acc ≡ ok key
    → (ctx' : Context) × (authenticate lib verifier ctx rpc_method (concat "Bearer " key)
        ≡ returned ctx' none)
      × (from_context ctx' ≡ some acc)
      × (api_key_fingerprint ctx' ≡ some (lib.hash_sum key))
unfolding build_and_sign_api_key authenticate authenticate_bearer authenticate_api_key bearer_token
    with_api_key_fingerprint with_access from_context api_key_fingerprint with_value value
authenticate-build_and_sign_api_key lib signer verifier acc key ctx rpc_method laws verifies h =
    let (fine, signed) = checked-eq-ok _ (sign_access lib signer acc) h in
    let (rest, shape, reads) =
      sign_access-api_key_access lib laws signer verifier acc key verifies signed in
    let named : str_eq (concat "Bearer " key) "" ≡ false = append_named "Bearer " key refl in
    let bears = cut_prefix_by-append fold_same "Bearer " key (λ c. ground arith) in
    let keyed =
      ap (λ k. has_prefix k api_key_prefix) shape ∙ has_prefix-append api_key_prefix rest in
    let valid = wrap_error-eq-none _ (lib.validate acc) fine in
    (
      with_value (with_value ctx api_key_fingerprint_key (bytes_value (lib.hash_sum key)))
          access_key (access_value acc),
      rw (named, bears, keyed, reads, laws.hash_lem key, valid) refl,
      refl,
      refl,
    )
