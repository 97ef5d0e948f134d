-- ===== src/Authz/Access/Grants.antt =====
-- Whom the wrapped handler serves.
use stdgo.Base.{some, ◌≡◌, refl, ap}
use stdgo.Go.Context.{Context, Any, Claims, claims_value}
use stdgo.Go.Errors.{GoError, Result, ok, err}
use stdgo.Authz.Access.{
  Config, Request, Handler, Library, claims_of, tenant_of, or_empty, wrap, claims_from_context,
  with_claims, tenant_id_from_context, subject_from_context,
}

-- What authn documents: the information of a request is read back from its context, and a wrapped
-- handler runs with it, or not at all.
pub record IsLibrary {R Token W : Type 0} (lib : Library R Token W) : Type 0 where
  pub get_set : (ctx : Context) (v : Any) → lib.get_info (lib.set_info ctx v) ≡ some v
  pub wrap_ok :
      (auth : Request R → Result Any) (h : Handler R W) (r : Request R) (w : W) (v : Any)
      → auth r ≡ ok v
      → lib.wrap auth h r w ≡ h (record r { context = lib.set_info r.context v }) w
  pub wrap_err :
      (auth : Request R → Result Any) (h : Handler R W) (r : Request R) (w : W) (e : GoError)
      → auth r ≡ err e
      → lib.wrap auth h r w ≡ lib.refuse e w

module _ {R Token W : Type 0} (lib : Library R Token W) (cfg : Config) where
  claims_from_context-with_claims :
      (ctx : Context) (c : Claims)
      → IsLibrary lib
      → claims_from_context lib (with_claims lib ctx c) ≡ c
  unfolding claims_from_context with_claims
  claims_from_context-with_claims ctx c laws = rw (laws.get_set ctx (claims_value c)) refl

  -- On a context stamped with the claims of a token, the tenancy resolvers read back the token's
  -- tenant and subject, for an authn library that keeps its documented behaviour.
  pub resolvers-with_claims :
      (ctx : Context) (tok : Token)
      → IsLibrary lib
      → let ctx' = with_claims lib ctx (claims_of lib cfg tok) in
        (tenant_id_from_context lib ctx' ≡ tenant_of lib cfg tok)
        × (subject_from_context lib ctx' ≡ or_empty (lib.subject tok))
  unfolding tenant_id_from_context subject_from_context
  resolvers-with_claims ctx tok laws =
      let same = claims_from_context-with_claims ctx (claims_of lib cfg tok) laws in
      (ap (λ c. c.tenant_id) same, ap (λ c. c.subject) same)
