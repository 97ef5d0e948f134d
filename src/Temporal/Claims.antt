-- ===== src/Temporal/Claims.antt =====
-- stdcrpcauthtemporalfx.go. The data converter is a parameter.
use stdgo.Base.{◌==◌, String, Bool, ◌&&◌, Option, none, some, List, length, if◌then◌else◌, str_eq}
use stdgo.Go.Context.{Context, Any, Claims, claims_value, claims_workflow_key, with_value, value}
use stdgo.Go.Errors.{GoError, wrap, Result, ok, err}
use stdgo.Authz.Access.{Library, claims_from_context, with_claims}
use stdgo.Temporal.Header.{Header, set, Propagator}

-- `wireClaims`
pub record WireClaims : Type 0 where
  pub subject : String
  pub scopes : List String
  pub tenant_id : String

pub record Converter (P : Type 0) : Type 0 where
  pub to_payload : WireClaims → Result P
  pub from_payload : P → Result WireClaims

abbrev pub claims_header_key : String
claims_header_key = "advdv.stdgo.stdcrpcauth.claims.v1"

unfoldable pub is_empty : Claims → Bool
is_empty c = str_eq c.subject "" && (str_eq c.tenant_id "" && length c.scopes == 0)

module _ {R Token W P : Type 0} (lib : Library R Token W) (conv : Converter P) where
  abbrev pub write_payload : Header P → Result P → Result (Header P)
  write_payload h (err e) = err (wrap "encode stdcrpcauth claims" e)
  write_payload h (ok p) = ok (set claims_header_key p h)

  unfoldable pub write : Header P → Claims → Result (Header P)
  write h c =
      write_payload h (
        conv.to_payload
          (record { subject = c.subject; scopes = c.scopes; tenant_id = c.tenant_id }))

  abbrev pub of_wire : Result WireClaims → Result (Option Claims)
  of_wire (err e) = err (wrap "decode stdcrpcauth claims" e)
  of_wire (ok raw) =
      let claims : Claims = record {
        subject = raw.subject;
        scopes = raw.scopes;
        tenant_id = raw.tenant_id;
      } in
      if is_empty claims then ok none else ok (some claims)

  abbrev pub of_stored : Option (Option P) → Result (Option Claims)
  of_stored none = ok none
  of_stored (some none) = ok none
  of_stored (some (some p)) = of_wire (conv.from_payload p)

  unfoldable pub read : Header P → Result (Option Claims)
  unfolding is_empty
  read h = of_stored (h claims_header_key)

  unfoldable pub inject : Context → Header P → Result (Header P)
  unfolding is_empty write
  inject ctx h =
      let claims = claims_from_context lib ctx in if is_empty claims then ok h else write h claims

  -- The context under the claims that were read, if there are any.
  abbrev pub stamped :
      (Context → Claims → Context) → Context → Result (Option Claims) → Context × Option GoError
  stamped stamp ctx (err e) = (ctx, some e)
  stamped stamp ctx (ok none) = (ctx, none)
  stamped stamp ctx (ok (some c)) = (stamp ctx c, none)

  unfoldable pub extract : Context → Header P → Context × Option GoError
  unfolding read
  extract ctx h = stamped (with_claims lib) ctx (read h)

  -- A type assertion to `Claims`.
  abbrev pub as_claims : Option Any → Option Claims
  as_claims (some (claims_value c)) = some c
  as_claims _ = none

  abbrev pub write_carried : Header P → Option Claims → Result (Header P)
  write_carried h none = ok h
  write_carried h (some c) = if is_empty c then ok h else write h c

  unfoldable pub inject_from_workflow : Context → Header P → Result (Header P)
  unfolding is_empty write
  inject_from_workflow ctx h = write_carried h (as_claims (value ctx claims_workflow_key))

  unfoldable pub extract_to_workflow : Context → Header P → Context × Option GoError
  unfolding read
  extract_to_workflow ctx h =
      stamped (λ ctx c. with_value ctx claims_workflow_key (claims_value c)) ctx (read h)

  abbrev pub propagator : Propagator P
  propagator = record {
    inject = inject;
    extract = extract;
    inject_from_workflow = inject_from_workflow;
    extract_to_workflow = extract_to_workflow;
  }
