-- ===== src/Access/Served.antt =====
-- Whom the wrapped handler serves.
use stdgo.Base.{
  String, Bool, true, none, some, List, ◌∷◌, ◌≡◌, refl, subst, ◌∙◌, ◌⊎◌, inl, inr, contains,
  Bool-cases, Option-cases, All,
}
use stdgo.Go.Context.{Context}
use stdgo.Go.Errors.{GoError, Result, ok, err, Result-cases}
use stdgo.Access.{
  Request, Handler, Library, AccessControl, normalise_headers, check_authz, authorized,
  combined_keys, issuer_allowed, check_authn, inner, wrap_handler,
}

-- What authn and jwx document: the information is read back from the context, a wrapped handler runs
-- with it or not at all, and a parsed token has passed every validator.
pub record IsLibrary {R Info Token Keys Key W : Type 0} (lib : Library R Info Token Keys Key W)
    : Type 0 where
  pub get_set : (ctx : Context) (info : Info) → lib.get_info (lib.set_info ctx info) ≡ some info
  pub wrap_ok :
      (auth : Request R → Result Info) (h : Handler R W) (r : Request R) (w : W) (info : Info)
      → auth r ≡ ok info
      → lib.wrap auth h r w ≡ h (record r { context = lib.set_info r.context info }) w
  pub wrap_err :
      (auth : Request R → Result Info) (h : Handler R W) (r : Request R) (w : W) (e : GoError)
      → auth r ≡ err e
      → lib.wrap auth h r w ≡ lib.refuse e w
  pub validated :
      (audience : String) (keys : Keys) (validators : List (Token → Bool)) (text : String)
      (tok : Token)
      → lib.parse audience keys validators text ≡ ok tok
      → All (λ v. v tok ≡ true) validators

module _ {R Info Token Keys Key W : Type 0} (lib : Library R Info Token Keys Key W)
    (ac : AccessControl R Info Token Key) where
  abbrev pub validators : List (Token → Bool)
  validators = issuer_allowed lib ac ∷ ac.extra_validators

  -- Where a caller's information came from.
  abbrev pub Origin : Request R → Info → Type 0
  Origin r info =
      ((lib.bearer_token r ≡ none) × (ac.logic.init_as_anonymous r.context r ≡ some info))
      ⊎ ((text : String) × (keys : Keys) × (tok : Token) × (lib.bearer_token r ≡ some text)
          × (combined_keys lib ac r.context ≡ ok keys)
          × (lib.parse ac.audience keys validators text ≡ ok tok)
          × (issuer_allowed lib ac tok ≡ true)
          × (ac.logic.init_from_access_token r.context tok ≡ ok info))

  -- The caller may call the procedure of its request.
  pub record IsAllowed (r : Request R) (info : Info) : Type 0 where
    pub procedure : String
    pub called : lib.infer_procedure r.rest ≡ some procedure
    pub permitted : contains (ac.logic.procedure_permissions info) procedure ≡ true
    pub origin : Origin r info

  ok_inj : {A : Type 0} {x y : A} → ok x ≡ ok y → x ≡ y
  ok_inj h = cc

  authorized_inv :
      (r : Request R) (i info : Info)
      → authorized lib ac r i ≡ ok info
      → (p : String) × (lib.infer_procedure r.rest ≡ some p)
        × (contains (ac.logic.procedure_permissions info) p ≡ true)
        × (i ≡ info)
  unfolding check_authz
  authorized_inv r i info h = elim (Option-cases (lib.infer_procedure r.rest)) [
    | inl unknown ↦ cc (rw unknown at h)
    | inr (p, called) ↦ elim (Bool-cases (contains (ac.logic.procedure_permissions i) p)) [
      | inr denied ↦ cc (rw (called, denied) at h)
      | inl allowed ↦
          let same : i ≡ info = ok_inj (rw (called, allowed) at h) in
          (
            p,
            called,
            subst (λ j. contains (ac.logic.procedure_permissions j) p ≡ true) same allowed,
            same,
          )
    ]
  ]

  -- An authorized caller of a known origin may call its procedure.
  authorized-IsAllowed :
      (r : Request R) (i info : Info)
      → Origin r i
      → authorized lib ac r i ≡ ok info
      → IsAllowed r info
  authorized-IsAllowed r i info origin h =
      let (p, called, permitted, same) = authorized_inv r i info h in
      record {
        procedure = p;
        called = called;
        permitted = permitted;
        origin = subst (Origin r) same origin;
      }

  -- Whenever checkAuthN accepts a request, the information that it returns allows the request's
  -- procedure and comes from an anonymous caller without a token, or from a token that was parsed
  -- with the combined keys and has one of the two issuers, for a jwx library that keeps its
  -- documented behaviour.
  pub check_authn-IsAllowed :
      (r : Request R) (info : Info)
      → IsLibrary lib
      → check_authn lib ac r ≡ ok info
      → IsAllowed r info
  unfolding check_authn
  check_authn-IsAllowed r info laws h = elim (Option-cases (lib.bearer_token r)) [
    | inl bare ↦ elim (Option-cases (ac.logic.init_as_anonymous r.context r)) [
      | inl refused ↦ cc (rw (check_authn, bare, refused) at h)
      | inr (i, allowed) ↦
          authorized-IsAllowed r i info (inl (bare, allowed)) (rw (check_authn, bare, allowed) at h)
    ]
    | inr (text, sent) ↦ elim (Result-cases (combined_keys lib ac r.context)) [
      | inl (e, failed) ↦ cc (rw (check_authn, sent, failed) at h)
      | inr (keys, got) ↦ elim (Result-cases (lib.parse ac.audience keys validators text)) [
        | inl (e, bad) ↦ cc (rw (check_authn, sent, got, bad) at h)
        | inr (tok, parsed) ↦ elim (Result-cases (ac.logic.init_from_access_token r.context tok)) [
          | inl (e, failed) ↦ cc (rw (check_authn, sent, got, parsed, failed) at h)
          | inr (i, read) ↦
              authorized-IsAllowed r i info
                (inr (
                  text,
                  keys,
                  tok,
                  sent,
                  got,
                  parsed,
                  (laws.validated ac.audience keys validators text tok parsed).0,
                  read,
                ))
                (rw (check_authn, sent, got, parsed, read) at h)
        ]
      ]
    ]
  ]

  -- The wrapped handler of stdcrpcaccess either refuses the request or runs the inner handler with
  -- decorated information that allows the request's procedure and comes from an anonymous caller
  -- without a token, or from a token that was parsed with the combined keys and has one of the two
  -- issuers, for authn and jwx libraries that keep their documented behaviour.
  pub wrap_handler_serves :
      (next : Handler R W) (r : Request R) (w : W)
      → IsLibrary lib
      → ((e : GoError) × (wrap_handler lib ac next r w ≡ lib.refuse e w))
        ⊎ ((info : Info) × IsAllowed (normalise_headers r) info
            × (let n = normalise_headers r in
                wrap_handler lib ac next r w
                ≡ next
                    (record n {
                      context = ac.logic.decorate_context (lib.set_info n.context info) info;
                    })
                    w))
  unfolding wrap_handler inner
  wrap_handler_serves next r w laws =
      let n = normalise_headers r in
      elim (Result-cases (check_authn lib ac n)) [
        | inl (e, failed) ↦
            inl (e, laws.wrap_err (check_authn lib ac) (inner lib ac next) n w e failed)
        | inr (info, passed) ↦ inr (
          info,
          check_authn-IsAllowed n info laws passed,
          laws.wrap_ok (check_authn lib ac) (inner lib ac next) n w info passed
              ∙ rw (laws.get_set n.context info) refl,
        )
      ]
