-- ===== src/Temporal/Journey.antt =====
-- The journey of a request's claims and role: from the caller's context to a workflow's header,
-- through any number of workflows that start others, to the context of an activity.
use stdgo.Base.{
  ℕ, zero, suc, String, false, Option, none, some, ◌≡◌, refl, ap, ◌∙◌, if◌then◌else◌, Bool-cases,
  inl, inr,
}
use stdgo.Go.Context.{
  Context, Claims, claims_value, DatabaseRole, unspecified, anonymous, webuser, sysuser,
  unknown_role, role_value, claims_workflow_key, role_workflow_key, with_value, value,
}
use stdgo.Go.Errors.{GoError, Result, ok, err}
use stdgo.Authz.Access.{Library, claims_from_context, with_claims}
use stdgo.Tenancy.Roles.{with_database_role, database_role_from_context}
use mathlib.Core.Path.{fun_ext}
use stdgo.Temporal.Header.{Header, no_header, set, Propagator}
use stdgo.Temporal.Claims
use stdgo.Temporal.Claims.{WireClaims, is_empty, claims_header_key}
use stdgo.Temporal.Role
use stdgo.Temporal.Role.{role_header_key, role_number, int32}

abbrev pub then_result :
    {P : Type 0} → Result (Header P) → (Header P → Result (Header P)) → Result (Header P)
then_result (err e) k = err e
then_result (ok h) k = k h

abbrev pub then_context :
    Context × Option GoError → (Context → Context × Option GoError) → Context × Option GoError
then_context (ctx, some e) k = (ctx, some e)
then_context (ctx, none) k = k ctx

-- Two propagators in the order of the SDK's list.
abbrev pub both : {P : Type 0} → Propagator P → Propagator P → Propagator P
both p q = record {
  inject = λ ctx h. then_result (p.inject ctx h) (q.inject ctx);
  extract = λ ctx h. then_context (p.extract ctx h) (λ c. q.extract c h);
  inject_from_workflow =
      λ ctx h. then_result (p.inject_from_workflow ctx h) (q.inject_from_workflow ctx);
  extract_to_workflow =
      λ ctx h. then_context (p.extract_to_workflow ctx h) (λ c. q.extract_to_workflow c h);
}

module _ {P : Type 0} (p : Propagator P) where
  -- What a workflow that started on a header gives to what it starts.
  abbrev pub schedule : Context × Option GoError → Result (Header P)
  schedule (ctx, some e) = err e
  schedule (ctx, none) = p.inject_from_workflow ctx no_header

  -- `n` workflows, each started by the one before it; `start` is the context that the SDK starts with.
  abbrev pub hops : (start : Context) → ℕ → Result (Header P) → Result (Header P)
  hops start zero h = h
  hops start (suc n) h =
      hops start n (then_result h (λ h. schedule (p.extract_to_workflow start h)))

  abbrev pub arrive : Context → Result (Header P) → Context × Option GoError
  arrive actx (err e) = (actx, some e)
  arrive actx (ok h) = p.extract actx h

  -- From the caller's context to the activity's.
  abbrev pub journey : (start : Context) → ℕ → (ctx actx : Context) → Context × Option GoError
  journey start n ctx actx = arrive actx (hops start n (p.inject ctx no_header))

-- What the data converter documents: what it encodes it decodes to the same.
abbrev pub Encodes : {A P : Type 0} → (A → Result P) → (P → Result A) → Type 0
Encodes {A} {P} to_payload from_payload =
    (a : A) → (p : P) × (to_payload a ≡ ok p) × (from_payload p ≡ ok a)

abbrev put : {P : Type 0} → String → Option P → Header P → Header P
put key none h = h
put key (some p) h = set key p h

abbrev stored : {P : Type 0} → Option P → Option (Option P)
stored none = none
stored (some p) = some (some p)

-- The header of two optional payloads.
abbrev pair_header : {P : Type 0} → Option P → Option P → Header P
pair_header pc pr = put role_header_key pr (put claims_header_key pc no_header)

pair_header-claims :
    {P : Type 0} (pc pr : Option P) → pair_header pc pr claims_header_key ≡ stored pc
pair_header-claims none none = refl
pair_header-claims none (some r) = refl
pair_header-claims (some c) none = refl
pair_header-claims (some c) (some r) = refl

pair_header-role : {P : Type 0} (pc pr : Option P) → pair_header pc pr role_header_key ≡ stored pr
pair_header-role none none = refl
pair_header-role none (some r) = refl
pair_header-role (some c) none = refl
pair_header-role (some c) (some r) = refl

-- Claims that are worth a header.
abbrev Full : Option Claims → Type 0
Full none = Unit
Full (some c) = is_empty c ≡ false

-- A role that the receiver knows.
abbrev pub Known : Option DatabaseRole → Type 0
Known none = Unit
Known (some (unknown_role n)) = ⊥
Known (some unspecified) = ⊥
Known (some _) = Unit

abbrev pub role_stamped : Option DatabaseRole → Context → Context
role_stamped none ctx = ctx
role_stamped (some r) ctx = with_database_role ctx r

abbrev claims_put : Option Claims → Context → Context
claims_put none ctx = ctx
claims_put (some c) ctx = with_value ctx claims_workflow_key (claims_value c)

abbrev role_put : Option DatabaseRole → Context → Context
role_put none ctx = ctx
role_put (some r) ctx = with_value ctx role_workflow_key (role_value r)

-- A context that a workflow starts with carries neither.
abbrev pub IsFresh : Context → Type 0
IsFresh start = (value start claims_workflow_key ≡ none) × (value start role_workflow_key ≡ none)

-- The role that a caller's context sends.
abbrev pub specified : Option DatabaseRole → Option DatabaseRole
specified (some unspecified) = none
specified o = o

module _ {R Token W P : Type 0} (lib : Library R Token W) (cconv : Claims.Converter P)
    (rconv : Role.Converter P) where
  claims_written :
      (h : Header P) (oc : Option Claims)
      → Encodes cconv.to_payload cconv.from_payload
      → Full oc
      → (pc : Option P) × (Claims.write_carried lib cconv h oc ≡ ok (put claims_header_key pc h))
        × (Claims.of_stored lib cconv (stored pc) ≡ ok oc)
  unfolding Claims.write
  claims_written h none enc full = (none, refl, refl)
  claims_written h (some c) enc full =
      let (p, wrote, reads) =
        enc (record { subject = c.subject; scopes = c.scopes; tenant_id = c.tenant_id }) in
      (some p, rw (full, wrote) refl, rw (reads, full) refl)

  role_written :
      (h : Header P) (o : Option DatabaseRole)
      → Encodes rconv.to_payload rconv.from_payload
      → Known o
      → (pr : Option P) × (Role.write_carried rconv h o ≡ ok (put role_header_key pr h))
        × (Role.of_stored rconv (stored pr) ≡ ok o)
  unfolding Role.write
  role_written h none enc known = (none, refl, refl)
  role_written h (some anonymous) enc known =
      let (p, wrote, reads) = enc (int32 (role_number anonymous)) in
      (some p, rw wrote refl, rw reads refl)
  role_written h (some webuser) enc known =
      let (p, wrote, reads) = enc (int32 (role_number webuser)) in
      (some p, rw wrote refl, rw reads refl)
  role_written h (some sysuser) enc known =
      let (p, wrote, reads) = enc (int32 (role_number sysuser)) in
      (some p, rw wrote refl, rw reads refl)
  role_written h (some (unknown_role n)) enc known = absurd known
  role_written h (some unspecified) enc known = absurd known

  abbrev pub journeyed : Propagator P
  journeyed = both (Claims.propagator lib cconv) (Role.propagator rconv)

  -- A header that a worker reads these claims and this role from.
  abbrev Holds : Header P → Option Claims → Option DatabaseRole → Type 0
  Holds h oc o = (Claims.read lib cconv h ≡ ok oc) × (Role.read rconv h ≡ ok o)

  both_written :
      (oc : Option Claims) (o : Option DatabaseRole)
      → Encodes cconv.to_payload cconv.from_payload
      → Encodes rconv.to_payload rconv.from_payload
      → Full oc
      → Known o
      → (h : Header P) × (then_result
            (Claims.write_carried lib cconv no_header oc)
            (λ h. Role.write_carried rconv h o)
          ≡ ok h)
        × Holds h oc o
  unfolding Claims.read Role.read
  both_written oc o cenc renc full known =
      let (pc, wrote, reads) = claims_written no_header oc cenc full in
      let (pr, wrote', reads') = role_written (put claims_header_key pc no_header) o renc known in
      (
        pair_header pc pr,
        ap (λ r. then_result r (λ h. Role.write_carried rconv h o)) wrote ∙ wrote',
        (
          ap (Claims.of_stored lib cconv) (pair_header-claims pc pr) ∙ reads,
          ap (Role.of_stored rconv) (pair_header-role pc pr) ∙ reads',
        ),
      )

  -- The claims that the caller's context sends.
  abbrev pub carried_claims : Context → Option Claims
  carried_claims ctx = let c = claims_from_context lib ctx in if is_empty c then none else some c

  carried_claims-Full : (ctx : Context) → Full (carried_claims ctx)
  carried_claims-Full ctx = elim (Bool-cases (is_empty (claims_from_context lib ctx))) [
    | inl none_there ↦ rw none_there tt
    | inr there ↦ rw there there
  ]

  inject-claims :
      (ctx : Context) (h : Header P)
      → Claims.inject lib cconv ctx h ≡ Claims.write_carried lib cconv h (carried_claims ctx)
  unfolding Claims.inject
  inject-claims ctx h = elim (Bool-cases (is_empty (claims_from_context lib ctx))) [
    | inl none_there ↦ rw none_there refl
    | inr there ↦ rw (there, there) refl
  ]

  write_specified :
      (h : Header P) (o : Option DatabaseRole)
      → Role.write_carried rconv h o ≡ Role.write_carried rconv h (specified o)
  write_specified h none = refl
  write_specified h (some unspecified) = refl
  write_specified h (some anonymous) = refl
  write_specified h (some webuser) = refl
  write_specified h (some sysuser) = refl
  write_specified h (some (unknown_role n)) = refl

  put-claims :
      (oc : Option Claims) (o : Option DatabaseRole) (start : Context)
      → IsFresh start
      → Claims.as_claims lib cconv (value (role_put o (claims_put oc start)) claims_workflow_key)
        ≡ oc
  unfolding value with_value
  put-claims none none start fresh = ap (Claims.as_claims lib cconv) fresh.0
  put-claims none (some r) start fresh = ap (Claims.as_claims lib cconv) fresh.0
  put-claims (some c) none start fresh = refl
  put-claims (some c) (some r) start fresh = refl

  put-role :
      (oc : Option Claims) (o : Option DatabaseRole) (start : Context)
      → IsFresh start
      → Role.as_role rconv (value (role_put o (claims_put oc start)) role_workflow_key) ≡ o
  unfolding value with_value
  put-role none none start fresh = ap (Role.as_role rconv) fresh.1
  put-role (some c) none start fresh = ap (Role.as_role rconv) fresh.1
  put-role none (some r) start fresh = refl
  put-role (some c) (some r) start fresh = refl

  extracted :
      (start : Context) (h : Header P) (oc : Option Claims) (o : Option DatabaseRole)
      → Holds h oc o
      → journeyed.extract_to_workflow start h ≡ (role_put o (claims_put oc start), none)
  unfolding Claims.extract_to_workflow Role.extract_to_workflow
  extracted start h none none (hc, hr) = rw (hc, hr) refl
  extracted start h none (some r) (hc, hr) = rw (hc, hr) refl
  extracted start h (some c) none (hc, hr) = rw (hc, hr) refl
  extracted start h (some c) (some r) (hc, hr) = rw (hc, hr) refl

  abbrev pub claims_stamped : Option Claims → Context → Context
  claims_stamped none ctx = ctx
  claims_stamped (some c) ctx = with_claims lib ctx c

  arrived :
      (actx : Context) (h : Header P) (oc : Option Claims) (o : Option DatabaseRole)
      → Holds h oc o
      → journeyed.extract actx h ≡ (role_stamped o (claims_stamped oc actx), none)
  unfolding Claims.extract Role.extract
  arrived actx h none none (hc, hr) = rw (hc, hr) refl
  arrived actx h none (some r) (hc, hr) = rw (hc, hr) refl
  arrived actx h (some c) none (hc, hr) = rw (hc, hr) refl
  arrived actx h (some c) (some r) (hc, hr) = rw (hc, hr) refl

  -- Both written to an empty header.
  abbrev send : Option Claims → Option DatabaseRole → Result (Header P)
  send oc o =
      then_result (Claims.write_carried lib cconv no_header oc) (λ h. Role.write_carried rconv h o)

  module _ (cenc : Encodes cconv.to_payload cconv.from_payload)
      (renc : Encodes rconv.to_payload rconv.from_payload) where
    -- One workflow hands on what it was given.
    schedule-Holds :
        (start : Context) (h : Header P) (oc : Option Claims) (o : Option DatabaseRole)
        → IsFresh start
        → Full oc
        → Known o
        → Holds h oc o
        → (h' : Header P) × (schedule journeyed (journeyed.extract_to_workflow start h) ≡ ok h')
          × Holds h' oc o
    unfolding Claims.inject_from_workflow Role.inject_from_workflow
    schedule-Holds start h oc o fresh full known holds =
        let (h', wrote, holds') = both_written oc o cenc renc full known in
        (
          h',
          ap (schedule journeyed) (extracted start h oc o holds)
              ∙ ap
                  (λ v. send v (
                    Role.as_role rconv
                      (value (role_put o (claims_put oc start)) role_workflow_key)))
                  (put-claims oc o start fresh)
              ∙ ap (send oc) (put-role oc o start fresh)
              ∙ wrote,
          holds',
        )

    hops-Holds :
        (start : Context) (n : ℕ) (h : Header P) (oc : Option Claims) (o : Option DatabaseRole)
        → IsFresh start
        → Full oc
        → Known o
        → Holds h oc o
        → (h' : Header P) × (hops journeyed start n (ok h) ≡ ok h') × Holds h' oc o
    hops-Holds start zero h oc o fresh full known holds = (h, refl, holds)
    hops-Holds start (suc n) h oc o fresh full known holds =
        let (h₁, gave, holds₁) = schedule-Holds start h oc o fresh full known holds in
        let (h', went, holds') = hops-Holds start n h₁ oc o fresh full known holds₁ in
        (h', ap (hops journeyed start n) gave ∙ went, holds')

  inject_eq :
      (ctx : Context)
      → journeyed.inject ctx no_header
        ≡ send (carried_claims ctx) (specified (database_role_from_context ctx))
  unfolding Role.inject
  inject_eq ctx =
      ap (λ r. then_result r (Role.inject rconv ctx)) (inject-claims ctx no_header)
      ∙ ap (then_result (Claims.write_carried lib cconv no_header (carried_claims ctx)))
          (fun_ext (λ h. write_specified h (database_role_from_context ctx)))

  -- Whatever number of workflows lies between a caller and an activity, the activity's context is
  -- the one it started with under the caller's claims, if these are not empty, and the caller's
  -- database role, if it is set and not the unspecified one, when both converters decode what they
  -- encode, workflows start on a context that carries neither value, and the role is one of the
  -- declared ones.
  pub journey_eq :
      (start : Context) (n : ℕ) (ctx actx : Context)
      → Encodes cconv.to_payload cconv.from_payload
      → Encodes rconv.to_payload rconv.from_payload
      → IsFresh start
      → Known (specified (database_role_from_context ctx))
      → journey journeyed start n ctx actx ≡ (
        role_stamped
            (specified (database_role_from_context ctx))
            (claims_stamped (carried_claims ctx) actx),
        none,
      )
  journey_eq start n ctx actx cenc renc fresh known =
      let oc = carried_claims ctx in
      let o = specified (database_role_from_context ctx) in
      let (h, wrote, holds) = both_written oc o cenc renc (carried_claims-Full ctx) known in
      let (h', went, holds') =
        hops-Holds cenc renc start n h oc o fresh (carried_claims-Full ctx) known holds in
      ap (arrive journeyed actx) (ap (hops journeyed start n) (inject_eq ctx ∙ wrote) ∙ went)
      ∙ arrived actx h' oc o holds'
