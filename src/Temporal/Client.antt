-- ===== src/Temporal/Client.antt =====
-- `Temporal` of fx/stdtemporalfx/temporal.go: the client's start and stop, with the namespace that a
-- test may make for itself. The SDK acts on a state `S`; `random_hex` is six random bytes in hex.
use Prim.Native.String.{◌++◌ as concat}
use stdgo.Base.{
  String, Bool, true, false, not, ◌&&◌, Option, none, some, List, ◌∷◌, ◌≡◌, refl, sym, ap, subst,
  ◌∙◌, if◌then◌else◌, str_eq, inl, inr, Bool-cases,
}
use stdgo.Go.Errors.{GoError, wrap}
use stdgo.Go.Results.{wrap_error}

pub record Config : Type 0 where
  pub host_port : String
  pub namespace : String
  pub api_key : String
  pub create_and_use_random_namespace : Bool
  pub auto_remove_namespace : Bool

-- `api_key` of a dial is there for credentials and TLS.
pub record Sdk (S : Type 0) : Type 0 where
  pub new_namespace_client : (host_port : String) → S → S × Option GoError
  pub random_hex : S → S × String
  pub register : (namespace : String) → S → S × Option GoError
  pub dial : (host_port namespace : String) → (api_key : Option String) → S → S × Option GoError
  pub list_workflow : S → S × Option GoError
  pub delete_namespace : String → S → S × Option GoError
  pub close_namespace_client : S → S
  pub close : S → S

-- What the component keeps: its namespace, and whether it has a namespace client.
pub record Temporal : Type 0 where
  pub namespace : String
  pub has_ns_client : Bool

module _ {S : Type 0} (sdk : Sdk S) (cfg : Config) where
  abbrev pub credentials : Option String
  credentials = if str_eq cfg.api_key "" then none else some cfg.api_key

  abbrev pub dialed : Temporal → S × Option GoError → (S × Temporal) × Option GoError
  dialed c (s, e) = ((s, c), wrap_error "dial temporal" e)

  abbrev pub dial_as : Temporal → S → (S × Temporal) × Option GoError
  dial_as c s = dialed c (sdk.dial cfg.host_port c.namespace credentials s)

  abbrev pub registered : Temporal → S × Option GoError → (S × Temporal) × Option GoError
  registered c (s, some e) = ((s, c), some (wrap "register randomly-named namespace" e))
  registered c (s, none) = dial_as c s

  abbrev pub named : S × String → (S × Temporal) × Option GoError
  named (s, hex) =
      let namespace = concat cfg.namespace (concat "-" hex) in
      registered (record { namespace = namespace; has_ns_client = true }) (sdk.register namespace s)

  abbrev pub with_ns_client : S × Option GoError → (S × Temporal) × Option GoError
  with_ns_client (s, some e) = (
    (s, record { namespace = cfg.namespace; has_ns_client = false }),
    some (wrap "init namespace client" e),
  )
  with_ns_client (s, none) = named (sdk.random_hex s)

  unfoldable pub start : S → (S × Temporal) × Option GoError
  start s =
      if cfg.create_and_use_random_namespace
      then with_ns_client (sdk.new_namespace_client cfg.host_port s)
      else dial_as (record { namespace = cfg.namespace; has_ns_client = false }) s

  unfoldable pub check_health : S → S × Option GoError
  check_health s = let (s', e) = sdk.list_workflow s in (s', wrap_error "check health" e)

  -- `Stop`, from the deletion's result on.
  abbrev pub closed : Temporal → S × Option GoError → S × Option GoError
  closed c (s, some e) = (s, some (wrap "delete namespace" e))
  closed c (s, none) =
      (sdk.close (if c.has_ns_client then sdk.close_namespace_client s else s), none)

  abbrev pub removed : Bool → Temporal → S → S × Option GoError
  removed true c s = sdk.delete_namespace c.namespace s
  removed false c s = (s, none)

  unfoldable pub stop : Temporal → S → S × Option GoError
  stop c s =
      closed c (removed (cfg.create_and_use_random_namespace && cfg.auto_remove_namespace) c s)

  -- What the SDK documents, with `namespaces` for those of the server, the latest first.
  pub record IsSdk (namespaces : S → List String) : Type 0 where
    pub new_keeps :
        (h : String) (s : S) → namespaces (sdk.new_namespace_client h s).0 ≡ namespaces s
    pub random_keeps : (s : S) → namespaces (sdk.random_hex s).0 ≡ namespaces s
    pub register_adds :
        (n : String) (s s' : S) → sdk.register n s ≡ (s', none) → namespaces s' ≡ n ∷ namespaces s
    pub dial_keeps :
        (h n : String) (k : Option String) (s : S) → namespaces (sdk.dial h n k s).0 ≡ namespaces s
    pub delete_removes :
        (n : String) (s s' : S) (l : List String)
        → sdk.delete_namespace n s ≡ (s', none)
        → namespaces s ≡ n ∷ l
        → namespaces s' ≡ l
    pub close_ns_keeps : (s : S) → namespaces (sdk.close_namespace_client s) ≡ namespaces s
    pub close_keeps : (s : S) → namespaces (sdk.close s) ≡ namespaces s

  module _ (namespaces : S → List String) (laws : IsSdk namespaces) where
    -- The namespaces of a client that started in front of `l`.
    abbrev pub Started : List String → (S × Temporal) × Option GoError → Type 0
    Started l (w, some e) = Unit
    Started l ((s, c), none) =
        namespaces s ≡ (if cfg.create_and_use_random_namespace then c.namespace ∷ l else l)

    dialed-Started :
        (l : List String) (c : Temporal) (r : S × Option GoError)
        → namespaces r.0 ≡ (if cfg.create_and_use_random_namespace then c.namespace ∷ l else l)
        → Started l (dialed c r)
    dialed-Started l c (s, none) h = h
    dialed-Started l c (s, some e) h = tt

    registered-Started :
        (s₀ : S) (n : String) (ns : Bool) (r : S × Option GoError)
        → cfg.create_and_use_random_namespace ≡ true
        → sdk.register n s₀ ≡ r
        → Started (namespaces s₀) (registered (record { namespace = n; has_ns_client = ns }) r)
    registered-Started s₀ n ns (s, some e) made h = tt
    registered-Started s₀ n ns (s, none) made h =
        dialed-Started (namespaces s₀) (record { namespace = n; has_ns_client = ns })
          (sdk.dial cfg.host_port n credentials s)
          (laws.dial_keeps cfg.host_port n credentials s
            ∙ laws.register_adds n s₀ s h
            ∙ ap (λ b. if b then n ∷ namespaces s₀ else namespaces s₀) (sym made))

    with_ns_client-Started :
        (l : List String) (r : S × Option GoError)
        → cfg.create_and_use_random_namespace ≡ true
        → namespaces r.0 ≡ l
        → Started l (with_ns_client r)
    with_ns_client-Started l (s, some e) made h = tt
    with_ns_client-Started l (s, none) made h =
        let (s₁, hex) = sdk.random_hex s in
        let n = concat cfg.namespace (concat "-" hex) in
        subst (λ l. Started l (named (s₁, hex))) (laws.random_keeps s ∙ h)
          (registered-Started s₁ n true (sdk.register n s₁) made refl)

    start-Started : (s : S) → Started (namespaces s) (start s)
    unfolding start
    start-Started s = elim (Bool-cases cfg.create_and_use_random_namespace) [
      | inl made ↦ rw made (
          with_ns_client-Started (namespaces s) (sdk.new_namespace_client cfg.host_port s) made
            (laws.new_keeps cfg.host_port s))
      | inr plain ↦
          let c : Temporal = record { namespace = cfg.namespace; has_ns_client = false } in
          rw plain (
            dialed-Started (namespaces s) c (sdk.dial cfg.host_port cfg.namespace credentials s) (
              laws.dial_keeps cfg.host_port cfg.namespace credentials s
              ∙ ap (λ b. if b then cfg.namespace ∷ namespaces s else namespaces s) (sym plain)))
    ]

    closed-keeps :
        (c : Temporal) (r : S × Option GoError) (s' : S)
        → closed c r ≡ (s', none)
        → (s : S) × (r ≡ (s, none)) × (namespaces s' ≡ namespaces s)
    closed-keeps c (s, some e) s' h = cc
    closed-keeps c (s, none) s' h =
        let e = ap (λ (r : S × Option GoError). namespaces r.0) (sym h) in
        (
          s,
          refl,
          e
              ∙ laws.close_keeps (if c.has_ns_client then sdk.close_namespace_client s else s)
              ∙ elim (Bool-cases c.has_ns_client) [
                | inl there ↦ rw there (laws.close_ns_keeps s)
                | inr none_there ↦ rw none_there refl
              ],
        )

    removed-leaves :
        (c : Temporal) (made auto : Bool) (s₁ s₃ : S) (l : List String)
        → namespaces s₁ ≡ (if made then c.namespace ∷ l else l)
        → removed (made && auto) c s₁ ≡ (s₃, none)
        → namespaces s₃ ≡ (if made && not auto then c.namespace ∷ l else l)
    removed-leaves c true true s₁ s₃ l live gone = laws.delete_removes c.namespace s₁ s₃ l gone live
    removed-leaves c true false s₁ s₃ l live gone =
        ap (λ (r : S × Option GoError). namespaces r.0) (sym gone) ∙ live
    removed-leaves c false auto s₁ s₃ l live gone =
        ap (λ (r : S × Option GoError). namespaces r.0) (sym gone) ∙ live

    -- A Start and a Stop of the client that both report no error leave the namespaces of the server
    -- as they were, except that a random namespace stays when one is made and is not to be removed.
    pub stop-start_client :
        (s s₁ s₂ : S) (c : Temporal)
        → start s ≡ ((s₁, c), none)
        → stop c s₁ ≡ (s₂, none)
        → namespaces s₂ ≡ (
            if cfg.create_and_use_random_namespace && not cfg.auto_remove_namespace
            then c.namespace ∷ namespaces s
            else namespaces s)
    unfolding stop
    stop-start_client s s₁ s₂ c started stopped =
        let live : Started (namespaces s) ((s₁, c), none) =
          subst (Started (namespaces s)) started (start-Started s) in
        let (s₃, deleted, same) =
          closed-keeps c
            (removed (cfg.create_and_use_random_namespace && cfg.auto_remove_namespace) c s₁) s₂
            stopped in
        same
        ∙ removed-leaves c cfg.create_and_use_random_namespace cfg.auto_remove_namespace s₁ s₃
            (namespaces s) live deleted
