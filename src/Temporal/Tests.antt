-- ===== src/Temporal/Tests.antt =====
-- The journey of a tenant's claims through two workflows to an activity, and an intercepted call.
use stdgo.Temporal.Interceptors
use stdgo.Temporal.Workers
use stdgo.Temporal.Client
use stdgo.Temporal.Interceptors.{
  ClientOutbound, Inbound, proto, intercept_client, signals_with_start,
}
use stdgo.Base.{
  List, true, not, ◌&&◌, ℕ, ltb, if◌then◌else◌, String, Option, none, some, [], ◌∷◌, ◌≡◌, refl, sym,
  ap, ◌∙◌, ◌++◌, str_eq, Bool-cases, inl, inr,
}
use stdgo.Base.Int.{ℤ}
use stdgo.Go.Context.{Context, Claims, webuser, value, with_value}
use stdgo.Go.Errors.{GoError, Result, ok, err, message}
use stdgo.Authz.Access.{with_claims, claims_from_context}
use stdgo.Tenancy.Roles.{with_database_role, database_role_from_context}
use stdgo.Authz.Sample.{library}
use stdgo.Temporal.Claims
use stdgo.Temporal.Claims.{WireClaims, is_empty}
use stdgo.Temporal.Role
use stdgo.Temporal.Journey.{journey, journeyed, journey_eq, Known, specified}

data Payload : Type 0 where
  wire : WireClaims → Payload
  number : ℤ → Payload

abbrev of_claims : Payload → Result WireClaims
of_claims (wire c) = ok c
of_claims (number n) = err (message "not claims")

abbrev of_role : Payload → Result ℤ
of_role (number n) = ok n
of_role (wire c) = err (message "not a number")

abbrev claims_converter : Claims.Converter Payload
claims_converter = record { to_payload = λ c. ok (wire c); from_payload = of_claims }

abbrev role_converter : Role.Converter Payload
role_converter = record { to_payload = λ n. ok (number n); from_payload = of_role }

abbrev tenant : Claims
tenant = record { subject = "u1"; scopes = "a:read" ∷ []; tenant_id = "org" }

abbrev caller : Context
caller = with_database_role (with_claims library [] tenant) webuser

caller_role : database_role_from_context caller ≡ some webuser
unfolding database_role_from_context with_database_role value with_value
caller_role = refl

caller-Known : Known (specified (database_role_from_context caller))
unfolding database_role_from_context with_database_role value with_value
caller-Known = tt

journey_eq_example :
    journey (journeyed library claims_converter role_converter) [] 2 caller []
    ≡ (with_database_role (with_claims library [] tenant) webuser, none)
unfolding database_role_from_context with_database_role value with_value with_claims
    claims_from_context is_empty
journey_eq_example =
    journey_eq library claims_converter role_converter [] 2 caller [] (λ c. (wire c, refl, refl))
      (λ n. (number n, refl, refl)) (refl, refl) caller-Known

-- A message is a number, and the small ones are valid.
abbrev small : ℕ → Option GoError
small n = if ltb n 10 then none else some (message "too large")

abbrev outbound : ClientOutbound ℕ String
outbound = record {
  execute_workflow = λ _ _. ok "started";
  signal_with_start_workflow = λ _ _ _. ok "signaled";
  signal_workflow = λ _ _. ok "signaled";
  update_workflow = λ _ _. ok "updated";
}

abbrev inbound : Inbound ℕ String
inbound = record { execute_workflow = λ _ _. ok "ran"; execute_activity = λ _ _. ok "ran" }

intercepted-Accepted_example :
    (Interceptors.AreValid small (some (proto 3)) × Interceptors.IsValid small (proto 4 ∷ []))
    × (outbound.signal_with_start_workflow [] (some (proto 3)) (proto 4 ∷ []) ≡ ok "signaled")
unfolding intercept_client
intercepted-Accepted_example =
    Interceptors.intercepted-Accepted small outbound inbound (λ ctx. ctx) []
      (signals_with_start (some (proto 3)) (proto 4 ∷ [])) refl

-- The running workers, the earliest first, by their queues.
abbrev tail : List String → List String
tail [] = []
tail (k ∷ l) = l

abbrev start_worker : String → List String → List String × Option GoError
start_worker k s = if str_eq k "bad" then (s, some (message "no poller")) else (s ++ (k ∷ []), none)

abbrev sdk : Workers.Sdk (List String) String
sdk = record { new_worker = λ queue s. (s, queue); start = start_worker; stop = λ _ s. tail s }

abbrev running : List String → List String
running s = s

start_worker-ok :
    (k : String) (s s' : List String) → start_worker k s ≡ (s', none) → s' ≡ s ++ (k ∷ [])
start_worker-ok k s s' h = elim (Bool-cases (str_eq k "bad")) [
  | inl bad ↦ let e = h in cc (rw bad at e)
  | inr fine ↦ let e = rw fine at h in ap (λ (r : List String × Option GoError). r.0) (sym e)
]

start_worker-err :
    (k : String) (s s' : List String) (e : GoError) → start_worker k s ≡ (s', some e) → s' ≡ s
start_worker-err k s s' e h = elim (Bool-cases (str_eq k "bad")) [
  | inl bad ↦ ap (λ (r : List String × Option GoError). r.0) (sym (rw bad at h))
  | inr fine ↦ cc (rw fine at h)
]

sdk-IsSdk : Workers.IsSdk sdk running
sdk-IsSdk = record {
  new_keeps = λ queue s. refl;
  start_ok = start_worker-ok;
  start_err = start_worker-err;
  stop_first = λ k s l h. ap tail h;
}

abbrev on_queue : String → Workers.Registration (List String) String
on_queue queue = record { queue_name = queue; reg_fn = λ _ s. s }

stop-start_example :
    Workers.Tracked sdk running sdk-IsSdk
      (Workers.start sdk (on_queue "mail" ∷ on_queue "bad" ∷ []) ([], [])).0
    × (Workers.stop sdk (Workers.start sdk (on_queue "mail" ∷ on_queue "bad" ∷ []) ([], [])).0 ≡ [])
stop-start_example =
    Workers.stop-start sdk running sdk-IsSdk (on_queue "mail" ∷ on_queue "bad" ∷ []) []
      ((λ k s. refl), ((λ k s. refl), tt)) refl

-- The namespaces of a server.
abbrev server : Client.Sdk (List String)
server = record {
  new_namespace_client = λ _ s. (s, none);
  random_hex = λ s. (s, "0a1b");
  register = λ n s. (n ∷ s, none);
  dial = λ _ _ _ s. (s, none);
  list_workflow = λ s. (s, none);
  delete_namespace = λ _ s. (tail s, none);
  close_namespace_client = λ s. s;
  close = λ s. s;
}

abbrev config : Client.Config
config = record {
  host_port = "localhost:7233";
  namespace = "default";
  api_key = "";
  create_and_use_random_namespace = true;
  auto_remove_namespace = true;
}

server-IsSdk : Client.IsSdk server config running
server-IsSdk = record {
  new_keeps = λ h s. refl;
  random_keeps = λ s. refl;
  register_adds = λ n s s' h. ap (λ (r : List String × Option GoError). r.0) (sym h);
  dial_keeps = λ h n k s. refl;
  delete_removes =
      λ n s s' l h e. ap (λ (r : List String × Option GoError). r.0) (sym h) ∙ ap tail e;
  close_ns_keeps = λ s. refl;
  close_keeps = λ s. refl;
}

stop-start_client_example : running ("default" ∷ []) ≡ (
    if config.create_and_use_random_namespace && not config.auto_remove_namespace
    then "default-0a1b" ∷ running ("default" ∷ [])
    else running ("default" ∷ []))
unfolding Client.start Client.stop
stop-start_client_example =
    Client.stop-start_client server config running server-IsSdk ("default" ∷ [])
      ("default-0a1b" ∷ "default" ∷ []) ("default" ∷ [])
      (record { namespace = "default-0a1b"; has_ns_client = true }) refl refl
