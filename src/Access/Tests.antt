-- ===== src/Access/Tests.antt =====
-- The theorems of this package at a caller that may call one procedure.
use stdgo.Base.{
  ℕ, String, Bool, true, false, Option, none, some, List, [], ◌∷◌, ◌≡◌, refl, ap, ◌⊎◌,
  if◌then◌else◌, contains, str_eq, Bool-cases, inl, inr, All, subst,
}
use stdgo.Go.Context.{Any, Claims, claims_value, authn_info_key, value, with_value}
use stdgo.Go.Errors.{GoError, message, Result, ok, err}
use stdgo.Access
use stdgo.Access.{
  Request, Handler, Logic, Library, AccessControl, normalise_headers, check_authn, wrap_handler,
  combined_keys, check_authz,
}
use stdgo.Access.Served.{IsLibrary, IsAllowed, check_authn-IsAllowed, wrap_handler_serves}

abbrev serve_on : Result Claims → Handler String (List String) → Handler String (List String)
serve_on (ok v) h r w =
    h (record r { context = with_value r.context authn_info_key (claims_value v) }) w
serve_on (err e) h r w = "refused" ∷ w

abbrev as_claims : Option Any → Option Claims
as_claims (some (claims_value c)) = some c
as_claims _ = none

abbrev passes : List (String → Bool) → String → Bool
passes [] tok = true
passes (v ∷ vs) tok = let rest = passes vs tok in if v tok then rest else false

-- A token is its issuer, and is accepted when the validators accept it.
abbrev library : Library String Claims String ℕ ℕ (List String)
library = record {
  bearer_token = λ r. if str_eq (r.header "Authorization") "" then none else some "our issuer";
  infer_procedure = λ url. some url;
  get_info = λ ctx. as_claims (value ctx authn_info_key);
  set_info = λ ctx v. with_value ctx authn_info_key (claims_value v);
  refuse = λ _ w. "refused" ∷ w;
  wrap = λ auth h r w. serve_on (auth r) h r w;
  cached_keys = λ _. ok 0;
  clone = λ k. ok k;
  add_key = λ k ks. ok ks;
  issuer = λ tok. tok;
  parse = λ _ _ vs text. if passes vs text then ok text else err (message "bad");
}

passes-All :
    (vs : List (String → Bool)) (tok : String) → passes vs tok ≡ true → All (λ v. v tok ≡ true) vs
passes-All [] tok h = tt
passes-All (v ∷ vs) tok h = elim (Bool-cases (v tok)) [
  | inl good ↦ (good, passes-All vs tok (rw good at h))
  | inr bad ↦ cc (rw bad at h)
]

ok_inj : {x y : String} → ok x ≡ ok y → x ≡ y
ok_inj h = cc

parse-All :
    (vs : List (String → Bool)) (text tok : String)
    → library.parse "a" 0 vs text ≡ ok tok
    → All (λ v. v tok ≡ true) vs
parse-All vs text tok h = elim (Bool-cases (passes vs text)) [
  | inl good ↦
      let same : text ≡ tok = ok_inj (rw good at h) in
      subst (λ t. All (λ v. v t ≡ true) vs) same (passes-All vs text good)
  | inr bad ↦ cc (rw bad at h)
]

library-IsLibrary : IsLibrary library
unfolding value with_value
library-IsLibrary = record {
  get_set = λ ctx v. refl;
  wrap_ok = λ auth h r w v e. ap (λ q. serve_on q h r w) e;
  wrap_err = λ auth h r w x e. ap (λ q. serve_on q h r w) e;
  validated = λ audience keys vs text tok h. parse-All vs text tok h;
}

abbrev caller : Claims
caller = record { subject = "u1"; scopes = "/svc/Get" ∷ []; tenant_id = "" }

abbrev control : AccessControl String Claims String ℕ
control = record {
  logic = record {
    procedure_permissions = λ c. c.scopes;
    decorate_context = λ ctx _. ctx;
    init_as_anonymous = λ _ _. none;
    init_from_access_token = λ _ _. ok caller;
  };
  audience = "a";
  backend_issuer = "their issuer";
  signing_issuer = "our issuer";
  extra_validators = [];
  signing = 5 ∷ [];
  zero_info = record { subject = ""; scopes = []; tenant_id = "" };
}

abbrev request : Request String
request = record {
  context = [];
  header = λ name. if str_eq name "X-Forwarded-Access-Token" then "t" else "";
  rest = "/svc/Get";
}

abbrev next : Handler String (List String)
next r w = "served" ∷ w

forwarded_run : wrap_handler library control next request [] ≡ "served" ∷ []
unfolding wrap_handler Access.inner normalise_headers check_authn combined_keys check_authz value
    with_value contains
forwarded_run = refl

caller_run : check_authn library control (normalise_headers request) ≡ ok caller
unfolding normalise_headers check_authn combined_keys check_authz contains
caller_run = refl

check_authn-IsAllowed_example : IsAllowed library control (normalise_headers request) caller
check_authn-IsAllowed_example =
    check_authn-IsAllowed library control (normalise_headers request) caller library-IsLibrary
      caller_run

wrap_handler_serves_example :
    ((e : GoError) × (wrap_handler library control next request [] ≡ library.refuse e []))
    ⊎ ((info : Claims) × IsAllowed library control (normalise_headers request) info
        × (let n = normalise_headers request in
            wrap_handler library control next request []
            ≡ next
                (record n {
                  context = control.logic.decorate_context (library.set_info n.context info) info;
                })
                []))
wrap_handler_serves_example = wrap_handler_serves library control next request [] library-IsLibrary
