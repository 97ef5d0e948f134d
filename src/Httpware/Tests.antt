-- ===== src/Httpware/Tests.antt =====
-- The theorems of this package at small requests.
use Prim.Native.String.{◌++◌ as concat}
use stdgo.Base.{String, true, ◌||◌, List, [], ◌∷◌, ◌≡◌, refl, str_eq, contains, arith}
use stdgo.Go.Errors.{ok}
use stdgo.Httpware.{
  Request, Http, Handler, returned, panicked, panic_value, root_domain_of_host, allow_origin,
  is_quiet, apply,
}
use stdgo.Httpware.Origins.{below, allow_origin_lem}
use stdgo.Httpware.Serving.{Answers, prepared, inner_request, apply-Answers, is_quiet_anywhere}

root_domain_of_host_run : root_domain_of_host "a.b.example.com" ≡ "example.com"
unfolding root_domain_of_host
root_domain_of_host_run = refl

-- Two tenants of a public suffix are first parties of each other.
allow_origin_lem_example : allow_origin ok [] (below "shop" "co" "uk") "evil.co.uk" ≡ (
    contains [] "evil.co.uk"
    || str_eq (concat "co" (concat "." "uk")) (concat "co" (concat "." "uk")))
allow_origin_lem_example =
    allow_origin_lem ok [] "evil.co.uk" "shop" "evil" "co" "uk" "co" "uk" (omega arith)
      (omega arith) (omega arith) (omega arith) refl

-- The response is a log.
abbrev http : Http (List String)
http = record {
  get_header = λ _ _. "";
  set_header = λ w name v. name ∷ v ∷ w;
  write_header = λ w status. "500" ∷ w;
  is_private_addr_port = λ _. ok true;
  real_ip = λ r. r;
  with_request_id = λ r. record r { request_id = "id1" };
}

abbrev request : Request
request = record {
  user_agent = "ELB-HealthChecker/2.0";
  remote_addr = "203.0.113.9:443";
  connection = "";
  request_id = "";
}

abbrev broken : Handler (List String)
broken r w = ("partial" ∷ w, panicked (panic_value "boom"))

apply-Answers_example :
    let inner =
      broken (inner_request http request) (prepared http (inner_request http request) []) in
    Answers http request inner.0
      (apply http broken request []).0
      inner.1
      (apply http broken request []).1
apply-Answers_example = apply-Answers http broken request []

apply_run : (apply http broken request []).1 ≡ returned
unfolding apply
apply_run = refl

is_quiet_anywhere_example :
    is_quiet http (record request { remote_addr = "198.51.100.7:80" }) ≡ true
is_quiet_anywhere_example = is_quiet_anywhere http request "198.51.100.7:80" refl refl
