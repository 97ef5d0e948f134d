-- ===== src/Httpware/Serving.antt =====
-- What the middleware guarantee around any handler, and which requests are not logged.
use stdgo.Base.{String, true, ◌≡◌, refl, if◌then◌else◌, str_eq}
use stdgo.Go.Errors.{ok}
use stdgo.Httpware.{
  Request, abort_handler, panic_value, End, returned, panicked, Handler, Http, is_quiet, recovered,
  apply,
}

module _ {W : Type 0} (http : Http W) where
  -- The writer that the inner handler starts with.
  abbrev pub prepared : Request → W → W
  prepared r w =
      http.set_header
        (if str_eq (http.get_header w "Cache-Control") ""
          then http.set_header w "Cache-Control" "private, no-store"
          else w)
        "Sd-Request-Id" r.request_id

  abbrev pub inner_request : Request → Request
  inner_request r = http.real_ip (http.with_request_id r)

  -- What the client sees of the inner handler's run.
  pub data Answers (r : Request) (w w' : W) : End → End → Type 0 where
    normally : w' ≡ w → Answers r w w' returned returned
    aborts : w' ≡ w → Answers r w w' (panicked abort_handler) (panicked abort_handler)
    fails :
        (v : String)
        → w' ≡ (if str_eq r.connection "Upgrade" then w else http.write_header w 500)
        → Answers r w w' (panicked (panic_value v)) returned

  recovered-Answers :
      (r : Request) (o : W × End) → Answers r o.0 (recovered http r o).0 o.1 (recovered http r o).1
  recovered-Answers r (w, returned) = normally refl
  recovered-Answers r (w, panicked abort_handler) = aborts refl
  recovered-Answers r (w, panicked (panic_value v)) = fails v refl

  -- The inner handler runs with a request id and a default Cache-Control on its response; what it
  -- leaves stands when it returns or aborts, and any other panic of it ends in a plain return, with
  -- status 500 unless the connection is upgraded.
  pub apply-Answers :
      (mux : Handler W) (r : Request) (w : W)
      → let inner = mux (inner_request r) (prepared (inner_request r) w) in
        Answers r inner.0 (apply http mux r w).0 inner.1 (apply http mux r w).1
  unfolding apply
  apply-Answers mux r w = recovered-Answers r (mux (inner_request r) (prepared (inner_request r) w))

  -- A health check of a load balancer is quiet from whatever address it comes.
  pub is_quiet_anywhere :
      (r : Request) (remote_addr : String)
      → http.is_private_addr_port "172.20.1.200:7948" ≡ ok true
      → str_eq r.user_agent "ELB-HealthChecker/2.0" ≡ true
      → is_quiet http (record r { remote_addr = remote_addr }) ≡ true
  unfolding is_quiet
  is_quiet_anywhere r remote_addr private elb = rw (elb, private) refl
