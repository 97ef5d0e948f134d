-- ===== src/Httpware.antt =====
-- stdhttpware/connect_cors.go and middleware.go: which origins CORS allows, and the middleware around
-- every handler. `W` is the state of the response writer, which a handler acts on; `url.Parse`, the
-- netip package and chi's middleware are parameters.
pub mod Origins
pub mod Serving
mod Tests
use Prim.Native.Char.{code}
use Prim.Native.String
use Prim.Native.String.{◌++◌ as concat}
use stdgo.Base.{
  ℕ, ◌+◌, ◌-◌, ◌==◌, String, Bool, true, false, ◌&&◌, ◌||◌, not, Option, none, some, List, [], ◌∷◌,
  if◌then◌else◌, str_eq, contains, length,
}
use stdgo.Go.Errors.{Result, ok, err}
use stdgo.Go.Strings.{has_prefix}

-- The first part of a text, and the parts behind it.
unfoldable pub split_dots : String → String × List String
split_dots String.[] = ("", [])
split_dots (String.◌∷◌ c s) =
    let (part, parts) = split_dots s in
    if code c == 46 then ("", part ∷ parts) else (String.◌∷◌ c part, parts)

-- `parts[max(0, len(parts)-2):]`, of a text's first part and the parts behind it.
abbrev pub last_two : String → List String → List String
last_two p [] = p ∷ []
last_two p (q ∷ []) = p ∷ q ∷ []
last_two p (q ∷ r ∷ l) = last_two q (r ∷ l)

abbrev pub join_dots : List String → String
join_dots [] = ""
join_dots (p ∷ []) = p
join_dots (p ∷ q ∷ l) = concat p (concat "." (join_dots (q ∷ l)))

unfoldable pub root_domain_of_host : String → String
unfolding split_dots
root_domain_of_host h = let (p, parts) = split_dots h in join_dots (last_two p parts)

-- `parse_url` gives the host of a URL.
abbrev pub same_root : (host : String) → Result String → Bool
same_root host (err e) = false
same_root host (ok origin_host) =
    str_eq (root_domain_of_host host) (root_domain_of_host origin_host)

-- `AllowOriginVaryRequestFunc`
unfoldable pub allow_origin :
    (parse_url : String → Result String)
    → (white_list : List String) → (host origin : String) → Bool
unfolding root_domain_of_host
allow_origin parse_url white_list host origin =
    if contains white_list origin then true else same_root host (parse_url origin)

pub record Request : Type 0 where
  pub user_agent : String
  pub remote_addr : String
  pub connection : String
  pub request_id : String

-- The value of a panic: `http.ErrAbortHandler`, or another one.
pub data Panic : Type 0 where
  abort_handler : Panic
  panic_value : String → Panic

pub data End : Type 0 where
  returned : End
  panicked : Panic → End

abbrev pub Handler : Type 0 → Type 0
Handler W = Request → W → W × End

pub record Http (W : Type 0) : Type 0 where
  pub get_header : W → (name : String) → String
  pub set_header : W → (name value : String) → W
  pub write_header : W → (status : ℕ) → W
  pub is_private_addr_port : String → Result Bool
  pub real_ip : Request → Request
  pub with_request_id : Request → Request

module _ {W : Type 0} (http : Http W) where
  unfoldable pub cache_middleware : Handler W → Handler W
  cache_middleware next r w = next r (
      if str_eq (http.get_header w "Cache-Control") ""
      then http.set_header w "Cache-Control" "private, no-store"
      else w)

  abbrev pub parsed_private : Result Bool → Bool
  parsed_private (err e) = false
  parsed_private (ok b) = b

  -- Whether the request is not logged.
  unfoldable pub is_quiet : Request → Bool
  unfolding has_prefix
  is_quiet r =
      (str_eq r.user_agent "ELB-HealthChecker/2.0"
        && parsed_private (http.is_private_addr_port "172.20.1.200:7948"))
      || (str_eq r.user_agent "Wget" && has_prefix r.remote_addr "127.0.0.1")

  -- The response is what the handlers behind leave; the log is left out.
  unfoldable pub logger_middleware : Handler W → Handler W
  logger_middleware next r w = next r (http.set_header w "Sd-Request-Id" r.request_id)

  -- The deferred `recover`.
  abbrev pub recovered : Request → W × End → W × End
  recovered r (w, returned) = (w, returned)
  recovered r (w, panicked abort_handler) = (w, panicked abort_handler)
  recovered r (w, panicked (panic_value v)) =
      ((if str_eq r.connection "Upgrade" then w else http.write_header w 500), returned)

  unfoldable pub recover_middleware : Handler W → Handler W
  recover_middleware next r w = recovered r (next r w)

  unfoldable pub apply : Handler W → Handler W
  unfolding cache_middleware logger_middleware recover_middleware
  apply mux =
      recover_middleware
        (λ r. cache_middleware (logger_middleware mux) (http.real_ip (http.with_request_id r)))
