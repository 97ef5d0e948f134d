-- ===== src/Writefence/Middleware.antt =====
-- The HTTP middleware of stdcrpc/stdcrpcwritefence/writefence.go. The response writer, the
-- securecookie codec and the request's cookies are parameters. Whole seconds of a TTL are exact here;
-- the source rounds them by a float64, which agrees for every TTL below 2 ^ 22 seconds.
pub mod Pinning
pub mod Promotion
use stdgo.Base.{
  ℕ, ◌+◌, ltb, String, Bool, true, false, Option, none, some, List, [], ◌∷◌, if◌then◌else◌, length,
}
use stdgo.Base.Int.{ℤ, pos, negsuc, quot}
use stdgo.Go.Context.{Context}
use stdgo.Go.Outcome.{Outcome, returned, panicked, exited}
use stdgo.Writefence.Intent.{Flags, with_fence_intent, mark_fence_intent}

-- `http.SameSite`
pub data SameSite : Type 0 where
  same_site_default same_site_lax same_site_strict same_site_none : SameSite

-- The fields of `http.Cookie` that are set; `max_age` is in seconds.
pub record Cookie : Type 0 where
  pub name : String
  pub value : String
  pub path : String
  pub domain : String
  pub max_age : ℕ
  pub http_only : Bool
  pub secure : Bool
  pub same_site : SameSite

-- `ttl` is in nanoseconds.
pub record Config : Type 0 where
  pub cookie_name : String
  pub path : String
  pub domain : String
  pub same_site : SameSite
  pub secure : Bool
  pub http_only : Bool
  pub ttl : ℤ
  pub promote : Option (Context → Context)

abbrev pub with_cookie_name : String → Config → Config
with_cookie_name name c = record c { cookie_name = name }

abbrev pub with_path : String → Config → Config
with_path p c = record c { path = p }

abbrev pub with_domain : String → Config → Config
with_domain d c = record c { domain = d }

abbrev pub with_same_site : SameSite → Config → Config
with_same_site s c = record c { same_site = s }

abbrev pub with_insecure : Config → Config
with_insecure c = record c { secure = false }

abbrev pub with_ttl : ℤ → Config → Config
with_ttl d c = record c { ttl = d }

abbrev pub with_read_promotion : (Context → Context) → Config → Config
with_read_promotion promote c = record c { promote = some promote }

abbrev pub default_config : Config
default_config = record {
  cookie_name = "_wfence";
  path = "/";
  domain = "";
  same_site = same_site_lax;
  secure = true;
  http_only = true;
  ttl = pos 3_000_000_000;
  promote = none;
}

unfoldable pub apply_options : List (Config → Config) → Config → Config
apply_options [] c = c
apply_options (f ∷ fs) c = apply_options fs (f c)

-- `max(int(cfg.ttl.Seconds()), 1)`
abbrev pub at_least_one : ℤ → ℕ
at_least_one (negsuc n) = 1
at_least_one (pos n) = if ltb n 1 then 1 else n

abbrev pub max_age_seconds : ℤ → ℕ
max_age_seconds ttl = at_least_one (quot ttl 1_000_000_000)

-- `securecookie.SecureCookie` at a time in seconds: the texts it makes, and those it accepts.
pub record Codec : Type 0 where
  pub encode : (now : ℕ) → (name value : String) → Option String
  pub decode : (now : ℕ) → (name value : String) → Option String

-- `http.ResponseWriter`
pub record Writer (W : Type 0) : Type 0 where
  pub set_cookie : Cookie → W → W
  pub write_header : ℕ → W → W
  pub write : String → W → W

-- What a handler does, as far as the middleware sees it: the two hooked calls of the writer, any
-- other use of the writer, and a mark through some context.
pub data Event (W : Type 0) : Type 0 where
  write_header : ℕ → Event W
  write : String → Event W
  unhooked : (W → W) → Event W
  mark : Context → Event W

abbrev pub Handler : Type 0 → Type 0
Handler W = Context → List (Event W) × Outcome (Unit {0})

-- The writer, the flags, and whether the `sync.Once` has fired.
pub record Response (W : Type 0) : Type 0 where
  pub writer : W
  pub flags : Flags
  pub fired : Bool

module _ {W : Type 0} (ops : Writer W) (cfg : Config) (codec : Codec) (now : ℕ) (intent : ℕ) where
  abbrev pub fence_cookie : String → Cookie
  fence_cookie encoded = record {
    name = cfg.cookie_name;
    value = encoded;
    path = cfg.path;
    domain = cfg.domain;
    max_age = max_age_seconds cfg.ttl;
    http_only = cfg.http_only;
    secure = cfg.secure;
    same_site = cfg.same_site;
  }

  abbrev pub add_encoded : Option String → W → W
  add_encoded none w = w
  add_encoded (some encoded) w = ops.set_cookie (fence_cookie encoded) w

  -- The body of the `once.Do`.
  unfoldable pub pin : Bool → W → W
  pin marked w = if marked then add_encoded (codec.encode now cfg.cookie_name "1") w else w

  unfoldable pub set_cookie : Response W → Response W
  set_cookie r =
      if r.fired then r else record r { writer = pin (r.flags.load intent) r.writer; fired = true }

  -- One event of the handler, with the hooks of the wrapped writer.
  unfoldable pub run_event : Event W → Response W → Response W
  run_event (write_header code) r =
      let r' = set_cookie r in record r' { writer = ops.write_header code r'.writer }
  run_event (write p) r = let r' = set_cookie r in record r' { writer = ops.write p r'.writer }
  run_event (unhooked f) r = record r { writer = f r.writer }
  run_event (mark ctx) r = record r { flags = mark_fence_intent ctx r.flags }

  unfoldable pub run_events : List (Event W) → Response W → Response W
  run_events [] r = r
  run_events (e ∷ es) r = run_events es (run_event e r)

  -- The last `setCookie()`, which a panic of the handler skips.
  abbrev pub finish : Outcome (Unit {0}) → Response W → Response W
  finish (returned a e) r = set_cookie r
  finish (panicked v) r = r
  finish exited r = r

-- The request: its context and its cookies.
pub record Request : Type 0 where
  pub context : Context
  pub cookie : String → Option String

module _ (cfg : Config) (codec : Codec) (now : ℕ) where
  abbrev pub promote_by : Option (Context → Context) → Context → Context
  promote_by none ctx = ctx
  promote_by (some promote) ctx = promote ctx

  abbrev pub promote_decoded : Option String → Context → Context
  promote_decoded none ctx = ctx
  promote_decoded (some v) ctx = promote_by cfg.promote ctx

  abbrev pub promote_cookie : Option String → Context → Context
  promote_cookie none ctx = ctx
  promote_cookie (some c) ctx = promote_decoded (codec.decode now cfg.cookie_name c) ctx

  -- The read side.
  unfoldable pub read_context : Request → Context
  read_context r = promote_cookie (r.cookie cfg.cookie_name) r.context

module _ {W : Type 0} (ops : Writer W) where
  -- The handler under the middleware; `arrived` is the time of the read side, `now` of the write side.
  unfoldable pub serve :
      Config
      → Codec
      → (arrived now : ℕ) → Handler W
      → Request
      → W × Flags
      → Response W × Outcome (Unit {0})
  serve cfg codec arrived now next r (w, h) =
      let (h', ctx, intent) = with_fence_intent (read_context cfg codec arrived r) h in
      let (events, o) = next ctx in
      let start : Response W = record { writer = w; flags = h'; fired = false } in
      (finish ops cfg codec now intent o (run_events ops cfg codec now intent events start), o)

  -- `Middleware`: `new_codec key age` is the codec of a key at a maximal age.
  unfoldable pub middleware :
      (new_codec : List ℕ → ℕ → Codec)
      → (hash_key : List ℕ) → List (Config → Config)
      → Outcome
          ((arrived now : ℕ) → Handler W → Request → W × Flags → Response W × Outcome (Unit {0}))
  unfolding apply_options
  middleware new_codec hash_key opts =
      if ltb (length hash_key) 32
      then panicked "stdcrpcwritefence: hashKey must be at least 32 bytes"
      else let cfg = apply_options opts default_config in
        returned (serve cfg (new_codec hash_key (max_age_seconds cfg.ttl))) none
