-- ===== src/Authn/Startup.antt =====
-- `New` of fx/stdauthnfx/access_control.go.
use stdgo.Base.{◌==◌, if◌then◌else◌}
use stdgo.Base.Int.{ℤ, pos, negsuc}
use stdgo.Go.Results.{wrapping, required, checked, wrap_error, ◌>>=◌}
use stdgo.Go.Errors.{Result, ok}
use stdgo.Authn.Library.{Library, Config, AccessControl, Clock, time_now, fixed}

abbrev pub clock_of : ℤ → Clock
clock_of (pos n) = if n == 0 then time_now else fixed (pos n)
clock_of (negsuc n) = fixed (negsuc n)

module _ {K S T C : Type 0} (lib : Library K S T C) where
  unfoldable pub new : Config → Result (AccessControl K S C)
  new cfg = do
    bytes ← wrapping "decode keyset (base64)" (lib.base64_decode cfg.signing_key_set_base64)
    signing_set ← wrapping "parse keyset" (lib.parse_keys bytes)
    key ←
        required "configured key id not in key set" (lib.lookup_key signing_set cfg.signing_key_id)
    cache ← wrapping "init jwk cache for access tokens" lib.new_cache
    ready ←
        checked
          (wrap_error "register jwk resource"
            (lib.register cache cfg.token_validation_jwks_endpoint))
          (ok cache)
    ok (record {
      config = cfg;
      signing_key_set = signing_set;
      signing_key_id = cfg.signing_key_id;
      signing_key = key;
      cache = ready;
      clock = clock_of cfg.fixed_wall_clock_timestamp;
    })
