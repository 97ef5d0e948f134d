-- ===== src/Temporal/Codec/Wiring.antt =====
-- fx/stdtemporalcodecfx/fx.go: the data converter of a worker or a client, and the codec server.
use stdgo.Base.{String, Bool, true, false, Option, none, some, List, if◌then◌else◌, str_eq}
use stdgo.Go.Results.{◌>>=◌}
use stdgo.Go.Errors.{Result, ok, err, message}
use stdgo.Temporal.Codec.{Aead, Codec, new}
use stdgo.Temporal.Codec.Server.{HandlerOptions, Handler, new_handler, strip_cloud_account_suffix}
use stdgo.Temporal.Codec.Keyset.{Tink, load_keyset}

pub record Config : Type 0 where
  pub enabled : Bool
  pub keyset : String
  pub keyset_kek_uri : String
  pub namespace : String

pub record ServerConfig : Type 0 where
  pub enabled : Bool
  pub keyset : String
  pub keyset_kek_uri : String
  pub allowed_namespaces : List String
  pub strip_cloud_suffix : Bool

-- The SDK's default converter, by itself or in front of a codec.
pub data DataConverter (B : Type 0) : Type 0 where
  default_converter : DataConverter B
  codec_converter : Codec B → DataConverter B

-- `http.NotFoundHandler()`, or the codec's handler.
pub data HttpHandler (B : Type 0) : Type 0 where
  not_found_handler : HttpHandler B
  codec_handler : Handler B → HttpHandler B

abbrev pub seed_namespace : String
seed_namespace = "_codec_server_seed_"

-- The normalizer of the server's configuration.
abbrev pub normalize_option : Bool → Option (String → String)
normalize_option true = some strip_cloud_account_suffix
normalize_option false = none

module _ {B K A C R : Type 0} (tink : Tink K A C R) (new_aead : K → Result (Aead B)) where
  abbrev pub codec_of : (keyset uri : String) → Option C → (namespace : String) → Result (Codec B)
  codec_of keyset uri kms ns = do
    handle ← load_keyset tink keyset uri kms
    new new_aead (record { keyset = some handle; namespace = ns })

  abbrev pub converter_of : Config → Option C → Result (DataConverter B)
  converter_of cfg kms = do
    codec ← codec_of cfg.keyset cfg.keyset_kek_uri kms cfg.namespace
    ok (codec_converter codec)

  unfoldable pub new_converter : Config → Option C → Result (DataConverter B)
  new_converter cfg kms =
      if cfg.enabled
      then if str_eq cfg.namespace ""
        then err (message "stdtemporalcodecfx: Config.Namespace is required when Enabled is true")
        else converter_of cfg kms
      else ok default_converter

  abbrev pub handler_options : ServerConfig → Codec B → HandlerOptions B
  handler_options cfg codec = record {
    codec = some codec;
    allowed_namespaces = cfg.allowed_namespaces;
    normalize_namespace = normalize_option cfg.strip_cloud_suffix;
  }

  abbrev pub server_of : ServerConfig → Option C → Result (HttpHandler B)
  server_of cfg kms = do
    codec ← codec_of cfg.keyset cfg.keyset_kek_uri kms seed_namespace
    handler ← new_handler (handler_options cfg codec)
    ok (codec_handler handler)

  unfoldable pub new_server : ServerConfig → Option C → Result (HttpHandler B)
  new_server cfg kms = if cfg.enabled then server_of cfg kms else ok not_found_handler
