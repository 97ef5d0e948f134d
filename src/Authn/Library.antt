-- ===== src/Authn/Library.antt =====
-- What fx/stdauthnfx uses of other code: protovalidate, protobuf, jwx and its key cache, base62,
-- base64, `path.Match`, and a fresh hash; byte strings are texts.
use stdgo.Base.{String, Bool, Option, List}
use stdgo.Base.Int.{ℤ}
use stdgo.Go.Context.{Context, Access}
use stdgo.Go.Errors.{GoError, Result}

-- `jwt.ClockFunc(time.Now)`, or one that always tells the same second.
pub data Clock : Type 0 where
  time_now : Clock
  fixed : (unix : ℤ) → Clock

-- `KeySet`, `SigningKey` and `Token` are jwx's; `Cache` is `*jwk.Cache`.
pub record Library (KeySet SigningKey Token Cache : Type 0) : Type 0 where
  pub validate : Access → Option GoError
  pub match_path : (pattern name : String) → Result Bool
  pub hash_write : String → Option GoError
  pub hash_sum : String → String
  pub base62_encode : String → String
  pub base62_decode : String → Result String
  pub base64_encode : String → String
  pub base64_decode : String → Result String
  pub marshal : Access → Result String
  pub unmarshal : String → Result Access
  pub build_token : Result Token
  pub set_claim : Token → (name value : String) → Result Token
  pub get_claim : Token → (name : String) → Result String
  pub subject : Token → Option String
  pub algorithm : SigningKey → Option String
  pub sign : Token → (algorithm : String) → SigningKey → Result String
  pub parse_signed : KeySet → String → Result Token
  pub parse_issued : (audience issuer : String) → Clock → KeySet → String → Result Token
  pub lookup_cache : Cache → Context → (url : String) → Result KeySet
  pub parse_keys : String → Result KeySet
  pub lookup_key : KeySet → (id : String) → Option SigningKey
  pub new_cache : Result Cache
  pub register : Cache → (url : String) → Option GoError

-- `Config`
pub record Config : Type 0 where
  pub signing_key_set_base64 : String
  pub signing_key_id : String
  pub token_validation_jwks_endpoint : String
  pub token_issuer : String
  pub token_audience : String
  pub fixed_wall_clock_timestamp : ℤ
  pub anonymous_access_whitelist : List String

-- `AccessControl`; its validator and its hasher are those of the library.
pub record AccessControl (KeySet SigningKey Cache : Type 0) : Type 0 where
  pub config : Config
  pub signing_key_set : KeySet
  pub signing_key_id : String
  pub signing_key : SigningKey
  pub cache : Cache
  pub clock : Clock
