-- ===== src/Temporal/Codec/Keyset.antt =====
-- fx/stdtemporalcodecfx/keyset.go and fx.go. Base64, Tink's key sets, AWS and its KMS are parameters;
-- a reader over the decoded bytes is taken as those bytes.
use stdgo.Base.{ℕ, ◌==◌, String, Option, none, some, if◌then◌else◌, str_eq}
use stdgo.Go.Strings.{has_prefix}
use stdgo.Go.Results.{wrapping, ◌>>=◌}
use stdgo.Go.Errors.{message, Result, ok, err}

-- `K` is the type of key sets, `A` of the AEADs that wrap them, `C` of KMS clients, `R` of the AWS
-- configuration's clients.
pub record Tink (K A C R : Type 0) : Type 0 where
  pub decode_base64 : String → Result String
  pub read_cleartext : String → Result K
  pub read_wrapped : String → A → Result K
  pub primary_key_id : K → ℕ
  pub load_default_config : Result C
  pub new_client : (uri : String) → C → Result R
  pub get_aead : R → (uri : String) → Result A

abbrev pub aws_kms_uri_prefix : String
aws_kms_uri_prefix = "aws-kms://"

module _ {K A C R : Type 0} (tink : Tink K A C R) where
  abbrev pub client_or_default : Option C → Result C
  client_or_default (some client) = ok client
  client_or_default none =
      wrapping "stdtemporalcodecfx: load aws config for kms" tink.load_default_config

  unfoldable pub aws_kek_aead : String → Option C → Result A
  aws_kek_aead uri kms = do
    client ← client_or_default kms
    kek ← wrapping "stdtemporalcodecfx: build aws kms client" (tink.new_client uri client)
    wrapping "stdtemporalcodecfx: get aws kms aead" (tink.get_aead kek uri)

  abbrev pub unwrap_keyset : String → String → Option C → Result K
  unwrap_keyset raw uri kms = do
    kek ← aws_kek_aead uri kms
    wrapping "stdtemporalcodecfx: unwrap tink keyset with aws kms" (tink.read_wrapped raw kek)

  -- The switch on the KEK's URI.
  abbrev pub read_keyset : String → String → Option C → Result K
  read_keyset raw uri kms =
      if str_eq uri ""
      then wrapping "stdtemporalcodecfx: read cleartext tink keyset" (tink.read_cleartext raw)
      else if has_prefix uri aws_kms_uri_prefix
      then unwrap_keyset raw uri kms
      else err (message "stdtemporalcodecfx: unsupported KEK URI scheme")

  abbrev pub with_primary : K → Result K
  with_primary handle =
      if tink.primary_key_id handle == 0
      then err (message "stdtemporalcodecfx: tink keyset has no primary key")
      else ok handle

  abbrev pub load_decoded : String → String → Option C → Result K
  load_decoded encoded uri kms = do
    raw ← wrapping "stdtemporalcodecfx: decode base64 keyset" (tink.decode_base64 encoded)
    handle ← read_keyset raw uri kms
    with_primary handle

  unfoldable pub load_keyset : String → String → Option C → Result K
  unfolding aws_kek_aead has_prefix
  load_keyset encoded uri kms =
      if str_eq encoded ""
      then err (message "stdtemporalcodecfx: keyset is required")
      else load_decoded encoded uri kms
