-- ===== src/Temporal/Codec.antt =====
-- fx/stdtemporalcodecfx/stdtemporalcodec/codec.go. `B` is the type of byte strings; protobuf and the
-- AEAD primitive of Tink are parameters. A byte slice that the code converts from or to a text is
-- that text; a nil map reads like an empty one, as in Go.
pub mod Sealing
pub mod Server
pub mod Serving
pub mod Keyset
pub mod Wiring
pub mod EndToEnd
mod Tests
use Prim.Native.String.{◌++◌ as concat}
use stdgo.Base.{String, Bool, true, false, Option, none, some, List, [], ◌∷◌, if◌then◌else◌, str_eq}
use stdgo.Go.Errors.{GoError, message, wrap, Result, ok, err}

abbrev pub metadata_encoding_encrypted : String
metadata_encoding_encrypted = "binary/encrypted"

abbrev pub metadata_context_namespace : String
metadata_context_namespace = "encryption-context-namespace"

abbrev pub metadata_encoding_key : String
metadata_encoding_key = "encoding"

-- `commonpb.Payload`
pub record Payload (B : Type 0) : Type 0 where
  pub metadata : String → Option String
  pub bytes : B

-- `tink.AEAD`
pub record Aead (B : Type 0) : Type 0 where
  pub encrypt : (plaintext : B) → (additional : String) → Result B
  pub decrypt : (ciphertext : B) → (additional : String) → Result B

-- `proto.Marshal` and `proto.Unmarshal` at payloads; a pointer to a payload may be nil.
pub record Protobuf (B : Type 0) : Type 0 where
  pub marshal : Option (Payload B) → Result B
  pub unmarshal : B → Result (Payload B)

pub record Codec (B : Type 0) : Type 0 where
  pub aead : Aead B
  pub namespace : String

pub record Options (K : Type 0) : Type 0 where
  pub keyset : Option K
  pub namespace : String

module _ {B K : Type 0} (new_aead : K → Result (Aead B)) where
  abbrev pub with_primitive : String → Result (Aead B) → Result (Codec B)
  with_primitive ns (err e) = err (wrap "stdtemporalcodec: build aead primitive" e)
  with_primitive ns (ok primitive) = ok (record { aead = primitive; namespace = ns })

  abbrev pub new_of : Option K → String → Result (Codec B)
  new_of none ns = err (message "stdtemporalcodec: Options.Keyset is required")
  new_of (some keyset) ns =
      if str_eq ns ""
      then err (message "stdtemporalcodec: Options.Namespace is required")
      else with_primitive ns (new_aead keyset)

  unfoldable pub new : Options K → Result (Codec B)
  new opts = new_of opts.keyset opts.namespace

abbrev pub encoding : (String → Option String) → String
encoding md = elim (md metadata_encoding_key) [ none ↦ "" | some v ↦ v ]

unfoldable pub is_encrypted : {B : Type 0} → Option (Payload B) → Bool
is_encrypted none = false
is_encrypted (some p) = str_eq (encoding p.metadata) metadata_encoding_encrypted

-- The metadata of an encrypted payload.
abbrev pub sealed_metadata : String → String → Option String
sealed_metadata ns key =
    if str_eq key metadata_encoding_key
    then some metadata_encoding_encrypted
    else if str_eq key metadata_context_namespace
    then some ns
    else none

module _ {B : Type 0} where
  unfoldable pub with_namespace : Codec B → String → Codec B
  with_namespace c ns = record c { namespace = ns }

  unfoldable pub aad : Codec B → String
  aad c = concat "namespace=" c.namespace

module _ {B : Type 0} (pb : Protobuf B) where
  abbrev pub seal : Codec B → Result B → Result (Payload B)
  seal c (err e) = err (wrap "aead encrypt" e)
  seal c (ok ciphertext) =
      ok (record { metadata = sealed_metadata c.namespace; bytes = ciphertext })

  abbrev pub encrypt_marshalled : Codec B → Result B → Result (Payload B)
  encrypt_marshalled c (err e) = err (wrap "marshal payload" e)
  encrypt_marshalled c (ok plaintext) = seal c (c.aead.encrypt plaintext (aad c))

  unfoldable pub encode_one : Codec B → Option (Payload B) → Result (Payload B)
  unfolding aad
  encode_one c p = encrypt_marshalled c (pb.marshal p)

  abbrev pub unmarshalled : Result (Payload B) → Result (Payload B)
  unmarshalled (err e) = err (wrap "unmarshal payload" e)
  unmarshalled (ok p) = ok p

  abbrev pub open_plaintext : Result B → Result (Payload B)
  open_plaintext (err e) = err (wrap "aead decrypt" e)
  open_plaintext (ok plaintext) = unmarshalled (pb.unmarshal plaintext)

  unfoldable pub decode_one : Codec B → Payload B → Result (Payload B)
  unfolding aad
  decode_one c p = open_plaintext (c.aead.decrypt p.bytes (aad c))

-- The next payload of a loop that stops at its first error, and the payloads behind it.
abbrev pub collect :
    {P : Type 0} → String → Result P → Result (List (Option P)) → Result (List (Option P))
collect what (err e) rest = err (wrap what e)
collect what (ok p) (err e) = err e
collect what (ok p) (ok ps) = ok (some p ∷ ps)

abbrev pub pass : {P : Type 0} → Option P → Result (List (Option P)) → Result (List (Option P))
pass p (err e) = err e
pass p (ok ps) = ok (p ∷ ps)

module _ {B : Type 0} (pb : Protobuf B) (c : Codec B) where
  unfoldable pub encode : List (Option (Payload B)) → Result (List (Option (Payload B)))
  unfolding encode_one
  encode [] = ok []
  encode (p ∷ ps) = collect "encode payload" (encode_one pb c p) (encode ps)

  -- One round of the loop of `decode`, in front of what the later rounds give.
  unfoldable pub decode_next :
      Option (Payload B) → Result (List (Option (Payload B))) → Result (List (Option (Payload B)))
  unfolding is_encrypted decode_one
  decode_next none rest = pass none rest
  decode_next (some p) rest =
      if is_encrypted (some p)
      then collect "decode payload" (decode_one pb c p) rest
      else pass (some p) rest

  unfoldable pub decode : List (Option (Payload B)) → Result (List (Option (Payload B)))
  unfolding decode_next
  decode [] = ok []
  decode (p ∷ ps) = decode_next p (decode ps)
