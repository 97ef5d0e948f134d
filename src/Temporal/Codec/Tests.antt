-- ===== src/Temporal/Codec/Tests.antt =====
-- The theorems of this package at a worker and a codec server of one tenant.
use Prim.Native.String.{◌++◌ as concat}
use stdgo.Base.{
  ℕ, String, true, Option, none, some, List, [], ◌∷◌, ◌≡◌, ◌≢◌, refl, subst, if◌then◌else◌, str_eq,
  eq_iff, contains, arith, inr,
}
use stdgo.Go.Errors.{GoError, Result, ok, err, message}
use stdgo.Temporal.Codec.{Payload, Aead, Protobuf, Codec, encode, decode, with_namespace, new}
use stdgo.Temporal.Codec.Sealing.{
  Marshals, Opens, Authenticates, sealed, decode-encode, decode-encode_foreign,
}
use stdgo.Temporal.Codec.Server.{
  Http, Request, Handler, HandlerOptions, op_encode, op_decode, new_handler,
  strip_cloud_account_suffix, route_operation, read_payloads, write_payloads, serve_http,
}
use stdgo.Temporal.Codec.Serving.{
  Accepts, serve_decode-serve_encode, serve_decode_foreign, new_handler_refuses,
  strip_cloud_account_suffix-append,
}
use stdgo.Temporal.Codec.Keyset.{Tink, load_keyset}
use stdgo.Temporal.Codec.Wiring.{Config, ServerConfig, new_converter, new_server}
use stdgo.Temporal.Codec.EndToEnd.{new_server-new_converter}

data Bytes : Type 0 where
  blank : Bytes
  raw : String → Bytes
  packed : (String → Option String) → Bytes → Bytes
  enciphered : String → Bytes → Bytes

abbrev unpack : Bytes → Result (Payload Bytes)
unpack blank = ok (record { metadata = λ _. none; bytes = blank })
unpack (raw s) = err (message "proto: cannot parse")
unpack (packed md b) = ok (record { metadata = md; bytes = b })
unpack (enciphered ad b) = err (message "proto: cannot parse")

abbrev pack : Option (Payload Bytes) → Result Bytes
pack none = ok blank
pack (some p) = ok (packed p.metadata p.bytes)

abbrev protobuf : Protobuf Bytes
protobuf = record { marshal = pack; unmarshal = unpack }

protobuf-Marshals : Marshals protobuf
protobuf-Marshals p b h =
    let e : packed p.metadata p.bytes ≡ b = cc in subst (λ b. unpack b ≡ ok p) e refl

abbrev decipher : Bytes → String → Result Bytes
decipher (enciphered ad b) ad' =
    if str_eq ad ad' then ok b else err (message "cipher: message authentication failed")
decipher _ ad' = err (message "invalid ciphertext")

abbrev cipher : Aead Bytes
cipher = record { encrypt = λ b ad. ok (enciphered ad b); decrypt = decipher }

cipher-Opens : Opens cipher cipher
cipher-Opens plaintext ciphertext ad h =
    let e : enciphered ad plaintext ≡ ciphertext = cc in
    subst (λ c. decipher c ad ≡ ok plaintext) e (ground (arith, eq_iff ad ad))

cipher-Authenticates : Authenticates cipher cipher
cipher-Authenticates plaintext ciphertext ad ad' h other =
    let e : enciphered ad plaintext ≡ ciphertext = cc in
    (
      message "cipher: message authentication failed",
      subst (λ c. decipher c ad' ≡ err (message "cipher: message authentication failed")) e
          (ground (arith, eq_iff ad ad')),
    )

abbrev hello : Payload Bytes
hello = record {
  metadata = λ key. if str_eq key "encoding" then some "json/plain" else none;
  bytes = raw "hello";
}

abbrev codec : Codec Bytes
codec = record { aead = cipher; namespace = "prod" }

abbrev staging : Codec Bytes
staging = record { aead = cipher; namespace = "staging" }

abbrev ciphertext : Payload Bytes
ciphertext = sealed "prod" (enciphered "namespace=prod" (packed hello.metadata hello.bytes))

codec_encodes : encode protobuf codec (some hello ∷ []) ≡ ok (some ciphertext ∷ [])
unfolding encode
codec_encodes = refl

decode-encode_example : decode protobuf codec (some ciphertext ∷ []) ≡ ok (some hello ∷ [])
decode-encode_example =
    decode-encode protobuf codec codec (hello ∷ []) protobuf-Marshals cipher-Opens refl
      codec_encodes

prod-ne-staging : ◌≢◌ {A = String} "prod" "staging"
prod-ne-staging h = absurd (ground (arith, eq_iff "prod" "staging"))

decode-encode_foreign_example :
    (e : GoError) × (decode protobuf staging (some ciphertext ∷ []) ≡ err e)
decode-encode_foreign_example =
    decode-encode_foreign protobuf codec staging (some hello) [] cipher-Authenticates
      prod-ne-staging codec_encodes

data Response : Type 0 where
  open_response : Response
  failed : String → ℕ → Response
  missing : Response
  sent : List (Option (Payload Bytes)) → Response

abbrev body_of : String → Result (List (Option (Payload Bytes)))
body_of s =
    if str_eq s "plain"
    then ok (some hello ∷ [])
    else if str_eq s "sealed"
    then ok (some ciphertext ∷ [])
    else err (message "syntax error")

abbrev http : Http Bytes String Response
http = record {
  error_text = λ _. "error";
  http_error = λ _ text status. failed text status;
  not_found = λ _. missing;
  set_header = λ w _ _. w;
  encode_json = λ _ ps. (sent ps, none);
  read_all = ok;
  unmarshal_payloads = body_of;
}

abbrev handler : Handler Bytes
handler = record {
  codec = record { aead = cipher; namespace = "_codec_server_seed_" };
  allowed = "prod" ∷ "staging" ∷ [];
  normalize = strip_cloud_account_suffix;
}

abbrev encode_request : Request String
encode_request = record {
  method = "POST";
  path = "/v1/encode";
  x_namespace = "prod.a1b2";
  body = some "plain";
}

abbrev decode_request : String → Request String
decode_request ns = record {
  method = "POST";
  path = "/v1/decode";
  x_namespace = ns;
  body = some "sealed";
}

encode_request-Accepts : Accepts handler encode_request op_encode "prod"
unfolding route_operation strip_cloud_account_suffix contains
encode_request-Accepts = record {
  posts = refl;
  routes = refl;
  names = refl;
  normalizes = refl;
  allows = refl;
}

decode_request-Accepts : Accepts handler (decode_request "prod.a1b2") op_decode "prod"
unfolding route_operation strip_cloud_account_suffix contains
decode_request-Accepts = record {
  posts = refl;
  routes = refl;
  names = refl;
  normalizes = refl;
  allows = refl;
}

staging_request-Accepts : Accepts handler (decode_request "staging.a1b2") op_decode "staging"
unfolding route_operation strip_cloud_account_suffix contains
staging_request-Accepts = record {
  posts = refl;
  routes = refl;
  names = refl;
  normalizes = refl;
  allows = refl;
}

serve_decode-serve_encode_example :
    (serve_http protobuf http handler encode_request open_response ≡ sent (some ciphertext ∷ []))
    × (serve_http protobuf http handler (decode_request "prod.a1b2") open_response
        ≡ sent (some hello ∷ []))
unfolding encode with_namespace read_payloads write_payloads
serve_decode-serve_encode_example =
    serve_decode-serve_encode protobuf http handler encode_request (decode_request "prod.a1b2")
      "prod" open_response open_response (hello ∷ []) protobuf-Marshals cipher-Opens
      encode_request-Accepts refl refl decode_request-Accepts refl

serve_decode_foreign_example :
    (text : String) × (serve_http protobuf http handler
        (decode_request "staging.a1b2")
        open_response
      ≡ failed text 400)
unfolding encode with_namespace read_payloads
serve_decode_foreign_example =
    serve_decode_foreign protobuf http handler (decode_request "staging.a1b2") "prod" "staging"
      open_response (some hello) [] cipher-Authenticates refl prod-ne-staging
      staging_request-Accepts refl

abbrev options : HandlerOptions Bytes
options = record {
  codec = some codec;
  allowed_namespaces = "" ∷ "prod" ∷ [];
  normalize_namespace = some strip_cloud_account_suffix;
}

abbrev built : Handler Bytes
built = record { codec = codec; allowed = "prod" ∷ []; normalize = strip_cloud_account_suffix }

new_handler_refuses_example :
    serve_http protobuf http built (decode_request ".a1b2") open_response
    ≡ serve_http protobuf http
        (record built { codec = staging })
        (decode_request ".a1b2")
        open_response
unfolding new_handler strip_cloud_account_suffix
new_handler_refuses_example =
    new_handler_refuses protobuf protobuf http options built staging (decode_request ".a1b2")
      open_response refl (inr refl)

strip_cloud_account_suffix-append_example :
    (strip_cloud_account_suffix (concat "eu.prod" (concat "." "a1b2")) ≡ "eu.prod")
    × (strip_cloud_account_suffix "a1b2" ≡ "a1b2")
strip_cloud_account_suffix-append_example =
    strip_cloud_account_suffix-append "eu.prod" "a1b2" (omega arith)

-- Key sets by their text; one that is wrapped is read with any KEK.
abbrev tink : Tink String String String String
tink = record {
  decode_base64 = ok;
  read_cleartext = ok;
  read_wrapped = λ raw _. ok raw;
  primary_key_id = λ _. 7;
  load_default_config = ok "ambient";
  new_client = λ _ client. ok client;
  get_aead = λ client _. ok client;
}

abbrev new_aead : String → Result (Aead Bytes)
new_aead _ = ok cipher

abbrev worker : Config
worker = record { enabled = true; keyset = "keys"; keyset_kek_uri = ""; namespace = "prod" }

abbrev server : ServerConfig
server = record {
  enabled = true;
  keyset = "keys";
  keyset_kek_uri = "";
  allowed_namespaces = "prod" ∷ "staging" ∷ [];
  strip_cloud_suffix = true;
}

new_server-new_converter_example :
    serve_http protobuf http handler (decode_request "prod.a1b2") open_response
    ≡ sent (some hello ∷ [])
unfolding new_converter new_server load_keyset new new_handler contains read_payloads write_payloads
    route_operation
new_server-new_converter_example =
    new_server-new_converter tink new_aead protobuf http worker server none none codec handler
      "a1b2" (hello ∷ []) (some ciphertext ∷ []) (decode_request "prod.a1b2") open_response
      protobuf-Marshals cipher-Opens refl refl refl refl (omega arith) codec_encodes refl refl refl
      refl
