-- ===== src/Temporal/Codec/Server.antt =====
-- fx/stdtemporalcodecfx/stdtemporalcodec/server.go. The response writer and the two JSON codecs are
-- parameters.
use Prim.Native.Char.{code}
use stdgo.Base.{
  ℕ, ◌==◌, String, Bool, true, Option, none, some, List, [], ◌∷◌, if◌then◌else◌, str_eq, contains,
}
use stdgo.Go.Errors.{GoError, message, wrap, Result, ok, err}
use stdgo.Temporal.Codec.{Payload, Protobuf, Codec, with_namespace, encode, decode}

-- `ns[:i]` at the last dot, where there is one.
unfoldable pub before_last_dot : String → Option String
before_last_dot String.[] = none
before_last_dot (String.◌∷◌ c s) = elim (before_last_dot s) [
  | some kept ↦ some (String.◌∷◌ c kept)
  | none ↦ if code c == 46 then some "" else none
]

abbrev pub or_else : String → Option String → String
or_else s none = s
or_else s (some t) = t

unfoldable pub strip_cloud_account_suffix : String → String
unfolding before_last_dot
strip_cloud_account_suffix ns = or_else ns (before_last_dot ns)

-- `strings.HasSuffix`
unfoldable pub has_suffix : String → String → Bool
has_suffix String.[] suffix = str_eq "" suffix
has_suffix (String.◌∷◌ c s) suffix =
    let later = has_suffix s suffix in if str_eq (String.◌∷◌ c s) suffix then true else later

pub data Op : Type 0 where
  op_encode op_decode : Op

unfoldable pub route_operation : String → Option Op
unfolding has_suffix
route_operation path =
    if has_suffix path "/encode"
    then some op_encode
    else if has_suffix path "/decode"
    then some op_decode
    else none

-- An error's text, the response writer `W` with its body's type `D`, and the decoding of a body.
pub record Http (B D W : Type 0) : Type 0 where
  pub error_text : GoError → String
  pub http_error : W → (text : String) → (status : ℕ) → W
  pub not_found : W → W
  pub set_header : W → (name value : String) → W
  pub encode_json : W → List (Option (Payload B)) → W × Option GoError
  pub read_all : D → Result String
  pub unmarshal_payloads : String → Result (List (Option (Payload B)))

pub record Request (D : Type 0) : Type 0 where
  pub method : String
  pub path : String
  pub x_namespace : String
  pub body : Option D

pub record HandlerOptions (B : Type 0) : Type 0 where
  pub codec : Option (Codec B)
  pub allowed_namespaces : List String
  pub normalize_namespace : Option (String → String)

pub record Handler (B : Type 0) : Type 0 where
  pub codec : Codec B
  pub allowed : List String
  pub normalize : String → String

-- The keys of the map that the loop builds.
unfoldable pub allowed_set : List String → List String
allowed_set [] = []
allowed_set (ns ∷ l) = let rest = allowed_set l in if str_eq ns "" then rest else ns ∷ rest

abbrev pub normalizer : Option (String → String) → String → String
normalizer none = λ s. s
normalizer (some f) = f

abbrev pub handler_of : {B : Type 0} → Option (Codec B) → HandlerOptions B → Result (Handler B)
handler_of none opts = err (message "stdtemporalcodec: HandlerOptions.Codec is required")
handler_of (some c) opts = ok (record {
  codec = c;
  allowed = allowed_set opts.allowed_namespaces;
  normalize = normalizer opts.normalize_namespace;
})

-- `Handler`
unfoldable pub new_handler : {B : Type 0} → HandlerOptions B → Result (Handler B)
unfolding allowed_set
new_handler opts = handler_of opts.codec opts

module _ {B D W : Type 0} (pb : Protobuf B) (http : Http B D W) where
  abbrev pub unmarshal_body : Result String → Result (List (Option (Payload B)))
  unmarshal_body (err e) = err (wrap "read body" e)
  unmarshal_body (ok bs) = elim (http.unmarshal_payloads bs) [
    | err e ↦ err (wrap "unmarshal payloads" e)
    | ok ps ↦ ok ps
  ]

  unfoldable pub read_payloads : Option D → Result (List (Option (Payload B)))
  read_payloads none = err (message "empty request body")
  read_payloads (some body) = unmarshal_body (http.read_all body)

  unfoldable pub write_payloads : W → List (Option (Payload B)) → W × Option GoError
  write_payloads w ps = http.encode_json (http.set_header w "Content-Type" "application/json") ps

  abbrev pub written : W × Option GoError → W
  written (w, none) = w
  written (w, some e) = http.http_error w (http.error_text e) 500

  abbrev pub respond : W → Result (List (Option (Payload B))) → W
  respond w (err e) = http.http_error w (http.error_text e) 400
  respond w (ok out) = written (write_payloads w out)

  abbrev pub operate : Op → Codec B → List (Option (Payload B)) → Result (List (Option (Payload B)))
  operate op_encode codec payloads = encode pb codec payloads
  operate op_decode codec payloads = decode pb codec payloads

  abbrev pub serve_payloads :
      Handler B → Op → (namespace : String) → W → Result (List (Option (Payload B))) → W
  serve_payloads h op ns w (err e) = http.http_error w (http.error_text e) 400
  serve_payloads h op ns w (ok payloads) =
      respond w (operate op (with_namespace h.codec ns) payloads)

  abbrev pub serve_namespace : Handler B → Request D → Op → (namespace : String) → W → W
  serve_namespace h r op ns w =
      if contains h.allowed ns
      then serve_payloads h op ns w (read_payloads r.body)
      else http.http_error w "namespace is not permitted" 403

  abbrev pub serve_operation : Handler B → Request D → Option Op → W → W
  serve_operation h r none w = http.not_found w
  serve_operation h r (some op) w =
      if str_eq r.x_namespace ""
      then http.http_error w "missing X-Namespace header" 400
      else serve_namespace h r op (h.normalize r.x_namespace) w

  unfoldable pub serve_http : Handler B → Request D → W → W
  unfolding route_operation with_namespace read_payloads write_payloads
  serve_http h r w =
      if str_eq r.method "POST"
      then serve_operation h r (route_operation r.path) w
      else http.http_error w "Method Not Allowed" 405
