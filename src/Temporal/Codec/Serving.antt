-- ===== src/Temporal/Codec/Serving.antt =====
-- What the codec server does with requests in a row, which requests never reach the codec, and which
-- namespace a name of Temporal Cloud stands for.
use Prim.Native.Char.{code}
use Prim.Native.String.{◌++◌ as concat}
use text.Mathlib.TextLemmas.{nil-append, cons-append}
use stdgo.Base.{
  String, true, false, Option, none, some, List, [], ◌∷◌, ◌≡◌, ◌≢◌, ◌⊎◌, inl, inr, refl, ap, ◌∙◌,
  map, if◌then◌else◌, str_eq, eq_iff, contains, arith,
}
use stdgo.Go.Errors.{ok}
use stdgo.Temporal.Codec.{Payload, Protobuf, Codec, encode, with_namespace}
use stdgo.Temporal.Codec.Sealing.{
  Marshals, Opens, Authenticates, decode-encode, decode-encode_foreign,
}
use stdgo.Temporal.Codec.Server.{
  Http, Request, Handler, HandlerOptions, Op, op_encode, op_decode, allowed_set, new_handler,
  handler_of, or_else, before_last_dot, strip_cloud_account_suffix, route_operation, read_payloads,
  write_payloads, written, serve_payloads, serve_operation, serve_http,
}

-- The request passes every guard and asks for this operation in this namespace.
pub record Accepts {B D : Type 0} (h : Handler B) (r : Request D) (op : Op) (ns : String)
    : Type 0 where
  pub posts : str_eq r.method "POST" ≡ true
  pub routes : route_operation r.path ≡ some op
  pub names : str_eq r.x_namespace "" ≡ false
  pub normalizes : h.normalize r.x_namespace ≡ ns
  pub allows : contains h.allowed ns ≡ true

module _ {B D W : Type 0} (pb : Protobuf B) (http : Http B D W) where
  pub serve-Accepts :
      (h : Handler B) (r : Request D) (op : Op) (ns : String) (w : W)
      → Accepts h r op ns
      → serve_http pb http h r w ≡ serve_payloads pb http h op ns w (read_payloads pb http r.body)
  unfolding serve_http
  serve-Accepts h r op ns w a = rw (a.posts, a.routes, a.names, a.normalizes, a.allows) refl

  -- When the server encodes payloads, none of them nil, for an accepted request and a later
  -- accepted request of the same namespace brings these back to decode, the first response is the
  -- encoded payloads and the second one the payloads themselves, when protobuf reads back what it
  -- marshals and the AEAD opens what it seals.
  pub serve_decode-serve_encode :
      (h : Handler B) (r r' : Request D) (ns : String) (w w' : W) (ps : List (Payload B))
      {qs : List (Option (Payload B))}
      → Marshals pb
      → Opens h.codec.aead h.codec.aead
      → Accepts h r op_encode ns
      → read_payloads pb http r.body ≡ ok (map some ps)
      → encode pb (with_namespace h.codec ns) (map some ps) ≡ ok qs
      → Accepts h r' op_decode ns
      → read_payloads pb http r'.body ≡ ok qs
      → (serve_http pb http h r w ≡ written pb http (write_payloads pb http w qs))
        × (serve_http pb http h r' w' ≡ written pb http (write_payloads pb http w' (map some ps)))
  unfolding with_namespace
  serve_decode-serve_encode h r r' ns w w' ps marshals opens a reads encoded a' reads' =
      let c = with_namespace h.codec ns in
      let decoded = decode-encode pb c c ps marshals opens refl encoded in
      (
        serve-Accepts h r op_encode ns w a ∙ rw (reads, encoded) refl,
        serve-Accepts h r' op_decode ns w' a' ∙ rw (reads', decoded) refl,
      )

  -- What was encoded for one namespace is refused with status 400 in another.
  pub serve_decode_foreign :
      (h : Handler B) (r' : Request D) (ns ns' : String) (w' : W) (p : Option (Payload B))
      (ps : List (Option (Payload B))) {qs : List (Option (Payload B))}
      → Authenticates h.codec.aead h.codec.aead
      → encode pb (with_namespace h.codec ns) (p ∷ ps) ≡ ok qs
      → ns ≢ ns'
      → Accepts h r' op_decode ns'
      → read_payloads pb http r'.body ≡ ok qs
      → (text : String) × (serve_http pb http h r' w' ≡ http.http_error w' text 400)
  unfolding with_namespace
  serve_decode_foreign h r' ns ns' w' p ps auth encoded other a' reads' =
      let (e, refused) =
        decode-encode_foreign pb (with_namespace h.codec ns) (with_namespace h.codec ns') p ps auth
          other encoded in
      (http.error_text e, serve-Accepts h r' op_decode ns' w' a' ∙ rw (reads', refused) refl)

contains-allowed_set :
    (l : List String) (ns : String)
    → (contains l ns ≡ false) ⊎ (ns ≡ "")
    → contains (allowed_set l) ns ≡ false
unfolding contains allowed_set
contains-allowed_set [] ns h = refl
contains-allowed_set (x ∷ l) ns (inl absent) =
    ground (arith, contains-allowed_set l ns (inl (ground arith)))
contains-allowed_set (x ∷ l) ns (inr blank) =
    ground (arith, contains-allowed_set l ns (inr blank), eq_iff x "", eq_iff x ns)

handler_of-eq-ok :
    {B : Type 0} (c : Option (Codec B)) (opts : HandlerOptions B) {h : Handler B}
    → handler_of c opts ≡ ok h
    → h.allowed ≡ allowed_set opts.allowed_namespaces
handler_of-eq-ok none opts h = cc
handler_of-eq-ok (some c) opts h = ground arith

-- A namespace that a handler of these options does not serve.
abbrev pub IsRefused : {B : Type 0} → HandlerOptions B → String → Type 0
IsRefused opts ns = (contains opts.allowed_namespaces ns ≡ false) ⊎ (ns ≡ "")

-- A handler answers a request whose normalized namespace is blank or was not allowed in its options
-- without its codec: the response is the same with any other codec and any other protobuf library.
pub new_handler_refuses :
    {B D W : Type 0} (pb pb' : Protobuf B) (http : Http B D W) (opts : HandlerOptions B)
    (h : Handler B) (c' : Codec B) (r : Request D) (w : W)
    → new_handler opts ≡ ok h
    → IsRefused opts (h.normalize r.x_namespace)
    → serve_http pb http h r w ≡ serve_http pb' http (record h { codec = c' }) r w
unfolding new_handler serve_http
new_handler_refuses pb pb' http opts h c' r w built refused =
    let absent =
      ap (λ l. contains l (h.normalize r.x_namespace)) (handler_of-eq-ok opts.codec opts built)
      ∙ contains-allowed_set opts.allowed_namespaces (h.normalize r.x_namespace) refused in
    elim (route_operation r.path)
      as (λ o.
        (if str_eq r.method "POST"
          then serve_operation pb http h r o w
          else http.http_error w "Method Not Allowed" 405)
        ≡ (if str_eq r.method "POST"
            then serve_operation pb' http (record h { codec = c' }) r o w
            else http.http_error w "Method Not Allowed" 405)) [
              | none ↦ refl
              | some op ↦ rw absent refl
            ]

abbrev pub NoDot : String → Type 0
NoDot String.[] = Unit
NoDot (String.◌∷◌ c s) = (code c ≢ 46) × NoDot s

before_last_dot-NoDot : (s : String) → NoDot s → before_last_dot s ≡ none
unfolding before_last_dot
before_last_dot-NoDot String.[] h = refl
before_last_dot-NoDot (String.◌∷◌ c s) h = ground (arith, before_last_dot-NoDot s h.1)

before_last_dot-append :
    (name t : String) → before_last_dot t ≡ some "" → before_last_dot (concat name t) ≡ some name
unfolding before_last_dot
before_last_dot-append String.[] t h = rw nil-append h
before_last_dot-append (String.◌∷◌ c s) t h =
    rw cons-append (ground (arith, before_last_dot-append s t h))

-- Behind a name, a dot and an account without a dot are cut off.
pub strip_cloud_account_suffix-append :
    (name account : String)
    → NoDot account
    → (strip_cloud_account_suffix (concat name (concat "." account)) ≡ name)
      × (strip_cloud_account_suffix account ≡ account)
unfolding strip_cloud_account_suffix before_last_dot
strip_cloud_account_suffix-append name account h =
    let bare = before_last_dot-NoDot account h in
    let dotted : before_last_dot (concat "." account) ≡ some "" =
      rw (cons-append, nil-append) (ground (arith, bare)) in
    (
      ap (or_else (concat name (concat "." account)))
          (before_last_dot-append name (concat "." account) dotted),
      ap (or_else account) bare,
    )
