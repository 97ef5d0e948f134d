-- ===== src/Temporal/Codec/EndToEnd.antt =====
-- From a worker's configuration to the answer of a codec server, and what a loaded key set is.
use Prim.Native.String.{◌++◌ as concat}
use stdgo.Base.{
  String, true, false, Option, some, List, [], ◌∷◌, ◌≡◌, refl, sym, ap, ◌∙◌, map, str_eq, eq_iff,
  contains, arith,
}
use stdgo.Go.Strings.{append_named}
use stdgo.Go.Results.{bind-eq-ok, unless-eq-ok, when-eq-ok}
use stdgo.Go.Errors.{Result, ok, err}
use stdgo.Temporal.Codec.{
  Payload, Aead, Protobuf, Codec, new, with_primitive, encode, with_namespace,
}
use stdgo.Temporal.Codec.Sealing.{Marshals, Opens, decode-encode}
use stdgo.Temporal.Codec.Server.{
  Http, Request, Handler, op_decode, allowed_set, normalizer, new_handler,
  strip_cloud_account_suffix, route_operation, read_payloads, write_payloads, written, serve_http,
}
use stdgo.Temporal.Codec.Serving.{Accepts, serve-Accepts, NoDot, strip_cloud_account_suffix-append}
use stdgo.Temporal.Codec.Keyset.{Tink, load_keyset}
use stdgo.Temporal.Codec.Wiring.{
  Config, ServerConfig, codec_converter, codec_handler, codec_of, converter_of, new_converter,
  server_of, new_server, seed_namespace, normalize_option,
}

module _ {B K A C R : Type 0} (tink : Tink K A C R) (new_aead : K → Result (Aead B)) where
  with_primitive-eq-ok :
      (ns : String) (r : Result (Aead B)) {c : Codec B}
      → with_primitive new_aead ns r ≡ ok c
      → c.namespace ≡ ns
  with_primitive-eq-ok ns (err e) h = cc
  with_primitive-eq-ok ns (ok primitive) h = ground arith

  codec_of-namespace :
      (keyset uri : String) (kms : Option C) (ns : String) {c : Codec B}
      → codec_of tink new_aead keyset uri kms ns ≡ ok c
      → c.namespace ≡ ns
  unfolding new
  codec_of-namespace keyset uri kms ns h =
      let (handle, _, made) = bind-eq-ok (load_keyset tink keyset uri kms) _ h in
      let (_, built) =
        unless-eq-ok (str_eq ns "") _ (with_primitive new_aead ns (new_aead handle)) made in
      with_primitive-eq-ok ns (new_aead handle) built

  new_converter-codec :
      (cfg : Config) (kms : Option C) {c : Codec B}
      → new_converter tink new_aead cfg kms ≡ ok (codec_converter c)
      → (c.namespace ≡ cfg.namespace) × (str_eq cfg.namespace "" ≡ false)
  unfolding new_converter
  new_converter-codec cfg kms {c} h =
      let (_, guarded) = when-eq-ok cfg.enabled _ _ h (cc) in
      let (named, converts) =
        unless-eq-ok (str_eq cfg.namespace "") _ (converter_of tink new_aead cfg kms) guarded in
      let (codec, builds, same) =
        bind-eq-ok (codec_of tink new_aead cfg.keyset cfg.keyset_kek_uri kms cfg.namespace) _
          converts in
      let e : codec ≡ c = cc in
      (
        ap (λ (c : Codec B). c.namespace) (sym e)
            ∙ codec_of-namespace cfg.keyset cfg.keyset_kek_uri kms cfg.namespace builds,
        named,
      )

  new_server-handler :
      (cfg : ServerConfig) (kms : Option C) {h : Handler B}
      → new_server tink new_aead cfg kms ≡ ok (codec_handler h)
      → cfg.strip_cloud_suffix ≡ true
      → (h.allowed ≡ allowed_set cfg.allowed_namespaces)
        × (h.normalize ≡ strip_cloud_account_suffix)
  unfolding new_server new_handler
  new_server-handler cfg kms {h} built strips =
      let (_, serves) = when-eq-ok cfg.enabled (server_of tink new_aead cfg kms) _ built (cc) in
      let (codec, _, handles) =
        bind-eq-ok (codec_of tink new_aead cfg.keyset cfg.keyset_kek_uri kms seed_namespace) _
          serves in
      let e : ◌≡◌ {A = Handler B}
          (record {
            codec = codec;
            allowed = allowed_set cfg.allowed_namespaces;
            normalize = normalizer (normalize_option cfg.strip_cloud_suffix);
          })
          h =
        cc in
      (
        ap (λ (h : Handler B). h.allowed) (sym e),
        ap (λ (h : Handler B). h.normalize) (sym e)
            ∙ ap (λ b. normalizer (normalize_option b)) strips,
      )

contains-allowed_set_named :
    (l : List String) (ns : String)
    → contains l ns ≡ true
    → str_eq ns "" ≡ false
    → contains (allowed_set l) ns ≡ true
unfolding contains allowed_set
contains-allowed_set_named [] ns h named = cc
contains-allowed_set_named (x ∷ l) ns h named =
    ground (arith, contains-allowed_set_named l ns, eq_iff x "", eq_iff x ns, eq_iff ns "")

-- A codec server that strips account suffixes and allows the namespace of a worker answers a POST
-- request to decode what the worker's codec encoded, sent with that namespace, a dot and an account
-- without a dot, by the worker's payloads, none of them nil, when its key set opens what the
-- worker's seals and protobuf reads back what it marshals.
pub new_server-new_converter :
    {B K A C R D W : Type 0} (tink : Tink K A C R) (new_aead : K → Result (Aead B))
    (pb : Protobuf B) (http : Http B D W) (worker : Config) (server : ServerConfig)
    (kms kms' : Option C) (c : Codec B) (h : Handler B) (account : String) (ps : List (Payload B))
    (qs : List (Option (Payload B))) (r : Request D) (w : W)
    → Marshals pb
    → Opens c.aead h.codec.aead
    → new_converter tink new_aead worker kms ≡ ok (codec_converter c)
    → new_server tink new_aead server kms' ≡ ok (codec_handler h)
    → server.strip_cloud_suffix ≡ true
    → contains server.allowed_namespaces worker.namespace ≡ true
    → NoDot account
    → encode pb c (map some ps) ≡ ok qs
    → str_eq r.method "POST" ≡ true
    → route_operation r.path ≡ some op_decode
    → r.x_namespace ≡ concat worker.namespace (concat "." account)
    → read_payloads pb http r.body ≡ ok qs
    → serve_http pb http h r w ≡ written pb http (write_payloads pb http w (map some ps))
unfolding with_namespace
new_server-new_converter tink new_aead pb http worker server kms kms' c h account ps qs r w marshals
      opens made built strips listed dotless encoded posts routes names reads =
    let (scoped, named) = new_converter-codec tink new_aead worker kms made in
    let (allowed, normal) = new_server-handler tink new_aead server kms' built strips in
    let stripped = (strip_cloud_account_suffix-append worker.namespace account dotless).0 in
    let accepts : Accepts h r op_decode worker.namespace = record {
      posts = posts;
      routes = routes;
      names =
          ap (λ s. str_eq s "") names ∙ append_named worker.namespace (concat "." account) named;
      normalizes = rw (normal, names) stripped;
      allows =
          ap (λ l. contains l worker.namespace) allowed
          ∙ contains-allowed_set_named server.allowed_namespaces worker.namespace listed named;
    } in
    let decoded =
      decode-encode pb c (with_namespace h.codec worker.namespace) ps marshals opens scoped
        encoded in
    serve-Accepts pb http h r op_decode worker.namespace w accepts ∙ rw (reads, decoded) refl
