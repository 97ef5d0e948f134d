-- ===== src/Temporal/Codec/Sealing.antt =====
-- What the codec promises: payloads come back under their namespace and a key set that opens what
-- the first one sealed, and under no other namespace.
use Prim.Native.String.{◌++◌ as concat}
use stdgo.Base.{String, true, Option, some, List, [], ◌∷◌, ◌≡◌, ◌≢◌, refl, ap, ◌∙◌, map, arith}
use stdgo.Go.Errors.{GoError, wrap, Result, ok, err}
use text.Mathlib.TextLemmas.{append_cancel_left}
use stdgo.Temporal.Codec.{
  seal, encrypt_marshalled, Payload, Aead, Protobuf, Codec, aad, sealed_metadata, is_encrypted,
  encode_one, decode_one, encode, decode, decode_next, collect,
}

-- Documented behaviour of `proto`: what it marshals it reads back.
abbrev pub Marshals : {B : Type 0} → Protobuf B → Type 0
Marshals {B} pb = (p : Payload B) (b : B) → pb.marshal (some p) ≡ ok b → pb.unmarshal b ≡ ok p

-- Documented behaviour of an AEAD: with the same additional data, a key set that holds the key opens
-- the ciphertext.
abbrev pub Opens : {B : Type 0} → (sealer opener : Aead B) → Type 0
Opens {B} sealer opener =
    (plaintext ciphertext : B) (ad : String)
    → sealer.encrypt plaintext ad ≡ ok ciphertext
    → opener.decrypt ciphertext ad ≡ ok plaintext

-- With other additional data no key set opens it.
abbrev pub Authenticates : {B : Type 0} → (sealer opener : Aead B) → Type 0
Authenticates {B} sealer opener =
    (plaintext ciphertext : B) (ad ad' : String)
    → sealer.encrypt plaintext ad ≡ ok ciphertext
    → ad ≢ ad'
    → (e : GoError) × (opener.decrypt ciphertext ad' ≡ err e)

abbrev pub sealed : {B : Type 0} → String → B → Payload B
sealed ns b = record { metadata = sealed_metadata ns; bytes = b }

pub sealed-is_encrypted :
    {B : Type 0} (ns : String) (b : B) → is_encrypted (some (sealed ns b)) ≡ true
unfolding is_encrypted
sealed-is_encrypted ns b = refl

pub collect-eq-ok :
    {P : Type 0} (what : String) (r : Result P) (rest : Result (List (Option P)))
    {out : List (Option P)}
    → collect what r rest ≡ ok out
    → (p : P) × (ps : List (Option P)) × (r ≡ ok p) × (rest ≡ ok ps) × (out ≡ some p ∷ ps)
collect-eq-ok what (err e) rest h = cc
collect-eq-ok what (ok p) (err e) h = cc
collect-eq-ok what (ok p) (ok ps) {out} h = (p, ps, refl, refl, ground arith)

module _ {B : Type 0} (pb : Protobuf B) where
  seal-eq-ok :
      (c : Codec B) (r : Result B) {q : Payload B}
      → seal pb c r ≡ ok q
      → (b : B) × (r ≡ ok b) × (q ≡ sealed c.namespace b)
  seal-eq-ok c (err e) h = cc
  seal-eq-ok c (ok b) h = (b, refl, ground arith)

  encrypt_marshalled-eq-ok :
      (c : Codec B) (r : Result B) {q : Payload B}
      → encrypt_marshalled pb c r ≡ ok q
      → (m : B) × (r ≡ ok m) × (seal pb c (c.aead.encrypt m (aad c)) ≡ ok q)
  encrypt_marshalled-eq-ok c (err e) h = cc
  encrypt_marshalled-eq-ok c (ok m) h = (m, refl, h)

  -- What an encoded payload holds.
  pub encode_one-eq-ok :
      (c : Codec B) (p : Option (Payload B)) {q : Payload B}
      → encode_one pb c p ≡ ok q
      → (m : B) × (b : B) × (pb.marshal p ≡ ok m)
        × (c.aead.encrypt m (aad c) ≡ ok b)
        × (q ≡ sealed c.namespace b)
  unfolding encode_one
  encode_one-eq-ok c p h =
      let (m, marshalled, sealing) = encrypt_marshalled-eq-ok c (pb.marshal p) h in
      let (b, encrypted, shape) = seal-eq-ok c (c.aead.encrypt m (aad c)) sealing in
      (m, b, marshalled, encrypted, shape)

  module _ (c d : Codec B) (opens : Opens c.aead d.aead) (marshals : Marshals pb)
      (same : c.namespace ≡ d.namespace) where
    decode_one-encode_one :
        (p q : Payload B) → encode_one pb c (some p) ≡ ok q → decode_one pb d q ≡ ok p
    unfolding decode_one aad
    decode_one-encode_one p q h =
        let (m, b, marshalled, encrypted, shape) = encode_one-eq-ok c (some p) h in
        let opened = opens m b (concat "namespace=" c.namespace) encrypted in
        rw (shape, ← same, opened, marshals p m marshalled) refl

    decode_next-encode_one :
        (p q : Payload B) (rest : Result (List (Option (Payload B))))
        → encode_one pb c (some p) ≡ ok q
        → decode_next pb d (some q) rest ≡ collect "decode payload" (ok p) rest
    unfolding decode_next
    decode_next-encode_one p q rest h =
        let (m, b, _, _, shape) = encode_one-eq-ok c (some p) h in
        let tagged = ap (λ q. is_encrypted (some q)) shape ∙ sealed-is_encrypted c.namespace b in
        rw (tagged, decode_one-encode_one p q h) refl

    decode_encoded :
        (ps : List (Payload B)) {qs : List (Option (Payload B))}
        → encode pb c (map some ps) ≡ ok qs
        → decode pb d qs ≡ ok (map some ps)
    unfolding encode decode
    decode_encoded [] {qs} h = let shape : qs ≡ [] = cc in rw shape refl
    decode_encoded (p ∷ ps) h =
        let (q, rest, one, more, shape) =
          collect-eq-ok "encode payload" (encode_one pb c (some p)) (encode pb c (map some ps)) h in
        rw (shape, decode_next-encode_one p q (decode pb d rest) one, decode_encoded ps more) refl

  module _ (c d : Codec B) (authenticates : Authenticates c.aead d.aead)
      (other : c.namespace ≢ d.namespace) where
    decode_one-foreign :
        (p : Option (Payload B)) (q : Payload B)
        → encode_one pb c p ≡ ok q
        → (e : GoError) × (decode_one pb d q ≡ err e)
    unfolding decode_one aad
    decode_one-foreign p q h =
        let (m, b, _, encrypted, shape) = encode_one-eq-ok c p h in
        let (e, refused) =
          authenticates m b (aad c) (aad d) encrypted
            (λ same. other (append_cancel_left "namespace=" c.namespace d.namespace same)) in
        (wrap "aead decrypt" e, rw (shape, refused) refl)

    decode_foreign :
        (p : Option (Payload B)) (ps : List (Option (Payload B))) {qs : List (Option (Payload B))}
        → encode pb c (p ∷ ps) ≡ ok qs
        → (e : GoError) × (decode pb d qs ≡ err e)
    unfolding encode decode decode_next
    decode_foreign p ps h =
        let (q, rest, one, more, shape) =
          collect-eq-ok "encode payload" (encode_one pb c p) (encode pb c ps) h in
        let (e, refused) = decode_one-foreign p q one in
        let (m, b, _, _, tag) = encode_one-eq-ok c p one in
        let tagged = ap (λ q. is_encrypted (some q)) tag ∙ sealed-is_encrypted c.namespace b in
        (wrap "decode payload" e, rw (shape, tagged, refused) refl)

-- What a codec encodes, every codec of the same namespace whose key set opens what the first one
-- seals decodes to the same payloads, none of them nil, in the same order, when protobuf reads back
-- what it marshals.
pub decode-encode :
    {B : Type 0} (pb : Protobuf B) (c d : Codec B) (ps : List (Payload B))
    {qs : List (Option (Payload B))}
    → Marshals pb
    → Opens c.aead d.aead
    → c.namespace ≡ d.namespace
    → encode pb c (map some ps) ≡ ok qs
    → decode pb d qs ≡ ok (map some ps)
decode-encode pb c d ps marshals opens same h = decode_encoded pb c d opens marshals same ps h

-- What a codec encodes, at least one payload, a codec of another namespace refuses to decode, when
-- the AEAD authenticates its additional data.
pub decode-encode_foreign :
    {B : Type 0} (pb : Protobuf B) (c d : Codec B) (p : Option (Payload B))
    (ps : List (Option (Payload B))) {qs : List (Option (Payload B))}
    → Authenticates c.aead d.aead
    → c.namespace ≢ d.namespace
    → encode pb c (p ∷ ps) ≡ ok qs
    → (e : GoError) × (decode pb d qs ≡ err e)
decode-encode_foreign pb c d p ps auth other h = decode_foreign pb c d auth other p ps h
