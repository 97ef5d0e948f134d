-- ===== src/Stdent/TypeId/Normalise.antt =====
-- Normalising the composite literal of a typeid.
use Prim.Native.Char.{Char, code}
use Prim.Native.String.{◌++◌ as concat}
use text.Mathlib.TextLemmas.{nil-append, cons-append, append_assoc}
use stdgo.Base.{
  ℕ, ◌==◌, String, false, some, List, ◌≡◌, ◌≢◌, refl, ap, sym, ◌∙◌, arith, Bool-cases, inl, inr,
  str_eq, eq_iff, length, All, ◌<◌,
}
use stdgo.Go.Errors.{Result, ok}
use stdgo.Stdent.TypeId.{
  set_bytes, cut_paren, cut_comma, of_parts, of_body, encode_uuid_base32, normalise,
}
use stdgo.Stdent.TypeId.Base32.{decode_base32, decode-encode_uuid_base32}

abbrev pub NoComma : String → Type 0
NoComma String.[] = Unit
NoComma (String.◌∷◌ c s) = (code c ≢ 44) × NoComma s

tail_of : String → String
tail_of String.[] = ""
tail_of (String.◌∷◌ c s) = s

append_paren : (s : String) → concat s ")" ≢ ""
append_paren String.[] h = cc h
append_paren (String.◌∷◌ c s) h = cc (rw cons-append at h)

longer : (c : Char) (s : String) → str_eq (String.◌∷◌ c (concat s ")")) ")" ≡ false
unfolding tail_of
longer c s = elim (Bool-cases (str_eq (String.◌∷◌ c (concat s ")")) ")")) [
  | inr h ↦ h
  | inl h ↦ absurd (append_paren s (ap tail_of ((eq_iff (String.◌∷◌ c (concat s ")")) ")").0 h)))
]

cut_paren-append : (s : String) → cut_paren (concat s ")") ≡ some s
unfolding cut_paren
cut_paren-append String.[] = refl
cut_paren-append (String.◌∷◌ c s) = rw (cons-append, cut_paren, longer c s, cut_paren-append s) refl

cut_comma-append : (p u : String) → NoComma p → cut_comma (concat p (concat "," u)) ≡ some (p, u)
unfolding cut_comma
cut_comma-append String.[] u h = rw (nil-append, cons-append, nil-append) refl
cut_comma-append (String.◌∷◌ c p) u (h, hp) = elim (Bool-cases (code c == 44)) [
  | inl comma ↦ absurd (h (ground arith))
  | inr other ↦ rw (cons-append, cut_comma, other, cut_comma-append p u hp) refl
]

-- The composite literal of a prefix that is not empty and holds no comma, and of a UUID of sixteen
-- bytes, is normalised to the prefix, an underscore and the base32 text of the UUID, and that text
-- decodes to the number of the UUID.
pub normalise_composite :
    (parse : String → Result (List ℕ)) (prefix uuid_text : String) (u : List ℕ)
    → prefix ≢ ""
    → NoComma prefix
    → parse uuid_text ≡ ok u
    → length u ≡ 16
    → All (λ b. b < 256) u
    → (normalise parse (concat "(" (concat prefix (concat "," (concat uuid_text ")"))))
        ≡ ok (concat prefix (concat "_" (encode_uuid_base32 u))))
      × (decode_base32 0 (encode_uuid_base32 u) ≡ some (set_bytes 0 u))
unfolding normalise
normalise_composite parse prefix uuid_text u named plain parsed sixteen bytes = (
  rw (cons-append, nil-append)
      (ap (of_body parse) whole
        ∙ ap (of_parts parse) (cut_comma-append prefix uuid_text plain)
        ∙ rw (named_eq, parsed) refl),
  decode-encode_uuid_base32 u sixteen bytes,
)
  where
    whole :
        cut_paren (concat prefix (concat "," (concat uuid_text ")")))
        ≡ some (concat prefix (concat "," uuid_text))
    whole =
        ap cut_paren (
          ap (concat prefix) (sym (append_assoc "," uuid_text ")"))
          ∙ sym (append_assoc prefix (concat "," uuid_text) ")"))
        ∙ cut_paren-append (concat prefix (concat "," uuid_text))

    named_eq : str_eq prefix "" ≡ false
    named_eq = elim (Bool-cases (str_eq prefix "")) [
      | inr h ↦ h
      | inl h ↦ absurd (named ((eq_iff prefix "").0 h))
    ]
