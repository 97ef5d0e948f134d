-- ===== src/Stdent/TypeId.antt =====
-- stdent/stdenttypeid/id.go: typeids in their printable form. `parse` is `uuid.Parse`, which yields
-- sixteen bytes.
pub mod Base32
pub mod Normalise
mod Tests
use Prim.Native.Char.{Char, code}
use Prim.Native.String
use Prim.Native.String.{◌++◌ as concat}
use stdgo.Base.{
  ℕ, zero, suc, ◌+◌, ◌*◌, ◌/◌, ◌%◌, ◌==◌, String, Bool, true, false, Option, none, some, List, [],
  ◌∷◌, if◌then◌else◌, str_eq,
}
use stdgo.Go.Errors.{GoError, message, wrap, Result, ok, err}

-- `base32Alphabet`
abbrev pub base32_alphabet : String
base32_alphabet = "0123456789abcdefghjkmnpqrstvwxyz"

-- The text of one character of a text, by its index; the source never leaves the alphabet.
unfoldable pub char_at : String → ℕ → String
char_at String.[] i = ""
char_at (String.◌∷◌ c s) zero = String.◌∷◌ c ""
char_at (String.◌∷◌ c s) (suc i) = char_at s i

-- `new(big.Int).SetBytes`
unfoldable pub set_bytes : ℕ → List ℕ → ℕ
set_bytes n [] = n
set_bytes n (b ∷ bs) = set_bytes (n * 256 + b) bs

-- The loop, from the last character to the first: `written` is what stands behind.
unfoldable pub encode_loop : (left : ℕ) → ℕ → (written : String) → String
unfolding char_at
encode_loop zero n written = written
encode_loop (suc k) n written =
    encode_loop k (n / 32) (concat (char_at base32_alphabet (n % 32)) written)

unfoldable pub encode_uuid_base32 : List ℕ → String
unfolding set_bytes encode_loop
encode_uuid_base32 u = encode_loop 26 (set_bytes 0 u) ""

-- `strings.CutSuffix` for a parenthesis: `HasSuffix` and `TrimSuffix` in one.
unfoldable pub cut_paren : String → Option String
cut_paren String.[] = none
cut_paren (String.◌∷◌ c s) =
    let rest = cut_paren s in
    if str_eq (String.◌∷◌ c s) ")"
    then some ""
    else elim rest [ none ↦ none | some body ↦ some (String.◌∷◌ c body) ]

-- `strings.Cut` at a comma
unfoldable pub cut_comma : String → Option (String × String)
cut_comma String.[] = none
cut_comma (String.◌∷◌ c s) =
    let rest = cut_comma s in
    if code c == 44
    then some ("", s)
    else elim rest [ none ↦ none | some (before, after) ↦ some (String.◌∷◌ c before, after) ]

module _ (parse : String → Result (List ℕ)) where
  abbrev pub of_uuid : String → Result (List ℕ) → Result String
  of_uuid prefix (err e) = err (wrap "stdenttypeid: parse uuid" e)
  of_uuid prefix (ok u) = ok (concat prefix (concat "_" (encode_uuid_base32 u)))

  abbrev pub of_parts : Option (String × String) → Result String
  of_parts none = err (message "stdenttypeid: invalid composite literal")
  of_parts (some (prefix, uuid_text)) =
      if str_eq prefix ""
      then err (message "stdenttypeid: empty prefix in composite literal")
      else of_uuid prefix (parse uuid_text)

  abbrev pub of_body : Option String → Result String
  of_body none = err (message "stdenttypeid: invalid composite literal")
  of_body (some body) = of_parts (cut_comma body)

  unfoldable pub normalise : String → Result String
  normalise String.[] = ok ""
  normalise (String.◌∷◌ c s) = if code c == 40 then of_body (cut_paren s) else ok (String.◌∷◌ c s)
