-- ===== src/Stdent/TypeId/Base32.antt =====
-- Reading the base32 text of a UUID gives its number back.
use Prim.Native.Char.{Char, code}
use Prim.Native.String.{◌++◌ as concat}
use text.Mathlib.TextLemmas.{nil-append, cons-append}
use native.Mathlib.Nat.{
  pow-suc, mul_assoc, mul_comm, mul_left_comm, mul-le-mul_left, lt_of_lt_of_le,
}
use stdgo.Base.{
  ==_iff, ℕ, zero, suc, ◌+◌, ◌*◌, ◌/◌, ◌%◌, ◌^◌, ◌<◌, ◌≤◌, ◌==◌, String, Bool, true, false, ◌&&◌,
  Option, none, some, List, [], ◌∷◌, ◌≡◌, refl, ap, sym, ◌∙◌, subst, arith, Bool-cases, inl, inr,
  if◌then◌else◌, length, All,
}
use stdgo.Stdent.TypeId.{base32_alphabet, char_at, set_bytes, encode_loop, encode_uuid_base32}

-- The place of a character in the alphabet.
unfoldable pub index_of : Char → String → Option ℕ
index_of c String.[] = none
index_of c (String.◌∷◌ d s) =
    let rest = index_of c s in
    if code c == code d then some 0 else elim rest [ none ↦ none | some i ↦ some (suc i) ]

-- The number that a text stands for, in base 32, most significant character first.
unfoldable pub decode_base32 : ℕ → String → Option ℕ
decode_base32 n String.[] = some n
decode_base32 n (String.◌∷◌ c s) = elim (index_of c base32_alphabet) [
  | none ↦ none
  | some d ↦ decode_base32 (n * 32 + d) s
]

-- Every index below a bound passes a test.
abbrev all_below : (ℕ → Bool) → ℕ → Bool
all_below p zero = true
all_below p (suc n) = p n && all_below p n

and_left : (a b : Bool) → a && b ≡ true → a ≡ true
and_left a b h = ground arith

and_right : (a b : Bool) → a && b ≡ true → b ≡ true
and_right a b h = ground arith

all_below-lookup : (p : ℕ → Bool) (n i : ℕ) → all_below p n ≡ true → i < n → p i ≡ true
all_below-lookup p zero i h lt = absurd (omega arith)
all_below-lookup p (suc n) i h lt = elim (Bool-cases (i == n)) [
  | inl top ↦ subst (λ j. p j ≡ true) (sym ((==_iff i n).0 top)) (and_left (p n) (all_below p n) h)
  | inr low ↦ all_below-lookup p n i (and_right (p n) (all_below p n) h) (ground arith)
]

-- The place of the one character of a text.
abbrev first_index : String → Option ℕ
first_index (String.◌∷◌ c String.[]) = index_of c base32_alphabet
first_index _ = none

reads : ℕ → Bool
reads d = elim (first_index (char_at base32_alphabet d)) [ none ↦ false | some e ↦ e == d ]

all_read : all_below reads 32 ≡ true
unfolding reads index_of char_at
all_read = refl

first_index-char_at : (d : ℕ) → d < 32 → first_index (char_at base32_alphabet d) ≡ some d
unfolding reads
first_index-char_at d h = ground (arith, all_below-lookup reads 32 d all_read h)

decode-append :
    (t tail : String) (a d : ℕ)
    → first_index t ≡ some d
    → decode_base32 a (concat t tail) ≡ decode_base32 (a * 32 + d) tail
unfolding decode_base32
decode-append String.[] tail a d h = cc
decode-append (String.◌∷◌ c String.[]) tail a d h =
    rw (cons-append, decode_base32, h, nil-append) refl
decode-append (String.◌∷◌ c (String.◌∷◌ e s)) tail a d h = cc

step : (a m n : ℕ) → (a * m + n / 32) * 32 + n % 32 ≡ a * (m * 32) + n
step a m n = rw (← mul_assoc a m 32) (omega arith)

grow : (n b m : ℕ) → b < 256 → (n * 256 + b + 1) * m ≤ (n + 1) * (m * 256)
grow n b m h =
    rw (mul_left_comm (n + 1) m 256, mul_comm (n * 256 + b + 1) m)
      (mul-le-mul_left m (omega (arith, h)))

decode-encode_loop :
    (k n a : ℕ) (tail : String)
    → n < 32 ^ k
    → decode_base32 a (encode_loop k n tail) ≡ decode_base32 (a * 32 ^ k + n) tail
unfolding encode_loop
decode-encode_loop zero n a tail h = ap (λ i. decode_base32 i tail) (omega arith)
decode-encode_loop (suc k) n a tail h =
    let small : n < 32 ^ k * 32 = subst (λ m. n < m) (pow-suc 32 k) h in
    let digit = char_at base32_alphabet (n % 32) in
    let m = 32 ^ k in
    let same : (a * m + n / 32) * 32 + n % 32 ≡ a * (m * 32) + n = step a (32 ^ k) n in
    decode-encode_loop k (n / 32) a (concat digit tail) (omega (arith, small))
    ∙ decode-append digit tail (a * m + n / 32) (n % 32)
        (first_index-char_at (n % 32) (omega arith))
    ∙ ap (λ i. decode_base32 i tail) (same ∙ ap (λ p. a * p + n) (sym (pow-suc 32 k)))

set_bytes_bound :
    (n : ℕ) (bs : List ℕ) → All (λ b. b < 256) bs → set_bytes n bs < (n + 1) * 256 ^ length bs
unfolding set_bytes
set_bytes_bound n [] h = omega arith
set_bytes_bound n (b ∷ bs) (hb, h) =
    let m = 256 ^ length bs in
    rw (pow-suc 256 (length bs))
      (lt_of_lt_of_le (set_bytes_bound (n * 256 + b) bs h) (grow n b m hb))

-- The base32 text of sixteen bytes decodes to the number that the bytes stand for, whatever the
-- bytes are.
pub decode-encode_uuid_base32 :
    (u : List ℕ)
    → length u ≡ 16
    → All (λ b. b < 256) u
    → decode_base32 0 (encode_uuid_base32 u) ≡ some (set_bytes 0 u)
unfolding encode_uuid_base32 decode_base32
decode-encode_uuid_base32 u sixteen bytes =
    let bound =
      subst (λ l. set_bytes 0 u < (0 + 1) * 256 ^ l) sixteen (set_bytes_bound 0 u bytes) in
    decode-encode_loop 26 (set_bytes 0 u) 0 "" (omega (arith, bound)) ∙ ap some (omega arith)
