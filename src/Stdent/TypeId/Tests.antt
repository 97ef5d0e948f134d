-- ===== src/Stdent/TypeId/Tests.antt =====
-- The theorems on typeids at one UUID.
use Prim.Native.String.{◌++◌ as concat}
use stdgo.Base.{ℕ, ◌<◌, some, List, [], ◌∷◌, ◌≡◌, refl, arith, All}
use stdgo.Go.Errors.{ok}
use stdgo.Stdent.TypeId.{set_bytes, encode_uuid_base32, normalise}
use stdgo.Stdent.TypeId.Base32.{decode_base32, decode-encode_uuid_base32}
use stdgo.Stdent.TypeId.Normalise.{normalise_composite}

abbrev uuid : List ℕ
uuid = 1 ∷ 152 ∷ 200 ∷ 255 ∷ 0 ∷ 17 ∷ 112 ∷ 9 ∷ 130 ∷ 77 ∷ 6 ∷ 54 ∷ 33 ∷ 255 ∷ 3 ∷ 31 ∷ []

uuid_bytes : All (λ b. b < 256) uuid
uuid_bytes = (
  omega arith,
  (
    omega arith,
    (
      omega arith,
      (
        omega arith,
        (
          omega arith,
          (
            omega arith,
            (
              omega arith,
              (
                omega arith,
                (
                  omega arith,
                  (
                    omega arith,
                    (
                      omega arith,
                      (omega arith, (omega arith, (omega arith, (omega arith, (omega arith, tt))))),
                    ),
                  ),
                ),
              ),
            ),
          ),
        ),
      ),
    ),
  ),
)

zero_uuid_run :
    encode_uuid_base32 (0 ∷ 0 ∷ 0 ∷ 0 ∷ 0 ∷ 0 ∷ 0 ∷ 0 ∷ 0 ∷ 0 ∷ 0 ∷ 0 ∷ 0 ∷ 0 ∷ 1 ∷ 31 ∷ [])
    ≡ "0000000000000000000000008z"
unfolding encode_uuid_base32
zero_uuid_run = refl

decode-encode_uuid_base32_example :
    decode_base32 0 (encode_uuid_base32 uuid) ≡ some (set_bytes 0 uuid)
decode-encode_uuid_base32_example = decode-encode_uuid_base32 uuid refl uuid_bytes

normalise_composite_example :
    (normalise (λ _. ok uuid) "(u,1)" ≡ ok (concat "u" (concat "_" (encode_uuid_base32 uuid))))
    × (decode_base32 0 (encode_uuid_base32 uuid) ≡ some (set_bytes 0 uuid))
normalise_composite_example =
    normalise_composite (λ _. ok uuid) "u" "1" uuid (λ e. cc e) (λ e. absurd (omega (arith, e)), tt)
      refl refl uuid_bytes
