-- ===== src/Core/Text/Hex.antt =====
-- `hexEncode` (src/core/utils.cpp) against a reader of its output.
use url_shortener.Prelude.{
  ℕ, ◌+◌, ◌-◌, ◌*◌, ◌/◌, ◌%◌, ◌<◌, ◌≡◌, refl, [], ◌∷◌, arith, ltb, if◌then◌else◌, length, All,
  Bytes,
}
use url_shortener.Core.Text.{hex_digit, hex_encode}

-- The value of a lower-case hexadecimal digit.
hex_value : ℕ → ℕ
hex_value c = if ltb c 58 then c - 48 else c - 87

pub hex_decode : Bytes → Bytes
hex_decode [] = []
hex_decode (h ∷ []) = []
hex_decode (h ∷ l ∷ rest) = (hex_value h * 16 + hex_value l) ∷ hex_decode rest

hex_value-hex_digit : (d : ℕ) → d < 16 → hex_value (hex_digit d) ≡ d
unfolding hex_value hex_digit
hex_value-hex_digit d h = ground arith

hex_byte :
    (b : ℕ) → b < 256 → hex_value (hex_digit (b / 16)) * 16 + hex_value (hex_digit (b % 16)) ≡ b
hex_byte b h =
    omega (
      arith,
      hex_value-hex_digit (b / 16) (omega arith),
      hex_value-hex_digit (b % 16) (omega arith),
    )

-- Reading the digits back gives the bytes, so the encoding of byte strings is injective.
pub hex_decode-hex_encode : (s : Bytes) → All (λ b. b < 256) s → hex_decode (hex_encode s) ≡ s
unfolding hex_decode hex_encode
hex_decode-hex_encode [] h = refl
hex_decode-hex_encode (b ∷ s) (p, h) = rw (hex_byte b p, hex_decode-hex_encode s h)

pub length-hex_encode : (s : Bytes) → length (hex_encode s) ≡ 2 * length s
unfolding hex_encode
length-hex_encode [] = refl
length-hex_encode (b ∷ s) = omega (arith, length-hex_encode s)
