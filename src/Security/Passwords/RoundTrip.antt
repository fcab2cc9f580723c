-- ===== src/Security/Passwords/RoundTrip.antt =====
-- `PasswordHasher` (src/security/password_hasher.cpp): what was hashed is recognised.
use url_shortener.Prelude.{
  ℕ, zero, suc, ◌/◌, ◌%◌, ◌≤◌, ◌<◌, ◌≡◌, refl, ap, ◌↔◌, true, false, some, [], ◌∷◌, ◌++◌, arith,
  ◌==◌, length, All, Bytes, bytes, ◌=ᵇ◌, pos,
}
use Prim.Native.Nat.{bit_or, bit_xor, max, digits, differ, bit_or-bitwise, bit_xor-bitwise}
use url_shortener.Core.Text.{hex_encode, hex_digit, drop_while, take_while}
use url_shortener.Core.Text.Hex.{length-hex_encode}
use url_shortener.Security.Effects.{Platform, returned}
use url_shortener.Security.Passwords.{
  split_at_byte, hex_digit_value, read_hex_pair, hex_pairs, from_hex, digits_value, stoi_digits,
  stoi_signed, stoi, diff, constant_time_equal, algo_tag, colon, split_fields, reply_then,
  hash_with_salt, compare_hash, verify_fields, verify_password,
}

or-zero_iff : (n a b : ℕ) → a ≤ n → (digits (λ x. x) max n a b ≡ 0) ↔ ((a ≡ 0) × (b ≡ 0))
or-zero_iff zero a b h = ground arith
or-zero_iff (suc n) zero b h = ground arith
or-zero_iff (suc n) (suc a) b h = ground (arith, or-zero_iff n (suc a / 2) (b / 2) (omega arith))

differ-zero_iff : (a b : ℕ) → (differ a b ≡ 0) ↔ (a ≡ b)
differ-zero_iff zero b = ground arith
differ-zero_iff (suc a) zero = ground arith
differ-zero_iff (suc a) (suc b) = ground (arith, differ-zero_iff a b)

xor-zero_iff : (n a b : ℕ) → a ≤ n → (digits (λ x. x) differ n a b ≡ 0) ↔ (a ≡ b)
xor-zero_iff zero a b h = ground arith
xor-zero_iff (suc n) zero b h = ground arith
xor-zero_iff (suc n) (suc a) b h =
    ground
      (arith, xor-zero_iff n (suc a / 2) (b / 2) (omega arith), differ-zero_iff (suc a % 2) (b % 2))

byte_differs : (d x y : ℕ) → (bit_or d (bit_xor x y) ≡ 0) ↔ ((d ≡ 0) × (x ≡ y))
byte_differs d x y =
    rw (bit_or-bitwise d (bit_xor x y), bit_xor-bitwise x y)
      (ground (
        arith,
        or-zero_iff d d (digits (λ x. x) differ x x y) (omega arith),
        xor-zero_iff x x y (omega arith),
      ))

diff-zero_iff :
    (d : ℕ) (xs ys : Bytes) → length xs ≡ length ys → (diff d xs ys ≡ 0) ↔ ((d ≡ 0) × (xs ≡ ys))
unfolding diff
diff-zero_iff d [] [] h = ground arith
diff-zero_iff d [] (y ∷ ys) h = ground arith
diff-zero_iff d (x ∷ xs) [] h = ground arith
diff-zero_iff d (x ∷ xs) (y ∷ ys) h =
    ground (arith, byte_differs d x y, diff-zero_iff (bit_or d (bit_xor x y)) xs ys (omega arith))

-- The comparison that looks at every byte decides equality.
pub constant_time_equal_iff : (xs ys : Bytes) → (constant_time_equal xs ys ≡ true) ↔ (xs ≡ ys)
unfolding constant_time_equal
constant_time_equal_iff xs ys = ground (arith, diff-zero_iff 0 xs ys, λ (e : xs ≡ ys). ap length e)

hex_digit_value-hex_digit : (d : ℕ) → d < 16 → hex_digit_value (hex_digit d) ≡ some d
unfolding hex_digit_value hex_digit
hex_digit_value-hex_digit d h = ground arith

read_hex_pair_lem : (b : ℕ) → b < 256 → read_hex_pair (hex_digit (b / 16)) (hex_digit (b % 16)) ≡ b
unfolding read_hex_pair
read_hex_pair_lem b h =
    rw
      (
        hex_digit_value-hex_digit (b / 16) (omega arith),
        hex_digit_value-hex_digit (b % 16) (omega arith),
        read_hex_pair,
      )
      (omega arith)

hex_pairs-hex_encode : (s : Bytes) → All (λ b. b < 256) s → hex_pairs (hex_encode s) ≡ s
unfolding hex_pairs hex_encode
hex_pairs-hex_encode [] h = refl
hex_pairs-hex_encode (b ∷ s) (p, h) = rw (read_hex_pair_lem b p, hex_pairs-hex_encode s h) refl

from_hex-hex_encode : (s : Bytes) → All (λ b. b < 256) s → from_hex (hex_encode s) ≡ returned s
unfolding from_hex
from_hex-hex_encode s h = rw (hex_pairs-hex_encode s h) (ground (arith, length-hex_encode s))

hex_digit-colon : (d : ℕ) → d < 16 → (hex_digit d == colon) ≡ false
unfolding hex_digit
hex_digit-colon d h = ground arith

split_at_byte-hex_encode :
    (s rest : Bytes)
    → All (λ b. b < 256) s
    → split_at_byte colon (hex_encode s ++ (colon ∷ rest)) ≡ some (hex_encode s, rest)
unfolding split_at_byte hex_encode
split_at_byte-hex_encode [] rest h = refl
split_at_byte-hex_encode (b ∷ s) rest (p, h) =
    rw
      (
        hex_digit-colon (b / 16) (omega arith),
        hex_digit-colon (b % 16) (omega arith),
        split_at_byte-hex_encode s rest h,
      )
      refl

-- A hash as `hashPassword` writes it.
abbrev stored : Bytes → Bytes → Bytes
stored salt hash =
    algo_tag
    ++ (bytes ":"
        ++ (bytes "100000" ++ (bytes ":" ++ (hex_encode salt ++ (bytes ":" ++ hex_encode hash)))))

split_fields-stored :
    (salt hash : Bytes)
    → All (λ b. b < 256) salt
    → split_fields (stored salt hash)
      ≡ some (algo_tag, bytes "100000", hex_encode salt, hex_encode hash)
unfolding split_fields split_at_byte
split_fields-stored salt hash h =
    rw (split_at_byte-hex_encode salt (hex_encode hash) h, split_fields) refl

verify_password-stored :
    (platform : Platform) (password salt hash found : Bytes)
    → All (λ b. b < 256) salt
    → All (λ b. b < 256) hash
    → length hash ≡ 32
    → platform.pbkdf2_hmac_sha256 password salt (pos 100000) 32 ≡ some found
    → verify_password platform password (stored salt hash)
      ≡ returned (constant_time_equal found hash)
unfolding verify_password verify_fields compare_hash reply_then ◌=ᵇ◌ stoi stoi_signed stoi_digits
    digits_value drop_while take_while
verify_password-stored platform password salt hash found hs hh n f =
    let at_length : platform.pbkdf2_hmac_sha256 password salt (pos 100000) (length hash)
        ≡ some found =
      rw n f in
    rw
      (
        split_fields-stored salt hash hs,
        verify_password,
        from_hex-hex_encode salt hs,
        from_hex-hex_encode hash hh,
        at_length,
        compare_hash,
      )
      refl

-- What `hashPassword` makes of a password and a salt is verified by `verifyPassword` with this
-- password, and with another one exactly when PBKDF2 gives both the same 32 bytes: for a salt of
-- bytes and a PBKDF2 that succeeds on both passwords with 32 bytes.
pub verify_password-hash_with_salt :
    (platform : Platform) (password other salt hash found : Bytes)
    → All (λ b. b < 256) salt
    → All (λ b. b < 256) hash
    → length hash ≡ 32
    → platform.pbkdf2_hmac_sha256 password salt (pos 100000) 32 ≡ some hash
    → platform.pbkdf2_hmac_sha256 other salt (pos 100000) 32 ≡ some found
    → (text : Bytes) × (hash_with_salt platform password salt ≡ returned text)
      × (verify_password platform password text ≡ returned true)
      × ((verify_password platform other text ≡ returned true) ↔ (found ≡ hash))
unfolding hash_with_salt
verify_password-hash_with_salt platform password other salt hash found hs hh n e f =
    let same = verify_password-stored platform password salt hash hash hs hh n e in
    let differ = verify_password-stored platform other salt hash found hs hh n f in
    (
      stored salt hash,
      rw (e, hash_with_salt) refl,
      ground (arith, same, constant_time_equal_iff hash hash),
      ground (arith, differ, constant_time_equal_iff found hash),
    )
