-- ===== src/Security/Passwords.antt =====
-- src/security/password_hasher.cpp: passwords are kept as `algo:iterations:saltHex:hashHex`.
pub mod RoundTrip
use url_shortener.Prelude.{
  ℕ, ◌+◌, ◌-◌, ◌*◌, ◌%◌, Bool, true, false, ◌&&◌, ◌||◌, not, Option, none, some, [], ◌∷◌, ◌++◌, ltb,
  leb, ◌==◌, if◌then◌else◌, value_or, length, is_empty, Bytes, bytes, ◌=ᵇ◌, is_digit, is_space, ℤ,
  pos, sub_ℕ,
}
use Prim.Native.Nat.{bit_or, bit_xor}
use url_shortener.Core.Text.{hex_encode, drop_while, take_while}
use url_shortener.Security.Effects.{
  Platform, runtime_error, bad_argument, Reply, returned, thrown, Exec, ◌>>=◌, draw,
}

-- What comes before and behind the first `b`.
unfoldable pub split_at_byte : ℕ → Bytes → Option (Bytes × Bytes)
split_at_byte b [] = none
split_at_byte b (c ∷ s) =
    if c == b
    then some ([], s)
    else elim (split_at_byte b s) [ none ↦ none | some (front, rest) ↦ some (c ∷ front, rest) ]

-- The value of a hexadecimal digit of either case, or `none`.
unfoldable pub hex_digit_value : ℕ → Option ℕ
hex_digit_value c =
    if is_digit c
    then some (c - b'0')
    else if leb b'a' c && leb c b'f'
    then some (c - 87)
    else if leb b'A' c && leb c b'F'
    then some (c - 55)
    else none

-- `istringstream >> std::hex >> unsigned` on two bytes, then the conversion to `unsigned char`:
-- leading white space and one sign are passed, and a value that does not begin is 0.
unfoldable pub read_hex_pair : ℕ → ℕ → ℕ
unfolding hex_digit_value
read_hex_pair h l = elim (hex_digit_value h) [
  | some v ↦ elim (hex_digit_value l) [ some w ↦ 16 * v + w | none ↦ v ]
  | none ↦
      if is_space h || h == b'+'
      then value_or (hex_digit_value l) 0
      else if h == b'-'
      then (256 - value_or (hex_digit_value l) 0) % 256
      else 0
]

unfoldable pub hex_pairs : Bytes → Bytes
unfolding read_hex_pair
hex_pairs [] = []
hex_pairs (h ∷ []) = []
hex_pairs (h ∷ l ∷ rest) = read_hex_pair h l ∷ hex_pairs rest

unfoldable pub from_hex : Bytes → Reply Bytes
unfolding hex_pairs
from_hex hex = if not (length hex % 2 == 0) then thrown bad_argument else returned (hex_pairs hex)

unfoldable pub digits_value : ℕ → Bytes → ℕ
digits_value acc [] = acc
digits_value acc (c ∷ s) = digits_value (10 * acc + (c - b'0')) s

-- The digits at the front of a number and whether a minus stands before them.
unfoldable pub stoi_digits : Bool → Bytes → Reply ℤ
unfolding digits_value take_while
stoi_digits negative s =
    let digits = take_while is_digit s in
    let n = digits_value 0 digits in
    if is_empty digits
    then thrown bad_argument
    else if negative
    then (if leb n 2147483648 then returned (sub_ℕ 0 n) else thrown bad_argument)
    else if ltb n 2147483648
    then returned (pos n)
    else thrown bad_argument

unfoldable pub stoi_signed : Bytes → Reply ℤ
unfolding stoi_digits
stoi_signed [] = thrown bad_argument
stoi_signed (c ∷ s) =
    if c == b'-'
    then stoi_digits true s
    else if c == b'+'
    then stoi_digits false s
    else stoi_digits false (c ∷ s)

-- `std::stoi`: white space, a sign, digits; what stands behind them is ignored.
unfoldable pub stoi : Bytes → Reply ℤ
unfolding stoi_signed drop_while
stoi s = stoi_signed (drop_while is_space s)

-- The loop of the comparison: every byte is looked at, whatever came before.
unfoldable pub diff : ℕ → Bytes → Bytes → ℕ
diff d [] ys = d
diff d (x ∷ xs) [] = d
diff d (x ∷ xs) (y ∷ ys) = diff (bit_or d (bit_xor x y)) xs ys

unfoldable pub constant_time_equal : Bytes → Bytes → Bool
unfolding diff
constant_time_equal computed expected =
    if not (length computed == length expected) then false else diff 0 computed expected == 0

abbrev pub algo_tag : Bytes
algo_tag = bytes "pbkdf2sha256"

abbrev pub colon : ℕ
colon = b':'

unfoldable pub split_fields : Bytes → Option (Bytes × Bytes × Bytes × Bytes)
unfolding split_at_byte
split_fields stored = elim (split_at_byte colon stored) [
  | none ↦ none
  | some (algo, r1) ↦ elim (split_at_byte colon r1) [
    | none ↦ none
    | some (iterations, r2) ↦ elim (split_at_byte colon r2) [
      | none ↦ none
      | some (salt_hex, hash_hex) ↦ some (algo, iterations, salt_hex, hash_hex)
    ]
  ]
]

unfoldable pub reply_then : {A B : Type 0} → Reply A → (A → Reply B) → Reply B
reply_then (returned x) f = f x
reply_then (thrown e) f = thrown e

module _ (platform : Platform) where
  unfoldable pub hash_with_salt : Bytes → Bytes → Reply Bytes
  hash_with_salt password salt = elim (platform.pbkdf2_hmac_sha256 password salt (pos 100000) 32) [
    | none ↦ thrown runtime_error
    | some hash ↦ returned (
        algo_tag
        ++ (bytes ":"
            ++ (bytes "100000"
                ++ (bytes ":" ++ (hex_encode salt ++ (bytes ":" ++ hex_encode hash))))))
  ]

  unfoldable pub hash_drawn : Bytes → Bool × Bytes → Exec Bytes
  unfolding hash_with_salt
  hash_drawn password (drawn, salt) s =
      if not drawn then (thrown runtime_error, s) else (hash_with_salt password salt, s)

  unfoldable pub hash_password : Bytes → Exec Bytes
  hash_password password = draw platform 16 >>= hash_drawn password

  unfoldable pub compare_hash : Bytes → ℤ → Bytes → Bytes → Bool
  unfolding constant_time_equal
  compare_hash password iterations salt expected =
      elim (platform.pbkdf2_hmac_sha256 password salt iterations (length expected)) [
        | none ↦ false
        | some computed ↦ constant_time_equal computed expected
      ]

  unfoldable pub verify_fields : Bytes → Bytes × Bytes × Bytes × Bytes → Reply Bool
  unfolding stoi from_hex compare_hash reply_then
  verify_fields password (algo, iterations, salt_hex, hash_hex) =
      reply_then (stoi iterations) (λ (n : ℤ).
        if not (algo =ᵇ algo_tag)
        then returned false
        else reply_then (from_hex salt_hex) (λ (salt : Bytes).
          reply_then (from_hex hash_hex)
            (λ (expected : Bytes). returned (compare_hash password n salt expected))))

  unfoldable pub verify_password : Bytes → Bytes → Reply Bool
  unfolding split_fields verify_fields
  verify_password password stored = elim (split_fields stored) [
    | none ↦ returned false
    | some fields ↦ verify_fields password fields
  ]
