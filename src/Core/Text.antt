-- ===== src/Core/Text.antt =====
-- src/core/utils.cpp: trim, clampString, hexEncode. A `std::string` is the list of its bytes.
pub mod Laws
pub mod Hex
use url_shortener.Prelude.{
  ℕ, zero, suc, ◌+◌, ◌/◌, ◌%◌, Bool, true, false, ◌&&◌, ◌||◌, Option, none, some, [], ◌∷◌, ltb, leb,
  ◌==◌, if◌then◌else◌, length, take, is_empty, Bytes, starts_with,
}

-- The set " \t\r\n" of `trim`.
unfoldable pub is_blank : ℕ → Bool
is_blank c = (c == 32) || (c == 9) || (c == 13) || (c == 10)

-- The text from the first byte outside the set (`find_first_not_of`).
unfoldable pub strip_left : Bytes → Bytes
strip_left [] = []
strip_left (c ∷ s) = if is_blank c then strip_left s else c ∷ s

-- The text up to the last byte outside the set (`find_last_not_of`).
unfoldable pub strip_right : Bytes → Bytes
strip_right [] = []
strip_right (c ∷ s) = let r = strip_right s in if is_empty r && is_blank c then [] else c ∷ r

unfoldable pub trim : Bytes → Bytes
unfolding is_blank strip_left strip_right
trim value = strip_right (strip_left value)

unfoldable pub clamp_string : Bytes → ℕ → Bytes
clamp_string value max_len = if leb (length value) max_len then value else take max_len value

-- One digit of `std::hex`.
unfoldable pub hex_digit : ℕ → ℕ
hex_digit d = if ltb d 10 then d + 48 else d + 87

-- `std::setw(2)` with fill '0', over bytes.
unfoldable pub hex_encode : Bytes → Bytes
unfolding hex_digit
hex_encode [] = []
hex_encode (b ∷ rest) = hex_digit (b / 16) ∷ hex_digit (b % 16) ∷ hex_encode rest

-- `body.find(pattern)`: the text from the first occurrence on.
unfoldable pub find : Bytes → Bytes → Option Bytes
unfolding starts_with
find pattern [] = if is_empty pattern then some [] else none
find pattern (c ∷ s) =
    let rest = find pattern s in if starts_with (c ∷ s) pattern then some (c ∷ s) else rest

-- The text behind the first byte `b`.
unfoldable pub find_behind : ℕ → Bytes → Option Bytes
find_behind b [] = none
find_behind b (c ∷ s) = if c == b then some s else find_behind b s

-- All but the last byte.
unfoldable pub drop_last : Bytes → Bytes
drop_last [] = []
drop_last (c ∷ []) = []
drop_last (c ∷ d ∷ s) = c ∷ drop_last (d ∷ s)

unfoldable pub last_is : ℕ → Bytes → Bool
last_is b [] = false
last_is b (c ∷ []) = c == b
last_is b (c ∷ d ∷ s) = last_is b (d ∷ s)

-- The longest prefix whose bytes pass, and what stands behind it.
unfoldable pub take_while : (ℕ → Bool) → Bytes → Bytes
take_while p [] = []
take_while p (c ∷ s) = let rest = take_while p s in if p c then c ∷ rest else []

unfoldable pub drop_while : (ℕ → Bool) → Bytes → Bytes
drop_while p [] = []
drop_while p (c ∷ s) = if p c then drop_while p s else c ∷ s

-- Whether a byte occurs.
unfoldable pub has_byte : ℕ → Bytes → Bool
has_byte b [] = false
has_byte b (c ∷ s) = (c == b) || has_byte b s

-- `std::to_string` and `<<` of an unsigned number: the digits before those of `acc`, as long as
-- the fuel lasts.
unfoldable pub decimal_from : ℕ → ℕ → Bytes → Bytes
decimal_from zero n acc = acc
decimal_from (suc left) n acc = elim (n / 10 == 0) [
  | true ↦ (b'0' + n % 10) ∷ acc
  | false ↦ decimal_from left (n / 10) ((b'0' + n % 10) ∷ acc)
]

unfoldable pub to_decimal : ℕ → Bytes
unfolding decimal_from
to_decimal n = decimal_from (suc n) n []
