-- ===== src/Core/Json/Tokens.antt =====
-- Bracketed values and string arrays (src/core/utils.cpp: extractJsonValueToken,
-- extractJsonStringArrayField).
pub mod Arrays
use url_shortener.Prelude.{
  ℕ, zero, suc, ◌+◌, ◌-◌, Bool, true, false, ◌&&◌, not, Option, none, some, List, [], ◌∷◌, leb,
  ◌==◌, if◌then◌else◌, length, Bytes, bytes, ◌=ᵇ◌, starts_with,
}
use url_shortener.Core.Text.{drop_last, last_is}
use url_shortener.Core.Json.{◌>>=◌, value_of_key, skip_spaces, extract_json_string_field}

-- The variables of the loop over a bracketed value.
pub record Scan : Type 0 where
  pub depth : ℕ
  pub in_string : Bool
  pub escape : Bool

-- One round of the loop: whether the value ends with this byte, and the variables after it.
unfoldable pub scan_byte : ℕ → ℕ → Scan → ℕ → Bool × Scan
scan_byte opening closing s c =
    if s.in_string
    then (if s.escape
        then (false, record s { escape = false })
        else if c == 92
        then (false, record s { escape = true })
        else if c == 34
        then (false, record s { in_string = false })
        else (false, s))
    else if c == 34
    then (false, record s { in_string = true })
    else if c == opening
    then (false, record s { depth = s.depth + 1 })
    else if c == closing
    then (s.depth - 1 == 0, record s { depth = s.depth - 1 })
    else (false, s)

-- The bracketed value at the start of a text. The depth does not fall below 0: the first byte
-- opens a bracket, and the loop ends when the depth is 0 again.
unfoldable pub scan_token : ℕ → ℕ → Scan → Bytes → Option Bytes
unfolding scan_byte
scan_token opening closing state [] = none
scan_token opening closing state (c ∷ s) =
    let (done, next) = scan_byte opening closing state c in
    let rest : Option Bytes = elim (scan_token opening closing next s) [
      | none ↦ none
      | some token ↦ some (c ∷ token)
    ] in
    if done then some (c ∷ []) else rest

abbrev pub scan_start : Scan
scan_start = record { depth = 0; in_string = false; escape = false }

-- The value at the start of a text, by its first byte; `at_key` is the text from the key on.
unfoldable pub value_token : Bytes → Bytes → Bytes → Option Bytes
value_token field at_key [] = none
value_token field at_key (c ∷ s) =
    if (c == b'n') && starts_with (c ∷ s) (bytes "null")
    then some (bytes "null")
    else if c == 34
    then extract_json_string_field at_key field
    else if c == b'['
    then scan_token b'[' b']' scan_start (c ∷ s)
    else if c == b'{'
    then scan_token b'{' b'}' scan_start (c ∷ s)
    else none

unfoldable pub extract_json_value_token : Bytes → Bytes → Option Bytes
extract_json_value_token body field = do
  (at_key, value) ← value_of_key body field
  value_token field at_key value

-- The inner loop: one string up to its closing quote, or to the end of the text.
unfoldable pub read_element : Bool → Bytes → Bytes × Bytes
read_element escape [] = ([], [])
read_element true (c ∷ s) = let (value, rest) = read_element false s in (c ∷ value, rest)
read_element false (c ∷ s) =
    let escaped = read_element true s in
    let plain : Bytes × Bytes = let (value, rest) = read_element false s in (c ∷ value, rest) in
    if c == 92 then escaped else if c == 34 then ([], s) else plain

-- The end of a round: behind an element and its spaces stands the end, or a comma and more.
-- `more` is the rest of the loop.
unfoldable pub next_elements : (Bytes → Option (List Bytes)) → Bytes → Bytes → Option (List Bytes)
next_elements more value [] = some (value ∷ [])
next_elements more value (d ∷ s) =
    if not (d == b',')
    then none
    else elim (more s) [ none ↦ none | some values ↦ some (value ∷ values) ]

-- A round, past the spaces: the end, or an element that begins with a quote.
unfoldable pub first_element : (Bytes → Option (List Bytes)) → Bytes → Option (List Bytes)
first_element more [] = some []
first_element more (c ∷ s) =
    let (value, rest) = read_element false s in
    if not (c == 34) then none else next_elements more value (skip_spaces rest)

-- The outer loop over the text between the brackets, on fuel.
unfoldable pub read_elements : ℕ → Bytes → Option (List Bytes)
read_elements zero s = none
read_elements (suc fuel) s = first_element (read_elements fuel) (skip_spaces s)

-- The elements of a token that is an array. Each round reads two bytes at least, so the length of
-- the text is fuel enough.
unfoldable pub array_of_token : Bytes → Option (List Bytes)
unfolding drop_last last_is
array_of_token [] = none
array_of_token (c ∷ s) =
    if leb 1 (length s) && (c == b'[') && last_is b']' s
    then read_elements (suc (length s)) (drop_last s)
    else none

unfoldable pub extract_json_string_array_field : Bytes → Bytes → Option (List Bytes)
extract_json_string_array_field body field = do
  token ← extract_json_value_token body field
  if token =ᵇ bytes "null" then some [] else array_of_token token
