-- ===== src/Core/Json.antt =====
-- The JSON text helpers of src/core/utils.cpp: jsonEscape, jsonString, hasJsonField,
-- extractJsonStringField, extractJsonBoolField, extractJsonValueToken,
-- extractJsonStringArrayField. A position in a text is the suffix that starts there.
pub mod Strings
pub mod Tokens
use url_shortener.Prelude.{
  Bool, true, false, Option, none, some, [], ◌∷◌, ◌++◌, ◌==◌, if◌then◌else◌, is_some, length, drop,
  Bytes, bytes, starts_with, is_space,
}
use url_shortener.Core.Text.{find, find_behind}

unfoldable pub json_escape : Bytes → Bytes
json_escape [] = []
json_escape (c ∷ s) =
    let rest = json_escape s in
    if c == 92
    then 92 ∷ 92 ∷ rest
    else if c == 34
    then 92 ∷ 34 ∷ rest
    else if c == 10
    then 92 ∷ b'n' ∷ rest
    else if c == 13
    then 92 ∷ b'r' ∷ rest
    else if c == 9
    then 92 ∷ b't' ∷ rest
    else c ∷ rest

unfoldable pub json_string : Bytes → Bytes
unfolding json_escape
json_string value = 34 ∷ (json_escape value ++ 34 ∷ [])

unfoldable pub skip_spaces : Bytes → Bytes
skip_spaces [] = []
skip_spaces (c ∷ s) = if is_space c then skip_spaces s else c ∷ s

unfoldable pub quoted : Bytes → Bytes
quoted field = 34 ∷ (field ++ 34 ∷ [])

unfoldable pub has_json_field : Bytes → Bytes → Bool
has_json_field body field = is_some (find (quoted field) body)

infixl 5 ◌>>=◌
abbrev pub ◌>>=◌ {ℓ κ} : {A : Type ℓ} {B : Type κ} → Option A → (A → Option B) → Option B
none >>= f = none
some a >>= f = f a

-- From the key's first occurrence to its value: past the key and the next colon, and the spaces
-- behind that. The first part of the result is the text from the key on.
unfoldable pub value_of_key : Bytes → Bytes → Option (Bytes × Bytes)
value_of_key body field = do
  at_key ← find (quoted field) body
  behind_colon ← find_behind b':' (drop (length (quoted field)) at_key)
  some (at_key, skip_spaces behind_colon)

-- The loop that reads a string up to its closing quote; a backslash keeps the next byte as it is.
-- The rest behind the quote is returned too.
unfoldable pub read_string : Bool → Bytes → Option (Bytes × Bytes)
read_string escape_next [] = none
read_string true (c ∷ s) = elim (read_string false s) [
  | none ↦ none
  | some (value, rest) ↦ some (c ∷ value, rest)
]
read_string false (c ∷ s) =
    let escaped = read_string true s in
    let plain : Option (Bytes × Bytes) = elim (read_string false s) [
      | none ↦ none
      | some (value, rest) ↦ some (c ∷ value, rest)
    ] in
    if c == 92 then escaped else if c == 34 then some ([], s) else plain

-- The value of a text that begins with a quote.
unfoldable pub string_value : Bytes → Option Bytes
string_value [] = none
string_value (c ∷ s) =
    if c == 34
    then elim (read_string false s) [ none ↦ none | some (value, _) ↦ some value ]
    else none

unfoldable pub extract_json_string_field : Bytes → Bytes → Option Bytes
extract_json_string_field body field = do (_, value) ← value_of_key body field; string_value value

unfoldable pub extract_json_bool_field : Bytes → Bytes → Option Bool
extract_json_bool_field body field = do
  (_, value) ← value_of_key body field
  if starts_with value (bytes "true")
      then some true
      else if starts_with value (bytes "false")
      then some false
      else none
