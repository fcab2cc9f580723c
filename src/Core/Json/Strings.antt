-- ===== src/Core/Json/Strings.antt =====
-- Strings written by `jsonString` and read back by the field extractors (src/core/utils.cpp).
use url_shortener.Prelude.{
  ℕ, ◌≡◌, refl, false, some, [], ◌∷◌, ◌++◌, map, append_assoc, arith, ◌==◌, if◌then◌else◌, Bytes,
}
use url_shortener.Core.Json.{json_escape, json_string, read_string, string_value}

-- What the reader makes of one byte that the writer wrote: the three control characters that are
-- written as a backslash and a letter come back as the letter.
unfoldable pub read_back : ℕ → ℕ
read_back c = if c == 10 then b'n' else if c == 13 then b'r' else if c == 9 then b't' else c

read_string-json_escape :
    (s rest : Bytes) → read_string false (json_escape s ++ 34 ∷ rest) ≡ some (map read_back s, rest)
unfolding read_string json_escape read_back
read_string-json_escape [] rest = refl
read_string-json_escape (c ∷ s) rest = ground (arith, read_string-json_escape s rest)

-- A written string, with any text behind it, is read back byte for byte, but for newline, carriage
-- return and tab, which come back as the letters n, r and t.
pub string_value-json_string :
    (s rest : Bytes) → string_value (json_string s ++ rest) ≡ some (map read_back s)
unfolding string_value json_string
string_value-json_string s rest =
    rw (append_assoc (json_escape s) (34 ∷ []) rest, read_string-json_escape s rest)
