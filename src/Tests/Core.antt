-- ===== src/Tests/Core.antt =====
-- The theorems on src/core/utils.cpp at concrete inputs.
use url_shortener.Prelude.{
  ◌≡◌, refl, true, false, some, List, [], ◌∷◌, ◌++◌, is_some, Bytes, bytes, starts_with, ◌=ᵇ◌,
}
use url_shortener.Core.Text.{
  has_byte, take_while, drop_while, trim, is_blank, strip_left, strip_right, find, find_behind,
  drop_last, last_is,
}
use url_shortener.Core.Url.{
  is_scheme_char, is_authority_char, is_regex_any, split_rest, split_url, loopback_names,
  private_prefixes, equals_any, has_prefix_of, strip_brackets, is_private_host, port_of,
  written_port, normalize_split, normalize_target_url,
}
use url_shortener.Core.Url.Accepted.{normalize_target_url-IsNormalized}
use url_shortener.Core.Url.Normalized.{IsNormalized}
use url_shortener.Core.Url.Target.{normalize_split-bracket}
use url_shortener.Core.Json.{json_string, string_value}
use url_shortener.Core.Json.Strings.{string_value-json_string, read_back}

abbrev raw_tags : List Bytes
raw_tags = bytes " team " ∷ bytes "docs" ∷ []

normalize_target_url-IsNormalized_example :
    IsNormalized false (bytes " HTTP://Example.com:80/a") (bytes "http://example.com/a")
unfolding has_byte take_while drop_while trim is_blank strip_left strip_right find find_behind
    drop_last last_is is_scheme_char is_authority_char is_regex_any split_rest split_url
    loopback_names private_prefixes equals_any has_prefix_of strip_brackets is_private_host port_of
    written_port normalize_split normalize_target_url starts_with ◌=ᵇ◌
normalize_target_url-IsNormalized_example =
    (normalize_target_url-IsNormalized false (bytes " HTTP://Example.com:80/a")
        (bytes "http://example.com/a")).0
      refl

normalize_split-bracket_example :
    (is_private_host (bytes "[::1]") ≡ true)
    × (is_some (normalize_split false (bytes "http") (bytes "[::1]/admin")) ≡ true)
unfolding has_byte take_while is_authority_char
normalize_split-bracket_example = normalize_split-bracket (bytes ":1]/admin") refl

string_value-json_string_example :
    string_value (json_string (bytes "a\nb") ++ bytes ",") ≡ some (bytes "anb")
unfolding read_back
string_value-json_string_example = string_value-json_string (bytes "a\nb") (bytes ",")
