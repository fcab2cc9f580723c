-- ===== src/Cli/Server/Environment.antt =====
-- src/cli_parser.cpp: the environment variables, which `CliParser::parse` reads before the
-- arguments.
use url_shortener.Prelude.{
  ℕ, ◌-◌, ◌%◌, ◌^◌, Bool, true, false, ◌||◌, Option, none, some, [], ◌∷◌, ◌++◌, ltb, leb, ◌==◌,
  if◌then◌else◌, value_or, is_empty, Bytes, bytes, is_digit, is_space,
}
use url_shortener.Core.Text.{take_while, drop_while}
use url_shortener.Core.Config.{ServerConfig}
use url_shortener.Security.Passwords.{digits_value}
use url_shortener.Cli.Options.{Parsed, parsed, rejected, ◌>>=◌}
use url_shortener.Cli.LinkArgs.{is_one_of, true_words, false_words}

unfoldable pub parse_bool : Bytes → Parsed Bool
unfolding is_one_of
parse_bool value =
    if is_one_of true_words value
    then parsed true
    else if is_one_of false_words value
    then parsed false
    else rejected (
        bytes "Invalid boolean value: '"
        ++ (value ++ bytes "'. Use true/false, 1/0, on/off, or yes/no."))

-- `std::stoul` with 64 bits: a minus wraps around, and the text behind the digits is ignored.
unfoldable pub stoul_digits : Bool → Bytes → Parsed ℕ
unfolding digits_value take_while
stoul_digits negative s =
    let digits = take_while is_digit s in
    let n = digits_value 0 digits in
    if is_empty digits || leb (2 ^ 64) n
    then rejected (bytes "stoul")
    else if negative
    then parsed ((2 ^ 64 - n) % 2 ^ 64)
    else parsed n

unfoldable pub stoul_signed : Bytes → Parsed ℕ
unfolding stoul_digits
stoul_signed [] = rejected (bytes "stoul")
stoul_signed (c ∷ s) =
    if c == b'-'
    then stoul_digits true s
    else if c == b'+'
    then stoul_digits false s
    else stoul_digits false (c ∷ s)

unfoldable pub stoul : Bytes → Parsed ℕ
unfolding stoul_signed drop_while
stoul s = stoul_signed (drop_while is_space s)

unfoldable pub below_uint32 : Bytes → Parsed ℕ → Parsed ℕ
below_uint32 name (rejected e) = rejected (name ++ (bytes ": " ++ e))
below_uint32 name (parsed n) =
    if ltb 4294967295 n
    then rejected (name ++ (bytes ": " ++ bytes "value exceeds uint32 max"))
    else parsed n

unfoldable pub read_uint32 : Bytes → Bytes → Parsed ℕ
unfolding below_uint32 stoul
read_uint32 name value = below_uint32 name (stoul value)

module _ (getenv : Bytes → Option Bytes) where
  unfoldable pub env_expiry : ServerConfig → Parsed ServerConfig
  env_expiry config = elim (getenv (bytes "SHORTENER_DEFAULT_EXPIRY_SECONDS")) [
    | none ↦ parsed config
    | some value ↦
        read_uint32 (bytes "SHORTENER_DEFAULT_EXPIRY_SECONDS") value
        >>= (λ (n : ℕ). parsed (record config { shortener_default_expiry_seconds = some n }))
  ]

  unfoldable pub env_slug_length : ServerConfig → Parsed ServerConfig
  env_slug_length config = elim (getenv (bytes "SHORTENER_GENERATED_SLUG_LENGTH")) [
    | none ↦ parsed config
    | some value ↦
        read_uint32 (bytes "SHORTENER_GENERATED_SLUG_LENGTH") value
        >>= (λ (n : ℕ). parsed (record config { shortener_generated_slug_length = n }))
  ]

  unfoldable pub env_allow_private : ServerConfig → Parsed ServerConfig
  env_allow_private config = elim (getenv (bytes "SHORTENER_ALLOW_PRIVATE_TARGETS")) [
    | none ↦ parsed config
    | some value ↦
        parse_bool value
        >>= (λ (b : Bool). parsed (record config { shortener_allow_private_targets = b }))
  ]

  unfoldable pub load_environment : ServerConfig → Parsed ServerConfig
  unfolding env_expiry env_slug_length env_allow_private
  load_environment config = do
    c1 ← env_expiry (record config {
      shortener_base_domain =
          value_or (getenv (bytes "SHORTENER_BASE_DOMAIN")) config.shortener_base_domain;
      shortener_default_redirect_type =
          value_or (getenv (bytes "SHORTENER_DEFAULT_REDIRECT_TYPE"))
            config.shortener_default_redirect_type;
    })
    c2 ← env_slug_length c1
    env_allow_private c2
