-- ===== src/Cli/LinkArgs.antt =====
-- src/cli/link_command_args.cpp: from the flags behind a verb to the commands of
-- include/url_shortener/app/link_command_service.hpp.
pub mod Lists
pub mod Selectors
use url_shortener.Prelude.{
  Bool, true, false, ◌&&◌, ◌||◌, not, Option, none, some, List, [], ◌∷◌, ◌++◌, ◌==◌, if◌then◌else◌,
  is_some, is_empty, Bytes, bytes, ◌=ᵇ◌, Map, insert,
}
use url_shortener.Core.Link.{Campaign}
use url_shortener.App.Types.{
  GetLinkBy, GetLinkQuery, DeleteLinkCommand, SetLinkEnabledCommand, RestoreLinkCommand,
  GetLinkStatsQuery,
}
use url_shortener.Cli.Options.{
  Parsed, parsed, rejected, ◌>>=◌, Variables, OptionsParser, single_values, is_given, text_of,
}

unfoldable pub is_one_of : List Bytes → Bytes → Bool
is_one_of [] value = false
is_one_of (w ∷ ws) value = (value =ᵇ w) || is_one_of ws value

abbrev pub true_words : List Bytes
true_words = bytes "1" ∷ bytes "true" ∷ bytes "on" ∷ bytes "yes" ∷ []

abbrev pub false_words : List Bytes
false_words = bytes "0" ∷ bytes "false" ∷ bytes "off" ∷ bytes "no" ∷ []

unfoldable pub parse_bool_flag : Bytes → Bytes → Parsed Bool
unfolding is_one_of
parse_bool_flag flag value =
    if is_one_of true_words value
    then parsed true
    else if is_one_of false_words value
    then parsed false
    else rejected (
        bytes "Invalid boolean value for "
        ++ (flag ++ (bytes ": '" ++ (value ++ bytes "'. Use true/false, 1/0, on/off, or yes/no."))))

unfoldable pub require_nonempty : Bytes → Bytes → Parsed Unit
require_nonempty flag value =
    if is_empty value then rejected (flag ++ bytes " must not be empty.") else parsed tt

-- The loop of `splitCommaList`: the first token and those behind it.
unfoldable pub tokens_of : Bytes → Bytes × List Bytes
tokens_of [] = ([], [])
tokens_of (c ∷ s) =
    let (token, rest) = tokens_of s in if c == b',' then ([], token ∷ rest) else (c ∷ token, rest)

unfoldable pub split_comma_list : Bytes → List Bytes
unfolding tokens_of
split_comma_list [] = []
split_comma_list (c ∷ s) = (tokens_of (c ∷ s)).0 ∷ (tokens_of (c ∷ s)).1

-- The key before the first `=` and the value behind it.
unfoldable pub split_equals : Bytes → Option (Bytes × Bytes)
split_equals [] = none
split_equals (c ∷ s) =
    if c == b'='
    then some ([], s)
    else elim (split_equals s) [ none ↦ none | some (k, v) ↦ some (c ∷ k, v) ]

unfoldable pub has_equals : Bytes → Bool
unfolding split_equals
has_equals s = is_some (split_equals s)

unfoldable pub bad_list_entry : Bytes → Parsed (Map Bytes)
bad_list_entry entry = rejected (
    bytes "Invalid --metadata entry: '"
    ++ (entry ++ bytes "'. Expected KEY=VALUE with exactly one '=' and a non-empty KEY."))

unfoldable pub add_list_entry : Bytes → Map Bytes → Parsed (Map Bytes)
unfolding split_equals has_equals bad_list_entry
add_list_entry entry parsed_so_far = elim (split_equals entry) [
  | none ↦ bad_list_entry entry
  | some (key, value) ↦
      if is_empty key || has_equals value
      then bad_list_entry entry
      else parsed (insert key value parsed_so_far)
]

unfoldable pub add_list_entries : List Bytes → Map Bytes → Parsed (Map Bytes)
unfolding add_list_entry
add_list_entries [] m = parsed m
add_list_entries (entry ∷ entries) m = do
  added ← add_list_entry entry m
  add_list_entries entries added

unfoldable pub parse_metadata_list : Bytes → Parsed (Map Bytes)
unfolding split_comma_list add_list_entries
parse_metadata_list value = add_list_entries (split_comma_list value) []

-- The campaign that the `--campaign-*` flags describe.
unfoldable pub has_campaign_field : Variables → Bool
has_campaign_field vm =
    is_given vm (bytes "campaign-name")
    || is_given vm (bytes "campaign-source")
    || is_given vm (bytes "campaign-medium")
    || is_given vm (bytes "campaign-term")
    || is_given vm (bytes "campaign-content")
    || is_given vm (bytes "campaign-id")

unfoldable pub campaign_of : Variables → Campaign
campaign_of vm = record {
  name = vm.value (bytes "campaign-name");
  source = vm.value (bytes "campaign-source");
  medium = vm.value (bytes "campaign-medium");
  term = vm.value (bytes "campaign-term");
  content = vm.value (bytes "campaign-content");
  id = vm.value (bytes "campaign-id");
}

abbrev pub campaign_names : List Bytes
campaign_names =
    bytes "campaign-name"
    ∷ bytes "campaign-source"
    ∷ bytes "campaign-medium"
    ∷ bytes "campaign-term"
    ∷ bytes "campaign-content"
    ∷ bytes "campaign-id"
    ∷ []

unfoldable pub select_link : Bytes → Variables → Parsed GetLinkQuery
unfolding require_nonempty
select_link verb_label vm =
    let has_slug = is_given vm (bytes "slug") in
    let has_id = is_given vm (bytes "id") in
    if has_slug && has_id
    then rejected (verb_label ++ bytes " accepts exactly one of --slug or --id, not both.")
    else if not has_slug && not has_id
    then rejected (verb_label ++ bytes " requires one of --slug <SLUG> or --id <ID>.")
    else if has_slug
    then (require_nonempty (bytes "--slug") (text_of vm (bytes "slug")) >>= (λ (u : Unit).
        parsed (record { by = GetLinkBy.slug; value = text_of vm (bytes "slug") })))
    else (require_nonempty (bytes "--id") (text_of vm (bytes "id"))
        >>= (λ (u : Unit). parsed (record { by = GetLinkBy.id; value = text_of vm (bytes "id") })))

unfoldable pub require_slug : Bytes → Variables → Parsed Bytes
unfolding require_nonempty
require_slug verb_label vm = elim (vm.value (bytes "slug")) [
  | none ↦ rejected (verb_label ++ bytes " requires --slug <SLUG>.")
  | some slug ↦ require_nonempty (bytes "--slug") slug >>= (λ (u : Unit). parsed slug)
]

unfoldable pub stats_query : Variables → Parsed GetLinkStatsQuery
unfolding require_nonempty
stats_query vm =
    if not (is_given vm (bytes "slug"))
    then rejected (bytes "link stats requires --slug <SLUG>.")
    else if not (is_given vm (bytes "from"))
    then rejected (bytes "link stats requires --from <EPOCH>.")
    else if not (is_given vm (bytes "to"))
    then rejected (bytes "link stats requires --to <EPOCH>.")
    else if not (is_given vm (bytes "bucket"))
    then rejected (bytes "link stats requires --bucket <BUCKET>.")
    else do
      _ ← require_nonempty (bytes "--slug") (text_of vm (bytes "slug"))
      _ ← require_nonempty (bytes "--from") (text_of vm (bytes "from"))
      _ ← require_nonempty (bytes "--to") (text_of vm (bytes "to"))
      _ ← require_nonempty (bytes "--bucket") (text_of vm (bytes "bucket"))
      parsed (record {
        slug = text_of vm (bytes "slug");
        from = text_of vm (bytes "from");
        to = text_of vm (bytes "to");
        bucket = text_of vm (bytes "bucket");
      })

module _ (run : OptionsParser) where
  unfoldable pub parse_get_like_args : List Bytes → Bytes → Parsed GetLinkQuery
  parse_get_like_args args verb_label =
      run (single_values (bytes "slug" ∷ bytes "id" ∷ [])) args >>= select_link verb_label

  unfoldable pub parse_slug_only : List Bytes → Bytes → Parsed Bytes
  parse_slug_only args verb_label =
      run (single_values (bytes "slug" ∷ [])) args >>= require_slug verb_label

  unfoldable pub parse_get_args : List Bytes → Parsed GetLinkQuery
  parse_get_args args = parse_get_like_args args (bytes "link get")

  unfoldable pub parse_preview_args : List Bytes → Parsed GetLinkQuery
  parse_preview_args args = parse_get_like_args args (bytes "link preview")

  unfoldable pub parse_delete_args : List Bytes → Parsed DeleteLinkCommand
  parse_delete_args args =
      parse_slug_only args (bytes "link delete")
      >>= (λ (slug : Bytes). parsed (record { slug = slug }))

  unfoldable pub parse_set_enabled_args : List Bytes → Bool → Parsed SetLinkEnabledCommand
  parse_set_enabled_args args enabled =
      parse_slug_only args (if enabled then bytes "link enable" else bytes "link disable")
      >>= (λ (slug : Bytes). parsed (record { slug = slug; enabled = enabled }))

  unfoldable pub parse_restore_args : List Bytes → Parsed RestoreLinkCommand
  parse_restore_args args =
      parse_slug_only args (bytes "link restore")
      >>= (λ (slug : Bytes). parsed (record { slug = slug }))

  unfoldable pub parse_stats_args : List Bytes → Parsed GetLinkStatsQuery
  parse_stats_args args =
      run (single_values (bytes "slug" ∷ bytes "from" ∷ bytes "to" ∷ bytes "bucket" ∷ [])) args
      >>= stats_query
