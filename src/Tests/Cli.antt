-- ===== src/Tests/Cli.antt =====
-- The theorems on src/cli and src/cli_parser.cpp at concrete inputs.
use url_shortener.Prelude.{
  ℕ, ◌≡◌, refl, ◌↔◌, ◌⊎◌, Bool, true, false, Option, none, some, List, [], ◌∷◌, ◌++◌, if◌then◌else◌,
  is_empty, all, Bytes, bytes, ◌=ᵇ◌, pos,
}
use url_shortener.Core.Link.{Link}
use url_shortener.Core.Config.{default_config}
use url_shortener.App.Types.{UpdateLinkCommand, GetLinkBy, GetLinkQuery, AppError, not_found}
use url_shortener.App.Service.Commands.{patch_link}
use url_shortener.Cli.Options.{parsed, rejected, Variables, OptionsParser}
use url_shortener.Cli.LinkArgs.{
  select_link, split_comma_list, require_slug, parse_bool_flag, has_campaign_field,
}
use url_shortener.Cli.LinkArgs.Lists.{is_token, join_commas, split_comma_list_iff}
use url_shortener.Cli.LinkArgs.Selectors.{BySlug, ById, select_link_iff}
use url_shortener.Cli.Update.{update_command}
use url_shortener.Cli.Update.Patched.{ChangesOnlyGiven, update_command-ChangesOnlyGiven}
use url_shortener.Cli.Verbs.{LinkCliCommand, deleting}
use url_shortener.Cli.HelpTexts.{LinkCliVerb, del}
use url_shortener.Cli.Server.{ParseResult, parse}
use url_shortener.Cli.Server.Environment.{stoul}
use url_shortener.Cli.Server.Ports.{HasPorts}
use url_shortener.Cli.Server.Ports.Whole.{parse-HasPorts}
use url_shortener.Tests.{demo_link}
use url_shortener.Cli.Create.{optional_flag}
use url_shortener.Core.Link.Time.{format_timestamp}
use url_shortener.Storage.LinkRepository

-- A reader of `--name value`, for the first of each name.
unfoldable value_behind : Bytes → List Bytes → Option Bytes
value_behind name [] = none
value_behind name (flag ∷ []) = none
value_behind name (flag ∷ value ∷ rest) =
    if flag =ᵇ (bytes "--" ++ name) then some value else value_behind name rest

unfoldable number_in : Option Bytes → Option ℕ
unfolding stoul
number_in none = none
number_in (some value) = elim (stoul value) [ parsed n ↦ some n | rejected e ↦ none ]

unfoldable variables_of : List Bytes → Variables
unfolding value_behind number_in
variables_of args = record {
  value = λ name. value_behind name args;
  number_of = λ name. number_in (value_behind name args);
  values = λ name. [];
  is_on = λ name. false;
}

unfoldable pairs_parser : OptionsParser
unfolding variables_of
pairs_parser description args = parsed (variables_of args)

abbrev no_environment : Bytes → Option Bytes
no_environment name = none

abbrev port_args : List Bytes
port_args = bytes "--http-port" ∷ bytes "8080" ∷ []

abbrev served : ParseResult
served = record {
  config = record default_config { http_port = 8080 };
  help_text = none;
  command = none;
}

parse-HasPorts_example : HasPorts (record default_config { http_port = 8080 })
unfolding parse ◌=ᵇ◌ pairs_parser
parse-HasPorts_example =
    parse-HasPorts pairs_parser (bytes "Generic options:") no_environment port_args served refl

split_comma_list_iff_example :
    (split_comma_list (bytes "a,,b") ≡ bytes "a" ∷ [] ∷ bytes "b" ∷ []) ↔ (
      (all is_token (bytes "a" ∷ [] ∷ bytes "b" ∷ []) ≡ true)
      × (join_commas (bytes "a" ∷ [] ∷ bytes "b" ∷ []) ≡ bytes "a,,b"))
split_comma_list_iff_example =
    split_comma_list_iff (bytes "a,,b") (bytes "a" ∷ [] ∷ bytes "b" ∷ []) refl

abbrev docs_flags : Variables
docs_flags = variables_of (bytes "--slug" ∷ bytes "docs" ∷ [])

abbrev docs_query : GetLinkQuery
docs_query = record { by = GetLinkBy.slug; value = bytes "docs" }

select_link_iff_example : (select_link (bytes "link get") docs_flags ≡ parsed docs_query) ↔ (
    (is_empty (bytes "docs") ≡ false) × (BySlug docs_flags docs_query ⊎ ById docs_flags docs_query))
select_link_iff_example = select_link_iff (bytes "link get") docs_flags docs_query

abbrev disable_flags : Variables
disable_flags = variables_of (bytes "--slug" ∷ bytes "docs" ∷ bytes "--enabled" ∷ bytes "off" ∷ [])

abbrev disable_docs : UpdateLinkCommand
disable_docs = record {
  slug = bytes "docs";
  enabled = some false;
  expires_at = none;
  tags = none;
  metadata = none;
  campaign = none;
}

abbrev disabled_docs : Link
disabled_docs = record demo_link { enabled = false; updated_at = bytes "2024-02-01T00:00:00Z" }

update_command-ChangesOnlyGiven_example : ChangesOnlyGiven disable_flags demo_link disabled_docs
unfolding update_command require_slug variables_of ◌=ᵇ◌ optional_flag parse_bool_flag
    has_campaign_field patch_link format_timestamp
update_command-ChangesOnlyGiven_example =
    update_command-ChangesOnlyGiven (pos 1706745600) disable_flags disable_docs demo_link
      disabled_docs refl refl

abbrev delete_blog : LinkCliCommand
delete_blog = deleting (record { slug = bytes "blog" })

is_delete : LinkCliVerb → Bool
is_delete del = true
is_delete other = false

abbrev no_link : AppError
no_link = record { code = not_found; detail = bytes "Link not found" }
