-- ===== src/Cli/Update/Fields.antt =====
-- The flags behind each field of the command that `parseUpdateArgs` of src/cli/link_command_args.cpp
-- returns.
use url_shortener.Prelude.{
  ◌≡◌, refl, ◌||◌, Option, none, some, List, ◌++◌, arith, is_some, Bytes, bytes,
}
use url_shortener.Core.Link.{Campaign}
use url_shortener.App.Types.{UpdateLinkCommand}
use url_shortener.Cli.Options.{Parsed, parsed, rejected, Variables, ◌>>=◌}
use url_shortener.Cli.LinkArgs.{
  parse_bool_flag, require_nonempty, require_slug, parse_metadata_list, has_campaign_field,
  split_comma_list,
}
use url_shortener.Cli.Create.{optional_flag}
use url_shortener.Cli.Update.{expires_at_value, campaign_change, update_command}
use url_shortener.Cli.Options.Returns.{parsed-same}

-- The fields of the command, as the flags give them.
pub record FromFlags (vm : Variables) (c : UpdateLinkCommand) : Type 0 where
  pub slug_given : vm.value (bytes "slug") ≡ some c.slug
  pub enabled_given : is_some c.enabled ≡ is_some (vm.value (bytes "enabled"))
  pub expires_at_given : is_some c.expires_at ≡ is_some (vm.value (bytes "expires-at"))
  pub tags_given : is_some c.tags ≡ is_some (vm.value (bytes "tags"))
  pub metadata_given : is_some c.metadata ≡ is_some (vm.value (bytes "metadata"))
  pub campaign_given :
      is_some c.campaign ≡ (has_campaign_field vm || vm.is_on (bytes "clear-campaign"))

-- A `do` block that returned went through its parts.
bind-parsed :
    {A B : Type 0} (r : Parsed A) (f : A → Parsed B) (y : B)
    → (r >>= f) ≡ parsed y
    → (x : A) × (r ≡ parsed x) × (f x ≡ parsed y)
bind-parsed (parsed x) f y e = (x, refl, e)
bind-parsed (rejected t) f y e = cc

parsed-is_some :
    {A : Type 0} (x y : Option A)
    → ◌≡◌ {A = Parsed (Option A)} (parsed x) (parsed y)
    → is_some y ≡ is_some x
parsed-is_some x y e = cc

optional_flag-given :
    {A : Type 0} (check : Bytes → Parsed A) (o : Option Bytes) (r : Option A)
    → optional_flag check o ≡ parsed r
    → is_some r ≡ is_some o
unfolding optional_flag
optional_flag-given check none r e = parsed-is_some none r e
optional_flag-given check (some value) r e =
    let (x, checked, last) = bind-parsed (check value) _ r e in parsed-is_some (some x) r last

require_slug-given :
    (label : Bytes) (vm : Variables) (slug : Bytes)
    → require_slug label vm ≡ parsed slug
    → vm.value (bytes "slug") ≡ some slug
unfolding require_slug
require_slug-given label vm slug e = by_flag (vm.value (bytes "slug")) e
  where
    by_flag :
        (o : Option Bytes)
        → elim o [
          | none ↦ rejected (label ++ bytes " requires --slug <SLUG>.")
          | some given ↦ require_nonempty (bytes "--slug") given >>= (λ (u : Unit). parsed given)
        ]
          ≡ parsed slug
        → o ≡ some slug
    by_flag none h = cc
    by_flag (some given) h =
        let (u, checked, last) = bind-parsed (require_nonempty (bytes "--slug") given) _ slug h in
        cc

campaign_change-given :
    (vm : Variables) (r : Option (Option Campaign))
    → campaign_change vm ≡ parsed r
    → is_some r ≡ (has_campaign_field vm || vm.is_on (bytes "clear-campaign"))
unfolding campaign_change
campaign_change-given vm r e = ground arith

tags_from_flag :
    (o : Option Bytes)
    → is_some (elim o as (λ _. Option (List Bytes)) [
      | none ↦ none
      | some tags ↦ some (split_comma_list tags)
    ])
      ≡ is_some o
tags_from_flag none = refl
tags_from_flag (some tags) = refl

from_parts :
    (vm : Variables) (c : UpdateLinkCommand)
    → require_slug (bytes "link update") vm ≡ parsed c.slug
    → optional_flag (parse_bool_flag (bytes "--enabled")) (vm.value (bytes "enabled"))
      ≡ parsed c.enabled
    → optional_flag expires_at_value (vm.value (bytes "expires-at")) ≡ parsed c.expires_at
    → is_some c.tags ≡ is_some (vm.value (bytes "tags"))
    → optional_flag parse_metadata_list (vm.value (bytes "metadata")) ≡ parsed c.metadata
    → campaign_change vm ≡ parsed c.campaign
    → FromFlags vm c
from_parts vm c e1 e2 e3 t e4 e5 = record {
  slug_given = require_slug-given (bytes "link update") vm c.slug e1;
  enabled_given =
      optional_flag-given (parse_bool_flag (bytes "--enabled")) (vm.value (bytes "enabled"))
        c.enabled e2;
  expires_at_given =
      optional_flag-given expires_at_value (vm.value (bytes "expires-at")) c.expires_at e3;
  tags_given = t;
  metadata_given =
      optional_flag-given parse_metadata_list (vm.value (bytes "metadata")) c.metadata e4;
  campaign_given = campaign_change-given vm c.campaign e5;
}

pub update_command-FromFlags :
    (vm : Variables) (c : UpdateLinkCommand) → update_command vm ≡ parsed c → FromFlags vm c
unfolding update_command
update_command-FromFlags vm c e =
    let (slug, e1, r1) = bind-parsed (require_slug (bytes "link update") vm) _ c e in
    let (enabled, e2, r2) =
      bind-parsed (optional_flag (parse_bool_flag (bytes "--enabled")) (vm.value (bytes "enabled")))
        _ c r1 in
    let (expires_at, e3, r3) =
      bind-parsed (optional_flag expires_at_value (vm.value (bytes "expires-at"))) _ c r2 in
    let (metadata, e4, r4) =
      bind-parsed (optional_flag parse_metadata_list (vm.value (bytes "metadata"))) _ c r3 in
    let (campaign, e5, r5) = bind-parsed (campaign_change vm) _ c r4 in
    rw (parsed-same _ c r5)
      (from_parts vm _ e1 e2 e3 (tags_from_flag (vm.value (bytes "tags"))) e4 e5)
