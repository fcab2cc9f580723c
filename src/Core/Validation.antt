-- ===== src/Core/Validation.antt =====
-- The limits on tags, metadata and campaigns (src/core/utils.cpp: validateTags, validateMetadata,
-- validateCampaignField, validateCampaign). `validateTags` returns a flag and rewrites its
-- argument: here it returns the new list, or `none` for `false`.
pub mod Tags
use url_shortener.Prelude.{
  ℕ, Bool, true, ◌&&◌, ◌||◌, not, Option, none, some, List, [], ◌∷◌, ltb, leb, ◌==◌, if◌then◌else◌,
  length, is_empty, all, Bytes, is_alnum, Map,
}
use url_shortener.Core.Text.{trim}
use url_shortener.Core.Slug.{contains}
use url_shortener.Core.Link.{Campaign}

unfoldable pub is_tag_char : ℕ → Bool
is_tag_char c = is_alnum c || (c == b':') || (c == b'-') || (c == b'_')

-- The tests on one trimmed tag.
unfoldable pub is_tag : Bytes → Bool
unfolding is_tag_char
is_tag tag = not (is_empty tag) && leb (length tag) 32 && all is_tag_char tag

-- The loop over the tags; `seen` holds the tags already in `normalized`, which is built in order.
unfoldable pub normalize_tags : List Bytes → List Bytes → Option (List Bytes)
normalize_tags seen [] = some []
normalize_tags seen (raw_tag ∷ raw_tags) =
    let tag = trim raw_tag in
    let repeated = contains seen tag in
    let rest = normalize_tags (if repeated then seen else tag ∷ seen) raw_tags in
    if is_tag tag
    then elim rest [ none ↦ none | some tags ↦ some (if repeated then tags else tag ∷ tags) ]
    else none

unfoldable pub validate_tags : List Bytes → Option (List Bytes)
validate_tags tags = if ltb 20 (length tags) then none else normalize_tags [] tags

unfoldable pub validate_entry : Bytes × Bytes → Bool
validate_entry (key, value) = not (is_empty key) && leb (length key) 64 && leb (length value) 512

unfoldable pub validate_metadata : Map Bytes → Bool
unfolding validate_entry
validate_metadata metadata = leb (length metadata) 50 && all validate_entry metadata

unfoldable pub validate_campaign_field : Option Bytes → Bool
validate_campaign_field none = true
validate_campaign_field (some field) = leb (length field) 128

unfoldable pub validate_campaign : Option Campaign → Bool
unfolding validate_campaign_field
validate_campaign none = true
validate_campaign (some c) =
    validate_campaign_field c.name
    && validate_campaign_field c.source
    && validate_campaign_field c.medium
    && validate_campaign_field c.term
    && validate_campaign_field c.content
    && validate_campaign_field c.id
