-- ===== src/App/Serialize.antt =====
-- src/app/link_command_service.cpp: the JSON texts of a link, of its preview and of its statistics.
pub mod Lines
use url_shortener.Prelude.{
  Bool, true, false, ◌&&◌, ◌||◌, Option, none, some, List, [], ◌∷◌, ◌++◌, map, ltb, ◌==◌,
  if◌then◌else◌, Bytes, bytes, Map,
}
use url_shortener.Core.Text.{to_decimal}
use url_shortener.Core.Json.{json_string}
use url_shortener.Core.Link.{Campaign, Stats, redirect_type_to_string, link_status_to_string}
use url_shortener.App.Types.{LinkView}

-- The byte `"`.
abbrev pub quote : Bytes
quote = 34 ∷ []

-- `"key":`
unfoldable pub key : Bytes → Bytes
key name = quote ++ (name ++ (quote ++ bytes ":"))

-- Texts with a comma before each but the first.
unfoldable pub comma_rest : List Bytes → Bytes
comma_rest [] = []
comma_rest (x ∷ xs) = b',' ∷ (x ++ comma_rest xs)

unfoldable pub comma_list : List Bytes → Bytes
unfolding comma_rest
comma_list [] = []
comma_list (x ∷ xs) = x ++ comma_rest xs

-- The order of `std::string`: bytes as unsigned numbers, a prefix first.
unfoldable pub less : Bytes → Bytes → Bool
less [] [] = false
less [] (d ∷ t) = true
less (c ∷ s) [] = false
less (c ∷ s) (d ∷ t) = ltb c d || ((c == d) && less s t)

-- `std::sort` by key.
unfoldable pub insert_item : Bytes × Bytes → Map Bytes → Map Bytes
unfolding less
insert_item item [] = item ∷ []
insert_item (k, v) ((j, w) ∷ items) =
    if less j k then (j, w) ∷ insert_item (k, v) items else (k, v) ∷ (j, w) ∷ items

unfoldable pub sort_items : Map Bytes → Map Bytes
unfolding insert_item
sort_items [] = []
sort_items (item ∷ items) = insert_item item (sort_items items)

unfoldable pub metadata_items : Map Bytes → List Bytes
metadata_items [] = []
metadata_items ((k, v) ∷ items) = (json_string k ++ b':' ∷ json_string v) ∷ metadata_items items

unfoldable pub optional_string : Option Bytes → Bytes
optional_string none = bytes "null"
optional_string (some value) = json_string value

-- One call of `append`: nothing for an absent value.
unfoldable pub campaign_item : Bytes → Option Bytes → List Bytes → List Bytes
campaign_item name none items = items
campaign_item name (some value) items = (json_string name ++ b':' ∷ json_string value) ∷ items

unfoldable pub campaign_items : Campaign → List Bytes
unfolding campaign_item
campaign_items c = campaign_item (bytes "name") c.name (
    campaign_item (bytes "source") c.source (
      campaign_item (bytes "medium") c.medium (
        campaign_item (bytes "term") c.term
          (campaign_item (bytes "content") c.content (campaign_item (bytes "id") c.id [])))))

unfoldable pub campaign_json : Option Campaign → Bytes
unfolding campaign_items comma_list
campaign_json none = bytes "null"
campaign_json (some c) = b'{' ∷ (comma_list (campaign_items c) ++ bytes "}")

-- The pieces that are written, one behind another.
unfoldable pub joined : List Bytes → Bytes
joined [] = []
joined (x ∷ xs) = x ++ joined xs

unfoldable pub stats_json : Stats → List Bytes
unfolding key optional_string
stats_json stats =
    bytes "{"
    ∷ key (bytes "total_redirects")
    ∷ to_decimal stats.total_redirects
    ∷ bytes ","
    ∷ key (bytes "redirects_24h")
    ∷ to_decimal stats.redirects_24h
    ∷ bytes ","
    ∷ key (bytes "redirects_7d")
    ∷ to_decimal stats.redirects_7d
    ∷ bytes ","
    ∷ key (bytes "last_accessed_at")
    ∷ optional_string stats.last_accessed_at
    ∷ bytes "}"
    ∷ []

unfoldable pub link_view_pieces : LinkView → List Bytes
unfolding key comma_list metadata_items sort_items campaign_json stats_json
link_view_pieces link =
    bytes "{"
    ∷ key (bytes "id")
    ∷ json_string link.id
    ∷ bytes ","
    ∷ key (bytes "slug")
    ∷ json_string link.slug
    ∷ bytes ","
    ∷ key (bytes "url")
    ∷ json_string link.target_url
    ∷ bytes ","
    ∷ key (bytes "short_url")
    ∷ json_string link.short_url
    ∷ bytes ","
    ∷ key (bytes "created_at")
    ∷ json_string link.created_at
    ∷ bytes ","
    ∷ key (bytes "updated_at")
    ∷ json_string link.updated_at
    ∷ bytes ","
    ∷ key (bytes "status")
    ∷ json_string (link_status_to_string link.status)
    ∷ bytes ","
    ∷ key (bytes "redirect_type")
    ∷ json_string (redirect_type_to_string link.redirect_type)
    ∷ bytes ","
    ∷ key (bytes "tags")
    ∷ bytes "["
    ∷ comma_list (map json_string link.tags)
    ∷ bytes "],"
    ∷ key (bytes "metadata")
    ∷ bytes "{"
    ∷ comma_list (metadata_items (sort_items link.metadata))
    ∷ bytes "},"
    ∷ key (bytes "campaign")
    ∷ campaign_json link.campaign
    ∷ bytes ","
    ∷ key (bytes "stats")
    ∷ joined (stats_json link.stats)
    ∷ bytes "}"
    ∷ []

unfoldable pub serialize_link_view_json : LinkView → Bytes
unfolding link_view_pieces joined
serialize_link_view_json link = joined (link_view_pieces link)

unfoldable pub link_preview_pieces : LinkView → List Bytes
unfolding key optional_string
link_preview_pieces link =
    bytes "{"
    ∷ key (bytes "slug")
    ∷ json_string link.slug
    ∷ bytes ","
    ∷ key (bytes "url")
    ∷ json_string link.target_url
    ∷ bytes ","
    ∷ key (bytes "status")
    ∷ json_string (link_status_to_string link.status)
    ∷ bytes ","
    ∷ key (bytes "redirect_type")
    ∷ json_string (redirect_type_to_string link.redirect_type)
    ∷ bytes ","
    ∷ key (bytes "enabled")
    ∷ (if link.enabled then bytes "true" else bytes "false")
    ∷ bytes ","
    ∷ key (bytes "expires_at")
    ∷ optional_string link.expires_at
    ∷ bytes ","
    ∷ key (bytes "deleted_at")
    ∷ optional_string link.deleted_at
    ∷ bytes "}"
    ∷ []

unfoldable pub serialize_link_preview_json : LinkView → Bytes
unfolding link_preview_pieces joined
serialize_link_preview_json link = joined (link_preview_pieces link)
