-- ===== src/App/Serialize/Lines.antt =====
-- The JSON texts of src/app/link_command_service.cpp on one line.
use url_shortener.Prelude.{
  ℕ, zero, suc, ◌+◌, ◌/◌, ◌%◌, ◌≡◌, refl, inl, inr, Bool, true, false, not, Option, none, some,
  List, [], ◌∷◌, ◌++◌, map, arith, ◌==◌, if◌then◌else◌, Bool-cases, and-true_left, and-true_right,
  all, Bytes, bytes, Map,
}
use url_shortener.Core.Text.{has_byte, to_decimal, decimal_from}
use url_shortener.Core.Json.{json_escape, json_string}
use url_shortener.Core.Link.{Campaign, Stats, redirect_type_to_string, link_status_to_string}
use url_shortener.App.Types.{LinkView}
use url_shortener.App.Serialize.{
  key, comma_rest, comma_list, sort_items, metadata_items, optional_string, campaign_item,
  campaign_items, campaign_json, joined, stats_json, link_view_pieces, serialize_link_view_json,
  link_preview_pieces, serialize_link_preview_json,
}

-- A text without line feed.
abbrev pub is_line : Bytes → Bool
is_line s = not (has_byte 10 s)

pub is_line-append : (s t : Bytes) → is_line s ≡ true → is_line t ≡ true → is_line (s ++ t) ≡ true
unfolding has_byte
is_line-append [] t h k = k
is_line-append (c ∷ s) t h k = ground (arith, is_line-append s t)

is_line-json_escape : (s : Bytes) → is_line (json_escape s) ≡ true
unfolding has_byte json_escape
is_line-json_escape [] = refl
is_line-json_escape (c ∷ s) = ground (arith, is_line-json_escape s)

pub is_line-json_string : (s : Bytes) → is_line (json_string s) ≡ true
unfolding has_byte json_string
is_line-json_string s = is_line-append (json_escape s) (34 ∷ []) (is_line-json_escape s) refl

pub is_line-joined : (xs : List Bytes) → all is_line xs ≡ true → is_line (joined xs) ≡ true
unfolding joined has_byte
is_line-joined [] h = refl
is_line-joined (x ∷ xs) h =
    is_line-append x (joined xs) (and-true_left (is_line x) (all is_line xs) h)
      (is_line-joined xs (and-true_right (is_line x) (all is_line xs) h))

is_line-comma_rest : (xs : List Bytes) → all is_line xs ≡ true → is_line (comma_rest xs) ≡ true
unfolding comma_rest has_byte
is_line-comma_rest [] h = refl
is_line-comma_rest (x ∷ xs) h =
    is_line-append x (comma_rest xs) (and-true_left (is_line x) (all is_line xs) h)
      (is_line-comma_rest xs (and-true_right (is_line x) (all is_line xs) h))

pub is_line-comma_list : (xs : List Bytes) → all is_line xs ≡ true → is_line (comma_list xs) ≡ true
unfolding comma_list has_byte
is_line-comma_list [] h = refl
is_line-comma_list (x ∷ xs) h =
    is_line-append x (comma_rest xs) (and-true_left (is_line x) (all is_line xs) h)
      (is_line-comma_rest xs (and-true_right (is_line x) (all is_line xs) h))

is_line-decimal_from :
    (fuel n : ℕ) (acc : Bytes) → is_line acc ≡ true → is_line (decimal_from fuel n acc) ≡ true
unfolding decimal_from has_byte
is_line-decimal_from zero n acc h = h
is_line-decimal_from (suc fuel) n acc h =
    let digit : is_line ((b'0' + n % 10) ∷ acc) ≡ true = ground arith in
    elim (Bool-cases (n / 10 == 0)) [
      | inl e ↦ rw (e, decimal_from) digit
      | inr e ↦
          rw (e, decimal_from) (is_line-decimal_from fuel (n / 10) ((b'0' + n % 10) ∷ acc) digit)
    ]

pub is_line-to_decimal : (n : ℕ) → is_line (to_decimal n) ≡ true
unfolding to_decimal has_byte
is_line-to_decimal n = is_line-decimal_from (suc n) n [] refl

all-json_string : (xs : List Bytes) → all is_line (map json_string xs) ≡ true
all-json_string [] = refl
all-json_string (x ∷ xs) = rw (is_line-json_string x) (all-json_string xs)

pair_line : (k v : Bytes) → is_line (json_string k ++ b':' ∷ json_string v) ≡ true
unfolding has_byte
pair_line k v =
    is_line-append (json_string k) (b':' ∷ json_string v) (is_line-json_string k)
      (is_line-json_string v)

all-metadata_items : (items : Map Bytes) → all is_line (metadata_items items) ≡ true
unfolding metadata_items
all-metadata_items [] = refl
all-metadata_items ((k, v) ∷ items) = rw (pair_line k v) (all-metadata_items items)

is_line-optional_string : (o : Option Bytes) → is_line (optional_string o) ≡ true
unfolding optional_string has_byte
is_line-optional_string none = refl
is_line-optional_string (some v) = is_line-json_string v

all-campaign_item :
    (name : Bytes) (o : Option Bytes) (items : List Bytes)
    → all is_line items ≡ true
    → all is_line (campaign_item name o items) ≡ true
unfolding campaign_item
all-campaign_item name none items h = h
all-campaign_item name (some v) items h = rw (pair_line name v) h

is_line-campaign_json : (o : Option Campaign) → is_line (campaign_json o) ≡ true
unfolding campaign_json campaign_items has_byte
is_line-campaign_json none = refl
is_line-campaign_json (some c) =
    is_line-append (comma_list (campaign_items c)) (bytes "}")
      (is_line-comma_list (campaign_items c) (
        all-campaign_item _ c.name _ (
          all-campaign_item _ c.source _ (
            all-campaign_item _ c.medium _ (
              all-campaign_item _ c.term _
                (all-campaign_item _ c.content _ (all-campaign_item _ c.id [] refl)))))))
      refl

is_line-stats_json : (stats : Stats) → is_line (joined (stats_json stats)) ≡ true
unfolding stats_json key has_byte
is_line-stats_json stats = is_line-joined (stats_json stats) (
    rw
      (
        is_line-to_decimal stats.total_redirects,
        is_line-to_decimal stats.redirects_24h,
        is_line-to_decimal stats.redirects_7d,
        is_line-optional_string stats.last_accessed_at,
      )
      refl)

pub is_line-serialize_link_view_json : (v : LinkView) → is_line (serialize_link_view_json v) ≡ true
unfolding serialize_link_view_json link_view_pieces key has_byte
is_line-serialize_link_view_json v = is_line-joined (link_view_pieces v) (
    rw
      (
        is_line-json_string v.id,
        is_line-json_string v.slug,
        is_line-json_string v.target_url,
        is_line-json_string v.short_url,
        is_line-json_string v.created_at,
        is_line-json_string v.updated_at,
        is_line-json_string (link_status_to_string v.status),
        is_line-json_string (redirect_type_to_string v.redirect_type),
        is_line-comma_list (map json_string v.tags) (all-json_string v.tags),
        is_line-comma_list (metadata_items (sort_items v.metadata))
            (all-metadata_items (sort_items v.metadata)),
        is_line-campaign_json v.campaign,
        is_line-stats_json v.stats,
      )
      refl)

is_line-bool : (b : Bool) → is_line (if b then bytes "true" else bytes "false") ≡ true
unfolding has_byte
is_line-bool true = refl
is_line-bool false = refl

pub is_line-serialize_link_preview_json :
    (v : LinkView) → is_line (serialize_link_preview_json v) ≡ true
unfolding serialize_link_preview_json link_preview_pieces key has_byte
is_line-serialize_link_preview_json v = is_line-joined (link_preview_pieces v) (
    rw
      (
        is_line-json_string v.slug,
        is_line-json_string v.target_url,
        is_line-json_string (link_status_to_string v.status),
        is_line-json_string (redirect_type_to_string v.redirect_type),
        is_line-bool v.enabled,
        is_line-optional_string v.expires_at,
        is_line-optional_string v.deleted_at,
      )
      refl)
