-- ===== src/Tests/Storage.antt =====
-- The theorems on src/storage at concrete inputs.
use url_shortener.Prelude.{
  ℕ, ◌≡◌, refl, inr, true, false, ◌&&◌, none, some, List, [], ◌∷◌, ◌++◌, arith, ◌==◌, if◌then◌else◌,
  count_if, Bytes, bytes, ◌=ᵇ◌, Map, lookup, insert, pos,
}
use url_shortener.Storage.MetadataRepository.Listing.{
  IsPage, sort_by_time, sort_by_time-IsSort, list_links_lem,
}
use url_shortener.Storage.MetadataRepository.{list_links}
use url_shortener.Storage.Models.{CacheValue, LinkRecord, ListLinksQuery}
use url_shortener.Storage.ClickEvents.{is_counted, AggregateQuery, hour, get_aggregate_stats}
use url_shortener.Core.Link.{Link}
use url_shortener.Storage.LinkRepository.{
  create, get_by_slug, get_link_for_read, update_link_and_invalidate_cache,
}
use url_shortener.Storage.LinkRepository.Index.{IsConsistent, KeepsSlug, create-IsConsistent}
use url_shortener.Storage.LinkRepository.Coherence.{
  IsCoherent, get_link_for_read_lem, update_link_and_invalidate_cache_lem,
}
use url_shortener.Storage.RateLimiter.Window.{grants, grants-eq-limit}
use url_shortener.Storage.ClickEvents.Aggregates.{
  counted, count_at, entries_at, get_aggregate_stats_lem,
}
use url_shortener.Analytics.Events.{ClickEvent}
use url_shortener.Tests.{demo_link, demo_repo, demo_repo-valid, demo_store, demo_store-valid}
use url_shortener.Analytics.Retention.{run_cleanup, get_aggregate_stats-run_cleanup}

abbrev blog_link : Link
blog_link = record demo_link { id = bytes "id2"; slug = bytes "blog" }

abbrev disabled_link : Link
disabled_link = record demo_link { enabled = false }

create-IsConsistent_example : IsConsistent (create blog_link demo_repo).1
create-IsConsistent_example = create-IsConsistent blog_link demo_repo demo_repo-valid

get_link_for_read_lem_example :
    ((get_link_for_read (bytes "docs") demo_store).0 ≡ get_by_slug (bytes "docs") demo_repo)
    × ((get_link_for_read (bytes "docs") demo_store).1.repo ≡ demo_repo)
    × IsCoherent (get_link_for_read (bytes "docs") demo_store).1
get_link_for_read_lem_example = get_link_for_read_lem (bytes "docs") demo_store demo_store-valid

disabled_link-KeepsSlug : KeepsSlug disabled_link demo_repo
unfolding create lookup insert ◌=ᵇ◌
disabled_link-KeepsSlug old h = ground arith

update_link_and_invalidate_cache_lem_example :
    IsCoherent (update_link_and_invalidate_cache disabled_link demo_store).1
    × ((slug : Bytes)
        → get_by_slug slug (update_link_and_invalidate_cache disabled_link demo_store).1.repo ≡ (
            if (update_link_and_invalidate_cache disabled_link demo_store).0
              && (bytes "docs" =ᵇ slug)
            then some disabled_link
            else get_by_slug slug demo_repo))
update_link_and_invalidate_cache_lem_example =
    update_link_and_invalidate_cache_lem disabled_link demo_store demo_store-valid
      disabled_link-KeepsSlug

grants-eq-limit_example : grants (bytes "ip") 2 (pos 60) (5 ∷ 6 ∷ 7 ∷ []) [] ≡ 2
unfolding lookup
grants-eq-limit_example =
    grants-eq-limit b'i' (bytes "p") 2 59 5 (6 ∷ 7 ∷ []) [] (inr refl)
      (omega arith, (omega arith, tt)) (omega arith) (omega arith)

abbrev cached : CacheValue
cached = record {
  target_url = bytes "https://example.com";
  expires_at = none;
  is_active = true;
  version = some 1;
}

abbrev demo_record : LinkRecord
demo_record = record {
  id = bytes "id1";
  short_code = bytes "docs";
  target_url = bytes "https://example.com";
  created_at = 5;
  updated_at = 5;
  expires_at = none;
  deleted_at = none;
  owner = none;
  attributes = [];
  is_active = true;
  version = 1;
}

abbrev first_page : ListLinksQuery
first_page = record {
  owner = none;
  include_inactive = false;
  include_deleted = false;
  offset = 0;
  limit = 1;
}

abbrev demo_records : Map LinkRecord
demo_records =
    (bytes "docs", demo_record)
    ∷ (bytes "blog", record demo_record { short_code = bytes "blog"; created_at = 3 })
    ∷ []

list_links_lem_example :
    IsPage first_page demo_records (list_links sort_by_time first_page demo_records)
    × (list_links sort_by_time first_page demo_records
          ++ list_links sort_by_time (record first_page { offset = 1; limit = 4 }) demo_records
        ≡ list_links sort_by_time (record first_page { limit = 5 }) demo_records)
list_links_lem_example = list_links_lem sort_by_time sort_by_time-IsSort first_page demo_records 4

abbrev click : ClickEvent
click = record {
  event_id = bytes "e1";
  occurred_at = 7200000000000;
  slug = bytes "docs";
  link_id = bytes "id1";
  domain = bytes "example.com";
  status_code = 302;
  referrer = [];
  user_agent = [];
  client_id_hash = [];
}

abbrev clicks : List ClickEvent
clicks = record click { occurred_at = 1 } ∷ click ∷ record click { status_code = 404 } ∷ []

abbrev query : AggregateQuery
query = record {
  slug = some (bytes "docs");
  link_id = none;
  from = 1000;
  to = 9000000000000;
  bucket = some hour;
}

get_aggregate_stats_lem_example :
    ((get_aggregate_stats query clicks).total_attempts ≡ 2)
    × ((get_aggregate_stats query clicks).successful_redirects ≡ 1)
    × ((code : ℕ)
        → count_at (λ k. k == code) (get_aggregate_stats query clicks).status_code_counts
          ≡ count_if (λ e. e.status_code == code) (counted query clicks))
    × ((domain : Bytes)
        → count_at (λ k. k =ᵇ domain) (get_aggregate_stats query clicks).domain_counts
          ≡ count_if (λ e. e.domain =ᵇ domain) (counted query clicks))
    × ((code : ℕ)
        → entries_at (λ k. k == code) (get_aggregate_stats query clicks).status_code_counts
          ≡ (if count_if (λ e. e.status_code == code) (counted query clicks) == 0 then 0 else 1))
    × ((domain : Bytes)
        → entries_at (λ k. k =ᵇ domain) (get_aggregate_stats query clicks).domain_counts
          ≡ (if count_if (λ e. e.domain =ᵇ domain) (counted query clicks) == 0 then 0 else 1))
unfolding is_counted ◌=ᵇ◌
get_aggregate_stats_lem_example = get_aggregate_stats_lem query clicks (omega arith)

get_aggregate_stats-run_cleanup_example :
    get_aggregate_stats query (run_cleanup 30 1001 clicks).1 ≡ get_aggregate_stats query clicks
get_aggregate_stats-run_cleanup_example =
    get_aggregate_stats-run_cleanup 30 1001 query clicks (omega arith) (omega arith) (omega arith)
