-- ===== src/Storage/MetadataRepository.antt =====
-- src/storage/inmemory/in_memory_metadata_repository.cpp: link records by short code.
pub mod Listing
use url_shortener.Prelude.{
  ℕ, ◌-◌, Bool, true, false, ◌&&◌, ◌||◌, not, Option, none, some, List, [], ◌∷◌, leb, if◌then◌else◌,
  is_some, length, take, drop, filter, Bytes, ◌=ᵇ◌, Map, lookup, insert, erase,
}
use Prim.Native.Nat.{min}
use url_shortener.Storage.Models.{
  RepoError, not_found, already_exists, invalid_argument, CreateLinkRequest, is_valid_request,
  LinkRecord, ListLinksQuery,
}

-- The result of a call that returns a `bool`: `none` is `true` with the error `none`.
unfoldable pub create_link :
    CreateLinkRequest → Bytes → ℕ → Map LinkRecord → Option RepoError × Map LinkRecord
create_link request id now by_code =
    if not (is_valid_request request)
    then (some invalid_argument, by_code)
    else if is_some (lookup request.short_code by_code)
    then (some already_exists, by_code)
    else (
      none,
      insert request.short_code
          (record {
            id = id;
            short_code = request.short_code;
            target_url = request.target_url;
            created_at = now;
            updated_at = now;
            expires_at = request.expires_at;
            deleted_at = none;
            owner = request.owner;
            attributes = request.attributes;
            is_active = request.is_active;
            version = 1;
          })
          by_code,
    )

unfoldable pub get_by_short_code : Bytes → Map LinkRecord → Option LinkRecord
get_by_short_code short_code by_code = lookup short_code by_code

unfoldable pub update_link : LinkRecord → Map LinkRecord → Option RepoError × Map LinkRecord
update_link r by_code =
    if is_some (lookup r.short_code by_code)
    then (none, insert r.short_code r by_code)
    else (some not_found, by_code)

unfoldable pub delete_link : Bytes → Map LinkRecord → Option RepoError × Map LinkRecord
delete_link short_code by_code = (none, erase short_code by_code)

unfoldable pub exists : Bytes → Map LinkRecord → Bool
exists short_code by_code = is_some (get_by_short_code short_code by_code)

-- `record.owner != query.owner` for an owner that is asked for.
unfoldable pub has_owner : Bytes → Option Bytes → Bool
has_owner wanted none = false
has_owner wanted (some owner) = owner =ᵇ wanted

-- The tests of the loop of `ListLinks`.
unfoldable pub is_listed : ListLinksQuery → LinkRecord → Bool
unfolding has_owner
is_listed query r =
    (query.include_deleted || not (is_some r.deleted_at))
    && (query.include_inactive || r.is_active)
    && elim query.owner [ none ↦ true | some wanted ↦ has_owner wanted r.owner ]

unfoldable pub records_of : Map LinkRecord → List LinkRecord
records_of [] = []
records_of ((_, r) ∷ m) = r ∷ records_of m

unfoldable pub page : ℕ → ℕ → List LinkRecord → List LinkRecord
page offset limit records =
    if leb (length records) offset
    then []
    else take (min limit (length records - offset)) (drop offset records)

-- `sort` stands for the order of the `unordered_map` and `std::sort` by the time of creation
-- together, which leave the order of records of one time open.
unfoldable pub list_links :
    (List LinkRecord → List LinkRecord) → ListLinksQuery → Map LinkRecord → List LinkRecord
list_links sort query by_code =
    page query.offset query.limit (sort (filter (is_listed query) (records_of by_code)))
