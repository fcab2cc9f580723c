-- ===== src/Storage/MetadataRepository/Listing.antt =====
-- The listing of link records (src/storage/inmemory/in_memory_metadata_repository.cpp: ListLinks).
use url_shortener.Prelude.{
  ℕ, true, false, ◌||◌, not, none, some, is_some, ◌=ᵇ◌, zero, suc, ◌+◌, ◌-◌, ◌≤◌, ◌≡◌, refl, sym,
  ap, ◌∙◌, inl, inr, Bool, ◌&&◌, List, [], ◌∷◌, ◌++◌, arith, leb, if◌then◌else◌, leb→le, Bool-cases,
  length, take, drop, filter, count_if, Map,
}
use Prim.Native.Nat.{min}
use url_shortener.Storage.Models.{LinkRecord, ListLinksQuery}
use url_shortener.Storage.MetadataRepository.{is_listed, has_owner, records_of, page, list_links}

-- The times of creation do not fall.
abbrev pub IsOrdered : List LinkRecord → Type 0
IsOrdered [] = Unit
IsOrdered (x ∷ []) = Unit
IsOrdered (x ∷ y ∷ xs) = (x.created_at ≤ y.created_at) × IsOrdered (y ∷ xs)

-- A sort by the time of creation, by insertion.
unfoldable pub insert_by_time : LinkRecord → List LinkRecord → List LinkRecord
insert_by_time r [] = r ∷ []
insert_by_time r (x ∷ xs) =
    if leb r.created_at x.created_at then r ∷ x ∷ xs else x ∷ insert_by_time r xs

unfoldable pub sort_by_time : List LinkRecord → List LinkRecord
unfolding insert_by_time
sort_by_time [] = []
sort_by_time (r ∷ rs) = insert_by_time r (sort_by_time rs)

insert_by_time-IsOrdered :
    (r : LinkRecord) (xs : List LinkRecord) → IsOrdered xs → IsOrdered (insert_by_time r xs)
unfolding insert_by_time
insert_by_time-IsOrdered r [] h = tt
insert_by_time-IsOrdered r (x ∷ []) h = ground arith
insert_by_time-IsOrdered r (x ∷ y ∷ xs) (h, hs) =
    ground (arith, insert_by_time-IsOrdered r (y ∷ xs) hs)

sort_by_time-IsOrdered : (xs : List LinkRecord) → IsOrdered (sort_by_time xs)
unfolding sort_by_time
sort_by_time-IsOrdered [] = tt
sort_by_time-IsOrdered (r ∷ rs) =
    insert_by_time-IsOrdered r (sort_by_time rs) (sort_by_time-IsOrdered rs)

count_if-insert_by_time :
    (p : LinkRecord → Bool) (r : LinkRecord) (xs : List LinkRecord)
    → count_if p (insert_by_time r xs) ≡ count_if p (r ∷ xs)
unfolding insert_by_time
count_if-insert_by_time p r [] = refl
count_if-insert_by_time p r (x ∷ xs) = ground (arith, count_if-insert_by_time p r xs)

count_if-sort_by_time :
    (p : LinkRecord → Bool) (xs : List LinkRecord) → count_if p (sort_by_time xs) ≡ count_if p xs
unfolding sort_by_time
count_if-sort_by_time p [] = refl
count_if-sort_by_time p (r ∷ rs) =
    count_if-insert_by_time p r (sort_by_time rs)
    ∙ ap (λ n. (if p r then 1 else 0) + n) (count_if-sort_by_time p rs)

length-drop : (n : ℕ) (xs : List LinkRecord) → length (drop n xs) ≡ length xs - n
length-drop zero xs = omega arith
length-drop (suc n) [] = omega arith
length-drop (suc n) (x ∷ xs) = omega (arith, length-drop n xs)

take-nil : (n : ℕ) (xs : List LinkRecord) → xs ≡ [] → take n xs ≡ []
take-nil zero xs e = refl
take-nil (suc n) xs e = rw e

drop-nil : (n : ℕ) (xs : List LinkRecord) → xs ≡ [] → drop n xs ≡ []
drop-nil zero xs e = e
drop-nil (suc n) xs e = rw e

take-min : (n : ℕ) (xs : List LinkRecord) → take (min n (length xs)) xs ≡ take n xs
take-min zero xs = let e : min zero (length xs) ≡ zero = omega arith in rw e
take-min (suc n) [] = take-nil (min (suc n) 0) [] refl
take-min (suc n) (x ∷ xs) =
    let e : min (suc n) (suc (length xs)) ≡ suc (min n (length xs)) = omega arith in
    rw e (ap (λ l. x ∷ l) (take-min n xs))

drop-of_short : (n : ℕ) (xs : List LinkRecord) → length xs ≤ n → drop n xs ≡ []
drop-of_short zero [] h = refl
drop-of_short zero (x ∷ xs) h = absurd (omega arith)
drop-of_short (suc n) [] h = refl
drop-of_short (suc n) (x ∷ xs) h = drop-of_short n xs (omega arith)

page_lem : (o l : ℕ) (xs : List LinkRecord) → page o l xs ≡ take l (drop o xs)
unfolding page
page_lem o l xs = elim (Bool-cases (leb (length xs) o)) [
  | inl h ↦ rw (h, drop-of_short o xs (leb→le (length xs) o h)) (sym (take-nil l [] refl))
  | inr h ↦ rw (h, ← length-drop o xs) (take-min l (drop o xs))
]

take-add : (l m : ℕ) (xs : List LinkRecord) → take l xs ++ take m (drop l xs) ≡ take (l + m) xs
take-add zero m xs = let e : zero + m ≡ m = omega arith in rw e
take-add (suc l) m [] = take-nil m [] refl ∙ sym (take-nil (suc l + m) [] refl)
take-add (suc l) m (x ∷ xs) =
    let e : suc l + m ≡ suc (l + m) = omega arith in rw e (ap (λ r. x ∷ r) (take-add l m xs))

drop-add : (o l : ℕ) (xs : List LinkRecord) → drop (o + l) xs ≡ drop l (drop o xs)
drop-add zero l xs = let e : zero + l ≡ l = omega arith in rw e
drop-add (suc o) l [] = drop-nil (suc o + l) [] refl ∙ sym (drop-nil l [] refl)
drop-add (suc o) l (x ∷ xs) =
    let e : suc o + l ≡ suc (o + l) = omega arith in rw e (drop-add o l xs)

page-add :
    (o l more : ℕ) (xs : List LinkRecord)
    → page o l xs ++ page (o + l) more xs ≡ page o (l + more) xs
page-add o l more xs =
    rw (page_lem o l xs, page_lem (o + l) more xs, page_lem o (l + more) xs, drop-add o l xs)
      (take-add l more (drop o xs))

count_if-filter :
    (p q : LinkRecord → Bool) (xs : List LinkRecord)
    → count_if p (filter q xs) ≡ count_if (λ r. q r && p r) xs
count_if-filter p q [] = refl
count_if-filter p q (x ∷ xs) = ground (arith, count_if-filter p q xs)

-- What a sort by the time of creation does: its result is in order and holds the same records, each
-- as often.
pub record IsSort (sort : List LinkRecord → List LinkRecord) : Type 0 where
  pub ordered : (xs : List LinkRecord) → IsOrdered (sort xs)
  pub same_records :
      (p : LinkRecord → Bool) (xs : List LinkRecord) → count_if p (sort xs) ≡ count_if p xs

pub sort_by_time-IsSort : IsSort sort_by_time
sort_by_time-IsSort = record {
  ordered = sort_by_time-IsOrdered;
  same_records = count_if-sort_by_time;
}

-- A record that a query asks for: not deleted and active, unless the query includes the others, and
-- of the owner, if one is given.
abbrev pub asks_for : ListLinksQuery → LinkRecord → Bool
asks_for query r =
    (not (is_some r.deleted_at) || query.include_deleted)
    && (r.is_active || query.include_inactive)
    && elim query.owner [
      | none ↦ true
      | some wanted ↦ elim r.owner [ none ↦ false | some owner ↦ owner =ᵇ wanted ]
    ]

is_listed_lem : (query : ListLinksQuery) (r : LinkRecord) → is_listed query r ≡ asks_for query r
unfolding is_listed has_owner
is_listed_lem query r = ground arith

-- A page of the links: what is listed, behind all that comes before it, is a list in the order of
-- creation that holds exactly the records asked for, each as often as the map does.
pub record IsPage (query : ListLinksQuery) (m : Map LinkRecord) (listed : List LinkRecord)
    : Type 0 where
  pub all_links : List LinkRecord
  pub in_order : IsOrdered all_links
  pub complete :
      (p : LinkRecord → Bool)
      → count_if p all_links ≡ count_if (λ r. asks_for query r && p r) (records_of m)
  pub slice : listed ≡ take query.limit (drop query.offset all_links)

count_if-same :
    (p q : LinkRecord → Bool) (xs : List LinkRecord)
    → ((r : LinkRecord) → p r ≡ q r)
    → count_if p xs ≡ count_if q xs
count_if-same p q [] h = refl
count_if-same p q (x ∷ xs) h = ground (arith, h x, count_if-same p q xs h)

module _ (sort : List LinkRecord → List LinkRecord) (sorts : IsSort sort) (query : ListLinksQuery)
    (m : Map LinkRecord) where
  -- With any sort by the time of creation, `ListLinks` returns the slice, from the query's offset
  -- on and at most as long as its limit, of a list in the order of creation that holds exactly the
  -- records that the query asks for; and two adjacent pages make one longer page.
  pub list_links_lem :
      (more : ℕ)
      → IsPage query m (list_links sort query m)
        × (list_links sort query m
              ++ list_links sort
                  (record query { offset = query.offset + query.limit; limit = more })
                  m
            ≡ list_links sort (record query { limit = query.limit + more }) m)
  unfolding list_links is_listed
  list_links_lem more =
      let kept = filter (is_listed query) (records_of m) in
      (
        record {
          all_links = sort kept;
          in_order = sorts.ordered kept;
          complete = λ p.
              sorts.same_records p kept
              ∙ count_if-filter p (is_listed query) (records_of m)
              ∙ count_if-same (λ r. is_listed query r && p r) (λ r. asks_for query r && p r)
                  (records_of m) (λ r. ap (λ (b : Bool). b && p r) (is_listed_lem query r));
          slice = page_lem query.offset query.limit (sort kept);
        },
        page-add query.offset query.limit more (sort kept),
      )
