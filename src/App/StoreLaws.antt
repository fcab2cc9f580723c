-- ===== src/App/StoreLaws.antt =====
-- The contract of `ILinkStore` (include/url_shortener/app/link_command_service.hpp): a store is a
-- map from slugs to links. The theorems on the command service take it as a parameter.
use url_shortener.Prelude.{◌≡◌, true, ◌&&◌, Option, none, some, if◌then◌else◌, is_some, Bytes, ◌=ᵇ◌}
use url_shortener.Core.Link.{Link}
use url_shortener.App.Types.{LinkStore, is_done}

pub record LinkStoreLaws {S : Type 0} (store : LinkStore S) : Type 1 where
  pub IsValid : S → Type 0
  -- The link that a slug leads to.
  pub at : Bytes → S → Option Link
  pub at_slug : (j : Bytes) (s : S) (l : Link) → IsValid s → at j s ≡ some l → l.slug ≡ j
  pub slug_exists_at : (j : Bytes) (s : S) → IsValid s → store.slug_exists j s ≡ is_some (at j s)
  pub find_by_slug_at : (j : Bytes) (s : S) → IsValid s → (store.find_by_slug j s).0 ≡ at j s
  pub find_by_slug_valid : (j : Bytes) (s : S) → IsValid s → IsValid (store.find_by_slug j s).1
  pub find_by_slug_keeps :
      (i j : Bytes) (s : S) → IsValid s → at j (store.find_by_slug i s).1 ≡ at j s
  pub create_valid : (l : Link) (s : S) → IsValid s → IsValid (store.create l s).1
  pub create_at :
      (l : Link) (j : Bytes) (s : S)
      → IsValid s
      → at j (store.create l s).1
        ≡ (if is_done (store.create l s).0 && (l.slug =ᵇ j) then some l else at j s)
  pub create_free :
      (l : Link) (s : S) → IsValid s → is_done (store.create l s).0 ≡ true → at l.slug s ≡ none
  pub invalidate_valid : (j : Bytes) (s : S) → IsValid s → IsValid (store.invalidate_cache j s)
  pub invalidate_keeps :
      (i j : Bytes) (s : S) → IsValid s → at j (store.invalidate_cache i s) ≡ at j s
  -- A write of a changed copy of the link that its slug leads to.
  pub update_valid :
      (l old : Link) (s : S)
      → IsValid s
      → at l.slug s ≡ some old
      → old.id ≡ l.id
      → IsValid (store.update l s).1
  pub update_at :
      (l old : Link) (j : Bytes) (s : S)
      → IsValid s
      → at l.slug s ≡ some old
      → old.id ≡ l.id
      → at j (store.update l s).1
        ≡ (if is_done (store.update l s).0 && (l.slug =ᵇ j) then some l else at j s)
