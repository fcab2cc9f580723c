-- ===== src/Tests.antt =====
-- Concrete inputs, and the theorems at them: a link, stores and caches that hold it, the
-- configuration of include/url_shortener/core/config.hpp, and one run of each theorem.
pub mod Core
pub mod Storage
pub mod App
pub mod Http
pub mod Analytics
pub mod Security
pub mod Cli
use url_shortener.Prelude.{◌+◌, true, none, [], ◌∷◌, arith, bytes, lookup, pos}
use url_shortener.Core.Link.{Link, temporary}
use url_shortener.Storage.LinkRepository.{Repo, Store, create}
use url_shortener.Storage.LinkRepository.Index.{
  empty_repo, empty_repo-IsConsistent, IsConsistent, create-IsConsistent,
}
use url_shortener.Storage.LinkRepository.Coherence.{IsCoherent}
use url_shortener.App.Types.{Env}

abbrev pub demo_link : Link
demo_link = record {
  id = bytes "id1";
  slug = bytes "docs";
  target_url = bytes "https://example.com/docs";
  created_at = bytes "2024-01-01T00:00:00Z";
  updated_at = bytes "2024-01-01T00:00:00Z";
  expires_at = none;
  deleted_at = none;
  enabled = true;
  tags = bytes "team" ∷ [];
  metadata = [];
  campaign = none;
  stats = record {
    total_redirects = 0;
    redirects_24h = 0;
    redirects_7d = 0;
    last_accessed_at = none;
  };
  redirect_type = temporary;
}

-- The repository behind the creation of that link.
abbrev pub demo_repo : Repo
demo_repo = (create demo_link empty_repo).1

pub demo_repo-valid : IsConsistent demo_repo
demo_repo-valid = create-IsConsistent demo_link empty_repo empty_repo-IsConsistent

abbrev pub demo_store : Store
demo_store = record { repo = demo_repo; cache = [] }

pub demo_store-valid : IsCoherent demo_store
unfolding lookup
demo_store-valid = record {
  consistent = demo_repo-valid;
  cached = λ slug l e. absurd (ground arith);
}

-- 2024-02-01T00:00:00Z, for every reading.
abbrev pub demo_env : Env
demo_env = record {
  now_for_expiry = pos 1706745600;
  now_for_write = pos 1706745600;
  now_for_view = pos 1706745600;
  slug_draws = λ attempt i. attempt + i;
  id_draws = λ i. i;
}
