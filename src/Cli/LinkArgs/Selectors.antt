-- ===== src/Cli/LinkArgs/Selectors.antt =====
-- The selectors of `link get` and `link preview` (`parseGetLikeArgs` of
-- src/cli/link_command_args.cpp).
use url_shortener.Prelude.{
  ◌≡◌, ◌↔◌, ◌⊎◌, inl, inr, false, none, some, arith, Option-cases, is_empty, Bytes, bytes,
}
use url_shortener.App.Types.{GetLinkBy, GetLinkQuery}
use url_shortener.Cli.Options.{parsed, Variables}
use url_shortener.Cli.LinkArgs.{require_nonempty, select_link}

-- A query by slug, or by id, as the flags give it.
abbrev pub BySlug : Variables → GetLinkQuery → Type 0
BySlug vm q =
    (vm.value (bytes "slug") ≡ some q.value)
    × (vm.value (bytes "id") ≡ none)
    × (q.by ≡ GetLinkBy.slug)

abbrev pub ById : Variables → GetLinkQuery → Type 0
ById vm q =
    (vm.value (bytes "slug") ≡ none)
    × (vm.value (bytes "id") ≡ some q.value)
    × (q.by ≡ GetLinkBy.id)

-- `link get` and `link preview` accept exactly the flags that hold one selector with a value that
-- is not empty, and hand the selector and its value over as they are.
pub select_link_iff :
    (label : Bytes) (vm : Variables) (q : GetLinkQuery)
    → (select_link label vm ≡ parsed q) ↔ ((is_empty q.value ≡ false) × (BySlug vm q ⊎ ById vm q))
unfolding select_link require_nonempty
select_link_iff label vm q = elim (Option-cases (vm.value (bytes "slug"))) [
  | inl s ↦ elim (Option-cases (vm.value (bytes "id"))) [
    | inl i ↦ rw (s, i) (ground arith)
    | inr (id, i) ↦ rw (s, i) (ground arith)
  ]
  | inr (slug, s) ↦ elim (Option-cases (vm.value (bytes "id"))) [
    | inl i ↦ rw (s, i) (ground arith)
    | inr (id, i) ↦ rw (s, i) (ground arith)
  ]
]
