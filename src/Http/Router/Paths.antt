-- ===== src/Http/Router/Paths.antt =====
-- Path splitting and pattern matching of src/http/router.cpp.
use url_shortener.Prelude.{
  ℕ, ◌≡◌, refl, ap, ◌∙◌, inl, inr, Bool, true, false, ◌&&◌, not, Option, none, some, List, [], ◌∷◌,
  ◌++◌, arith, ◌==◌, if◌then◌else◌, Bool-cases, Option-cases, and-true_right, is_some, length,
  is_empty, all, All, Bytes, ◌=ᵇ◌, Map, lookup, insert, lookup-insert,
}
use url_shortener.Core.Text.{drop_while}
use url_shortener.Http.Types.{RouteContext, path_param}
use url_shortener.Http.Router.{
  segments_of, drop_only_empty, split_path, is_capture_segment, capture_name, match_segments,
  match_path, path_of, query_of,
}

-- Segments joined by slashes, each behind one.
unfoldable pub join_path : List Bytes → Bytes
join_path [] = []
join_path (segment ∷ segments) = b'/' ∷ (segment ++ join_path segments)

abbrev pub has_no_slash : Bytes → Bool
has_no_slash s = all (λ c. not (c == b'/')) s

segments_of-join :
    (s : Bytes) (rest : List Bytes)
    → has_no_slash s ≡ true
    → All (λ t. has_no_slash t ≡ true) rest
    → segments_of (s ++ join_path rest) ≡ s ∷ rest
unfolding segments_of join_path
segments_of-join [] [] h hs = refl
segments_of-join [] (t ∷ rest) h (k, hs) = ap (λ l. [] ∷ l) (segments_of-join t rest k hs)
segments_of-join (c ∷ s) rest h hs =
    let ih = segments_of-join s rest (and-true_right (not (c == b'/')) (has_no_slash s) h) hs in
    rw ih (ground arith)

-- Splitting gives back the segments of a path whose first segment is not empty.
pub split_path-join_path :
    (c : ℕ) (s : Bytes) (rest : List Bytes)
    → All (λ t. has_no_slash t ≡ true) ((c ∷ s) ∷ rest)
    → split_path (join_path ((c ∷ s) ∷ rest)) ≡ (c ∷ s) ∷ rest
unfolding split_path join_path drop_while drop_only_empty
split_path-join_path c s rest (h, hs) =
    let plain : (c == b'/') ≡ false = ground arith in rw (plain, segments_of-join (c ∷ s) rest h hs)

-- Each segment of the path is accepted by its segment of the pattern: a capture takes any segment
-- that is not empty, anything else only itself.
abbrev pub all_accepted : List Bytes → List Bytes → Bool
all_accepted [] actuals = true
all_accepted (p ∷ ps) [] = false
all_accepted (p ∷ ps) (a ∷ segs) =
    (if is_capture_segment p then not (is_empty a) else p =ᵇ a) && all_accepted ps segs

-- The segment that a name captures: the last, if two captures have the name.
abbrev pub captured : Bytes → List Bytes → List Bytes → Option Bytes → Option Bytes
captured name [] actuals before = before
captured name (p ∷ ps) [] before = before
captured name (p ∷ ps) (a ∷ segs) before =
    captured name ps segs
      (if is_capture_segment p && (capture_name p =ᵇ name) then some a else before)

is_some-match_segments :
    (ps segs : List Bytes) (m : Map Bytes)
    → is_some (match_segments ps segs m) ≡ all_accepted ps segs
unfolding match_segments
is_some-match_segments [] segs m = refl
is_some-match_segments (p ∷ ps) [] m = refl
is_some-match_segments (p ∷ ps) (a ∷ segs) m = ground (
  arith,
  is_some-match_segments ps segs m,
  is_some-match_segments ps segs (insert (capture_name p) a m),
)

lookup-match_segments :
    (ps segs : List Bytes) (m r : Map Bytes) (name : Bytes)
    → match_segments ps segs m ≡ some r
    → lookup name r ≡ captured name ps segs (lookup name m)
unfolding match_segments
lookup-match_segments [] segs m r name h = ground arith
lookup-match_segments (p ∷ ps) [] m r name h = absurd (ground arith)
lookup-match_segments (p ∷ ps) (a ∷ segs) m r name h = elim (Bool-cases (is_capture_segment p)) [
  | inl q ↦
      lookup-match_segments ps segs (insert (capture_name p) a m) r name (ground arith)
      ∙ rw (lookup-insert (capture_name p) name a m, q)
  | inr q ↦ lookup-match_segments ps segs m r name (ground arith) ∙ rw q
]

module _ (pattern target : Bytes) where
  abbrev pub patterns : List Bytes
  patterns = split_path pattern

  abbrev pub actuals : List Bytes
  actuals = split_path (path_of target)

  -- A pattern with as many segments as the path matches exactly if each segment is accepted.
  pub match_path_accepts :
      length patterns ≡ length actuals
      → is_some (match_path pattern target) ≡ all_accepted patterns actuals
  unfolding match_path
  match_path_accepts e = ground (arith, is_some-match_segments patterns actuals [], e)

  -- When a pattern with as many segments as the path matches it, each segment is accepted, and the
  -- context has the query, and under each name the segment that it captured.
  pub match_path-params :
      (context : RouteContext) (name : Bytes)
      → length patterns ≡ length actuals
      → match_path pattern target ≡ some context
      → (all_accepted patterns actuals ≡ true)
        × (context.query_string ≡ query_of target)
        × (path_param context name ≡ captured name patterns actuals none)
  unfolding match_path path_param lookup
  match_path-params context name e h = elim (Option-cases (match_segments patterns actuals [])) [
    | inl q ↦ absurd (ground (arith, e, q))
    | inr (r, q) ↦ (
      ground (arith, is_some-match_segments patterns actuals [], q),
      ground (arith, e, q),
      ground (arith, e, q, lookup-match_segments patterns actuals [] r name),
    )
  ]
