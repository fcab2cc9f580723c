-- ===== src/Http/Router.antt =====
-- src/http/router.cpp: paths and patterns, and the router's dispatch.
pub mod Paths
pub mod Dispatch
use url_shortener.Prelude.{
  ℕ, Bool, false, ◌&&◌, ◌||◌, not, Option, none, some, List, [], ◌∷◌, ◌++◌, ltb, ◌==◌,
  if◌then◌else◌, is_some, value_or, length, drop, is_empty, all, count_if, Bytes, bytes, ◌=ᵇ◌,
  starts_with, is_alpha, is_alnum, Map, insert,
}
use url_shortener.Core.Config.{ServerConfig}
use url_shortener.Core.Text.{drop_last, last_is, take_while, drop_while, find_behind}
use url_shortener.Http.Types.{
  Verb, unknown, get, post, patch, delete, other, same_verb, Request, RouteContext,
}

unfoldable pub method_to_string : Verb → Bytes
method_to_string get = bytes "GET"
method_to_string post = bytes "POST"
method_to_string patch = bytes "PATCH"
method_to_string delete = bytes "DELETE"
method_to_string unknown = bytes "<unknown>"
method_to_string (other name) = name

-- The first segment gets one more byte.
unfoldable pub push_byte : ℕ → List Bytes → List Bytes
push_byte c [] = (c ∷ []) ∷ []
push_byte c (segment ∷ segments) = (c ∷ segment) ∷ segments

-- The text cut at each slash.
unfoldable pub segments_of : Bytes → List Bytes
unfolding push_byte
segments_of [] = [] ∷ []
segments_of (c ∷ s) = let rest = segments_of s in if c == b'/' then [] ∷ rest else push_byte c rest

-- A single empty segment is no segment.
unfoldable pub drop_only_empty : List Bytes → List Bytes
drop_only_empty ([] ∷ []) = []
drop_only_empty segments = segments

unfoldable pub split_path : Bytes → List Bytes
split_path path = drop_only_empty (segments_of (drop_while (λ c. c == b'/') path))

unfoldable pub is_capture_start : ℕ → Bool
is_capture_start c = is_alpha c || (c == b'_')

unfoldable pub is_capture_char : ℕ → Bool
is_capture_char c = is_alnum c || (c == b'_')

unfoldable pub is_capture_segment : Bytes → Bool
unfolding is_capture_start is_capture_char
is_capture_segment (o ∷ first ∷ c ∷ rest) =
    (o == b'{')
    && last_is b'}' (c ∷ rest)
    && is_capture_start first
    && all is_capture_char (drop_last (c ∷ rest))
is_capture_segment _ = false

unfoldable pub capture_name : Bytes → Bytes
capture_name segment = drop_last (drop 1 segment)

unfoldable pub path_specificity : Bytes → ℕ
path_specificity path_pattern = count_if (λ s. not (is_capture_segment s)) (split_path path_pattern)

-- The loop over the segments of the pattern and of the path, which are as many.
unfoldable pub match_segments : List Bytes → List Bytes → Map Bytes → Option (Map Bytes)
match_segments [] actuals params = some params
match_segments (pattern ∷ patterns) [] params = none
match_segments (pattern ∷ patterns) (actual ∷ actuals) params =
    let captured = match_segments patterns actuals (insert (capture_name pattern) actual params) in
    let literal = match_segments patterns actuals params in
    if is_capture_segment pattern
    then (if is_empty actual then none else captured)
    else if pattern =ᵇ actual
    then literal
    else none

-- The pattern "{path}" takes any number of segments; the first slash of the path is dropped.
unfoldable pub match_whole_path : List Bytes → Bytes → Option (Map Bytes)
match_whole_path (segment ∷ []) path =
    if is_capture_segment segment
      && (capture_name segment =ᵇ bytes "path")
      && not (is_empty path)
      && not (path =ᵇ bytes "/")
    then some
        (insert (bytes "path") (if starts_with path (bytes "/") then drop 1 path else path) [])
    else none
match_whole_path _ path = none

-- The path without the query, and the query.
unfoldable pub path_of : Bytes → Bytes
path_of target = take_while (λ c. not (c == b'?')) target

unfoldable pub query_of : Bytes → Bytes
query_of target = value_or (find_behind b'?' target) []

-- `none` is the result `false`. The context comes with no route label.
unfoldable pub match_path : Bytes → Bytes → Option RouteContext
match_path path_pattern target =
    let patterns = split_path path_pattern in
    let actuals = split_path (path_of target) in
    let params : Option (Map Bytes) =
      if length patterns == length actuals
      then match_segments patterns actuals []
      else match_whole_path patterns (path_of target) in
    elim params [
      | none ↦ none
      | some found ↦
          some (record { path_params = found; query_string = query_of target; route_label = [] })
    ]

module _ {ℓ} (R : Type ℓ) where
  -- Handlers and the error handler return an `R`.
  pub record Route : Type ℓ where
    pub method : Verb
    pub path_pattern : Bytes
    pub route_label : Bytes
    pub handler : Request → ServerConfig → Bool → RouteContext → R

  pub record Router : Type ℓ where
    pub routes : List Route
    pub error_handler : Request → ServerConfig → Bool → ℕ → Bytes → Bytes → R

-- What the second loop returns: a handler's result, or the first allowed method and whether there
-- is another.
pub data Selected {ℓ} (R : Type ℓ) : Type ℓ where
  handled : R → Selected R
  allowed : Verb → Bool → Selected R

-- `only_allowed_method` and `multiple_allowed_methods` after one more method.
unfoldable pub note_method : Verb → Verb → Verb
note_method unknown method = method
note_method only method = only

unfoldable pub differs : Verb → Verb → Bool
differs unknown method = false
differs only method = not (same_verb only method)

unfoldable pub method_message : Verb → Bool → Bytes
method_message only multiple =
    if multiple
    then bytes "Unsupported operation"
    else bytes "Only " ++ method_to_string only ++ bytes " is supported"

module _ {ℓ} {R : Type ℓ} where
  unfoldable pub add : Route R → Router R → Router R
  add route router = record router { routes = router.routes ++ route ∷ [] }

  -- The first loop: whether a path matched, and the best specificity of those that did.
  unfoldable pub best_match : Bytes → List (Route R) → Bool → ℕ → Bool × ℕ
  best_match target [] path_matched best = (path_matched, best)
  best_match target (route ∷ routes) path_matched best =
      let specificity = path_specificity route.path_pattern in
      let better =
        is_some (match_path route.path_pattern target)
        && (not path_matched || ltb best specificity) in
      best_match target routes (path_matched || better) (if better then specificity else best)

  -- The second loop, over the routes whose path matches with the best specificity.
  unfoldable pub select :
      Request → ServerConfig → Bool → ℕ → List (Route R) → Verb → Bool → Selected R
  select req config is_tls best [] only multiple = allowed only multiple
  select req config is_tls best (route ∷ routes) only multiple =
      let skip = select req config is_tls best routes only multiple in
      let next =
        select req config is_tls best routes (note_method only route.method)
          (multiple || differs only route.method) in
      elim (match_path route.path_pattern req.target) [
        | none ↦ skip
        | some context ↦
            if not (path_specificity route.path_pattern == best)
            then skip
            else if not (same_verb route.method req.method)
            then next
            else handled (
                route.handler req config is_tls
                  (record context { route_label = route.route_label }))
      ]

  unfoldable pub dispatch : Router R → Request → ServerConfig → Bool → R
  dispatch router req config is_tls =
      let (path_matched, best) = best_match req.target router.routes false 0 in
      elim (select req config is_tls best router.routes unknown false) [
        | handled response ↦ response
        | allowed only multiple ↦
            if path_matched
            then router.error_handler req config is_tls 400 (bytes "invalid_method")
                (method_message only multiple)
            else router.error_handler req config is_tls 404 (bytes "not_found")
                (bytes "Route not found")
      ]
