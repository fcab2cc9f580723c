-- ===== src/Http/Router/Dispatch.antt =====
-- The dispatch of src/http/router.cpp against a description of the route that serves a request.
use url_shortener.Prelude.{
  ℕ, ◌≡◌, refl, ◌∙◌, ◌≢◌, ◌⊎◌, inl, inr, Bool, true, false, ◌&&◌, ◌||◌, not, Option, none, some,
  List, [], ◌∷◌, arith, ltb, ◌==◌, if◌then◌else◌, Bool-cases, is_some, all, All, Bytes, bytes,
}
use Prim.Native.Nat.{max}
use url_shortener.Core.Config.{ServerConfig}
use url_shortener.Http.Types.{Verb, unknown, same_verb, Request, RouteContext}
use url_shortener.Http.Router.{
  match_path, path_specificity, Route, Router, Selected, handled, allowed, note_method, differs,
  best_match, select, method_message, dispatch,
}

module _ {ℓ} {R : Type ℓ} where
  abbrev pub matches : Bytes → Route R → Bool
  matches target route = is_some (match_path route.path_pattern target)

  abbrev pub any_matches : Bytes → List (Route R) → Bool
  any_matches target [] = false
  any_matches target (r ∷ rs) = matches target r || any_matches target rs

  -- The most literal segments of a route that matches.
  abbrev pub max_specificity : Bytes → List (Route R) → ℕ
  max_specificity target [] = 0
  max_specificity target (r ∷ rs) =
      max (if matches target r then path_specificity r.path_pattern else 0)
        (max_specificity target rs)

  -- The routes that match with a given number of literal segments.
  abbrev pub counts : Bytes → ℕ → Route R → Bool
  counts target best route = matches target route && (path_specificity route.path_pattern == best)

  -- The methods of the routes that count.
  abbrev pub methods : Bytes → ℕ → List (Route R) → List Verb
  methods target best [] = []
  methods target best (r ∷ rs) =
      if counts target best r then r.method ∷ methods target best rs else methods target best rs

  -- The first route that counts and has the request's method.
  abbrev pub first_served : Request → ℕ → List (Route R) → Option (Route R)
  first_served req best [] = none
  first_served req best (r ∷ rs) =
      if counts req.target best r && same_verb r.method req.method
      then some r
      else first_served req best rs

  -- The context that a route's handler gets.
  abbrev pub context_for : Bytes → Route R → RouteContext
  context_for target route = elim (match_path route.path_pattern target) [
    | none ↦ record { path_params = []; query_string = []; route_label = route.route_label }
    | some context ↦ record context { route_label = route.route_label }
  ]

  best_match_from :
      (target : Bytes) (routes : List (Route R)) (found : Bool) (best : ℕ)
      → (found ≡ true) ⊎ (best ≡ 0)
      → best_match target routes found best
        ≡ (found || any_matches target routes, max best (max_specificity target routes))
  unfolding best_match
  best_match_from target [] found best h = ground arith
  best_match_from target (r ∷ rs) found best h =
      let better = matches target r && (not found || ltb best (path_specificity r.path_pattern)) in
      best_match_from target rs (found || better)
        (if better then path_specificity r.path_pattern else best) (ground arith)
      ∙ ground arith

  best_match_lem :
      (target : Bytes) (routes : List (Route R))
      → best_match target routes false 0
        ≡ (any_matches target routes, max_specificity target routes)
  best_match_lem target routes = best_match_from target routes false 0 (inr refl) ∙ ground arith

-- The two variables of the second loop after the methods of a list.
noted : List Verb → Verb → Bool → Verb × Bool
noted [] only multiple = (only, multiple)
noted (m ∷ ms) only multiple = noted ms (note_method only m) (multiple || differs only m)

-- The only method of a list, or the fact that there are several.
abbrev pub method_summary : List Verb → Verb × Bool
method_summary [] = (unknown, false)
method_summary (m ∷ ms) = (m, not (all (same_verb m) ms))

-- A method that a client can send.
abbrev pub IsKnown : Verb → Type 0
IsKnown m = m ≢ unknown

noted-of_known :
    (m : Verb) (ms : List Verb) (multiple : Bool)
    → IsKnown m
    → noted ms m multiple ≡ (m, multiple || not (all (same_verb m) ms))
unfolding noted note_method differs
noted-of_known unknown ms multiple h = absurd (h refl)
noted-of_known Verb.get [] multiple h = ground arith
noted-of_known m [] multiple h = ground arith
noted-of_known Verb.get (k ∷ ms) multiple h =
    noted-of_known Verb.get ms (multiple || not (same_verb Verb.get k)) h ∙ ground arith
noted-of_known m (k ∷ ms) multiple h =
    noted-of_known m ms (multiple || not (same_verb m k)) h ∙ ground arith

noted_lem : (ms : List Verb) → All IsKnown ms → noted ms unknown false ≡ method_summary ms
unfolding noted note_method differs
noted_lem [] h = refl
noted_lem (m ∷ ms) (h, hs) = noted-of_known m ms false h

module _ {ℓ} {R : Type ℓ} (req : Request) (config : ServerConfig) (is_tls : Bool) (best : ℕ) where
  -- The second loop serves the first route that counts and has the method; else it has noted the
  -- methods of the routes that count.
  abbrev selected : List (Route R) → Verb → Bool → Selected R
  selected routes only multiple = elim (first_served req best routes) [
    | some r ↦ handled (r.handler req config is_tls (context_for req.target r))
    | none ↦ let (o, m) = noted (methods req.target best routes) only multiple in allowed o m
  ]

  select_lem :
      (routes : List (Route R)) (only : Verb) (multiple : Bool)
      → select req config is_tls best routes only multiple ≡ selected routes only multiple
  unfolding select noted
  select_lem [] only multiple = refl
  select_lem (r ∷ rs) only multiple = ground (
    arith,
    select_lem rs only multiple,
    select_lem rs (note_method only r.method) (multiple || differs only r.method),
  )

  IsKnown-methods :
      (routes : List (Route R))
      → All (λ r. IsKnown r.method) routes
      → All IsKnown (methods req.target best routes)
  IsKnown-methods [] h = tt
  IsKnown-methods (r ∷ rs) (h, hs) = elim (Bool-cases (counts req.target best r)) [
    | inl q ↦ rw q (h, IsKnown-methods rs hs)
    | inr q ↦ rw q (IsKnown-methods rs hs)
  ]

module _ {ℓ} {R : Type ℓ} where
  -- What the dispatcher promises: the route that serves a request, or the error.
  abbrev pub Served : Router R → Request → ServerConfig → Bool → R
  Served router req config is_tls =
      let best = max_specificity req.target router.routes in
      let (only, multiple) = method_summary (methods req.target best router.routes) in
      elim (first_served req best router.routes) [
        | some r ↦ r.handler req config is_tls (context_for req.target r)
        | none ↦
            if any_matches req.target router.routes
            then router.error_handler req config is_tls 400 (bytes "invalid_method")
                (method_message only multiple)
            else router.error_handler req config is_tls 404 (bytes "not_found")
                (bytes "Route not found")
      ]

  -- For routes registered under known methods, `dispatch` runs the handler of the first route that
  -- has the request's method among those that match its path with the most literal segments; if
  -- there is none it answers 400, naming the method if the routes that count have just one; if no
  -- route matches the path it answers 404.
  pub dispatch_lem :
      (router : Router R) (req : Request) (config : ServerConfig) (is_tls : Bool)
      → All (λ r. IsKnown r.method) router.routes
      → dispatch router req config is_tls ≡ Served router req config is_tls
  unfolding dispatch
  dispatch_lem router req config is_tls known =
      let best = max_specificity req.target router.routes in
      ground (
        arith,
        best_match_lem req.target router.routes,
        select_lem req config is_tls best router.routes unknown false,
        noted_lem (methods req.target best router.routes)
            (IsKnown-methods req config is_tls best router.routes known),
      )
