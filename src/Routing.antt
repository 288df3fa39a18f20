-- ===== src/Routing.antt =====
-- Routing of request paths to APIs (internal/runtime/runtime.go): `buildPrefixRoutes`,
-- `hasSegmentPrefix` and `routeRequest`.
pub mod Unique
pub mod Declared
use bouncer.Base.{
  ℕ, zero, suc, ◌+◌, Bool, true, false, not, ◌&&◌, ◌||◌, Option, none, some, List, [], ◌∷◌, ◌++◌,
  ltb, ◌==◌, if◌then◌else◌, length, Str, bytes, str_eq, has_prefix, has_suffix, Outcome, ok, err,
  ◌>>=◌, ◌>>◌, guard,
}
use bouncer.UrlPath.{split_path}

-- The fields of `models.API` that routing reads.
pub record ApiSpec : Type 0 where
  pub name : Str
  pub path_prefixes : List Str

pub record PrefixRoute : Type 0 where
  pub segments : List Str
  pub api_name : Str
  pub source : Str

-- Each error carries what its message names.
pub data RouteError : Type 0 where
  must_start must_not_end no_segments : Str → Str → RouteError
  conflict : PrefixRoute → PrefixRoute → RouteError

abbrev pub is_empty {ℓ} : {A : Type ℓ} → List A → Bool
is_empty [] = true
is_empty (_ ∷ _) = false

-- The loop of `hasSegmentPrefix`; the lengths are compared before, so the second clause is not reached.
unfoldable pub agrees : List Str → List Str → Bool
agrees path [] = true
agrees [] (s ∷ prefix) = false
agrees (x ∷ path) (s ∷ prefix) = str_eq x s && agrees path prefix

unfoldable pub has_segment_prefix : List Str → List Str → Bool
has_segment_prefix path prefix =
    if is_empty prefix || ltb (length path) (length prefix) then false else agrees path prefix

-- One round of the loop over an API's prefixes.
unfoldable pub prefix_route : Str → Str → Outcome RouteError PrefixRoute
prefix_route name raw =
    if is_empty raw || not (has_prefix raw (b'/' ∷ []))
    then err (must_start name raw)
    else if has_suffix raw (b'/' ∷ [])
    then err (must_not_end name raw)
    else if is_empty (split_path raw)
    then err (no_segments name raw)
    else ok (record { segments = split_path raw; api_name = name; source = raw })

unfoldable pub api_routes : Str → List Str → Outcome RouteError (List PrefixRoute)
api_routes name [] = ok []
api_routes name (raw ∷ raws) = do
  route ← prefix_route name raw
  routes ← api_routes name raws
  ok (route ∷ routes)

-- The first loop of `buildPrefixRoutes`.
unfoldable pub all_routes : List ApiSpec → Outcome RouteError (List PrefixRoute)
all_routes [] = ok []
all_routes (spec ∷ specs) = do
  routes ← api_routes spec.name spec.path_prefixes
  rest ← all_routes specs
  ok (routes ++ rest)

-- The inner loop over `j`, for the route `r` at `i`.
unfoldable pub conflict_at : ℕ → PrefixRoute → ℕ → List PrefixRoute → Option PrefixRoute
conflict_at i r j [] = none
conflict_at i r j (s ∷ routes) =
    let later = conflict_at i r (j + 1) routes in
    if i == j then later else if has_segment_prefix s.segments r.segments then some s else later

-- The outer loop over `i`.
unfoldable pub find_conflict :
    List PrefixRoute → ℕ → List PrefixRoute → Option (PrefixRoute × PrefixRoute)
find_conflict routes i [] = none
find_conflict routes i (r ∷ rest) =
    let later = find_conflict routes (i + 1) rest in
    elim (conflict_at i r 0 routes) [ none ↦ later | some s ↦ some (r, s) ]

unfoldable pub check_conflicts : List PrefixRoute → Outcome RouteError (List PrefixRoute)
check_conflicts routes = elim (find_conflict routes 0 routes) [
  | none ↦ ok routes
  | some (r, s) ↦ err (conflict r s)
]

unfoldable pub build_prefix_routes : List ApiSpec → Outcome RouteError (List PrefixRoute)
build_prefix_routes pending = do routes ← all_routes pending; check_conflicts routes

-- `routeRequest` over the request's path segments; the empty name means that no API claims them.
unfoldable pub route_request : List PrefixRoute → List Str → Str
route_request [] segs = []
route_request (route ∷ routes) segs =
    if has_segment_prefix segs route.segments then route.api_name else route_request routes segs
