-- ===== src/Routing/Declared.antt =====
-- The routing table serves exactly the declared prefixes.
use bouncer.Base.{
  ℕ, zero, suc, ◌+◌, ◌≡◌, sym, ap, ok-injective, ◌∙◌, true, some, List, [], ◌∷◌, ◌++◌, arith,
  length, get_elem?, Str, some-injective, ok, >>=-eq-ok,
}
use bouncer.UrlPath.{split_path}
use bouncer.Routing.{
  ApiSpec, PrefixRoute, has_segment_prefix, prefix_route, api_routes, all_routes,
  build_prefix_routes, route_request,
}
use bouncer.Routing.Unique.{IsPrefixFree, build_prefix_routes-IsPrefixFree, route_request-claims}

-- Some API of the list has the name and declares the prefix.
abbrev pub Declares : List ApiSpec → Str → Str → Type 0
Declares specs name raw =
    (k : ℕ) × (m : ℕ) × (spec : ApiSpec) × (get_elem? specs k ≡ some spec)
    × (get_elem? spec.path_prefixes m ≡ some raw)
    × (spec.name ≡ name)

abbrev pub route_for : Str → Str → PrefixRoute
route_for name raw = record { segments = split_path raw; api_name = name; source = raw }

module _ {ℓ} {A : Type ℓ} where
  get_elem?-append_left :
      (xs ys : List A) (i : ℕ) {a : A} → get_elem? xs i ≡ some a → get_elem? (xs ++ ys) i ≡ some a
  get_elem?-append_left [] ys i h = cc
  get_elem?-append_left (x ∷ xs) ys zero h = h
  get_elem?-append_left (x ∷ xs) ys (suc i) h = get_elem?-append_left xs ys i h

  get_elem?-append_right :
      (xs ys : List A) (i : ℕ) → get_elem? (xs ++ ys) (length xs + i) ≡ get_elem? ys i
  get_elem?-append_right [] ys i = ap (get_elem? ys) (omega arith)
  get_elem?-append_right (x ∷ xs) ys i =
      let e : suc (length xs) + i ≡ suc (length xs + i) = omega arith in
      rw e (get_elem?-append_right xs ys i)

prefix_route-eq :
    (name raw : Str) (route : PrefixRoute)
    → prefix_route name raw ≡ ok route
    → route ≡ route_for name raw
unfolding prefix_route
prefix_route-eq name raw route h = ground arith

api_routes-cons :
    (name raw : Str) (raws : List Str) (routes : List PrefixRoute)
    → api_routes name (raw ∷ raws) ≡ ok routes
    → (rest : List PrefixRoute) × (api_routes name raws ≡ ok rest)
      × (routes ≡ route_for name raw ∷ rest)
unfolding api_routes
api_routes-cons name raw raws routes h =
    let (route, p, q) = >>=-eq-ok (prefix_route name raw) _ h in
    let (rest, r, e) = >>=-eq-ok (api_routes name raws) _ q in
    (rest, r, cc (prefix_route-eq name raw route p))

-- Each declared prefix has a route, and each route is of a declared prefix.
api_routes-get :
    (name : Str) (raws : List Str) (routes : List PrefixRoute) (m : ℕ) (raw : Str)
    → api_routes name raws ≡ ok routes
    → get_elem? raws m ≡ some raw
    → get_elem? routes m ≡ some (route_for name raw)
api_routes-get name [] routes m raw h g = cc
api_routes-get name (x ∷ raws) routes zero raw h g =
    let (rest, r, e) = api_routes-cons name x raws routes h in rw e (cc (some-injective g))
api_routes-get name (x ∷ raws) routes (suc m) raw h g =
    let (rest, r, e) = api_routes-cons name x raws routes h in
    rw e (api_routes-get name raws rest m raw r g)

all_routes-cons :
    (spec : ApiSpec) (specs : List ApiSpec) (routes : List PrefixRoute)
    → all_routes (spec ∷ specs) ≡ ok routes
    → (first : List PrefixRoute) × (rest : List PrefixRoute) × (api_routes spec.name
          spec.path_prefixes
        ≡ ok first)
      × (all_routes specs ≡ ok rest)
      × (routes ≡ first ++ rest)
unfolding all_routes
all_routes-cons spec specs routes h =
    let (first, p, q) = >>=-eq-ok (api_routes spec.name spec.path_prefixes) _ h in
    let (rest, r, e) = >>=-eq-ok (all_routes specs) _ q in (first, rest, p, r, cc e)

all_routes-get :
    (specs : List ApiSpec) (routes : List PrefixRoute) (k m : ℕ) (spec : ApiSpec) (raw : Str)
    → all_routes specs ≡ ok routes
    → get_elem? specs k ≡ some spec
    → get_elem? spec.path_prefixes m ≡ some raw
    → (i : ℕ) × (get_elem? routes i ≡ some (route_for spec.name raw))
all_routes-get [] routes k m spec raw h g p = cc
all_routes-get (x ∷ specs) routes zero m spec raw h g p =
    let (first, rest, a, r, e) = all_routes-cons x specs routes h in
    let same : x ≡ spec = some-injective g in
    let here = api_routes-get x.name x.path_prefixes first m raw a (rw same p) in
    (
      m,
      rw (e, get_elem?-append_left first rest m here)
          (ap (λ (s : ApiSpec). some (route_for s.name raw)) same),
    )
all_routes-get (x ∷ specs) routes (suc k) m spec raw h g p =
    let (first, rest, a, r, e) = all_routes-cons x specs routes h in
    let (i, there) = all_routes-get specs rest k m spec raw r g p in
    (length first + i, rw (e, get_elem?-append_right first rest i) there)

-- Where routing was built without an error, a path under a declared prefix goes to the API that
-- declares it, whatever the order of the APIs.
pub route_request-declared :
    (specs : List ApiSpec) (routes : List PrefixRoute) (segs : List Str) (name raw : Str)
    → build_prefix_routes specs ≡ ok routes
    → Declares specs name raw
    → has_segment_prefix segs (split_path raw) ≡ true
    → route_request routes segs ≡ name
route_request-declared specs routes segs name raw h (k, m, spec, gk, gm, e) c =
    let (all, free) = build_prefix_routes-IsPrefixFree specs routes h in
    let (i, g) = all_routes-get specs routes k m spec raw all gk gm in
    route_request-claims routes segs i (route_for spec.name raw) free g c ∙ e

-- The routes of all declared prefixes, in their order.
abbrev pub prefix_routes : Str → List Str → List PrefixRoute
prefix_routes name [] = []
prefix_routes name (raw ∷ raws) = route_for name raw ∷ prefix_routes name raws

abbrev pub declared_routes : List ApiSpec → List PrefixRoute
declared_routes [] = []
declared_routes (spec ∷ specs) = prefix_routes spec.name spec.path_prefixes ++ declared_routes specs

api_routes-declared :
    (name : Str) (raws : List Str) (routes : List PrefixRoute)
    → api_routes name raws ≡ ok routes
    → routes ≡ prefix_routes name raws
unfolding api_routes
api_routes-declared name [] routes h = sym (ok-injective h)
api_routes-declared name (raw ∷ raws) routes h =
    let (rest, r, e) = api_routes-cons name raw raws routes h in
    e ∙ ap (λ l. route_for name raw ∷ l) (api_routes-declared name raws rest r)

all_routes-declared :
    (specs : List ApiSpec) (routes : List PrefixRoute)
    → all_routes specs ≡ ok routes
    → routes ≡ declared_routes specs
unfolding all_routes
all_routes-declared [] routes h = sym (ok-injective h)
all_routes-declared (spec ∷ specs) routes h =
    let (first, rest, a, r, e) = all_routes-cons spec specs routes h in
    e
    ∙ ap (λ l. l ++ rest) (api_routes-declared spec.name spec.path_prefixes first a)
    ∙ ap (λ l. prefix_routes spec.name spec.path_prefixes ++ l) (all_routes-declared specs rest r)

-- Where building the table succeeds, the table is, in the order of the APIs and of each one's
-- prefixes, one route for each prefix that they declare, to the API that declares it, and no route of
-- it is a prefix of another one.
pub build_prefix_routes-declared :
    (specs : List ApiSpec) (routes : List PrefixRoute)
    → build_prefix_routes specs ≡ ok routes
    → (routes ≡ declared_routes specs) × IsPrefixFree routes
build_prefix_routes-declared specs routes h =
    let (all, free) = build_prefix_routes-IsPrefixFree specs routes h in
    (all_routes-declared specs routes all, free)
