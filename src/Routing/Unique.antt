-- ===== src/Routing/Unique.antt =====
-- The routes that `buildPrefixRoutes` accepts claim each path at most once.
use bouncer.Base.{
  ℕ, zero, suc, ◌+◌, ◌≤◌, ◌≡◌, ◌≢◌, ◌⊎◌, inl, inr, refl, true, false, none, some, List, [], ◌∷◌,
  arith, ◌==◌, length, get_elem?, Str, str_eq_iff, Bool-cases, some-injective, Option-cases, ok,
  >>=-eq-ok,
}
use bouncer.Routing.{
  ApiSpec, PrefixRoute, agrees, has_segment_prefix, all_routes, conflict_at, find_conflict,
  check_conflicts, build_prefix_routes, route_request,
}

-- Two prefixes of one path: the shorter is a prefix of the longer.
agrees_nested :
    (path p q : List Str)
    → agrees path p ≡ true
    → agrees path q ≡ true
    → length p ≤ length q
    → agrees q p ≡ true
unfolding agrees
agrees_nested path [] q hp hq le = ground arith
agrees_nested path (s ∷ p) [] hp hq le = absurd (omega arith)
agrees_nested [] (s ∷ p) (t ∷ q) hp hq le = cc
agrees_nested (x ∷ path) (s ∷ p) (t ∷ q) hp hq le =
    ground (arith, str_eq_iff x s, str_eq_iff x t, str_eq_iff t s, agrees_nested path p q)

has_segment_prefix_nested :
    (path p q : List Str)
    → has_segment_prefix path p ≡ true
    → has_segment_prefix path q ≡ true
    → length p ≤ length q
    → has_segment_prefix q p ≡ true
unfolding has_segment_prefix
has_segment_prefix_nested path p q hp hq le = ground (arith, agrees_nested path p q)

conflict_at-none :
    (i : ℕ) (r : PrefixRoute) (start : ℕ) (routes : List PrefixRoute) (k : ℕ) (s : PrefixRoute)
    → conflict_at i r start routes ≡ none
    → get_elem? routes k ≡ some s
    → i ≢ start + k
    → has_segment_prefix s.segments r.segments ≡ false
unfolding conflict_at
conflict_at-none i r start [] k s h g n = cc
conflict_at-none i r start (x ∷ routes) zero s h g n = ground arith
conflict_at-none i r start (x ∷ routes) (suc k) s h g n =
    ground (arith, conflict_at-none i r (start + 1) routes k s)

find_conflict-none :
    (routes : List PrefixRoute) (start : ℕ) (rest : List PrefixRoute) (k : ℕ) (r : PrefixRoute)
    → find_conflict routes start rest ≡ none
    → get_elem? rest k ≡ some r
    → conflict_at (start + k) r 0 routes ≡ none
unfolding find_conflict
find_conflict-none routes start [] k r h g = cc
find_conflict-none routes start (x ∷ rest) zero r h g =
    let e : start + 0 ≡ start = omega arith in rw e (ground arith)
find_conflict-none routes start (x ∷ rest) (suc k) r h g =
    let e : start + suc k ≡ (start + 1) + k = omega arith in
    rw e (ground (arith, find_conflict-none routes (start + 1) rest k r))

-- No route of the table is a segment-wise prefix of another.
abbrev pub IsPrefixFree : List PrefixRoute → Type 0
IsPrefixFree routes =
    (i j : ℕ) (r s : PrefixRoute)
    → get_elem? routes i ≡ some r
    → get_elem? routes j ≡ some s
    → i ≢ j
    → has_segment_prefix s.segments r.segments ≡ false

check_conflicts-IsPrefixFree :
    (routes found : List PrefixRoute)
    → check_conflicts routes ≡ ok found
    → (found ≡ routes) × IsPrefixFree routes
unfolding check_conflicts
check_conflicts-IsPrefixFree routes found h = elim (Option-cases (find_conflict routes 0 routes)) [
  | inl e ↦ (
    ground arith,
    λ i j r s gi gj n.
        conflict_at-none (0 + i) r 0 routes j s (find_conflict-none routes 0 routes i r e gi) gj
          (λ p. n (omega arith)),
  )
  | inr ((r, s), e) ↦ ground arith
]

-- Where building the table succeeds, the table has all routes that are declared, and no route of
-- it is a prefix of another one.
pub build_prefix_routes-IsPrefixFree :
    (pending : List ApiSpec) (routes : List PrefixRoute)
    → build_prefix_routes pending ≡ ok routes
    → (all_routes pending ≡ ok routes) × IsPrefixFree routes
unfolding build_prefix_routes
build_prefix_routes-IsPrefixFree pending routes h =
    let (found, a, c) = >>=-eq-ok (all_routes pending) check_conflicts h in
    let (e, free) = check_conflicts-IsPrefixFree found routes c in (cc (a, e), rw e free)

le_cases : (a b : ℕ) → (a ≤ b) ⊎ (b ≤ a)
le_cases a b = omega arith

-- Where the table claims a path, it claims it once.
claims_once :
    (routes : List PrefixRoute) (segs : List Str) (i j : ℕ) (r s : PrefixRoute)
    → IsPrefixFree routes
    → get_elem? routes i ≡ some r
    → get_elem? routes j ≡ some s
    → has_segment_prefix segs r.segments ≡ true
    → has_segment_prefix segs s.segments ≡ true
    → i ≡ j
claims_once routes segs i j r s free gi gj ci cj = elim (Bool-cases (i == j)) [
  | inl e ↦ ground arith
  | inr n ↦ elim (le_cases (length r.segments) (length s.segments)) [
    | inl le ↦ cc (
      free i j r s gi gj (ground arith),
      has_segment_prefix_nested segs r.segments s.segments ci cj le,
    )
    | inr le ↦ cc (
      free j i s r gj gi (ground arith),
      has_segment_prefix_nested segs s.segments r.segments cj ci le,
    )
  ]
]

-- The first route that claims the path decides.
abbrev FirstClaim : List PrefixRoute → List Str → Type 0
FirstClaim routes segs =
    (k : ℕ) × (s : PrefixRoute) × (get_elem? routes k ≡ some s)
    × (has_segment_prefix segs s.segments ≡ true)
    × (route_request routes segs ≡ s.api_name)

FirstClaim-cons :
    (x : PrefixRoute) (routes : List PrefixRoute) (segs : List Str)
    → has_segment_prefix segs x.segments ≡ false
    → FirstClaim routes segs
    → FirstClaim (x ∷ routes) segs
FirstClaim-cons x routes segs n (k, s, g, c, e) = (suc k, s, g, c, unfold route_request in rw n e)

FirstClaim-head :
    (x : PrefixRoute) (routes : List PrefixRoute) (segs : List Str)
    → has_segment_prefix segs x.segments ≡ true
    → FirstClaim (x ∷ routes) segs
FirstClaim-head x routes segs c = (0, x, refl, c, unfold route_request in rw c)

route_request-FirstClaim :
    (routes : List PrefixRoute) (segs : List Str) (i : ℕ) (r : PrefixRoute)
    → get_elem? routes i ≡ some r
    → has_segment_prefix segs r.segments ≡ true
    → FirstClaim routes segs
route_request-FirstClaim [] segs i r g c = cc
route_request-FirstClaim (x ∷ routes) segs zero r g c =
    FirstClaim-head x routes segs (cc (some-injective g))
route_request-FirstClaim (x ∷ routes) segs (suc i) r g c =
    elim (Bool-cases (has_segment_prefix segs x.segments)) [
      | inl here ↦ FirstClaim-head x routes segs here
      | inr there ↦
          FirstClaim-cons x routes segs there (route_request-FirstClaim routes segs i r g c)
    ]

-- In a prefix-free table the route that claims the path decides, wherever it stands.
pub route_request-claims :
    (routes : List PrefixRoute) (segs : List Str) (i : ℕ) (r : PrefixRoute)
    → IsPrefixFree routes
    → get_elem? routes i ≡ some r
    → has_segment_prefix segs r.segments ≡ true
    → route_request routes segs ≡ r.api_name
route_request-claims routes segs i r free g c =
    let (k, s, gk, ck, e) = route_request-FirstClaim routes segs i r g c in
    cc (e, gk, g, claims_once routes segs i k r s free g gk c ck)
