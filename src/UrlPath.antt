-- ===== src/UrlPath.antt =====
-- Splitting and rendering URL paths (internal/runtime/compiled/path.go).
pub mod RoundTrip
use bouncer.Base.{
  ℕ, ◌+◌, ◌-◌, ◌*◌, Bool, true, false, ◌&&◌, ◌||◌, Option, none, some, List, [], ◌∷◌, ◌++◌, map,
  leb, ◌==◌, if◌then◌else◌, Str, bytes, split_on, join, replace_all,
}

-- strings.TrimPrefix(p, "/")
abbrev trim_slash : Str → Str
trim_slash [] = []
trim_slash (c ∷ s) = if c == b'/' then s else c ∷ s

abbrev split_nonempty : Str → List Str
split_nonempty [] = []
split_nonempty (c ∷ s) = split_on b'/' (c ∷ s)

unfoldable pub split_path : Str → List Str
unfolding split_on
split_path p = split_nonempty (trim_slash p)

-- `ishex` and `unhex` of Go's net/url
unfoldable pub is_hex : ℕ → Bool
is_hex c = leb b'0' c && leb c b'9' || leb b'a' c && leb c b'f' || leb b'A' c && leb c b'F'

unfoldable pub unhex : ℕ → ℕ
unhex c =
    if leb b'0' c && leb c b'9'
    then c - b'0'
    else if leb b'a' c && leb c b'f'
    then c - b'a' + 10
    else if leb b'A' c && leb c b'F'
    then c - b'A' + 10
    else 0

infixl 5 ◌>>=◌
abbrev ◌>>=◌ {ℓ κ} : {A : Type ℓ} {B : Type κ} → Option A → (A → Option B) → Option B
none >>= f = none
some a >>= f = f a

-- url.PathUnescape; `none` is its EscapeError.
unfoldable pub path_unescape : Str → Option Str
path_unescape [] = some []
path_unescape (c ∷ []) = if c == b'%' then none else some (c ∷ [])
path_unescape (c ∷ d ∷ []) =
    if c == b'%' then none else path_unescape (d ∷ []) >>= λ t. some (c ∷ t)
path_unescape (c ∷ d ∷ e ∷ s) =
    let decoded = path_unescape s >>= λ t. some ((unhex d * 16 + unhex e) ∷ t) in
    let plain = path_unescape (d ∷ e ∷ s) >>= λ t. some (c ∷ t) in
    if c == b'%' then (if is_hex d && is_hex e then decoded else none) else plain

-- The loop of `SplitEscapedPath`; `none` is a segment that fails to decode.
unfoldable pub unescape_all : List Str → Option (List Str)
unescape_all [] = some []
unescape_all (s ∷ ss) = do dec ← path_unescape s; rest ← unescape_all ss; some (dec ∷ rest)

unfoldable pub split_escaped_path : Str → Option (List Str)
unfolding split_path unescape_all path_unescape is_hex unhex
split_escaped_path escaped = unescape_all (split_path escaped)

-- One segment as `JoinSegments` renders it.
unfoldable pub escape_segment : Str → Str
unfolding replace_all
escape_segment s = replace_all b'/' (bytes "%2F") (replace_all b'%' (bytes "%25") s)

unfoldable pub join_segments : List Str → Str
unfolding escape_segment join
join_segments [] = b'/' ∷ []
join_segments (s ∷ ss) = b'/' ∷ join b'/' (map escape_segment (s ∷ ss))
