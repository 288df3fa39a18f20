-- ===== src/Proxy/Target.antt =====
-- The URL that a request is forwarded to (JoinPath of internal/apiclient/http.go).
use bouncer.Base.{
  ℕ, Bool, false, none, some, [], ◌∷◌, ◌++◌, ◌==◌, ◌||◌, if◌then◌else◌, Str, bytes, has_prefix,
  has_suffix, Outcome, ok, err, ◌>>◌, guard, not,
}
use bouncer.UrlPath.{path_unescape}

-- `site` is what a URL has before its path: the scheme, the user and the host.
pub record Target : Type 0 where
  pub site : Str
  pub path : Str
  pub raw_path : Str
  pub raw_query : Str
  pub fragment : Str

pub data JoinError : Type 0 where
  protocol_relative scheme_in_path whitespace invalid_escape : Str → JoinError

-- The text before the first occurrence of the byte, and that after it, if there is one.
unfoldable pub cut_at : ℕ → Str → Str × Str
cut_at c [] = ([], [])
cut_at c (x ∷ s) =
    let (before, after) = cut_at c s in if x == c then ([], s) else (x ∷ before, after)

-- strings.Contains
unfoldable pub contains : Str → Str → Bool
contains [] part = has_prefix [] part
contains (x ∷ s) part = has_prefix (x ∷ s) part || contains s part

abbrev is_blank : ℕ → Bool
is_blank c = c == 32 || (c == 9 || (c == 13 || c == 10))

unfoldable pub has_blank : Str → Bool
has_blank [] = false
has_blank (c ∷ s) = is_blank c || has_blank s

-- strings.TrimPrefix of "/"
unfoldable pub trim_slash : Str → Str
trim_slash [] = []
trim_slash (c ∷ s) = if c == b'/' then s else c ∷ s

-- The base's path with a slash at its end.
unfoldable pub with_slash : Str → Str
with_slash path = if has_suffix path (b'/' ∷ []) then path else path ++ (b'/' ∷ [])

unfoldable pub join_path : Target → Str → Outcome JoinError Target
join_path base request_path = do
  guard (not (has_prefix request_path (bytes "//"))) (protocol_relative request_path)
  guard (not (contains (cut_at b'?' request_path).0 (bytes "://"))) (scheme_in_path request_path)
  guard (not (has_blank request_path)) (whitespace request_path)
  let (rest, fragment) = cut_at b'#' (trim_slash request_path)
  let (tail, query) = cut_at b'?' rest
  let joined = with_slash base.path ++ tail
  elim (path_unescape joined) [
    | none ↦ err (invalid_escape joined)
    | some decoded ↦
        ok (record base {
          path = decoded;
          raw_path = joined;
          raw_query = query;
          fragment = fragment;
        })
  ]
