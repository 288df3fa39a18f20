-- ===== src/Proxy/Headers.antt =====
-- The headers that are forwarded (connectionNamedHeaders, shouldStripForwarded, applyCredentials and
-- the header loops of forward in internal/server/proxy.go). Headers are the list of their fields.
use bouncer.Base.{
  ℕ, ◌-◌, ◌+◌, Bool, true, false, not, ◌&&◌, ◌||◌, List, [], ◌∷◌, ◌++◌, leb, ◌==◌, if◌then◌else◌,
  Str, bytes, str_eq, to_lower, split_on, contains_byte,
}
use bouncer.Auth.Records.{AccessCreds, Header}

abbrev pub Fields : Type 0
Fields = List (Str × Str)

-- unicode.IsSpace on ASCII
abbrev is_space : ℕ → Bool
is_space c = c == 32 || (leb 9 c && leb c 13)

trim_left : Str → Str
trim_left [] = []
trim_left (c ∷ s) = if is_space c then trim_left s else c ∷ s

-- The text without the spaces at its end.
trim_right : Str → Str
trim_right [] = []
trim_right (c ∷ s) =
    let rest = trim_right s in if is_space c && str_eq rest [] then [] else c ∷ rest

-- strings.TrimSpace on ASCII text
unfoldable pub trim_space : Str → Str
unfolding trim_left trim_right
trim_space s = trim_right (trim_left s)

abbrev is_lower : ℕ → Bool
is_lower c = leb b'a' c && leb c b'z'

abbrev is_upper : ℕ → Bool
is_upper c = leb b'A' c && leb c b'Z'

-- The bytes that may stand in a header's name
abbrev is_token_byte : ℕ → Bool
is_token_byte c =
    is_lower c
    || is_upper c
    || (leb b'0' c && leb c b'9')
    || contains_byte c (bytes "!#$%&'*+-.^_`|~")

unfoldable pub is_token : Str → Bool
is_token [] = true
is_token (c ∷ s) = is_token_byte c && is_token s

-- Upper case at the start and after each dash, lower case elsewhere.
unfoldable pub capitalize : Bool → Str → Str
capitalize first [] = []
capitalize first (c ∷ s) =
    (if first && is_lower c then c - 32 else if not first && is_upper c then c + 32 else c)
    ∷ capitalize (c == b'-') s

-- textproto.CanonicalMIMEHeaderKey: a name with an invalid byte stays.
unfoldable pub canonical_key : Str → Str
unfolding is_token capitalize
canonical_key name = if is_token name then capitalize true name else name

-- http.Header.Values, for a name in canonical form
unfoldable pub values : Str → Fields → List Str
values name [] = []
values name ((n, v) ∷ fields) =
    let rest = values name fields in if str_eq n name then v ∷ rest else rest

-- http.Header.Get
unfoldable pub get_field : Str → Fields → Str
get_field name [] = []
get_field name ((n, v) ∷ fields) = if str_eq n name then v else get_field name fields

unfoldable pub without_field : Str → Fields → Fields
without_field name [] = []
without_field name ((n, v) ∷ fields) =
    let rest = without_field name fields in if str_eq n name then rest else (n, v) ∷ rest

-- http.Header.Set
unfoldable pub set_field : Str → Str → Fields → Fields
set_field name v fields =
    without_field (canonical_key name) fields ++ ((canonical_key name, v) ∷ [])

unfoldable pub is_one_of : Str → List Str → Bool
is_one_of s [] = false
is_one_of s (x ∷ xs) = str_eq x s || is_one_of s xs

-- The names that are never forwarded.
abbrev pub stripped_names : List Str
stripped_names =
    bytes "host"
    ∷ bytes "authorization"
    ∷ bytes "content-length"
    ∷ bytes "connection"
    ∷ bytes "keep-alive"
    ∷ bytes "cookie"
    ∷ bytes "set-cookie"
    ∷ bytes "proxy-authenticate"
    ∷ bytes "proxy-authorization"
    ∷ bytes "te"
    ∷ bytes "trailer"
    ∷ bytes "transfer-encoding"
    ∷ bytes "upgrade"
    ∷ bytes "forwarded"
    ∷ bytes "x-forwarded-for"
    ∷ bytes "x-forwarded-host"
    ∷ bytes "x-forwarded-proto"
    ∷ bytes "x-real-ip"
    ∷ []

unfoldable pub should_strip_forwarded : Str → Bool
should_strip_forwarded name = is_one_of (to_lower name) stripped_names

-- The names in one value of `Connection`
unfoldable pub named_in : List Str → List Str
named_in [] = []
named_in (part ∷ parts) =
    let name = canonical_key (trim_space part) in
    let rest = named_in parts in if str_eq name [] then rest else name ∷ rest

unfoldable pub named_in_all : List Str → List Str
named_in_all [] = []
named_in_all (v ∷ vs) = named_in (split_on b',' v) ++ named_in_all vs

unfoldable pub connection_named_headers : Fields → List Str
connection_named_headers fields = named_in_all (values (bytes "Connection") fields)

-- The loop that copies the fields, for the names that `Connection` lists.
unfoldable pub copy_fields : List Str → Fields → Fields
copy_fields named [] = []
copy_fields named ((n, v) ∷ fields) =
    let rest = copy_fields named fields in
    if should_strip_forwarded n || is_one_of n named then rest else (n, v) ∷ rest

unfoldable pub forwarded_fields : Fields → Fields
forwarded_fields fields = copy_fields (connection_named_headers fields) fields

unfoldable pub set_headers : List Header → Fields → Fields
set_headers [] fields = fields
set_headers (h ∷ hs) fields = set_headers hs (set_field h.name h.value fields)

unfoldable pub apply_credentials : AccessCreds → Fields → Fields
apply_credentials creds fields = set_headers creds.headers (
    if str_eq creds.access_token []
    then fields
    else set_field (bytes "Authorization") (bytes "Bearer " ++ creds.access_token) fields)
