-- ===== src/Oauth/Records.antt =====
-- The data of POST /token (internal/server/oauth/oauth.go) and what its code calls of the standard
-- library and of its HTTP client, as parameters.
use bouncer.Base.{ℕ, Bool, Option, List, [], ◌∷◌, if◌then◌else◌, Str, str_eq, Outcome}
use bouncer.Base.Int.{ℤ}

abbrev pub max_form_body_bytes : ℕ
max_form_body_bytes = 16384

abbrev pub max_upstream_body_bytes : ℕ
max_upstream_body_bytes = 65536

pub record UpstreamTokens : Type 0 where
  pub access_token : Str
  pub refresh_token : Str
  pub expires_in : ℤ

pub record TokenResponse : Type 0 where
  pub access_token : Str
  pub token_type : Str
  pub expires_in : ℤ
  pub refresh_token : Str

pub record OauthError : Type 0 where
  pub status : ℕ
  pub code : Str
  pub description : Str

abbrev pub Form : Type 0
Form = List (Str × Str)

-- url.Values.Get
unfoldable pub form_get : Form → Str → Str
form_get [] key = []
form_get ((k, v) ∷ form) key = if str_eq k key then v else form_get form key

-- What the URL parser gives.
pub record Url : Type 0 where
  pub scheme : Str
  pub host : Str
  pub hostname : Str

-- The POST to the upstream.
pub record UpstreamRequest : Type 0 where
  pub url : Str
  pub form : Form
  pub headers : List (Str × Str)

-- The bytes that a body gives, until its end or an error.
pub record Body : Type 0 where
  pub text : Str
  pub failure : Option Str

pub record UpstreamResponse : Type 0 where
  pub status_code : ℕ
  pub body : Body

-- net/url, net, net/http, fmt and encoding/json
pub record Web : Type 0 where
  pub parse_url : Str → Outcome Str Url
  pub parse_ip : Str → Option Bool
  pub new_request_error : Str → Option Str
  pub do_request : UpstreamRequest → Outcome Str UpstreamResponse
  -- `%q` of fmt
  pub quote : Str → Str
  pub read_tokens : Str → Outcome Str UpstreamTokens

-- A request to the handler; the form is what ParseForm reads of a body under the limit.
pub record Inbound : Type 0 where
  pub method : Str
  pub parse_form : ℕ → Outcome Str Form
