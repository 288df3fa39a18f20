-- ===== src/Auth/Library.antt =====
-- What internal/auth/auth.go calls: HKDF, Ed25519, ChaCha20-Poly1305, encoding/json and
-- golang-jwt. The operations are parameters, and their laws are what those packages document.
use bouncer.Base.{
  ℕ, ◌<◌, map, ◌≡◌, ◌≢◌, Bool, true, false, ◌||◌, Option, none, some, List, [], ◌∷◌, Str, str_eq,
  Outcome, ok, err, All, length,
}
use bouncer.Base.Int.{ℤ, pos, ◌+ℤ◌, ◌-ℤ◌, ◌≤ℤ◌, ◌<ℤ◌}
use bouncer.Z85.RoundTrip.{IsByte}
use bouncer.Auth.Records.{AccessCreds, RefreshCreds, Header, RegisteredClaims, JwtClaims, second}

-- The signing method in a token's header.
pub data Method : Type 0 where
  ed25519 : Method
  other_method : Str → Method

pub record ParserOptions : Type 0 where
  pub leeway : ℤ
  pub issuer : Str
  pub audience : Str
  pub expiration_required : Bool

pub record Parsed : Type 0 where
  pub claims : JwtClaims
  pub valid : Bool

-- An error of a library is its text. `to_text` is what encoding/json makes of a string that it writes
-- and reads: invalid UTF-8 is replaced by U+FFFD.
pub record Library : Type 0 where
  pub hkdf : Str → Str → Str → ℕ → Outcome Str Str
  pub key_from_seed : Str → Str
  pub public_key : Str → Str
  pub new_aead : Str → Option Str
  pub nonce_size : ℕ
  pub seal : Str → Str → Str → Str
  pub unseal : Str → Str → Str → Outcome Str Str
  pub numeric_date : ℤ → ℤ
  pub sign : Str → JwtClaims → Outcome Str Str
  pub parse : ParserOptions → (Method → Outcome Str Str) → ℤ → Str → Outcome Str Parsed
  pub parse_unverified : Str → Outcome Str RegisteredClaims
  pub method_of : Str → Method
  pub to_text : Str → Str

-- encoding/json at one type of payload. `as_read` in its laws is what a value is read back as.
pub record Codec (A : Type 0) : Type 0 where
  pub marshal : A → Outcome Str Str
  pub unmarshal : Str → Outcome Str A

pub record CodecLaws {A : Type 0} (c : Codec A) (as_read : A → A) : Type 0 where
  pub unmarshal-marshal :
      (a : A) (text : Str) → c.marshal a ≡ ok text → c.unmarshal text ≡ ok (as_read a)

module _ (l : Library) where
  -- Values as encoding/json writes and reads them.
  abbrev pub header_as_read : Header → Header
  header_as_read h = record { name = l.to_text h.name; value = l.to_text h.value }

  abbrev pub access_as_read : AccessCreds → AccessCreds
  access_as_read creds = record {
    access_token = l.to_text creds.access_token;
    headers = map header_as_read creds.headers;
  }

  abbrev pub refresh_as_read : RefreshCreds → RefreshCreds
  refresh_as_read creds = record {
    refresh_token = l.to_text creds.refresh_token;
    token_url = l.to_text creds.token_url;
    headers = map header_as_read creds.headers;
  }

  abbrev pub registered_as_read : RegisteredClaims → RegisteredClaims
  registered_as_read c = record c {
    issuer = l.to_text c.issuer;
    audience = map l.to_text c.audience;
    subject = l.to_text c.subject;
  }

  abbrev pub claims_as_read : JwtClaims → JwtClaims
  claims_as_read c = record c {
    registered = registered_as_read c.registered;
    typ = l.to_text c.typ;
    enc = l.to_text c.enc;
  }

abbrev pub IsAscii : ℕ → Type 0
IsAscii b = b < 128

-- The time is not past an `exp`, nor before an `nbf`, by more than the leeway.
abbrev pub IsUnexpired : ParserOptions → Option ℤ → ℤ → Type 0
IsUnexpired o none now = o.expiration_required ≢ true
IsUnexpired o (some exp) now = now <ℤ (exp +ℤ o.leeway)

abbrev pub HasBegun : ParserOptions → Option ℤ → ℤ → Type 0
HasBegun o none now = Unit
HasBegun o (some nbf) now = (nbf -ℤ o.leeway) ≤ℤ now

-- The name is among the audiences.
abbrev pub is_member : Str → List Str → Bool
is_member s [] = false
is_member s (x ∷ xs) = str_eq x s || is_member s xs

-- The validation of the registered claims that golang-jwt documents for these options.
pub record Admits (o : ParserOptions) (c : RegisteredClaims) (now : ℤ) : Type 0 where
  pub unexpired : IsUnexpired o c.expires_at now
  pub begun : HasBegun o c.not_before now
  pub issuer : c.issuer ≡ o.issuer
  pub audience : is_member o.audience c.audience ≡ true

pub record Laws (l : Library) : Type 0 where
  -- HKDF and ChaCha20-Poly1305
  pub hkdf-length :
      (ikm salt info : Str) (size : ℕ) (out : Str)
      → l.hkdf ikm salt info size ≡ ok out
      → length out ≡ size
  pub new_aead-length : (key : Str) → length key ≡ 32 → l.new_aead key ≡ none
  pub seal-IsByte : (key nonce text : Str) → All IsByte (l.seal key nonce text)
  pub unseal-seal : (key nonce text : Str) → l.unseal key nonce (l.seal key nonce text) ≡ ok text
  pub unseal-seal_ne :
      (key other nonce text : Str)
      → other ≢ key
      → (e : Str) × (l.unseal other nonce (l.seal key nonce text) ≡ err e)
  -- encoding/json
  pub to_text-ascii : (s : Str) → All IsAscii s → l.to_text s ≡ s
  pub to_text-ne-empty : (s : Str) → s ≢ [] → l.to_text s ≢ []
  -- golang-jwt: a date is cut to whole seconds
  pub numeric_date-le : (t : ℤ) → l.numeric_date t ≤ℤ t
  pub numeric_date-lt : (t : ℤ) → t <ℤ (l.numeric_date t +ℤ pos second)
  -- golang-jwt: a token's signature is checked with the key that the caller's function gives
  pub parse-sign :
      (o : ParserOptions) (get_key : Method → Outcome Str Str) (key : Str) (c : JwtClaims)
      (token : Str) (now : ℤ)
      → l.sign key c ≡ ok token
      → get_key ed25519 ≡ ok (l.public_key key)
      → Admits o (registered_as_read l c.registered) now
      → l.parse o get_key now token ≡ ok (record { claims = claims_as_read l c; valid = true })
  pub parse-inv :
      (o : ParserOptions) (get_key : Method → Outcome Str Str) (key : Str) (c : JwtClaims)
      (token : Str) (now : ℤ) (p : Parsed)
      → l.sign key c ≡ ok token
      → l.parse o get_key now token ≡ ok p
      → (p.claims ≡ claims_as_read l c) × Admits o (registered_as_read l c.registered) now
  pub parse-method :
      (o : ParserOptions) (get_key : Method → Outcome Str Str) (token : Str) (now : ℤ) (p : Parsed)
      → l.parse o get_key now token ≡ ok p
      → (key : Str) × (get_key (l.method_of token) ≡ ok key)
  pub parse_unverified-sign :
      (key : Str) (c : JwtClaims) (token : Str)
      → l.sign key c ≡ ok token
      → l.parse_unverified token ≡ ok (registered_as_read l c.registered)
