-- ===== src/Auth/Records.antt =====
-- The payloads, the claims and the keys of tokens (internal/auth/auth.go). A time or a duration is a
-- number of nanoseconds, a time counted from the Unix epoch.
use bouncer.Base.{ℕ, ◌*◌, Bool, Option, List, Str, bytes}
use bouncer.Base.Int.{ℤ, pos}

abbrev pub hkdf_salt : Str
hkdf_salt = bytes "bouncer"

abbrev pub jwt_issuer : Str
jwt_issuer = bytes "bouncer"

abbrev pub jwt_audience : Str
jwt_audience = bytes "bouncer"

abbrev pub second : ℕ
second = 1000000000

abbrev pub jwt_leeway : ℕ
jwt_leeway = 30 * 1000000000

abbrev pub access_leeway : ℤ
access_leeway = pos jwt_leeway

abbrev pub typ_access : Str
typ_access = bytes "access"

abbrev pub typ_refresh : Str
typ_refresh = bytes "refresh"

abbrev pub hkdf_info_encrypt_access : Str
hkdf_info_encrypt_access = bytes "encrypt/access"

abbrev pub hkdf_info_encrypt_refresh : Str
hkdf_info_encrypt_refresh = bytes "encrypt/refresh"

abbrev pub hkdf_info_sign : Str
hkdf_info_sign = bytes "sign"

pub record ServerKeys : Type 0 where
  pub signing : Str
  pub verifying : Str
  pub encrypt_access : Str
  pub encrypt_refresh : Str

pub record Header : Type 0 where
  pub name : Str
  pub value : Str

pub record AccessCreds : Type 0 where
  pub access_token : Str
  pub headers : List Header

pub record RefreshCreds : Type 0 where
  pub refresh_token : Str
  pub token_url : Str
  pub headers : List Header

pub record AccessToken : Type 0 where
  pub subject : Str
  pub creds : AccessCreds
  pub admin : Bool

-- No `expires_at` is Go's zero time.
pub record RefreshToken : Type 0 where
  pub subject : Str
  pub creds : RefreshCreds
  pub admin : Bool
  pub expires_at : Option ℤ

-- The fields of `jwt.RegisteredClaims` that the program sets and reads.
pub record RegisteredClaims : Type 0 where
  pub issuer : Str
  pub audience : List Str
  pub subject : Str
  pub issued_at : Option ℤ
  pub not_before : Option ℤ
  pub expires_at : Option ℤ

pub record JwtClaims : Type 0 where
  pub registered : RegisteredClaims
  pub typ : Str
  pub enc : Str
  pub admin : Bool
