-- ===== src/Auth/Verify.antt =====
-- Verifying tokens (verifyAndDecrypt, VerifyAccessToken, VerifyRefreshToken and tokenExpiry of
-- internal/auth/auth.go). The time of the call is an argument.
use bouncer.Base.{
  Bool, true, false, not, Option, none, [], Str, bytes, ◌++◌, str_eq, Outcome, ok, err, ◌>>=◌, ◌>>◌,
  guard, map_err,
}
use bouncer.Base.Int.{ℤ}
use bouncer.Z85.{decode}
use bouncer.Auth.Records.{
  jwt_issuer, jwt_audience, access_leeway, typ_access, typ_refresh, ServerKeys, AccessCreds,
  RefreshCreds, AccessToken, RefreshToken,
}
use bouncer.Auth.Library.{Library, Codec, ParserOptions, Method, ed25519, other_method}
use bouncer.Auth.Sealing.{
  AuthError, parse_jwt, token_invalid, wrong_typ, missing_enc, decode_enc, missing_token_url,
  decrypt_creds,
}

unfoldable pub parser_options : Bool → ParserOptions
parser_options required = record {
  leeway = access_leeway;
  issuer = jwt_issuer;
  audience = jwt_audience;
  expiration_required = required;
}

-- The function that golang-jwt asks for the key.
unfoldable pub key_for : ServerKeys → Method → Outcome Str Str
key_for keys ed25519 = ok keys.verifying
key_for keys (other_method alg) = err (bytes "unexpected signing method " ++ alg)

module _ (l : Library) where
  -- The steps after the signature and the registered claims were checked.
  unfoldable pub read_payload : {A : Type 0} → Codec A → Str → Str → Str → Str → Outcome AuthError A
  read_payload c want_typ enc_key typ enc = do
    guard (str_eq typ want_typ) (wrong_typ typ want_typ)
    guard (not (str_eq enc [])) missing_enc
    enc_bytes ← map_err decode_enc (decode enc)
    decrypt_creds l c enc_key enc_bytes

  unfoldable pub verify_and_decrypt :
      {A : Type 0}
      → Codec A
      → ServerKeys
      → Str
      → Str
      → Str
      → Bool
      → ℤ
      → Outcome AuthError (Str × Bool × A)
  verify_and_decrypt c keys token want_typ enc_key expiration_required now = do
    parsed ←
        map_err parse_jwt (l.parse (parser_options expiration_required) (key_for keys) now token)
    guard parsed.valid token_invalid
    creds ← read_payload c want_typ enc_key parsed.claims.typ parsed.claims.enc
    ok (parsed.claims.registered.subject, parsed.claims.admin, creds)

  unfoldable pub verify_access_token :
      Codec AccessCreds → ServerKeys → Str → ℤ → Outcome AuthError AccessToken
  verify_access_token c keys token now = do
    (subject, admin, creds) ←
        verify_and_decrypt c keys token typ_access keys.encrypt_access true now
    ok (record { subject = subject; creds = creds; admin = admin })

  unfoldable pub token_expiry : Str → Option ℤ
  token_expiry token = elim (l.parse_unverified token) [ err e ↦ none | ok rc ↦ rc.expires_at ]

  unfoldable pub verify_refresh_token :
      Codec RefreshCreds → ServerKeys → Str → ℤ → Outcome AuthError RefreshToken
  verify_refresh_token c keys token now = do
    (subject, admin, creds) ←
        verify_and_decrypt c keys token typ_refresh keys.encrypt_refresh false now
    guard (not (str_eq creds.token_url [])) missing_token_url
    ok (record { subject = subject; creds = creds; admin = admin; expires_at = token_expiry token })
