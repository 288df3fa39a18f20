-- ===== src/Auth/Issue.antt =====
-- Issuing tokens (signEncrypted, IssueAccessToken and IssueRefreshToken of internal/auth/auth.go). The
-- time of the call and the nonce are arguments.
use bouncer.Base.{Bool, Option, none, some, [], ◌∷◌, if◌then◌else◌, Str, Outcome, ◌>>=◌, map_err}
use bouncer.Base.Int.{ℤ, pos, ◌+ℤ◌, lt_int}
use bouncer.Z85.{encode}
use bouncer.Auth.Records.{
  jwt_issuer, jwt_audience, typ_access, typ_refresh, ServerKeys, AccessCreds, RefreshCreds,
  JwtClaims,
}
use bouncer.Auth.Library.{Library, Codec}
use bouncer.Auth.Sealing.{AuthError, sign_jwt, encrypt_creds}

module _ (l : Library) where
  unfoldable pub claims_for : Str → Str → Str → Option ℤ → Bool → ℤ → JwtClaims
  claims_for subject typ enc ttl admin now = record {
    registered = record {
      issuer = jwt_issuer;
      audience = jwt_audience ∷ [];
      subject = subject;
      issued_at = some (l.numeric_date now);
      not_before = some (l.numeric_date now);
      expires_at = elim ttl [ none ↦ none | some d ↦ some (l.numeric_date (now +ℤ d)) ];
    };
    typ = typ;
    enc = encode enc;
    admin = admin;
  }

  unfoldable pub sign_encrypted :
      {A : Type 0}
      → Codec A
      → ServerKeys
      → Str
      → Str
      → Str
      → A
      → Option ℤ
      → Bool
      → ℤ
      → Outcome Str Str
      → Outcome AuthError Str
  sign_encrypted c keys subject typ enc_key creds ttl admin now nonce = do
    enc ← encrypt_creds l c enc_key nonce creds
    map_err sign_jwt (l.sign keys.signing (claims_for subject typ enc ttl admin now))

  unfoldable pub issue_access_token :
      Codec AccessCreds
      → ServerKeys
      → Str
      → AccessCreds
      → ℤ
      → Bool
      → ℤ
      → Outcome Str Str
      → Outcome AuthError Str
  issue_access_token c keys subject creds ttl admin now nonce =
      sign_encrypted c keys subject typ_access keys.encrypt_access creds (some ttl) admin now nonce

  -- A lifetime that is not positive leaves the token without an `exp`.
  unfoldable pub issue_refresh_token :
      Codec RefreshCreds
      → ServerKeys
      → Str
      → RefreshCreds
      → ℤ
      → Bool
      → ℤ
      → Outcome Str Str
      → Outcome AuthError Str
  issue_refresh_token c keys subject creds ttl admin now nonce =
      sign_encrypted c keys subject typ_refresh keys.encrypt_refresh creds
        (if lt_int (pos 0) ttl then some ttl else none) admin now nonce
