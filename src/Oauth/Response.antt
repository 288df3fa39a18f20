-- ===== src/Oauth/Response.antt =====
-- The success response (rotatedRefreshTTL and issueResponse of internal/server/oauth/oauth.go).
use bouncer.Base.{
  ◌/◌, Bool, ◌&&◌, ◌||◌, not, Option, none, some, [], if◌then◌else◌, Str, bytes, str_eq, Outcome,
  ok, err, ◌>>=◌,
}
use bouncer.Base.Int.{ℤ, pos, ◌-ℤ◌, le_int, lt_int, scale, sub_time, above}
use bouncer.Auth.Records.{
  ServerKeys, AccessCreds, RefreshCreds, RefreshToken, access_leeway, second,
}
use bouncer.Auth.Library.{Library, Codec}
use bouncer.Auth.Issue.{issue_access_token, issue_refresh_token}
use bouncer.Oauth.Records.{OauthError, UpstreamTokens, TokenResponse}
use bouncer.Oauth.Exchange.{err_oauth}

-- The lifetime of the access token; none if the upstream's is too short.
unfoldable pub access_ttl : ℤ → Option ℤ
access_ttl expires_in =
    let ttl = scale expires_in second in
    if le_int ttl access_leeway then none else some (ttl -ℤ access_leeway)

-- `configured_ttl == 0`
abbrev is_zero : ℤ → Bool
is_zero z = le_int z (pos 0) && le_int (pos 0) z

-- The lifetime of a rotated refresh token; none if it cannot be issued.
unfoldable pub rotated_refresh_ttl : Option ℤ → ℤ → ℤ → Option ℤ
rotated_refresh_ttl none configured_ttl now = some configured_ttl
rotated_refresh_ttl (some original_exp) configured_ttl now =
    let remaining = sub_time original_exp now in
    if le_int remaining (pos 0)
    then none
    else if is_zero configured_ttl || lt_int remaining configured_ttl
    then some remaining
    else some configured_ttl

-- The readings of the clock in the order in which a call makes them: when the refresh token is
-- verified and compared with its expiry, when the access token is issued, when the lifetime of the
-- rotated token is computed and when that is issued.
pub record Readings : Type 0 where
  pub verified : ℤ
  pub compared : ℤ
  pub access_issued : ℤ
  pub rotated : ℤ
  pub refresh_issued : ℤ

-- The two nonces of a call.
pub record Nonces : Type 0 where
  pub access : Outcome Str Str
  pub refresh : Outcome Str Str

pub record OauthHandler : Type 0 where
  pub keys : ServerKeys
  pub refresh_ttl : ℤ

abbrev pub is_rotated : RefreshToken → UpstreamTokens → Bool
is_rotated rt u =
    not (str_eq u.refresh_token []) && not (str_eq u.refresh_token rt.creds.refresh_token)

module _ (l : Library) (access_codec : Codec AccessCreds) (refresh_codec : Codec RefreshCreds) where
  -- The new refresh token, empty if there is none.
  unfoldable pub rotate :
      OauthHandler → RefreshToken → UpstreamTokens → Readings → Nonces → Outcome OauthError Str
  unfolding err_oauth
  rotate h rt u at nonces =
      if is_rotated rt u
      then elim (rotated_refresh_ttl rt.expires_at h.refresh_ttl at.rotated) [
        | none ↦ ok []
        | some ttl ↦
            elim (issue_refresh_token l refresh_codec h.keys rt.subject
              (record {
                refresh_token = u.refresh_token;
                token_url = rt.creds.token_url;
                headers = rt.creds.headers;
              })
              ttl rt.admin at.refresh_issued nonces.refresh) [
                | err e ↦
                    err
                      (err_oauth 500 (bytes "server_error") (bytes "could not issue refresh token"))
                | ok token ↦ ok token
              ]
      ]
      else ok []

  unfoldable pub issue_access :
      OauthHandler → RefreshToken → UpstreamTokens → ℤ → Readings → Nonces → Outcome OauthError Str
  unfolding err_oauth
  issue_access h rt u ttl at nonces =
      elim (issue_access_token l access_codec h.keys rt.subject
        (record { access_token = u.access_token; headers = rt.creds.headers }) ttl rt.admin
        at.access_issued nonces.access) [
          | err e ↦
              err (err_oauth 500 (bytes "server_error") (bytes "could not issue access token"))
          | ok token ↦ ok token
        ]

  unfoldable pub issue_response :
      OauthHandler
      → RefreshToken
      → UpstreamTokens
      → Readings
      → Nonces
      → Outcome OauthError TokenResponse
  unfolding err_oauth
  issue_response h rt u at nonces = elim (access_ttl u.expires_in) [
    | none ↦ err (
        err_oauth 503 (bytes "temporarily_unavailable")
          (bytes "upstream access TTL too short to issue a safe access token"))
    | some ttl ↦ do
      access_jwt ← issue_access h rt u ttl at nonces
      refresh_jwt ← rotate h rt u at nonces
      ok (record {
        access_token = access_jwt;
        token_type = bytes "Bearer";
        expires_in = pos (above ttl / second);
        refresh_token = refresh_jwt;
      })
  ]
