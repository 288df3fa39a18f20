-- ===== src/Oauth/Handler.antt =====
-- The handler of POST /token (ServeHTTP of internal/server/oauth/oauth.go). What it writes is its
-- outcome; beside it stand the requests that it sent to the upstream.
use bouncer.Base.{
  ◌++◌, Bool, false, not, Option, none, some, List, [], bytes, str_eq, Outcome, ok, err, ◌>>=◌,
  ◌>>◌, guard, map_err,
}
use bouncer.Base.Int.{ℤ, lt_int}
use bouncer.Auth.Records.{AccessCreds, RefreshCreds, RefreshToken}
use bouncer.Auth.Library.{Library, Codec}
use bouncer.Auth.Verify.{verify_refresh_token}
use bouncer.Oauth.Records.{
  OauthError, TokenResponse, UpstreamRequest, Form, Inbound, Web, form_get, max_form_body_bytes,
}
use bouncer.Oauth.Exchange.{err_oauth, exchange}
use bouncer.Oauth.Response.{OauthHandler, Readings, Nonces, issue_response}

-- `!exp.IsZero() && !exp.After(now)`
unfoldable pub is_exhausted : Option ℤ → ℤ → Bool
is_exhausted none now = false
is_exhausted (some exp) now = not (lt_int now exp)

module _ (l : Library) (access_codec : Codec AccessCreds) (refresh_codec : Codec RefreshCreds)
    (web : Web) where
  -- The method, the form and the grant type; the form has a refresh token.
  unfoldable pub read_form : Inbound → Outcome OauthError Form
  unfolding err_oauth
  read_form r = do
    guard (str_eq r.method (bytes "POST"))
        (err_oauth 405 (bytes "invalid_request") (bytes "POST required"))
    form ←
        map_err (λ e. err_oauth 400 (bytes "invalid_request") (bytes "could not parse form"))
          (r.parse_form max_form_body_bytes)
    guard (str_eq (form_get form (bytes "grant_type")) (bytes "refresh_token")) (
        err_oauth 400 (bytes "unsupported_grant_type") (
          bytes "grant_type "
          ++ (web.quote (form_get form (bytes "grant_type"))
              ++ bytes " not supported (only refresh_token)")))
    guard (not (str_eq (form_get form (bytes "refresh_token")) []))
        (err_oauth 400 (bytes "invalid_request") (bytes "refresh_token required"))
    ok form

  -- The steps before the upstream is asked: the form and the refresh token, which has not expired.
  unfoldable pub read_request :
      OauthHandler → Inbound → Readings → Outcome OauthError (Form × RefreshToken)
  read_request h r at = do
    form ← read_form r
    rt ←
        map_err (λ e. err_oauth 400 (bytes "invalid_grant") (bytes "refresh token rejected"))
          (verify_refresh_token l refresh_codec h.keys (form_get form (bytes "refresh_token"))
            at.verified)
    guard (not (is_exhausted rt.expires_at at.compared))
        (err_oauth 400 (bytes "invalid_grant") (bytes "refresh token expired"))
    ok (form, rt)

  unfoldable pub serve_http :
      OauthHandler
      → Inbound
      → Readings
      → Nonces
      → Outcome OauthError TokenResponse × List UpstreamRequest
  serve_http h r at nonces = elim (read_request h r at) [
    | err e ↦ (err e, [])
    | ok (form, rt) ↦
        let (tokens, sent) =
          exchange web rt.creds (form_get form (bytes "client_id"))
            (form_get form (bytes "client_secret")) in
        (tokens >>= λ u. issue_response l access_codec refresh_codec h rt u at nonces, sent)
  ]
