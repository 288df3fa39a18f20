-- ===== src/Oauth/Exchange.antt =====
-- The exchange with the upstream (validateTokenURL and exchange of internal/server/oauth/oauth.go).
use bouncer.Base.{
  ℕ, ◌+◌, Bool, false, Option, none, some, List, [], ◌∷◌, ◌++◌, ltb, leb, if◌then◌else◌, length,
  take, Str, bytes, str_eq, Outcome, ok, err, ◌>>◌, guard, not,
}
use bouncer.Auth.Records.{RefreshCreds}
use bouncer.Oauth.Records.{
  OauthError, UpstreamTokens, UpstreamRequest, UpstreamResponse, Body, Url, Web, Form,
  max_upstream_body_bytes,
}

unfoldable pub err_oauth : ℕ → Str → Str → OauthError
err_oauth status code description = record {
  status = status;
  code = code;
  description = description;
}

pub data TokenUrlError : Type 0 where
  token_url_parse : Str → TokenUrlError
  no_host : Str → TokenUrlError
  not_loopback : Str → TokenUrlError
  bad_scheme : Str → TokenUrlError

abbrev client_field : Str → Str → Form
client_field name value = if str_eq value [] then [] else (name, value) ∷ []

-- io.ReadAll of an io.LimitReader: an error past the limit is not met.
unfoldable pub read_limited : ℕ → Body → Outcome Str Str
read_limited n body =
    if leb n (length body.text)
    then ok (take n body.text)
    else elim (body.failure) [ none ↦ ok body.text | some e ↦ err e ]

abbrev pub unavailable : Str → OauthError
unavailable description = err_oauth 503 (bytes "temporarily_unavailable") description

-- The tokens, if the body has them.
unfoldable pub check_tokens : Outcome Str UpstreamTokens → Outcome OauthError UpstreamTokens
check_tokens (err e) =
    err (err_oauth 502 (bytes "server_error") (bytes "could not parse upstream response"))
check_tokens (ok u) = do
  guard (not (str_eq u.access_token []))
      (err_oauth 502 (bytes "server_error") (bytes "upstream returned no access_token"))
  ok u

unfoldable pub upstream_request : RefreshCreds → Str → Str → UpstreamRequest
upstream_request creds client_id client_secret = record {
  url = creds.token_url;
  form =
      (bytes "grant_type", bytes "refresh_token")
      ∷ (bytes "refresh_token", creds.refresh_token)
      ∷ (client_field (bytes "client_id") client_id
          ++ client_field (bytes "client_secret") client_secret);
  headers =
      (bytes "Content-Type", bytes "application/x-www-form-urlencoded")
      ∷ (bytes "Accept", bytes "application/json")
      ∷ [];
}

module _ (web : Web) where
  -- `ip != nil && ip.IsLoopback()`
  unfoldable pub is_loopback : Str → Bool
  is_loopback host = elim (web.parse_ip host) [ none ↦ false | some loopback ↦ loopback ]

  unfoldable pub validate_parsed : Str → Url → Option TokenUrlError
  unfolding is_loopback
  validate_parsed raw u =
      if str_eq u.host []
      then some (no_host raw)
      else if str_eq u.scheme (bytes "https")
      then none
      else if str_eq u.scheme (bytes "http")
      then if str_eq u.hostname (bytes "localhost")
        then none
        else if is_loopback u.hostname
        then none
        else some (not_loopback raw)
      else some (bad_scheme u.scheme)

  unfoldable pub validate_token_url : Str → Option TokenUrlError
  unfolding validate_parsed
  validate_token_url raw = elim (web.parse_url raw) [
    | err e ↦ some (token_url_parse e)
    | ok u ↦ validate_parsed raw u
  ]

  unfoldable pub check_response : ℕ → Str → Outcome OauthError UpstreamTokens
  check_response status_code body = do
    guard (not (ltb max_upstream_body_bytes (length body)))
        (unavailable (bytes "upstream response too large"))
    guard (ltb status_code 500) (unavailable (bytes "upstream service error"))
    guard (ltb status_code 400)
        (err_oauth 400 (bytes "invalid_grant") (bytes "upstream rejected refresh"))
    check_tokens (web.read_tokens body)

  -- What is made of the upstream's response.
  unfoldable pub read_response : UpstreamResponse → Outcome OauthError UpstreamTokens
  read_response resp = elim (read_limited (max_upstream_body_bytes + 1) resp.body) [
    | err e ↦ err (unavailable (bytes "could not read upstream response"))
    | ok body ↦ check_response resp.status_code body
  ]

  unfoldable pub receive : Outcome Str UpstreamResponse → Outcome OauthError UpstreamTokens
  receive (err e) = err (unavailable (bytes "upstream unreachable"))
  receive (ok resp) = read_response resp

  -- The result, and the requests that were sent.
  abbrev pub Exchanged : Type 0
  Exchanged = Outcome OauthError UpstreamTokens × List UpstreamRequest

  unfoldable pub exchange : RefreshCreds → Str → Str → Exchanged
  exchange creds client_id client_secret = elim (validate_token_url creds.token_url) [
    | some e ↦ (err (err_oauth 400 (bytes "invalid_grant") (bytes "refresh token rejected")), [])
    | none ↦ elim (web.new_request_error creds.token_url) [
      | some e ↦ (
        err (err_oauth 500 (bytes "server_error") (bytes "could not build upstream request")),
        [],
      )
      | none ↦
          let req : UpstreamRequest = upstream_request creds client_id client_secret in
          (receive (web.do_request req), req ∷ [])
    ]
  ]
