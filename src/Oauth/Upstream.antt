-- ===== src/Oauth/Upstream.antt =====
-- What POST /token sends to the upstream, and what it tells of the answer
-- (internal/server/oauth/oauth.go).
use bouncer.Base.{
  ◌≡◌, ◌≢◌, ◌⊎◌, inl, inr, refl, sym, ap, ◌∙◌, true, false, not, none, some, List, [], ◌∷◌, arith,
  Str, bytes, ok, err, ◌>>=◌, guard, map_err, >>=-eq-ok, map_err-eq-ok, guard-eq-ok, not-eq-true,
  ok-injective, Option-cases, subst,
}
use bouncer.Auth.Records.{AccessCreds, RefreshCreds, RefreshToken}
use bouncer.Auth.Library.{Library, Codec}
use bouncer.Auth.Sealing.{AuthError}
use bouncer.Auth.Verify.{verify_refresh_token}
use bouncer.Oauth.Records.{OauthError, UpstreamRequest, Url, Form, Inbound, Web, form_get}
use bouncer.Oauth.Exchange.{validate_token_url, exchange, err_oauth, upstream_request, receive}
use bouncer.Oauth.Response.{OauthHandler, Readings, Nonces, issue_response}
use bouncer.Oauth.Handler.{is_exhausted, read_form, read_request, serve_http}

module _ (web : Web) where
  -- https to any host, or http to this machine
  abbrev pub MayReceive : Url → Type 0
  MayReceive u =
      (u.host ≢ [])
      × ((u.scheme ≡ bytes "https")
          ⊎ ((u.scheme ≡ bytes "http")
              × ((u.hostname ≡ bytes "localhost") ⊎ (web.parse_ip u.hostname ≡ some true))))

  -- The first request sent is the only one; it was made for the credentials, whose URL is allowed.
  pub exchange-sent :
      (creds : RefreshCreds) (client_id client_secret : Str) (req : UpstreamRequest)
      (more : List UpstreamRequest)
      → (exchange web creds client_id client_secret).1 ≡ req ∷ more
      → (more ≡ [])
        × (req ≡ upstream_request creds client_id client_secret)
        × (validate_token_url web creds.token_url ≡ none)
        × ((exchange web creds client_id client_secret).0 ≡ receive web (web.do_request req))
  unfolding exchange
  exchange-sent creds client_id client_secret req more h =
      elim (Option-cases (validate_token_url web creds.token_url)) [
        | inr (e, f) ↦ ground arith
        | inl v ↦ elim (Option-cases (web.new_request_error creds.token_url)) [
          | inr (e, f) ↦ ground arith
          | inl n ↦
              let same : req ≡ upstream_request creds client_id client_secret = ground arith in
              (
                ground arith,
                same,
                v,
                rw (v, n, exchange) (ap (λ x. receive web (web.do_request x)) (sym same)),
              )
        ]
      ]

module _ (l : Library) (access_codec : Codec AccessCreds) (refresh_codec : Codec RefreshCreds)
    (web : Web) where
  pub read_request-inv :
      (h : OauthHandler) (r : Inbound) (at : Readings) (form : Form) (rt : RefreshToken)
      → read_request l access_codec refresh_codec web h r at ≡ ok (form, rt)
      → (read_form l access_codec refresh_codec web r ≡ ok form)
        × (verify_refresh_token l refresh_codec h.keys
              (form_get form (bytes "refresh_token"))
              at.verified
            ≡ ok rt)
        × (is_exhausted rt.expires_at at.compared ≡ false)
  unfolding read_request
  read_request-inv h r at form rt e =
      let (f, g, r0) = >>=-eq-ok (read_form l access_codec refresh_codec web r) _ e in
      let (t, v, r1) =
        >>=-eq-ok
          (map_err
            (λ (_ : AuthError).
              err_oauth 400 (bytes "invalid_grant") (bytes "refresh token rejected"))
            (verify_refresh_token l refresh_codec h.keys (form_get f (bytes "refresh_token"))
              at.verified))
          _ r0 in
      let (u, x, r2) =
        >>=-eq-ok
          (guard (not (is_exhausted t.expires_at at.compared))
            (err_oauth 400 (bytes "invalid_grant") (bytes "refresh token expired")))
          _ r1 in
      let same_form : f ≡ form = ap (λ y. y.0) (ok-injective r2) in
      let same : t ≡ rt = ap (λ y. y.1) (ok-injective r2) in
      (
        g ∙ ap ok same_form,
        subst
            (λ y.
              verify_refresh_token l refresh_codec h.keys (form_get y (bytes "refresh_token"))
                at.verified
              ≡ ok rt)
            same_form (map_err-eq-ok _ _ v ∙ ap ok same),
        subst (λ (y : RefreshToken). is_exhausted y.expires_at at.compared ≡ false) same
            (not-eq-true (guard-eq-ok (not (is_exhausted t.expires_at at.compared)) _ x)),
      )

  pub read_request-verified :
      (h : OauthHandler) (r : Inbound) (at : Readings) (form : Form) (rt : RefreshToken)
      → read_form l access_codec refresh_codec web r ≡ ok form
      → verify_refresh_token l refresh_codec h.keys
          (form_get form (bytes "refresh_token"))
          at.verified
        ≡ ok rt
      → is_exhausted rt.expires_at at.compared ≡ false
      → read_request l access_codec refresh_codec web h r at ≡ ok (form, rt)
  unfolding read_request
  read_request-verified h r at form rt f v x = rw (f, v, x, read_request) refl

  pub serve_http-read :
      (h : OauthHandler) (r : Inbound) (at : Readings) (nonces : Nonces) (form : Form)
      (rt : RefreshToken)
      → read_request l access_codec refresh_codec web h r at ≡ ok (form, rt)
      → serve_http l access_codec refresh_codec web h r at nonces ≡ (
        (exchange web rt.creds
              (form_get form (bytes "client_id"))
              (form_get form (bytes "client_secret"))).0
            >>= (λ u. issue_response l access_codec refresh_codec h rt u at nonces),
        (exchange web rt.creds
            (form_get form (bytes "client_id"))
            (form_get form (bytes "client_secret"))).1,
      )
  unfolding serve_http exchange
  serve_http-read h r at nonces form rt e = rw (e, serve_http) refl

  pub serve_http-refused :
      (h : OauthHandler) (r : Inbound) (at : Readings) (nonces : Nonces) (e : OauthError)
      → read_request l access_codec refresh_codec web h r at ≡ err e
      → serve_http l access_codec refresh_codec web h r at nonces ≡ (err e, [])
  unfolding serve_http
  serve_http-refused h r at nonces e f = rw (f, serve_http) refl
