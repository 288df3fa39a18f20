-- ===== src/Oauth/Errors.antt =====
-- What POST /token tells of the upstream's answer (internal/server/oauth/oauth.go).
use bouncer.Base.{
  ℕ, ◌+◌, ◌≡◌, ◌⊎◌, inl, inr, refl, sym, ap, ◌∙◌, Bool, true, false, not, List, [], ◌∷◌, ◌++◌, ltb,
  length, arith, Among, Among-append_left, Among-append_right, Str, bytes, str_eq, Outcome, ok, err,
  ◌>>=◌, ◌>>◌, guard, Option-cases, Outcome-cases,
}
use bouncer.Base.Int.{ℤ}
use bouncer.Auth.Records.{AccessCreds, RefreshCreds, RefreshToken}
use bouncer.Auth.Library.{Library, Codec}
use bouncer.Oauth.Records.{
  OauthError, UpstreamTokens, UpstreamRequest, UpstreamResponse, Inbound, Web, form_get,
  max_upstream_body_bytes,
}
use bouncer.Oauth.Exchange.{
  exchange, read_response, read_limited, err_oauth, check_tokens, check_response, receive,
}
use bouncer.Oauth.Response.{
  OauthHandler, Readings, Nonces, issue_response, issue_access, rotate, access_ttl,
}
use bouncer.Oauth.Upstream.{serve_http-read, serve_http-refused, exchange-sent}
use bouncer.Oauth.Handler.{read_request, serve_http}

-- Of a check and what follows it, one gives the error.
guard-eq-err {ℓ κ} :
    {E : Type ℓ} {A : Type κ} (b : Bool) (x : E) (m : Outcome E A) {e : E}
    → (guard b x >> m) ≡ err e
    → (x ≡ e) ⊎ (m ≡ err e)
guard-eq-err true x m h = inr h
guard-eq-err false x m h = inl (cc)

err-injective {ℓ κ} :
    {E : Type ℓ} {A : Type κ} {x y : E} → ◌≡◌ {A = Outcome E A} (err x) (err y) → x ≡ y
err-injective h = cc

-- The answers that tell of the upstream: each has a fixed text.
abbrev pub upstream_errors : List OauthError
upstream_errors =
    err_oauth 503 (bytes "temporarily_unavailable") (bytes "upstream unreachable")
    ∷ err_oauth 503 (bytes "temporarily_unavailable") (bytes "could not read upstream response")
    ∷ err_oauth 503 (bytes "temporarily_unavailable") (bytes "upstream response too large")
    ∷ err_oauth 503 (bytes "temporarily_unavailable") (bytes "upstream service error")
    ∷ err_oauth 400 (bytes "invalid_grant") (bytes "upstream rejected refresh")
    ∷ err_oauth 502 (bytes "server_error") (bytes "could not parse upstream response")
    ∷ err_oauth 502 (bytes "server_error") (bytes "upstream returned no access_token")
    ∷ []

-- The answers of a failure after the exchange.
abbrev pub response_errors : List OauthError
response_errors =
    err_oauth 503 (bytes "temporarily_unavailable")
      (bytes "upstream access TTL too short to issue a safe access token")
    ∷ err_oauth 500 (bytes "server_error") (bytes "could not issue access token")
    ∷ err_oauth 500 (bytes "server_error") (bytes "could not issue refresh token")
    ∷ []

module _ (web : Web) where
  read_tokens-errors :
      (o : Outcome Str UpstreamTokens) (e : OauthError)
      → check_tokens o ≡ err e
      → Among e upstream_errors
  unfolding check_tokens
  read_tokens-errors (err x) e h = inr (inr (inr (inr (inr (inl (err-injective h))))))
  read_tokens-errors (ok u) e h = elim (guard-eq-err (not (str_eq u.access_token [])) _ (ok u) h) [
    | inl f ↦ inr (inr (inr (inr (inr (inr (inl f))))))
    | inr f ↦ cc
  ]

  check_response-errors :
      (status : ℕ) (body : Str) (e : OauthError)
      → check_response web status body ≡ err e
      → Among e upstream_errors
  unfolding check_response
  check_response-errors status body e h =
      elim (guard-eq-err (not (ltb max_upstream_body_bytes (length body))) _ _ h) [
        | inl x ↦ inr (inr (inl x))
        | inr r0 ↦ elim (guard-eq-err (ltb status 500) _ _ r0) [
          | inl x ↦ inr (inr (inr (inl x)))
          | inr r1 ↦ elim (guard-eq-err (ltb status 400) _ _ r1) [
            | inl x ↦ inr (inr (inr (inr (inl x))))
            | inr r2 ↦ read_tokens-errors (web.read_tokens body) e r2
          ]
        ]
      ]

  read_response-errors :
      (resp : UpstreamResponse) (e : OauthError)
      → read_response web resp ≡ err e
      → Among e upstream_errors
  unfolding read_response
  read_response-errors resp e h =
      elim (Outcome-cases (read_limited (max_upstream_body_bytes + 1) resp.body)) [
        | inr (x, f) ↦ inr (inl (err-injective (rw (f, read_response) at h)))
        | inl (body, f) ↦ check_response-errors resp.status_code body e (rw (f, read_response) at h)
      ]

  receive-errors :
      (answer : Outcome Str UpstreamResponse) (e : OauthError)
      → receive web answer ≡ err e
      → Among e upstream_errors
  unfolding receive
  receive-errors (err x) e h = inl (err-injective h)
  receive-errors (ok resp) e h = read_response-errors resp e h

module _ (l : Library) (access_codec : Codec AccessCreds) (refresh_codec : Codec RefreshCreds)
    (web : Web) where
  issue_access-errors :
      (h : OauthHandler) (rt : RefreshToken) (u : UpstreamTokens) (ttl : ℤ) (at : Readings)
      (nonces : Nonces) (e : OauthError)
      → issue_access l access_codec refresh_codec h rt u ttl at nonces ≡ err e
      → err_oauth 500 (bytes "server_error") (bytes "could not issue access token") ≡ e
  unfolding issue_access
  issue_access-errors h rt u ttl at nonces e f = ground arith

  rotate-errors :
      (h : OauthHandler) (rt : RefreshToken) (u : UpstreamTokens) (at : Readings) (nonces : Nonces)
      (e : OauthError)
      → rotate l access_codec refresh_codec h rt u at nonces ≡ err e
      → err_oauth 500 (bytes "server_error") (bytes "could not issue refresh token") ≡ e
  unfolding rotate
  rotate-errors h rt u at nonces e f = ground arith

  bind-eq-err {ℓ κ μ} :
      {E : Type ℓ} {A : Type κ} {B : Type μ} (m : Outcome E A) (f : A → Outcome E B) {e : E}
      → (m >>= f) ≡ err e
      → (m ≡ err e) ⊎ ((a : A) × (m ≡ ok a) × (f a ≡ err e))
  bind-eq-err (ok a) f h = inr (a, refl, h)
  bind-eq-err (err x) f h = inl (cc)

  issue_response-errors :
      (h : OauthHandler) (rt : RefreshToken) (u : UpstreamTokens) (at : Readings) (nonces : Nonces)
      (e : OauthError)
      → issue_response l access_codec refresh_codec h rt u at nonces ≡ err e
      → Among e response_errors
  unfolding issue_response
  issue_response-errors h rt u at nonces e f = elim (Option-cases (access_ttl u.expires_in)) [
    | inl n ↦ inl (err-injective (rw (n, issue_response) at f))
    | inr (ttl, s) ↦
        elim (bind-eq-err (issue_access l access_codec refresh_codec h rt u ttl at nonces) _
          (rw (s, issue_response) at f)) [
            | inl x ↦ inr (inl (issue_access-errors h rt u ttl at nonces e x))
            | inr (access, _, r) ↦
                elim (bind-eq-err (rotate l access_codec refresh_codec h rt u at nonces) _ r) [
                  | inl x ↦ inr (inr (inl (rotate-errors h rt u at nonces e x)))
                  | inr (_, _, x) ↦ cc
                ]
          ]
  ]

  -- Once the handler has sent a request to the upstream, a failure is answered by one of ten fixed
  -- errors: nothing of the upstream's answer stands in it, nor of the tokens.
  pub serve_http-errors :
      (h : OauthHandler) (r : Inbound) (at : Readings) (nonces : Nonces) (req : UpstreamRequest)
      (more : List UpstreamRequest) (e : OauthError)
      → (serve_http l access_codec refresh_codec web h r at nonces).1 ≡ req ∷ more
      → (serve_http l access_codec refresh_codec web h r at nonces).0 ≡ err e
      → Among e (upstream_errors ++ response_errors)
  serve_http-errors h r at nonces req more e s f =
      elim (Outcome-cases (read_request l access_codec refresh_codec web h r at)) [
        | inr (x, p) ↦
            absurd (
              ground (arith, serve_http-refused l access_codec refresh_codec web h r at nonces x p))
        | inl ((form, rt), p) ↦
            let step = serve_http-read l access_codec refresh_codec web h r at nonces form rt p in
            let (_, _, _, answer) =
              exchange-sent web rt.creds (form_get form (bytes "client_id"))
                (form_get form (bytes "client_secret")) req more (sym (ap (λ y. y.1) step) ∙ s) in
            elim (bind-eq-err
              (exchange web rt.creds (form_get form (bytes "client_id"))
                (form_get form (bytes "client_secret"))).0
              _ (sym (ap (λ y. y.0) step) ∙ f)) [
                | inl x ↦
                    Among-append_left e upstream_errors response_errors
                      (receive-errors web (web.do_request req) e (sym answer ∙ x))
                | inr (u, _, x) ↦
                    Among-append_right e upstream_errors response_errors
                      (issue_response-errors h rt u at nonces e x)
              ]
      ]
