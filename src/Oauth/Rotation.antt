-- ===== src/Oauth/Rotation.antt =====
-- The refresh tokens that POST /token gives (internal/server/oauth/oauth.go): a chain of rotations
-- keeps the holder, the rights, the upstream and the end of its first token.
use bouncer.Base.{
  ◌≡◌, ◌≢◌, inl, inr, sym, ap, ◌∙◌, some, [], arith, Str, ok, Bool-cases, Option-cases,
  ok-injective,
}
use bouncer.Base.Int.{ℤ, pos, ◌+ℤ◌, ◌-ℤ◌, ◌≤ℤ◌, +ℤ-parts, -ℤ-parts}
use bouncer.Auth.Records.{AccessCreds, RefreshCreds, RefreshToken}
use bouncer.Auth.Library.{Library, Laws, Codec, CodecLaws, refresh_as_read}
use bouncer.Auth.Issue.{issue_refresh_token}
use bouncer.Auth.Verify.{verify_refresh_token}
use bouncer.Auth.Sealed.{IsNonce}
use bouncer.Auth.RoundTrip.{refresh_expiry}
use bouncer.Auth.Issued.{verify_refresh_token-inv}
use bouncer.Oauth.Records.{UpstreamTokens, TokenResponse}
use bouncer.Oauth.Response.{
  OauthHandler, Readings, Nonces, rotated_refresh_ttl, rotate, issue_response, is_rotated,
}
use bouncer.Oauth.Lifetimes.{rotated_refresh_ttl-le, issue_response-inv}

-- The payload of a rotated token.
abbrev pub renewed : RefreshToken → UpstreamTokens → RefreshCreds
renewed rt u = record {
  refresh_token = u.refresh_token;
  token_url = rt.creds.token_url;
  headers = rt.creds.headers;
}

module _ (l : Library) (laws : Laws l) (access_codec : Codec AccessCreds)
    (refresh_codec : Codec RefreshCreds) (codec : CodecLaws refresh_codec (refresh_as_read l)) where
  rotate-inv :
      (h : OauthHandler) (rt : RefreshToken) (u : UpstreamTokens) (at : Readings) (nonces : Nonces)
      (token : Str)
      → token ≢ []
      → rotate l access_codec refresh_codec h rt u at nonces ≡ ok token
      → (ttl : ℤ) × (rotated_refresh_ttl rt.expires_at h.refresh_ttl at.rotated ≡ some ttl)
        × (issue_refresh_token l refresh_codec h.keys rt.subject
              (renewed rt u)
              ttl
              rt.admin
              at.refresh_issued
              nonces.refresh
            ≡ ok token)
  unfolding rotate
  rotate-inv h rt u at nonces token n e = elim (Bool-cases (is_rotated rt u)) [
    | inr f ↦ absurd (n (sym (ok-injective (rw (f, rotate) at e))))
    | inl f ↦ elim (Option-cases (rotated_refresh_ttl rt.expires_at h.refresh_ttl at.rotated)) [
      | inl g ↦ absurd (n (sym (ok-injective (rw (f, g, rotate) at e))))
      | inr (ttl, g) ↦ (ttl, g, ground arith)
    ]
  ]

  -- The date of a rotated token.
  renewed-expiry :
      (exp configured rotated issued ttl : ℤ)
      → pos 0 ≤ℤ configured
      → rotated_refresh_ttl (some exp) configured rotated ≡ some ttl
      → (exp' : ℤ) × (refresh_expiry l ttl issued ≡ some exp')
        × (exp' ≤ℤ (exp +ℤ (issued -ℤ rotated)))
  renewed-expiry exp configured rotated issued ttl c h =
      let (positive, within) = rotated_refresh_ttl-le exp configured rotated ttl c h in
      (
        l.numeric_date (issued +ℤ ttl),
        ground arith,
        omega (
          arith,
          within,
          laws.numeric_date-le (issued +ℤ ttl),
          +ℤ-parts issued ttl,
          +ℤ-parts rotated ttl,
          -ℤ-parts issued rotated,
          +ℤ-parts exp (issued -ℤ rotated),
        ),
      )

  -- If a refresh token with an expiry is rotated, under a configured lifetime that is not negative,
  -- then what verifies of the new token has the subject, the admin flag, the token URL and the headers
  -- of the old one and the upstream's new refresh token, all strings as encoding/json reads what it
  -- writes, and an expiry no later than the old one's by more than the time between the two
  -- readings of the clock, for the lifetime and for the issue.
  pub issue_response-rotated :
      (h : OauthHandler) (rt : RefreshToken) (u : UpstreamTokens) (at : Readings) (nonces : Nonces)
      (resp : TokenResponse) (exp later : ℤ) (new : RefreshToken)
      → issue_response l access_codec refresh_codec h rt u at nonces ≡ ok resp
      → resp.refresh_token ≢ []
      → rt.expires_at ≡ some exp
      → pos 0 ≤ℤ h.refresh_ttl
      → IsNonce l nonces.refresh
      → verify_refresh_token l refresh_codec h.keys resp.refresh_token later ≡ ok new
      → (new.subject ≡ l.to_text rt.subject)
        × (new.admin ≡ rt.admin)
        × (new.creds ≡ refresh_as_read l (renewed rt u))
        × ((exp' : ℤ) × (new.expires_at ≡ some exp')
            × (exp' ≤ℤ (exp +ℤ (at.refresh_issued -ℤ at.rotated))))
  issue_response-rotated h rt u at nonces resp exp later new e n x c drawn v =
      let (_, _, _, b, _) =
        issue_response-inv l laws access_codec refresh_codec h rt u at nonces resp e in
      let (ttl, r, i) = rotate-inv h rt u at nonces resp.refresh_token n b in
      let same =
        verify_refresh_token-inv l laws refresh_codec codec h.keys rt.subject (renewed rt u) ttl
          rt.admin at.refresh_issued later nonces.refresh resp.refresh_token new drawn i v in
      let (exp', d, within) =
        renewed-expiry exp h.refresh_ttl at.rotated at.refresh_issued ttl c
          (ap (λ o. rotated_refresh_ttl o h.refresh_ttl at.rotated) (sym x) ∙ r) in
      (
        ap (λ (t : RefreshToken). t.subject) same,
        ap (λ (t : RefreshToken). t.admin) same,
        ap (λ (t : RefreshToken). t.creds) same,
        (exp', ap (λ (t : RefreshToken). t.expires_at) same ∙ d, within),
      )
