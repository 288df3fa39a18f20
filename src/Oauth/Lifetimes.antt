-- ===== src/Oauth/Lifetimes.antt =====
-- How long the tokens that POST /token gives live (internal/server/oauth/oauth.go).
use bouncer.Base.{
  ℕ, suc, ◌+◌, ◌-◌, ◌*◌, ◌/◌, ◌^◌, ◌≤◌, ◌<◌, ◌≡◌, ◌≢◌, inl, inr, refl, sym, ap, ◌∙◌, subst, false,
  none, some, if◌then◌else◌, leb, arith, Str, ok, >>=-eq-ok, ok-injective, some-injective,
  Bool-cases, err-ne-ok, none-ne-some, Option-cases,
}
use bouncer.Base.Int.{
  ℤ, pos, negsuc, above, below, ◌+ℤ◌, ◌-ℤ◌, ◌≤ℤ◌, ◌<ℤ◌, +ℤ-parts, -ℤ-parts, le_int, scale, scale-le,
  sub_time, sub_time-le, scale-fits, scale-wraps, pos-minus,
}
use bouncer.Auth.Records.{
  AccessCreds, RefreshCreds, AccessToken, RefreshToken, access_leeway, jwt_leeway, second,
}
use bouncer.Auth.Library.{Library, Laws, Codec, CodecLaws, access_as_read}
use bouncer.Auth.Keys.{from_secret}
use bouncer.Auth.Issue.{issue_access_token}
use bouncer.Auth.Verify.{verify_access_token}
use bouncer.Auth.Sealed.{IsNonce}
use bouncer.Auth.RoundTrip.{verify_access_token-issued}
use bouncer.Auth.Refusals.{verify_access_token-expired}
use bouncer.Oauth.Records.{UpstreamTokens, TokenResponse}
use bouncer.Oauth.Response.{
  OauthHandler, Readings, Nonces, access_ttl, rotated_refresh_ttl, issue_access, rotate,
  issue_response,
}

-- What is left of a difference fits.
shrunk-le : (d k : ℤ) → k <ℤ d → (((d -ℤ k) +ℤ k) ≤ℤ d) × (pos 0 <ℤ (d -ℤ k))
shrunk-le d k h = omega (arith, +ℤ-parts (d -ℤ k) k, -ℤ-parts d k)

-- A lifetime is given only if it and the leeway fit in what the upstream gave; it is positive.
access_ttl-le :
    (n : ℕ) (ttl : ℤ)
    → access_ttl (pos n) ≡ some ttl
    → ((ttl +ℤ access_leeway) ≤ℤ pos (n * second)) × (pos 0 <ℤ ttl)
unfolding access_ttl
access_ttl-le n ttl h =
    let d = scale (pos n) second in
    elim (Bool-cases (le_int d access_leeway)) [
      | inl f ↦ absurd (none-ne-some (rw (f, access_ttl) at h))
      | inr f ↦
          let more : access_leeway <ℤ d = ground arith in
          let (fits, positive) = shrunk-le d access_leeway more in
          let fit : ((d -ℤ access_leeway) +ℤ access_leeway) ≤ℤ pos (n * second) =
            omega (arith, scale-le n second, fits) in
          subst (λ t. ((t +ℤ access_leeway) ≤ℤ pos (n * second)) × (pos 0 <ℤ t))
            (some-injective (rw (f, access_ttl) at h)) (fit, positive)
    ]

-- A rotated token ends no later than the token before it, from the reading of the clock on.
pub rotated_refresh_ttl-le :
    (exp configured now ttl : ℤ)
    → pos 0 ≤ℤ configured
    → rotated_refresh_ttl (some exp) configured now ≡ some ttl
    → (pos 0 <ℤ ttl) × ((now +ℤ ttl) ≤ℤ exp)
unfolding rotated_refresh_ttl
rotated_refresh_ttl-le exp configured now ttl c h =
    let remaining = sub_time exp now in
    let positive : pos 0 <ℤ remaining = ground arith in
    let within : ttl ≤ℤ remaining = ground arith in
    let more : pos 0 <ℤ ttl = ground arith in
    (more, omega (arith, +ℤ-parts now ttl, -ℤ-parts exp now, sub_time-le exp now))

-- The payload of the access token.
abbrev pub forwarded : RefreshToken → UpstreamTokens → AccessCreds
forwarded rt u = record { access_token = u.access_token; headers = rt.creds.headers }

leb-above : (d k : ℕ) → k < d → leb (d + 0) (k + 0) ≡ false
leb-above d k h = ground arith

access_ttl-of :
    (z : ℤ) (d : ℕ)
    → scale z second ≡ pos d
    → jwt_leeway < d
    → access_ttl z ≡ some (pos (d - jwt_leeway))
unfolding access_ttl
access_ttl-of z d e more =
    ap (λ x. if le_int x access_leeway then none else some (x -ℤ access_leeway)) e
    ∙ over
    ∙ ap some (pos-minus d jwt_leeway (omega arith))
  where
    over :
        (if le_int (pos d) access_leeway then none else some (pos d -ℤ access_leeway))
        ≡ some (pos d -ℤ access_leeway)
    over = rw (leb-above d jwt_leeway more) refl

-- A lifetime that fits is the upstream's without the leeway.
access_ttl-fits :
    (n : ℕ) → 30 < n → n * second < 2 ^ 63 → access_ttl (pos n) ≡ some (pos ((n - 30) * second))
access_ttl-fits n more fits =
    access_ttl-of (pos n) (n * second) (scale-fits n second fits) (omega arith)
    ∙ ap (λ d. some (pos d)) (omega arith)

module _ (l : Library) (laws : Laws l) (access_codec : Codec AccessCreds)
    (refresh_codec : Codec RefreshCreds) where
  -- The parts of a success.
  pub issue_response-inv :
      (h : OauthHandler) (rt : RefreshToken) (u : UpstreamTokens) (at : Readings) (nonces : Nonces)
      (resp : TokenResponse)
      → issue_response l access_codec refresh_codec h rt u at nonces ≡ ok resp
      → (ttl : ℤ) × (access_ttl u.expires_in ≡ some ttl)
        × (issue_access l access_codec refresh_codec h rt u ttl at nonces ≡ ok resp.access_token)
        × (rotate l access_codec refresh_codec h rt u at nonces ≡ ok resp.refresh_token)
        × (resp.expires_in ≡ pos (above ttl / second))
  unfolding issue_response
  issue_response-inv h rt u at nonces resp e = elim (Option-cases (access_ttl u.expires_in)) [
    | inl n ↦ absurd (err-ne-ok (rw (n, issue_response) at e))
    | inr (ttl, s) ↦
        let (access, a, r0) =
          >>=-eq-ok (issue_access l access_codec refresh_codec h rt u ttl at nonces) _
            (rw (s, issue_response) at e) in
        let (refresh, b, r1) =
          >>=-eq-ok (rotate l access_codec refresh_codec h rt u at nonces) _ r0 in
        let same = ok-injective r1 in
        (
          ttl,
          s,
          a ∙ ap (λ (x : TokenResponse). ok x.access_token) same,
          b ∙ ap (λ (x : TokenResponse). ok x.refresh_token) same,
          sym (ap (λ (x : TokenResponse). x.expires_in) same),
        )
  ]

  issue_access-inv :
      (h : OauthHandler) (rt : RefreshToken) (u : UpstreamTokens) (ttl : ℤ) (at : Readings)
      (nonces : Nonces) (token : Str)
      → issue_access l access_codec refresh_codec h rt u ttl at nonces ≡ ok token
      → issue_access_token l access_codec h.keys rt.subject
          (forwarded rt u)
          ttl
          rt.admin
          at.access_issued
          nonces.access
        ≡ ok token
  unfolding issue_access
  issue_access-inv h rt u ttl at nonces token e = ground arith

  -- If the upstream's `expires_in` is not negative, the access token of a success does not verify any
  -- more when so many seconds have passed since it was issued.
  pub issue_response-outlived :
      (h : OauthHandler) (rt : RefreshToken) (u : UpstreamTokens) (at : Readings) (nonces : Nonces)
      (resp : TokenResponse) (n : ℕ) (later : ℤ) (t : AccessToken)
      → issue_response l access_codec refresh_codec h rt u at nonces ≡ ok resp
      → u.expires_in ≡ pos n
      → (at.access_issued +ℤ pos (n * second)) ≤ℤ later
      → verify_access_token l access_codec h.keys resp.access_token later ≢ ok t
  issue_response-outlived h rt u at nonces resp n later t e s over =
      let (ttl, f, a, _, _) = issue_response-inv h rt u at nonces resp e in
      let (fits, _) = access_ttl-le n ttl (ap access_ttl (sym s) ∙ f) in
      verify_access_token-expired l laws access_codec h.keys rt.subject (forwarded rt u) ttl
        rt.admin at.access_issued later nonces.access resp.access_token t
        (issue_access-inv h rt u ttl at nonces resp.access_token a)
        (omega (
          arith,
          fits,
          over,
          +ℤ-parts at.access_issued (pos (n * second)),
          +ℤ-parts at.access_issued ttl,
          +ℤ-parts (at.access_issued +ℤ ttl) access_leeway,
          +ℤ-parts ttl access_leeway,
        ))

  -- If the upstream's `expires_in` is over 30 and its nanoseconds fit in 63 bits, the access token of a
  -- success carries the upstream's token with the headers of the refresh token, for its subject and
  -- with its admin flag, all strings as encoding/json reads what it writes: it verifies so from its
  -- issue until a second before `expires_in` has passed. The response's `expires_in` is 30 less than the upstream's.
  pub issue_response-usable :
      CodecLaws access_codec (access_as_read l)
      → (secret : Str) (h : OauthHandler) (rt : RefreshToken) (u : UpstreamTokens) (at : Readings)
        (nonces : Nonces) (resp : TokenResponse) (n : ℕ) (later : ℤ)
      → from_secret l secret ≡ ok h.keys
      → IsNonce l nonces.access
      → issue_response l access_codec refresh_codec h rt u at nonces ≡ ok resp
      → u.expires_in ≡ pos n
      → 30 < n
      → n * second < 2 ^ 63
      → at.access_issued ≤ℤ later
      → (later +ℤ pos second) ≤ℤ (at.access_issued +ℤ pos (n * second))
      → (verify_access_token l access_codec h.keys resp.access_token later
          ≡ ok (record {
            subject = l.to_text rt.subject;
            creds = access_as_read l (forwarded rt u);
            admin = rt.admin;
          }))
        × (resp.expires_in ≡ pos (n - 30))
  issue_response-usable codec secret h rt u at nonces resp n later k drawn e s more fits started
        alive =
      let (ttl, f, a, _, x) = issue_response-inv h rt u at nonces resp e in
      let same : ttl ≡ pos ((n - 30) * second) =
        some-injective (sym f ∙ ap access_ttl s ∙ access_ttl-fits n more fits) in
      let same_above : above ttl ≡ (n - 30) * second = ap above same in
      let same_below : below ttl ≡ 0 = ap below same in
      (
        verify_access_token-issued l laws access_codec codec secret h.keys rt.subject
            (forwarded rt u) ttl rt.admin at.access_issued later nonces.access resp.access_token k
            drawn (issue_access-inv h rt u ttl at nonces resp.access_token a) started
            (omega (
              arith,
              alive,
              same_above,
              same_below,
              +ℤ-parts later (pos second),
              +ℤ-parts at.access_issued (pos (n * second)),
              +ℤ-parts at.access_issued ttl,
              +ℤ-parts (at.access_issued +ℤ ttl) access_leeway,
            )),
        x ∙ ap pos (omega (arith, same_above)),
      )

-- An `expires_in` from -18446744043 to -9223372037 is taken for a positive one: the product with the
-- nanoseconds of a second wraps, and an access token is issued although the upstream's has expired.
pub access_ttl-wraps :
    (m : ℕ)
    → 9223372036 ≤ m
    → m < 18446744043
    → (ttl : ℤ) × (access_ttl (negsuc m) ≡ some ttl) × (pos 0 <ℤ ttl)
access_ttl-wraps m low high =
    let d = 2 ^ 64 - suc m * second in
    (
      pos (d - jwt_leeway),
      access_ttl-of (negsuc m) d (scale-wraps m second (omega arith) (omega arith)) (omega arith),
      omega arith,
    )
