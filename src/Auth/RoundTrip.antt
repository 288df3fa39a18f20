-- ===== src/Auth/RoundTrip.antt =====
-- What is issued verifies (internal/auth/auth.go), for as long as it was issued and no longer.
use bouncer.Base.{
  ◌≡◌, ◌≢◌, refl, sym, ap, ◌∙◌, Bool, true, false, true-ne-false, Option, none, some, [], arith,
  Str, str_eq, str_eq_iff, Outcome, ok, Bool-cases, inl, inr, ◌⊎◌, if◌then◌else◌,
}
use bouncer.Base.Int.{ℤ, pos, ◌+ℤ◌, ◌≤ℤ◌, ◌<ℤ◌, +ℤ-parts, -ℤ-parts, lt_int}
use bouncer.Auth.Records.{
  ServerKeys, AccessCreds, RefreshCreds, RefreshToken, JwtClaims, jwt_issuer, jwt_audience,
  access_leeway, typ_access, typ_refresh, second,
}
use bouncer.Auth.Library.{
  Library, Laws, Codec, CodecLaws, Admits, IsUnexpired, registered_as_read, access_as_read,
  refresh_as_read,
}
use bouncer.Auth.Keys.{from_secret}
use bouncer.Auth.Sealing.{AuthError}
use bouncer.Auth.Issue.{claims_for, issue_access_token, issue_refresh_token}
use bouncer.Auth.Verify.{parser_options, verify_access_token, verify_refresh_token, token_expiry}
use bouncer.Auth.Sealed.{IsNonce, from_secret-AreKeys, sign_encrypted-inv, verify-sign}

-- The `exp` of a refresh token is there exactly if its lifetime is positive.
abbrev pub refresh_ttl : ℤ → Option ℤ
refresh_ttl ttl = if lt_int (pos 0) ttl then some ttl else none

abbrev pub refresh_expiry : Library → ℤ → ℤ → Option ℤ
refresh_expiry l ttl now = if lt_int (pos 0) ttl then some (l.numeric_date (now +ℤ ttl)) else none

module _ (l : Library) (laws : Laws l) where
  -- The registered claims of a token are admitted when it has begun and is not expired.
  claims_for-Admits :
      (subject typ blob : Str) (ttl : Option ℤ) (admin : Bool) (now later : ℤ) (required : Bool)
      → now ≤ℤ later
      → IsUnexpired
          (parser_options required)
          (claims_for l subject typ blob ttl admin now).registered.expires_at
          later
      → Admits
          (parser_options required)
          (registered_as_read l (claims_for l subject typ blob ttl admin now).registered)
          later
  unfolding claims_for parser_options str_eq
  claims_for-Admits subject typ blob ttl admin now later required started unexpired = record {
    unexpired = unexpired;
    begun = omega (arith, laws.numeric_date-le now, -ℤ-parts (l.numeric_date now) access_leeway);
    issuer = laws.to_text-ascii jwt_issuer (omega arith);
    audience = rw (laws.to_text-ascii jwt_audience (omega arith)) refl;
  }

  -- A lifetime's end lies less than a second before the time that the token carries.
  date-later :
      (ttl now later : ℤ)
      → (later +ℤ pos second) ≤ℤ ((now +ℤ ttl) +ℤ access_leeway)
      → later <ℤ (l.numeric_date (now +ℤ ttl) +ℤ access_leeway)
  date-later ttl now later alive = omega (
    arith,
    laws.numeric_date-lt (now +ℤ ttl),
    +ℤ-parts later (pos second),
    +ℤ-parts (l.numeric_date (now +ℤ ttl)) (pos second),
    +ℤ-parts (now +ℤ ttl) access_leeway,
    +ℤ-parts (l.numeric_date (now +ℤ ttl)) access_leeway,
  )

  -- An access token that was issued reads back, at any time from then on until a second less than its
  -- lifetime and the leeway later: with its admin flag, and with its subject and credentials as
  -- encoding/json reads what it writes.
  pub verify_access_token-issued :
      (c : Codec AccessCreds)
      → CodecLaws c (access_as_read l)
      → (secret : Str) (keys : ServerKeys) (subject : Str) (creds : AccessCreds) (ttl : ℤ)
        (admin : Bool) (now later : ℤ) (nonce : Outcome Str Str) (token : Str)
      → from_secret l secret ≡ ok keys
      → IsNonce l nonce
      → issue_access_token l c keys subject creds ttl admin now nonce ≡ ok token
      → now ≤ℤ later
      → (later +ℤ pos second) ≤ℤ ((now +ℤ ttl) +ℤ access_leeway)
      → verify_access_token l c keys token later
        ≡ ok (record { subject = l.to_text subject; creds = access_as_read l creds; admin = admin })
  unfolding verify_access_token issue_access_token
  verify_access_token-issued c codec secret keys subject creds ttl admin now later nonce token k
        drawn h started alive =
      rw
        (verify-sign l laws c (access_as_read l) codec keys subject typ_access keys.encrypt_access
          creds (some ttl) admin now later nonce token true
          (from_secret-AreKeys l laws secret keys k) drawn
          (laws.to_text-ascii typ_access (omega arith)) h
          (λ blob.
            claims_for-Admits subject typ_access blob (some ttl) admin now later true started
              (unfold claims_for parser_options in date-later ttl now later alive)))
        refl

  refresh-IsUnexpired :
      (subject blob : Str) (ttl : ℤ) (admin : Bool) (now later : ℤ)
      → (ttl ≤ℤ pos 0) ⊎ ((later +ℤ pos second) ≤ℤ ((now +ℤ ttl) +ℤ access_leeway))
      → IsUnexpired
          (parser_options false)
          (claims_for l subject typ_refresh blob (refresh_ttl ttl) admin now).registered.expires_at
          later
  unfolding claims_for parser_options
  refresh-IsUnexpired subject blob ttl admin now later alive =
      elim (Bool-cases (lt_int (pos 0) ttl)) [
        | inl h ↦ rw h (ground (arith, date-later ttl now later))
        | inr h ↦ rw h (λ e. true-ne-false (sym e))
      ]

  pub token_expiry-sign :
      (key : Str) (claims : JwtClaims) (token : Str)
      → l.sign key claims ≡ ok token
      → token_expiry l token ≡ claims.registered.expires_at
  unfolding token_expiry
  token_expiry-sign key claims token s =
      rw (token_expiry, laws.parse_unverified-sign key claims token s) refl

  pub expires_at-refresh :
      (subject blob : Str) (ttl : ℤ) (admin : Bool) (now : ℤ)
      → (claims_for l subject typ_refresh blob (refresh_ttl ttl) admin now).registered.expires_at
        ≡ refresh_expiry l ttl now
  unfolding claims_for
  expires_at-refresh subject blob ttl admin now = elim (Bool-cases (lt_int (pos 0) ttl)) [
    | inl h ↦ rw h refl
    | inr h ↦ rw h refl
  ]

  str_eq-empty : (s : Str) → s ≢ [] → str_eq s [] ≡ false
  str_eq-empty s h = ground (arith, str_eq_iff s [])

  -- A refresh token for a token URL that is not empty reads back, with its admin flag, its subject and
  -- credentials as encoding/json reads what it writes, and its creation's date of expiry:
  -- at any time from then on if its lifetime is not positive, and else until a second less than its
  -- lifetime and the leeway later.
  pub verify_refresh_token-issued :
      (c : Codec RefreshCreds)
      → CodecLaws c (refresh_as_read l)
      → (secret : Str) (keys : ServerKeys) (subject : Str) (creds : RefreshCreds) (ttl : ℤ)
        (admin : Bool) (now later : ℤ) (nonce : Outcome Str Str) (token : Str)
      → from_secret l secret ≡ ok keys
      → IsNonce l nonce
      → creds.token_url ≢ []
      → issue_refresh_token l c keys subject creds ttl admin now nonce ≡ ok token
      → now ≤ℤ later
      → (ttl ≤ℤ pos 0) ⊎ ((later +ℤ pos second) ≤ℤ ((now +ℤ ttl) +ℤ access_leeway))
      → verify_refresh_token l c keys token later
        ≡ ok (record {
          subject = l.to_text subject;
          creds = refresh_as_read l creds;
          admin = admin;
          expires_at = refresh_expiry l ttl now;
        })
  unfolding verify_refresh_token issue_refresh_token
  verify_refresh_token-issued c codec secret keys subject creds ttl admin now later nonce token k
        drawn url h started alive =
      let (blob, e, s) =
        sign_encrypted-inv l laws c keys subject typ_refresh keys.encrypt_refresh creds
          (refresh_ttl ttl) admin now nonce token h in
      let read =
        verify-sign l laws c (refresh_as_read l) codec keys subject typ_refresh keys.encrypt_refresh
          creds (refresh_ttl ttl) admin now later nonce token false
          (from_secret-AreKeys l laws secret keys k) drawn
          (laws.to_text-ascii typ_refresh (omega arith)) h
          (λ blob.
            claims_for-Admits subject typ_refresh blob (refresh_ttl ttl) admin now later false
              started (refresh-IsUnexpired subject blob ttl admin now later alive)) in
      let wrap : Option ℤ → Outcome AuthError RefreshToken = λ e. ok (record {
        subject = l.to_text subject;
        creds = refresh_as_read l creds;
        admin = admin;
        expires_at = e;
      }) in
      rw
        (read, str_eq-empty (l.to_text creds.token_url) (laws.to_text-ne-empty creds.token_url url))
        (ap wrap (
          token_expiry-sign keys.signing _ token s ∙ expires_at-refresh subject blob ttl admin now))
