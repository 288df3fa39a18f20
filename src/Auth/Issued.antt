-- ===== src/Auth/Issued.antt =====
-- What verifies of an issued refresh token (internal/auth/auth.go).
use bouncer.Base.{
  ◌≡◌, arith, ap, sym, ◌∙◌, Bool, false, Option, [], ok, Outcome, Str, str_eq, not, guard,
  >>=-eq-ok, ok-injective,
}
use bouncer.Base.Int.{ℤ}
use bouncer.Auth.Records.{ServerKeys, RefreshCreds, RefreshToken, typ_refresh}
use bouncer.Z85.{encode}
use bouncer.Auth.Library.{Library, Laws, Codec, CodecLaws, refresh_as_read}
use bouncer.Auth.Sealing.{missing_token_url}
use bouncer.Auth.Issue.{claims_for, issue_refresh_token}
use bouncer.Auth.Verify.{verify_and_decrypt, verify_refresh_token, read_payload}
use bouncer.Auth.Sealed.{IsNonce, sign_encrypted-inv, read_payload-sealed, to_text-encode}
use bouncer.Auth.RoundTrip.{refresh_ttl, refresh_expiry, token_expiry-sign, expires_at-refresh}
use bouncer.Auth.Refusals.{verify-Admits}

module _ (l : Library) (laws : Laws l) (c : Codec RefreshCreds)
    (codec : CodecLaws c (refresh_as_read l)) where
  -- A refresh token that verifies, at whatever time, is as it was issued, its strings as JSON reads them.
  pub verify_refresh_token-inv :
      (keys : ServerKeys) (subject : Str) (creds : RefreshCreds) (ttl : ℤ) (admin : Bool)
      (now later : ℤ) (nonce : Outcome Str Str) (token : Str) (rt : RefreshToken)
      → IsNonce l nonce
      → issue_refresh_token l c keys subject creds ttl admin now nonce ≡ ok token
      → verify_refresh_token l c keys token later ≡ ok rt
      → rt ≡ record {
        subject = l.to_text subject;
        creds = refresh_as_read l creds;
        admin = admin;
        expires_at = refresh_expiry l ttl now;
      }
  unfolding verify_refresh_token issue_refresh_token claims_for
  verify_refresh_token-inv keys subject creds ttl admin now later nonce token rt drawn h v =
      let (blob, e, s) =
        sign_encrypted-inv l laws c keys subject typ_refresh keys.encrypt_refresh creds
          (refresh_ttl ttl) admin now nonce token h in
      let (w, b, r0) =
        >>=-eq-ok (verify_and_decrypt l c keys token typ_refresh keys.encrypt_refresh false later) _
          v in
      let (_, x, sub, adm) =
        verify-Admits l laws c keys keys.signing token typ_refresh keys.encrypt_refresh false later
          (claims_for l subject typ_refresh blob (refresh_ttl ttl) admin now) w s b in
      let payload = ok-injective (
        sym x
        ∙ ap (λ t. read_payload l c typ_refresh keys.encrypt_refresh t (l.to_text (encode blob)))
            (laws.to_text-ascii typ_refresh (omega arith))
        ∙ ap (read_payload l c typ_refresh keys.encrypt_refresh typ_refresh)
            (to_text-encode l laws blob)
        ∙ read_payload-sealed l laws c (refresh_as_read l) codec keys.encrypt_refresh typ_refresh
            nonce creds blob drawn e) in
      let expiry =
        token_expiry-sign l laws keys.signing _ token s
        ∙ expires_at-refresh l laws subject blob ttl admin now in
      let (_, _, r1) = >>=-eq-ok (guard (not (str_eq w.2.token_url [])) missing_token_url) _ r0 in
      let make : Str → RefreshCreds → Bool → Option ℤ → RefreshToken =
        λ s c a d. record { subject = s; creds = c; admin = a; expires_at = d } in
      sym (ok-injective r1) ∙ (λ i. make (sub i) (payload i) (adm i) (expiry i))
