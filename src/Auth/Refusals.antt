-- ===== src/Auth/Refusals.antt =====
-- What is refused (internal/auth/auth.go): tokens that have expired, of the other kind, with a payload
-- of the other kind, or signed by another method.
use bouncer.Base.{
  length, ◌≡◌, ◌≢◌, sym, ap, ◌∙◌, subst, Bool, true, false, some, [], arith, Str, str_eq,
  str_eq_iff, Outcome, ok, >>=-eq-ok, map_err-eq-ok, ok-injective, ◌>>=◌, map_err, guard, not,
  guard-eq-ok, err-ne-ok,
}
use bouncer.Base.Int.{ℤ, ◌+ℤ◌, ◌≤ℤ◌, +ℤ-parts}
use bouncer.Auth.Records.{
  ServerKeys, AccessCreds, RefreshCreds, AccessToken, RefreshToken, JwtClaims, access_leeway,
  typ_access, typ_refresh,
}
use bouncer.Auth.Library.{
  Library, Laws, Codec, CodecLaws, Admits, other_method, registered_as_read, access_as_read,
}
use bouncer.Z85.{encode, decode}
use bouncer.Z85.RoundTrip.{decode-encode}
use bouncer.Auth.Keys.{from_secret}
use bouncer.Auth.Sealing.{
  decode_enc, missing_enc, aead_decrypt, unmarshal_creds, parse_jwt, token_invalid, wrong_typ,
  encrypt_creds, decrypt_creds,
}
use bouncer.Auth.Issue.{claims_for, issue_access_token}
use bouncer.Auth.Verify.{
  parser_options, key_for, read_payload, verify_and_decrypt, verify_access_token,
  verify_refresh_token,
}
use bouncer.Auth.Sealed.{
  IsNonce, from_secret-AreKeys, sign_encrypted-inv, encrypt_creds-inv, decrypt-sealed,
  decrypt_creds-encrypt_creds, to_text-encode,
}

module _ (l : Library) (laws : Laws l) where
  -- What verifies was admitted by golang-jwt, with the claims it was signed with,
  -- as JSON reads them.
  pub verify-Admits :
      {A : Type 0} (c : Codec A) (keys : ServerKeys) (signer token want key : Str) (required : Bool)
      (later : ℤ) (claims : JwtClaims) (v : Str × Bool × A)
      → l.sign signer claims ≡ ok token
      → verify_and_decrypt l c keys token want key required later ≡ ok v
      → Admits (parser_options required) (registered_as_read l claims.registered) later
        × (read_payload l c want key (l.to_text claims.typ) (l.to_text claims.enc) ≡ ok v.2)
        × (v.0 ≡ l.to_text claims.registered.subject)
        × (v.1 ≡ claims.admin)
  unfolding verify_and_decrypt
  verify-Admits c keys signer token want key required later claims v s h =
      let (parsed, p, r0) =
        >>=-eq-ok (map_err parse_jwt (l.parse (parser_options required) (key_for keys) later token))
          _ h in
      let (u, g, r1) = >>=-eq-ok (guard parsed.valid token_invalid) _ r0 in
      let (creds, q, r2) =
        >>=-eq-ok (read_payload l c want key parsed.claims.typ parsed.claims.enc) _ r1 in
      let (same, admitted) =
        laws.parse-inv (parser_options required) (key_for keys) signer claims token later parsed s
          (map_err-eq-ok parse_jwt _ p) in
      (
        admitted,
        subst (λ (x : JwtClaims). read_payload l c want key x.typ x.enc ≡ ok v.2) same
            (q ∙ ap (λ v. ok v.2) (ok-injective r2)),
        sym (ap (λ v. v.0) (ok-injective r2)) ∙ ap (λ (x : JwtClaims). x.registered.subject) same,
        sym (ap (λ v. v.1) (ok-injective r2)) ∙ ap (λ (x : JwtClaims). x.admin) same,
      )

  -- An access token does not verify any more when its lifetime and the leeway have passed.
  pub verify_access_token-expired :
      (c : Codec AccessCreds) (keys : ServerKeys) (subject : Str) (creds : AccessCreds) (ttl : ℤ)
      (admin : Bool) (now later : ℤ) (nonce : Outcome Str Str) (token : Str) (t : AccessToken)
      → issue_access_token l c keys subject creds ttl admin now nonce ≡ ok token
      → ((now +ℤ ttl) +ℤ access_leeway) ≤ℤ later
      → verify_access_token l c keys token later ≢ ok t
  unfolding verify_access_token issue_access_token claims_for parser_options
  verify_access_token-expired c keys subject creds ttl admin now later nonce token t h over v =
      let (blob, e, s) =
        sign_encrypted-inv l laws c keys subject typ_access keys.encrypt_access creds (some ttl)
          admin now nonce token h in
      let (parts, r, _) =
        >>=-eq-ok (verify_and_decrypt l c keys token typ_access keys.encrypt_access true later) _
          v in
      let (admitted, _, _, _) =
        verify-Admits c keys keys.signing token typ_access keys.encrypt_access true later
          (claims_for l subject typ_access blob (some ttl) admin now) parts s r in
      absurd (
        omega (
          arith,
          admitted.unexpired,
          laws.numeric_date-le (now +ℤ ttl),
          +ℤ-parts (now +ℤ ttl) access_leeway,
          +ℤ-parts (l.numeric_date (now +ℤ ttl)) access_leeway,
        ))

  -- A payload is read only in claims of the type that is wanted.
  read_payload-typ :
      {A : Type 0} (c : Codec A) (want key typ enc : Str) (a : A)
      → read_payload l c want key typ enc ≡ ok a
      → typ ≡ want
  unfolding read_payload
  read_payload-typ c want key typ enc a h =
      let (u, g, _) = >>=-eq-ok (guard (str_eq typ want) (wrong_typ typ want)) _ h in
      (str_eq_iff typ want).0 (guard-eq-ok (str_eq typ want) (wrong_typ typ want) g)

  -- Whatever claims a token was signed with, and whoever signed it: if it verifies as an access token
  -- at some time, it verifies as a refresh token at no time.
  pub verify-one_kind :
      (access : Codec AccessCreds) (refresh : Codec RefreshCreds) (keys : ServerKeys) (signer : Str)
      (claims : JwtClaims) (token : Str) (now later : ℤ) (t : AccessToken) (r : RefreshToken)
      → l.sign signer claims ≡ ok token
      → verify_access_token l access keys token now ≡ ok t
      → verify_refresh_token l refresh keys token later ≢ ok r
  unfolding verify_access_token verify_refresh_token
  verify-one_kind access refresh keys signer claims token now later t r s h k =
      let (v, a, _) =
        >>=-eq-ok (verify_and_decrypt l access keys token typ_access keys.encrypt_access true now) _
          h in
      let (w, b, _) =
        >>=-eq-ok
          (verify_and_decrypt l refresh keys token typ_refresh keys.encrypt_refresh false later) _
          k in
      let (_, x, _, _) =
        verify-Admits access keys signer token typ_access keys.encrypt_access true now claims v s
          a in
      let (_, y, _, _) =
        verify-Admits refresh keys signer token typ_refresh keys.encrypt_refresh false later claims
          w s b in
      cc (
        read_payload-typ access typ_access keys.encrypt_access (l.to_text claims.typ)
            (l.to_text claims.enc) v.2 x,
        read_payload-typ refresh typ_refresh keys.encrypt_refresh (l.to_text claims.typ)
            (l.to_text claims.enc) w.2 y,
      )

  -- A payload that is read was decoded and decrypted.
  read_payload-inv :
      {A : Type 0} (c : Codec A) (want key typ enc : Str) (a : A)
      → read_payload l c want key typ enc ≡ ok a
      → (blob : Str) × (decode enc ≡ ok blob) × (decrypt_creds l c key blob ≡ ok a)
  unfolding read_payload
  read_payload-inv c want key typ enc a h =
      let (u, _, r0) = >>=-eq-ok (guard (str_eq typ want) (wrong_typ typ want)) _ h in
      let (v, _, r1) = >>=-eq-ok (guard (not (str_eq enc [])) missing_enc) _ r0 in
      let (blob, d, r2) = >>=-eq-ok (map_err decode_enc (decode enc)) _ r1 in
      (blob, map_err-eq-ok decode_enc _ d, r2)

  -- What was sealed with one key does not decrypt with another.
  decrypt_creds-other :
      {A B : Type 0} (c : Codec A) (d : Codec B) (key other : Str) (nonce : Outcome Str Str)
      (creds : A) (blob : Str) (b : B)
      → length other ≡ 32
      → other ≢ key
      → IsNonce l nonce
      → encrypt_creds l c key nonce creds ≡ ok blob
      → decrypt_creds l d other blob ≢ ok b
  decrypt_creds-other c d key other nonce creds blob b size distinct drawn h opened =
      let (text, n, m, k, e, same) = encrypt_creds-inv l laws c key nonce creds blob h in
      let (failure, f) = laws.unseal-seal_ne key other n text distinct in
      let opens =
        decrypt-sealed l laws d key n text (drawn n e).0 k other
          (laws.new_aead-length other size) in
      err-ne-ok {A = _} (
        sym (
          opens
          ∙ ap (λ o. map_err aead_decrypt o >>= λ t. map_err unmarshal_creds (d.unmarshal t)) f)
        ∙ ap (decrypt_creds l d other) (sym same)
        ∙ opened)

  -- With distinct keys of encryption, claims that carry the payload of an issued access token do not
  -- verify as a refresh token, whatever type they name and whoever signs them.
  pub verify-moved_payload :
      (access : Codec AccessCreds)
      → CodecLaws access (access_as_read l)
      → (refresh : Codec RefreshCreds) (secret : Str) (keys : ServerKeys) (creds : AccessCreds)
        (blob : Str) (nonce : Outcome Str Str) (signer : Str) (claims : JwtClaims) (token : Str)
        (later : ℤ) (r : RefreshToken)
      → from_secret l secret ≡ ok keys
      → keys.encrypt_refresh ≢ keys.encrypt_access
      → IsNonce l nonce
      → encrypt_creds l access keys.encrypt_access nonce creds ≡ ok blob
      → claims.enc ≡ encode blob
      → l.sign signer claims ≡ ok token
      → verify_refresh_token l refresh keys token later ≢ ok r
  unfolding verify_refresh_token
  verify-moved_payload access codec refresh secret keys creds blob nonce signer claims token later r
        k distinct drawn e same s h =
      let are = from_secret-AreKeys l laws secret keys k in
      let (w, b, _) =
        >>=-eq-ok
          (verify_and_decrypt l refresh keys token typ_refresh keys.encrypt_refresh false later) _
          h in
      let (_, y, _, _) =
        verify-Admits refresh keys signer token typ_refresh keys.encrypt_refresh false later claims
          w s b in
      let (read, d, opened) =
        read_payload-inv refresh typ_refresh keys.encrypt_refresh (l.to_text claims.typ)
          (l.to_text claims.enc) w.2 y in
      let (_, are_bytes) =
        decrypt_creds-encrypt_creds l laws access (access_as_read l) codec keys.encrypt_access nonce
          creds blob drawn e in
      let eq = ok-injective (
        sym d
        ∙ ap (λ t. decode (l.to_text t)) same
        ∙ ap decode (to_text-encode l laws blob)
        ∙ decode-encode blob are_bytes) in
      decrypt_creds-other access refresh keys.encrypt_access keys.encrypt_refresh nonce creds blob
        w.2 are.refresh_length distinct drawn e
        (ap (decrypt_creds l refresh keys.encrypt_refresh) (sym eq) ∙ opened)

  key_for-other :
      (keys : ServerKeys) (alg : Str) {key : Str} → key_for keys (other_method alg) ≢ ok key
  unfolding key_for
  key_for-other keys alg h = cc

  -- A token whose header names another method than Ed25519 does not verify, as either kind.
  pub verify-method :
      {A : Type 0} (c : Codec A) (keys : ServerKeys) (token want key : Str) (required : Bool)
      (now : ℤ) (alg : Str) (v : Str × Bool × A)
      → l.method_of token ≡ other_method alg
      → verify_and_decrypt l c keys token want key required now ≢ ok v
  unfolding verify_and_decrypt
  verify-method c keys token want key required now alg v m h =
      let (parsed, p, _) =
        >>=-eq-ok (map_err parse_jwt (l.parse (parser_options required) (key_for keys) now token)) _
          h in
      let (got, g) =
        laws.parse-method (parser_options required) (key_for keys) token now parsed
          (map_err-eq-ok parse_jwt _ p) in
      key_for-other keys alg (ap (key_for keys) (sym m) ∙ g)
