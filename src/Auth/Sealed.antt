-- ===== src/Auth/Sealed.antt =====
-- Lemmas on payloads that were sealed and signed by the code of internal/auth/auth.go.
use bouncer.Base.{
  ℕ, zero, suc, ◌/◌, ◌%◌, ◌≡◌, refl, sym, ap, subst, ◌∙◌, Bool, false, Option, none, List, [], ◌∷◌,
  ◌++◌, arith, ltb, length, take, drop, All, All-append, inl, inr, Str, str_eq, str_eq_refl,
  str_eq_iff, Outcome, ok, >>=-eq-ok, map_err, to_outcome, ◌>>=◌, map_err-eq-ok, to_outcome-eq-ok,
  ok-injective, Bool-cases,
}
use bouncer.Base.Int.{ℤ}
use bouncer.Z85.{encode, encode_words, chunk_loop, digit_char, alphabet, at, word}
use bouncer.Z85.RoundTrip.{IsByte, decode-encode, length-encode}
use bouncer.Auth.Records.{
  ServerKeys, JwtClaims, hkdf_salt, hkdf_info_sign, hkdf_info_encrypt_access,
  hkdf_info_encrypt_refresh,
}
use bouncer.Auth.Library.{Library, Laws, Codec, CodecLaws, Admits, registered_as_read, IsAscii}
use bouncer.Auth.Keys.{from_secret, hkdf_derive, hkdf_expand}
use bouncer.Auth.Sealing.{
  marshal_creds, aead_init, aead_decrypt, unmarshal_creds, rand_nonce, sign_jwt, encrypt_creds,
  decrypt_creds,
}
use bouncer.Auth.Issue.{claims_for, sign_encrypted}
use bouncer.Auth.Verify.{parser_options, key_for, read_payload, verify_and_decrypt}

pub take-append {ℓ} : {A : Type ℓ} (xs ys : List A) → take (length xs) (xs ++ ys) ≡ xs
take-append [] ys = refl
take-append (x ∷ xs) ys = ap (λ l. x ∷ l) (take-append xs ys)

pub drop-append {ℓ} : {A : Type ℓ} (xs ys : List A) → drop (length xs) (xs ++ ys) ≡ ys
drop-append [] ys = refl
drop-append (x ∷ xs) ys = drop-append xs ys

length-le-append {ℓ} : {A : Type ℓ} (xs ys : List A) → ltb (length (xs ++ ys)) (length xs) ≡ false
length-le-append [] ys = ground arith
length-le-append (x ∷ xs) ys = ground (arith, length-le-append xs ys)

-- An encoded payload is not the empty text.
pub encode-ne-empty : (input : List ℕ) → str_eq (encode input) [] ≡ false
encode-ne-empty input = elim (Bool-cases (str_eq (encode input) [])) [
  | inl h ↦
      absurd (
        omega
          (arith, ap (length {A = ℕ}) ((str_eq_iff (encode input) []).0 h), length-encode input))
  | inr h ↦ h
]

module _ (l : Library) where
  -- What `FromSecret` promises of its keys.
  pub record AreKeys (keys : ServerKeys) : Type 0 where
    pub verifying : keys.verifying ≡ l.public_key keys.signing
    pub access_length : length keys.encrypt_access ≡ 32
    pub refresh_length : length keys.encrypt_refresh ≡ 32

  -- A nonce that was drawn has the size of a nonce.
  abbrev pub IsNonce : Outcome Str Str → Type 0
  IsNonce nonce = (n : Str) → nonce ≡ ok n → (length n ≡ l.nonce_size) × All IsByte n

-- An encoded payload is ASCII, so that JSON keeps it.
at-IsAscii : (s : Str) (i : ℕ) → All IsAscii s → IsAscii (at s i)
at-IsAscii [] i h = omega arith
at-IsAscii (c ∷ s) zero (a, h) = a
at-IsAscii (c ∷ s) (suc i) (a, h) = at-IsAscii s i h

alphabet-IsAscii : All IsAscii alphabet
alphabet-IsAscii = omega arith

chunk_loop-IsAscii :
    (j v : ℕ) (chunk : Str) → All IsAscii chunk → All IsAscii (chunk_loop j v chunk)
unfolding chunk_loop digit_char
chunk_loop-IsAscii zero v chunk h = h
chunk_loop-IsAscii (suc j) v chunk h =
    chunk_loop-IsAscii j (v / 85) (at alphabet (v % 85) ∷ chunk)
      (at-IsAscii alphabet (v % 85) alphabet-IsAscii, h)

encode_words-IsAscii : (buf : List ℕ) → All IsAscii (encode_words buf)
unfolding encode_words
encode_words-IsAscii (a ∷ b ∷ c ∷ d ∷ buf) =
    All-append IsAscii (chunk_loop 5 (word a b c d) []) (encode_words buf)
      (chunk_loop-IsAscii 5 (word a b c d) [] tt) (encode_words-IsAscii buf)
encode_words-IsAscii (a ∷ b ∷ c ∷ []) = tt
encode_words-IsAscii (a ∷ b ∷ []) = tt
encode_words-IsAscii (a ∷ []) = tt
encode_words-IsAscii [] = tt

pub to_text-encode : (l : Library) → Laws l → (blob : Str) → l.to_text (encode blob) ≡ encode blob
unfolding encode
to_text-encode l laws blob = laws.to_text-ascii (encode blob) (encode_words-IsAscii _)

module _ (l : Library) (laws : Laws l) where
  hkdf_derive-length :
      (ikm info : Str) (size : ℕ) (out : Str)
      → hkdf_derive l ikm info size ≡ ok out
      → length out ≡ size
  unfolding hkdf_derive
  hkdf_derive-length ikm info size out h =
      laws.hkdf-length ikm hkdf_salt info size out (map_err-eq-ok (hkdf_expand info) _ h)

  -- What `FromSecret` makes from a secret are such keys.
  pub from_secret-AreKeys :
      (secret : Str) (keys : ServerKeys) → from_secret l secret ≡ ok keys → AreKeys l keys
  unfolding from_secret hkdf_derive
  from_secret-AreKeys secret keys h =
      let (seed, h0, r0) = >>=-eq-ok (hkdf_derive l secret hkdf_info_sign 32) _ h in
      let (access, h1, r1) = >>=-eq-ok (hkdf_derive l secret hkdf_info_encrypt_access 32) _ r0 in
      let (refresh, h2, r2) = >>=-eq-ok (hkdf_derive l secret hkdf_info_encrypt_refresh 32) _ r1 in
      subst (AreKeys l) (ok-injective r2) (record {
        verifying = refl;
        access_length = hkdf_derive-length secret hkdf_info_encrypt_access 32 access h1;
        refresh_length = hkdf_derive-length secret hkdf_info_encrypt_refresh 32 refresh h2;
      })

  module _ {A : Type 0} (c : Codec A) where
    -- The parts of a payload that was encrypted.
    pub encrypt_creds-inv :
        (key : Str) (nonce : Outcome Str Str) (creds : A) (blob : Str)
        → encrypt_creds l c key nonce creds ≡ ok blob
        → (text : Str) × (n : Str) × (c.marshal creds ≡ ok text)
          × (l.new_aead key ≡ none)
          × (nonce ≡ ok n)
          × (blob ≡ n ++ l.seal key n text)
    unfolding encrypt_creds
    encrypt_creds-inv key nonce creds blob h =
        let (text, h0, r0) = >>=-eq-ok (map_err marshal_creds (c.marshal creds)) _ h in
        let (u, h1, r1) = >>=-eq-ok (map_err aead_init (to_outcome (l.new_aead key) tt)) _ r0 in
        let (n, h2, r2) = >>=-eq-ok (map_err rand_nonce nonce) _ r1 in
        (
          text,
          n,
          map_err-eq-ok marshal_creds _ h0,
          (to_outcome-eq-ok (l.new_aead key) tt (map_err-eq-ok aead_init _ h1)).0,
          map_err-eq-ok rand_nonce _ h2,
          sym (ok-injective r2),
        )

    -- What decryption does with a nonce and the text that was sealed with it.
    pub decrypt-sealed :
        (key n text : Str)
        → length n ≡ l.nonce_size
        → l.new_aead key ≡ none
        → (other : Str) → l.new_aead other ≡ none
        → decrypt_creds l c other (n ++ l.seal key n text) ≡ (
            map_err aead_decrypt (l.unseal other n (l.seal key n text)) >>= λ t.
            map_err unmarshal_creds (c.unmarshal t))
    unfolding decrypt_creds
    decrypt-sealed key n text size k other o =
        let sealed = l.seal key n text in
        rw (o, ← size, length-le-append n sealed, take-append n sealed, drop-append n sealed) refl

    -- A token that was issued: its blob and its claims.
    pub sign_encrypted-inv :
        (keys : ServerKeys) (subject typ key : Str) (creds : A) (ttl : Option ℤ) (admin : Bool)
        (now : ℤ) (nonce : Outcome Str Str) (token : Str)
        → sign_encrypted l c keys subject typ key creds ttl admin now nonce ≡ ok token
        → (blob : Str) × (encrypt_creds l c key nonce creds ≡ ok blob)
          × (l.sign keys.signing (claims_for l subject typ blob ttl admin now) ≡ ok token)
    unfolding sign_encrypted
    sign_encrypted-inv keys subject typ key creds ttl admin now nonce token h =
        let (blob, h0, r) = >>=-eq-ok (encrypt_creds l c key nonce creds) _ h in
        (blob, h0, map_err-eq-ok sign_jwt _ r)

  module _ {A : Type 0} (c : Codec A) (as_read : A → A) (codec : CodecLaws c as_read) where
    pub decrypt_creds-encrypt_creds :
        (key : Str) (nonce : Outcome Str Str) (creds : A) (blob : Str)
        → IsNonce l nonce
        → encrypt_creds l c key nonce creds ≡ ok blob
        → (decrypt_creds l c key blob ≡ ok (as_read creds)) × All IsByte blob
    decrypt_creds-encrypt_creds key nonce creds blob drawn h =
        let (text, n, m, k, e, b) = encrypt_creds-inv c key nonce creds blob h in
        let (size, are_bytes) = drawn n e in
        (
          rw
              (
                b,
                decrypt-sealed c key n text size k key k,
                laws.unseal-seal key n text,
                codec.unmarshal-marshal creds text m,
              )
              refl,
          subst (All IsByte) (sym b)
              (All-append IsByte n _ are_bytes (laws.seal-IsByte key n text)),
        )

    -- What verification reads in claims of a type whose payload was encrypted with a key.
    pub read_payload-sealed :
        (key typ : Str) (nonce : Outcome Str Str) (creds : A) (blob : Str)
        → IsNonce l nonce
        → encrypt_creds l c key nonce creds ≡ ok blob
        → read_payload l c typ key typ (encode blob) ≡ ok (as_read creds)
    unfolding read_payload
    read_payload-sealed key typ nonce creds blob drawn h =
        let (opened, are_bytes) = decrypt_creds-encrypt_creds key nonce creds blob drawn h in
        rw (str_eq_refl typ, encode-ne-empty blob, decode-encode blob are_bytes, opened) refl

    -- What verification makes of claims that golang-jwt admits.
    verify-admitted :
        (keys : ServerKeys) (token want key : Str) (required : Bool) (now : ℤ) (claims : JwtClaims)
        → keys.verifying ≡ l.public_key keys.signing
        → l.sign keys.signing claims ≡ ok token
        → Admits (parser_options required) (registered_as_read l claims.registered) now
        → verify_and_decrypt l c keys token want key required now ≡ (
            read_payload l c want key (l.to_text claims.typ) (l.to_text claims.enc) >>= λ creds.
            ok (l.to_text claims.registered.subject, claims.admin, creds))
    unfolding verify_and_decrypt
    verify-admitted keys token want key required now claims k s a =
        rw
          (laws.parse-sign (parser_options required) (key_for keys) keys.signing claims token now s
            (unfold key_for in ap ok k) a)
          refl

    -- A token that golang-jwt admits is read as it was issued.
    pub verify-sign :
        (keys : ServerKeys) (subject typ key : Str) (creds : A) (ttl : Option ℤ) (admin : Bool)
        (now later : ℤ) (nonce : Outcome Str Str) (token : Str) (required : Bool)
        → AreKeys l keys
        → IsNonce l nonce
        → l.to_text typ ≡ typ
        → sign_encrypted l c keys subject typ key creds ttl admin now nonce ≡ ok token
        → ((blob : Str)
            → Admits
                (parser_options required)
                (registered_as_read l (claims_for l subject typ blob ttl admin now).registered)
                later)
        → verify_and_decrypt l c keys token typ key required later
          ≡ ok (l.to_text subject, admin, as_read creds)
    unfolding claims_for
    verify-sign keys subject typ key creds ttl admin now later nonce token required k drawn text h
          a =
        let (blob, e, s) =
          sign_encrypted-inv c keys subject typ key creds ttl admin now nonce token h in
        verify-admitted keys token typ key required later
          (claims_for l subject typ blob ttl admin now) k.verifying s (a blob)
        ∙ ap
            (λ t. read_payload l c typ key t (l.to_text (encode blob)) >>= λ creds.
              ok (l.to_text subject, admin, creds))
            text
        ∙ ap (λ t. read_payload l c typ key typ t >>= λ creds. ok (l.to_text subject, admin, creds))
            (to_text-encode l laws blob)
        ∙ ap (λ o. o >>= λ creds. ok (l.to_text subject, admin, creds))
            (read_payload-sealed key typ nonce creds blob drawn e)
