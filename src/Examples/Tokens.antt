-- ===== src/Examples/Tokens.antt =====
-- Examples of tokens (internal/auth/auth.go), on the concrete library.
use bouncer.Base.{
  ℕ, ◌*◌, ◌+◌, ◌≡◌, ◌≢◌, refl, ap, true, false, none, some, List, [], ◌∷◌, arith, inl, replicate,
  Str, bytes, Outcome, ok, err, ◌>>=◌, All, length, subst, ok-injective,
}
use bouncer.Base.Int.{ℤ, pos, ◌+ℤ◌}
use bouncer.Z85.RoundTrip.{IsByte}
use bouncer.Auth.Records.{
  ServerKeys, AccessCreds, RefreshCreds, Header, JwtClaims, typ_access, typ_refresh, second,
}
use bouncer.Auth.Library.{Codec, CodecLaws, access_as_read, refresh_as_read}
use bouncer.Auth.Keys.{from_secret, hkdf_derive}
use bouncer.Auth.Sealing.{AuthError, encrypt_creds}
use bouncer.Auth.Issue.{claims_for, sign_encrypted, issue_access_token, issue_refresh_token}
use bouncer.Auth.Verify.{verify_access_token, verify_refresh_token}
use bouncer.Auth.Sealed.{IsNonce}
use bouncer.Auth.RoundTrip.{verify_access_token-issued, verify_refresh_token-issued, refresh_expiry}
use bouncer.Auth.Refusals.{verify-one_kind, verify-moved_payload}
use bouncer.Examples.ToyLibrary.{framed, unframed, unframed-framed}
use bouncer.Examples.ToyLaws.{toy_library, toy-Laws}

-- Payloads with headers have no text here.
abbrev pub without_headers : List Header → Str → Outcome Str Str
without_headers [] text = ok text
without_headers (_ ∷ _) text = err (bytes "headers")

abbrev pub access_codec : Codec AccessCreds
access_codec = record {
  marshal = λ creds. without_headers creds.headers creds.access_token;
  unmarshal = λ text. ok (record { access_token = text; headers = [] });
}

access_unmarshal :
    (headers : List Header) (token text : Str)
    → without_headers headers token ≡ ok text
    → access_codec.unmarshal text
      ≡ ok (access_as_read toy_library (record { access_token = token; headers = headers }))
access_unmarshal [] token text h = cc
access_unmarshal (x ∷ xs) token text h = cc

pub access_codec-laws : CodecLaws access_codec (access_as_read toy_library)
access_codec-laws = record {
  unmarshal-marshal = λ a text h. access_unmarshal a.headers a.access_token text h;
}

abbrev pub refresh_codec : Codec RefreshCreds
refresh_codec = record {
  marshal = λ creds. without_headers creds.headers (framed creds.refresh_token creds.token_url);
  unmarshal = λ text. do
    (token, url) ← unframed text
    ok (record { refresh_token = token; token_url = url; headers = [] });
}

refresh_unmarshal :
    (headers : List Header) (token url text : Str)
    → without_headers headers (framed token url) ≡ ok text
    → refresh_codec.unmarshal text
      ≡ ok (
          refresh_as_read toy_library
            (record { refresh_token = token; token_url = url; headers = headers }))
refresh_unmarshal [] token url text h = rw (← (ok-injective h), unframed-framed token url) refl
refresh_unmarshal (x ∷ xs) token url text h = cc

pub refresh_codec-laws : CodecLaws refresh_codec (refresh_as_read toy_library)
refresh_codec-laws = record {
  unmarshal-marshal = λ a text h. refresh_unmarshal a.headers a.refresh_token a.token_url text h;
}

abbrev pub secret : Str
secret = []

abbrev pub server_keys : ServerKeys
server_keys = record {
  signing = replicate 32 4;
  verifying = replicate 32 4;
  encrypt_access = replicate 32 14;
  encrypt_refresh = replicate 32 15;
}

pub derived : from_secret toy_library secret ≡ ok server_keys
unfolding from_secret hkdf_derive
derived = refl

abbrev pub drawn_nonce : Outcome Str Str
drawn_nonce = ok (7 ∷ 8 ∷ [])

pub drawn_nonce-IsNonce : IsNonce toy_library drawn_nonce
drawn_nonce-IsNonce n h =
    subst (λ m. (length m ≡ 2) × All IsByte m) (ok-injective h)
      (refl, (omega arith, (omega arith, tt)))

abbrev sum : Str → ℕ
sum [] = 0
sum (n ∷ s) = n + sum s

abbrev pub value {ℓ κ} : {E : Type ℓ} {A : Type κ} → Outcome E A → A → A
value (ok a) d = a
value (err e) d = d

abbrev pub upstream : AccessCreds
upstream = record { access_token = bytes "x"; headers = [] }

abbrev pub renewal : RefreshCreds
renewal = record { refresh_token = bytes "r"; token_url = bytes "https://u/t"; headers = [] }

abbrev pub minute : ℤ
minute = pos (60 * second)

-- At time 1,000 seconds, for a minute
abbrev pub made : ℤ
made = pos (1000 * second)

abbrev pub access_result : Outcome AuthError Str
access_result =
    issue_access_token toy_library access_codec server_keys (bytes "bob") upstream minute false made
      drawn_nonce

abbrev pub access_jwt : Str
access_jwt = value access_result []

pub issued_access : access_result ≡ ok access_jwt
unfolding issue_access_token sign_encrypted encrypt_creds claims_for
issued_access = refl

verify_access_token-issued_example :
    verify_access_token toy_library access_codec server_keys access_jwt (pos (1089 * second))
    ≡ ok (record { subject = bytes "bob"; creds = upstream; admin = false })
verify_access_token-issued_example =
    verify_access_token-issued toy_library toy-Laws access_codec access_codec-laws secret
      server_keys (bytes "bob") upstream minute false made (pos (1089 * second)) drawn_nonce
      access_jwt derived drawn_nonce-IsNonce issued_access (omega arith)
      (unfold ◌+ℤ◌ in omega arith)

-- At time 2,000 seconds, without an end
abbrev refresh_result : Outcome AuthError Str
refresh_result =
    issue_refresh_token toy_library refresh_codec server_keys (bytes "bob") renewal (pos 0) true
      (pos (2000 * second)) drawn_nonce

abbrev refresh_jwt : Str
refresh_jwt = value refresh_result []

issued_refresh : refresh_result ≡ ok refresh_jwt
unfolding issue_refresh_token sign_encrypted encrypt_creds claims_for
issued_refresh = refl

verify_refresh_token-issued_example :
    verify_refresh_token toy_library refresh_codec server_keys refresh_jwt (pos (9000000 * second))
    ≡ ok (record {
      subject = bytes "bob";
      creds = renewal;
      admin = true;
      expires_at = refresh_expiry toy_library (pos 0) (pos (2000 * second));
    })
verify_refresh_token-issued_example =
    verify_refresh_token-issued toy_library toy-Laws refresh_codec refresh_codec-laws secret
      server_keys (bytes "bob") renewal (pos 0) true (pos (2000 * second)) (pos (9000000 * second))
      drawn_nonce refresh_jwt derived drawn_nonce-IsNonce (λ e. cc) issued_refresh (omega arith)
      (inl (omega arith))

-- The text of the payload of the access token.
abbrev access_blob : Str
access_blob =
    value (encrypt_creds toy_library access_codec server_keys.encrypt_access drawn_nonce upstream)
      []

sealed_access :
    encrypt_creds toy_library access_codec server_keys.encrypt_access drawn_nonce upstream
    ≡ ok access_blob
unfolding encrypt_creds
sealed_access = refl

-- The claims of the access token, and those with the other type.
abbrev access_claims : JwtClaims
access_claims = claims_for toy_library (bytes "bob") typ_access access_blob (some minute) false made

abbrev confused : JwtClaims
confused = claims_for toy_library (bytes "bob") typ_refresh access_blob (some minute) false made

abbrev confused_jwt : Str
confused_jwt = value (toy_library.sign server_keys.signing confused) []

signed_access : toy_library.sign server_keys.signing access_claims ≡ ok access_jwt
unfolding issue_access_token sign_encrypted encrypt_creds claims_for
signed_access = refl

signed_confused : toy_library.sign server_keys.signing confused ≡ ok confused_jwt
unfolding encrypt_creds claims_for
signed_confused = refl

verify-one_kind_example :
    verify_refresh_token toy_library refresh_codec server_keys access_jwt made
    ≢ ok (record { subject = []; creds = renewal; admin = false; expires_at = none })
verify-one_kind_example =
    verify-one_kind toy_library toy-Laws access_codec refresh_codec server_keys server_keys.signing
      access_claims access_jwt (pos (1089 * second)) made
      (record { subject = bytes "bob"; creds = upstream; admin = false })
      (record { subject = []; creds = renewal; admin = false; expires_at = none }) signed_access
      verify_access_token-issued_example

verify-moved_payload_example :
    verify_refresh_token toy_library refresh_codec server_keys confused_jwt made
    ≢ ok (record { subject = []; creds = renewal; admin = false; expires_at = none })
verify-moved_payload_example =
    verify-moved_payload toy_library toy-Laws access_codec access_codec-laws refresh_codec secret
      server_keys upstream access_blob drawn_nonce server_keys.signing confused confused_jwt made
      (record { subject = []; creds = renewal; admin = false; expires_at = none }) derived
      (λ e. absurd (omega (arith, ap sum e))) drawn_nonce-IsNonce sealed_access
      (unfold claims_for in refl) signed_confused
